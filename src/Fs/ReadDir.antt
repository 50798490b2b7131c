-- ===== src/Fs/ReadDir.antt =====
-- FuseReadDir of src/fuse_cpp_ramfs.cpp, with PrepareReaddir and RecycleStates of src/directory.cpp.
-- fuse_add_direntry, the results of rand and malloc are parameters; `none` is an iterator before the
-- first child, a write through a bad pointer, a reply from a null buffer, or a rand that was not
-- given.
pub mod Fill
pub mod Listing
use veri_fs.Base.{
  ℕ, zero, suc, ◌+◌, ◌*◌, ◌/◌, ◌%◌, ◌^◌, Option, none, some, Bool, true, false, not, ◌&&◌, ◌||◌,
  if◌then◌else◌, List, [], ◌∷◌, ◌++◌, ◌==◌, ltb, leb, ◌>>=◌, length, drop, pos, add64, mul64,
}
use veri_fs.Types.{Bytes, Name, Attr, Inode, enoent, enomem, enotdir}
use veri_fs.Replies.{Reply, err, buf}
use veri_fs.Memory.{Allocator}
use veri_fs.Fs.{Fs, ReadDirCtx, Outcome, reply, linked_inode, as_directory}

abbrev pub States : Type 0
States = List (ℕ × ReadDirCtx)

-- kReadDirEntriesPerResponse and kReadDirBufSize.
abbrev pub entries_per_response : ℕ
entries_per_response = 255

abbrev pub buf_size : ℕ
buf_size = 384

-- What fuse_add_direntry makes of a name, attributes and a cookie: it returns the number of the
-- bytes, and copies them if there is room for them.
abbrev pub Direntry : Type 0
Direntry = Name → Attr → ℕ → Bytes

-- readdirStates.find.
unfoldable pub find_context : ℕ → States → Option ReadDirCtx
find_context key [] = none
find_context key ((k, ctx) ∷ rest) = if k == key then some ctx else find_context key rest

-- A write through the pointer that the table holds for a key.
unfoldable pub set_context : ℕ → ReadDirCtx → States → States
set_context key ctx [] = []
set_context key ctx ((k, c) ∷ rest) =
    if k == key then (k, ctx) ∷ rest else (k, c) ∷ set_context key ctx rest

-- rand() & 0xffff, until it is a key that is not in use.
unfoldable pub fresh_key : List ℕ → States → Option ℕ
unfolding find_context
fresh_key [] states = none
fresh_key (r ∷ rands) states = elim (find_context (r % 65536) states) [
  | none ↦ some (r % 65536)
  | some _ ↦ fresh_key rands states
]

-- PrepareReaddir: the key of the context and the table; the inner `none` is std::out_of_range.
unfoldable pub prepare_readdir :
    List ℕ → ℕ → List (Name × ℕ) → States → Option (Option (ℕ × ReadDirCtx) × States)
unfolding find_context fresh_key
prepare_readdir rands cookie children states =
    if cookie == 0
    then (do
      key ← fresh_key rands states
      let ctx : ReadDirCtx = record { cookie = key * 65536; it = 0; children = children }
      some (some (key, ctx), (key, ctx) ∷ states))
    else elim (find_context (cookie / 65536 % 65536) states) [
      | none ↦ some (none, states)
      | some ctx ↦ some (some (cookie / 65536 % 65536, ctx), states)
    ]

-- RecycleStates.
unfoldable pub recycle_states : States → States
recycle_states [] = []
recycle_states ((k, ctx) ∷ rest) =
    let kept = recycle_states rest in
    if ctx.it == length ctx.children then kept else (k, ctx) ∷ kept

-- Where the loop of FuseReadDir leaves the iterator, the cookie and the buffer.
pub record Filled : Type 0 where
  pub it : ℕ
  pub cookie : ℕ
  pub out : Bytes

-- The exit from the loop where an entry did not fit.
abbrev pub back_up : Filled → Option Filled
back_up f = elim f.it [
  | zero ↦ none
  | suc it ↦ some (record f { it = it; cookie = add64 f.cookie 1 })
]

-- The loop over the children from the iterator on. `mapped` is whether malloc gave a buffer: without
-- one fuse_add_direntry is given a null pointer at the start, for which it only counts, and a bad
-- pointer behind it, where a write stops the run.
unfoldable pub fill : Direntry → Bool → ℕ → Fs → ℕ → List (Name × ℕ) → Filled → Option Filled
unfolding linked_inode
fill entry mapped room fs added [] f = some f
fill entry mapped room fs added ((name, ino) ∷ rest) f = elim (ltb added entries_per_response) [
  | false ↦ some f
  | true ↦ elim (linked_inode fs ino) [
    | none ↦ fill entry mapped room fs added rest (record f { it = suc f.it })
    | some i ↦
        let bytes = entry name (record i.attr { st_ino = ino }) (add64 f.cookie 1) in
        elim (leb (length f.out + length bytes) room) [
          | false ↦ back_up f
          | true ↦ elim (mapped || length f.out == 0) [
            | false ↦ none
            | true ↦
                fill entry mapped room fs (suc added) rest
                  (record { it = suc f.it; cookie = add64 f.cookie 1; out = f.out ++ bytes })
          ]
        ]
  ]
]

-- FuseReadDir from the allocation of the buffer on. Without memory it replies twice, and a second
-- reply with bytes has no buffer to take them from.
unfoldable pub respond : Allocator → Direntry → ℕ → ℕ → ReadDirCtx → Fs → Outcome
unfolding fill set_context recycle_states
respond m entry size key ctx fs =
    let room = if ltb buf_size size then buf_size else size in
    let start : Filled = record { it = ctx.it; cookie = ctx.cookie; out = [] } in
    do
      f ← fill entry (m.grants room) room fs 0 (drop ctx.it ctx.children) start
      let moved : ReadDirCtx = record ctx { it = f.it; cookie = f.cookie }
      let states = recycle_states (set_context key moved fs.readdir_states)
      let left : Fs = record fs { readdir_states = states }
      if m.grants room
          then some (buf f.out ∷ [], left)
          else if length f.out == 0
          then some (err (pos enomem) ∷ buf f.out ∷ [], left)
          else none

-- FuseReadDir.
unfoldable pub fuse_read_dir : Allocator → Direntry → List ℕ → ℕ → ℕ → ℕ → Fs → Outcome
unfolding linked_inode prepare_readdir respond
fuse_read_dir m entry rands ino size off fs = elim (linked_inode fs ino) [
  | none ↦ reply (err (pos enoent)) fs
  | some i ↦ elim (as_directory i) [
    | none ↦ reply (err (pos enotdir)) fs
    | some c ↦ do
      (found, states) ← prepare_readdir rands off c fs.readdir_states
      elim found [
        | none ↦ reply (buf []) fs
        | some (key, ctx) ↦ respond m entry size key ctx (record fs { readdir_states = states })
      ]
  ]
]
