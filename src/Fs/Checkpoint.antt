-- ===== src/Fs/Checkpoint.antt =====
-- The state pool of src/cr_util.cpp, and checkpoint and restore of src/fuse_cpp_ramfs.cpp.
-- The program's copy of an inode shares the buffers of its extended attributes with the original.
-- There are no shared buffers here: the copy of an inode that has attributes is left undefined,
-- `none`, like the runs that stop.
pub mod Laws
use veri_fs.Base.{
  ℕ, Option, none, some, Bool, true, false, ◌&&◌, if◌then◌else◌, List, [], ◌∷◌, ◌==◌, ◌>>=◌, ℤ, pos,
  neg, mul64,
}
use veri_fs.Types.{
  Inode, Node, Statvfs, file, directory, symlink, special, buf_block_size, enoent, ebadf, eexist,
}
use veri_fs.Memory.{Allocator, read_bytes}
use veri_fs.Fs.{Fs, Table, SavedState}
use veri_fs.Fs.Create.{file_type}

abbrev pub Pool : Type 0
Pool = List (ℕ × SavedState)

-- state_pool.find.
unfoldable pub lookup : ℕ → Pool → Option SavedState
lookup key [] = none
lookup key ((k, s) ∷ rest) = if k == key then some s else lookup key rest

-- insert_state.
unfoldable pub insert_state : ℕ → SavedState → Pool → ℤ × Pool
unfolding lookup
insert_state key s pool = elim (lookup key pool) [
  | some _ ↦ (neg (pos eexist), pool)
  | none ↦ (pos 0, (key, s) ∷ pool)
]

-- find_state: a state that is not there is an empty one.
unfoldable pub find_state : ℕ → Pool → SavedState
unfolding lookup
find_state key pool = elim (lookup key pool) [
  | some s ↦ s
  | none ↦ record {
    stored_files = [];
    stored_deleted = [];
    stored_stbuf = record {
      f_bsize = 0;
      f_frsize = 0;
      f_blocks = 0;
      f_bfree = 0;
      f_bavail = 0;
      f_files = 0;
      f_ffree = 0;
      f_favail = 0;
      f_fsid = 0;
      f_flag = 0;
      f_namemax = 0;
    };
  }
]

-- state_pool.erase of the entry that find gives.
unfoldable pub erase : ℕ → Pool → Pool
erase key [] = []
erase key ((k, s) ∷ rest) = if k == key then rest else (k, s) ∷ erase key rest

-- remove_state.
unfoldable pub remove_state : ℕ → Pool → ℤ × Pool
unfolding lookup erase
remove_state key pool = elim (lookup key pool) [
  | none ↦ (neg (pos enoent), pool)
  | some _ ↦ (pos 0, erase key pool)
]

-- The copy constructor of File: as many bytes as the blocks have. Without memory the program exits.
unfoldable pub copy_file : Allocator → Inode → List ℕ → Option Inode
unfolding read_bytes
copy_file m i b =
    let size = mul64 i.st_blocks buf_block_size in
    if m.grants size
    then (do bytes ← read_bytes b 0 size; some (record i { node = file bytes }))
    else none

-- The copy of one inode, by its mode; the inner `none` is a dynamic_cast that fails.
unfoldable pub copy_by_mode : Allocator → Inode → Option (Option Inode)
unfolding copy_file
copy_by_mode m i =
    if file_type i.st_mode == 8
    then elim i.node [ file b ↦ (do j ← copy_file m i b; some (some j)) | _ ↦ some none ]
    else if file_type i.st_mode == 4
    then elim i.node [ directory c ↦ some (some i) | _ ↦ some none ]
    else if file_type i.st_mode == 10
    then elim i.node [ symlink t ↦ some (some i) | _ ↦ some none ]
    else elim i.node [ special t ↦ some (some i) | _ ↦ some none ]

unfoldable pub copy_inode : Allocator → Inode → Option (Option Inode)
unfolding copy_by_mode
copy_inode m i = elim i.xattr [ [] ↦ copy_by_mode m i | _ ∷ _ ↦ none ]

-- The loop over the table that checkpoint and restore share; the first failed cast ends it.
unfoldable pub copy_table : Allocator → Table → Option (Option Table)
unfolding copy_inode
copy_table m [] = some (some [])
copy_table m (none ∷ t) = do
  rest ← copy_table m t
  some (elim rest [ none ↦ none | some t' ↦ some (none ∷ t') ])
copy_table m (some i ∷ t) =
    let copied = copy_table m t in
    do
      one ← copy_inode m i
      elim one [
        | none ↦ some none
        | some j ↦ do rest ← copied; some (elim rest [ none ↦ none | some t' ↦ some (some j ∷ t') ])
      ]

-- checkpoint.
unfoldable pub checkpoint : Allocator → ℕ → Fs → Option (ℤ × Fs)
unfolding copy_table insert_state
checkpoint m key fs = do
  copied ← copy_table m fs.inodes
  elim copied [
    | none ↦ some (neg (pos ebadf), fs)
    | some t ↦
        let (ret, pool) =
          insert_state key
            (record {
              stored_files = t;
              stored_deleted = fs.deleted_inodes;
              stored_stbuf = fs.m_stbuf;
            })
            fs.state_pool in
        some (ret, record fs { state_pool = pool })
  ]

-- Whether invalidate_kernel_states can walk the table: it follows the cast of each inode whose mode
-- says directory. Its notifications are not part of the state.
unfoldable pub can_notify : Table → Bool
can_notify [] = true
can_notify (none ∷ t) = can_notify t
can_notify (some i ∷ t) =
    (if file_type i.st_mode == 4 then (elim i.node [ directory c ↦ true | _ ↦ false ]) else true)
    && can_notify t

-- Whether a stored state is empty, which restore takes for a missing one.
abbrev pub nothing_stored : SavedState → Bool
nothing_stored s = elim s.stored_files [
  | [] ↦ elim s.stored_deleted [ [] ↦ true | _ ∷ _ ↦ false ]
  | _ ∷ _ ↦ false
]

-- restore.
unfoldable pub restore : Allocator → ℕ → Fs → Option (ℤ × Fs)
unfolding find_state copy_table remove_state can_notify
restore m key fs =
    let s = find_state key fs.state_pool in
    if nothing_stored s
    then some (neg (pos enoent), fs)
    else if can_notify fs.inodes
    then (do
      copied ← copy_table m s.stored_files
      elim copied [
        | none ↦ some (neg (pos ebadf), fs)
        | some t ↦ some (
          pos 0,
          record fs {
            inodes = t;
            deleted_inodes = s.stored_deleted;
            m_stbuf = s.stored_stbuf;
            state_pool = (remove_state key fs.state_pool).1;
          },
        )
      ])
    else none
