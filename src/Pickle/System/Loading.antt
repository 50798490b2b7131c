-- ===== src/Pickle/System/Loading.antt =====
-- load_file_system of src/pickle.cpp. What it has loaded when it throws stays in the tables.
use veri_fs.Base.{
  ℕ, zero, suc, ◌-◌, Option, none, some, if◌then◌else◌, List, [], ◌∷◌, ◌++◌, ◌==◌, ◌||◌, length,
  drop, ℤ, pos, neg,
}
use veri_fs.Types.{
  Bytes, Inode, Node, Statvfs, file, directory, symlink, special, no_block, enomem, einval,
}
use veri_fs.Memory.{Allocator}
use veri_fs.Inode.{new_inode}
use veri_fs.Fs.{Fs, Table}
use veri_fs.Fs.Create.{file_type}
use veri_fs.Fs.Checkpoint.{insert_state}
use veri_fs.Pickle.{Image, InodeState, Layout, next, next_word}
use veri_fs.Pickle.Methods.{load}
use veri_fs.Pickle.Runs.{Run, done, thrown, stuck, ◌>>=◌, return, modify}

-- The pointer, the file system that is loaded, and the local variables cr_inodes and
-- cr_deleted_inodes.
pub record Loader : Type 0 where
  pub ptr : Bytes
  pub fs : Fs
  pub cr_inodes : Table
  pub cr_deleted_inodes : List ℕ

-- A copy from the pointer, which moves past it.
abbrev pub reading : {A : Type 0} → (Bytes → Option (A × Bytes)) → Loader → Run Loader A
reading f t = elim (f t.ptr) [ none ↦ stuck | some (a, p) ↦ done a (record t { ptr = p }) ]

-- memcpy to a struct.
unfoldable pub next_image : {A : Type 0} → Image A → Bytes → Option (A × Bytes)
unfolding next
next_image image ptr = elim (next image.size ptr) [
  | none ↦ none
  | some (bytes, p) ↦ some (image.of_bytes bytes, p)
]

-- The class of the object that is made for a mode; `none` throws.
unfoldable pub class_of_mode : ℕ → Option Node
class_of_mode mode =
    if file_type mode == 8
    then some (file [])
    else if file_type mode == 4
    then some (directory [])
    else if file_type mode == 10
    then some (symlink [])
    else if file_type mode == 2
        || (file_type mode == 6 || (file_type mode == 12 || (file_type mode == 1 || mode == 0)))
    then some (special no_block)
    else none

-- inodes.push_back and cr_inodes.push_back.
abbrev pub push_inode : Inode → Loader → Loader
push_inode i t = record t { fs = record t.fs { inodes = t.fs.inodes ++ some i ∷ [] } }

abbrev pub push_cr_inode : Inode → Loader → Loader
push_cr_inode i t = record t { cr_inodes = t.cr_inodes ++ some i ∷ [] }

-- The new object, Load, push_back, and the test of what Load returned.
unfoldable pub load_object :
    Layout → Allocator → (Inode → Loader → Loader) → ℕ → Loader → Run Loader (Unit {0})
unfolding class_of_mode load new_inode
load_object l m push mode t = elim (class_of_mode mode) [
  | none ↦ thrown einval t
  | some n ↦ elim (load l m t.ptr (new_inode n)) [
    | none ↦ stuck
    | some (res, i) ↦
        let pushed = push i t in
        if res == 0
        then thrown enomem pushed
        else done tt (record pushed { ptr = drop res pushed.ptr })
  ]
]

-- A slot that had no inode is skipped.
unfoldable pub load_slot :
    Layout → Allocator → (Inode → Loader → Loader) → InodeState → Loader → Run Loader (Unit {0})
unfolding load_object
load_slot l m push iinfo = if iinfo.exist then load_object l m push iinfo.mode else return tt

-- The loops over inodes.
unfoldable pub load_slots :
    Layout → Allocator → (Inode → Loader → Loader) → ℕ → Loader → Run Loader (Unit {0})
unfolding load_slot next_image
load_slots l m push zero = return tt
load_slots l m push (suc n) = do
  iinfo ← reading (next_image l.inode_state)
  _ ← load_slot l m push iinfo
  load_slots l m push n

-- pending_delete_inodes.push and cr_deleted_inodes.push.
abbrev pub push_deleted : ℕ → Loader → Loader
push_deleted ino t = record t {
  fs = record t.fs { deleted_inodes = t.fs.deleted_inodes ++ ino ∷ [] };
}

abbrev pub push_cr_deleted : ℕ → Loader → Loader
push_cr_deleted ino t = record t { cr_deleted_inodes = t.cr_deleted_inodes ++ ino ∷ [] }

-- The loops over inode numbers.
unfoldable pub load_numbers : (ℕ → Loader → Loader) → ℕ → Loader → Run Loader (Unit {0})
unfolding next_word
load_numbers push zero = return tt
load_numbers push (suc n) = do ino ← reading next_word; _ ← modify (push ino); load_numbers push n

-- insert_state, with its result tested.
unfoldable pub load_insert : ℕ → Statvfs → Loader → Run Loader (Unit {0})
unfolding insert_state
load_insert key stbuf t =
    let (ret, pool) =
      insert_state key
        (record {
          stored_files = t.cr_inodes;
          stored_deleted = t.cr_deleted_inodes;
          stored_stbuf = stbuf;
        })
        t.fs.state_pool in
    elim ret [
      | pos zero ↦ done tt (record t { fs = record t.fs { state_pool = pool } })
      | _ ↦ thrown einval t
    ]

-- The step of the loop over the state pool.
unfoldable pub load_state : Layout → Allocator → Loader → Run Loader (Unit {0})
unfolding load_slots load_numbers load_insert next_word next_image
load_state l m = do
  key ← reading next_word
  num_stored_files ← reading next_word
  _ ← modify (λ t. record t { cr_inodes = [] })
  _ ← load_slots l m push_cr_inode num_stored_files
  _ ← modify (λ t. record t { cr_deleted_inodes = [] })
  num_deleted ← reading next_word
  _ ← load_numbers push_cr_deleted num_deleted
  stbuf ← reading (next_image l.statvfs)
  load_insert key stbuf

unfoldable pub load_states : Layout → Allocator → ℕ → Loader → Run Loader (Unit {0})
unfolding load_state
load_states l m zero = return tt
load_states l m (suc n) = do _ ← load_state l m; load_states l m n

-- The try block of load_file_system. The pool that it clears is a copy, which nothing reads.
unfoldable pub load_system : Layout → Allocator → Loader → Run Loader (Unit {0})
unfolding load_slots load_numbers load_states next_word next_image
load_system l m = do
  stbuf ← reading (next_image l.statvfs)
  _ ← modify (λ t. record t { fs = record t.fs { m_stbuf = stbuf } })
  num_inodes ← reading next_word
  _ ← load_slots l m push_inode num_inodes
  num_deleted ← reading next_word
  _ ← load_numbers push_deleted num_deleted
  num_states ← reading next_word
  load_states l m num_states

-- load_file_system: what it returns, and the file system.
unfoldable pub load_file_system : Layout → Allocator → Bytes → Fs → Option (ℤ × Fs)
unfolding load_system
load_file_system l m bytes fs =
    elim (load_system l m
      (record { ptr = bytes; fs = fs; cr_inodes = []; cr_deleted_inodes = [] })) [
        | done _ t ↦ some (pos (length bytes - length t.ptr), t.fs)
        | thrown e t ↦ some (neg (pos e), t.fs)
        | stuck ↦ none
      ]
