-- ===== src/Fs/Checkpoint/Laws.antt =====
-- What a checkpoint saves and what a restore brings back.
use veri_fs.Base.{
  ℕ, ◌*◌, ◌≡◌, ◌≢◌, ◌<◌, refl, sym, ap, ◌∙◌, none, some, true, false, List, [], ◌∷◌, arith, length,
  take, pos, neg, word, mul64, Option-cases, inl, inr,
}
use veri_fs.Types
use veri_fs.Types.{Inode, Node, buf_block_size, enoent, eexist}
use veri_fs.Memory.{Allocator, read_bytes}
use veri_fs.Memory.Contents.{read_bytes_fits}
use veri_fs.Fs.{Fs, Table, SavedState}
use veri_fs.Fs.Create.{file_type}
use veri_fs.Fs.Checkpoint.{
  Pool, lookup, insert_state, find_state, erase, remove_state, copy_file, copy_by_mode, copy_inode,
  copy_table, checkpoint, can_notify, nothing_stored, restore,
}

-- The class that a mode stands for, and for a file a buffer as long as its blocks, of a size that the
-- allocator grants.
abbrev pub FitsMode : Allocator → Inode → Node → Type 0
FitsMode m i (Node.file b) =
    (file_type i.st_mode ≡ 8)
    × (length b ≡ i.st_blocks * buf_block_size)
    × (length b < word)
    × (m.grants (length b) ≡ true)
FitsMode m i (Node.directory c) = file_type i.st_mode ≡ 4
FitsMode m i (Node.symlink t) = file_type i.st_mode ≡ 10
FitsMode m i (Node.special t) =
    (file_type i.st_mode ≢ 8) × (file_type i.st_mode ≢ 4) × (file_type i.st_mode ≢ 10)

-- Every inode of the table has no extended attributes and fits its mode.
abbrev pub IsCopyable : Allocator → Table → Type 0
IsCopyable m [] = Unit {0}
IsCopyable m (none ∷ t) = IsCopyable m t
IsCopyable m (some i ∷ t) = (i.xattr ≡ []) × FitsMode m i i.node × IsCopyable m t

take-length : (b : List ℕ) → take (length b) b ≡ b
take-length [] = refl
take-length (x ∷ b) = ap (◌∷◌ x) (take-length b)

copy_file-same :
    (m : Allocator) (i : Inode) (b : List ℕ)
    → length b ≡ i.st_blocks * buf_block_size
    → length b < word
    → m.grants (length b) ≡ true
    → copy_file m i b ≡ some (record i { node = Types.file b })
unfolding copy_file
copy_file-same m i b l w g =
    let size : mul64 i.st_blocks buf_block_size ≡ length b = omega (arith, l) in
    let whole : read_bytes b 0 (length b) ≡ some b =
      read_bytes_fits b 0 (length b) (omega arith) ∙ ap some (take-length b) in
    rw (size, g, whole) refl

copy_by_mode-same :
    (m : Allocator) (i : Inode) (n : Node)
    → i.node ≡ n
    → FitsMode m i n
    → copy_by_mode m i ≡ some (some i)
unfolding copy_by_mode
copy_by_mode-same m i (Node.file b) e f =
    let back : record i { node = Types.file b } ≡ i = ap (λ n. record i { node = n }) (sym e) in
    ground (arith, copy_file-same m i b, back)
copy_by_mode-same m i (Node.directory c) e f = ground arith
copy_by_mode-same m i (Node.symlink t) e f = ground arith
copy_by_mode-same m i (Node.special t) e f = ground arith

copy_inode-same :
    (m : Allocator) (i : Inode)
    → i.xattr ≡ []
    → FitsMode m i i.node
    → copy_inode m i ≡ some (some i)
unfolding copy_inode
copy_inode-same m i e f = ground (arith, copy_by_mode-same m i i.node refl f)

pub copy_table-same : (m : Allocator) (t : Table) → IsCopyable m t → copy_table m t ≡ some (some t)
unfolding copy_table
copy_table-same m [] v = refl
copy_table-same m (none ∷ t) v = rw (copy_table-same m t v) refl
copy_table-same m (some i ∷ t) v = rw (copy_inode-same m i v.0 v.1, copy_table-same m t v.2) refl

-- The state that a checkpoint stores.
abbrev pub saved : Fs → SavedState
saved fs = record {
  stored_files = fs.inodes;
  stored_deleted = fs.deleted_inodes;
  stored_stbuf = fs.m_stbuf;
}

lookup_first : (key : ℕ) (s : SavedState) (pool : Pool) → lookup key ((key, s) ∷ pool) ≡ some s
unfolding lookup
lookup_first key s pool = ground arith

find_state-first : (key : ℕ) (s : SavedState) (pool : Pool) → find_state key ((key, s) ∷ pool) ≡ s
unfolding find_state lookup
find_state-first key s pool = ground arith

remove_state-first :
    (key : ℕ) (s : SavedState) (pool : Pool) → (remove_state key ((key, s) ∷ pool)).1 ≡ pool
unfolding remove_state lookup erase
remove_state-first key s pool = ground arith

-- What a checkpoint of a table that can be copied does.
pub checkpoint_lem :
    (m : Allocator) (key : ℕ) (fs : Fs)
    → IsCopyable m fs.inodes
    → checkpoint m key fs
      ≡ some (elim (lookup key fs.state_pool) [
        | some _ ↦ (neg (pos eexist), fs)
        | none ↦ (pos 0, record fs { state_pool = (key, saved fs) ∷ fs.state_pool })
      ])
unfolding checkpoint insert_state
checkpoint_lem m key fs v = elim (Option-cases (lookup key fs.state_pool)) [
  | inl e ↦ rw (copy_table-same m fs.inodes v, e, insert_state) refl
  | inr (s, e) ↦ rw (copy_table-same m fs.inodes v, e, insert_state) refl
]

not_nothing : (s : SavedState) → s.stored_files ≢ [] → nothing_stored s ≡ false
not_nothing s h = go s.stored_files refl
  where
    go : (t : Table) → s.stored_files ≡ t → nothing_stored s ≡ false
    go [] e = absurd (h e)
    go (x ∷ t) e = rw (e, nothing_stored) refl

-- A restore of the state that the pool has first, and that can be copied.
restore_found :
    (m : Allocator) (key : ℕ) (s : SavedState) (pool : Pool) (hs : Fs)
    → hs.state_pool ≡ (key, s) ∷ pool
    → s.stored_files ≢ []
    → can_notify hs.inodes ≡ true
    → copy_table m s.stored_files ≡ some (some s.stored_files)
    → restore m key hs
      ≡ some (
        pos 0,
        record hs {
          inodes = s.stored_files;
          deleted_inodes = s.stored_deleted;
          m_stbuf = s.stored_stbuf;
          state_pool = pool;
        },
      )
unfolding restore
restore_found m key s pool hs p full n c =
    let found : find_state key hs.state_pool ≡ s =
      ap (find_state key) p ∙ find_state-first key s pool in
    let rest : (remove_state key hs.state_pool).1 ≡ pool =
      ap (λ q. (remove_state key q).1) p ∙ remove_state-first key s pool in
    rw (found, not_nothing s full, n, c, rest, found) refl

checkpoint-state_pool :
    (m : Allocator) (key : ℕ) (fs gs : Fs)
    → IsCopyable m fs.inodes
    → checkpoint m key fs ≡ some (pos 0, gs)
    → gs.state_pool ≡ (key, saved fs) ∷ fs.state_pool
checkpoint-state_pool m key fs gs v h = ground (arith, checkpoint_lem m key fs v)

-- After a checkpoint that returns 0, of a table that is not empty and whose inodes have no
-- extended attributes and are of the class that their mode says, files with a buffer as long as
-- their blocks and of a size that the allocator grants, a restore of the same key from any state
-- whose pool the checkpoint left and whose directories are of their class returns 0 and brings
-- back the table, the queue of deleted inodes, the counters and the pool from before the
-- checkpoint.
pub restore-checkpoint :
    (m : Allocator) (key : ℕ) (fs gs hs : Fs)
    → IsCopyable m fs.inodes
    → fs.inodes ≢ []
    → checkpoint m key fs ≡ some (pos 0, gs)
    → hs.state_pool ≡ gs.state_pool
    → can_notify hs.inodes ≡ true
    → restore m key hs
      ≡ some (
        pos 0,
        record hs {
          inodes = fs.inodes;
          deleted_inodes = fs.deleted_inodes;
          m_stbuf = fs.m_stbuf;
          state_pool = fs.state_pool;
        },
      )
restore-checkpoint m key fs gs hs v full h p n =
    restore_found m key (saved fs) fs.state_pool hs (p ∙ checkpoint-state_pool m key fs gs v h) full
      n (copy_table-same m fs.inodes v)

-- A key that the pool does not have.
restore_missing :
    (m : Allocator) (key : ℕ) (fs : Fs)
    → lookup key fs.state_pool ≡ none
    → restore m key fs ≡ some (neg (pos enoent), fs)
unfolding restore find_state
restore_missing m key fs e = ground arith

checkpoint-lookup :
    (m : Allocator) (key : ℕ) (fs gs : Fs)
    → IsCopyable m fs.inodes
    → checkpoint m key fs ≡ some (pos 0, gs)
    → lookup key fs.state_pool ≡ none
checkpoint-lookup m key fs gs v h = ground (arith, checkpoint_lem m key fs v)

-- A restore uses its checkpoint up: under the conditions of the round trip, after a restore that
-- returns 0 another restore of the same key returns -ENOENT and changes nothing.
pub restore-restore :
    (m : Allocator) (key : ℕ) (fs gs hs js : Fs)
    → IsCopyable m fs.inodes
    → fs.inodes ≢ []
    → checkpoint m key fs ≡ some (pos 0, gs)
    → hs.state_pool ≡ gs.state_pool
    → restore m key hs ≡ some (pos 0, js)
    → can_notify hs.inodes ≡ true
    → restore m key js ≡ some (neg (pos enoent), js)
restore-restore m key fs gs hs js v full h p k n =
    let back = restore-checkpoint m key fs gs hs v full h p n in
    let pool : js.state_pool ≡ fs.state_pool = ground (arith, back) in
    restore_missing m key js (ap (lookup key) pool ∙ checkpoint-lookup m key fs gs v h)

-- After a checkpoint that returns 0, a second checkpoint under the same key, from any state whose
-- pool the first one left, returns -EEXIST and changes nothing; both tables can be copied, that
-- is, they have the shape that the round trip asks for.
pub checkpoint-checkpoint :
    (m : Allocator) (key : ℕ) (fs gs hs : Fs)
    → IsCopyable m fs.inodes
    → checkpoint m key fs ≡ some (pos 0, gs)
    → hs.state_pool ≡ gs.state_pool
    → IsCopyable m hs.inodes
    → checkpoint m key hs ≡ some (neg (pos eexist), hs)
checkpoint-checkpoint m key fs gs hs v h p w =
    let there : lookup key hs.state_pool ≡ some (saved fs) =
      ap (lookup key) (p ∙ checkpoint-state_pool m key fs gs v h)
      ∙ lookup_first key (saved fs) fs.state_pool in
    ground (arith, checkpoint_lem m key hs w)
