-- ===== src/Pickle/System.antt =====
-- pickle_file_system of src/pickle.cpp. load_file_system is in the child Loading.
-- The queue of deleted inode numbers is the program's own, which the loop over it turns round.
pub mod Loading
pub mod Emits
pub mod Slots
pub mod Queues
pub mod Loads
pub mod Pools
pub mod Lookups
pub mod RoundTrip
use veri_fs.Base.{
  ℕ, zero, suc, Option, none, some, Bool, true, false, if◌then◌else◌, List, [], ◌∷◌, ◌++◌, ltb,
  length, ℤ, pos, neg,
}
use veri_fs.Types.{Bytes, Inode, Statvfs, enomem}
use veri_fs.Memory.{Allocator, junk_bytes, memmove}
use veri_fs.Fs.{Fs, Table, SavedState}
use veri_fs.Fs.Checkpoint.{Pool}
use veri_fs.Pickle.{Layout, InodeState, word_bytes}
use veri_fs.Pickle.Methods.{get_pickled_size, pickle}
use veri_fs.Pickle.Runs.{Run, done, thrown, stuck, ◌>>=◌, return, throw, Device}

-- EPROTO.
abbrev pub eproto : ℕ
eproto = 71

-- DeletedInodes, and the machine with the state file and the hash context.
pub record Pickler (S : Type 0) : Type 0 where
  pub queue : List ℕ
  pub machine : S

-- The bytes that malloc gave, after Pickle has copied the inode to them.
unfoldable pub pickled_data : Layout → Allocator → Inode → Option Bytes
unfolding memmove
pickled_data l m i = elim (pickle l i) [
  | none ↦ none
  | some b ↦ memmove (junk_bytes m 0 (get_pickled_size l i)) 0 b
]

-- front, pop and push of the element popped.
abbrev pub rotate : List ℕ → List ℕ
rotate [] = []
rotate (ino ∷ q) = q ++ ino ∷ []

module _ {S : Type 0} (d : Device S) where
  -- write_to_file.
  unfoldable pub write_to_file : Bytes → Pickler S → Run (Pickler S) (Unit {0})
  write_to_file bytes p =
      let w = d.write bytes p.machine in
      if ltb w.count (length bytes)
      then thrown w.error (record p { machine = w.after })
      else done tt (record p { machine = w.after })

  -- feed_hash.
  unfoldable pub feed_hash : Bytes → Pickler S → Run (Pickler S) (Unit {0})
  feed_hash bytes p =
      let (ok, s) = d.feed bytes p.machine in
      if ok then done tt (record p { machine = s }) else thrown eproto (record p { machine = s })

  -- write_and_hash.
  unfoldable pub write_and_hash : Bytes → Pickler S → Run (Pickler S) (Unit {0})
  unfolding write_to_file feed_hash
  write_and_hash bytes = do _ ← write_to_file bytes; feed_hash bytes

  -- The step of the loops over inodes.
  unfoldable pub write_slot :
      Layout → Allocator → Option Inode → Pickler S → Run (Pickler S) (Unit {0})
  unfolding pickled_data write_and_hash
  write_slot l m none = write_and_hash (l.inode_state.to_bytes (record { exist = false; mode = 0 }))
  write_slot l m (some i) =
      if m.grants (get_pickled_size l i)
      then (elim (pickled_data l m i) [
        | none ↦ λ p. stuck
        | some bytes ↦ do
          _ ← write_and_hash (l.inode_state.to_bytes (record { exist = true; mode = i.st_mode }))
          write_and_hash bytes
      ])
      else throw enomem

  unfoldable pub write_slots : Layout → Allocator → Table → Pickler S → Run (Pickler S) (Unit {0})
  unfolding write_slot
  write_slots l m [] = return tt
  write_slots l m (slot ∷ t) = do _ ← write_slot l m slot; write_slots l m t

  -- The loop over pending_delete_inodes.
  unfoldable pub write_deleted : ℕ → Pickler S → Run (Pickler S) (Unit {0})
  unfolding write_and_hash
  write_deleted zero p = done tt p
  write_deleted (suc n) p = elim p.queue [
    | [] ↦ stuck
    | ino ∷ q ↦ elim (write_and_hash (word_bytes ino) p) [
      | done _ p' ↦ write_deleted n (record p' { queue = rotate p'.queue })
      | thrown e p' ↦ thrown e p'
      | stuck ↦ stuck
    ]
  ]

  -- The loop over a stored state's queue, which is a copy.
  unfoldable pub write_stored_deleted : List ℕ → Pickler S → Run (Pickler S) (Unit {0})
  unfolding write_and_hash
  write_stored_deleted [] = return tt
  write_stored_deleted (ino ∷ q) = do _ ← write_and_hash (word_bytes ino); write_stored_deleted q

  -- The step of the loop over the state pool.
  unfoldable pub write_state :
      Layout → Allocator → ℕ → SavedState → Pickler S → Run (Pickler S) (Unit {0})
  unfolding write_and_hash write_slots write_stored_deleted
  write_state l m key s = do
    _ ← write_and_hash (word_bytes key)
    _ ← write_and_hash (word_bytes (length s.stored_files))
    _ ← write_slots l m s.stored_files
    _ ← write_and_hash (word_bytes (length s.stored_deleted))
    _ ← write_stored_deleted s.stored_deleted
    write_and_hash (l.statvfs.to_bytes s.stored_stbuf)

  unfoldable pub write_states : Layout → Allocator → Pool → Pickler S → Run (Pickler S) (Unit {0})
  unfolding write_state
  write_states l m [] = return tt
  write_states l m ((key, s) ∷ pool) = do _ ← write_state l m key s; write_states l m pool

  -- The try block of pickle_file_system.
  unfoldable pub write_system : Layout → Allocator → Fs → Pickler S → Run (Pickler S) (Unit {0})
  unfolding write_and_hash write_slots write_deleted write_states
  write_system l m fs = do
    _ ← write_and_hash (l.statvfs.to_bytes fs.m_stbuf)
    _ ← write_and_hash (word_bytes (length fs.inodes))
    _ ← write_slots l m fs.inodes
    _ ← write_and_hash (word_bytes (length fs.deleted_inodes))
    _ ← write_deleted (length fs.deleted_inodes)
    _ ← write_and_hash (word_bytes (length fs.state_pool))
    write_states l m fs.state_pool

  -- pickle_file_system: what it returns, the file system with its queue, and the machine.
  unfoldable pub pickle_file_system : Layout → Allocator → Fs → S → Option (ℤ × Fs × S)
  unfolding write_system
  pickle_file_system l m fs s =
      let fpos = d.tell s in
      elim (write_system l m fs (record { queue = fs.deleted_inodes; machine = s })) [
        | done _ p ↦ some (pos 0, record fs { deleted_inodes = p.queue }, p.machine)
        | thrown e p ↦
            some (neg (pos e), record fs { deleted_inodes = p.queue }, (d.seek fpos p.machine).1)
        | stuck ↦ none
      ]
