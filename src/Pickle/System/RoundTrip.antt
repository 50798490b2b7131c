-- ===== src/Pickle/System/RoundTrip.antt =====
-- load_file_system of what pickle_file_system has written.
use veri_fs.Base.{ℕ, ◌-◌, ◌<◌, ◌≡◌, refl, pos, some, [], ◌++◌, length, word, arith, length-append}
use veri_fs.Types.{Bytes}
use veri_fs.Memory.{Allocator}
use veri_fs.Fs.{Fs}
use veri_fs.Fs.Checkpoint.{lookup}
use veri_fs.Pickle.{IsImage, Layout, word_bytes, next_word}
use veri_fs.Pickle.Runs.{Run, ◌>>=◌, modify, Device}
use veri_fs.Pickle.System.{
  Pickler, write_and_hash, write_slots, write_states, write_system, pickle_file_system,
}
use veri_fs.Pickle.System.Loading.{
  Loader, reading, load_slots, load_numbers, load_states, load_system, push_inode, push_deleted,
  load_file_system,
}
use veri_fs.Pickle.System.Emits.{
  IsWhole, Sink, IsSteady, bytes_of, IsWhole-IsSteady, Emits, EmitsAt, EmitsAt-then,
  write_and_hash-Emits,
}
use veri_fs.Pickle.System.Slots.{AreStored, table_bytes, loaded_table, write_slots-Emits}
use veri_fs.Pickle.System.Queues.{numbers_bytes, AreWords, write_deleted-same}
use veri_fs.Pickle.System.Loads.{
  Loads, Loads-then, Loads-next, next_word-Loads, next_image-Loads, modify-Loads, load_slots-Loads,
  load_numbers-Loads, push_all-inodes, push_numbers-deleted,
}
use veri_fs.Pickle.System.Lookups.{loaded_option, load_all_into-lookup, load_all_into-rest}
use veri_fs.Pickle.System.Pools.{
  AreSaved, pool_bytes, write_states-Emits, load_all_into, load_states-Loads,
}

-- A file system that can be pickled and loaded again: what pickle_file_system writes with memcpy is
-- as many bytes as sizeof says, counts and inode numbers fit 64 bits, and so do the parts.
pub record CanPickle (l : Layout) (m : Allocator) (fs : Fs) : Type 0 where
  pub stbuf_image : IsImage l.statvfs fs.m_stbuf
  pub inodes : AreStored l m fs.inodes
  pub inodes_count : length fs.inodes < word
  pub deleted : AreWords fs.deleted_inodes
  pub deleted_count : length fs.deleted_inodes < word
  pub states : AreSaved l m [] fs.state_pool
  pub states_count : length fs.state_pool < word

abbrev pub system_bytes : Layout → Fs → Bytes
system_bytes l fs =
    l.statvfs.to_bytes fs.m_stbuf
    ++ (word_bytes (length fs.inodes)
        ++ (table_bytes l fs.inodes
            ++ (word_bytes (length fs.deleted_inodes)
                ++ (numbers_bytes fs.deleted_inodes
                    ++ (word_bytes (length fs.state_pool) ++ pool_bytes l fs.state_pool)))))

module _ {S : Type 0} (d : Device S) (v : Sink S) (whole : IsSteady d v) (l : Layout)
    (m : Allocator) (fs : Fs) (h : CanPickle l m fs) where
  at_queue :
      (f : Pickler S → Run (Pickler S) (Unit {0})) (bytes : Bytes)
      → Emits v f bytes
      → EmitsAt v fs.deleted_inodes f bytes
  at_queue f bytes e = record { from = λ s. e (record { queue = fs.deleted_inodes; machine = s }) }

  write_system-EmitsAt : EmitsAt v fs.deleted_inodes (write_system d l m fs) (system_bytes l fs)
  unfolding write_system
  write_system-EmitsAt = EmitsAt-then d v whole _ _ _ _ _ (bytes (l.statvfs.to_bytes fs.m_stbuf)) (
      EmitsAt-then d v whole _ _ _ _ _ (bytes (word_bytes (length fs.inodes))) (
        EmitsAt-then d v whole _ _ _ _ _
          (at_queue (write_slots d l m fs.inodes) (table_bytes l fs.inodes)
            (write_slots-Emits d v whole l m fs.inodes h.inodes))
          (EmitsAt-then d v whole _ _ _ _ _ (bytes (word_bytes (length fs.deleted_inodes))) (
            EmitsAt-then d v whole _ _ _ _ _ (write_deleted-same d v whole fs.deleted_inodes) (
              EmitsAt-then d v whole _ _ _ _ _ (bytes (word_bytes (length fs.state_pool))) (
                at_queue (write_states d l m fs.state_pool) (pool_bytes l fs.state_pool)
                  (write_states-Emits d v whole l m [] fs.state_pool h.states)))))))
    where
      bytes : (b : Bytes) → EmitsAt v fs.deleted_inodes (write_and_hash d b) b
      bytes b = at_queue (write_and_hash d b) b (write_and_hash-Emits d v whole b)

  pub pickle_file_system-whole :
      (s : S) (x : v.View)
      → v.At s x
      → (s' : S) × (pickle_file_system d l m fs s ≡ some (pos 0, fs, s'))
        × v.At s' (v.add x (system_bytes l fs))
  unfolding pickle_file_system
  pickle_file_system-whole s x k =
      let (s', e, w) = write_system-EmitsAt.from s x k in (s', rw (pickle_file_system, e) refl, w)

-- A table and a pool that load_verifs2 has cleared: Inodes.clear, the pops of DeletedInodes and
-- clear_states.
unfoldable pub clear_tables : Fs → Fs
clear_tables fs = record fs { inodes = []; deleted_inodes = []; state_pool = [] }

-- The file system that is loaded, but for the pool.
abbrev with_tables : Fs → Fs → Fs
with_tables fs gs = record gs {
  inodes = loaded_table fs.inodes;
  deleted_inodes = fs.deleted_inodes;
  m_stbuf = fs.m_stbuf;
  state_pool = [];
}

load_system-Loads :
    (l : Layout) (m : Allocator) (fs gs : Fs)
    → CanPickle l m fs
    → Loads
        (load_system l m)
        (system_bytes l fs)
        tt
        (record { ptr = []; fs = clear_tables gs; cr_inodes = []; cr_deleted_inodes = [] })
        (load_all_into fs.state_pool
          (record { ptr = []; fs = with_tables fs gs; cr_inodes = []; cr_deleted_inodes = [] }))
unfolding load_system clear_tables
load_system-Loads l m fs gs h =
    let start : Loader = record {
      ptr = [];
      fs = clear_tables gs;
      cr_inodes = [];
      cr_deleted_inodes = [];
    } in
    let counted : Loader = record start { fs = record start.fs { m_stbuf = fs.m_stbuf } } in
    let filled : Loader = record counted {
      fs = record counted.fs { inodes = loaded_table fs.inodes };
    } in
    let queued : Loader = record filled {
      fs = record filled.fs { deleted_inodes = fs.deleted_inodes };
    } in
    let states : ℕ → Loader → Run Loader (Unit {0}) = λ n. load_states l m n in
    let deleted : ℕ → Loader → Run Loader (Unit {0}) =
      λ n. load_numbers push_deleted n >>= λ _. reading next_word >>= states in
    let slots : ℕ → Loader → Run Loader (Unit {0}) =
      λ n. load_slots l m push_inode n >>= λ _. reading next_word >>= deleted in
    Loads-then _
      (λ b. modify (λ t. record t { fs = record t.fs { m_stbuf = b } }) >>= λ _.
        reading next_word >>= slots)
      _ _ _ _ _ _ _ (next_image-Loads l.statvfs fs.m_stbuf start h.stbuf_image)
      (Loads-next _ _ _ _ _ _ _ _ _
        (modify-Loads (λ t. record t { fs = record t.fs { m_stbuf = fs.m_stbuf } }) start
          (λ rest. refl))
        (Loads-then _ slots _ _ _ _ _ _ _
          (next_word-Loads (length fs.inodes) counted h.inodes_count)
          (Loads-next _ _ _ _ _ _ _ _ _
            (load_slots-Loads l m push_inode (λ i u p. refl) fs.inodes counted filled h.inodes
              (push_all-inodes fs.inodes counted))
            (Loads-then _ deleted _ _ _ _ _ _ _
              (next_word-Loads (length fs.deleted_inodes) filled h.deleted_count)
              (Loads-next _ _ _ _ _ _ _ _ _
                (load_numbers-Loads push_deleted (λ i u p. refl) fs.deleted_inodes filled queued
                  h.deleted (push_numbers-deleted fs.deleted_inodes filled))
                (Loads-then _ states _ _ _ _ _ _ _
                  (next_word-Loads (length fs.state_pool) queued h.states_count)
                  (load_states-Loads l m fs.state_pool queued h.states)))))))

-- What a load has of the file system that was pickled: the inodes without the null pointers
-- between them, files with zeros after their bytes; the queue; the counters; under each key of the
-- pool, the state, whose inodes are loaded in the same way.
pub record Reproduces (fs gs : Fs) : Type 0 where
  pub inodes : gs.inodes ≡ loaded_table fs.inodes
  pub deleted : gs.deleted_inodes ≡ fs.deleted_inodes
  pub stbuf : gs.m_stbuf ≡ fs.m_stbuf
  pub states : (key : ℕ) → lookup key gs.state_pool ≡ loaded_option (lookup key fs.state_pool)

pub load_file_system-bytes :
    (l : Layout) (m : Allocator) (fs gs : Fs) (rest : Bytes)
    → CanPickle l m fs
    → (ls : Fs) × (load_file_system l m (system_bytes l fs ++ rest) (clear_tables gs)
        ≡ some (pos (length (system_bytes l fs)), ls))
      × Reproduces fs ls
unfolding load_file_system
load_file_system-bytes l m fs gs rest h =
    let end : Loader = record {
      ptr = [];
      fs = with_tables fs gs;
      cr_inodes = [];
      cr_deleted_inodes = [];
    } in
    let (i, q, b, _) = load_all_into-rest fs.state_pool end in
    let used : length (system_bytes l fs ++ rest) - length rest ≡ length (system_bytes l fs) =
      omega (arith, length-append (system_bytes l fs) rest) in
    (
      (load_all_into fs.state_pool end).fs,
      rw (load_file_system, (load_system-Loads l m fs gs h).before rest, used) refl,
      record {
        inodes = i;
        deleted = q;
        stbuf = b;
        states = λ key. load_all_into-lookup l m key fs.state_pool end refl h.states;
      },
    )

-- On a machine whose writes are whole and whose hash works, pickle_file_system of a file system
-- that can be pickled returns 0 and leaves the file system as it was, and load_file_system of the
-- bytes that it has added to the file, whatever follows them, into cleared tables returns their
-- number and reproduces the file system: the inodes without the null pointers between them, the
-- queue of deleted inodes, the counters, and the state under each key of the pool, files with
-- zeros after their bytes.
pub load_file_system-pickle_file_system :
    {S : Type 0} (d : Device S) (content : S → Bytes) (l : Layout) (m : Allocator) (fs gs : Fs)
    (s : S) (rest : Bytes)
    → IsWhole d content
    → CanPickle l m fs
    → (s' : S) × (bytes : Bytes) × (ls : Fs) × (pickle_file_system d l m fs s
        ≡ some (pos 0, fs, s'))
      × (content s' ≡ content s ++ bytes)
      × (load_file_system l m (bytes ++ rest) (clear_tables gs) ≡ some (pos (length bytes), ls))
      × Reproduces fs ls
load_file_system-pickle_file_system d content l m fs gs s rest whole h =
    let (s', e, w) =
      pickle_file_system-whole d (bytes_of content) (IsWhole-IsSteady d content whole) l m fs h s
        (content s) refl in
    let (ls, e', r) = load_file_system-bytes l m fs gs rest h in
    (s', system_bytes l fs, ls, e, w, e', r)
