-- ===== src/Pickle/System/Pools.antt =====
-- The loop over the state pool: every stored state is loaded again under its key.
use veri_fs.Base.{◌∙◌, ap, ℕ, zero, ◌<◌, ◌≡◌, refl, ℤ, pos, none, [], ◌∷◌, ◌++◌, length, word}
use veri_fs.Types.{Bytes, einval}
use veri_fs.Memory.{Allocator}
use veri_fs.Fs.{SavedState}
use veri_fs.Fs.Checkpoint.{Pool, lookup, insert_state}
use veri_fs.Pickle.{IsImage, Layout, word_bytes}
use veri_fs.Pickle.Runs.{done, thrown, ◌>>=◌, bind-done, Device}
use veri_fs.Pickle.System.{write_state, write_states}
use veri_fs.Pickle.System.Loading.{
  Loader, reading, next_image, load_numbers, load_insert, load_state, load_states, push_cr_inode,
  push_cr_deleted,
}
use veri_fs.Pickle.System.Emits.{
  Sink, IsSteady, Emits, return-Emits, Emits-then, write_and_hash-Emits,
}
use veri_fs.Pickle.System.Slots.{AreStored, table_bytes, loaded_table, write_slots-Emits}
use veri_fs.Pickle.System.Loads.{
  Loads, Loads-then, Loads-next, next_word-Loads, next_image-Loads, modify-Loads, load_slots-Loads,
  load_numbers-Loads, push_all-cr_inodes, push_numbers-cr_deleted,
}
use veri_fs.Pickle.System.Queues.{numbers_bytes, AreWords, write_stored_deleted-Emits}

-- A stored state as it is loaded.
abbrev pub loaded_state : SavedState → SavedState
loaded_state s = record s { stored_files = loaded_table s.stored_files }

abbrev pub state_bytes : Layout → ℕ → SavedState → Bytes
state_bytes l key s =
    word_bytes key
    ++ (word_bytes (length s.stored_files)
        ++ (table_bytes l s.stored_files
            ++ (word_bytes (length s.stored_deleted)
                ++ (numbers_bytes s.stored_deleted ++ l.statvfs.to_bytes s.stored_stbuf))))

-- A stored state that can be loaded again.
pub record IsSaved (l : Layout) (m : Allocator) (s : SavedState) : Type 0 where
  pub files : AreStored l m s.stored_files
  pub files_count : length s.stored_files < word
  pub deleted : AreWords s.stored_deleted
  pub deleted_count : length s.stored_deleted < word
  pub stbuf_image : IsImage l.statvfs s.stored_stbuf

-- The keys are 64-bit words that stand neither in the pool before nor twice, and each state can be
-- loaded again.
abbrev pub AreSaved : Layout → Allocator → Pool → Pool → Type 0
AreSaved l m before [] = Unit {0}
AreSaved l m before ((key, s) ∷ pool) =
    (key < word)
    × (lookup key before ≡ none)
    × IsSaved l m s
    × AreSaved l m ((key, loaded_state s) ∷ before) pool

abbrev pub pool_bytes : Layout → Pool → Bytes
pool_bytes l [] = []
pool_bytes l ((key, s) ∷ pool) = state_bytes l key s ++ pool_bytes l pool

module _ {S : Type 0} (d : Device S) (v : Sink S) (whole : IsSteady d v) (l : Layout)
    (m : Allocator) where
  write_state-Emits :
      (key : ℕ) (s : SavedState)
      → IsSaved l m s
      → Emits v (write_state d l m key s) (state_bytes l key s)
  unfolding write_state
  write_state-Emits key s h =
      Emits-then d v whole _ _ _ _ (write_and_hash-Emits d v whole (word_bytes key)) (
        Emits-then d v whole _ _ _ _
          (write_and_hash-Emits d v whole (word_bytes (length s.stored_files)))
          (Emits-then d v whole _ _ _ _ (write_slots-Emits d v whole l m s.stored_files h.files) (
            Emits-then d v whole _ _ _ _
              (write_and_hash-Emits d v whole (word_bytes (length s.stored_deleted)))
              (Emits-then d v whole _ _ _ _ (write_stored_deleted-Emits d v whole s.stored_deleted)
                (write_and_hash-Emits d v whole (l.statvfs.to_bytes s.stored_stbuf))))))

  pub write_states-Emits :
      (before pool : Pool)
      → AreSaved l m before pool
      → Emits v (write_states d l m pool) (pool_bytes l pool)
  unfolding write_states
  write_states-Emits before [] h = return-Emits d v whole
  write_states-Emits before ((key, s) ∷ pool) h =
      Emits-then d v whole _ _ _ _ (write_state-Emits key s h.2)
        (write_states-Emits ((key, loaded_state s) ∷ before) pool h.3)

-- The loader after the loop's step.
abbrev pub load_into : ℕ → SavedState → Loader → Loader
load_into key s t = record t {
  fs = record t.fs { state_pool = (key, loaded_state s) ∷ t.fs.state_pool };
  cr_inodes = loaded_table s.stored_files;
  cr_deleted_inodes = s.stored_deleted;
}

load_insert-fresh :
    (key : ℕ) (s : SavedState) (t : Loader) (rest : Bytes)
    → lookup key t.fs.state_pool ≡ none
    → load_insert key s.stored_stbuf (record t {
      ptr = rest;
      cr_inodes = loaded_table s.stored_files;
      cr_deleted_inodes = s.stored_deleted;
    })
      ≡ done tt (record (load_into key s t) { ptr = rest })
unfolding load_insert insert_state
load_insert-fresh key s t rest e =
    let inserted : insert_state key (loaded_state s) t.fs.state_pool
        ≡ (pos 0, (key, loaded_state s) ∷ t.fs.state_pool) =
      rw (insert_state, e) refl in
    ap
      (λ (r : ℤ × Pool). elim r.0 [
        | pos zero ↦
            done tt
              (record (load_into key s t) { ptr = rest; fs = record t.fs { state_pool = r.1 } })
        | _ ↦ thrown einval (record (load_into key s t) { ptr = rest; fs = t.fs })
      ])
      inserted

load_last-Loads :
    (l : Layout) (key : ℕ) (s : SavedState) (t : Loader)
    → IsImage l.statvfs s.stored_stbuf
    → lookup key t.fs.state_pool ≡ none
    → Loads
        (reading (next_image l.statvfs) >>= λ stbuf. load_insert key stbuf)
        (l.statvfs.to_bytes s.stored_stbuf)
        tt
        (record t { cr_inodes = loaded_table s.stored_files; cr_deleted_inodes = s.stored_deleted })
        (load_into key s t)
load_last-Loads l key s t image fresh =
    let queued = record t {
      cr_inodes = loaded_table s.stored_files;
      cr_deleted_inodes = s.stored_deleted;
    } in
    record {
      before = λ rest.
          bind-done (reading (next_image l.statvfs)) (λ stbuf. load_insert key stbuf)
            (record queued { ptr = l.statvfs.to_bytes s.stored_stbuf ++ rest })
            (record queued { ptr = rest }) s.stored_stbuf
            ((next_image-Loads l.statvfs s.stored_stbuf queued image).before rest)
          ∙ load_insert-fresh key s t rest fresh;
    }

load_state-Loads :
    (l : Layout) (m : Allocator) (key : ℕ) (s : SavedState) (t : Loader)
    → IsSaved l m s
    → key < word
    → lookup key t.fs.state_pool ≡ none
    → Loads (load_state l m) (state_bytes l key s) tt t (load_into key s t)
unfolding load_state
load_state-Loads l m key s t h k fresh =
    let cleared = record t { cr_inodes = [] } in
    let filled = record t { cr_inodes = loaded_table s.stored_files } in
    let emptied = record filled { cr_deleted_inodes = [] } in
    let queued = record filled { cr_deleted_inodes = s.stored_deleted } in
    let files = length s.stored_files in
    let deleted = length s.stored_deleted in
    let tail = reading (next_image l.statvfs) >>= λ stbuf. load_insert key stbuf in
    Loads-then _ _ _ _ _ _ _ _ _ (next_word-Loads key t k) (
      Loads-then _ _ _ _ _ _ _ _ _ (next_word-Loads files t h.files_count) (
        Loads-next _ _ _ _ _ _ _ _ _
          (modify-Loads (λ u. record u { cr_inodes = [] }) t (λ rest. refl))
          (Loads-next _ _ _ _ _ _ _ _ _
            (load_slots-Loads l m push_cr_inode (λ i u p. refl) s.stored_files cleared filled
              h.files (push_all-cr_inodes s.stored_files cleared))
            (Loads-next _ _ _ _ _ _ _ _ _
              (modify-Loads (λ u. record u { cr_deleted_inodes = [] }) filled (λ rest. refl))
              (Loads-then _ (λ n. load_numbers push_cr_deleted n >>= λ _. tail) _ _ _ _ _ _ _
                (next_word-Loads deleted emptied h.deleted_count)
                (Loads-next _ _ _ _ _ _ _ _ _
                  (load_numbers-Loads push_cr_deleted (λ i u p. refl) s.stored_deleted emptied
                    queued h.deleted (push_numbers-cr_deleted s.stored_deleted emptied))
                  (load_last-Loads l key s t h.stbuf_image fresh)))))))

-- The loader after the loop over the pool.
abbrev pub load_all_into : Pool → Loader → Loader
load_all_into [] t = t
load_all_into ((key, s) ∷ pool) t = load_all_into pool (load_into key s t)

pub load_states-Loads :
    (l : Layout) (m : Allocator) (pool : Pool) (t : Loader)
    → AreSaved l m t.fs.state_pool pool
    → Loads (load_states l m (length pool)) (pool_bytes l pool) tt t (load_all_into pool t)
unfolding load_states
load_states-Loads l m [] t h = record { before = λ rest. refl }
load_states-Loads l m ((key, s) ∷ pool) t h =
    Loads-then _ _ _ _ _ _ _ _ _ (load_state-Loads l m key s t h.2 h.0 h.1)
      (load_states-Loads l m pool (load_into key s t) h.3)
