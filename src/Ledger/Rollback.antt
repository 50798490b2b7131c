-- ===== src/Ledger/Rollback.antt =====
-- Requests between a checkpoint and a restore: they leave the pool of saved states alone.
use veri_fs.Base.{ℕ, ◌≡◌, ◌≢◌, refl, ◌∙◌, ap, sym, some, true, List, [], ◌∷◌, pos}
use veri_fs.Types.{Abi}
use veri_fs.Memory.{Allocator}
use veri_fs.Fs.{Fs}
use veri_fs.Fs.Checkpoint.{checkpoint, restore, can_notify}
use veri_fs.Fs.Checkpoint.Laws.{IsCopyable, restore-checkpoint}
use veri_fs.Fs.Requests.{World, Request, dispatch, run}
use veri_fs.Ledger.{Ledger, Step, keeps, allocates, frees, takes_back, allocate}
use veri_fs.Ledger.Requests.{dispatch-Step}
use veri_fs.Ledger.View.{ledger, bind_cases, some_injective}

allocate-pool : (l : Ledger) → (allocate l).pool ≡ l.pool
allocate-pool l = go l.free_list
  where
    go : (xs : List ℕ) → (allocate (record l { free_list = xs })).pool ≡ l.pool
    go [] = refl
    go (ino ∷ rest) = refl

Step-pool : (l k : Ledger) → Step l k → k.pool ≡ l.pool
Step-pool l _ keeps = refl
Step-pool l _ (allocates h) = allocate-pool l
Step-pool l _ (frees ino n h) = refl
Step-pool l _ (takes_back h) = allocate-pool l

module _ ⦃abi : Abi⦄ where
  run-state_pool :
      (rs : List (World × Request)) (fs gs : Fs)
      → run rs fs ≡ some gs
      → gs.state_pool ≡ fs.state_pool
  unfolding run
  run-state_pool [] fs gs h = ap (λ g. g.state_pool) (sym (some_injective h))
  run-state_pool ((w, r) ∷ rest) fs gs h =
      bind_cases (dispatch w r fs) _ _ h λ (replies, after) p q.
        run-state_pool rest after gs q
        ∙ Step-pool (ledger fs) (ledger after) (dispatch-Step w r fs after replies p)

  -- After a checkpoint that returns 0, of a table that is not empty and whose inodes have no
  -- extended attributes and are of the class that their mode says, files with a buffer as long as
  -- their blocks and of a size that the allocator grants, and then any run of requests (every
  -- handler but ioctl, their error replies included) that no failed assertion or bad pointer
  -- stops and that leaves an object of its class in each slot whose mode is a directory's: a
  -- restore of the same key returns 0 and brings back the table, the queue of deleted inodes, the
  -- counters and the pool from before the checkpoint.
  pub restore-run :
      (m : Allocator) (key : ℕ) (rs : List (World × Request)) (fs saved after : Fs)
      → IsCopyable m fs.inodes
      → fs.inodes ≢ []
      → checkpoint m key fs ≡ some (pos 0, saved)
      → run rs saved ≡ some after
      → can_notify after.inodes ≡ true
      → restore m key after
        ≡ some (
          pos 0,
          record after {
            inodes = fs.inodes;
            deleted_inodes = fs.deleted_inodes;
            m_stbuf = fs.m_stbuf;
            state_pool = fs.state_pool;
          },
        )
  restore-run m key rs fs saved after copyable full stored done able =
      restore-checkpoint m key fs saved after copyable full stored
        (run-state_pool rs saved after done) able
