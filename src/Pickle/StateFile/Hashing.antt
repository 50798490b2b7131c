-- ===== src/Pickle/StateFile/Hashing.antt =====
-- The loop of verify_file_integrity ends.
use veri_fs.Base.{◌<◌, arith, ℕ, zero, suc, ◌≡◌, refl, ℤ, pos, negsuc}
use veri_fs.Pickle.Runs.{done}
use veri_fs.Pickle.StateFile.{Kernel, Host, after_read, hash_file}

-- The loop of verify_file_integrity ends: where each read of bytes leaves fewer bytes to be read
-- from the file than before, hash_file returns whenever its fuel is above the number of those
-- bytes.
pub hash_file-returns :
    {S : Type 0} (k : Kernel S) (fd : ℤ) (left : S → ℕ)
    (reads : (s : S) (n : ℕ)
      → (k.read fd 4096 s).0.0 ≡ pos (suc n)
      → left ((k.device fd).feed (k.read fd 4096 s).0.1 (k.read fd 4096 s).1).1 < left s)
    (fuel : ℕ) (h : Host S)
    → left h.machine < fuel
    → (res : ℤ) × (h' : Host S) × (hash_file k fuel fd h ≡ done res h')
unfolding hash_file
hash_file-returns k fd left reads zero h lt = absurd (omega arith)
hash_file-returns {S = S} k fd left reads (suc n) h lt =
    go (k.read fd 4096 h.machine).0.0 (reads h.machine) (λ below.
      hash_file-returns k fd left reads n
        (record h {
          machine =
              ((k.device fd).feed (k.read fd 4096 h.machine).0.1 (k.read fd 4096 h.machine).1).1;
        })
        (omega (arith, below, lt)))
  where
    go :
        (res : ℤ)
        → ((c : ℕ)
            → res ≡ pos (suc c)
            → left
                ((k.device fd).feed (k.read fd 4096 h.machine).0.1 (k.read fd 4096 h.machine).1).1
              < left h.machine)
        → (left ((k.device fd).feed (k.read fd 4096 h.machine).0.1 (k.read fd 4096 h.machine).1).1
              < left h.machine
            → (r : ℤ) × (h' : Host S) × (hash_file k n fd (record h {
              machine =
                  ((k.device fd).feed
                    (k.read fd 4096 h.machine).0.1
                    (k.read fd 4096 h.machine).1).1;
            })
                ≡ done r h'))
        → (r : ℤ) × (h' : Host S) × (after_read k
              (hash_file k n fd)
              fd
              res
              (k.read fd 4096 h.machine).0.1
              (record h { machine = (k.read fd 4096 h.machine).1 })
            ≡ done r h')
    go (pos zero) below rest = (pos zero, record h { machine = (k.read fd 4096 h.machine).1 }, refl)
    go (negsuc c) below rest = (negsuc c, record h { machine = (k.read fd 4096 h.machine).1 }, refl)
    go (pos (suc c)) below rest = rest (below c refl)
