-- ===== src/Pickle/StateFile/Matches.antt =====
-- A file that verify_state_file accepts has the size and the digest of its header.
use mathlib.Core.Path.{subst}
use veri_fs.Base.{
  ◌∙◌, sym, ap, ℕ, zero, suc, ◌≡◌, ◌≢◌, ◌⊎◌, refl, true, false, Bool-cases, ◌≤◌, inl, inr, not, ltb,
  ◌==◌, if◌then◌else◌, [], ◌∷◌, ℤ, pos, negsuc, neg, is_zero, arith,
}
use veri_fs.Types.{Bytes, enospc}
use veri_fs.Pickle.{Image}
use veri_fs.Pickle.Runs.{Run, done, ◌>>=◌, return}
use veri_fs.Pickle.StateFile.{
  Kernel, Host, Header, is_error, magnitude, call, return_errno, bytes_eq, verify_file_size,
  after_read, hash_file, verify_file_integrity, verify_state_file,
}
use veri_fs.Pickle.StateFile.Inversion.{other_branch, first_step, returned_value, returned_host}

bytes_eq→≡ : (a b : Bytes) → bytes_eq a b ≡ true → a ≡ b
bytes_eq→≡ [] [] h = refl
bytes_eq→≡ [] (y ∷ b) h = cc
bytes_eq→≡ (x ∷ a) [] h = cc
bytes_eq→≡ (x ∷ a) (y ∷ b) h = ground (arith, bytes_eq→≡ a b)

different : {n : ℕ} → negsuc n ≢ pos 0
different e = cc

nonzero : {n : ℕ} → pos (suc n) ≢ pos 0
nonzero e = cc

-- A test of a result that has to be 0.
must_be_zero :
    {S : Type 0} (res : ℤ) (g : Host S → Run (Host S) ℤ) (h h' : Host S)
    → (if not (is_zero res) then return res else g) h ≡ done (pos 0) h'
    → (res ≡ pos 0) × (g h ≡ done (pos 0) h')
must_be_zero (pos zero) g h h' e = (refl, e)
must_be_zero (pos (suc n)) g h h' e = absurd (nonzero (returned_value e))
must_be_zero (negsuc n) g h h' e = absurd (different (returned_value e))

-- A file is read in blocks of 4096 bytes, and each is fed to the hash, until a read gives no byte.
pub data Digests {S : Type 0} (k : Kernel S) (fd : ℤ) : S → S → Type 0 where
  ended : (s : S) → (k.read fd 4096 s).0.0 ≡ pos 0 → Digests k fd s (k.read fd 4096 s).1
  fed :
      (s t : S) (n : ℕ)
      → (k.read fd 4096 s).0.0 ≡ pos (suc n)
      → Digests k fd ((k.device fd).feed (k.read fd 4096 s).0.1 (k.read fd 4096 s).1).1 t
      → Digests k fd s t

module _ {S : Type 0} (k : Kernel S) (set : (s : S) → k.errno s ≢ 0) where
  not_errno : (h h' : Host S) → return_errno k h ≢ done (pos 0) h'
  not_errno h h' e = set h.machine (ap value e)
    where
      value : Run (Host S) ℤ → ℕ
      value r = elim r [ done a t ↦ magnitude a | _ ↦ 0 ]

  size_matches :
      (fd : ℤ) (n : ℕ) (h h' : Host S)
      → verify_file_size k fd n h ≡ done (pos 0) h'
      → (is_error (k.fstat fd h.machine).0.0 ≡ false)
        × ((k.fstat fd h.machine).0.1 ≡ n)
        × ((k.fstat fd h.machine).1 ≡ h'.machine)
  unfolding verify_file_size
  size_matches fd n h h' v =
      let r = k.fstat fd h.machine in
      let h1 : Host S = record h { machine = r.1 } in
      let (fine, e) =
        other_branch (is_error r.0.0) (return_errno k)
          (return (if r.0.1 == n then pos 0 else neg (pos 1))) h1 (done (pos 0) h') v
          (not_errno h1 h') in
      (fine, go (Bool-cases (r.0.1 == n)) (returned_value e), ap (λ h. h.machine) (returned_host e))
    where
      go :
          ((((k.fstat fd h.machine).0.1 == n) ≡ true) ⊎ (((k.fstat fd h.machine).0.1 == n) ≡ false))
          → (if (k.fstat fd h.machine).0.1 == n then pos 0 else neg (pos 1)) ≡ pos 0
          → (k.fstat fd h.machine).0.1 ≡ n
      go (inl e) x = ground (arith, e)
      go (inr e) x = absurd (different (rw (e) at x))

  hash_file-Digests :
      (fuel : ℕ) (fd : ℤ) (last : ℤ) (h h' : Host S)
      → hash_file k fuel fd h ≡ done last h'
      → is_error last ≡ false
      → Digests k fd h.machine h'.machine
  unfolding hash_file
  hash_file-Digests zero fd last h h' e fine = absurd (cc)
  hash_file-Digests (suc n) fd last h h' e fine =
      go (λ t. hash_file-Digests n fd last t h') (k.read fd 4096 h.machine).0.0 refl e
    where
      bytes : Bytes
      bytes = (k.read fd 4096 h.machine).0.1

      t : Host S
      t = record h { machine = (k.read fd 4096 h.machine).1 }

      go :
          ((t : Host S)
            → hash_file k n fd t ≡ done last h'
            → is_error last ≡ false
            → Digests k fd t.machine h'.machine)
          → (res : ℤ) → (k.read fd 4096 h.machine).0.0 ≡ res
          → after_read k (hash_file k n fd) fd res bytes t ≡ done last h'
          → Digests k fd h.machine h'.machine
      go rest (pos zero) q x =
          subst (Digests k fd h.machine) (ap (λ y. y.machine) (returned_host x)) (ended h.machine q)
      go rest (negsuc c) q x = absurd (cc)
      go rest (pos (suc c)) q x =
          fed h.machine h'.machine c q
            (rest (record t { machine = ((k.device fd).feed bytes t.machine).1 }) x fine)

  hash_matches :
      (fuel : ℕ) (fd : ℤ) (expected : Bytes) (h h' : Host S)
      → verify_file_integrity k fuel fd expected h ≡ done (pos 0) h'
      → ((k.init h.machine).0 ≡ true)
        × ((end : S) × Digests k fd (k.init h.machine).1 end × ((k.final end).0 ≡ expected))
  unfolding verify_file_integrity
  hash_matches fuel fd expected h h' v =
      let h1 : Host S = record h { machine = (k.init h.machine).1 } in
      let rest : ℤ → Host S → Run (Host S) ℤ = λ readsz.
        if is_error readsz
        then return_errno k
        else (call k.final >>= λ d. return (if bytes_eq d expected then pos 0 else neg (pos 3))) in
      let (begun, e) =
        other_branch (not (k.init h.machine).0) (return (neg (pos 2)))
          (hash_file k fuel fd >>= rest) h1 (done (pos 0) h') v
          (λ x. different (returned_value x)) in
      let (last, m, hashed, e1) = first_step (hash_file k fuel fd) rest h1 h' (pos 0) e in
      let (fine, e2) =
        other_branch (is_error last) (return_errno k)
          (call k.final >>= λ d. return (if bytes_eq d expected then pos 0 else neg (pos 3))) m
          (done (pos 0) h') e1 (not_errno m h') in
      (
        ground (arith, begun),
        (
          m.machine,
          hash_file-Digests fuel fd last h1 m hashed fine,
          digest (k.final m.machine).0 (returned_value e2),
        ),
      )
    where
      digest :
          (d : Bytes) → (if bytes_eq d expected then pos 0 else neg (pos 3)) ≡ pos 0 → d ≡ expected
      digest d x = elim (Bool-cases (bytes_eq d expected)) [
        | inl e ↦ bytes_eq→≡ d expected e
        | inr e ↦ absurd (different (rw (e) at x))
      ]

-- The file's size and digest are those of a header, from the machine that has just read it: fstat
-- and the start of the hash succeed in turn, the file is digested to its end, and the result of the
-- hash is the header's.
pub record Accepted {S : Type 0} (k : Kernel S) (fd : ℤ) (header : Header) (machine : S)
    : Type 0 where
  pub asked : is_error (k.fstat fd machine).0.0 ≡ false
  pub sized : (k.fstat fd machine).0.1 ≡ header.fsize
  pub begun : (k.init (k.fstat fd machine).1).0 ≡ true
  pub end : S
  pub digested : Digests k fd (k.init (k.fstat fd machine).1).1 end
  pub digest : (k.final end).0 ≡ header.hash

-- What read gives at the start of the file.
abbrev pub read_header : {S : Type 0} → Kernel S → Image Header → ℤ → S → (ℤ × Bytes) × S
read_header k image fd s = k.read fd image.size ((k.device fd).seek (pos 0) s).1

-- Where a failed call leaves an errno that is not 0: for a descriptor for which verify_state_file
-- returns 0, the read at its start gives no fewer bytes than a header has, fstat then gives the
-- size that this header says, the hash is then begun, blocks are read and fed to it, each once,
-- until a read gives no byte, and its result is the header's.
pub verify_state_file-Accepted :
    {S : Type 0} (k : Kernel S) (fuel : ℕ) (image : Image Header) (fd : ℤ) (h h' : Host S)
    → ((s : S) → k.errno s ≢ 0)
    → verify_state_file k fuel image fd h ≡ done (pos 0) h'
    → (image.size ≤ magnitude (read_header k image fd h.machine).0.0)
      × Accepted k fd
          (image.of_bytes (read_header k image fd h.machine).0.1)
          (read_header k image fd h.machine).1
unfolding verify_state_file
verify_state_file-Accepted {S = S} k fuel image fd h h' set v =
    let s0 = (k.device fd).seek (pos 0) h.machine in
    let r = k.read fd image.size s0.1 in
    let header = image.of_bytes r.0.1 in
    let last_step : ℤ → Host S → Run (Host S) ℤ = λ same.
      if not (is_zero same)
      then return same
      else (call ((k.device fd).seek (pos image.size)) >>= λ _. return (pos 0)) in
    let hashing : Bytes → ℤ → Host S → Run (Host S) ℤ = λ hash size.
      if not (is_zero size)
      then return size
      else (verify_file_integrity k fuel fd hash >>= last_step) in
    let sizing : ℤ × Bytes → Host S → Run (Host S) ℤ = λ q.
      if ltb (magnitude q.0) image.size
      then return (pos enospc)
      else (verify_file_size k fd (image.of_bytes q.1).fsize
          >>= hashing (image.of_bytes q.1).hash) in
    let reading : ℤ × Bytes → Host S → Run (Host S) ℤ =
      λ q. if is_error q.0 then return_errno k else sizing q in
    let h0 : Host S = record h { machine = s0.1 } in
    let h1 : Host S = record h { machine = r.1 } in
    let (_, e0) =
      other_branch (is_error s0.0) (return_errno k) (call (k.read fd image.size) >>= reading) h0
        (done (pos 0) h') v (not_errno k set h0 h') in
    let (_, e1) =
      other_branch (is_error r.0.0) (return_errno k) (sizing r.0) h1 (done (pos 0) h') e0
        (not_errno k set h1 h') in
    let (whole, e2) =
      other_branch (ltb (magnitude r.0.0) image.size) (return (pos enospc))
        (verify_file_size k fd header.fsize >>= hashing header.hash) h1 (done (pos 0) h') e1
        (λ x. nonzero (returned_value x)) in
    let (size, h2, f2, e3) =
      first_step (verify_file_size k fd header.fsize) (hashing header.hash) h1 h' (pos 0) e2 in
    let (zero_size, e4) =
      must_be_zero size (verify_file_integrity k fuel fd header.hash >>= last_step) h2 h' e3 in
    let (same, h3, f3, e5) =
      first_step (verify_file_integrity k fuel fd header.hash) last_step h2 h' (pos 0) e4 in
    let (zero_same, _) =
      must_be_zero same (call ((k.device fd).seek (pos image.size)) >>= λ _. return (pos 0)) h3 h'
        e5 in
    let (asked, sized, same_machine) =
      size_matches k set fd header.fsize h1 h2 (f2 ∙ ap (λ x. done x h2) zero_size) in
    let (begun, hashed) =
      hash_matches k set fuel fd header.hash h2 h3 (f3 ∙ ap (λ x. done x h3) zero_same) in
    let (started, (end, digested, digest)) =
      subst
        (λ m.
          ((k.init m).0 ≡ true)
          × ((end : S) × Digests k fd (k.init m).1 end × ((k.final end).0 ≡ header.hash)))
        (sym same_machine) (begun, hashed) in
    (
      ground (arith, whole),
      record {
        asked = asked;
        sized = sized;
        begun = started;
        end = end;
        digested = digested;
        digest = digest;
      },
    )
