-- ===== src/Pickle/StateFile/Restored.antt =====
-- load_verifs2 of the state file that pickle_verifs2 leaves.
use mathlib.Core.Path.{subst}
use veri_fs.Base.{
  ℕ, zero, suc, ◌-◌, ◌+◌, ◌≡◌, ◌≤◌, ◌<◌, refl, ap, ◌∙◌, sym, true, false, [], ◌∷◌, ◌++◌,
  append_assoc, append-nil, length, length-append, length-take, length-drop, take-append-drop, take,
  drop, replicate, some, ℤ, pos, ltb, if◌then◌else◌, ◌==◌, arith,
}
use veri_fs.Types.{Bytes}
use veri_fs.Memory.{Allocator}
use veri_fs.Fs.{Fs}
use veri_fs.Pickle.{Image, IsImage, Layout}
use veri_fs.Pickle.Words.{drop-append, take-append}
use veri_fs.Pickle.Runs.{Run, done, ◌>>=◌}
use veri_fs.Pickle.System.Loading.{load_file_system}
use veri_fs.Pickle.System.RoundTrip.{
  CanPickle, Reproduces, system_bytes, clear_tables, load_file_system-bytes,
}
use veri_fs.Pickle.StateFile.{
  Kernel, Host, Header, call, bytes_eq, verify_file_size, hash_file, verify_file_integrity,
  verify_state_file,
}
use veri_fs.Pickle.StateFile.Load.{load_tables, map_file, load_from}
use veri_fs.Pickle.StateFile.Disk.{FileView, whole, moved, read_past, IsFile}
use veri_fs.Pickle.StateFile.Saved.{header_of, header_bytes, moved_start}

bytes_eq_refl : (b : Bytes) → bytes_eq b b ≡ true
bytes_eq_refl [] = refl
bytes_eq_refl (x ∷ b) = ground (arith, bytes_eq_refl b)

nothing_taken : (n : ℕ) (b : Bytes) → 0 < n → take n b ≡ [] → b ≡ []
nothing_taken zero b h e = absurd (omega (arith, h))
nothing_taken (suc n) [] h e = refl
nothing_taken (suc n) (c ∷ b) h e = absurd (cc)

whole-read_past : (n : ℕ) (x : FileView) → whole (read_past n x) ≡ whole x
whole-read_past n x =
    append_assoc x.before (take n x.after) (drop n x.after)
    ∙ ap (λ t. x.before ++ t) (take-append-drop n x.after)

whole-moved : (n : ℕ) (x : FileView) → n ≤ length (whole x) → whole (moved n x) ≡ whole x
whole-moved n x h =
    let none_missing : n - length (whole x) ≡ 0 = omega (arith, h) in
    ap (λ m. (take n (whole x) ++ replicate m 0) ++ drop n (whole x)) none_missing
    ∙ ap (λ t. t ++ drop n (whole x)) (append-nil (take n (whole x)))
    ∙ take-append-drop n (whole x)

-- What is left after bytes have been read.
shorter : (n c : ℕ) (b got : Bytes) → take n b ≡ c ∷ got → length (drop n b) < length b
shorter n c b got e = omega (arith, length-drop n b, length-take n b, ap length e)

module _ {S : Type 0} (k : Kernel S) (fd : ℤ) (sees : S → FileView → Type 0)
    (digest : Bytes → Bytes) (file : IsFile k fd sees digest) where
  -- The loop over the bytes feeds the hash all that is left.
  hash_file-feeds :
      (fuel : ℕ) (fs : Fs) (s : S) (x : FileView)
      → sees s x
      → length x.after < fuel
      → (s' : S) × (y : FileView) × (hash_file k fuel fd (record { fs = fs; machine = s })
          ≡ done (pos 0) (record { fs = fs; machine = s' }))
        × sees s' y
        × (y.fed ≡ x.fed ++ x.after)
        × (whole y ≡ whole x)
  unfolding hash_file
  hash_file-feeds zero fs s x h lt = absurd (omega (arith, lt))
  hash_file-feeds (suc n) fs s x h lt =
      go (take 4096 x.after) refl (λ fs s x. hash_file-feeds n fs s x)
    where
      go :
          (got : Bytes)
          → take 4096 x.after ≡ got
          → ((gs : Fs) (t : S) (z : FileView)
              → sees t z
              → length z.after < n
              → (s' : S) × (y : FileView) × (hash_file k n fd (record { fs = gs; machine = t })
                  ≡ done (pos 0) (record { fs = gs; machine = s' }))
                × sees s' y
                × (y.fed ≡ z.fed ++ z.after)
                × (whole y ≡ whole z))
          → (s' : S) × (y : FileView) × (hash_file k (suc n) fd (record { fs = fs; machine = s })
              ≡ done (pos 0) (record { fs = fs; machine = s' }))
            × sees s' y
            × (y.fed ≡ x.fed ++ x.after)
            × (whole y ≡ whole x)
      go [] e ih =
          let r = k.read fd 4096 s in
          let empty : x.after ≡ [] = nothing_taken 4096 x.after (omega arith) e in
          (
            r.1,
            read_past 4096 x,
            rw (file.read_result 4096 s x h, e) refl,
            file.read_sees 4096 s x h,
            rw (empty) (sym (append-nil x.fed)),
            whole-read_past 4096 x,
          )
      go (c ∷ got) e ih =
          let r = k.read fd 4096 s in
          let t = ((k.device fd).feed (c ∷ got) r.1).1 in
          let z : FileView = record (read_past 4096 x) { fed = x.fed ++ c ∷ got } in
          let seen = file.feed_sees (c ∷ got) r.1 (read_past 4096 x) (file.read_sees 4096 s x h) in
          let left = shorter 4096 c x.after got e in
          let (s', y, run, sight, fed, same) = ih fs t z seen (omega (arith, left, lt)) in
          let all : (x.fed ++ c ∷ got) ++ drop 4096 x.after ≡ x.fed ++ x.after =
            ap (λ g. (x.fed ++ g) ++ drop 4096 x.after) (sym e)
            ∙ append_assoc x.fed (take 4096 x.after) (drop 4096 x.after)
            ∙ ap (λ b. x.fed ++ b) (take-append-drop 4096 x.after) in
          (
            s',
            y,
            rw (file.read_result 4096 s x h, e) run,
            sight,
            fed ∙ all,
            same ∙ whole-read_past 4096 x,
          )

  -- A run that returns 0 on a machine that shows a file with these bytes.
  abbrev Accepts : (Host S → Run (Host S) ℤ) → Fs → S → Bytes → Type 0
  Accepts f fs s bytes =
      (s' : S) × (y : FileView) × (f (record { fs = fs; machine = s })
        ≡ done (pos 0) (record { fs = fs; machine = s' }))
      × sees s' y
      × (whole y ≡ bytes)

  verify_file_integrity-Accepts :
      (fuel : ℕ) (fs : Fs) (s : S) (x : FileView) (expected : Bytes)
      → sees s x
      → length x.after < fuel
      → expected ≡ digest x.after
      → Accepts (verify_file_integrity k fuel fd expected) fs s (whole x)
  unfolding verify_file_integrity
  verify_file_integrity-Accepts fuel fs s x expected h0 enough hashed =
      go (
        hash_file-feeds fuel fs (k.init s).1 (record x { fed = [] }) (file.init_sees s x h0) enough)
    where
      go :
          (s5 : S) × (y : FileView) × (hash_file k fuel fd
                (record { fs = fs; machine = (k.init s).1 })
              ≡ done (pos 0) (record { fs = fs; machine = s5 }))
            × sees s5 y
            × (y.fed ≡ x.after)
            × (whole y ≡ whole x)
          → Accepts (verify_file_integrity k fuel fd expected) fs s (whole x)
      go (s5, y, run, h5, fed, same) =
          let same_hash : bytes_eq (k.final s5).0 expected ≡ true =
            ap (λ d. bytes_eq d expected) (file.final_digest s5 y h5 ∙ ap digest fed ∙ sym hashed)
            ∙ bytes_eq_refl expected in
          (
            (k.final s5).1,
            y,
            rw (verify_file_integrity, ◌>>=◌, call, file.init_works s x h0, run, same_hash) refl,
            file.final_sees s5 y h5,
            same,
          )

  verify_steps :
      (image : Image Header) (fuel : ℕ) (fs : Fs) (header : Header) (bytes : Bytes)
      (s s1 s2 s3 s4 s5 : S)
      → (k.device fd).seek (pos 0) s ≡ (pos 0, s1)
      → k.read fd image.size s1 ≡ ((pos image.size, bytes), s2)
      → image.of_bytes bytes ≡ header
      → k.fstat fd s2 ≡ ((pos 0, header.fsize), s3)
      → verify_file_integrity k fuel fd header.hash (record { fs = fs; machine = s3 })
        ≡ done (pos 0) (record { fs = fs; machine = s4 })
      → (k.device fd).seek (pos image.size) s4 ≡ (pos image.size, s5)
      → verify_state_file k fuel image fd (record { fs = fs; machine = s })
        ≡ done (pos 0) (record { fs = fs; machine = s5 })
  unfolding verify_state_file verify_file_size
  verify_steps image fuel fs header bytes s s1 s2 s3 s4 s5 e1 e2 e3 e4 e5 e6 =
      let enough : ltb image.size image.size ≡ false = ground arith in
      let same : (header.fsize == header.fsize) ≡ true = ground arith in
      let hashed =
        ap
          (λ (t : Bytes).
            verify_file_integrity k fuel fd (image.of_bytes t).hash
              (record { fs = fs; machine = s3 }))
          (ap (λ r. r.0.1) e2)
        ∙ ap
            (λ (h : Header).
              verify_file_integrity k fuel fd h.hash (record { fs = fs; machine = s3 }))
            e3
        ∙ e5 in
      rw
        (
          verify_state_file, ◌>>=◌, call, e1, e2, enough, e3, verify_file_size, e4, same,
          if◌then◌else◌, hashed, e6,
        )
        refl

  verify_state_file-Accepts :
      (image : Image Header) (fuel : ℕ) (fs : Fs) (s : S) (header : Header) (b f : Bytes)
      → IsImage image header
      → header.fsize ≡ image.size + length b
      → header.hash ≡ digest b
      → length b < fuel
      → sees s (record { before = []; after = image.to_bytes header ++ b; fed = f })
      → Accepts (verify_state_file k fuel image fd) fs s (image.to_bytes header ++ b)
  verify_state_file-Accepts image fuel fs s header b f fits sized hashed enough h0 =
      let n = image.size in
      let hb = image.to_bytes header in
      let x0 : FileView = record { before = []; after = hb ++ b; fed = f } in
      let s1 = ((k.device fd).seek (pos 0) s).1 in
      let h1 = subst (sees s1) (moved_start x0) (file.seek_sees 0 s x0 h0) in
      let s2 = (k.read fd n s1).1 in
      let x2 : FileView = read_past n x0 in
      let h2 = file.read_sees n s1 x0 h1 in
      let s3 = (k.fstat fd s2).1 in
      let h3 = file.fstat_sees s2 x2 h2 in
      let first : take n (hb ++ b) ≡ hb =
        ap (λ m. take m (hb ++ b)) (sym fits.sized) ∙ take-append hb b in
      let second : drop n (hb ++ b) ≡ b =
        ap (λ m. drop m (hb ++ b)) (sym fits.sized) ∙ drop-append hb b in
      let got : (k.read fd n s1).0 ≡ (pos n, hb) =
        file.read_result n s1 x0 h1
        ∙ ap (λ t. (pos (length t), t)) first
        ∙ ap (λ m. (pos m, hb)) fits.sized in
      let size : length (whole x2) ≡ header.fsize =
        omega (arith, ap length (whole-read_past n x0), length-append hb b, fits.sized, sized) in
      let (s4, y, run, h4, same) =
        verify_file_integrity-Accepts fuel fs s3 x2 header.hash h3
          (omega (arith, enough, ap length second)) (hashed ∙ ap digest (sym second)) in
      let all : whole y ≡ hb ++ b = same ∙ whole-read_past n x0 in
      let long : n ≤ length (whole y) =
        omega (arith, ap length all, length-append hb b, fits.sized) in
      let s5 = ((k.device fd).seek (pos n) s4).1 in
      (
        s5,
        moved n y,
        verify_steps image fuel fs header hb s s1 s2 s3 s4 s5
            (ap (λ r. (r, s1)) (file.seek_offset 0 s x0 h0)) (ap (λ r. (r, s2)) got) fits.copied
            (ap (λ r. (r, s3)) (file.fstat_size s2 x2 h2 ∙ ap (λ m. (pos 0, m)) size)) run
            (ap (λ r. (r, s5)) (file.seek_offset n s4 y h4)),
        file.seek_sees n s4 y h4,
        whole-moved n y long ∙ all,
      )

  load_steps :
      (l : Layout) (image : Image Header) (m : Allocator) (fuel n : ℕ) (fs ls : Fs) (c : ℤ)
      (bytes : Bytes) (s s1 s2 s3 : S)
      → verify_state_file k fuel image fd (record { fs = fs; machine = s })
        ≡ done (pos 0) (record { fs = fs; machine = s1 })
      → k.fstat fd s1 ≡ ((pos 0, n), s2)
      → k.mmap fd n s2 ≡ (some bytes, s3)
      → load_file_system l m (drop image.size bytes) (clear_tables fs) ≡ some (c, ls)
      → load_from k l image m fuel fd (record { fs = fs; machine = s })
        ≡ done (pos 0) (record { fs = ls; machine = s3 })
  unfolding load_from map_file load_tables
  load_steps l image m fuel n fs ls c bytes s s1 s2 s3 e1 e2 e3 e4 =
      rw (load_from, ◌>>=◌, e1, map_file, call, e2, e3, load_tables, e4) refl

  pub load_from-Reproduces :
      (l : Layout) (image : Image Header) (m : Allocator) (fuel : ℕ) (fs gs : Fs) (s : S)
      (f : Bytes)
      → CanPickle l m fs
      → IsImage image (header_of image l digest fs)
      → length (system_bytes l fs) < fuel
      → sees s (record {
        before = [];
        after = header_bytes image l digest fs ++ system_bytes l fs;
        fed = f;
      })
      → (ls : Fs) × (s' : S) × (load_from k l image m fuel fd (record { fs = gs; machine = s })
          ≡ done (pos 0) (record { fs = ls; machine = s' }))
        × Reproduces fs ls
  load_from-Reproduces l image m fuel fs gs s f can fits enough h0 =
      let b = system_bytes l fs in
      let hb = header_bytes image l digest fs in
      let (s1, y, run, h1, all) =
        verify_state_file-Accepts image fuel gs s (header_of image l digest fs) b f fits refl refl
          enough h0 in
      let n = length (whole y) in
      let s2 = (k.fstat fd s1).1 in
      let h2 = file.fstat_sees s1 y h1 in
      let s3 = (k.mmap fd n s2).1 in
      let (ls, e, same) = load_file_system-bytes l m fs gs [] can in
      let behind : drop image.size (whole y) ≡ b ++ [] =
        ap (λ t. drop image.size t) all
        ∙ ap (λ i. drop i (hb ++ b)) (sym fits.sized)
        ∙ drop-append hb b
        ∙ sym (append-nil b) in
      (
        ls,
        s3,
        load_steps l image m fuel n gs ls (pos (length b)) (whole y) s s1 s2 s3 run
            (ap (λ r. (r, s2)) (file.fstat_size s1 y h1))
            (ap (λ r. (r, s3)) (file.mmap_bytes s2 y h2))
            (ap (λ t. load_file_system l m t (clear_tables gs)) behind ∙ e),
        same,
      )
