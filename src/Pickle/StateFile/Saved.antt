-- ===== src/Pickle/StateFile/Saved.antt =====
-- What pickle_verifs2 leaves in the state file.
use mathlib.Core.Path.{subst}
use veri_fs.Base.{
  ℕ, ◌-◌, ◌+◌, ◌≡◌, ◌<◌, refl, ap, ◌∙◌, sym, true, [], ◌++◌, append-nil, length, length-append,
  length-replicate, drop, replicate, ℤ, pos, sign_bit, ltb, arith,
}
use veri_fs.Types.{Bytes}
use veri_fs.Memory.{Allocator}
use veri_fs.Pickle.{Image, IsImage, Layout}
use veri_fs.Pickle.Words.{drop-append}
use veri_fs.Pickle.Runs.{done, ◌>>=◌}
use veri_fs.Pickle.System.RoundTrip.{CanPickle, system_bytes, pickle_file_system-whole}
use veri_fs.Pickle.StateFile.{Kernel, Header, call}
use veri_fs.Pickle.StateFile.Save.{pickle_tables, write_header, save_to}
use veri_fs.Pickle.StateFile.Disk.{
  FileView, whole, written, moved, IsFile, file_sink, IsFile-IsSteady, drop-nil, take-nil,
}
use veri_fs.Fs.{Fs}

-- The header of the file: its size, and the digest of what stands behind the header.
abbrev pub header_of : Image Header → Layout → (Bytes → Bytes) → Fs → Header
header_of image l digest fs = record {
  fsize = image.size + length (system_bytes l fs);
  hash = digest (system_bytes l fs);
}

abbrev pub header_bytes : Image Header → Layout → (Bytes → Bytes) → Fs → Bytes
header_bytes image l digest fs = image.to_bytes (header_of image l digest fs)

minus_zero : (n : ℕ) → n - 0 ≡ n
minus_zero n = omega arith

zero_minus : (n : ℕ) → 0 - n ≡ 0
zero_minus n = omega arith

moved_empty :
    (n : ℕ) (f : Bytes)
    → moved n (record { before = []; after = []; fed = f })
      ≡ record { before = replicate n 0; after = []; fed = f }
moved_empty n f i = record {
  before =
      (ap (λ t. t ++ replicate (n - 0) 0) (take-nil n) ∙ ap (λ m. replicate m 0) (minus_zero n)) i;
  after = drop-nil n i;
  fed = f;
}

pub moved_start : (x : FileView) → moved 0 x ≡ record { before = []; after = whole x; fed = x.fed }
moved_start x i = record {
  before = ap (λ m. replicate m 0) (zero_minus (length (whole x))) i;
  after = whole x;
  fed = x.fed;
}

-- The header is written over the gap.
overwritten :
    (n : ℕ) (header b f : Bytes)
    → length header ≡ n
    → written header
        (record { before = []; after = (replicate n 0 ++ b) ++ drop (length b) []; fed = f })
      ≡ record { before = header; after = b; fed = f }
overwritten n header b f e i = record { before = header; after = rest i; fed = f }
  where
    rest : drop (length header) ((replicate n 0 ++ b) ++ drop (length b) []) ≡ b
    rest =
        ap (λ t. drop (length header) ((replicate n 0 ++ b) ++ t)) (drop-nil (length b))
        ∙ ap (drop (length header)) (append-nil (replicate n 0 ++ b))
        ∙ ap (λ c. drop c (replicate n 0 ++ b)) (e ∙ sym (length-replicate n 0))
        ∙ drop-append (replicate n 0) b

module _ {S : Type 0} (k : Kernel S) (fd : ℤ) (sees : S → FileView → Type 0)
    (digest : Bytes → Bytes) (file : IsFile k fd sees digest) (l : Layout) (image : Image Header)
    (m : Allocator) where
  -- From a file that has just been made or truncated.
  pub save_to-Saves :
      (fs : Fs) (s : S) (f : Bytes)
      → CanPickle l m fs
      → IsImage image (header_of image l digest fs)
      → image.size < sign_bit
      → sees s (record { before = []; after = []; fed = f })
      → (s' : S) × (save_to k l image m fd (record { fs = fs; machine = s })
          ≡ done (pos 0) (record { fs = fs; machine = s' }))
        × sees s' (record {
          before = header_bytes image l digest fs;
          after = system_bytes l fs;
          fed = system_bytes l fs;
        })
  unfolding save_to pickle_tables write_header
  save_to-Saves fs s f can fits small h0 =
      let dev = k.device fd in
      let b = system_bytes l fs in
      let x1 : FileView = record { before = replicate image.size 0; after = []; fed = f } in
      let s1 = (dev.seek (pos image.size) s).1 in
      let h1 : sees s1 x1 =
        subst (sees s1) (moved_empty image.size f) (file.seek_sees image.size s _ h0) in
      let s2 = (k.init s1).1 in
      let h2 = file.init_sees s1 x1 h1 in
      let (s3, e3, h3) =
        pickle_file_system-whole dev (file_sink sees) (IsFile-IsSteady k fd sees digest file) l m fs
          can s2 (record x1 { fed = [] }) h2 in
      let x3 : FileView = record {
        before = replicate image.size 0 ++ b;
        after = drop (length b) [];
        fed = b;
      } in
      let filled : (dev.tell s3) ≡ pos (image.size + length b) =
        file.tell_offset s3 x3 h3
        ∙ ap pos (
            length-append (replicate image.size 0) b
            ∙ ap (λ n. n + length b) (length-replicate image.size 0)) in
      let s4 = (k.final s3).1 in
      let h4 = file.final_sees s3 x3 h3 in
      let s5 = (dev.seek (pos 0) s4).1 in
      let h5 = subst (sees s5) (moved_start x3) (file.seek_sees 0 s4 x3 h4) in
      let w = dev.write (header_bytes image l digest fs) s5 in
      let h6 = file.write_sees (header_bytes image l digest fs) s5 _ h5 in
      let counted = file.write_count (header_bytes image l digest fs) s5 _ h5 in
      let quiet : ltb w.count sign_bit ≡ true = ground (arith, counted, fits.sized, small) in
      (
        w.after,
        rw
            (
              save_to,
              ◌>>=◌,
              call,
              file.seek_offset image.size s _ h0,
              e3,
              filled,
              file.final_digest s3 x3 h3,
              file.seek_offset 0 s4 x3 h4,
              quiet,
            )
            refl,
        subst (sees w.after)
            (overwritten image.size (header_bytes image l digest fs) b b fits.sized) h6,
      )
