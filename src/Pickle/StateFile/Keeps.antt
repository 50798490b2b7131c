-- ===== src/Pickle/StateFile/Keeps.antt =====
-- The steps before the load leave the file system.
use veri_fs.Base.{
  ℕ, zero, suc, Option, none, some, false, if◌then◌else◌, ℤ, pos, negsuc, neg, not, ltb, is_zero,
  ◌==◌, length,
}
use veri_fs.Types.{Bytes, enomem, enospc}
use veri_fs.Memory.{Allocator}
use veri_fs.Pickle.{Image, Layout}
use veri_fs.Pickle.Runs.{return}
use veri_fs.Pickle.StateFile.{
  Kernel, Header, is_error, magnitude, throw_errno, path_max, until_zero, bytes_eq, fetch_filepath,
  verify_file_size, after_read, hash_file, verify_file_integrity, verify_state_file,
}
use veri_fs.Pickle.StateFile.Load.{map_file}
use veri_fs.Pickle.StateFile.Rules.{
  SameFs, Keeps, Keeps-bind, Keeps-call, Keeps-return, Keeps-throw, Keeps-throw_errno,
  Keeps-return_errno, Keeps-if,
}

module _ {S : Type 0} (k : Kernel S) where
  pub fetch_filepath-Keeps : (m : Allocator) (cfg : Bytes) → Keeps (fetch_filepath k m cfg)
  unfolding fetch_filepath
  fetch_filepath-Keeps m cfg = Keeps-bind (Keeps-call (k.open_path (some cfg) false)) (λ fd.
      Keeps-if (is_error fd) (Keeps-throw_errno k) (
        Keeps-if (not (m.grants path_max))
          (Keeps-bind (Keeps-call (k.close fd)) (λ u. Keeps-throw enomem))
          (Keeps-bind (Keeps-call (k.read fd path_max)) (λ r.
            Keeps-bind (Keeps-call (k.close fd)) (λ u.
              Keeps-if (is_error r.0) (Keeps-throw_errno k) (
                Keeps-return (
                  if m.grants (suc (length (until_zero r.1)))
                  then some (until_zero r.1)
                  else none)))))))

  pub verify_file_size-Keeps : (fd : ℤ) (n : ℕ) → Keeps (verify_file_size k fd n)
  unfolding verify_file_size
  verify_file_size-Keeps fd n = Keeps-bind (Keeps-call (k.fstat fd)) (λ r.
      Keeps-if (is_error r.0) (Keeps-return_errno k)
        (Keeps-return (if r.1 == n then pos 0 else neg (pos 1))))

  pub hash_file-Keeps : (fuel : ℕ) (fd : ℤ) → Keeps (hash_file k fuel fd)
  unfolding hash_file
  hash_file-Keeps zero fd = record { same = λ h. SameFs.stops }
  hash_file-Keeps (suc n) fd =
      let rest = hash_file-Keeps n fd in
      Keeps-bind (Keeps-call (k.read fd 4096)) (λ r. next rest r.0 r.1)
    where
      next :
          Keeps (hash_file k n fd)
          → (res : ℤ) (bytes : Bytes) → Keeps (after_read k (hash_file k n fd) fd res bytes)
      next rest (pos zero) bytes = Keeps-return (pos zero)
      next rest (negsuc e) bytes = Keeps-return (negsuc e)
      next rest (pos (suc c)) bytes = Keeps-bind (Keeps-call ((k.device fd).feed bytes)) (λ u. rest)

  pub verify_file_integrity-Keeps :
      (fuel : ℕ) (fd : ℤ) (expected : Bytes) → Keeps (verify_file_integrity k fuel fd expected)
  unfolding verify_file_integrity
  verify_file_integrity-Keeps fuel fd expected = Keeps-bind (Keeps-call k.init) (λ ok.
      Keeps-if (not ok) (Keeps-return (neg (pos 2))) (
        Keeps-bind (hash_file-Keeps fuel fd) (λ r. Keeps-if (is_error r) (Keeps-return_errno k) (
          Keeps-bind (Keeps-call k.final)
            (λ d. Keeps-return (if bytes_eq d expected then pos 0 else neg (pos 3)))))))

  pub verify_state_file-Keeps :
      (fuel : ℕ) (image : Image Header) (fd : ℤ) → Keeps (verify_state_file k fuel image fd)
  unfolding verify_state_file
  verify_state_file-Keeps fuel image fd =
      Keeps-bind (Keeps-call ((k.device fd).seek (pos 0))) (λ res.
        Keeps-if (is_error res) (Keeps-return_errno k) (
          Keeps-bind (Keeps-call (k.read fd image.size)) (λ r.
            Keeps-if (is_error r.0) (Keeps-return_errno k) (
              Keeps-if (ltb (magnitude r.0) image.size) (Keeps-return (pos enospc)) (
                Keeps-bind (verify_file_size-Keeps fd (image.of_bytes r.1).fsize) (λ size.
                  Keeps-if (not (is_zero size)) (Keeps-return size) (
                    Keeps-bind (verify_file_integrity-Keeps fuel fd (image.of_bytes r.1).hash)
                      (λ same. Keeps-if (not (is_zero same)) (Keeps-return same) (
                        Keeps-bind (Keeps-call ((k.device fd).seek (pos image.size)))
                          (λ u. Keeps-return (pos 0)))))))))))

  pub map_file-Keeps :
      (l : Layout) (image : Image Header) (m : Allocator) (fd : ℤ) → Keeps (map_file k l image m fd)
  unfolding map_file
  map_file-Keeps l image m fd = Keeps-bind (Keeps-call (k.fstat fd)) (λ r.
      Keeps-if (is_error r.0) (Keeps-throw_errno k)
        (Keeps-bind (Keeps-call (k.mmap fd r.1)) (λ mapped. mapped_or mapped)))
    where
      mapped_or :
          (mapped : Option Bytes)
          → Keeps {S = S} {A = Bytes}
              (elim mapped [ none ↦ throw_errno k | some bytes ↦ return bytes ])
      mapped_or none = Keeps-throw_errno k
      mapped_or (some bytes) = Keeps-return bytes
