-- ===== src/Pickle/StateFile.antt =====
-- The state file of src/pickle.cpp: pickle_verifs2, verify_state_file and load_verifs2.
-- The system calls and the hash are a parameter.
pub mod Save
pub mod Load
pub mod Rules
pub mod Inversion
pub mod Steps
pub mod Keeps
pub mod Ends
pub mod Hashing
pub mod Matches
pub mod Disk
pub mod Saved
pub mod Restored
pub mod RoundTrip
use veri_fs.Base.{
  ℕ, zero, suc, Option, none, some, Bool, true, false, not, if◌then◌else◌, List, [], ◌∷◌, ◌==◌, ltb,
  length, drop, ℤ, pos, negsuc, neg, is_zero,
}
use veri_fs.Types.{Bytes, enomem, enospc, einval}
use veri_fs.Memory.{Allocator}
use veri_fs.Fs.{Fs}
use veri_fs.Pickle.{Image, Layout}
use veri_fs.Pickle.Runs.{Run, done, thrown, stuck, ◌>>=◌, return, throw, Device}
use veri_fs.Pickle.System.{pickle_file_system, eproto}
use veri_fs.Pickle.System.Loading.{load_file_system}
use veri_fs.Pickle.System.RoundTrip.{clear_tables}

-- EMSGSIZE.
abbrev pub emsgsize : ℕ
emsgsize = 90

-- PATH_MAX.
abbrev pub path_max : ℕ
path_max = 4096

-- struct state_file_header.
pub record Header : Type 0 where
  pub fsize : ℕ
  pub hash : Bytes

-- The calls of the program on the machine. open is given a null pointer or a path, and whether it
-- creates and truncates; read returns its result and the bytes that it has put into the buffer;
-- fstat its result and st_size; mmap the bytes, or `none` for MAP_FAILED. Errors leave errno. init,
-- and final with the digest, are the hash functions.
pub record Kernel (S : Type 0) : Type 0 where
  pub open_path : Option Bytes → Bool → S → ℤ × S
  pub read : ℤ → ℕ → S → (ℤ × Bytes) × S
  pub fstat : ℤ → S → (ℤ × ℕ) × S
  pub mmap : ℤ → ℕ → S → Option Bytes × S
  pub close : ℤ → S → Unit {0} × S
  pub errno : S → ℕ
  pub init : S → Bool × S
  pub final : S → Bytes × S
  pub device : ℤ → Device S

-- The file system and the machine.
pub record Host (S : Type 0) : Type 0 where
  pub fs : Fs
  pub machine : S

abbrev pub is_error : ℤ → Bool
is_error (pos n) = false
is_error (negsuc n) = true

abbrev pub call : {S A : Type 0} → (S → A × S) → Host S → Run (Host S) A
call f h = let (a, s) = f h.machine in done a (record h { machine = s })

-- The catch: the error number is returned negated.
abbrev pub caught : {S : Type 0} → Run (Host S) ℤ → Option (ℤ × Fs × S)
caught (done res h) = some (res, h.fs, h.machine)
caught (thrown e h) = some (neg (pos e), h.fs, h.machine)
caught stuck = none

-- The bytes before the first 0: strnlen.
abbrev pub until_zero : Bytes → Bytes
until_zero [] = []
until_zero (b ∷ bytes) = if b == 0 then [] else b ∷ until_zero bytes

-- Whether a digest is the one expected: memcmp.
abbrev pub bytes_eq : Bytes → Bytes → Bool
bytes_eq [] [] = true
bytes_eq [] (y ∷ ys) = false
bytes_eq (x ∷ xs) [] = false
bytes_eq (x ∷ xs) (y ∷ ys) = let rest = bytes_eq xs ys in if x == y then rest else false

-- A ssize_t that is not negative, as a size_t.
abbrev pub magnitude : ℤ → ℕ
magnitude (pos n) = n
magnitude (negsuc n) = 0

module _ {S : Type 0} (k : Kernel S) where
  -- throw pickle_error(errno).
  abbrev pub throw_errno : {A : Type 0} → Host S → Run (Host S) A
  throw_errno h = thrown (k.errno h.machine) h

  -- return errno.
  abbrev pub return_errno : Host S → Run (Host S) ℤ
  return_errno h = done (pos (k.errno h.machine)) h

  -- The close of a descriptor, whether the step returns or throws.
  abbrev pub closing : {A : Type 0} → ℤ → (Host S → Run (Host S) A) → Host S → Run (Host S) A
  closing fd f h = elim (f h) [
    | done a h' ↦ done a (record h' { machine = (k.close fd h'.machine).1 })
    | thrown e h' ↦ thrown e (record h' { machine = (k.close fd h'.machine).1 })
    | stuck ↦ stuck
  ]

  -- fetch_filepath.
  unfoldable pub fetch_filepath : Allocator → Bytes → Host S → Run (Host S) (Option Bytes)
  fetch_filepath m cfgpath = do
    cfgfd ← call (k.open_path (some cfgpath) false)
    if is_error cfgfd
        then throw_errno
        else if not (m.grants path_max)
        then (do _ ← call (k.close cfgfd); throw enomem)
        else do
          (res, bytes) ← call (k.read cfgfd path_max)
          _ ← call (k.close cfgfd)
          if is_error res
              then throw_errno
              else return (
                  if m.grants (suc (length (until_zero bytes)))
                  then some (until_zero bytes)
                  else none)

  -- verify_file_size.
  unfoldable pub verify_file_size : ℤ → ℕ → Host S → Run (Host S) ℤ
  verify_file_size fd expected = do
    (res, st_size) ← call (k.fstat fd)
    if is_error res
        then return_errno
        else return (if st_size == expected then pos 0 else neg (pos 1))

  -- The test of the loop of verify_file_integrity, and its body: the last result of read.
  abbrev pub after_read : (Host S → Run (Host S) ℤ) → ℤ → ℤ → Bytes → Host S → Run (Host S) ℤ
  after_read rest fd (pos zero) bytes = return (pos zero)
  after_read rest fd (negsuc e) bytes = return (negsuc e)
  after_read rest fd (pos (suc n)) bytes = do _ ← call ((k.device fd).feed bytes); rest

  -- The loop, for as many rounds as there is fuel.
  unfoldable pub hash_file : ℕ → ℤ → Host S → Run (Host S) ℤ
  hash_file zero fd = λ h. stuck
  hash_file (suc n) fd = do
    (res, bytes) ← call (k.read fd 4096)
    after_read (hash_file n fd) fd res bytes

  -- verify_file_integrity.
  unfoldable pub verify_file_integrity : ℕ → ℤ → Bytes → Host S → Run (Host S) ℤ
  unfolding hash_file
  verify_file_integrity fuel fd expected = do
    ok ← call k.init
    if not ok then return (neg (pos 2)) else do
      readsz ← hash_file fuel fd
      if is_error readsz then return_errno else do
        hashres ← call k.final
        return (if bytes_eq hashres expected then pos 0 else neg (pos 3))

  -- verify_state_file.
  unfoldable pub verify_state_file : ℕ → Image Header → ℤ → Host S → Run (Host S) ℤ
  unfolding verify_file_size verify_file_integrity
  verify_state_file fuel image fd = do
    res ← call ((k.device fd).seek (pos 0))
    if is_error res then return_errno else do
      (readsz, bytes) ← call (k.read fd image.size)
      if is_error readsz
          then return_errno
          else if ltb (magnitude readsz) image.size
          then return (pos enospc)
          else do
            size ← verify_file_size fd (image.of_bytes bytes).fsize
            if not (is_zero size) then return size else do
              same ← verify_file_integrity fuel fd (image.of_bytes bytes).hash
              if not (is_zero same)
                  then return same
                  else do _ ← call ((k.device fd).seek (pos image.size)); return (pos 0)
