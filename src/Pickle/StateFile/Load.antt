-- ===== src/Pickle/StateFile/Load.antt =====
-- FuseRamFs::load_verifs2 of src/pickle.cpp. The end of the mapping is not part of the machine here.
use veri_fs.Base.{ℕ, zero, suc, Option, none, some, false, if◌then◌else◌, drop, ℤ, pos, negsuc}
use veri_fs.Types.{Bytes, einval}
use veri_fs.Memory.{Allocator}
use veri_fs.Fs.{Fs}
use veri_fs.Pickle.{Image, Layout}
use veri_fs.Pickle.Runs.{Run, done, stuck, ◌>>=◌, return, throw}
use veri_fs.Pickle.System.{eproto}
use veri_fs.Pickle.System.Loading.{load_file_system}
use veri_fs.Pickle.System.RoundTrip.{clear_tables}
use veri_fs.Pickle.StateFile.{
  Kernel, Host, Header, is_error, call, throw_errno, closing, caught, emsgsize, fetch_filepath,
  verify_state_file,
}

-- The error number that a result of verify_state_file is thrown as.
abbrev pub verify_error : ℤ → Option ℕ
verify_error (pos zero) = none
verify_error (pos (suc n)) = some (suc n)
verify_error (negsuc zero) = some emsgsize
verify_error (negsuc (suc zero)) = some eproto
verify_error (negsuc (suc (suc zero))) = some einval
verify_error (negsuc (suc (suc (suc n)))) = none

-- The tables that load_file_system leaves. What it returns is dropped.
abbrev pub loaded_tables : {S : Type 0} → Host S → Option (ℤ × Fs) → Run (Host S) (Unit {0})
loaded_tables h none = stuck
loaded_tables h (some (_, fs)) = done tt (record h { fs = fs })

module _ {S : Type 0} (k : Kernel S) (l : Layout) (image : Image Header) (m : Allocator) where
  -- The tables are cleared and loaded from the mapped file.
  unfoldable pub load_tables : Bytes → Host S → Run (Host S) (Unit {0})
  unfolding load_file_system clear_tables
  load_tables mapped h =
      loaded_tables h (load_file_system l m (drop image.size mapped) (clear_tables h.fs))

  -- get_fsize and mmap.
  unfoldable pub map_file : ℤ → Host S → Run (Host S) Bytes
  map_file fd = do
    (res, st_size) ← call (k.fstat fd)
    if is_error res then throw_errno k else do
      mapped ← call (k.mmap fd st_size)
      elim mapped [ none ↦ throw_errno k | some bytes ↦ return bytes ]

  -- From the file descriptor to the end of the try block.
  unfoldable pub load_from : ℕ → ℤ → Host S → Run (Host S) ℤ
  unfolding verify_state_file map_file load_tables
  load_from fuel fd = do
    res ← verify_state_file k fuel image fd
    elim (verify_error res) [
      | some e ↦ throw e
      | none ↦ do bytes ← map_file fd; _ ← load_tables bytes; return res
    ]

  unfoldable pub open_and_load : ℕ → Bytes → Host S → Run (Host S) ℤ
  unfolding load_from fetch_filepath
  open_and_load fuel cfgpath = do
    path ← fetch_filepath k m cfgpath
    fd ← call (k.open_path path false)
    if is_error fd then throw_errno k else closing k fd (load_from fuel fd)

  -- load_verifs2.
  unfoldable pub load_verifs2 : ℕ → Bytes → Fs → S → Option (ℤ × Fs × S)
  unfolding open_and_load
  load_verifs2 fuel cfgpath fs s =
      caught (open_and_load fuel cfgpath (record { fs = fs; machine = s }))
