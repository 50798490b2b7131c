-- ===== src/Pickle/StateFile/Save.antt =====
-- FuseRamFs::pickle_verifs2 of src/pickle.cpp.
use veri_fs.Base.{
  zero, suc, Option, none, some, Bool, true, false, if◌then◌else◌, ltb, sign_bit, ℤ, pos, negsuc,
  neg,
}
use veri_fs.Types.{Bytes}
use veri_fs.Memory.{Allocator}
use veri_fs.Fs.{Fs}
use veri_fs.Pickle.{Image, Layout}
use veri_fs.Pickle.Runs.{Run, done, stuck, ◌>>=◌}
use veri_fs.Pickle.System.{pickle_file_system}
use veri_fs.Pickle.StateFile.{
  Kernel, Host, Header, is_error, magnitude, call, throw_errno, closing, caught, fetch_filepath,
}

-- The descriptor is closed if it is above 0.
abbrev pub is_positive : ℤ → Bool
is_positive (pos zero) = false
is_positive (pos (suc n)) = true
is_positive (negsuc n) = false

module _ {S : Type 0} (k : Kernel S) (l : Layout) (image : Image Header) (m : Allocator) where
  -- pickle_file_system of FuseRamFs's tables.
  unfoldable pub pickle_tables : ℤ → Host S → Run (Host S) ℤ
  unfolding pickle_file_system
  pickle_tables fd h = elim (pickle_file_system (k.device fd) l m h.fs h.machine) [
    | none ↦ stuck
    | some (res, fs, s) ↦ done res (record { fs = fs; machine = s })
  ]

  -- The write of the header, whose result is tested for its sign only.
  unfoldable pub write_header : ℤ → Header → Host S → Run (Host S) ℤ
  write_header fd header h =
      let w = (k.device fd).write (image.to_bytes header) h.machine in
      done (if ltb w.count sign_bit then pos 0 else neg (pos w.error))
        (record h { machine = w.after })

  -- From the file descriptor to the end of the try block.
  unfoldable pub save_to : ℤ → Host S → Run (Host S) ℤ
  unfolding pickle_tables write_header
  save_to fd = do
    skipped ← call ((k.device fd).seek (pos image.size))
    if is_error skipped then throw_errno k else do
      _ ← call k.init
      res ← pickle_tables fd
      if is_error res then throw_errno k else do
        filelen ← call (λ s. ((k.device fd).tell s, s))
        hash ← call k.final
        rewound ← call ((k.device fd).seek (pos 0))
        if is_error rewound
            then throw_errno k
            else write_header fd (record { fsize = magnitude filelen; hash = hash })

  unfoldable pub save : Bytes → Host S → Run (Host S) ℤ
  unfolding save_to fetch_filepath
  save cfgpath = do
    path ← fetch_filepath k m cfgpath
    fd ← call (k.open_path path true)
    if is_error fd
        then throw_errno k
        else (if is_positive fd then closing k fd (save_to fd) else save_to fd)

  -- pickle_verifs2.
  unfoldable pub pickle_verifs2 : Bytes → Fs → S → Option (ℤ × Fs × S)
  unfolding save
  pickle_verifs2 cfgpath fs s = caught (save cfgpath (record { fs = fs; machine = s }))
