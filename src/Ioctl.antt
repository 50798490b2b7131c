-- ===== src/Ioctl.antt =====
-- FuseRamFs::FuseIoctl of src/fuse_cpp_ramfs.cpp: checkpoint, restore, pickle and load as replies.
pub mod Restores
use veri_fs.Base.{
  ℕ, zero, suc, Option, none, some, if◌then◌else◌, [], ◌∷◌, ◌==◌, ℤ, pos, negsuc, neg,
}
use veri_fs.Types.{Bytes, enosys}
use veri_fs.Replies.{Reply, err, ioctl_done}
use veri_fs.Memory.{Allocator}
use veri_fs.Fs.{Fs}
use veri_fs.Fs.Checkpoint.{checkpoint, restore}
use veri_fs.Pickle.{Image, Layout}
use veri_fs.Pickle.StateFile.{Kernel, Header}
use veri_fs.Pickle.StateFile.Save.{pickle_verifs2}
use veri_fs.Pickle.StateFile.Load.{load_verifs2}

-- VERIFS_CHECKPOINT, VERIFS_RESTORE, VERIFS_PICKLE and VERIFS_LOAD: _IO('1', '1' + n).
abbrev pub verifs_checkpoint : ℕ
verifs_checkpoint = 0x3132

abbrev pub verifs_restore : ℕ
verifs_restore = 0x3133

abbrev pub verifs_pickle : ℕ
verifs_pickle = 0x3134

abbrev pub verifs_load : ℕ
verifs_load = 0x3135

-- "/tmp/pickle.cfg".
abbrev pub pickle_cfg : Bytes
pickle_cfg =
    0x2f ∷ 0x74 ∷ 0x6d ∷ 0x70 ∷ 0x2f ∷ 0x70 ∷ 0x69 ∷ 0x63 ∷ 0x6b ∷ 0x6c ∷ 0x65 ∷ 0x2e ∷ 0x63 ∷ 0x66
    ∷ 0x67 ∷ []

-- The reply to the value of the operation.
abbrev pub ioctl_reply : ℤ → Reply
ioctl_reply (pos zero) = ioctl_done 0
ioctl_reply (pos (suc n)) = err (neg (pos (suc n)))
ioctl_reply (negsuc n) = err (neg (negsuc n))

-- The reply, with the machine as it was.
abbrev pub reply_same : {S : Type 0} → S → Option (ℤ × Fs) → Option (Reply × Fs × S)
reply_same s none = none
reply_same s (some (ret, fs)) = some (ioctl_reply ret, fs, s)

abbrev pub reply_machine : {S : Type 0} → Option (ℤ × Fs × S) → Option (Reply × Fs × S)
reply_machine none = none
reply_machine (some (ret, fs, s)) = some (ioctl_reply ret, fs, s)

module _ {S : Type 0} (k : Kernel S) (l : Layout) (image : Image Header) (m : Allocator)
    (fuel : ℕ) where
  -- FuseIoctl. The argument of checkpoint and restore is their key.
  unfoldable pub fuse_ioctl : ℕ → ℕ → Fs → S → Option (Reply × Fs × S)
  unfolding checkpoint restore pickle_verifs2 load_verifs2
  fuse_ioctl cmd arg fs s =
      if cmd == verifs_checkpoint
      then reply_same s (checkpoint m arg fs)
      else if cmd == verifs_restore
      then reply_same s (restore m arg fs)
      else if cmd == verifs_pickle
      then reply_machine (pickle_verifs2 k l image m pickle_cfg fs s)
      else if cmd == verifs_load
      then reply_machine (load_verifs2 k l image m fuel pickle_cfg fs s)
      else some (ioctl_reply (pos enosys), fs, s)
