-- ===== src/Ioctl/Restores.antt =====
-- The checkpoint and the restore of FuseIoctl, one after the other.
use veri_fs.Base.{ℕ, zero, suc, ◌≡◌, ◌≢◌, refl, ap, Option, none, some, true, [], ℤ, pos, negsuc}
use veri_fs.Replies.{ioctl_done}
use veri_fs.Memory.{Allocator}
use veri_fs.Fs.{Fs}
use veri_fs.Fs.Checkpoint.{checkpoint, restore, can_notify}
use veri_fs.Fs.Checkpoint.Laws.{IsCopyable, restore-checkpoint}
use veri_fs.Ledger.View.{some_injective}
use veri_fs.Pickle.{Image, Layout}
use veri_fs.Pickle.StateFile.{Kernel, Header}
use veri_fs.Ioctl.{verifs_checkpoint, verifs_restore, ioctl_reply, reply_same, fuse_ioctl}

-- The reply 0 is the value 0.
ioctl_reply-zero : (r : ℤ) → ioctl_reply r ≡ ioctl_done 0 → r ≡ pos 0
ioctl_reply-zero (pos zero) e = refl
ioctl_reply-zero (pos (suc n)) e = cc
ioctl_reply-zero (negsuc n) e = cc

reply_same-done :
    {S : Type 0} (s t : S) (o : Option (ℤ × Fs)) (gs : Fs)
    → reply_same s o ≡ some (ioctl_done 0, gs, t)
    → o ≡ some (pos 0, gs)
reply_same-done s t none gs e = cc
reply_same-done s t (some (r, hs)) gs e =
    let q = some_injective e in
    ap some (pair (ioctl_reply-zero r (ap (λ x. x.0) q)) (ap (λ x. x.1) q))
  where
    pair : {a b : ℤ} {x y : Fs} → a ≡ b → x ≡ y → ◌≡◌ {A = ℤ × Fs} (a, x) (b, y)
    pair p q = cc

module _ {S : Type 0} (k : Kernel S) (l : Layout) (image : Image Header) (m : Allocator)
    (fuel : ℕ) where
  ioctl_checkpoint :
      (key : ℕ) (fs : Fs) (s : S)
      → fuse_ioctl k l image m fuel verifs_checkpoint key fs s ≡ reply_same s (checkpoint m key fs)
  unfolding fuse_ioctl
  ioctl_checkpoint key fs s = refl

  ioctl_restore :
      (key : ℕ) (fs : Fs) (s : S)
      → fuse_ioctl k l image m fuel verifs_restore key fs s ≡ reply_same s (restore m key fs)
  unfolding fuse_ioctl
  ioctl_restore key fs s = refl

-- An ioctl that checkpoints and replies 0, of a table that is not empty and whose inodes have no
-- extended attributes and are of the class that their mode says, files with a buffer as long as
-- their blocks and of a size that the allocator grants: an ioctl that restores the same key, from
-- any state whose pool the first left and whose directories are of their class, on any machine,
-- replies 0, leaves the machine as it is, and brings back the table, the queue of deleted inodes,
-- the counters and the pool from before the first.
pub fuse_ioctl-fuse_ioctl :
    {S : Type 0} (k : Kernel S) (l : Layout) (image : Image Header) (m : Allocator) (fuel key : ℕ)
    (fs gs hs : Fs) (s t u : S)
    → IsCopyable m fs.inodes
    → fs.inodes ≢ []
    → fuse_ioctl k l image m fuel verifs_checkpoint key fs s ≡ some (ioctl_done 0, gs, t)
    → hs.state_pool ≡ gs.state_pool
    → can_notify hs.inodes ≡ true
    → fuse_ioctl k l image m fuel verifs_restore key hs u
      ≡ some (
        ioctl_done 0,
        record hs {
          inodes = fs.inodes;
          deleted_inodes = fs.deleted_inodes;
          m_stbuf = fs.m_stbuf;
          state_pool = fs.state_pool;
        },
        u,
      )
fuse_ioctl-fuse_ioctl k l image m fuel key fs gs hs s t u v n e same able =
    let saved =
      reply_same-done s t (checkpoint m key fs) gs
        (rw (ioctl_checkpoint k l image m fuel key fs s) at e) in
    rw
      (
        ioctl_restore k l image m fuel key hs u,
        restore-checkpoint m key fs gs hs v n saved same able,
      )
      refl
