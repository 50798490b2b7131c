-- ===== src/Ledger/Queries.antt =====
-- The handlers that only look leave the state as it is.
use veri_fs.Base.{ℕ, ◌≡◌, arith}
use veri_fs.Types.{Name}
use veri_fs.Memory.{Allocator}
use veri_fs.Fs.{Fs, Caller}
use veri_fs.Fs.Access.{
  fuse_get_attr, fuse_open_dir, fuse_release_dir, fuse_open, fuse_release, fuse_fsync,
  fuse_fsync_dir, fuse_flush, fuse_read_link, fuse_statfs, fuse_get_xattr, fuse_list_xattr,
  fuse_access, fuse_get_lock,
}
use veri_fs.Ledger.Always.{Always, Always-start}

-- The state is `fs`.
abbrev pub Unchanged : Fs → Fs → Type 0
Unchanged fs gs = gs ≡ fs

pub fuse_get_attr-Unchanged : (ino : ℕ) (fs : Fs) → Always (Unchanged fs) (fuse_get_attr ino fs)
unfolding fuse_get_attr
fuse_get_attr-Unchanged ino fs = Always-start (fuse_get_attr ino fs) λ rs gs h. ground arith

pub fuse_open_dir-Unchanged : (ino : ℕ) (fs : Fs) → Always (Unchanged fs) (fuse_open_dir ino fs)
unfolding fuse_open_dir
fuse_open_dir-Unchanged ino fs = Always-start (fuse_open_dir ino fs) λ rs gs h. ground arith

pub fuse_release_dir-Unchanged :
    (ino : ℕ) (fs : Fs) → Always (Unchanged fs) (fuse_release_dir ino fs)
unfolding fuse_release_dir
fuse_release_dir-Unchanged ino fs = Always-start (fuse_release_dir ino fs) λ rs gs h. ground arith

pub fuse_open-Unchanged : (ino : ℕ) (fs : Fs) → Always (Unchanged fs) (fuse_open ino fs)
unfolding fuse_open
fuse_open-Unchanged ino fs = Always-start (fuse_open ino fs) λ rs gs h. ground arith

pub fuse_release-Unchanged : (ino : ℕ) (fs : Fs) → Always (Unchanged fs) (fuse_release ino fs)
unfolding fuse_release
fuse_release-Unchanged ino fs = Always-start (fuse_release ino fs) λ rs gs h. ground arith

pub fuse_fsync-Unchanged : (ino : ℕ) (fs : Fs) → Always (Unchanged fs) (fuse_fsync ino fs)
unfolding fuse_fsync
fuse_fsync-Unchanged ino fs = Always-start (fuse_fsync ino fs) λ rs gs h. ground arith

pub fuse_fsync_dir-Unchanged : (ino : ℕ) (fs : Fs) → Always (Unchanged fs) (fuse_fsync_dir ino fs)
unfolding fuse_fsync_dir
fuse_fsync_dir-Unchanged ino fs = Always-start (fuse_fsync_dir ino fs) λ rs gs h. ground arith

pub fuse_flush-Unchanged : (ino : ℕ) (fs : Fs) → Always (Unchanged fs) (fuse_flush ino fs)
unfolding fuse_flush
fuse_flush-Unchanged ino fs = Always-start (fuse_flush ino fs) λ rs gs h. ground arith

pub fuse_read_link-Unchanged : (ino : ℕ) (fs : Fs) → Always (Unchanged fs) (fuse_read_link ino fs)
unfolding fuse_read_link
fuse_read_link-Unchanged ino fs = Always-start (fuse_read_link ino fs) λ rs gs h. ground arith

pub fuse_statfs-Unchanged : (ino : ℕ) (fs : Fs) → Always (Unchanged fs) (fuse_statfs ino fs)
unfolding fuse_statfs
fuse_statfs-Unchanged ino fs = Always-start (fuse_statfs ino fs) λ rs gs h. ground arith

pub fuse_get_xattr-Unchanged :
    (ino : ℕ) (name : Name) (size : ℕ) (fs : Fs)
    → Always (Unchanged fs) (fuse_get_xattr ino name size fs)
unfolding fuse_get_xattr
fuse_get_xattr-Unchanged ino name size fs =
    Always-start (fuse_get_xattr ino name size fs) λ rs gs h. ground arith

pub fuse_list_xattr-Unchanged :
    (m : Allocator) (ino size : ℕ) (fs : Fs) → Always (Unchanged fs) (fuse_list_xattr m ino size fs)
unfolding fuse_list_xattr
fuse_list_xattr-Unchanged m ino size fs =
    Always-start (fuse_list_xattr m ino size fs) λ rs gs h. ground arith

pub fuse_access-Unchanged :
    (ctx : Caller) (ino mask : ℕ) (fs : Fs) → Always (Unchanged fs) (fuse_access ctx ino mask fs)
unfolding fuse_access
fuse_access-Unchanged ctx ino mask fs =
    Always-start (fuse_access ctx ino mask fs) λ rs gs h. ground arith

pub fuse_get_lock-Unchanged : (ino : ℕ) (fs : Fs) → Always (Unchanged fs) (fuse_get_lock ino fs)
unfolding fuse_get_lock
fuse_get_lock-Unchanged ino fs = Always-start (fuse_get_lock ino fs) λ rs gs h. ground arith
