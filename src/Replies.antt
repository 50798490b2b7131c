-- ===== src/Replies.antt =====
-- The replies that the program gives through libfuse, one constructor for each fuse_reply_ function.
use veri_fs.Base.{ℕ, ℤ}
use veri_fs.Types.{Bytes, Attr, EntryParam, Statvfs}

pub data Reply : Type 0 where
  -- fuse_reply_err; the program also passes it negated error numbers.
  err : ℤ → Reply
  -- fuse_reply_entry and fuse_reply_create.
  entry : EntryParam → Reply
  created : EntryParam → Reply
  -- fuse_reply_attr, with a timeout in seconds.
  attributes : Attr → ℕ → Reply
  -- fuse_reply_buf, fuse_reply_write, fuse_reply_xattr.
  buf : Bytes → Reply
  write : ℕ → Reply
  xattr_size : ℕ → Reply
  -- fuse_reply_open, fuse_reply_readlink, fuse_reply_statfs, fuse_reply_ioctl, fuse_reply_none.
  opened : Reply
  link_target : Bytes → Reply
  counters : Statvfs → Reply
  ioctl_done : ℕ → Reply
  nothing : Reply
