-- ===== src/File/Keeps.antt =====
-- What the methods of a file leave alone, whatever the shape: its number and the inode counts.
use veri_fs.Base.{ℕ, ◌≡◌, some, Bool, arith, ℤ}
use veri_fs.Types.{Bytes}
use veri_fs.Replies.{Reply}
use veri_fs.Memory.{Allocator}
use veri_fs.Blocks.{update_used_blocks}
use veri_fs.File.{FileState, file_truncate, write_into, write_and_reply, read_and_reply}

pub record Keeps (f g : FileState) : Type 0 where
  pub number : g.st_ino ≡ f.st_ino
  pub free_count : g.stbuf.f_ffree ≡ f.stbuf.f_ffree
  pub total : g.stbuf.f_files ≡ f.stbuf.f_files

pub file_truncate-Keeps :
    (m : Allocator) (now n : ℕ) (f g : FileState) (r : ℤ)
    → file_truncate m now n f ≡ some (r, g)
    → Keeps f g
unfolding file_truncate update_used_blocks
file_truncate-Keeps m now n f g r h = record {
  number = ground arith;
  free_count = ground arith;
  total = ground arith;
}

write_into-Keeps :
    (now : ℕ) (src : Bytes) (off : ℕ) (grows : Bool) (f g : FileState) (b : Bytes) (r : Reply)
    → write_into now src off grows f b ≡ some (r, g)
    → Keeps f g
unfolding write_into update_used_blocks
write_into-Keeps now src off grows f g b r h = record {
  number = ground arith;
  free_count = ground arith;
  total = ground arith;
}

pub write_and_reply-Keeps :
    (m : Allocator) (now : ℕ) (src : Bytes) (off : ℕ) (f g : FileState) (r : Reply)
    → write_and_reply m now src off f ≡ some (r, g)
    → Keeps f g
unfolding write_and_reply write_into update_used_blocks
write_and_reply-Keeps m now src off f g r h = record {
  number = ground arith;
  free_count = ground arith;
  total = ground arith;
}

pub read_and_reply-Keeps :
    (now size off : ℕ) (f g : FileState) (r : Reply)
    → read_and_reply now size off f ≡ some (r, g)
    → Keeps f g
unfolding read_and_reply
read_and_reply-Keeps now size off f g r h = record {
  number = ground arith;
  free_count = ground arith;
  total = ground arith;
}
