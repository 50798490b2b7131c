-- ===== src/Tests/Layouts.antt =====
-- A layout in which every field takes eight bytes, and a machine with one file.
use veri_fs.Base.{
  ℕ, zero, suc, ◌+◌, refl, true, if◌then◌else◌, some, List, [], ◌∷◌, ◌++◌, ◌==◌, length, take, drop,
  ℤ, pos, negsuc,
}
use veri_fs.Types.{
  Bytes, EntryParam, SpecialInodeType, Statvfs, no_block, char_dev, block_dev, fifo, sock,
}
use veri_fs.Pickle.{Image, Layout, le_bytes, le_value}
use veri_fs.Pickle.Runs.{Device}
use veri_fs.Pickle.System.Emits.{IsWhole}
use veri_fs.Pickle.StateFile.{Header, Kernel}

abbrev pub words_bytes : List ℕ → Bytes
words_bytes [] = []
words_bytes (w ∷ ws) = le_bytes 8 w ++ words_bytes ws

-- The word at an index.
abbrev word_at : ℕ → Bytes → ℕ
word_at zero bytes = le_value (take 8 bytes)
word_at (suc n) bytes = word_at n (drop 8 bytes)

abbrev entry_param_image : Image EntryParam
entry_param_image = record {
  size = 128;
  to_bytes = λ e. words_bytes (
      e.ino ∷ e.generation ∷ e.st_dev ∷ e.st_ino ∷ e.st_mode ∷ e.st_nlink ∷ e.st_uid ∷ e.st_gid
      ∷ e.st_size ∷ e.st_blksize ∷ e.st_blocks ∷ e.st_atim ∷ e.st_mtim ∷ e.st_ctim ∷ e.attr_timeout
      ∷ e.entry_timeout ∷ []);
  of_bytes = λ b. record {
    ino = word_at 0 b;
    generation = word_at 1 b;
    attr = record {
      st_dev = word_at 2 b;
      st_ino = word_at 3 b;
      st_mode = word_at 4 b;
      st_nlink = word_at 5 b;
      st_uid = word_at 6 b;
      st_gid = word_at 7 b;
      st_size = word_at 8 b;
      st_blksize = word_at 9 b;
      st_blocks = word_at 10 b;
      st_atim = word_at 11 b;
      st_mtim = word_at 12 b;
      st_ctim = word_at 13 b;
    };
    attr_timeout = word_at 14 b;
    entry_timeout = word_at 15 b;
  };
}

abbrev statvfs_image : Image Statvfs
statvfs_image = record {
  size = 88;
  to_bytes = λ s. words_bytes (
      s.f_bsize ∷ s.f_frsize ∷ s.f_blocks ∷ s.f_bfree ∷ s.f_bavail ∷ s.f_files ∷ s.f_ffree
      ∷ s.f_favail ∷ s.f_fsid ∷ s.f_flag ∷ s.f_namemax ∷ []);
  of_bytes = λ b. record {
    f_bsize = word_at 0 b;
    f_frsize = word_at 1 b;
    f_blocks = word_at 2 b;
    f_bfree = word_at 3 b;
    f_bavail = word_at 4 b;
    f_files = word_at 5 b;
    f_ffree = word_at 6 b;
    f_favail = word_at 7 b;
    f_fsid = word_at 8 b;
    f_flag = word_at 9 b;
    f_namemax = word_at 10 b;
  };
}

abbrev type_of : ℕ → SpecialInodeType
type_of n =
    if n == 0
    then no_block
    else if n == 1
    then char_dev
    else if n == 2
    then block_dev
    else if n == 3
    then fifo
    else sock

abbrev number_of : SpecialInodeType → ℕ
number_of t = elim t [ no_block ↦ 0 | char_dev ↦ 1 | block_dev ↦ 2 | fifo ↦ 3 | sock ↦ 4 ]

abbrev pub wide : Layout
wide = record {
  entry_param = entry_param_image;
  statvfs = statvfs_image;
  inode_state = record {
    size = 16;
    to_bytes = λ i. words_bytes ((if i.exist then 1 else 0) ∷ i.mode ∷ []);
    of_bytes = λ b. record { exist = word_at 0 b == 1; mode = word_at 1 b };
  };
  special_type = record {
    size = 8;
    to_bytes = λ t. le_bytes 8 (number_of t);
    of_bytes = λ b. type_of (word_at 0 b);
  };
}

abbrev pub header_image : Image Header
header_image = record {
  size = 16;
  to_bytes = λ h. le_bytes 8 h.fsize ++ take 8 h.hash;
  of_bytes = λ b. record { fsize = word_at 0 b; hash = take 8 (drop 8 b) };
}

-- The bytes of the file, the offset in it, and the sum of the bytes that the hash was fed.
pub record Machine : Type 0 where
  pub file_bytes : Bytes
  pub offset : ℕ
  pub sum : ℕ

abbrev pub total : Bytes → ℕ
total [] = 0
total (b ∷ bytes) = b + total bytes

abbrev offset_of : ℤ → ℕ
offset_of (pos n) = n
offset_of (negsuc n) = 0

-- Writes go to the end of the file.
abbrev pub appending : Device Machine
appending = record {
  write = λ b s. record {
    count = length b;
    error = 0;
    after = record s { file_bytes = s.file_bytes ++ b };
  };
  feed = λ b s. (true, record s { sum = s.sum + total b });
  tell = λ s. pos (length s.file_bytes);
  seek = λ off s. (off, record s { offset = offset_of off });
}

pub appending-IsWhole : IsWhole appending (λ s. s.file_bytes)
appending-IsWhole = record {
  counted = λ b s. refl;
  appended = λ b s. refl;
  fed = λ b s. refl;
  kept = λ b s. refl;
}

-- Every path opens the file.
abbrev pub one_file : Kernel Machine
one_file = record {
  open_path = λ path create s. (pos 3, record s { offset = 0 });
  read = λ fd n s.
      let got = take n (drop s.offset s.file_bytes) in
      ((pos (length got), got), record s { offset = s.offset + length got });
  fstat = λ fd s. ((pos 0, length s.file_bytes), s);
  mmap = λ fd n s. (some s.file_bytes, s);
  close = λ fd s. (tt, s);
  errno = λ s. 5;
  init = λ s. (true, record s { sum = 0 });
  final = λ s. (le_bytes 8 s.sum, s);
  device = λ fd. appending;
}
