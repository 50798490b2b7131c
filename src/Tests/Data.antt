-- ===== src/Tests/Data.antt =====
-- The data that the runs share.
use veri_fs.Base.{refl, arith, [], ◌∷◌, replicate, ltb}
use veri_fs.Types.{Abi, Statvfs, Name, Bytes}
use veri_fs.Memory.{Allocator}
use veri_fs.Inode.{zero_attr}
use veri_fs.File.{FileState}
use veri_fs.Directory.{DirectoryState, find}
use veri_fs.Blocks.{get_nblocks}
use veri_fs.Directory.Children.{children_bytes}
use veri_fs.Directory.Shape.{IsDirectory}

-- libstdc++ on x86-64.
instance abbrev pub x86_64 : Abi
x86_64 = record { vector_size = 24; rb_node_size = 32; ino_size = 8; string_size = 32 }

-- An allocator that has a megabyte, and leaves 0xaa in fresh bytes.
abbrev pub megabyte : Allocator
megabyte = record { grants = λ n. ltb n 1048576; junk = λ i. 0xaa }

abbrev pub counters : Statvfs
counters = record {
  f_bsize = 4096;
  f_frsize = 512;
  f_blocks = 100;
  f_bfree = 90;
  f_bavail = 90;
  f_files = 50;
  f_ffree = 48;
  f_favail = 48;
  f_fsid = 0;
  f_flag = 0;
  f_namemax = 255;
}

-- Five bytes, in a block whose other bytes were never written.
abbrev pub hello_bytes : Bytes
hello_bytes = b'h' ∷ b'e' ∷ b'l' ∷ b'l' ∷ b'o' ∷ replicate 507 0xaa

abbrev pub hello : FileState
hello = record {
  attr = record zero_attr { st_ino = 2; st_size = 5; st_blocks = 1; st_nlink = 1 };
  m_buf = hello_bytes;
  stbuf = counters;
}

abbrev pub bang : Bytes
bang = b'!' ∷ b'?' ∷ []

abbrev pub readme : Name
readme = b'r' ∷ b'e' ∷ b'a' ∷ b'd' ∷ []

abbrev pub notes : Name
notes = b'n' ∷ b'o' ∷ b't' ∷ []

-- A directory with one entry of four bytes: 24 + 76 bytes in one block.
abbrev pub docs : DirectoryState
docs = record {
  attr = record zero_attr { st_ino = 1; st_size = 100; st_blocks = 1; st_nlink = 2 };
  m_children = (readme, 2) ∷ [];
  stbuf = counters;
}

pub docs-IsDirectory : IsDirectory docs
unfolding get_nblocks children_bytes find
docs-IsDirectory = record {
  distinct = (refl, tt);
  size = refl;
  blocks = refl;
  size_range = omega arith;
  free_range = omega arith;
}
