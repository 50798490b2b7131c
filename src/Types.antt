-- ===== src/Types.antt =====
-- The data that the classes of src/inode.hpp, file.hpp, directory.hpp, symlink.hpp and
-- special_inode.hpp keep, the file system's counters, and the constants that they use.
-- Every integer is the number that its 64-bit pattern stands for; a time is a number of nanoseconds.
use veri_fs.Base.{ℕ, Bool, List}

abbrev pub Bytes : Type 0
Bytes = List ℕ

-- A file name, as the bytes of a std::string.
abbrev pub Name : Type 0
Name = List ℕ

-- Inode::BufBlockSize.
abbrev pub buf_block_size : ℕ
buf_block_size = 512

-- INO_NOTFOUND.
abbrev pub ino_notfound : ℕ
ino_notfound = 0

-- The Linux error numbers that the program replies with.
abbrev pub enoent : ℕ
enoent = 2

abbrev pub e2big : ℕ
e2big = 7

abbrev pub ebadf : ℕ
ebadf = 9

abbrev pub enomem : ℕ
enomem = 12

abbrev pub eacces : ℕ
eacces = 13

abbrev pub eexist : ℕ
eexist = 17

abbrev pub enotdir : ℕ
enotdir = 20

abbrev pub eisdir : ℕ
eisdir = 21

abbrev pub einval : ℕ
einval = 22

abbrev pub enospc : ℕ
enospc = 28

abbrev pub erange : ℕ
erange = 34

abbrev pub enosys : ℕ
enosys = 38

abbrev pub enotempty : ℕ
enotempty = 39

abbrev pub enodata : ℕ
enodata = 61

-- struct stat.
pub record Attr : Type 0 where
  pub st_dev : ℕ
  pub st_ino : ℕ
  pub st_mode : ℕ
  pub st_nlink : ℕ
  pub st_uid : ℕ
  pub st_gid : ℕ
  pub st_size : ℕ
  pub st_blksize : ℕ
  pub st_blocks : ℕ
  pub st_atim : ℕ
  pub st_mtim : ℕ
  pub st_ctim : ℕ

-- struct fuse_entry_param. The timeouts are whole seconds.
pub record EntryParam : Type 0 where
  pub ino : ℕ
  pub generation : ℕ
  pub attr : Attr
  pub open attr use *
  pub attr_timeout : ℕ
  pub entry_timeout : ℕ

-- enum SpecialInodeTypes.
pub data SpecialInodeType : Type 0 where
  no_block char_dev block_dev fifo sock : SpecialInodeType

-- What each subclass of Inode adds: m_buf, m_children, m_link, m_type.
pub data Node : Type 0 where
  file : Bytes → Node
  directory : List (Name × ℕ) → Node
  symlink : Bytes → Node
  special : SpecialInodeType → Node

-- class Inode with its subclass's part. An extended attribute's value is the buffer of the pair in
-- m_xattr, whose length is the pair's size.
pub record Inode : Type 0 where
  pub marked_for_deletion : Bool
  pub nlookup : ℕ
  pub entry_param : EntryParam
  pub open entry_param use *
  pub xattr : List (Name × Bytes)
  pub node : Node

-- struct statvfs.
pub record Statvfs : Type 0 where
  pub f_bsize : ℕ
  pub f_frsize : ℕ
  pub f_blocks : ℕ
  pub f_bfree : ℕ
  pub f_bavail : ℕ
  pub f_files : ℕ
  pub f_ffree : ℕ
  pub f_favail : ℕ
  pub f_fsid : ℕ
  pub f_flag : ℕ
  pub f_namemax : ℕ

-- Sizes that the compiler and the C++ library fix: of std::vector (a directory's base size), of
-- _Rb_tree_node_base, fuse_ino_t and std::string (a directory entry's size).
pub record Abi : Type 0 where
  pub vector_size : ℕ
  pub rb_node_size : ℕ
  pub ino_size : ℕ
  pub string_size : ℕ
