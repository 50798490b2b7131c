-- ===== src/Fs/Mount.antt =====
-- The constructor of class FuseRamFs and FuseInit, in src/fuse_cpp_ramfs.cpp.
use Prim.Native.Nat.{bit_or}
use veri_fs.Base.{ℕ, Option, if◌then◌else◌, ◌==◌, ◌>>=◌, []}
use veri_fs.Types.{Abi, directory, special, no_block, buf_block_size}
use veri_fs.Inode.{new_inode}
use veri_fs.Fs.{Fs, Caller}
use veri_fs.Fs.Create.{register_inode, add_dots, s_ifdir}

-- kTotalBlocks, kTotalInodes, kFilesystemId and kMaxFilenameLength.
abbrev pub k_total_blocks : ℕ
k_total_blocks = 8388608

abbrev pub k_total_inodes : ℕ
k_total_inodes = 1048576

abbrev pub k_filesystem_id : ℕ
k_filesystem_id = 0xc13f944870434d8f

abbrev pub k_max_filename_length : ℕ
k_max_filename_length = 1024

-- A limit that the constructor is given; 0 stands for the default.
abbrev pub limit_or : ℕ → ℕ → ℕ
limit_or given default = if given == 0 then default else given

-- The counters that the constructor leaves.
unfoldable pub construct : ℕ → ℕ → Fs
construct blocks inodes =
    let b = limit_or blocks k_total_blocks in
    let n = limit_or inodes k_total_inodes in
    record {
      inodes = [];
      deleted_inodes = [];
      m_stbuf = record {
        f_bsize = buf_block_size;
        f_frsize = buf_block_size;
        f_blocks = b;
        f_bfree = b;
        f_bavail = b;
        f_files = n;
        f_ffree = n;
        f_favail = n;
        f_fsid = k_filesystem_id;
        f_flag = 0;
        f_namemax = k_max_filename_length;
      };
      state_pool = [];
      readdir_states = [];
    }

-- The counters that FuseInit starts from.
unfoldable pub reset_counters : Fs → Fs
reset_counters fs = record fs {
  m_stbuf = record fs.m_stbuf {
    f_bfree = fs.m_stbuf.f_blocks;
    f_bavail = fs.m_stbuf.f_blocks;
    f_ffree = fs.m_stbuf.f_files;
    f_favail = fs.m_stbuf.f_files;
    f_flag = 0;
  };
}

-- FuseInit, at a clock, for a process and with the mode 0777 & ~umask. The connection's flags are not part of
-- the state.
unfoldable pub fuse_init : ⦃abi : Abi⦄ → ℕ → Caller → ℕ → Fs → Option Fs
unfolding reset_counters register_inode add_dots
fuse_init now process rootmode fs = do
  (_, one) ←
      register_inode now (new_inode (special no_block)) 0 0 process.gid process.uid
        (reset_counters fs)
  (rootno, two) ←
      register_inode now (new_inode (directory [])) (bit_or s_ifdir rootmode) 2 process.gid
        process.uid one
  add_dots rootno rootno two
