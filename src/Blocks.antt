-- ===== src/Blocks.antt =====
-- Sizes in blocks (src/util.hpp), and the counters of free blocks and inodes (m_stbuf in
-- src/fuse_cpp_ramfs.hpp).
pub mod Rounding
pub mod Room
use veri_fs.Base.{
  ℕ, ◌+◌, ◌-◌, ◌*◌, ◌/◌, Option, none, some, Bool, true, ◌||◌, if◌then◌else◌, leb, ltb, ◌==◌, add64,
  sub64, mul64, word, is_negative,
}
use veri_fs.Types.{Attr, Statvfs, buf_block_size}

-- get_nblocks.
unfoldable pub get_nblocks : ℕ → ℕ → ℕ
get_nblocks size blocksize = sub64 (add64 size blocksize) 1 / blocksize

-- round_up.
unfoldable pub round_up : ℕ → ℕ → ℕ
round_up value unit = mul64 (sub64 (add64 value unit) 1 / unit) unit

-- UpdateUsedBlocks. The argument is signed, and wraps with the counters.
unfoldable pub update_used_blocks : ℕ → Statvfs → Statvfs
update_used_blocks blocks_added s = record s {
  f_bfree = sub64 s.f_bfree blocks_added;
  f_bavail = sub64 s.f_bavail blocks_added;
}

-- UpdateUsedInodes.
unfoldable pub update_used_inodes : ℕ → Statvfs → Statvfs
update_used_inodes inodes_added s = record s {
  f_ffree = sub64 s.f_ffree inodes_added;
  f_favail = sub64 s.f_favail inodes_added;
}

-- The blocks that an inode uses and its new size; no inode uses nothing.
abbrev pub used_blocks : Option Attr → ℕ
used_blocks none = 0
used_blocks (some a) = a.st_blocks

abbrev pub grown_size : Option Attr → ℕ → ℕ
grown_size none inc_size = inc_size
grown_size (some a) inc_size = add64 a.st_size inc_size

-- CheckHasSpaceFor.
unfoldable pub check_has_space_for : Statvfs → Option Attr → ℕ → Bool
unfolding get_nblocks
check_has_space_for s inode inc_size =
    if inc_size == 0 || is_negative inc_size
    then true
    else let old_blocks = used_blocks inode in
      let new_blocks = get_nblocks (grown_size inode inc_size) buf_block_size in
      if leb new_blocks old_blocks then true else leb (sub64 new_blocks old_blocks) s.f_bfree
