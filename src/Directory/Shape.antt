-- ===== src/Directory/Shape.antt =====
-- The shape that the methods of src/directory.cpp keep.
use veri_fs.Base.{◌+◌, ◌≡◌, ◌<◌, word, sign_bit}
use veri_fs.Types.{Abi, buf_block_size}
use veri_fs.Blocks.{get_nblocks}
use veri_fs.Directory.{DirectoryState}
use veri_fs.Directory.Children.{Distinct, children_bytes}

-- No name stands twice, the size is that of the vector and of the entries, and the blocks are what
-- the size needs.
pub record IsDirectory ⦃abi : Abi⦄ (d : DirectoryState) : Type 0 where
  pub distinct : Distinct d.m_children
  pub size : d.st_size ≡ abi.vector_size + children_bytes d.m_children
  pub blocks : d.st_blocks ≡ get_nblocks d.st_size buf_block_size
  pub size_range : d.st_size < sign_bit
  pub free_range : d.st_blocks + d.stbuf.f_bfree < word
