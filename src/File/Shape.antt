-- ===== src/File/Shape.antt =====
-- The shape that the methods of src/file.cpp keep: the buffer is as long as the blocks, and the
-- blocks are what the size needs.
use veri_fs.Base.{◌+◌, ◌*◌, ◌≡◌, ◌<◌, length, word, sign_bit}
use veri_fs.Types.{buf_block_size}
use veri_fs.Blocks.{get_nblocks}
use veri_fs.File.{FileState}

pub record IsFile (f : FileState) : Type 0 where
  pub blocks : f.st_blocks ≡ get_nblocks f.st_size buf_block_size
  pub buffer : length f.m_buf ≡ f.st_blocks * buf_block_size
  pub size_range : f.st_size < sign_bit
  pub free_range : f.st_blocks + f.stbuf.f_bfree < word
