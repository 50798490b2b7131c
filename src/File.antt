-- ===== src/File.antt =====
-- src/file.cpp: a regular file's buffer, with its attributes and the counters that it moves.
-- Each method returns its reply and the new state; `none` is an access outside of the buffer.
pub mod Shape
mod Fill
pub mod Truncate
pub mod Write
pub mod Read
pub mod Keeps
use veri_fs.Base.{
  ℕ, ◌+◌, ◌-◌, ◌*◌, ◌/◌, ◌%◌, ◌≡◌, ◌<◌, ◌≤◌, Option, none, some, Bool, true, false, not,
  if◌then◌else◌, List, [], leb, ltb, ◌==◌, ◌>>=◌, length, take, ℤ, pos, neg, add64, sub64, mul64,
  word, sign_bit, signed_ltb,
}
use veri_fs.Types.{Bytes, Attr, Statvfs, buf_block_size, enospc, einval}
use veri_fs.Replies.{Reply, err, write, buf}
use veri_fs.Memory.{Allocator, realloc, memmove, memset, read_bytes}
use veri_fs.Blocks.{get_nblocks, update_used_blocks, check_has_space_for}

-- m_fuseEntryParam.attr, m_buf and FuseRamFs::m_stbuf.
pub record FileState : Type 0 where
  pub attr : Attr
  pub open attr use *
  pub m_buf : Bytes
  pub stbuf : Statvfs

-- The buffer of FileTruncate after its realloc.
pub resized : Allocator → Bytes → ℕ → ℕ → Option Bytes
unfolding realloc
resized m b old_blocks new_blocks =
    if new_blocks == old_blocks
    then some b
    else if new_blocks == 0
    then some []
    else realloc m b (mul64 new_blocks buf_block_size)

-- Zeros in [from, to), if there are any.
unfoldable pub zero_fill : Bytes → ℕ → ℕ → Option Bytes
unfolding memset
zero_fill b from to = if ltb from to then memset b from 0 (sub64 to from) else some b

abbrev pub truncated : ℕ → ℕ → ℕ → FileState → Bytes → FileState
truncated now new_size new_blocks f b = record f {
  attr = record f.attr { st_blocks = new_blocks; st_size = new_size; st_ctim = now; st_mtim = now };
  m_buf = b;
  stbuf = update_used_blocks (sub64 new_blocks f.st_blocks) f.stbuf;
}

-- FileTruncate.
unfoldable pub file_truncate : Allocator → ℕ → ℕ → FileState → Option (ℤ × FileState)
unfolding resized zero_fill
file_truncate m now new_size f =
    let new_blocks = get_nblocks new_size buf_block_size in
    if not (check_has_space_for f.stbuf (some f.attr) (sub64 new_size f.st_size))
    then some (neg (pos enospc), f)
    else elim (resized m f.m_buf f.st_blocks new_blocks) [
      | none ↦ some (pos einval, f)
      | some b ↦ do
        filled ← zero_fill b f.st_size new_size
        some (pos 0, truncated now new_size new_blocks f filled)
    ]

-- The block count of WriteAndReply.
abbrev pub blocks_for : ℕ → ℕ
blocks_for new_size = new_size / buf_block_size + (if new_size % buf_block_size == 0 then 0 else 1)

-- The size, the block count and the times that WriteAndReply leaves.
abbrev pub attr_after_write : ℕ → ℕ → Attr → Attr
attr_after_write now new_size a =
    if ltb a.st_size new_size
    then record a {
      st_blocks = blocks_for new_size;
      st_size = new_size;
      st_ctim = now;
      st_mtim = now;
    }
    else record a { st_ctim = now; st_mtim = now }

-- The counters that it leaves.
abbrev pub stbuf_after_write : Bool → ℕ → FileState → Statvfs
stbuf_after_write grows new_size f =
    if grows then update_used_blocks (sub64 (blocks_for new_size) f.st_blocks) f.stbuf else f.stbuf

-- The part of WriteAndReply from the zeroing of the hole on.
unfoldable pub write_into : ℕ → Bytes → ℕ → Bool → FileState → Bytes → Option (Reply × FileState)
unfolding zero_fill
write_into now src off grows f b = do
  filled ← zero_fill b f.st_size off
  written ← memmove filled off src
  let new_size = add64 off (length src)
  some (
    write (length src),
    record f {
      attr = attr_after_write now new_size f.attr;
      m_buf = written;
      stbuf = stbuf_after_write grows new_size f;
    },
  )

-- WriteAndReply.
unfoldable pub write_and_reply : Allocator → ℕ → Bytes → ℕ → FileState → Option (Reply × FileState)
write_and_reply m now src off f =
    let new_size = add64 off (length src) in
    let original_capacity = mul64 buf_block_size f.st_blocks in
    if ltb original_capacity new_size
    then (if not (check_has_space_for f.stbuf (some f.attr) (sub64 new_size f.st_size))
        then some (err (pos enospc), f)
        else elim (realloc m f.m_buf (mul64 (blocks_for new_size) buf_block_size)) [
          | none ↦ some (write 0, f)
          | some b ↦ write_into now src off true f b
        ])
    else write_into now src off false f f.m_buf

-- ReadAndReply.
unfoldable pub read_and_reply : ℕ → ℕ → ℕ → FileState → Option (Reply × FileState)
read_and_reply now size off f = if signed_ltb f.st_size off then some (buf [], f) else do
  bytes ←
      read_bytes f.m_buf off (if ltb f.st_size (add64 off size) then sub64 f.st_size off else size)
  some (buf bytes, record f { attr = record f.attr { st_atim = now } })

-- What a reader sees: the bytes below st_size.
abbrev pub contents : FileState → Bytes
contents f = take f.st_size f.m_buf
