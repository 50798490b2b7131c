-- ===== src/File/Truncate.antt =====
-- FileTruncate of src/file.cpp: it stays within the buffer, keeps the shape, and cuts or pads with
-- zeros.
use veri_fs.Base.{
  ℕ, ◌+◌, ◌*◌, ◌≡◌, ◌≢◌, sym, ap, ◌∙◌, false, ◌<◌, ◌≤◌, refl, inl, inr, none, some, true, false,
  if◌then◌else◌, ltb, length, get_elem?, arith, ℤ, pos, neg, word, sign_bit, sub64, mul64,
  Bool-cases, Option-cases, get_elem?-take,
}
use veri_fs.Types.{Bytes, buf_block_size, enospc, einval}
use veri_fs.Memory.{Allocator}
use veri_fs.Memory.Contents.{length-realloc, get_elem?-realloc, realloc_refused}
use veri_fs.Blocks.{get_nblocks, update_used_blocks, check_has_space_for}
use veri_fs.Blocks.Rounding.{get_nblocks_least}
use veri_fs.File.{FileState, resized, file_truncate, contents, truncated}
use veri_fs.File.Shape.{IsFile}
use veri_fs.File.Fill.{zero_fill_lem}

resized_lem :
    (m : Allocator) (b new : Bytes) (old_blocks new_blocks : ℕ)
    → length b ≡ old_blocks * buf_block_size
    → new_blocks * buf_block_size < word
    → resized m b old_blocks new_blocks ≡ some new
    → (length new ≡ new_blocks * buf_block_size)
      × ((i : ℕ) → i < length b → i < length new → get_elem? new i ≡ get_elem? b i)
unfolding resized
resized_lem m b new old_blocks new_blocks l w e =
    let grown = length-realloc m b (mul64 new_blocks buf_block_size) {new = new} in
    let same = λ (i : ℕ). get_elem?-realloc m b (mul64 new_blocks buf_block_size) {new = new} i in
    (ground (arith, grown), λ i p q. ground (arith, grown, same i))

resized_refused :
    (m : Allocator) (b : Bytes) (old_blocks new_blocks : ℕ)
    → resized m b old_blocks new_blocks ≡ none
    → (new_blocks ≢ old_blocks)
      × (new_blocks ≢ 0)
      × (m.grants (mul64 new_blocks buf_block_size) ≡ false)
unfolding resized
resized_refused m b old_blocks new_blocks e =
    let refused = realloc_refused m b (mul64 new_blocks buf_block_size) in
    (ground arith, ground arith, ground (arith, refused))

-- How a truncation to `n` bytes ends: refused for want of blocks, refused for want of memory, or
-- done, and then the shape holds, the bytes are cut or padded with zeros, and the blocks that the
-- file gains are the blocks that the file system loses.
pub data Truncates (m : Allocator) (f : FileState) (n : ℕ) : ℤ → FileState → Type 0 where
  no_space :
      f.st_blocks + f.stbuf.f_bfree < get_nblocks n buf_block_size
      → Truncates m f n (neg (pos enospc)) f
  no_memory :
      n ≢ 0
      → get_nblocks n buf_block_size ≢ f.st_blocks
      → get_nblocks n buf_block_size ≤ f.st_blocks + f.stbuf.f_bfree
      → m.grants (get_nblocks n buf_block_size * buf_block_size) ≡ false
      → Truncates m f n (pos einval) f
  done :
      {g : FileState}
      → get_nblocks n buf_block_size ≤ f.st_blocks + f.stbuf.f_bfree
      → IsFile g
      → g.st_size ≡ n
      → ((i : ℕ)
          → get_elem? (contents g) i ≡ (
              if ltb i n
              then (if ltb i f.st_size then get_elem? (contents f) i else some 0)
              else none))
      → g.stbuf.f_bfree + g.st_blocks ≡ f.stbuf.f_bfree + f.st_blocks
      → Truncates m f n (pos 0) g

refused :
    (f : FileState) (n : ℕ)
    → IsFile f
    → n < sign_bit
    → check_has_space_for f.stbuf (some f.attr) (sub64 n f.st_size) ≡ false
    → f.st_blocks + f.stbuf.f_bfree < get_nblocks n buf_block_size
unfolding check_has_space_for get_nblocks
refused f n v h e = ground arith

admitted :
    (f : FileState) (n : ℕ)
    → IsFile f
    → n < sign_bit
    → check_has_space_for f.stbuf (some f.attr) (sub64 n f.st_size) ≡ true
    → get_nblocks n buf_block_size ≤ f.st_blocks + f.stbuf.f_bfree
unfolding check_has_space_for get_nblocks
admitted f n v h e = ground arith

-- The state of a truncation that goes through, once the buffer has its new length.
truncated-Truncates :
    (m : Allocator) (f : FileState) (now n : ℕ) (b c : Bytes)
    → IsFile f
    → n < sign_bit
    → get_nblocks n buf_block_size ≤ f.st_blocks + f.stbuf.f_bfree
    → length b ≡ get_nblocks n buf_block_size * buf_block_size
    → ((i : ℕ) → i < length f.m_buf → i < length b → get_elem? b i ≡ get_elem? f.m_buf i)
    → length c ≡ length b
    → ((i : ℕ)
        → get_elem? c i
          ≡ (if ltb i f.st_size then get_elem? b i else if ltb i n then some 0 else get_elem? b i))
    → Truncates m f n (pos 0) (truncated now n (get_nblocks n buf_block_size) f c)
unfolding update_used_blocks
truncated-Truncates m f now n b c v h room lb same lc filled =
    done room
      (record {
        blocks = refl;
        buffer = omega (arith, lc, lb);
        size_range = h;
        free_range = omega (arith, v.free_range, room);
      })
      refl
      (λ i. ground (
        arith,
        get_elem?-take n c i,
        get_elem?-take f.st_size f.m_buf i,
        filled i,
        same i,
        get_nblocks_least n h,
        get_nblocks_least f.st_size v.size_range,
      ))
      (omega (arith, v.free_range, room))

-- A truncation that the allocator refuses.
no_memory_left :
    (m : Allocator) (f : FileState) (n : ℕ)
    → IsFile f
    → n < sign_bit
    → get_nblocks n buf_block_size ≤ f.st_blocks + f.stbuf.f_bfree
    → resized m f.m_buf f.st_blocks (get_nblocks n buf_block_size) ≡ none
    → Truncates m f n (pos einval) f
no_memory_left m f n v h room e =
    let (asked, positive, refused) =
      resized_refused m f.m_buf f.st_blocks (get_nblocks n buf_block_size) e in
    let least = get_nblocks_least n h in
    let wide : mul64 (get_nblocks n buf_block_size) buf_block_size
        ≡ get_nblocks n buf_block_size * buf_block_size =
      ground (arith, least) in
    no_memory (ground (arith, least, positive)) asked room (ap m.grants (sym wide) ∙ refused)

-- A truncation to n < 2 ^ 63 bytes of a file of the right shape never touches memory outside of
-- the buffer and ends in one of three ways: refused with -ENOSPC because the free blocks and the
-- file's own are fewer than n needs; refused with EINVAL because n is not 0 and needs another
-- number of blocks than the file has, they are free or the file's own, and the allocator refuses
-- their bytes; or done with blocks that are free or the file's own, and then the file keeps its
-- shape, is n bytes long, holds its old bytes below n and zeros beyond its old end, and the free
-- blocks and the file's add up to what they did.
pub file_truncate-Truncates :
    (m : Allocator) (now n : ℕ) (f : FileState)
    → IsFile f
    → n < sign_bit
    → (r : ℤ) × (g : FileState) × (file_truncate m now n f ≡ some (r, g)) × Truncates m f n r g
unfolding file_truncate
file_truncate-Truncates m now n f v h =
    elim (Bool-cases (check_has_space_for f.stbuf (some f.attr) (sub64 n f.st_size))) [
      | inr full ↦ (neg (pos enospc), f, rw full, no_space (refused f n v h full))
      | inl room ↦
          elim (Option-cases (resized m f.m_buf f.st_blocks (get_nblocks n buf_block_size))) [
            | inl e ↦ (
              pos einval,
              f,
              rw (room, e, file_truncate),
              no_memory_left m f n v h (admitted f n v h room) e,
            )
            | inr (b, e) ↦
                let (lb, same) =
                  resized_lem m f.m_buf b f.st_blocks (get_nblocks n buf_block_size) v.buffer
                    (omega (arith, get_nblocks_least n h)) e in
                let (c, p, lc, filled) =
                  zero_fill_lem b f.st_size n (omega (arith, v.size_range))
                    (omega (arith, lb, get_nblocks_least n h)) (omega arith) in
                (
                  pos 0,
                  truncated now n (get_nblocks n buf_block_size) f c,
                  rw (room, e, p, file_truncate),
                  truncated-Truncates m f now n b c v h (admitted f n v h room) lb same lc filled,
                )
          ]
    ]
