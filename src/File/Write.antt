-- ===== src/File/Write.antt =====
-- WriteAndReply of src/file.cpp: it stays within the buffer, keeps the shape, and puts the bytes
-- where they belong, with zeros in the hole before them.
use veri_fs.Base.{
  ◌∙◌, sym, ap, ℕ, ◌+◌, ◌-◌, ◌*◌, ◌≡◌, ◌<◌, ◌≤◌, refl, inl, inr, none, some, Bool, true, false,
  if◌then◌else◌, ltb, length, get_elem?, arith, pos, sign_bit, add64, sub64, mul64, Bool-cases,
  Option-cases, get_elem?-take,
}
use veri_fs.Types.{Bytes, buf_block_size, enospc}
use veri_fs.Memory.{Allocator, realloc}
use veri_fs.Memory.Contents.{length-realloc, get_elem?-realloc, realloc_refused, memmove_lem}
use veri_fs.Blocks.{get_nblocks, update_used_blocks, check_has_space_for}
use veri_fs.Blocks.Rounding.{get_nblocks_least, get_nblocks-div}
use veri_fs.Replies.{Reply, err, write}
use veri_fs.File.{
  FileState, blocks_for, attr_after_write, stbuf_after_write, write_into, write_and_reply, contents,
}
use veri_fs.File.Shape.{IsFile}
use veri_fs.File.Fill.{zero_fill_lem}

-- How a write of `src` at `off` ends: refused for want of blocks, cut to nothing for want of memory,
-- or done, and then the shape holds, the file is as long as before or as the write reaches, each
-- byte comes from `src`, from the old file or, in the hole between them, is zero, and the blocks
-- that the file gains are the blocks that the file system loses.
pub data Writes (m : Allocator) (f : FileState) (src : Bytes) (off : ℕ)
    : Reply → FileState → Type 0 where
  no_space :
      f.st_blocks + f.stbuf.f_bfree < get_nblocks (off + length src) buf_block_size
      → Writes m f src off (err (pos enospc)) f
  no_memory :
      f.st_blocks * buf_block_size < off + length src
      → get_nblocks (off + length src) buf_block_size ≤ f.st_blocks + f.stbuf.f_bfree
      → m.grants (get_nblocks (off + length src) buf_block_size * buf_block_size) ≡ false
      → Writes m f src off (write 0) f
  done :
      {g : FileState}
      → get_nblocks (off + length src) buf_block_size ≤ f.st_blocks + f.stbuf.f_bfree
      → IsFile g
      → g.st_size ≡ (if ltb f.st_size (off + length src) then off + length src else f.st_size)
      → ((i : ℕ)
          → get_elem? (contents g) i ≡ (
              if ltb i off
              then (if ltb i f.st_size
                  then get_elem? (contents f) i
                  else if ltb i g.st_size
                  then some 0
                  else none)
              else if ltb i (off + length src)
              then get_elem? src (i - off)
              else get_elem? (contents f) i))
      → g.stbuf.f_bfree + g.st_blocks ≡ f.stbuf.f_bfree + f.st_blocks
      → Writes m f src off (write (length src)) g

-- A buffer to write into: as long as the blocks that the write leaves, and beginning as the old one.
record IsReady (f : FileState) (src : Bytes) (off : ℕ) (grows : Bool) (b : Bytes) : Type 0 where
  size : length b ≡ (if grows then blocks_for (off + length src) else f.st_blocks) * buf_block_size
  same : (i : ℕ) → i < f.st_size → get_elem? b i ≡ get_elem? f.m_buf i
  exact : grows ≡ ltb (buf_block_size * f.st_blocks) (off + length src)
  room : get_nblocks (off + length src) buf_block_size ≤ f.st_blocks + f.stbuf.f_bfree

module _ (f : FileState) (src : Bytes) (off now : ℕ) (v : IsFile f)
    (h : off + length src < sign_bit) where
  -- The block count after the write, whether it grows or not.
  blocks_after :
      (grows : Bool)
      → grows ≡ ltb (buf_block_size * f.st_blocks) (off + length src)
      → (if ltb f.st_size (off + length src) then blocks_for (off + length src) else f.st_blocks)
        ≡ (if grows then blocks_for (off + length src) else f.st_blocks)
  blocks_after grows e = ground (
    arith,
    get_nblocks_least f.st_size v.size_range,
    get_nblocks_least (off + length src) h,
    get_nblocks-div (off + length src) h,
    v.blocks,
  )

  -- The state after the copy of a buffer `d` that is as long as the ready one.
  after_write : Bool → Bytes → FileState
  after_write grows d = record f {
    attr = attr_after_write now (add64 off (length src)) f.attr;
    m_buf = d;
    stbuf = stbuf_after_write grows (add64 off (length src)) f;
  }

  module _ (grows : Bool) (b : Bytes) (r : IsReady f src off grows b) where
    fits : off + length src ≤ length b
    fits = ground (
      arith,
      r.size,
      r.exact,
      get_nblocks_least (off + length src) h,
      get_nblocks-div (off + length src) h,
    )

    after_write-balance :
        (d : Bytes)
        → ((after_write grows d).stbuf.f_bfree + (after_write grows d).st_blocks
            ≡ f.stbuf.f_bfree + f.st_blocks)
    unfolding after_write update_used_blocks
    after_write-balance d = ground (
      arith,
      blocks_after grows r.exact,
      r.room,
      v.free_range,
      get_nblocks-div (off + length src) h,
    )

    after_write-IsFile : (d : Bytes) → length d ≡ length b → IsFile (after_write grows d)
    unfolding after_write
    after_write-IsFile d l = record {
      blocks = ground (arith, v.blocks, get_nblocks-div (off + length src) h);
      buffer = ground (arith, l, r.size, blocks_after grows r.exact);
      size_range = ground (arith, v.size_range);
      free_range = omega (arith, v.free_range, after_write-balance d);
    }

    after_write-contents :
        (c d : Bytes) (i : ℕ)
        → get_elem? c i
          ≡ (if ltb i f.st_size then get_elem? b i else if ltb i off then some 0 else get_elem? b i)
        → get_elem? d i ≡ (
            if ltb i off
            then get_elem? c i
            else if ltb i (off + length src)
            then get_elem? src (i - off)
            else get_elem? c i)
        → get_elem? (contents (after_write grows d)) i ≡ (
            if ltb i off
            then (if ltb i f.st_size
                then get_elem? (contents f) i
                else if ltb i (after_write grows d).st_size
                then some 0
                else none)
            else if ltb i (off + length src)
            then get_elem? src (i - off)
            else get_elem? (contents f) i)
    unfolding after_write
    after_write-contents c d i filled copied = ground (
      arith,
      get_elem?-take (after_write grows d).st_size d i,
      get_elem?-take f.st_size f.m_buf i,
      r.same i,
    )

    -- The hole and the copy stay within a ready buffer, and the state that they leave is right.
    write_into-Writes :
        (m : Allocator)
        → (g : FileState) × (write_into now src off grows f b ≡ some (write (length src), g))
          × Writes m f src off (write (length src)) g
    unfolding after_write write_into
    write_into-Writes m =
        let (c, p, lc, filled) =
          zero_fill_lem b f.st_size off (omega (arith, v.size_range)) (omega (arith, fits))
            (omega arith) in
        let (d, q, ld, copied) = memmove_lem c off src (omega (arith, fits, lc)) in
        (
          after_write grows d,
          rw (p, q, write_into),
          done r.room (after_write-IsFile d (ld ∙ lc)) (ground arith)
              (λ i. after_write-contents c d i (filled i) (copied i)) (after_write-balance d),
        )

  space_refused :
      check_has_space_for f.stbuf (some f.attr) (sub64 (add64 off (length src)) f.st_size) ≡ false
      → f.st_blocks + f.stbuf.f_bfree < get_nblocks (off + length src) buf_block_size
  unfolding check_has_space_for get_nblocks
  space_refused e = ground (arith, v.blocks, v.size_range)

  space_granted :
      check_has_space_for f.stbuf (some f.attr) (sub64 (add64 off (length src)) f.st_size) ≡ true
      → get_nblocks (off + length src) buf_block_size ≤ f.st_blocks + f.stbuf.f_bfree
  unfolding check_has_space_for get_nblocks
  space_granted e = ground (arith, v.blocks, v.free_range)

  in_place_IsReady :
      ltb (mul64 buf_block_size f.st_blocks) (add64 off (length src)) ≡ false
      → IsReady f src off false f.m_buf
  in_place_IsReady e = record {
    size = v.buffer;
    same = λ i p. refl;
    exact = ground (arith, v.blocks, v.size_range, get_nblocks_least f.st_size v.size_range);
    room = ground (
      arith,
      get_nblocks_least (off + length src) h,
      v.blocks,
      v.size_range,
      get_nblocks_least f.st_size v.size_range,
    );
  }

  grown_IsReady :
      (m : Allocator) (b : Bytes)
      → ltb (mul64 buf_block_size f.st_blocks) (add64 off (length src)) ≡ true
      → get_nblocks (off + length src) buf_block_size ≤ f.st_blocks + f.stbuf.f_bfree
      → realloc m f.m_buf (mul64 (blocks_for (add64 off (length src))) buf_block_size) ≡ some b
      → IsReady f src off true b
  grown_IsReady m b e room p =
      let asked : ℕ = mul64 (blocks_for (add64 off (length src))) buf_block_size in
      let wide : asked ≡ blocks_for (off + length src) * buf_block_size =
        ground
          (arith, get_nblocks_least (off + length src) h, get_nblocks-div (off + length src) h) in
      let old = get_nblocks_least f.st_size v.size_range in
      let new = get_nblocks_least (off + length src) h in
      record {
        size = length-realloc m f.m_buf asked p ∙ wide;
        same = λ i q.
            get_elem?-realloc m f.m_buf asked i p
              (ground (arith, wide, old, new, v.blocks, get_nblocks-div (off + length src) h))
              (omega (arith, old, v.blocks, v.buffer));
        exact = ground (arith, v.blocks, v.size_range, old);
        room = room;
      }

-- A write that the allocator cuts to nothing.
no_memory_left :
    (f : FileState) (src : Bytes) (off now : ℕ) (v : IsFile f) (h : off + length src < sign_bit)
    (m : Allocator)
    → ltb (mul64 buf_block_size f.st_blocks) (add64 off (length src)) ≡ true
    → get_nblocks (off + length src) buf_block_size ≤ f.st_blocks + f.stbuf.f_bfree
    → realloc m f.m_buf (mul64 (blocks_for (add64 off (length src))) buf_block_size) ≡ none
    → Writes m f src off (write 0) f
no_memory_left f src off now v h m grows room e =
    let asked : ℕ = mul64 (blocks_for (add64 off (length src))) buf_block_size in
    let new = get_nblocks_least (off + length src) h in
    let wide : asked ≡ get_nblocks (off + length src) buf_block_size * buf_block_size =
      ground (arith, new, get_nblocks-div (off + length src) h) in
    no_memory
      (ground (arith, grows, v.blocks, v.size_range, get_nblocks_least f.st_size v.size_range)) room
      (ap m.grants (sym wide) ∙ realloc_refused m f.m_buf asked e)

-- A write of `src` at `off` to a file of the right shape, where off + length src < 2 ^ 63, never
-- touches memory outside of the buffer and ends in one of three ways: refused with ENOSPC because
-- the free blocks and the file's own are fewer than the new size needs; cut to 0 bytes because
-- the write reaches beyond the file's blocks, the blocks that it needs are free or the file's
-- own, and the allocator refuses their bytes; or done with blocks that are free or the file's
-- own, and then the file keeps its shape, it is as long as before or as the write reaches, each
-- of its bytes is the written one, the old one or, in the hole between the old end and `off`,
-- zero, and the free blocks fall by what the file's blocks rise.
pub write_and_reply-Writes :
    (m : Allocator) (now : ℕ) (src : Bytes) (off : ℕ) (f : FileState)
    → IsFile f
    → off + length src < sign_bit
    → (r : Reply) × (g : FileState) × (write_and_reply m now src off f ≡ some (r, g))
      × Writes m f src off r g
unfolding write_and_reply
write_and_reply-Writes m now src off f v h =
    let new_size : ℕ = add64 off (length src) in
    elim (Bool-cases (ltb (mul64 buf_block_size f.st_blocks) new_size)) [
      | inr stays ↦
          let (g, p, w) =
            write_into-Writes f src off now v h false f.m_buf
              (in_place_IsReady f src off now v h stays) m in
          (write (length src), g, rw stays p, w)
      | inl grows ↦
          elim (Bool-cases (check_has_space_for f.stbuf (some f.attr) (sub64 new_size f.st_size))) [
            | inr full ↦ (
              err (pos enospc),
              f,
              rw (grows, full),
              no_space (space_refused f src off now v h full),
            )
            | inl room ↦
                elim (Option-cases
                  (realloc m f.m_buf (mul64 (blocks_for new_size) buf_block_size))) [
                    | inl e ↦ (
                      write 0,
                      f,
                      rw (grows, room, e),
                      no_memory_left f src off now v h m grows
                          (space_granted f src off now v h room) e,
                    )
                    | inr (b, e) ↦
                        let (g, p, w) =
                          write_into-Writes f src off now v h true b
                            (grown_IsReady f src off now v h m b grows
                              (space_granted f src off now v h room) e)
                            m in
                        (write (length src), g, rw (grows, room, e) p, w)
                  ]
          ]
    ]
