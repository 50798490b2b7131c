-- ===== src/Blocks/Room.antt =====
-- The counters: what an update does while it does not wrap, and what the space check promises.
use veri_fs.Base.{ℕ, ◌+◌, ◌≤◌, ◌<◌, ◌≡◌, some, true, arith, word, sign_bit, sub64}
use veri_fs.Types.{Attr, Statvfs, buf_block_size}
use veri_fs.Blocks.{get_nblocks, update_used_blocks, check_has_space_for}

-- Where CheckHasSpaceFor admits the growth of an inode to a larger size below 2 ^ 63, the blocks
-- that the size needs are no more than the inode's blocks and the free ones.
pub check_has_space_for_room :
    (s : Statvfs) (a : Attr) (new_size : ℕ)
    → a.st_size < new_size
    → new_size < sign_bit
    → a.st_blocks < word
    → check_has_space_for s (some a) (sub64 new_size a.st_size) ≡ true
    → get_nblocks new_size buf_block_size ≤ a.st_blocks + s.f_bfree
unfolding check_has_space_for
check_has_space_for_room s a new_size h k w e = ground arith

-- Taking blocks that are there.
pub f_bfree-update_used_blocks :
    (s : Statvfs) (old new : ℕ)
    → s.f_bfree < word
    → old < word
    → new < word
    → new ≤ old + s.f_bfree
    → old + s.f_bfree < word
    → (update_used_blocks (sub64 new old) s).f_bfree + new ≡ s.f_bfree + old
unfolding update_used_blocks
f_bfree-update_used_blocks s old new h a b c d = omega arith
