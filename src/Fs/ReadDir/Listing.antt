-- ===== src/Fs/ReadDir/Listing.antt =====
-- What FuseReadDir replies.
use veri_fs.Base.{
  ap, ℕ, ◌+◌, ◌*◌, ◌≤◌, ◌≡◌, refl, some, true, false, List, [], ◌∷◌, arith, length, if◌then◌else◌,
  ◌==◌, ltb,
}
use veri_fs.Types.{Name, Inode}
use veri_fs.Replies.{buf}
use veri_fs.Memory.{Allocator}
use veri_fs.Fs.{Fs, ReadDirCtx, linked_inode, as_directory}
use veri_fs.Fs.ReadDir.{
  States, Direntry, set_context, fresh_key, prepare_readdir, recycle_states, respond, fuse_read_dir,
  buf_size, entries_per_response,
}
use veri_fs.Fs.ReadDir.Fill.{entries_of, entries_of-states, cookie_after, fill-entries_of}

-- No context of the table has come to its end.
abbrev pub AreRunning : States → Type 0
AreRunning [] = Unit {0}
AreRunning ((k, ctx) ∷ rest) = ((ctx.it == length ctx.children) ≡ false) × AreRunning rest

recycle_states-running : (states : States) → AreRunning states → recycle_states states ≡ states
unfolding recycle_states
recycle_states-running [] h = refl
recycle_states-running ((k, ctx) ∷ rest) h = ground (arith, h.0, recycle_states-running rest h.1)

-- The new context has come to its end and goes.
recycled :
    (key cookie next n : ℕ) (c : List (Name × ℕ)) (states : States)
    → AreRunning states
    → n ≡ length c
    → recycle_states (
        set_context key
          (record { it = n; cookie = next; children = c })
          ((key, record { it = 0; cookie = cookie; children = c }) ∷ states))
      ≡ states
unfolding recycle_states set_context
recycled key cookie next n c states h e = ground (arith, e, recycle_states-running states h)

-- A listing that starts, of a directory with at most 255 children whose entries fit the buffer,
-- in a table of contexts that are not at their end, with memory for the buffer and a new key: one
-- response has the entries of all children with links, in the order of the directory and with the
-- cookies that follow the new context's, and afterwards the table of contexts is as it was.
pub fuse_read_dir-lists :
    (m : Allocator) (entry : Direntry) (rands : List ℕ) (ino size key : ℕ) (fs : Fs) (i : Inode)
    (c : List (Name × ℕ))
    → linked_inode fs ino ≡ some i
    → as_directory i ≡ some c
    → fresh_key rands fs.readdir_states ≡ some key
    → AreRunning fs.readdir_states
    → m.grants (if ltb buf_size size then buf_size else size) ≡ true
    → length c ≤ entries_per_response
    → length (entries_of entry fs (key * 65536) c) ≤ (if ltb buf_size size then buf_size else size)
    → fuse_read_dir m entry rands ino size 0 fs
      ≡ some (buf (entries_of entry fs (key * 65536) c) ∷ [], fs)
unfolding fuse_read_dir prepare_readdir respond
fuse_read_dir-lists m entry rands ino size key fs i c e d k running g l r =
    let room = if ltb buf_size size then buf_size else size in
    let ctx : ReadDirCtx = record { cookie = key * 65536; it = 0; children = c } in
    let hs : Fs = record fs { readdir_states = (key, ctx) ∷ fs.readdir_states } in
    let same = entries_of-states entry fs ((key, ctx) ∷ fs.readdir_states) (key * 65536) c in
    let filled =
      fill-entries_of entry room hs 0 c (record { it = 0; cookie = key * 65536; out = [] })
        (omega (arith, l)) (omega (arith, r, ap length same)) in
    let kept =
      recycled key (key * 65536) (cookie_after hs (key * 65536) c) (0 + length c) c
        fs.readdir_states running (omega arith) in
    rw (fuse_read_dir, e, d, prepare_readdir, k, respond, g, filled, kept, same) refl
