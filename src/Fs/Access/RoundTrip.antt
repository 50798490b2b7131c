-- ===== src/Fs/Access/RoundTrip.antt =====
-- FuseRead after FuseWrite, through the inode table.
use mathlib.Core.Path.{subst}
use veri_fs.Base.{
  ℕ, ◌+◌, ◌≡◌, ◌<◌, refl, sym, ap, ◌∙◌, some, false, [], ◌∷◌, ◌>>=◌, ◌==◌, arith, length, get_elem?,
  set, get_elem?-set, get_elem?_out, sign_bit,
}
use veri_fs.Types
use veri_fs.Types.{Bytes, Inode, Node}
use veri_fs.Replies.{Reply, buf, write}
use veri_fs.Memory.{Allocator}
use veri_fs.File
use veri_fs.File.{FileState, write_and_reply, write_into, read_and_reply}
use veri_fs.File.Shape.{IsFile}
use veri_fs.File.Read.{after_read, read_and_reply-write_and_reply}
use veri_fs.Inode.{with_attr, has_no_links}
use veri_fs.Fs.{Fs, get_inode, update_inode, linked_inode}
use veri_fs.Ledger.View.{bind_cases, same_state}
use veri_fs.Fs.Access.{file_state, put_file, write_at, read_at, fuse_write, fuse_read}

write_and_reply-st_nlink :
    (m : Allocator) (now : ℕ) (src : Bytes) (off : ℕ) (f g : FileState) (r : Reply)
    → write_and_reply m now src off f ≡ some (r, g)
    → g.st_nlink ≡ f.st_nlink
unfolding write_and_reply write_into
write_and_reply-st_nlink m now src off f g r h = ground arith

-- The inode that a write leaves in its slot.
abbrev written : Inode → FileState → Inode
written i f = record (with_attr i f.attr) { node = Types.file f.m_buf }

linked_inode-put_file :
    (fs : Fs) (ino : ℕ) (i : Inode) (f : FileState)
    → linked_inode fs ino ≡ some i
    → f.st_nlink ≡ i.st_nlink
    → linked_inode (put_file ino i f fs) ino ≡ some (written i f)
unfolding linked_inode get_inode put_file update_inode has_no_links
linked_inode-put_file fs ino i f h e =
    let there : get_elem? (set fs.inodes ino (some (written i f))) ino ≡ some (some (written i f)) =
      ground (
        arith,
        get_elem?-set fs.inodes ino ino (some (written i f)),
        get_elem?_out fs.inodes ino,
      ) in
    let linked : (f.st_nlink == 0) ≡ false = ground arith in ground (arith, there, linked)

write_at-file :
    (m : Allocator) (now ino : ℕ) (src : Bytes) (off : ℕ) (i : Inode) (b : Bytes) (fs : Fs)
    → i.node ≡ Types.file b
    → write_at m now ino src off i fs ≡ (do
      (r, f) ← File.write_and_reply m now src off (file_state i b fs)
      some (r ∷ [], put_file ino i f fs))
unfolding write_at
write_at-file m now ino src off i b fs e = rw (e, write_at) refl

read_at-file :
    (now ino size off : ℕ) (i : Inode) (fs : Fs) (f g : FileState) (r : Reply)
    → read_and_reply now size off f ≡ some (r, g)
    → read_at now ino size off (written i f) (put_file ino i f fs)
      ≡ some (r ∷ [], put_file ino (written i f) g (put_file ino i f fs))
unfolding read_at put_file update_inode
read_at-file now ino size off i fs f g r h = rw h refl

-- What a write to a file leaves.
fuse_write-file :
    (m : Allocator) (now ino : ℕ) (src : Bytes) (off : ℕ) (i : Inode) (b : Bytes) (fs gs : Fs)
    (r : Reply)
    → linked_inode fs ino ≡ some i
    → i.node ≡ Types.file b
    → fuse_write m now ino (some src) off fs ≡ some (r ∷ [], gs)
    → (f : FileState) × (write_and_reply m now src off (file_state i b fs) ≡ some (r, f))
      × (put_file ino i f fs ≡ gs)
unfolding fuse_write
fuse_write-file m now ino src off i b fs gs r h e w =
    let whole : write_at m now ino src off i fs ≡ some (r ∷ [], gs) = rw (h, fuse_write) at w in
    bind_cases (File.write_and_reply m now src off (file_state i b fs)) _ _
      (sym (write_at-file m now ino src off i b fs e) ∙ whole)
      λ (k, f) p q. let same : k ≡ r = cc in (f, p ∙ ap (λ x. some (x, f)) same, same_state q)

-- Where a number stands for a file of the right shape with links, and FuseWrite at off, with off
-- + length src < 2 ^ 63, replies that it has written all its bytes, FuseRead of the same range in
-- the state that the write left replies with those bytes.
pub fuse_read-fuse_write :
    (m : Allocator) (now later ino : ℕ) (src : Bytes) (off : ℕ) (i : Inode) (b : Bytes) (fs gs : Fs)
    → linked_inode fs ino ≡ some i
    → i.node ≡ Types.file b
    → IsFile (file_state i b fs)
    → off + length src < sign_bit
    → fuse_write m now ino (some src) off fs ≡ some (write (length src) ∷ [], gs)
    → (hs : Fs) × (fuse_read later ino (length src) off gs ≡ some (buf src ∷ [], hs))
unfolding fuse_read
fuse_read-fuse_write m now later ino src off i b fs gs h e v fits w =
    let (f, p, same) = fuse_write-file m now ino src off i b fs gs (write (length src)) h e w in
    let found : linked_inode gs ino ≡ some (written i f) =
      subst (λ g. linked_inode g ino ≡ some (written i f)) same
        (linked_inode-put_file fs ino i f h
          (write_and_reply-st_nlink m now src off (file_state i b fs) f (write (length src)) p)) in
    let read = read_and_reply-write_and_reply m now later src off (file_state i b fs) f v fits p in
    let result =
      read_at-file later ino (length src) off i fs f (after_read later off f) (buf src) read in
    (
      put_file ino (written i f) (after_read later off f) (put_file ino i f fs),
      rw (found, fuse_read)
          (subst
            (λ g.
              read_at later ino (length src) off (written i f) g
              ≡ some (
                buf src ∷ [],
                put_file ino (written i f) (after_read later off f) (put_file ino i f fs),
              ))
            same result),
    )
