-- ===== src/Ledger/Access.antt =====
-- The handlers that reach one inode leave the inode numbers as they are.
use veri_fs.Base.{
  List, [], if◌then◌else◌, ltb, drop, ℕ, ◌≡◌, refl, Option, none, some, length, ◌==◌, is_zero,
}
use veri_fs.Types
use veri_fs.Types.{Name, Bytes, Attr, Inode, Node, ino_notfound}
use veri_fs.Memory.{Allocator}
use veri_fs.Directory.{child_inode_number_with_name}
use veri_fs.File
use veri_fs.File.{FileState}
use veri_fs.File.Keeps.{Keeps, file_truncate-Keeps, write_and_reply-Keeps, read_and_reply-Keeps}
use veri_fs.Inode.{flag, reply_set_attr, attr_set}
use veri_fs.Inode.Xattr
use veri_fs.Fs.{Fs, ReadDirCtx, linked_inode, as_directory, update_inode, reply_entry_at}
use veri_fs.Fs.Access.{
  file_state, put_file, fuse_lookup, set_size, fuse_set_attr, write_at, read_at, fuse_write,
  fuse_read, fuse_set_xattr, fuse_remove_xattr,
}
use veri_fs.Fs.ReadDir.{Direntry, buf_size, fill, respond, prepare_readdir, fuse_read_dir}
use veri_fs.Ledger.Always.{Always, stops, leaves, Always-bind, Always-if, Always-elim, Always-start}
use veri_fs.Ledger.View.{
  SameNumbers, set_same, get_inode-slot, linked_inode-get, update_inode-ledger,
  reply_entry_at-ledger,
}

put_file-ledger :
    (fs : Fs) (ino : ℕ) (i : Inode) (b : Bytes) (f : FileState)
    → linked_inode fs ino ≡ some i
    → Keeps (file_state i b fs) f
    → SameNumbers fs (put_file ino i f fs)
unfolding put_file update_inode
put_file-ledger fs ino i b f h kept = λ k. record {
  numbers =
      set_same fs.inodes ino i
        (record i {
          entry_param = record i.entry_param { attr = f.attr };
          node = Types.file f.m_buf;
        })
        (get_inode-slot fs ino i (linked_inode-get fs ino i h)) kept.number k;
  free_list = fs.deleted_inodes;
  free_count = kept.free_count k;
  total = kept.total k;
  pool = fs.state_pool;
}

pub fuse_lookup-SameNumbers :
    (parent : ℕ) (name : Name) (fs : Fs) → Always (SameNumbers fs) (fuse_lookup parent name fs)
unfolding fuse_lookup
fuse_lookup-SameNumbers parent name fs =
    Always-elim (linked_inode fs parent) (leaves _ _ refl) λ p _.
      Always-elim (as_directory p) (leaves _ _ refl) λ c _.
        let ino : ℕ = child_inode_number_with_name name c in
        Always-if (ino == ino_notfound) (leaves _ _ refl) (
          Always-elim (linked_inode fs ino) (leaves _ _ refl) λ i _.
            Always-start (reply_entry_at ino fs) λ rs gs h. reply_entry_at-ledger ino fs gs rs h)

set_size-SameNumbers :
    (m : Allocator) (now ino size : ℕ) (i : Inode) (fs : Fs)
    → linked_inode fs ino ≡ some i
    → Always (SameNumbers fs) (set_size m now ino size i fs)
unfolding set_size
set_size-SameNumbers m now ino size i fs h = go i.node refl
  where
    go : (n : Node) → i.node ≡ n → Always (SameNumbers fs) (set_size m now ino size i fs)
    go (Node.file b) e =
        rw (e, set_size)
          (Always-bind (File.file_truncate m now size (file_state i b fs)) λ (ret, f) k.
            let same =
              put_file-ledger fs ino i b f h
                (file_truncate-Keeps m now size (file_state i b fs) f ret k) in
            Always-if (is_zero ret) (leaves _ _ same) (leaves _ _ same))
    go (Node.directory c) e = rw (e, set_size) (leaves _ _ refl)
    go (Node.symlink t) e = rw (e, set_size) (leaves _ _ refl)
    go (Node.special t) e = rw (e, set_size) (leaves _ _ refl)

pub fuse_set_attr-SameNumbers :
    (m : Allocator) (now ino : ℕ) (wanted : Attr) (to_set : ℕ) (fs : Fs)
    → Always (SameNumbers fs) (fuse_set_attr m now ino wanted to_set fs)
unfolding fuse_set_attr reply_set_attr attr_set
fuse_set_attr-SameNumbers m now ino wanted to_set fs =
    Always-elim (linked_inode fs ino) (leaves _ _ refl) λ i h.
      Always-if (flag to_set 3) (set_size-SameNumbers m now ino wanted.st_size i fs h)
        (leaves _ _ (update_inode-ledger fs ino i _ (linked_inode-get fs ino i h) refl))

write_at-SameNumbers :
    (m : Allocator) (now ino : ℕ) (src : Bytes) (off : ℕ) (i : Inode) (fs : Fs)
    → linked_inode fs ino ≡ some i
    → Always (SameNumbers fs) (write_at m now ino src off i fs)
unfolding write_at
write_at-SameNumbers m now ino src off i fs h = go i.node refl
  where
    go : (n : Node) → i.node ≡ n → Always (SameNumbers fs) (write_at m now ino src off i fs)
    go (Node.file b) e =
        rw (e, write_at)
          (Always-bind (File.write_and_reply m now src off (file_state i b fs)) λ (r, f) k.
            leaves _ _ (
              put_file-ledger fs ino i b f h
                (write_and_reply-Keeps m now src off (file_state i b fs) f r k)))
    go (Node.directory c) e = rw (e, write_at) (leaves _ _ refl)
    go (Node.symlink t) e = rw (e, write_at) (leaves _ _ refl)
    go (Node.special t) e = rw (e, write_at) (leaves _ _ refl)

pub fuse_write-SameNumbers :
    (m : Allocator) (now ino : ℕ) (src : Option Bytes) (off : ℕ) (fs : Fs)
    → Always (SameNumbers fs) (fuse_write m now ino src off fs)
unfolding fuse_write
fuse_write-SameNumbers m now ino none off fs = leaves _ _ refl
fuse_write-SameNumbers m now ino (some src) off fs =
    Always-elim (linked_inode fs ino) (leaves _ _ refl)
      λ i h. write_at-SameNumbers m now ino src off i fs h

read_at-SameNumbers :
    (now ino size off : ℕ) (i : Inode) (fs : Fs)
    → linked_inode fs ino ≡ some i
    → Always (SameNumbers fs) (read_at now ino size off i fs)
unfolding read_at
read_at-SameNumbers now ino size off i fs h = go i.node refl
  where
    go : (n : Node) → i.node ≡ n → Always (SameNumbers fs) (read_at now ino size off i fs)
    go (Node.file b) e =
        rw (e, read_at)
          (Always-bind (File.read_and_reply now size off (file_state i b fs)) λ (r, f) k.
            leaves _ _ (
              put_file-ledger fs ino i b f h
                (read_and_reply-Keeps now size off (file_state i b fs) f r k)))
    go (Node.directory c) e = rw (e, read_at) (leaves _ _ refl)
    go (Node.symlink t) e = rw (e, read_at) (leaves _ _ refl)
    go (Node.special t) e = rw (e, read_at) (leaves _ _ refl)

pub fuse_read-SameNumbers :
    (now ino size off : ℕ) (fs : Fs) → Always (SameNumbers fs) (fuse_read now ino size off fs)
unfolding fuse_read
fuse_read-SameNumbers now ino size off fs =
    Always-elim (linked_inode fs ino) (leaves _ _ refl)
      λ i h. read_at-SameNumbers now ino size off i fs h

pub fuse_set_xattr-SameNumbers :
    (m : Allocator) (ino : ℕ) (name : Name) (value : Bytes) (flags : ℕ) (fs : Fs)
    → Always (SameNumbers fs) (fuse_set_xattr m ino name value flags fs)
unfolding fuse_set_xattr
fuse_set_xattr-SameNumbers m ino name value flags fs =
    Always-elim (linked_inode fs ino) (leaves _ _ refl) λ i h.
      Always-bind (Xattr.set_xattr m name value flags 0 i.xattr)
        λ (r, x) _. leaves _ _ (update_inode-ledger fs ino i _ (linked_inode-get fs ino i h) refl)

pub fuse_remove_xattr-SameNumbers :
    (ino : ℕ) (name : Name) (fs : Fs) → Always (SameNumbers fs) (fuse_remove_xattr ino name fs)
unfolding fuse_remove_xattr
fuse_remove_xattr-SameNumbers ino name fs =
    Always-elim (linked_inode fs ino) (leaves _ _ refl)
      λ i h. leaves _ _ (update_inode-ledger fs ino i _ (linked_inode-get fs ino i h) refl)

respond-SameNumbers :
    (m : Allocator) (entry : Direntry) (size key : ℕ) (ctx : ReadDirCtx) (fs : Fs)
    → Always (SameNumbers fs) (respond m entry size key ctx fs)
unfolding respond
respond-SameNumbers m entry size key ctx fs =
    let room = (if ltb buf_size size then buf_size else size) in
    Always-bind
      (fill entry (m.grants room) room fs 0 (drop ctx.it ctx.children)
        (record { it = ctx.it; cookie = ctx.cookie; out = [] }))
      λ f _.
        Always-if (m.grants room) (leaves _ _ refl)
          (Always-if (length f.out == 0) (leaves _ _ refl) stops)

pub fuse_read_dir-SameNumbers :
    (m : Allocator) (entry : Direntry) (rands : List ℕ) (ino size off : ℕ) (fs : Fs)
    → Always (SameNumbers fs) (fuse_read_dir m entry rands ino size off fs)
unfolding fuse_read_dir
fuse_read_dir-SameNumbers m entry rands ino size off fs =
    Always-elim (linked_inode fs ino) (leaves _ _ refl) λ i _.
      Always-elim (as_directory i) (leaves _ _ refl) λ c _.
        Always-bind (prepare_readdir rands off c fs.readdir_states) λ (found, states) _.
          Always-elim found (leaves _ _ refl) λ (key, ctx) _.
            respond-SameNumbers m entry size key ctx (record fs { readdir_states = states })
