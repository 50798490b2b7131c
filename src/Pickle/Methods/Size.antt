-- ===== src/Pickle/Methods/Size.antt =====
-- GetPickledSize is the number of bytes that Pickle copies.
use veri_fs.Base.{
  ℕ, ◌%◌, ◌≡◌, refl, some, inl, inr, [], ◌∷◌, ◌++◌, List, arith, length, word, length-append,
  length-take, Option-cases,
}
use veri_fs.Types.{Bytes, Name, Inode, Node}
use veri_fs.Memory.{read_bytes}
use veri_fs.Inode.Xattr.{Xattrs}
use veri_fs.Pickle.{Layout, IsImage, word_bytes}
use veri_fs.Pickle.Words.{length-word_bytes}
use veri_fs.Pickle.Methods.{
  xattrs_size, get_base_size, children_size, get_part_size, get_pickled_size, pickle_xattrs,
  pickle_base, pickle_children, pickle_part, pickle,
}

xattrs_size-pickle_xattrs : (x : Xattrs) → xattrs_size x ≡ length (pickle_xattrs x) % word
unfolding xattrs_size pickle_xattrs
xattrs_size-pickle_xattrs [] = omega arith
xattrs_size-pickle_xattrs ((n, v) ∷ rest) = omega (
  arith,
  xattrs_size-pickle_xattrs rest,
  length-word_bytes (length n),
  length-word_bytes (length v),
  length-append (word_bytes (length n)) (n ++ (word_bytes (length v) ++ (v ++ pickle_xattrs rest))),
  length-append n (word_bytes (length v) ++ (v ++ pickle_xattrs rest)),
  length-append (word_bytes (length v)) (v ++ pickle_xattrs rest),
  length-append v (pickle_xattrs rest),
)

children_size-pickle_children :
    (c : List (Name × ℕ)) → children_size c ≡ length (pickle_children c) % word
unfolding children_size pickle_children
children_size-pickle_children [] = omega arith
children_size-pickle_children ((n, ino) ∷ rest) = omega (
  arith,
  children_size-pickle_children rest,
  length-word_bytes ino,
  length-word_bytes (length n),
  length-append (word_bytes ino) (word_bytes (length n) ++ (n ++ pickle_children rest)),
  length-append (word_bytes (length n)) (n ++ pickle_children rest),
  length-append n (pickle_children rest),
)

get_base_size-pickle_base :
    (l : Layout) (i : Inode)
    → IsImage l.entry_param i.entry_param
    → get_base_size l i ≡ length (pickle_base l i) % word
unfolding get_base_size pickle_base
get_base_size-pickle_base l i h =
    let e = l.entry_param.to_bytes i.entry_param in
    let n = word_bytes (length i.xattr) in
    omega (
      arith,
      h.sized,
      xattrs_size-pickle_xattrs i.xattr,
      length-word_bytes i.nlookup,
      length-word_bytes (length i.xattr),
      length-append (word_bytes i.nlookup) (e ++ (n ++ pickle_xattrs i.xattr)),
      length-append e (n ++ pickle_xattrs i.xattr),
      length-append n (pickle_xattrs i.xattr),
    )

-- The conditions on the objects that a class's Pickle copies with memcpy.
abbrev pub AreImages : Layout → Inode → Node → Type 0
AreImages l i (Node.special t) = IsImage l.entry_param i.entry_param × IsImage l.special_type t
AreImages l i n = IsImage l.entry_param i.entry_param

AreImages-entry_param :
    (l : Layout) (i : Inode) (n : Node) → AreImages l i n → IsImage l.entry_param i.entry_param
AreImages-entry_param l i (Node.special t) h = h.0
AreImages-entry_param l i (Node.file b) h = h
AreImages-entry_param l i (Node.directory c) h = h
AreImages-entry_param l i (Node.symlink t) h = h

get_part_size-pickle_part :
    (l : Layout) (i : Inode) (n : Node) (b : Bytes)
    → i.node ≡ n
    → AreImages l i n
    → pickle_part l i ≡ some b
    → get_part_size l i % word ≡ length b % word
unfolding get_part_size pickle_part read_bytes
get_part_size-pickle_part l i (Node.file c) b e h p = ground (arith, length-take i.st_size c)
get_part_size-pickle_part l i (Node.directory c) b e h p = ground (
  arith,
  children_size-pickle_children c,
  length-word_bytes (length c),
  length-append (word_bytes (length c)) (pickle_children c),
)
get_part_size-pickle_part l i (Node.symlink t) b e h p = ground arith
get_part_size-pickle_part l i (Node.special t) b e h p = ground (arith, h.1.sized)

-- GetPickledSize is the number of bytes that Pickle copies, modulo 2 ^ 64, for an inode of every
-- class whose fuse_entry_param, and for a special inode whose type, has as many bytes in memory
-- as sizeof says and is copied by memcpy.
pub get_pickled_size-pickle :
    (l : Layout) (i : Inode) (b : Bytes)
    → AreImages l i i.node
    → pickle l i ≡ some b
    → get_pickled_size l i ≡ length b % word
unfolding get_pickled_size pickle
get_pickled_size-pickle l i b h p = elim (Option-cases (pickle_part l i)) [
  | inl e ↦ absurd (ground arith)
  | inr (c, e) ↦ ground (
    arith,
    get_base_size-pickle_base l i (AreImages-entry_param l i i.node h),
    get_part_size-pickle_part l i i.node c refl h e,
    length-append (pickle_base l i) c,
  )
]
