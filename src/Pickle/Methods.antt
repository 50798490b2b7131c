-- ===== src/Pickle/Methods.antt =====
-- GetPickledSize, Pickle and Load of class Inode and of its subclasses: src/inode.cpp, file.cpp,
-- directory.cpp, symlink.cpp and special_inode.cpp. Pickle is given a buffer of GetPickledSize bytes:
-- here it is the bytes that it copies there; `none` is a read past the end of a file's buffer.
pub mod Size
pub mod Loads
pub mod Parts
pub mod RoundTrip
use veri_fs.Base.{
  ℕ, zero, suc, ◌+◌, ◌-◌, Option, none, some, true, false, not, if◌then◌else◌, List, [], ◌∷◌, ◌++◌,
  ◌==◌, ◌>>=◌, length, drop, replicate, add64, mul64,
}
use veri_fs.Types.{Bytes, Name, Inode, Node, file, directory, symlink, special}
use veri_fs.Memory.{Allocator, read_bytes, memmove}
use veri_fs.Inode.Xattr.{Xattrs, find, put}
use veri_fs.Pickle.{Layout, word_bytes, next, next_byte, next_word, next_string}

-- The loop of Inode::GetPickledSize.
unfoldable pub xattrs_size : Xattrs → ℕ
xattrs_size [] = 0
xattrs_size ((n, v) ∷ rest) = add64 (8 + length n + 8 + length v) (xattrs_size rest)

-- Inode::GetPickledSize.
unfoldable pub get_base_size : Layout → Inode → ℕ
unfolding xattrs_size
get_base_size l i = add64 (1 + 8 + l.entry_param.size + 8) (xattrs_size i.xattr)

-- The loop of Directory::GetPickledSize.
unfoldable pub children_size : List (Name × ℕ) → ℕ
children_size [] = 0
children_size ((n, ino) ∷ rest) = add64 (8 + 8 + length n) (children_size rest)

-- What File, Directory, SymLink and SpecialInode add.
unfoldable pub get_part_size : Layout → Inode → ℕ
unfolding children_size
get_part_size l i = elim i.node [
  | file b ↦ i.st_size
  | directory c ↦ add64 8 (children_size c)
  | symlink t ↦ length t
  | special t ↦ l.special_type.size
]

-- GetPickledSize.
unfoldable pub get_pickled_size : Layout → Inode → ℕ
unfolding get_base_size get_part_size
get_pickled_size l i = add64 (get_base_size l i) (get_part_size l i)

-- The loop of Inode::Pickle.
unfoldable pub pickle_xattrs : Xattrs → Bytes
pickle_xattrs [] = []
pickle_xattrs ((n, v) ∷ rest) =
    word_bytes (length n) ++ (n ++ (word_bytes (length v) ++ (v ++ pickle_xattrs rest)))

-- Inode::Pickle.
unfoldable pub pickle_base : Layout → Inode → Bytes
unfolding pickle_xattrs
pickle_base l i =
    (if i.marked_for_deletion then 1 else 0) ∷ word_bytes i.nlookup
    ++ (l.entry_param.to_bytes i.entry_param
        ++ (word_bytes (length i.xattr) ++ pickle_xattrs i.xattr))

-- The loop of Directory::Pickle.
unfoldable pub pickle_children : List (Name × ℕ) → Bytes
pickle_children [] = []
pickle_children ((n, ino) ∷ rest) =
    word_bytes ino ++ (word_bytes (length n) ++ (n ++ pickle_children rest))

-- What File::Pickle, Directory::Pickle, SymLink::Pickle and SpecialInode::Pickle add.
unfoldable pub pickle_part : Layout → Inode → Option Bytes
unfolding pickle_children read_bytes
pickle_part l i = elim i.node [
  | file b ↦ read_bytes b 0 i.st_size
  | directory c ↦ some (word_bytes (length c) ++ pickle_children c)
  | symlink t ↦ some t
  | special t ↦ some (l.special_type.to_bytes t)
]

-- Pickle.
unfoldable pub pickle : Layout → Inode → Option Bytes
unfolding pickle_base pickle_part
pickle l i = do part ← pickle_part l i; some (pickle_base l i ++ part)

-- m_xattr.insert: a key that is there keeps its value.
unfoldable pub insert_xattr : Name → Bytes → Xattrs → Xattrs
unfolding find put
insert_xattr name v x = elim (find name x) [ none ↦ put name v x | some _ ↦ x ]

-- The loop of Inode::Load; the inner `none` is a value that malloc has no memory for.
unfoldable pub load_xattrs : Allocator → ℕ → Bytes → Xattrs → Option (Option (Bytes × Xattrs))
unfolding insert_xattr next_string next_word next
load_xattrs m zero ptr x = some (some (ptr, x))
load_xattrs m (suc n) ptr x = do
  (key, p1) ← next_string ptr
  (valsize, p2) ← next_word p1
  elim (m.grants valsize) [
    | false ↦ some none
    | true ↦ do (value, p3) ← next valsize p2; load_xattrs m n p3 (insert_xattr key value x)
  ]

-- Inode::Load: how many bytes it has read, 0 where it ran out of memory, and the object.
unfoldable pub load_base : Layout → Allocator → Bytes → Inode → Option (ℕ × Inode)
unfolding load_xattrs next_byte next_word next
load_base l m buf i = do
  (mark, p1) ← next_byte buf
  (nlookup, p2) ← next_word p1
  (param, p3) ← next l.entry_param.size p2
  (n, p4) ← next_word p3
  loaded ← load_xattrs m n p4 []
  let base = record i {
    marked_for_deletion = not (mark == 0);
    nlookup = nlookup;
    entry_param = l.entry_param.of_bytes param;
    xattr = [];
  }
  some (elim loaded [
    | none ↦ (0, base)
    | some (p5, x) ↦ (length buf - length p5, record base { xattr = x })
  ])

-- File::Load from the use of Inode::Load's result on.
unfoldable pub load_file : Allocator → Bytes → ℕ → Inode → Option (ℕ × Inode)
unfolding read_bytes memmove
load_file m buf offset i =
    let fcap = mul64 i.st_blksize i.st_blocks in
    if m.grants fcap
    then (do
      bytes ← read_bytes buf offset i.st_size
      b ← memmove (replicate fcap 0) 0 bytes
      some (add64 offset i.st_size, record i { node = file b }))
    else some (0, record i { xattr = []; node = file [] })

-- The loop of Directory::Load.
unfoldable pub load_children : ℕ → Bytes → List (Name × ℕ) → Option (Bytes × List (Name × ℕ))
unfolding next_word next_string
load_children zero ptr c = some (ptr, c)
load_children (suc n) ptr c = do
  (ino, p1) ← next_word ptr
  (name, p2) ← next_string p1
  load_children n p2 (c ++ (name, ino) ∷ [])

-- Directory::Load after Inode::Load.
unfoldable pub load_directory : Bytes → ℕ → Inode → Option (ℕ × Inode)
unfolding load_children next_word
load_directory buf offset i = do
  (n, p1) ← next_word (drop offset buf)
  (p2, c) ← load_children n p1 []
  some (length buf - length p2, record i { node = directory c })

-- SymLink::Load after Inode::Load.
unfoldable pub load_symlink : Bytes → ℕ → Inode → Option (ℕ × Inode)
unfolding read_bytes
load_symlink buf offset i = do
  t ← read_bytes buf offset i.st_size
  some (add64 offset i.st_size, record i { node = symlink t })

-- SpecialInode::Load after Inode::Load.
unfoldable pub load_special : Layout → Bytes → ℕ → Inode → Option (ℕ × Inode)
unfolding read_bytes
load_special l buf offset i = do
  t ← read_bytes buf offset l.special_type.size
  some (add64 offset l.special_type.size, record i { node = special (l.special_type.of_bytes t) })

-- What the Load of the class of the node `fresh` does after Inode::Load.
unfoldable pub load_part : Layout → Allocator → Node → Bytes → ℕ → Inode → Option (ℕ × Inode)
unfolding load_file load_directory load_symlink load_special
load_part l m fresh buf offset i = elim fresh [
  | file b ↦ load_file m buf offset i
  | directory c ↦ load_directory buf offset i
  | symlink t ↦ load_symlink buf offset i
  | special t ↦ load_special l buf offset i
]

-- Load of an object as its constructor made it.
unfoldable pub load : Layout → Allocator → Bytes → Inode → Option (ℕ × Inode)
unfolding load_base load_part
load l m buf fresh = do (offset, i) ← load_base l m buf fresh; load_part l m fresh.node buf offset i
