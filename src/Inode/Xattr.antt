-- ===== src/Inode/Xattr.antt =====
-- The extended attributes of src/inode.cpp: m_xattr, a std::map from names to buffers, as a list in
-- the order of its keys.
pub mod Laws
use veri_fs.Base.{
  ℕ, ◌+◌, Option, none, some, Bool, true, false, ◌&&◌, ◌||◌, not, if◌then◌else◌, List, [], ◌∷◌,
  ◌++◌, ◌==◌, ltb, leb, ◌>>=◌, length, ℤ, pos, neg, add64,
}
use veri_fs.Types.{Name, Bytes, Inode, e2big, eexist, enodata, enomem, erange}
use veri_fs.Replies.{Reply, err, buf, xattr_size}
use veri_fs.Names.{name_eq}
use veri_fs.Memory.{Allocator, realloc, memmove, read_bytes}
use veri_fs.Inode.{flag}

abbrev pub Xattrs : Type 0
Xattrs = List (Name × Bytes)

-- operator< of std::string.
unfoldable pub name_lt : Name → Name → Bool
name_lt a [] = false
name_lt [] (y ∷ ys) = true
name_lt (x ∷ xs) (y ∷ ys) = ltb x y || x == y && name_lt xs ys

-- m_xattr.find(name).
unfoldable pub find : Name → Xattrs → Option Bytes
find name [] = none
find name ((n, v) ∷ rest) = if name_eq n name then some v else find name rest

-- m_xattr[name] = v.
unfoldable pub put : Name → Bytes → Xattrs → Xattrs
unfolding name_lt
put name v [] = (name, v) ∷ []
put name v ((n, w) ∷ rest) =
    if name_eq n name
    then (name, v) ∷ rest
    else if name_lt name n
    then (name, v) ∷ (n, w) ∷ rest
    else (n, w) ∷ put name v rest

-- m_xattr.erase(it).
unfoldable pub erase : Name → Xattrs → Xattrs
erase name [] = []
erase name ((n, w) ∷ rest) = if name_eq n name then rest else (n, w) ∷ erase name rest

-- What m_xattr[name] refers to: a new key gets a null buffer of size 0.
abbrev pub current : Name → Xattrs → Bytes
current name x = elim (find name x) [ none ↦ [] | some v ↦ v ]

-- SetXAttrAndReply from the computation of newExtent on.
unfoldable pub store_value : Allocator → Name → Bytes → ℕ → Xattrs → Option (Reply × Xattrs)
unfolding find put
store_value m name value position x =
    let new_extent = add64 (length value) position in
    if ltb (length (current name x)) new_extent
    then elim (realloc m (current name x) new_extent) [
      | none ↦ some (err (pos e2big), put name (current name x) x)
      | some b ↦ do written ← memmove b position value; some (err (pos 0), put name written x)
    ]
    else do
      written ← memmove (current name x) position value
      some (err (pos 0), put name written x)

-- SetXAttrAndReply. Bit 0 of the flags is XATTR_CREATE, bit 1 XATTR_REPLACE.
unfoldable pub set_xattr : Allocator → Name → Bytes → ℕ → ℕ → Xattrs → Option (Reply × Xattrs)
unfolding store_value
set_xattr m name value flags position x = elim (find name x) [
  | some _ ↦
      if flag flags 0 then some (err (pos eexist), x) else store_value m name value position x
  | none ↦ if flag flags 1 then some (err (pos enodata), x) else store_value m name value position x
]

-- GetXAttrAndReply.
unfoldable pub get_xattr : Name → ℕ → ℕ → Xattrs → Option Reply
unfolding find read_bytes
get_xattr name size position x = elim (find name x) [
  | none ↦ some (err (pos enodata))
  | some v ↦
      if size == 0
      then some (xattr_size (length v))
      else if ltb (add64 size position) (length v)
      then some (err (pos erange))
      else do bytes ← read_bytes v position (length v); some (buf bytes)
]

-- The bytes that ListXAttrAndReply copies: each name and its terminating 0.
unfoldable pub name_list : Xattrs → Bytes
name_list [] = []
name_list ((n, v) ∷ rest) = n ++ (0 ∷ name_list rest)

-- The size that its first loop adds up.
unfoldable pub name_list_size : Xattrs → ℕ
name_list_size [] = 0
name_list_size ((n, v) ∷ rest) = add64 (name_list_size rest) (length n + 1)

-- ListXAttrAndReply.
unfoldable pub list_xattr : Allocator → ℕ → Xattrs → Reply
unfolding name_list name_list_size
list_xattr m size x =
    if size == 0
    then xattr_size (name_list_size x)
    else if ltb size (name_list_size x)
    then err (pos erange)
    else if not (m.grants (name_list_size x))
    then err (pos enomem)
    else buf (name_list x)

-- RemoveXAttrAndReply.
unfoldable pub remove_xattr : Name → Xattrs → Reply × Xattrs
unfolding find erase
remove_xattr name x = elim (find name x) [
  | none ↦ (err (pos enodata), x)
  | some _ ↦ (err (pos 0), erase name x)
]
