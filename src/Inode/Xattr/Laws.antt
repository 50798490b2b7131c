-- ===== src/Inode/Xattr/Laws.antt =====
-- The extended attributes as a map from names to values.
use veri_fs.Base.{
  ◌∙◌, sym, ap, ℕ, ◌-◌, ◌≤◌, ◌<◌, ◌≡◌, refl, inl, inr, none, some, Option, Bool, true, false,
  if◌then◌else◌, [], ◌∷◌, ◌++◌, length, arith, Bool-cases, Option-cases, ltb, add64, word, pos,
  take, drop, get_elem?, list_ext, get_elem?-drop, get_elem?-append, length-append, get_elem?_out,
}
use veri_fs.Types.{Name, Bytes, e2big, eexist, enodata}
use veri_fs.Replies.{Reply, err, buf}
use veri_fs.Names.{name_eq, name_eq_iff, name_eq_refl}
use veri_fs.Memory.{Allocator, realloc, read_bytes}
use veri_fs.Memory.Contents.{length-realloc, realloc_refused, memmove_lem, read_bytes_fits}
use veri_fs.Inode.{flag}
use veri_fs.Inode.Xattr.{
  Xattrs, find, put, current, store_value, set_xattr, get_xattr, name_list, name_list_size,
}

pub find-put :
    (j name : Name) (v : Bytes) (x : Xattrs)
    → find j (put name v x) ≡ (if name_eq name j then some v else find j x)
unfolding find put
find-put j name v [] = refl
find-put j name v ((n, w) ∷ rest) =
    ground (arith, find-put j name v rest, name_eq_iff n name, name_eq_iff n j, name_eq_iff name j)

-- Whether the flags forbid to set an attribute: one that is there by XATTR_CREATE, one that is not
-- by XATTR_REPLACE.
abbrev pub forbids : ℕ → Option Bytes → Bool
forbids flags (some v) = flag flags 0
forbids flags none = flag flags 1

-- How setting an attribute from position 0 ends: refused by a flag, refused for want of memory, or
-- done: the value begins with the new bytes, keeps what the old one had beyond them, and no other
-- attribute changes.
pub data Sets (m : Allocator) (name : Name) (value : Bytes) (flags : ℕ) (x : Xattrs)
    : Reply → Xattrs → Type 0 where
  exists_already :
      (v : Bytes)
      → find name x ≡ some v
      → flag flags 0 ≡ true
      → Sets m name value flags x (err (pos eexist)) x
  not_there :
      find name x ≡ none → flag flags 1 ≡ true → Sets m name value flags x (err (pos enodata)) x
  no_memory :
      {y : Xattrs}
      → forbids flags (find name x) ≡ false
      → length (current name x) < length value
      → m.grants (length value) ≡ false
      → ((j : Name) → find j y ≡ (if name_eq name j then some (current name x) else find j x))
      → Sets m name value flags x (err (pos e2big)) y
  done :
      {y : Xattrs} (v : Bytes)
      → forbids flags (find name x) ≡ false
      → ((i : ℕ)
          → get_elem? v i
            ≡ (if ltb i (length value) then get_elem? value i else get_elem? (current name x) i))
      → ((j : Name) → find j y ≡ (if name_eq name j then some v else find j x))
      → Sets m name value flags x (err (pos 0)) y

store_value-Sets :
    (m : Allocator) (name : Name) (value : Bytes) (flags : ℕ) (x : Xattrs)
    → length value < word
    → forbids flags (find name x) ≡ false
    → (r : Reply) × (y : Xattrs) × (store_value m name value 0 x ≡ some (r, y))
      × Sets m name value flags x r y
unfolding store_value
store_value-Sets m name value flags x h allowed =
    let plain : add64 (length value) 0 ≡ length value = omega arith in
    elim (Bool-cases (ltb (length (current name x)) (add64 (length value) 0))) [
      | inl longer ↦ elim (Option-cases (realloc m (current name x) (add64 (length value) 0))) [
        | inl e ↦ (
          err (pos e2big),
          put name (current name x) x,
          rw (longer, e, store_value),
          no_memory allowed (ground (arith, longer))
              (ap m.grants (sym plain) ∙ realloc_refused m _ _ e)
              (λ j. find-put j name (current name x) x),
        )
        | inr (b, e) ↦
            let l : length b ≡ length value =
              omega (arith, length-realloc m (current name x) (add64 (length value) 0) e) in
            let (w, p, lw, g) = memmove_lem b 0 value (omega (arith, l)) in
            (
              err (pos 0),
              put name w x,
              rw (longer, e, store_value, p),
              done w allowed
                  (λ i. ground (
                    arith,
                    g i,
                    get_elem?_out b i,
                    get_elem?_out value i,
                    get_elem?_out (current name x) i,
                  ))
                  (λ j. find-put j name w x),
            )
      ]
      | inr fits ↦
          let (w, p, lw, g) = memmove_lem (current name x) 0 value (ground arith) in
          (
            err (pos 0),
            put name w x,
            rw (fits, p),
            done w allowed (λ i. ground (arith, g i)) (λ j. find-put j name w x),
          )
    ]

set_xattr_allowed :
    (m : Allocator) (name : Name) (value : Bytes) (flags : ℕ) (x : Xattrs)
    → forbids flags (find name x) ≡ false
    → set_xattr m name value flags 0 x ≡ store_value m name value 0 x
unfolding set_xattr
set_xattr_allowed m name value flags x h = ground arith

-- Setting an extended attribute from position 0, with a value shorter than 2 ^ 64 bytes, never
-- leaves the attribute's buffer and ends in one of four ways: EEXIST where XATTR_CREATE meets an
-- attribute; ENODATA where XATTR_REPLACE meets none; E2BIG where no flag forbids the set, the new
-- value is longer than the old one and the allocator refuses its bytes, with the attribute as
-- before or empty; or 0 where no flag forbids the set, and then the value begins with the new
-- bytes and keeps what the old one had beyond them, and no other attribute changes.
pub set_xattr-Sets :
    (m : Allocator) (name : Name) (value : Bytes) (flags : ℕ) (x : Xattrs)
    → length value < word
    → (r : Reply) × (y : Xattrs) × (set_xattr m name value flags 0 x ≡ some (r, y))
      × Sets m name value flags x r y
unfolding set_xattr
set_xattr-Sets m name value flags x h = elim (Bool-cases (forbids flags (find name x))) [
  | inl only ↦ refused (find name x) refl only
  | inr allowed ↦
      let (r, y, p, s) = store_value-Sets m name value flags x h allowed in
      (r, y, set_xattr_allowed m name value flags x allowed ∙ p, s)
]
  where
    refused :
        (o : Option Bytes)
        → find name x ≡ o
        → forbids flags o ≡ true
        → (r : Reply) × (y : Xattrs) × (set_xattr m name value flags 0 x ≡ some (r, y))
          × Sets m name value flags x r y
    refused none e only = (err (pos enodata), x, rw (e, set_xattr, only), not_there e only)
    refused (some v) e only =
        (err (pos eexist), x, rw (e, set_xattr, only), exists_already v e only)

take-length : (v : Bytes) → take (length v) v ≡ v
take-length [] = refl
take-length (a ∷ v) = rw (take-length v)

-- The value that a set leaves.
abbrev pub overlaid : Bytes → Bytes → Bytes
overlaid value old = value ++ drop (length value) old

overlaid_lem :
    (value old v : Bytes)
    → ((i : ℕ)
        → get_elem? v i ≡ (if ltb i (length value) then get_elem? value i else get_elem? old i))
    → v ≡ overlaid value old
overlaid_lem value old v h = list_ext _ _ (λ i. ground (
  arith,
  h i,
  get_elem?-append value (drop (length value) old) i,
  get_elem?-drop (length value) old (i - length value),
))

Sets-find :
    (m : Allocator) (name : Name) (value : Bytes) (flags : ℕ) (x y : Xattrs) (r : Reply)
    → Sets m name value flags x r y
    → r ≡ err (pos 0)
    → find name y ≡ some (overlaid value (current name x))
Sets-find m name value flags x y r (Sets.exists_already v e f) q = cc
Sets-find m name value flags x y r (Sets.not_there e f) q = cc
Sets-find m name value flags x y r (Sets.no_memory a l n g) q = cc
Sets-find m name value flags x y r (Sets.done v a h g) q =
    g name ∙ rw (name_eq_refl name) (ap some (overlaid_lem value (current name x) v h))

get_xattr_whole :
    (name : Name) (size : ℕ) (y : Xattrs) (v : Bytes)
    → find name y ≡ some v
    → 0 < size
    → length v ≤ size
    → size < word
    → get_xattr name size 0 y ≡ some (buf v)
unfolding get_xattr
get_xattr_whole name size y v e p h w =
    let whole : read_bytes v 0 (length v) ≡ some v =
      read_bytes_fits v 0 (length v) (omega arith) ∙ ap some (take-length v) in
    rw (e, get_xattr) (ground (arith, whole))

-- After a set from position 0 that replies 0, with a value shorter than 2 ^ 64 bytes, a get from
-- position 0 whose size is positive, below 2 ^ 64 and no less than the stored value's replies
-- with the new bytes followed by the old value's bytes beyond them.
pub get_xattr-set_xattr :
    (m : Allocator) (name : Name) (value : Bytes) (flags size : ℕ) (x y : Xattrs)
    → length value < word
    → set_xattr m name value flags 0 x ≡ some (err (pos 0), y)
    → 0 < size
    → length (overlaid value (current name x)) ≤ size
    → size < word
    → get_xattr name size 0 y ≡ some (buf (overlaid value (current name x)))
get_xattr-set_xattr m name value flags size x y h e p l w =
    let (r, z, q, s) = set_xattr-Sets m name value flags x h in
    let same : z ≡ y = cc in
    let good : r ≡ err (pos 0) = cc in
    get_xattr_whole name size y _
      (ap (find name) (sym same) ∙ Sets-find m name value flags x z r s good) p l w

-- Where the names fit into 2 ^ 64 bytes, the size that the first loop of ListXAttrAndReply adds
-- up is the length of the list that its second loop writes.
pub name_list_size-length :
    (x : Xattrs) → length (name_list x) < word → name_list_size x ≡ length (name_list x)
unfolding name_list name_list_size
name_list_size-length [] h = refl
name_list_size-length ((n, v) ∷ rest) h =
    let l = length-append n (0 ∷ name_list rest) in
    omega (arith, l, name_list_size-length rest (omega (arith, l)))
