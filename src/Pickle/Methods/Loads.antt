-- ===== src/Pickle/Methods/Loads.antt =====
-- What each part of Load makes of what the same part of Pickle has copied.
use veri_fs.Base.{
  ◌∙◌, sym, ap, append_assoc, append-nil, ◌-◌, ◌<◌, Bool, not, if◌then◌else◌, ◌==◌, ◌≡◌, refl, some,
  none, true, false, [], ◌∷◌, ◌++◌, arith, length, word, length-append,
}
use veri_fs.Types.{Bytes, Name, Inode}
use veri_fs.Names.{name_eq}
use veri_fs.Memory.{Allocator}
use veri_fs.Inode.Xattr.{Xattrs, name_lt, find, put}
use veri_fs.Pickle.{Layout, IsImage, word_bytes, next, next_byte, next_string}
use veri_fs.Pickle.Words.{next-append, next_word-append}
use veri_fs.Pickle.Methods.{insert_xattr, load_xattrs, load_base, pickle_xattrs, pickle_base}

-- Every key comes before the name.
abbrev pub AllBefore : Name → Xattrs → Type 0
AllBefore name [] = Unit {0}
AllBefore name ((n, v) ∷ rest) = (name_lt n name ≡ true) × AllBefore name rest

-- The attributes that follow `before` are in the order of their keys, with lengths below 2 ^ 64 and
-- values that malloc has memory for.
abbrev pub AreStorable : Allocator → Xattrs → Xattrs → Type 0
AreStorable m before [] = Unit {0}
AreStorable m before ((n, v) ∷ rest) =
    AllBefore n before
    × (length n < word)
    × (length v < word)
    × (m.grants (length v) ≡ true)
    × AreStorable m (before ++ (n, v) ∷ []) rest

name_lt_asym : (a b : Name) → name_lt a b ≡ true → (name_lt b a ≡ false) × (name_eq a b ≡ false)
unfolding name_lt name_eq
name_lt_asym [] (y ∷ ys) h = (refl, refl)
name_lt_asym [] [] h = cc
name_lt_asym (x ∷ xs) [] h = cc
name_lt_asym (x ∷ xs) (y ∷ ys) h = ground (arith, name_lt_asym xs ys)

insert_last :
    (name : Name) (v : Bytes) (x : Xattrs)
    → AllBefore name x
    → (find name x ≡ none) × (put name v x ≡ x ++ (name, v) ∷ [])
unfolding find put
insert_last name v [] h = (refl, refl)
insert_last name v ((n, w) ∷ rest) h =
    ground (arith, name_lt_asym n name h.0, insert_last name v rest h.1)

insert_after :
    (name : Name) (v : Bytes) (x : Xattrs)
    → AllBefore name x
    → insert_xattr name v x ≡ x ++ (name, v) ∷ []
unfolding insert_xattr
insert_after name v x h = ground (arith, insert_last name v x h)

pub next_string-append :
    (n : Name) (rest : Bytes)
    → length n < word
    → next_string (word_bytes (length n) ++ (n ++ rest)) ≡ some (n, rest)
unfolding next_string
next_string-append n rest h =
    rw (next_word-append (length n) (n ++ rest) h, next-append n rest) refl

load_xattrs-pickle_xattrs :
    (m : Allocator) (x before : Xattrs) (rest : Bytes)
    → AreStorable m before x
    → load_xattrs m (length x) (pickle_xattrs x ++ rest) before ≡ some (some (rest, before ++ x))
unfolding load_xattrs pickle_xattrs
load_xattrs-pickle_xattrs m [] before rest h = rw (append-nil before) refl
load_xattrs-pickle_xattrs m ((n, v) ∷ x) before rest h =
    let tail = pickle_xattrs x ++ rest in
    let flat : (word_bytes (length n) ++ (n ++ (word_bytes (length v) ++ (v ++ pickle_xattrs x))))
          ++ rest
        ≡ word_bytes (length n) ++ (n ++ (word_bytes (length v) ++ (v ++ tail))) =
      simp (append_assoc) in
    rw
      (
        flat,
        next_string-append n (word_bytes (length v) ++ (v ++ tail)) h.1,
        next_word-append (length v) (v ++ tail) h.2,
        h.3,
        next-append v tail,
        insert_after n v before h.0,
        load_xattrs-pickle_xattrs m x (before ++ (n, v) ∷ []) rest h.4,
        append_assoc before ((n, v) ∷ []) x,
      )
      refl

marked_back : (b : Bool) → not ((if b then 1 else 0) == 0) ≡ b
marked_back true = refl
marked_back false = refl

-- What Inode::Load makes of what Inode::Pickle has copied.
pub load_base-pickle_base :
    (l : Layout) (m : Allocator) (i fresh : Inode) (rest : Bytes)
    → IsImage l.entry_param i.entry_param
    → i.nlookup < word
    → length i.xattr < word
    → AreStorable m [] i.xattr
    → load_base l m (pickle_base l i ++ rest) fresh
      ≡ some (length (pickle_base l i), record i { node = fresh.node })
unfolding load_base pickle_base next_byte
load_base-pickle_base l m i fresh rest h nl nx s =
    let e = l.entry_param.to_bytes i.entry_param in
    let tail = pickle_xattrs i.xattr ++ rest in
    let flat : (word_bytes i.nlookup
            ++ (e ++ (word_bytes (length i.xattr) ++ pickle_xattrs i.xattr)))
          ++ rest
        ≡ word_bytes i.nlookup ++ (e ++ (word_bytes (length i.xattr) ++ tail)) =
      simp (append_assoc) in
    let offset : length (pickle_base l i ++ rest) - length rest ≡ length (pickle_base l i) =
      omega (arith, length-append (pickle_base l i) rest) in
    let param : next l.entry_param.size (e ++ (word_bytes (length i.xattr) ++ tail))
        ≡ some (e, word_bytes (length i.xattr) ++ tail) =
      ap (λ k. next k (e ++ (word_bytes (length i.xattr) ++ tail))) (sym h.sized)
      ∙ next-append e (word_bytes (length i.xattr) ++ tail) in
    rw
      (
        flat,
        next_word-append i.nlookup (e ++ (word_bytes (length i.xattr) ++ tail)) nl,
        param,
        next_word-append (length i.xattr) tail nx,
        load_xattrs-pickle_xattrs m i.xattr [] rest s,
        h.copied,
        offset,
        marked_back i.marked_for_deletion,
      )
      refl
