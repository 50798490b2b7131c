-- ===== src/Pickle/Methods/Parts.antt =====
-- What the Load of each class makes of what its Pickle has copied after the base's part.
use veri_fs.Base.{
  ◌∙◌, sym, ap, append_assoc, append-nil, ℕ, ◌-◌, ◌*◌, ◌<◌, ◌≤◌, ◌≡◌, refl, some, true, [], ◌∷◌,
  ◌++◌, List, arith, length, length-take, take, replicate, word, length-append, mul64, add64,
}
use veri_fs.Types
use veri_fs.Types.{Bytes, Name, Inode, SpecialInodeType, file}
use veri_fs.Memory.{Allocator, memmove, read_bytes}
use veri_fs.Pickle.{Layout, IsImage, word_bytes}
use veri_fs.Pickle.Words.{next_word-append, read_bytes-append, drop-append, memmove-replicate}
use veri_fs.Pickle.Methods.{
  load_file, load_children, load_directory, load_symlink, load_special, pickle_children,
}
use veri_fs.Pickle.Methods.Loads.{next_string-append}

-- Names and inode numbers that 64-bit numbers can hold.
abbrev pub AreNamed : List (Name × ℕ) → Type 0
AreNamed [] = Unit {0}
AreNamed ((n, ino) ∷ rest) = (ino < word) × (length n < word) × AreNamed rest

load_children-pickle_children :
    (c before : List (Name × ℕ)) (rest : Bytes)
    → AreNamed c
    → load_children (length c) (pickle_children c ++ rest) before ≡ some (rest, before ++ c)
unfolding load_children pickle_children
load_children-pickle_children [] before rest h = rw (append-nil before) refl
load_children-pickle_children ((n, ino) ∷ c) before rest h =
    let tail = pickle_children c ++ rest in
    let flat : (word_bytes ino ++ (word_bytes (length n) ++ (n ++ pickle_children c))) ++ rest
        ≡ word_bytes ino ++ (word_bytes (length n) ++ (n ++ tail)) =
      simp (append_assoc) in
    rw
      (
        flat,
        next_word-append ino (word_bytes (length n) ++ (n ++ tail)) h.0,
        next_string-append n tail h.1,
        load_children-pickle_children c (before ++ (n, ino) ∷ []) rest h.2,
        append_assoc before ((n, ino) ∷ []) c,
      )
      refl

pub load_directory-pickle_children :
    (base : Bytes) (c : List (Name × ℕ)) (rest : Bytes) (i : Inode)
    → length c < word
    → AreNamed c
    → load_directory
        (base ++ ((word_bytes (length c) ++ pickle_children c) ++ rest))
        (length base)
        i
      ≡ some (
        length (base ++ (word_bytes (length c) ++ pickle_children c)),
        record i { node = Types.directory c },
      )
unfolding load_directory
load_directory-pickle_children base c rest i l h =
    let body = word_bytes (length c) ++ pickle_children c in
    let inner = pickle_children c ++ rest in
    let offset : length (base ++ (word_bytes (length c) ++ inner)) - length rest
        ≡ length (base ++ body) =
      omega (
        arith,
        length-append base (word_bytes (length c) ++ inner),
        length-append (word_bytes (length c)) inner,
        length-append (pickle_children c) rest,
        length-append base body,
        length-append (word_bytes (length c)) (pickle_children c),
      ) in
    rw
      (
        drop-append base (body ++ rest),
        append_assoc (word_bytes (length c)) (pickle_children c) rest,
        next_word-append (length c) (pickle_children c ++ rest) l,
        load_children-pickle_children c [] rest h,
      )
      (ap (λ k. some (k, record i { node = Types.directory c })) offset)

-- A buffer whose bytes from st_size on are zeros.
abbrev pub zeroed : Bytes → ℕ → Bytes
zeroed b size = take size b ++ replicate (length b - size) 0

pub load_file-pickle_part :
    (m : Allocator) (base b : Bytes) (rest : Bytes) (i : Inode)
    → i.st_size ≤ length b
    → length b ≡ i.st_blksize * i.st_blocks
    → length b < word
    → m.grants (length b) ≡ true
    → load_file m (base ++ (take i.st_size b ++ rest)) (length base) i
      ≡ some (add64 (length base) i.st_size, record i { node = file (zeroed b i.st_size) })
unfolding load_file
load_file-pickle_part m base b rest i s c w g =
    let cap : mul64 i.st_blksize i.st_blocks ≡ length b = omega (arith, c) in
    let taken : length (take i.st_size b) ≡ i.st_size = omega (arith, length-take i.st_size b) in
    let back : read_bytes (base ++ (take i.st_size b ++ rest)) (length base) i.st_size
        ≡ some (take i.st_size b) =
      ap (read_bytes (base ++ (take i.st_size b ++ rest)) (length base)) (sym taken)
      ∙ read_bytes-append base (take i.st_size b) rest in
    let filled : memmove (replicate (length b) 0) 0 (take i.st_size b) ≡ some (zeroed b i.st_size) =
      memmove-replicate (length b) (take i.st_size b) (omega (arith, taken))
      ∙ ap (λ k. some (take i.st_size b ++ replicate (length b - k) 0)) taken in
    rw (cap, g, back, filled) refl

pub load_symlink-pickle_part :
    (base t rest : Bytes) (i : Inode)
    → i.st_size ≡ length t
    → load_symlink (base ++ (t ++ rest)) (length base) i
      ≡ some (add64 (length base) (length t), record i { node = Types.symlink t })
unfolding load_symlink
load_symlink-pickle_part base t rest i e = rw (e, read_bytes-append base t rest) refl

pub load_special-pickle_part :
    (l : Layout) (base : Bytes) (t : SpecialInodeType) (rest : Bytes) (i : Inode)
    → IsImage l.special_type t
    → load_special l (base ++ (l.special_type.to_bytes t ++ rest)) (length base) i
      ≡ some (
        add64 (length base) (length (l.special_type.to_bytes t)),
        record i { node = Types.special t },
      )
unfolding load_special
load_special-pickle_part l base t rest i h =
    rw (sym h.sized, read_bytes-append base (l.special_type.to_bytes t) rest, h.copied) refl
