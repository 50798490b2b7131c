-- ===== src/Directory/Children.antt =====
-- The list of children as a map from names to inode numbers, and its size.
use veri_fs.Base.{ℕ, ◌+◌, ◌≡◌, refl, none, some, if◌then◌else◌, List, [], ◌∷◌, ◌++◌, length, arith}
use veri_fs.Types.{Name, Abi}
use veri_fs.Names.{name_eq, name_eq_iff}
use veri_fs.Directory.{find, assign, erase}

-- No name stands twice.
abbrev pub Distinct : List (Name × ℕ) → Type 0
Distinct [] = Unit {0}
Distinct ((n, ino) ∷ rest) = (find n rest ≡ none) × Distinct rest

pub find-append :
    (j name : Name) (ino : ℕ) (c : List (Name × ℕ))
    → find name c ≡ none
    → find j (c ++ (name, ino) ∷ []) ≡ (if name_eq name j then some ino else find j c)
unfolding find
find-append j name ino [] h = refl
find-append j name ino ((n, old) ∷ rest) h =
    ground
      (arith, find-append j name ino rest, name_eq_iff n name, name_eq_iff n j, name_eq_iff name j)

pub find-assign :
    (j name : Name) (ino old : ℕ) (c : List (Name × ℕ))
    → find name c ≡ some old
    → find j (assign name ino c) ≡ (if name_eq name j then some ino else find j c)
unfolding find assign
find-assign j name ino old [] h = cc
find-assign j name ino old ((n, o) ∷ rest) h = ground (
  arith,
  find-assign j name ino old rest,
  name_eq_iff n name,
  name_eq_iff n j,
  name_eq_iff name j,
)

pub find-erase :
    (j name : Name) (c : List (Name × ℕ))
    → Distinct c
    → find j (erase name c) ≡ (if name_eq name j then none else find j c)
unfolding find erase
find-erase j name [] h = ground arith
find-erase j name ((n, o) ∷ rest) h =
    ground
      (arith, find-erase j name rest h.1, name_eq_iff n name, name_eq_iff n j, name_eq_iff name j)

pub append-Distinct :
    (name : Name) (ino : ℕ) (c : List (Name × ℕ))
    → find name c ≡ none
    → Distinct c
    → Distinct (c ++ (name, ino) ∷ [])
unfolding find
append-Distinct name ino [] h d = (refl, tt)
append-Distinct name ino ((n, o) ∷ rest) h d = ground (
  arith,
  append-Distinct name ino rest,
  find-append n name ino rest,
  name_eq_iff n name,
  name_eq_iff name n,
)

find_missing-assign :
    (j name : Name) (ino : ℕ) (c : List (Name × ℕ))
    → find j c ≡ none
    → find j (assign name ino c) ≡ none
unfolding find assign
find_missing-assign j name ino [] h = refl
find_missing-assign j name ino ((n, o) ∷ rest) h =
    ground (arith, find_missing-assign j name ino rest)

pub assign-Distinct :
    (name : Name) (ino : ℕ) (c : List (Name × ℕ)) → Distinct c → Distinct (assign name ino c)
unfolding assign
assign-Distinct name ino [] d = tt
assign-Distinct name ino ((n, o) ∷ rest) d =
    ground (arith, assign-Distinct name ino rest d.1, find_missing-assign n name ino rest d.0)

pub erase-Distinct : (name : Name) (c : List (Name × ℕ)) → Distinct c → Distinct (erase name c)
unfolding erase
erase-Distinct name [] d = tt
erase-Distinct name ((n, o) ∷ rest) d =
    ground (arith, erase-Distinct name rest d.1, find-erase n name rest d.1)

-- The bytes that the entries count for.
module _ ⦃abi : Abi⦄ where
  abbrev pub entry_bytes : Name → ℕ
  entry_bytes name = abi.rb_node_size + abi.ino_size + abi.string_size + length name

  unfoldable pub children_bytes : List (Name × ℕ) → ℕ
  children_bytes [] = 0
  children_bytes ((n, ino) ∷ rest) = entry_bytes n + children_bytes rest

  pub children_bytes-append :
      (name : Name) (ino : ℕ) (c : List (Name × ℕ))
      → children_bytes (c ++ (name, ino) ∷ []) ≡ children_bytes c + entry_bytes name
  unfolding children_bytes
  children_bytes-append name ino [] = omega arith
  children_bytes-append name ino ((n, o) ∷ rest) =
      omega (arith, children_bytes-append name ino rest)

  pub children_bytes-assign :
      (name : Name) (ino : ℕ) (c : List (Name × ℕ))
      → children_bytes (assign name ino c) ≡ children_bytes c
  unfolding children_bytes assign
  children_bytes-assign name ino [] = refl
  children_bytes-assign name ino ((n, o) ∷ rest) =
      ground (arith, children_bytes-assign name ino rest)

  pub children_bytes-erase :
      (name : Name) (old : ℕ) (c : List (Name × ℕ))
      → find name c ≡ some old
      → children_bytes (erase name c) + entry_bytes name ≡ children_bytes c
  unfolding children_bytes erase find
  children_bytes-erase name old [] h = cc
  children_bytes-erase name old ((n, o) ∷ rest) h =
      ground (arith, children_bytes-erase name old rest, name_eq_iff n name)
