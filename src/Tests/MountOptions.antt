-- ===== src/Tests/MountOptions.antt =====
-- Mount options with a tokenizer of one delimiter.
use veri_fs.Base.{
  ℕ, suc, ◌+◌, ◌≡◌, ◌≢◌, ◌≤◌, ◌<◌, ◌⊎◌, inl, inr, refl, ap, Option, none, some, Bool, true, false,
  Bool-cases, if◌then◌else◌, List, [], ◌∷◌, ◌++◌, ◌==◌, length, arith,
}
use veri_fs.Types.{Bytes}
use veri_fs.Names.{name_eq}
use veri_fs.Options.{option_max, size_str_to_number, unit_of}
use veri_fs.Options.Parse.{RamfsOptions, parsed, bypass, parse_tokens, parse_options}
use veri_fs.Options.Room.{Splits, parse_tokens_room}
use veri_fs.Options.Items.{Without, Tokenizes, Item, print, IsWord, AreItems}
use veri_fs.Options.Arguments.{erase_arg, erase_arg_lem}
use veri_fs.Options.Passed.{parse_options-print}

abbrev skip : ℕ → Bytes → Bytes
skip d [] = []
skip d (c ∷ s) = let rest = skip d s in if c == d then rest else c ∷ s

abbrev cut : ℕ → Bytes → Bytes × Bytes
cut d [] = ([], [])
cut d (c ∷ s) = let rest = cut d s in if c == d then ([], s) else (c ∷ rest.0, rest.1)

abbrev strtok : ℕ → Bytes → Option (Bytes × Bytes)
strtok d s = elim (skip d s) [ [] ↦ none | c ∷ t ↦ some (cut d (c ∷ t)) ]

cut_final : (d : ℕ) (t : Bytes) → Without d t → cut d t ≡ (t, [])
cut_final d [] h = refl
cut_final d (c ∷ t) h = ground (arith, h, cut_final d t h.1)

cut_leading : (d : ℕ) (t s : Bytes) → Without d t → cut d (t ++ d ∷ s) ≡ (t, s)
cut_leading d [] s h = ground arith
cut_leading d (c ∷ t) s h = ground (arith, h, cut_leading d t s h.1)

skip_stays : (d c : ℕ) (s : Bytes) → c ≢ d → skip d (c ∷ s) ≡ c ∷ s
skip_stays d c s h = ground (arith, h)

strtok-Tokenizes : Tokenizes strtok
strtok-Tokenizes = record { ends = λ d. refl; final = final; leading = leading }
  where
    final : (d : ℕ) (t : Bytes) → 0 < length t → Without d t → strtok d t ≡ some (t, [])
    final d [] k h = absurd (omega (arith, k))
    final d (c ∷ t) k h = rw (strtok, skip_stays d c t h.0, cut_final d (c ∷ t) h) refl

    leading :
        (d : ℕ) (t s : Bytes) → 0 < length t → Without d t → strtok d (t ++ d ∷ s) ≡ some (t, s)
    leading d [] s k h = absurd (omega (arith, k))
    leading d (c ∷ t) s k h =
        rw (strtok, skip_stays d c (t ++ d ∷ s) h.0, cut_leading d (c ∷ t) s h) refl

length-cut :
    (d : ℕ) (s : Bytes)
    → ((length (cut d s).1 ≡ 0) × (length (cut d s).0 ≤ length s))
      ⊎ (length (cut d s).0 + length (cut d s).1 < length s)
length-cut d [] = inl (refl, omega arith)
length-cut d (c ∷ s) = go (c == d) (length-cut d s)
  where
    go :
        (b : Bool)
        → ((length (cut d s).1 ≡ 0) × (length (cut d s).0 ≤ length s))
          ⊎ (length (cut d s).0 + length (cut d s).1 < length s)
        → let q : Bytes × Bytes = (if b then ([], s) else (c ∷ (cut d s).0, (cut d s).1)) in
          ((length q.1 ≡ 0) × (length q.0 ≤ suc (length s)))
          ⊎ (length q.0 + length q.1 < suc (length s))
    go true k = inr (omega arith)
    go false k = ground (arith, k)

skip_cases :
    (d : ℕ) (s : Bytes)
    → (skip d s ≡ [])
      ⊎ ((c : ℕ) × (t : Bytes) × (skip d s ≡ c ∷ t) × ((c == d) ≡ false) × (length t < length s))
skip_cases d [] = inl refl
skip_cases d (c ∷ s) = go (Bool-cases (c == d)) (skip_cases d s)
  where
    go :
        (((c == d) ≡ true) ⊎ ((c == d) ≡ false))
        → (skip d s ≡ [])
          ⊎ ((x : ℕ) × (t : Bytes) × (skip d s ≡ x ∷ t)
              × ((x == d) ≡ false)
              × (length t < length s))
        → (skip d (c ∷ s) ≡ [])
          ⊎ ((x : ℕ) × (t : Bytes) × (skip d (c ∷ s) ≡ x ∷ t)
              × ((x == d) ≡ false)
              × (length t < length (c ∷ s)))
    go (inl e) (inl k) = inl (rw (skip, e) k)
    go (inl e) (inr (x, t, k, n, l)) = inr (x, t, rw (skip, e) k, n, omega (arith, l))
    go (inr e) k = inr (c, s, rw (skip, e) refl, e, omega arith)

strtok-Splits : Splits strtok
strtok-Splits = record { whole = whole }
  where
    parts :
        (d c : ℕ) (s u t r : Bytes)
        → skip d s ≡ c ∷ u
        → (c == d) ≡ false
        → strtok d s ≡ some (t, r)
        → (t ≡ c ∷ (cut d u).0) × (r ≡ (cut d u).1)
    parts d c s u t r e n h = pair (rw (strtok, e, cut, n) at h)
      where
        pair :
            ◌≡◌ {A = Option (Bytes × Bytes)} (some (c ∷ (cut d u).0, (cut d u).1)) (some (t, r))
            → (t ≡ c ∷ (cut d u).0) × (r ≡ (cut d u).1)
        pair q = (cc, cc)

    whole :
        (d : ℕ) (s t r : Bytes)
        → strtok d s ≡ some (t, r)
        → (0 < length t)
          × (((length r ≡ 0) × (length t ≤ length s)) ⊎ (length t + length r < length s))
    whole d s t r h = elim (skip_cases d s) [
      | inl e ↦ absurd (cc (rw (strtok, e) at h))
      | inr (c, u, e, n, l) ↦
          let (tok, rest) = parts d c s u t r e n h in
          ground (arith, l, ap length tok, ap length rest, length-cut d u)
    ]

-- "size=8k", "uid=3", "subtype=v", "inodes=64" and "rw".
abbrev size_item : Item
size_item = record { key = b's' ∷ b'i' ∷ b'z' ∷ b'e' ∷ []; value = some (b'8' ∷ b'k' ∷ []) }

abbrev uid_item : Item
uid_item = record { key = b'u' ∷ b'i' ∷ b'd' ∷ []; value = some (b'3' ∷ []) }

abbrev inodes_item : Item
inodes_item = record {
  key = b'i' ∷ b'n' ∷ b'o' ∷ b'd' ∷ b'e' ∷ b's' ∷ [];
  value = some (b'6' ∷ b'4' ∷ []);
}

abbrev rw_item : Item
rw_item = record { key = b'r' ∷ b'w' ∷ []; value = none }

abbrev items : List Item
items = size_item ∷ uid_item ∷ inodes_item ∷ rw_item ∷ []

abbrev no_options : RamfsOptions
no_options = record {
  capacity = 0;
  inodes = 0;
  deamonize = false;
  subtype = none;
  mountpoint = none;
}

items-AreItems : AreItems items
unfolding size_str_to_number unit_of
items-AreItems = (
  word size_item.key (omega arith) (omega arith) (ground arith) (ground arith),
  (word (b'8' ∷ b'k' ∷ []) (omega arith) (omega arith) (ground arith) (ground arith), (8192, refl)),
  (
    word uid_item.key (omega arith) (omega arith) (ground arith) (ground arith),
    (word (b'3' ∷ []) (omega arith) (omega arith) (ground arith) (ground arith), (3, refl)),
    (
      word inodes_item.key (omega arith) (omega arith) (ground arith) (ground arith),
      (
        word (b'6' ∷ b'4' ∷ []) (omega arith) (omega arith) (ground arith) (ground arith),
        (64, refl),
      ),
      (word rw_item.key (omega arith) (omega arith) (ground arith) (ground arith), tt, tt),
    ),
  ),
)
  where
    word :
        (w : Bytes)
        → 0 < length w
        → length w ≤ option_max
        → Without b',' w
        → Without b'=' w
        → IsWord w
    word w a b c d = record { nonempty = a; short = b; no_comma = c; no_equals = d }

parse_options-print_example :
    parse_options strtok 9 (print items) no_options
    ≡ parsed (
      record { text = print (uid_item ∷ rw_item ∷ []); terminated = false },
      record no_options { capacity = 8192; inodes = 64 },
    )
unfolding name_eq size_str_to_number unit_of
parse_options-print_example =
    parse_options-print strtok items no_options 9 (print (uid_item ∷ []) ++ b',' ∷ b'r' ∷ []) b'w'
      strtok-Tokenizes items-AreItems (λ e. omega (arith, e)) (omega arith) refl refl
      (λ e. omega (arith, e))

-- "-orw": the buffer of five characters is full.
abbrev switched : Bytes
switched = b'-' ∷ b'o' ∷ print (rw_item ∷ [])

parse_tokens_room_example :
    length {A = ℕ} (b'-' ∷ b'o' ∷ b',' ∷ b'r' ∷ b'w' ∷ []) ≤ length switched + 1
unfolding parse_tokens bypass name_eq
parse_tokens_room_example =
    parse_tokens_room strtok 9 switched (b'-' ∷ b'o' ∷ []) (b'r' ∷ b'w' ∷ [])
      (b'-' ∷ b'o' ∷ b',' ∷ b'r' ∷ b'w' ∷ []) no_options no_options strtok-Splits refl refl

-- "p", "-b" and "/m": the second goes.
erase_arg_lem_example :
    erase_arg 1 (record {
      argc = 3;
      argv = some (b'p' ∷ []) ∷ some (b'-' ∷ b'b' ∷ []) ∷ some (b'/' ∷ b'm' ∷ []) ∷ none ∷ [];
    })
    ≡ some
        (record { argc = 2; argv = some (b'p' ∷ []) ∷ some (b'/' ∷ b'm' ∷ []) ∷ none ∷ none ∷ [] })
erase_arg_lem_example =
    erase_arg_lem (some (b'p' ∷ []) ∷ []) (some (b'/' ∷ b'm' ∷ []) ∷ []) (none ∷ [])
      (some (b'-' ∷ b'b' ∷ []))
