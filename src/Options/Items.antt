-- ===== src/Options/Items.antt =====
-- ramfs_parse_options against lists of options: what is set and what is passed on.
use veri_fs.Base.{
  ℕ, zero, suc, ◌≡◌, ◌≢◌, ◌≤◌, ◌<◌, refl, ap, ◌∙◌, Option, none, some, Bool, true, false, ◌||◌,
  if◌then◌else◌, List, [], ◌∷◌, ◌++◌, length, take, append_assoc, arith,
}
use veri_fs.Types.{Bytes}
use veri_fs.Names.{name_eq}
use veri_fs.Options.{option_max, size_str_to_number}
use veri_fs.Options.Parse.{
  Tokenizer, RamfsOptions, size_key, inodes_key, subtype_key, comma, copy_option, with_number,
  take_option,
}

abbrev pub Without : ℕ → Bytes → Type 0
Without d [] = Unit {0}
Without d (c ∷ s) = (c ≢ d) × Without d s

-- The tokens of strtok_r at one delimiter: what stands before it, or all that is left.
pub record Tokenizes (strtok : Tokenizer) : Type 0 where
  pub ends : (d : ℕ) → strtok d [] ≡ none
  pub final : (d : ℕ) (t : Bytes) → 0 < length t → Without d t → strtok d t ≡ some (t, [])
  pub leading :
      (d : ℕ) (t s : Bytes) → 0 < length t → Without d t → strtok d (t ++ d ∷ s) ≡ some (t, s)

-- An option: a key, with a value or without.
pub record Item : Type 0 where
  pub key : Bytes
  pub value : Option Bytes

abbrev pub text : Item → Bytes
text i = elim i.value [ none ↦ i.key | some v ↦ i.key ++ b'=' ∷ v ]

-- Options between commas.
abbrev pub print : List Item → Bytes
print [] = []
print (i ∷ []) = text i
print (i ∷ j ∷ is) = text i ++ b',' ∷ print (j ∷ is)

pub record IsWord (w : Bytes) : Type 0 where
  pub nonempty : 0 < length w
  pub short : length w ≤ option_max
  pub no_comma : Without b',' w
  pub no_equals : Without b'=' w

-- A value that holds a number or more than spaces.
abbrev pub IsValue : Option Bytes → Type 0
IsValue none = Unit {0}
IsValue (some v) = IsWord v × ((n : ℕ) × (size_str_to_number v ≡ some n))

abbrev pub AreItems : List Item → Type 0
AreItems [] = Unit {0}
AreItems (i ∷ is) = IsWord i.key × IsValue i.value × AreItems is

abbrev pub number : Bytes → ℕ
number v = elim (size_str_to_number v) [ none ↦ 0 | some n ↦ n ]

abbrev pub recognised : Item → Bool
recognised i = name_eq i.key size_key || name_eq i.key inodes_key || name_eq i.key subtype_key

-- What an option sets.
abbrev pub setting : Item → RamfsOptions → RamfsOptions
setting i opt = elim i.value [
  | none ↦ opt
  | some v ↦
      if name_eq i.key size_key
      then record opt { capacity = number v }
      else if name_eq i.key inodes_key
      then record opt { inodes = number v }
      else if name_eq i.key subtype_key
      then record opt { subtype = some v }
      else opt
]

abbrev pub settings : List Item → RamfsOptions → RamfsOptions
settings [] opt = opt
settings (i ∷ is) opt = settings is (setting i opt)

abbrev pub passed_on : List Item → List Item
passed_on [] = []
passed_on (i ∷ is) = let rest = passed_on is in if recognised i then rest else i ∷ rest

-- The options behind what the buffer has.
abbrev pub appended : Bytes → List Item → Bytes
appended out [] = out
appended out (i ∷ is) = appended (comma out ++ text i) is

take_all : (n : ℕ) (s : Bytes) → length s ≤ n → take n s ≡ s
take_all zero [] h = refl
take_all zero (c ∷ s) h = absurd (omega (arith, h))
take_all (suc n) [] h = refl
take_all (suc n) (c ∷ s) h = ap (◌∷◌ c) (take_all n s (omega (arith, h)))

copy_option-text :
    (key : Bytes) (value : Option Bytes) (out : Bytes)
    → IsWord key
    → IsValue value
    → copy_option key value out ≡ comma out ++ text (record { key = key; value = value })
unfolding copy_option
copy_option-text key none out w v = ap (λ t. comma out ++ t) (take_all option_max key w.short)
copy_option-text key (some value) out w v =
    rw (take_all option_max key w.short, take_all option_max value v.0.short)
      (append_assoc (comma out) key (b'=' ∷ value))

-- Three tests in a row, over the pair and inside of it.
select :
    (a b c : Bool) (out copied : Bytes) (x y z opt : RamfsOptions)
    → ◌≡◌ {A = Option (Bytes × RamfsOptions)}
        (if a
          then some (out, x)
          else if b
          then some (out, y)
          else if c
          then some (out, z)
          else some (copied, opt))
        (some (
          if a || b || c then out else copied,
          if a then x else if b then y else if c then z else opt,
        ))
select true b c out copied x y z opt = refl
select false true c out copied x y z opt = refl
select false false true out copied x y z opt = refl
select false false false out copied x y z opt = refl

same :
    (a b c : Bool) (opt : RamfsOptions)
    → (if a then opt else if b then opt else if c then opt else opt) ≡ opt
same true b c opt = refl
same false true c opt = refl
same false false true opt = refl
same false false false opt = refl

pub take_option_lem :
    (key : Bytes) (value : Option Bytes) (out : Bytes) (opt : RamfsOptions)
    → IsWord key
    → IsValue value
    → let i : Item = record { key = key; value = value } in
      take_option key value out opt
      ≡ some (if recognised i then out else comma out ++ text i, setting i opt)
unfolding take_option
take_option_lem key none out opt w v =
    let a = name_eq key size_key in
    let b = name_eq key inodes_key in
    let c = name_eq key subtype_key in
    rw (take_option, copy_option-text key none out w v)
      (select a b c out (comma out ++ key) opt opt opt opt
        ∙ ap (λ q. some (if a || b || c then out else comma out ++ key, q)) (same a b c opt))
take_option_lem key (some value) out opt w (word, (n, e)) =
    rw
      (
        take_option,
        copy_option-text key (some value) out w (word, (n, e)),
        with_number,
        setting,
        number,
        e,
      )
      (select (name_eq key size_key) (name_eq key inodes_key) (name_eq key subtype_key) out
        (comma out ++ (key ++ b'=' ∷ value)) (record opt { capacity = n })
        (record opt { inodes = n }) (record opt { subtype = some value }) opt)
