-- ===== src/Options/Parse.antt =====
-- ramfs_parse_options of src/util.cpp. strtok_r is a parameter: a token of a string at some delimiter,
-- and the string that its context points to afterwards.
use veri_fs.Base.{
  ℕ, zero, suc, Option, none, some, Bool, true, false, ◌&&◌, ◌||◌, if◌then◌else◌, [], ◌∷◌, ◌++◌,
  ◌==◌, ltb, take,
}
use veri_fs.Types.{Bytes}
use veri_fs.Names.{name_eq}
use veri_fs.Options.{option_max, reverse_onto, size_str_to_number}

-- strtok_r: NULL is `none`.
abbrev pub Tokenizer : Type 0
Tokenizer = ℕ → Bytes → Option (Bytes × Bytes)

-- struct fuse_ramfs_options.
pub record RamfsOptions : Type 0 where
  pub capacity : ℕ
  pub inodes : ℕ
  pub deamonize : Bool
  pub subtype : Option Bytes
  pub mountpoint : Option Bytes

-- What comes of a call: a value, a read or a write outside of a buffer, exit(1), or no end within the
-- fuel.
pub data Parsed (A : Type 0) : Type 0 where
  parsed : A → Parsed A
  out_of_bounds : Parsed A
  exits : Parsed A
  runs_on : Parsed A

-- The buffer that is returned: the characters before the cursor, and whether a 0 follows them.
pub record NewOpt : Type 0 where
  pub text : Bytes
  pub terminated : Bool

-- "size", "inodes" and "subtype".
abbrev pub size_key : Bytes
size_key = b's' ∷ b'i' ∷ b'z' ∷ b'e' ∷ []

abbrev pub inodes_key : Bytes
inodes_key = b'i' ∷ b'n' ∷ b'o' ∷ b'd' ∷ b'e' ∷ b's' ∷ []

abbrev pub subtype_key : Bytes
subtype_key = b's' ∷ b'u' ∷ b'b' ∷ b't' ∷ b'y' ∷ b'p' ∷ b'e' ∷ []

-- The branch for "-.*o": what is copied, and the rest; `none` is a string without an 'o'.
unfoldable pub switches : Bytes → Option (Bytes × Bytes)
switches [] = none
switches (c ∷ s) =
    let rest = switches s in
    if c == b'o'
    then some (b'o' ∷ [], s)
    else elim rest [ none ↦ none | some (copied, left) ↦ some (c ∷ copied, left) ]

-- The bypass at the start.
unfoldable pub bypass : Bytes → Option (Bytes × Bytes)
unfolding switches
bypass [] = some ([], [])
bypass (c ∷ s) = if c == b'-' then switches (c ∷ s) else some ([], c ∷ s)

-- The comma before an option that is copied.
abbrev pub comma : Bytes → Bytes
comma [] = []
comma (c ∷ out) = (c ∷ out) ++ b',' ∷ []

-- The branch for an option that is not recognised.
unfoldable pub copy_option : Bytes → Option Bytes → Bytes → Bytes
copy_option key none out = comma out ++ take option_max key
copy_option key (some value) out =
    (comma out ++ take option_max key) ++ b'=' ∷ take option_max value

-- A number for an option that is recognised; `none` is the read before the value's start.
abbrev pub with_number : Bytes → (ℕ → RamfsOptions) → Bytes → Option (Bytes × RamfsOptions)
with_number value set out = elim (size_str_to_number value) [
  | none ↦ none
  | some n ↦ some (out, set n)
]

-- The body of the loop for a key.
unfoldable pub take_option :
    Bytes → Option Bytes → Bytes → RamfsOptions → Option (Bytes × RamfsOptions)
unfolding copy_option
take_option key value out opt =
    if name_eq key size_key
    then elim value [
      | none ↦ some (out, opt)
      | some v ↦ with_number v (λ n. record opt { capacity = n }) out
    ]
    else if name_eq key inodes_key
    then elim value [
      | none ↦ some (out, opt)
      | some v ↦ with_number v (λ n. record opt { inodes = n }) out
    ]
    else if name_eq key subtype_key
    then elim value [
      | none ↦ some (out, opt)
      | some v ↦ some (out, record opt { subtype = some v })
    ]
    else some (copy_option key value out, opt)

-- The checks after the loop.
abbrev pub refused : RamfsOptions → Bool
refused opt =
    (ltb 0 opt.capacity && ltb opt.capacity 1024) || (ltb 0 opt.inodes && ltb opt.inodes 2)

-- The erasure of "-o" at the end; `none` is a read before the buffer.
unfoldable pub erase_switch : Bytes → Option NewOpt
erase_switch out = elim (reverse_onto [] out) [
  | [] ↦ none
  | c ∷ before ↦
      if c == b'o'
      then elim before [
        | [] ↦ none
        | d ∷ more ↦ some (record {
          text = reverse_onto [] (if d == b'-' then more else d ∷ more);
          terminated = true;
        })
      ]
      else some (record { text = out; terminated = false })
]

unfoldable pub finish : Bytes × RamfsOptions → Parsed (NewOpt × RamfsOptions)
unfolding erase_switch
finish (out, opt) =
    if refused opt
    then exits
    else elim (erase_switch out) [ none ↦ out_of_bounds | some new ↦ parsed (new, opt) ]

module _ (strtok : Tokenizer) where
  abbrev pub value_of : Bytes → Option Bytes
  value_of ctx = elim (strtok b'=' ctx) [ none ↦ none | some (value, _) ↦ some value ]

  -- The loop over the tokens. A token without a key is looked at again.
  unfoldable pub parse_tokens :
      ℕ → Option (Bytes × Bytes) → Bytes → RamfsOptions → Parsed (Bytes × RamfsOptions)
  unfolding take_option
  parse_tokens zero token out opt = runs_on
  parse_tokens (suc fuel) none out opt = parsed (out, opt)
  parse_tokens (suc fuel) (some (kv, ctx)) out opt = elim (strtok b'=' kv) [
    | none ↦ parse_tokens fuel (some (kv, ctx)) out opt
    | some (key, ctx2) ↦ elim (take_option key (value_of ctx2) out opt) [
      | none ↦ out_of_bounds
      | some (out', opt') ↦ parse_tokens fuel (strtok b',' ctx) out' opt'
    ]
  ]

  -- ramfs_parse_options.
  unfoldable pub parse_options : ℕ → Bytes → RamfsOptions → Parsed (NewOpt × RamfsOptions)
  unfolding bypass finish
  parse_options fuel optstr opt = elim (bypass optstr) [
    | none ↦ out_of_bounds
    | some (copied, left) ↦ elim (parse_tokens fuel (strtok b',' left) copied opt) [
      | parsed done ↦ finish done
      | out_of_bounds ↦ out_of_bounds
      | exits ↦ exits
      | runs_on ↦ runs_on
    ]
  ]
