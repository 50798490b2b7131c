-- ===== src/Options/Room.antt =====
-- How far ramfs_parse_options writes into the buffer of strnlen(optstr) + 1 characters.
use mathlib.Core.Path.{subst}
use veri_fs.Base.{
  ℕ, zero, suc, ◌+◌, ◌≡◌, ◌≤◌, ◌<◌, ◌⊎◌, inl, inr, refl, ap, Option, none, some, Bool-cases, true,
  false, if◌then◌else◌, [], ◌∷◌, ◌++◌, ◌==◌, length, length-append, length-take, take, arith,
}
use veri_fs.Types.{Bytes}
use veri_fs.Names.{name_eq}
use veri_fs.Options.{option_max, size_str_to_number}
use veri_fs.Options.Parse.{
  Tokenizer, RamfsOptions, Parsed, parsed, out_of_bounds, exits, runs_on, size_key, inodes_key,
  subtype_key, switches, bypass, comma, copy_option, with_number, take_option, value_of,
  parse_tokens,
}

-- A token is not empty and stands in the string, before a delimiter if anything follows.
pub record Splits (strtok : Tokenizer) : Type 0 where
  pub whole :
      (d : ℕ) (s t r : Bytes)
      → strtok d s ≡ some (t, r)
      → (0 < length t)
        × (((length r ≡ 0) × (length t ≤ length s)) ⊎ (length t + length r < length s))

comma_room : (out : Bytes) → length (comma out) ≤ length out + 1
comma_room [] = omega arith
comma_room (c ∷ out) = omega (arith, length-append out (b',' ∷ []))

-- The length of an option as it is copied.
abbrev option_length : Bytes → Option Bytes → ℕ
option_length key none = length key
option_length key (some value) = length key + 1 + length value

copy_option_room :
    (key : Bytes) (value : Option Bytes) (out : Bytes)
    → length (copy_option key value out) ≤ length out + 1 + option_length key value
unfolding copy_option
copy_option_room key none out = omega (
  arith,
  comma_room out,
  length-append (comma out) (take option_max key),
  length-take option_max key,
)
copy_option_room key (some value) out = omega (
  arith,
  comma_room out,
  length-append (comma out) (take option_max key),
  length-append (comma out ++ take option_max key) (b'=' ∷ take option_max value),
  length-take option_max key,
  length-take option_max value,
)

with_number_out :
    (v : Bytes) (set : ℕ → RamfsOptions) (out out' : Bytes) (opt : RamfsOptions)
    → with_number v set out ≡ some (out', opt)
    → out' ≡ out
with_number_out v set out out' opt h = go (size_str_to_number v) h
  where
    go :
        (o : Option ℕ)
        → ◌≡◌ {A = Option (Bytes × RamfsOptions)}
            (elim o [ none ↦ none | some n ↦ some (out, set n) ])
            (some (out', opt))
        → out' ≡ out
    go none e = cc
    go (some n) e = cc

-- What the branch for a recognised key leaves in the buffer.
value_out :
    (value : Option Bytes) (use_value : Bytes → Option (Bytes × RamfsOptions)) (out out' : Bytes)
    (opt opt' : RamfsOptions)
    → ((v : Bytes) → use_value v ≡ some (out', opt') → out' ≡ out)
    → ◌≡◌ {A = Option (Bytes × RamfsOptions)}
        (elim value [ none ↦ some (out, opt) | some v ↦ use_value v ])
        (some (out', opt'))
    → out' ≡ out
value_out none use_value out out' opt opt' k h = cc
value_out (some v) use_value out out' opt opt' k h = k v h

take_option_out :
    (key : Bytes) (value : Option Bytes) (out out' : Bytes) (opt opt' : RamfsOptions)
    → take_option key value out opt ≡ some (out', opt')
    → (out' ≡ out) ⊎ (out' ≡ copy_option key value out)
unfolding take_option
take_option_out key value out out' opt opt' h = elim (Bool-cases (name_eq key size_key)) [
  | inl a ↦ inl (
      value_out value _ out out' opt opt' (λ v. with_number_out v _ out out' opt')
        (rw (a, take_option) at h))
  | inr a ↦ elim (Bool-cases (name_eq key inodes_key)) [
    | inl b ↦ inl (
        value_out value _ out out' opt opt' (λ v. with_number_out v _ out out' opt')
          (rw (a, b, take_option) at h))
    | inr b ↦ elim (Bool-cases (name_eq key subtype_key)) [
      | inl c ↦
          inl (value_out value _ out out' opt opt' (λ v e. cc) (rw (a, b, c, take_option) at h))
      | inr c ↦ inr (cc (rw (a, b, c, take_option) at h))
    ]
  ]
]

take_option_room :
    (key : Bytes) (value : Option Bytes) (out out' : Bytes) (opt opt' : RamfsOptions)
    → take_option key value out opt ≡ some (out', opt')
    → length out' ≤ length out + 1 + option_length key value
take_option_room key value out out' opt opt' h =
    elim (take_option_out key value out out' opt opt' h) [
      | inl e ↦ omega (arith, ap length e)
      | inr e ↦ omega (arith, ap length e, copy_option_room key value out)
    ]

switches-length :
    (s copied left : Bytes)
    → switches s ≡ some (copied, left)
    → length copied + length left ≡ length s
unfolding switches
switches-length [] copied left h = cc
switches-length (c ∷ s) copied left h =
    go (switches s) refl (switches-length s) (Bool-cases (c == b'o')) h
  where
    go :
        (o : Option (Bytes × Bytes))
        → switches s ≡ o
        → ((before after : Bytes)
            → switches s ≡ some (before, after)
            → length before + length after ≡ length s)
        → ((c == b'o') ≡ true) ⊎ ((c == b'o') ≡ false)
        → ◌≡◌ {A = Option (Bytes × Bytes)}
            (if c == b'o'
              then some (b'o' ∷ [], s)
              else elim o [ none ↦ none | some (before, after) ↦ some (c ∷ before, after) ])
            (some (copied, left))
        → length copied + length left ≡ suc (length s)
    go o e ih (inl a) k = ground (arith, a, k)
    go none e ih (inr a) k = ground (arith, a, k)
    go (some (before, after)) e ih (inr a) k = ground (arith, a, k, ih before after e)

bypass-length :
    (s copied left : Bytes)
    → bypass s ≡ some (copied, left)
    → length copied + length left ≡ length s
unfolding bypass
bypass-length [] copied left h = ground arith
bypass-length (c ∷ s) copied left h = ground (arith, switches-length (c ∷ s) copied left)

module _ (strtok : Tokenizer) (splits : Splits strtok) where
  value_fits :
      (kv key ctx : Bytes)
      → strtok b'=' kv ≡ some (key, ctx)
      → option_length key (value_of strtok ctx) ≤ length kv
  value_fits kv key ctx h = go (strtok b'=' ctx) refl (splits.whole b'=' kv key ctx h).1
    where
      go :
          (o : Option (Bytes × Bytes))
          → strtok b'=' ctx ≡ o
          → (((length ctx ≡ 0) × (length key ≤ length kv)) ⊎ (length key + length ctx < length kv))
          → option_length key (elim o [ none ↦ none | some (value, _) ↦ some value ]) ≤ length kv
      go none e k = ground (arith, k)
      go (some (value, r)) e k = ground (arith, k, splits.whole b'=' ctx value r e)

  -- What may still be copied fits: a token with what follows it, or nothing.
  abbrev Fits : ℕ → Bytes → Option (Bytes × Bytes) → Type 0
  Fits size out none = length out ≤ size
  Fits size out (some (kv, ctx)) =
      (length out + 1 + length kv ≤ size)
      × ((length ctx ≡ 0) ⊎ (length out + 2 + length kv + length ctx ≤ size))

  first_token :
      (size : ℕ) (out s : Bytes)
      → ((length s ≡ 0) × (length out ≤ size)) ⊎ (length out + 1 + length s ≤ size)
      → Fits size out (strtok b',' s)
  first_token size out s h = go (strtok b',' s) refl
    where
      go : (o : Option (Bytes × Bytes)) → strtok b',' s ≡ o → Fits size out o
      go none e = ground (arith, h)
      go (some (kv, ctx)) e = ground (arith, h, splits.whole b',' s kv ctx e)

  next_token :
      (size : ℕ) (kv key ctx rest out out' : Bytes) (opt opt' : RamfsOptions)
      → strtok b'=' kv ≡ some (key, ctx)
      → take_option key (value_of strtok ctx) out opt ≡ some (out', opt')
      → Fits size out (some (kv, rest))
      → Fits size out' (strtok b',' rest)
  next_token size kv key ctx rest out out' opt opt' h k fits =
      let grown = take_option_room key (value_of strtok ctx) out out' opt opt' k in
      let short = value_fits kv key ctx h in
      first_token size out' rest (ground (arith, grown, short, fits))

  abbrev Within : ℕ → Parsed (Bytes × RamfsOptions) → Type 0
  Within size (parsed (out, opt)) = length out ≤ size
  Within size out_of_bounds = Unit {0}
  Within size exits = Unit {0}
  Within size runs_on = Unit {0}

  parse_tokens-Within :
      (fuel size : ℕ) (token : Option (Bytes × Bytes)) (out : Bytes) (opt : RamfsOptions)
      → Fits size out token
      → Within size (parse_tokens strtok fuel token out opt)
  unfolding parse_tokens
  parse_tokens-Within zero size token out opt fits = tt
  parse_tokens-Within (suc fuel) size none out opt fits = fits
  parse_tokens-Within (suc fuel) size (some (kv, rest)) out opt fits =
      key_of (strtok b'=' kv) refl (parse_tokens-Within fuel size)
    where
      option_of :
          (key ctx : Bytes)
          → strtok b'=' kv ≡ some (key, ctx)
          → (o : Option (Bytes × RamfsOptions)) → take_option key (value_of strtok ctx) out opt ≡ o
          → ((token : Option (Bytes × Bytes)) (b : Bytes) (q : RamfsOptions)
              → Fits size b token
              → Within size (parse_tokens strtok fuel token b q))
          → Within size (elim o [
            | none ↦ out_of_bounds
            | some (b, q) ↦ parse_tokens strtok fuel (strtok b',' rest) b q
          ])
      option_of key ctx h none e ih = tt
      option_of key ctx h (some (b, q)) e ih =
          ih (strtok b',' rest) b q (next_token size kv key ctx rest out b opt q h e fits)

      key_of :
          (o : Option (Bytes × Bytes))
          → strtok b'=' kv ≡ o
          → ((token : Option (Bytes × Bytes)) (b : Bytes) (q : RamfsOptions)
              → Fits size b token
              → Within size (parse_tokens strtok fuel token b q))
          → Within size (elim o [
            | none ↦ parse_tokens strtok fuel (some (kv, rest)) out opt
            | some (key, ctx) ↦ elim (take_option key (value_of strtok ctx) out opt) [
              | none ↦ out_of_bounds
              | some (b, q) ↦ parse_tokens strtok fuel (strtok b',' rest) b q
            ]
          ])
      key_of none e ih = ih (some (kv, rest)) out opt fits
      key_of (some (key, ctx)) e ih =
          option_of key ctx e (take_option key (value_of strtok ctx) out opt) refl ih

-- Where each token of strtok_r is not empty and stands in the string, before a delimiter if
-- anything follows: when the loop of ramfs_parse_options ends, it has written at most one
-- character more than the option string has.
pub parse_tokens_room :
    (strtok : Tokenizer) (fuel : ℕ) (optstr copied left out : Bytes) (opt opt' : RamfsOptions)
    → Splits strtok
    → bypass optstr ≡ some (copied, left)
    → parse_tokens strtok fuel (strtok b',' left) copied opt ≡ parsed (out, opt')
    → length out ≤ length optstr + 1
parse_tokens_room strtok fuel optstr copied left out opt opt' splits h k =
    let whole = bypass-length optstr copied left h in
    let start =
      first_token strtok splits (length optstr + 1) copied left (inr (omega (arith, whole))) in
    subst (Within strtok splits (length optstr + 1)) k (
      parse_tokens-Within strtok splits fuel (length optstr + 1) (strtok b',' left) copied opt
        start)
