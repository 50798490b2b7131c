-- ===== src/Options/Passed.antt =====
-- ramfs_parse_options of printed options.
use veri_fs.Base.{
  ℕ, zero, suc, ◌≡◌, ◌≢◌, ◌<◌, refl, ap, sym, ◌∙◌, Option, none, some, Bool, true, false,
  if◌then◌else◌, List, [], ◌∷◌, ◌++◌, length, append_assoc, arith,
}
use veri_fs.Types.{Bytes}
use veri_fs.Options.{reverse_onto}
use veri_fs.Options.Parse.{
  Tokenizer, RamfsOptions, parsed, bypass, comma, refused, finish, value_of, parse_tokens,
  parse_options,
}
use veri_fs.Options.Items.{
  Without, Tokenizes, Item, text, print, IsWord, IsValue, AreItems, recognised, setting, settings,
  passed_on, appended, take_option_lem,
}

Without-append : (d : ℕ) (s t : Bytes) → Without d s → Without d t → Without d (s ++ t)
Without-append d [] t h k = k
Without-append d (c ∷ s) t h k = (h.0, Without-append d s t h.1 k)

nonempty_append : (s t : Bytes) → 0 < length s → 0 < length (s ++ t)
nonempty_append [] t h = absurd (omega (arith, h))
nonempty_append (c ∷ s) t h = omega arith

text_nonempty : (i : Item) → IsWord i.key → 0 < length (text i)
text_nonempty i w = go i.value
  where
    go : (v : Option Bytes) → 0 < length (elim v [ none ↦ i.key | some x ↦ i.key ++ b'=' ∷ x ])
    go none = w.nonempty
    go (some x) = nonempty_append i.key (b'=' ∷ x) w.nonempty

equals_no_comma : ◌≢◌ {A = ℕ} b'=' b','
equals_no_comma e = omega (arith, e)

text-Without : (i : Item) → IsWord i.key → IsValue i.value → Without b',' (text i)
text-Without i w = go i.value
  where
    go :
        (v : Option Bytes)
        → IsValue v
        → Without b',' (elim v [ none ↦ i.key | some x ↦ i.key ++ b'=' ∷ x ])
    go none h = w.no_comma
    go (some x) h = Without-append b',' i.key (b'=' ∷ x) w.no_comma (equals_no_comma, h.0.no_comma)

module _ (strtok : Tokenizer) (tokens : Tokenizes strtok) where
  -- The tokens of one option.
  key_token :
      (i : Item)
      → IsWord i.key
      → IsValue i.value
      → (ctx : Bytes) × (strtok b'=' (text i) ≡ some (i.key, ctx)) × (value_of strtok ctx ≡ i.value)
  key_token i w = go i.value
    where
      go :
          (v : Option Bytes)
          → IsValue v
          → (ctx : Bytes) × (strtok b'=' (elim v [ none ↦ i.key | some x ↦ i.key ++ b'=' ∷ x ])
              ≡ some (i.key, ctx))
            × (value_of strtok ctx ≡ v)
      go none h =
          ([], tokens.final b'=' i.key w.nonempty w.no_equals, rw (value_of, tokens.ends b'=') refl)
      go (some x) h = (
        x,
        tokens.leading b'=' i.key x w.nonempty w.no_equals,
        rw (value_of, tokens.final b'=' x h.0.nonempty h.0.no_equals) refl,
      )

  one_option :
      (fuel : ℕ) (i : Item) (rest : Bytes) (out : Bytes) (opt : RamfsOptions)
      → IsWord i.key
      → IsValue i.value
      → parse_tokens strtok (suc fuel) (some (text i, rest)) out opt
        ≡ parse_tokens strtok fuel
            (strtok b',' rest)
            (if recognised i then out else comma out ++ text i)
            (setting i opt)
  unfolding parse_tokens
  one_option fuel i rest out opt w v =
      let (ctx, e, h) = key_token i w v in
      rw (parse_tokens, e, h, take_option_lem i.key i.value out opt w v) refl

  select_appended :
      (b : Bool) (i : Item) (is : List Item) (out : Bytes)
      → appended (if b then out else comma out ++ text i) is
        ≡ appended out (if b then is else i ∷ is)
  select_appended true i is out = refl
  select_appended false i is out = refl

  all_options :
      (items : List Item) (fuel : ℕ) (out : Bytes) (opt : RamfsOptions)
      → AreItems items
      → length items < fuel
      → parse_tokens strtok fuel (strtok b',' (print items)) out opt
        ≡ parsed (appended out (passed_on items), settings items opt)
  unfolding parse_tokens
  all_options items zero out opt h k = absurd (omega (arith, k))
  all_options [] (suc fuel) out opt h k = rw (tokens.ends b',', parse_tokens) refl
  all_options (i ∷ []) (suc fuel) out opt h k =
      rw (tokens.final b',' (text i) (text_nonempty i h.0) (text-Without i h.0 h.1)) (
        one_option fuel i [] out opt h.0 h.1
        ∙ all_options [] fuel (if recognised i then out else comma out ++ text i) (setting i opt) tt
            (omega (arith, k))
        ∙ ap (λ b. parsed (b, setting i opt)) (select_appended (recognised i) i [] out))
  all_options (i ∷ j ∷ is) (suc fuel) out opt h k =
      rw
        (tokens.leading b',' (text i) (print (j ∷ is)) (text_nonempty i h.0)
          (text-Without i h.0 h.1))
        (one_option fuel i (print (j ∷ is)) out opt h.0 h.1
          ∙ all_options (j ∷ is) fuel (if recognised i then out else comma out ++ text i)
              (setting i opt) h.2 (omega (arith, k))
          ∙ ap (λ b. parsed (b, settings (j ∷ is) (setting i opt)))
              (select_appended (recognised i) i (passed_on (j ∷ is)) out))

-- Behind characters that are there, the options follow with a comma before each.
appended-print :
    (c : ℕ) (out : Bytes) (i : Item) (is : List Item)
    → appended (c ∷ out) (i ∷ is) ≡ (c ∷ out) ++ b',' ∷ print (i ∷ is)
appended-print c out i [] = append_assoc (c ∷ out) (b',' ∷ []) (text i)
appended-print c out i (j ∷ is) =
    appended-print c ((out ++ b',' ∷ []) ++ text i) j is
    ∙ append_assoc ((c ∷ out) ++ b',' ∷ []) (text i) (b',' ∷ print (j ∷ is))
    ∙ append_assoc (c ∷ out) (b',' ∷ []) (text i ++ b',' ∷ print (j ∷ is))

abbrev AreWords : List Item → Type 0
AreWords [] = Unit {0}
AreWords (i ∷ is) = (0 < length (text i)) × AreWords is

AreWords-passed_on : (is : List Item) → AreItems is → AreWords (passed_on is)
AreWords-passed_on [] h = tt
AreWords-passed_on (i ∷ is) h = go (recognised i) (AreWords-passed_on is h.2)
  where
    go :
        (b : Bool)
        → AreWords (passed_on is)
        → AreWords (if b then passed_on is else i ∷ passed_on is)
    go true rest = rest
    go false rest = (text_nonempty i h.0, rest)

appended_start : (is : List Item) → AreWords is → appended [] is ≡ print is
appended_start [] h = refl
appended_start (i ∷ []) h = refl
appended_start (i ∷ j ∷ is) h = go (text i) h.0
  where
    go : (t : Bytes) → 0 < length t → appended t (j ∷ is) ≡ t ++ b',' ∷ print (j ∷ is)
    go [] k = absurd (omega (arith, k))
    go (c ∷ t) k = appended-print c t j is

reverse_onto-last :
    (acc s : Bytes) (c : ℕ) → reverse_onto acc (s ++ c ∷ []) ≡ c ∷ reverse_onto acc s
reverse_onto-last acc [] c = refl
reverse_onto-last acc (x ∷ s) c = reverse_onto-last (x ∷ acc) s c

finish-kept :
    (s : Bytes) (c : ℕ) (opt : RamfsOptions)
    → refused opt ≡ false
    → c ≢ b'o'
    → finish (s ++ c ∷ [], opt) ≡ parsed (record { text = s ++ c ∷ []; terminated = false }, opt)
unfolding finish
finish-kept s c opt fine h = rw (finish, fine, reverse_onto-last [] s c) (ground (arith, h))

-- No switches before the options.
abbrev pub NoSwitch : Bytes → Type 0
NoSwitch [] = Unit {0}
NoSwitch (c ∷ s) = c ≢ b'-'

bypass-nothing : (s : Bytes) → NoSwitch s → bypass s ≡ some ([], s)
unfolding bypass
bypass-nothing [] h = refl
bypass-nothing (c ∷ s) h = ground (arith, h)

-- For a tokenizer that gives what stands before a delimiter, or all that is left:
-- ramfs_parse_options of options printed between commas, with enough fuel for one round an option
-- and one more, sets what its options set, the last one of a kind, and returns the other options
-- printed between commas, with no 0 behind them. The conditions: keys and values are words of at
-- most OPTION_MAX characters without commas and equals signs, no value is all spaces, the string
-- does not start with '-', the settings pass the checks, and what is returned is not empty and
-- does not end in 'o'.
pub parse_options-print :
    (strtok : Tokenizer) (items : List Item) (opt : RamfsOptions) (fuel : ℕ) (s : Bytes) (c : ℕ)
    → Tokenizes strtok
    → AreItems items
    → NoSwitch (print items)
    → length items < fuel
    → refused (settings items opt) ≡ false
    → print (passed_on items) ≡ s ++ c ∷ []
    → c ≢ b'o'
    → parse_options strtok fuel (print items) opt
      ≡ parsed (record { text = print (passed_on items); terminated = false }, settings items opt)
unfolding parse_options finish
parse_options-print strtok items opt fuel s c tokens are plain enough fine last no_o =
    let whole = all_options strtok tokens items fuel [] opt are enough in
    let start = appended_start (passed_on items) (AreWords-passed_on items are) in
    let end = settings items opt in
    rw (parse_options, bypass-nothing (print items) plain, whole)
      (ap (λ t. finish (t, end)) (start ∙ last)
        ∙ finish-kept s c end fine no_o
        ∙ ap (λ t. parsed (record { text = t; terminated = false }, end)) (sym last))
