-- ===== src/Options/Numbers.antt =====
-- SizeStr2Number against decimal notation.
use native.Mathlib.Nat.{mod-add-div, add-mul-mod_self_left, mul-add, add-mul, mul_assoc}
use veri_fs.Base.{
  ◌/◌, ℕ, zero, suc, ◌+◌, ◌-◌, ◌*◌, ◌%◌, ◌≡◌, ◌<◌, ◌≤◌, refl, ◌∙◌, sym, ap, some, true, false, List,
  [], ◌∷◌, ◌++◌, ◌==◌, arith, length, length-append, take, word, add64, mul64,
}
use veri_fs.Types.{Bytes}
use veri_fs.Options.{
  option_max, is_digit, unit_of, reverse_onto, skip_spaces, gather, number_with_unit,
  size_str_to_number,
}

-- Digits, the last one first.
abbrev pub AreDigits : List ℕ → Type 0
AreDigits [] = Unit {0}
AreDigits (d ∷ ds) = (d < 10) × AreDigits ds

-- The number that digits stand for, the last one first.
abbrev pub value : List ℕ → ℕ
value [] = 0
value (d ∷ ds) = d + 10 * value ds

abbrev pub characters : List ℕ → Bytes
characters [] = []
characters (d ∷ ds) = (b'0' + d) ∷ characters ds

mod_mul : (x v : ℕ) → (x % word * v) % word ≡ (x * v) % word
mod_mul x v =
    let split : x * v ≡ x % word * v + word * (x / word * v) =
      ap (λ y. y * v) (sym (mod-add-div x word))
      ∙ add-mul (x % word) (word * (x / word)) v
      ∙ ap (λ y. x % word * v + y) (mul_assoc word (x / word) v) in
    sym (ap (λ y. y % word) split ∙ add-mul-mod_self_left (x % word * v) word (x / word * v))

gather-characters :
    (mag size : ℕ) (ds : List ℕ)
    → AreDigits ds
    → size < word
    → gather mag size (characters ds) ≡ some ((size + mag * value ds) % word)
unfolding gather
gather-characters mag size [] h hs = ap some (omega arith)
gather-characters mag size (d ∷ ds) h hs =
    let next = add64 size (mul64 mag d) in
    let rest = gather-characters (mul64 mag 10) next ds h.1 (omega arith) in
    let wrapped = mod_mul (mag * 10) (value ds) in
    let spread : mag * (d + 10 * value ds) ≡ mag * d + mag * 10 * value ds =
      mul-add mag d (10 * value ds) ∙ ap (λ y. mag * d + y) (sym (mul_assoc mag 10 (value ds))) in
    let digit : b'0' + d - b'0' ≡ d = omega arith in
    let is : is_digit (b'0' + d) ≡ true = ground (arith, h.0) in
    rw (is, digit, rest) (ap some (omega (arith, wrapped, spread)))

AreDigits-reverse_onto :
    (acc ds : List ℕ) → AreDigits acc → AreDigits ds → AreDigits (reverse_onto acc ds)
AreDigits-reverse_onto acc [] h k = h
AreDigits-reverse_onto acc (d ∷ ds) h k = AreDigits-reverse_onto (d ∷ acc) ds (k.0, h) k.1

characters-reverse_onto :
    (acc ds : List ℕ)
    → reverse_onto (characters acc) (characters ds) ≡ characters (reverse_onto acc ds)
characters-reverse_onto acc [] = refl
characters-reverse_onto acc (d ∷ ds) = characters-reverse_onto (d ∷ acc) ds

reverse_onto-append :
    (acc s : Bytes) (c : ℕ) → reverse_onto acc (s ++ c ∷ []) ≡ c ∷ reverse_onto acc s
reverse_onto-append acc [] c = refl
reverse_onto-append acc (x ∷ s) c = reverse_onto-append (x ∷ acc) s c

-- The number that digits stand for, the first one first, after a number.
abbrev pub decimal : ℕ → List ℕ → ℕ
decimal n [] = n
decimal n (d ∷ ds) = decimal (d + 10 * n) ds

value-reverse_onto : (acc ds : List ℕ) → value (reverse_onto acc ds) ≡ decimal (value acc) ds
value-reverse_onto acc [] = refl
value-reverse_onto acc (d ∷ ds) = value-reverse_onto (d ∷ acc) ds

take_all : (n : ℕ) (s : Bytes) → length s ≤ n → take n s ≡ s
take_all zero [] h = refl
take_all zero (x ∷ s) h = absurd (omega arith)
take_all (suc n) [] h = refl
take_all (suc n) (x ∷ s) h = ap (◌∷◌ x) (take_all n s (omega arith))

not_space : (uc unit : ℕ) → unit_of uc ≡ some unit → (uc == b' ') ≡ false
unfolding unit_of
not_space uc unit u = ground (arith, u)

-- SizeStr2Number of decimal digits, the first one first, and a unit that it supports, of at most
-- OPTION_MAX characters together, is the number that the digits stand for times the unit, modulo
-- 2 ^ 64.
pub size_str_to_number-decimal :
    (ds : List ℕ) (uc unit : ℕ)
    → AreDigits ds
    → is_digit uc ≡ false
    → unit_of uc ≡ some unit
    → suc (length (characters ds)) ≤ option_max
    → size_str_to_number (characters ds ++ uc ∷ []) ≡ some (decimal 0 ds * unit % word)
unfolding size_str_to_number number_with_unit
size_str_to_number-decimal ds uc unit h n u l =
    let str = characters ds ++ uc ∷ [] in
    let whole : take option_max str ≡ str =
      take_all option_max str (omega (arith, l, length-append (characters ds) (uc ∷ []))) in
    let back : reverse_onto [] str ≡ uc ∷ characters (reverse_onto [] ds) =
      reverse_onto-append [] (characters ds) uc ∙ ap (◌∷◌ uc) (characters-reverse_onto [] ds) in
    let visible : (uc == b' ') ≡ false = not_space uc unit u in
    let plain : 0 + 1 * decimal 0 ds ≡ decimal 0 ds = omega arith in
    let size =
      gather-characters 1 0 (reverse_onto [] ds) (AreDigits-reverse_onto [] ds tt h)
        (omega arith) in
    rw
      (
        size_str_to_number,
        whole,
        back,
        skip_spaces,
        visible,
        number_with_unit,
        u,
        n,
        size,
        value-reverse_onto [] ds,
      )
      (ap some (ap (λ y. y % word * unit % word) plain ∙ mod_mul (decimal 0 ds) unit))
