-- ===== src/Options.antt =====
-- src/util.cpp: the numbers and the string of mount options, and the vector of arguments.
-- A C string is the list of its characters; `none` is a read before its start.
pub mod Numbers
pub mod Parse
pub mod Room
pub mod Items
pub mod Passed
pub mod Arguments
use veri_fs.Base.{
  ℕ, zero, suc, ◌+◌, ◌-◌, ◌*◌, ◌≡◌, Option, none, some, Bool, true, false, not, ◌&&◌, ◌||◌,
  if◌then◌else◌, List, [], ◌∷◌, ◌++◌, ◌==◌, ltb, leb, length, take, add64, mul64,
}
use veri_fs.Types.{Bytes}

-- OPTION_MAX, the MAX_ARG_STRLEN of Linux.
abbrev pub option_max : ℕ
option_max = 131072

abbrev pub is_digit : ℕ → Bool
is_digit c = leb b'0' c && leb c b'9'

-- The unit that a character stands for; `none` is not supported.
unfoldable pub unit_of : ℕ → Option ℕ
unit_of c =
    if is_digit c
    then some 1
    else if c == b'k' || c == b'K'
    then some 1024
    else if c == b'm' || c == b'M'
    then some 1048576
    else if c == b'g' || c == b'G'
    then some (1048576 * 1024)
    else if c == b't' || c == b'T'
    then some (1048576 * 1048576)
    else if c == b'p' || c == b'P'
    then some (1048576 * 1048576 * 1024)
    else if c == b'e' || c == b'E'
    then some (1048576 * 1048576 * 1048576)
    else none

-- The characters from the last one to the first.
abbrev pub reverse_onto : Bytes → Bytes → Bytes
reverse_onto acc [] = acc
reverse_onto acc (c ∷ s) = reverse_onto (c ∷ acc) s

-- while (*sp == ' ') --sp.
abbrev pub skip_spaces : Bytes → Bytes
skip_spaces [] = []
skip_spaces (c ∷ s) = let rest = skip_spaces s in if c == b' ' then rest else c ∷ s

-- The loop over the digits, backwards; `none` is a character that is no digit.
unfoldable pub gather : ℕ → ℕ → Bytes → Option ℕ
gather magnitude size [] = some size
gather magnitude size (c ∷ s) =
    let rest = gather (mul64 magnitude 10) (add64 size (mul64 magnitude (c - b'0'))) s in
    if is_digit c then rest else none

-- From the unit character on.
unfoldable pub number_with_unit : ℕ → Bytes → ℕ
unfolding unit_of gather
number_with_unit uc before = elim (unit_of uc) [
  | none ↦ 0
  | some unit ↦ elim (gather 1 0 (if is_digit uc then uc ∷ before else before)) [
    | none ↦ 0
    | some size ↦ mul64 size unit
  ]
]

-- SizeStr2Number of the characters before the terminating 0.
unfoldable pub size_str_to_number : Bytes → Option ℕ
unfolding number_with_unit
size_str_to_number str = elim (skip_spaces (reverse_onto [] (take option_max str))) [
  | [] ↦ none
  | uc ∷ before ↦ some (number_with_unit uc before)
]
