-- ===== src/Base/Words.antt =====
-- 64-bit words as native numbers. A signed value is its two's complement pattern.
use Prim.Native.Nat.{ℕ, ◌+◌, ◌-◌, ◌*◌, ◌%◌, ◌^◌, ◌<◌}
use mathlib.Core.Path.{◌≡◌}
use mathlib.Core.Bool.{Bool}
use native.Mathlib.Omega.{arith}
use veri_fs.Base.Tests.{ltb, leb}

abbrev pub word : ℕ
word = 2 ^ 64

-- The first pattern that stands for a negative number.
abbrev pub sign_bit : ℕ
sign_bit = 2 ^ 63

abbrev pub add64 : ℕ → ℕ → ℕ
add64 a b = (a + b) % word

abbrev pub sub64 : ℕ → ℕ → ℕ
sub64 a b = (a + (word - b)) % word

abbrev pub mul64 : ℕ → ℕ → ℕ
mul64 a b = (a * b) % word

abbrev pub is_negative : ℕ → Bool
is_negative a = leb sign_bit a

-- a < b on signed words.
abbrev pub signed_ltb : ℕ → ℕ → Bool
signed_ltb a b = ltb (add64 a sign_bit) (add64 b sign_bit)

pub sub64-add64 : (a b : ℕ) → a < word → b < word → sub64 (add64 a b) b ≡ a
sub64-add64 a b ha hb = omega arith
