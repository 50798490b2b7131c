-- ===== src/Pickle/Words.antt =====
-- What is written is read back, whatever follows it.
use veri_fs.Base.{
  ◌∙◌, sym, ap, append-nil, ℕ, zero, suc, ◌-◌, ◌/◌, replicate, ◌^◌, ◌<◌, ◌≡◌, ◌≤◌, length-replicate,
  refl, some, [], ◌∷◌, ◌++◌, arith, length, take, drop, word, length-append,
}
use veri_fs.Types.{Bytes}
use veri_fs.Memory.{Allocator, junk_bytes, memmove, read_bytes}
use veri_fs.Pickle.{le_bytes, le_value, word_bytes, next, next_word}

pub take-append : (xs ys : Bytes) → take (length xs) (xs ++ ys) ≡ xs
take-append [] ys = refl
take-append (x ∷ xs) ys = ap (◌∷◌ x) (take-append xs ys)

pub drop-append : (xs ys : Bytes) → drop (length xs) (xs ++ ys) ≡ ys
drop-append [] ys = refl
drop-append (x ∷ xs) ys = drop-append xs ys

pub next-append : (xs ys : Bytes) → next (length xs) (xs ++ ys) ≡ some (xs, ys)
unfolding next
next-append xs ys = ground (arith, length-append xs ys, take-append xs ys, drop-append xs ys)

length-le_bytes : (n x : ℕ) → length (le_bytes n x) ≡ n
length-le_bytes zero x = refl
length-le_bytes (suc n) x = ap suc (length-le_bytes n _)

pub length-word_bytes : (x : ℕ) → length (word_bytes x) ≡ 8
unfolding word_bytes
length-word_bytes x = length-le_bytes 8 x

le_value-le_bytes : (n x : ℕ) → x < 256 ^ n → le_value (le_bytes n x) ≡ x
le_value-le_bytes zero x h = omega (arith, h)
le_value-le_bytes (suc n) x h = omega (arith, le_value-le_bytes n (x / 256) (omega (arith, h)))

pub next_word-append :
    (x : ℕ) (ys : Bytes) → x < word → next_word (word_bytes x ++ ys) ≡ some (x, ys)
unfolding next_word word_bytes
next_word-append x ys h =
    let n : next 8 (word_bytes x ++ ys) ≡ some (word_bytes x, ys) =
      ap (λ k. next k (word_bytes x ++ ys)) (sym (length-word_bytes x))
      ∙ next-append (word_bytes x) ys in
    rw (n, le_value-le_bytes 8 x h) refl

-- A read at an offset, of what was put there.
pub read_bytes-append :
    (a xs ys : Bytes) → read_bytes (a ++ (xs ++ ys)) (length a) (length xs) ≡ some xs
unfolding read_bytes
read_bytes-append a xs ys =
    let at_a : take (length xs) (drop (length a) (a ++ (xs ++ ys))) ≡ xs =
      ap (take (length xs)) (drop-append a (xs ++ ys)) ∙ take-append xs ys in
    ground (arith, at_a, length-append a (xs ++ ys), length-append xs ys)

drop-replicate : (k n z : ℕ) → drop k (replicate n z) ≡ replicate (n - k) z
drop-replicate zero n z = ground arith
drop-replicate (suc k) zero z = ground arith
drop-replicate (suc k) (suc n) z = ground (arith, drop-replicate k n z)

-- A copy to the start of a zeroed buffer.
pub memmove-replicate :
    (n : ℕ) (bytes : Bytes)
    → length bytes ≤ n
    → memmove (replicate n 0) 0 bytes ≡ some (bytes ++ replicate (n - length bytes) 0)
unfolding memmove
memmove-replicate n bytes h =
    let z : ℕ = 0 in ground (arith, length-replicate n z, drop-replicate (length bytes) n z)

-- A copy over the whole of a fresh buffer.
length-junk_bytes : (m : Allocator) (k n : ℕ) → length (junk_bytes m k n) ≡ n
length-junk_bytes m k zero = refl
length-junk_bytes m k (suc n) = ap suc (length-junk_bytes m (suc k) n)

drop-junk_bytes : (m : Allocator) (k n : ℕ) → drop n (junk_bytes m k n) ≡ []
drop-junk_bytes m k zero = refl
drop-junk_bytes m k (suc n) = drop-junk_bytes m (suc k) n

pub memmove-junk_bytes :
    (m : Allocator) (bytes : Bytes) → memmove (junk_bytes m 0 (length bytes)) 0 bytes ≡ some bytes
unfolding memmove
memmove-junk_bytes m bytes = ground (
  arith,
  length-junk_bytes m 0 (length bytes),
  drop-junk_bytes m 0 (length bytes),
  append-nil bytes,
)
