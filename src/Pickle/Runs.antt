-- ===== src/Pickle/Runs.antt =====
-- Runs of the functions of src/pickle.cpp: they end, throw a pickle_error, or are stuck at a read
-- out of bounds. What write, lseek and the hash do to the machine is a parameter.
use veri_fs.Base.{◌≡◌, refl, ℕ, Bool, ℤ}
use veri_fs.Types.{Bytes}

pub data Run (T A : Type 0) : Type 0 where
  done : A → T → Run T A
  thrown : ℕ → T → Run T A
  stuck : Run T A

infixl 5 ◌>>=◌
abbrev pub ◌>>=◌ : {T A B : Type 0} → (T → Run T A) → (A → T → Run T B) → T → Run T B
(f >>= g) t = elim (f t) [ done a t' ↦ g a t' | thrown e t' ↦ thrown e t' | stuck ↦ stuck ]

pub bind-done :
    {T A B : Type 0} (f : T → Run T A) (g : A → T → Run T B) (t t' : T) (a : A)
    → f t ≡ done a t'
    → (f >>= g) t ≡ g a t'
bind-done f g t t' a e = rw (e, ◌>>=◌) refl

abbrev pub return : {T A : Type 0} → A → T → Run T A
return a t = done a t

-- throw pickle_error.
abbrev pub throw : {T A : Type 0} → ℕ → T → Run T A
throw e t = thrown e t

abbrev pub modify : {T : Type 0} → (T → T) → T → Run T (Unit {0})
modify f t = done tt (f t)

-- What a call of write returns, as a size_t (-1 is 2 ^ 64 - 1), errno after it where it was 0
-- before, and the machine.
pub record Written (S : Type 0) : Type 0 where
  pub count : ℕ
  pub error : ℕ
  pub after : S

-- The calls on the file descriptor and the hash context. An update of the hash says whether it
-- succeeded; the second seek is lseek(fd, off, SEEK_SET), the first lseek(fd, 0, SEEK_CUR).
pub record Device (S : Type 0) : Type 0 where
  pub write : Bytes → S → Written S
  pub feed : Bytes → S → Bool × S
  pub tell : S → ℤ
  pub seek : ℤ → S → ℤ × S
