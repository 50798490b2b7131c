-- ===== src/Ledger/Always.antt =====
-- What holds of the state that a handler leaves, whatever it replies: rules that follow the code.
use mathlib.Core.Path.{subst}
use veri_fs.Base.{◌≡◌, refl, Option, none, some, Bool, true, false, if◌then◌else◌, ◌>>=◌}
use veri_fs.Fs.{Fs}
use veri_fs.Ledger.View.{same_state}

-- A run that stops leaves no state.
pub data Always {ℓ} {A : Type ℓ} (P : Fs → Type 0) : Option (A × Fs) → Type ℓ where
  stops : Always P none
  leaves : (a : A) (fs : Fs) → P fs → Always P (some (a, fs))

pub Always-bind {ℓ κ} :
    {A : Type ℓ} {B : Type κ} {P : Fs → Type 0} (m : Option A) {f : A → Option (B × Fs)}
    → ((a : A) → m ≡ some a → Always P (f a))
    → Always P (m >>= f)
Always-bind none h = stops
Always-bind (some a) h = h a refl

pub Always-if {ℓ} :
    {A : Type ℓ} {P : Fs → Type 0} (b : Bool) {x y : Option (A × Fs)}
    → Always P x
    → Always P y
    → Always P (if b then x else y)
Always-if true p q = p
Always-if false p q = q

pub Always-elim {ℓ κ} :
    {A : Type ℓ} {B : Type κ} {P : Fs → Type 0} (o : Option A) {x : Option (B × Fs)}
    {f : A → Option (B × Fs)}
    → Always P x
    → ((a : A) → o ≡ some a → Always P (f a))
    → Always P (elim o [ none ↦ x | some a ↦ f a ])
Always-elim none p h = p
Always-elim (some a) p h = h a refl

pub Always-end {ℓ} :
    {A : Type ℓ} {P : Fs → Type 0} (o : Option (A × Fs)) {a : A} {fs : Fs}
    → Always P o
    → o ≡ some (a, fs)
    → P fs
Always-end none w e = cc
Always-end {P = P} (some _) (Always.leaves b gs p) e = subst P (same_state e) p

pub Always-start {ℓ} :
    {A : Type ℓ} {P : Fs → Type 0} (o : Option (A × Fs))
    → ((a : A) (fs : Fs) → o ≡ some (a, fs) → P fs)
    → Always P o
Always-start none h = stops
Always-start (some (a, fs)) h = leaves a fs (h a fs refl)
