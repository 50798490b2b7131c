-- ===== src/Pickle/StateFile/Rules.antt =====
-- How load_verifs2 ends: rules that follow the code.
use mathlib.Core.Path.{subst}
use veri_fs.Base.{◌∙◌, ℕ, ◌≡◌, refl, Bool, true, false, if◌then◌else◌, ℤ}
use veri_fs.Fs.{Fs}
use veri_fs.Pickle.Runs.{Run, done, thrown, stuck, ◌>>=◌, return, throw}
use veri_fs.Pickle.StateFile.{Host, Kernel, call, closing, throw_errno, return_errno}

-- The run leaves the file system.
pub data SameFs {S A : Type 0} (fs : Fs) : Run (Host S) A → Type 0 where
  returns : {a : A} {h : Host S} → h.fs ≡ fs → SameFs fs (done a h)
  throws : {e : ℕ} {h : Host S} → h.fs ≡ fs → SameFs fs (thrown e h)
  stops : SameFs fs stuck

pub record Keeps {S A : Type 0} (f : Host S → Run (Host S) A) : Type 0 where
  pub same : (h : Host S) → SameFs h.fs (f h)

SameFs-follow :
    {S A B : Type 0} (fs : Fs) (r : Run (Host S) A) (g : A → Host S → Run (Host S) B)
    → SameFs fs r
    → ((a : A) → Keeps (g a))
    → SameFs fs (elim r [ done a h ↦ g a h | thrown e h ↦ thrown e h | stuck ↦ stuck ])
SameFs-follow fs (done a h) g (SameFs.returns e) k = subst (λ x. SameFs x (g a h)) e ((k a).same h)
SameFs-follow fs (thrown e h) g (SameFs.throws x) k = throws x
SameFs-follow fs stuck g x k = stops

module _ {S : Type 0} where
  pub Keeps-bind :
      {A B : Type 0} {f : Host S → Run (Host S) A} {g : A → Host S → Run (Host S) B}
      → Keeps f
      → ((a : A) → Keeps (g a))
      → Keeps (f >>= g)
  Keeps-bind {f = f} {g = g} p q = record { same = λ h. SameFs-follow h.fs (f h) g (p.same h) q }

  pub Keeps-call : {A : Type 0} (f : S → A × S) → Keeps (call f)
  Keeps-call f = record { same = λ h. returns refl }

  pub Keeps-return : {A : Type 0} (a : A) → Keeps {S = S} (return a)
  Keeps-return a = record { same = λ h. returns refl }

  pub Keeps-throw : {A : Type 0} (e : ℕ) → Keeps {S = S} {A = A} (throw e)
  Keeps-throw e = record { same = λ h. throws refl }

  pub Keeps-throw_errno : {A : Type 0} (k : Kernel S) → Keeps {A = A} (throw_errno k)
  Keeps-throw_errno k = record { same = λ h. throws refl }

  pub Keeps-return_errno : (k : Kernel S) → Keeps (return_errno k)
  Keeps-return_errno k = record { same = λ h. returns refl }

  pub Keeps-if :
      {A : Type 0} (b : Bool) {f g : Host S → Run (Host S) A}
      → Keeps f
      → Keeps g
      → Keeps (if b then f else g)
  Keeps-if true p q = p
  Keeps-if false p q = q

-- A run that returns has the property of its value and its end, one that throws leaves the file
-- system.
pub data Ends {S A : Type 0} (P : A → Host S → Type 0) (fs : Fs) : Run (Host S) A → Type 0 where
  returned : {a : A} {h : Host S} → P a h → Ends P fs (done a h)
  refused : {e : ℕ} {h : Host S} → h.fs ≡ fs → Ends P fs (thrown e h)
  stopped : Ends P fs stuck

pub record Leads {S A : Type 0} (P : A → Host S → Type 0) (fs : Fs) (f : Host S → Run (Host S) A)
    : Type 0 where
  pub ends : (h : Host S) → h.fs ≡ fs → Ends P fs (f h)

Ends-follow :
    {S A B : Type 0} {P : B → Host S → Type 0} (fs : Fs) (h0 : Host S) (r : Run (Host S) A)
    (g : A → Host S → Run (Host S) B)
    → h0.fs ≡ fs
    → SameFs h0.fs r
    → ((a : A) (h : Host S) → r ≡ done a h → Leads P fs (g a))
    → Ends P fs (elim r [ done a h ↦ g a h | thrown e h ↦ thrown e h | stuck ↦ stuck ])
Ends-follow fs h0 (done a h) g e0 (SameFs.returns e) k = (k a h refl).ends h (e ∙ e0)
Ends-follow fs h0 (thrown e h) g e0 (SameFs.throws x) k = refused (x ∙ e0)
Ends-follow fs h0 stuck g e0 x k = stopped

module _ {S B : Type 0} {P : B → Host S → Type 0} {fs : Fs} where
  pub Leads-bind :
      {A : Type 0} {f : Host S → Run (Host S) A} {g : A → Host S → Run (Host S) B}
      → Keeps f
      → ((a : A) (h h' : Host S) → f h ≡ done a h' → Leads P fs (g a))
      → Leads P fs (f >>= g)
  Leads-bind {f = f} {g = g} p q = record {
    ends = λ h e. Ends-follow fs h (f h) g e (p.same h) (λ a h'. q a h h');
  }

  pub Leads-throw : (e : ℕ) → Leads P fs (throw e)
  Leads-throw e = record { ends = λ h x. refused x }

  pub Leads-throw_errno : (k : Kernel S) → Leads P fs (throw_errno k)
  Leads-throw_errno k = record { ends = λ h x. refused x }

  pub Leads-if :
      (b : Bool) {f g : Host S → Run (Host S) B}
      → Leads P fs f
      → Leads P fs g
      → Leads P fs (if b then f else g)
  Leads-if true p q = p
  Leads-if false p q = q

  pub Leads-closing :
      (k : Kernel S) (fd : ℤ) (f : Host S → Run (Host S) B)
      → ((a : B) (h h' : Host S) → P a h → h'.fs ≡ h.fs → P a h')
      → Leads P fs f
      → Leads P fs (closing k fd f)
  Leads-closing k fd f stable p = record { ends = λ h e. go h (f h) (p.ends h e) }
    where
      go :
          (h : Host S) (r : Run (Host S) B)
          → Ends P fs r
          → Ends P fs (elim r [
            | done a h' ↦ done a (record h' { machine = (k.close fd h'.machine).1 })
            | thrown e h' ↦ thrown e (record h' { machine = (k.close fd h'.machine).1 })
            | stuck ↦ stuck
          ])
      go h (done a h') (Ends.returned x) =
          returned (stable a h' (record h' { machine = (k.close fd h'.machine).1 }) x refl)
      go h (thrown e h') (Ends.refused x) = refused x
      go h stuck x = stopped
