-- ===== src/Pickle/StateFile/Inversion.antt =====
-- What a run that returns has gone through.
use veri_fs.Base.{◌∙◌, sym, ap, ◌≡◌, ◌≢◌, refl, Bool, true, false, if◌then◌else◌, ℤ}
use veri_fs.Pickle.Runs.{Run, done, thrown, stuck, ◌>>=◌}
use veri_fs.Pickle.StateFile.{Host, Kernel, closing}
use veri_fs.Pickle.StateFile.Rules.{SameFs, Keeps}

-- The branch that is taken where the other one cannot have given the result.
pub other_branch :
    {S A : Type 0} (b : Bool) (f g : Host S → Run (Host S) A) (h : Host S) (r : Run (Host S) A)
    → (if b then f else g) h ≡ r
    → f h ≢ r
    → (b ≡ false) × (g h ≡ r)
other_branch true f g h r e n = absurd (n e)
other_branch false f g h r e n = (refl, e)

-- The steps of a run that returns.
pub first_step :
    {S A B : Type 0} (f : Host S → Run (Host S) A) (g : A → Host S → Run (Host S) B) (h h' : Host S)
    (b : B)
    → (f >>= g) h ≡ done b h'
    → (a : A) × (m : Host S) × (f h ≡ done a m) × (g a m ≡ done b h')
first_step {S = S} {A = A} f g h h' b e = go (f h) refl e
  where
    go :
        (r : Run (Host S) A)
        → f h ≡ r
        → elim r [ done a t ↦ g a t | thrown n t ↦ thrown n t | stuck ↦ stuck ] ≡ done b h'
        → (a : A) × (m : Host S) × (f h ≡ done a m) × (g a m ≡ done b h')
    go (done a t) q x = (a, t, q, x)
    go (thrown n t) q x = absurd (cc)
    go stuck q x = absurd (cc)

pub returned_value : {S A : Type 0} {a b : A} {h h' : Host S} → done a h ≡ done b h' → a ≡ b
returned_value {S} {A} {a} e = ap value e
  where
    value : Run (Host S) A → A
    value r = elim r [ done x t ↦ x | _ ↦ a ]

pub returned_host : {S A : Type 0} {a b : A} {h h' : Host S} → done a h ≡ done b h' → h ≡ h'
returned_host {S} {A} {h = h} e = ap host e
  where
    host : Run (Host S) A → Host S
    host r = elim r [ done x t ↦ t | _ ↦ h ]

-- A step that keeps the file system and returns.
pub Keeps-done :
    {S A : Type 0} {f : Host S → Run (Host S) A} (h h' : Host S) (a : A)
    → Keeps f
    → f h ≡ done a h'
    → h'.fs ≡ h.fs
Keeps-done {S = S} {A = A} {f = f} h h' a k e = go (f h) (k.same h) e
  where
    go : (r : Run (Host S) A) → SameFs h.fs r → r ≡ done a h' → h'.fs ≡ h.fs
    go (done b t) (SameFs.returns x) q = ap (λ y. y.fs) (sym (returned_host q)) ∙ x
    go (thrown n t) x q = absurd (cc)
    go stuck x q = absurd (cc)

-- A descriptor is closed behind the step.
pub closing-done :
    {S A : Type 0} (k : Kernel S) (fd : ℤ) (f : Host S → Run (Host S) A) (h h' : Host S) (a : A)
    → closing k fd f h ≡ done a h'
    → (t : Host S) × (f h ≡ done a t) × (record t { machine = (k.close fd t.machine).1 } ≡ h')
closing-done {S = S} {A = A} k fd f h h' a e = go (f h) refl e
  where
    go :
        (r : Run (Host S) A)
        → f h ≡ r
        → elim r [
          | done b t ↦ done b (record t { machine = (k.close fd t.machine).1 })
          | thrown n t ↦ thrown n (record t { machine = (k.close fd t.machine).1 })
          | stuck ↦ stuck
        ]
          ≡ done a h'
        → (t : Host S) × (f h ≡ done a t) × (record t { machine = (k.close fd t.machine).1 } ≡ h')
    go (done b t) q x = (t, q ∙ ap (λ y. done y t) (returned_value x), returned_host x)
    go (thrown n t) q x = absurd (cc)
    go stuck q x = absurd (cc)
