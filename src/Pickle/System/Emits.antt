-- ===== src/Pickle/System/Emits.antt =====
-- A step that writes certain bytes, on a machine whose writes are whole and whose hash works.
use mathlib.Core.Path.{subst}
use veri_fs.Base.{
  ◌∙◌, sym, ap, append_assoc, append-nil, ℕ, ◌≡◌, refl, true, false, List, [], ◌++◌, length, arith,
  ltb,
}
use veri_fs.Types.{Bytes}
use veri_fs.Pickle.Runs.{Run, done, ◌>>=◌, return, bind-done, Device}
use veri_fs.Pickle.System.{Pickler, write_to_file, feed_hash, write_and_hash}

-- Every write puts all of its bytes at the end of the file, and the hash takes all bytes.
pub record IsWhole {S : Type 0} (d : Device S) (content : S → Bytes) : Type 0 where
  pub counted : (b : Bytes) (s : S) → (d.write b s).count ≡ length b
  pub appended : (b : Bytes) (s : S) → content (d.write b s).after ≡ content s ++ b
  pub fed : (b : Bytes) (s : S) → (d.feed b s).0 ≡ true
  pub kept : (b : Bytes) (s : S) → content (d.feed b s).1 ≡ content s

-- What is seen of a machine, and what bytes that are written and hashed make of it.
pub record Sink (S : Type 0) : Type 1 where
  pub View : Type 0
  pub At : S → View → Type 0
  pub add : View → Bytes → View

-- Where something is seen, writes are whole and hashed.
pub record IsSteady {S : Type 0} (d : Device S) (v : Sink S) : Type 0 where
  pub counted : (b : Bytes) (s : S) (x : v.View) → v.At s x → (d.write b s).count ≡ length b
  pub fed : (b : Bytes) (s : S) (x : v.View) → v.At s x → (d.feed b (d.write b s).after).0 ≡ true
  pub grown :
      (b : Bytes) (s : S) (x : v.View)
      → v.At s x
      → v.At (d.feed b (d.write b s).after).1 (v.add x b)
  pub add_nil : (x : v.View) → v.add x [] ≡ x
  pub add_append : (x : v.View) (b c : Bytes) → v.add (v.add x b) c ≡ v.add x (b ++ c)

-- The bytes of the file.
abbrev pub bytes_of : {S : Type 0} → (S → Bytes) → Sink S
bytes_of content = record { View = Bytes; At = λ s x. content s ≡ x; add = λ x b. x ++ b }

pub IsWhole-IsSteady :
    {S : Type 0} (d : Device S) (content : S → Bytes)
    → IsWhole d content
    → IsSteady d (bytes_of content)
IsWhole-IsSteady d content whole = record {
  counted = λ b s x h. whole.counted b s;
  fed = λ b s x h. whole.fed b (d.write b s).after;
  grown = λ b s x h. whole.kept b (d.write b s).after ∙ whole.appended b s ∙ ap (λ y. y ++ b) h;
  add_nil = append-nil;
  add_append = append_assoc;
}

-- The step returns, has added the bytes, and leaves the queue.
abbrev pub Emits : {S : Type 0} → Sink S → (Pickler S → Run (Pickler S) (Unit {0})) → Bytes → Type 0
Emits {S = S} v f bytes =
    (p : Pickler S) (x : v.View)
    → v.At p.machine x
    → (s : S) × (f p ≡ done tt (record p { machine = s })) × v.At s (v.add x bytes)

-- The same for one queue, which the step leaves.
pub record EmitsAt {S : Type 0} (v : Sink S) (q : List ℕ)
    (f : Pickler S → Run (Pickler S) (Unit {0})) (bytes : Bytes) : Type 0 where
  pub from :
      (s : S) (x : v.View)
      → v.At s x
      → (s' : S) × (f (record { queue = q; machine = s })
          ≡ done tt (record { queue = q; machine = s' }))
        × v.At s' (v.add x bytes)

module _ {S : Type 0} (d : Device S) (v : Sink S) (steady : IsSteady d v) where
  pub return-Emits : Emits v (return tt) []
  return-Emits p x h = (p.machine, refl, subst (v.At p.machine) (sym (steady.add_nil x)) h)

  pub Emits-then :
      (f g : Pickler S → Run (Pickler S) (Unit {0})) (b c : Bytes)
      → Emits v f b
      → Emits v g c
      → Emits v (f >>= λ _. g) (b ++ c)
  Emits-then f g b c hf hg p x h =
      let (s, e, w) = hf p x h in
      let (s', e', w') = hg (record p { machine = s }) (v.add x b) w in
      (
        s',
        bind-done f (λ _. g) p (record p { machine = s }) tt e ∙ e',
        subst (v.At s') (steady.add_append x b c) w',
      )

  pub write_and_hash-Emits : (bytes : Bytes) → Emits v (write_and_hash d bytes) bytes
  unfolding write_and_hash write_to_file feed_hash
  write_and_hash-Emits bytes p x h =
      let w = d.write bytes p.machine in
      let enough : ltb w.count (length bytes) ≡ false =
        ground (arith, steady.counted bytes p.machine x h) in
      (
        (d.feed bytes w.after).1,
        rw (write_and_hash, ◌>>=◌, write_to_file, feed_hash, enough, steady.fed bytes p.machine x h)
            refl,
        steady.grown bytes p.machine x h,
      )

  pub EmitsAt-then :
      (q : List ℕ) (f g : Pickler S → Run (Pickler S) (Unit {0})) (b c : Bytes)
      → EmitsAt v q f b
      → EmitsAt v q g c
      → EmitsAt v q (f >>= λ _. g) (b ++ c)
  EmitsAt-then q f g b c hf hg = record {
    from = λ s x h.
        let (s1, e, w) = hf.from s x h in
        let (s2, e', w') = hg.from s1 (v.add x b) w in
        (
          s2,
          bind-done f (λ _. g) (record { queue = q; machine = s })
                (record { queue = q; machine = s1 }) tt e
              ∙ e',
          subst (v.At s2) (steady.add_append x b c) w',
        );
  }
