-- ===== src/Pickle/System/Queues.antt =====
-- The loops over inode numbers: the queue is turned round once, and its numbers are loaded again.
use mathlib.Core.Path.{subst}
use veri_fs.Base.{
  ◌∙◌, sym, ap, append_assoc, append-nil, ℕ, suc, ◌<◌, ◌≡◌, refl, List, [], ◌∷◌, ◌++◌, length, word,
}
use veri_fs.Types.{Bytes}
use veri_fs.Pickle.{word_bytes, next_word}
use veri_fs.Pickle.Runs.{done, ◌>>=◌, bind-done, modify, Device}
use veri_fs.Pickle.System.{Pickler, write_and_hash, write_deleted, write_stored_deleted}
use veri_fs.Pickle.System.Loading.{Loader, reading, load_numbers}
use veri_fs.Pickle.System.Emits.{
  Sink, IsSteady, Emits, EmitsAt, return-Emits, Emits-then, write_and_hash-Emits,
}
use veri_fs.Pickle.System.Slots.{reading-next_word}

abbrev pub numbers_bytes : List ℕ → Bytes
numbers_bytes [] = []
numbers_bytes (ino ∷ q) = word_bytes ino ++ numbers_bytes q

abbrev pub AreWords : List ℕ → Type 0
AreWords [] = Unit {0}
AreWords (ino ∷ q) = (ino < word) × AreWords q

module _ {S : Type 0} (d : Device S) (v : Sink S) (whole : IsSteady d v) where
  -- Some steps of the loop over the queue.
  write_deleted-rotates :
      (xs ys : List ℕ) (s : S) (x : v.View)
      → v.At s x
      → (s' : S) × (write_deleted d (length xs) (record { queue = xs ++ ys; machine = s })
          ≡ done tt (record { queue = ys ++ xs; machine = s' }))
        × v.At s' (v.add x (numbers_bytes xs))
  unfolding write_deleted
  write_deleted-rotates [] ys s x h = (
    s,
    ap (λ q. done tt (record { queue = q; machine = s })) (sym (append-nil ys)),
    subst (v.At s) (sym (whole.add_nil x)) h,
  )
  write_deleted-rotates (ino ∷ xs) ys s x h =
      let p : Pickler S = record { queue = ino ∷ xs ++ ys; machine = s } in
      let (s1, e, w) = write_and_hash-Emits d v whole (word_bytes ino) p x h in
      let (s2, e', w') =
        write_deleted-rotates xs (ys ++ ino ∷ []) s1 (v.add x (word_bytes ino)) w in
      (
        s2,
        (rw (write_deleted, e, append_assoc xs ys (ino ∷ []), e', append_assoc ys (ino ∷ []) xs)
            refl),
        subst (v.At s2) (whole.add_append x (word_bytes ino) (numbers_bytes xs)) w',
      )

  -- The whole loop leaves the queue as it was.
  pub write_deleted-same : (q : List ℕ) → EmitsAt v q (write_deleted d (length q)) (numbers_bytes q)
  write_deleted-same q = record {
    from = λ s x h.
        let (s', e, w) = write_deleted-rotates q [] s x h in
        (
          s',
          ap (λ k. write_deleted d (length q) (record { queue = k; machine = s }))
                (sym (append-nil q))
              ∙ e,
          w,
        );
  }

  pub write_stored_deleted-Emits :
      (q : List ℕ) → Emits v (write_stored_deleted d q) (numbers_bytes q)
  unfolding write_stored_deleted
  write_stored_deleted-Emits [] = return-Emits d v whole
  write_stored_deleted-Emits (ino ∷ q) =
      Emits-then d v whole (write_and_hash d (word_bytes ino)) (write_stored_deleted d q)
        (word_bytes ino) (numbers_bytes q) (write_and_hash-Emits d v whole (word_bytes ino))
        (write_stored_deleted-Emits q)

abbrev pub push_numbers : (ℕ → Loader → Loader) → List ℕ → Loader → Loader
push_numbers push [] t = t
push_numbers push (ino ∷ q) t = push_numbers push q (push ino t)

pub load_numbers-bytes :
    (push : ℕ → Loader → Loader)
    (keeps : (ino : ℕ) (t : Loader) (p : Bytes)
      → push ino (record t { ptr = p }) ≡ record (push ino t) { ptr = p })
    (q : List ℕ) (rest : Bytes) (t : Loader)
    → AreWords q
    → load_numbers push (length q) (record t { ptr = numbers_bytes q ++ rest })
      ≡ done tt (record (push_numbers push q t) { ptr = rest })
unfolding load_numbers
load_numbers-bytes push keeps [] rest t h = refl
load_numbers-bytes push keeps (ino ∷ q) rest t h =
    let tail = numbers_bytes q ++ rest in
    ap (λ p. load_numbers push (suc (length q)) (record t { ptr = p }))
      (append_assoc (word_bytes ino) (numbers_bytes q) rest)
    ∙ bind-done (reading next_word) (λ n. modify (push n) >>= λ _. load_numbers push (length q))
        (record t { ptr = word_bytes ino ++ tail }) (record t { ptr = tail }) ino
        (reading-next_word ino tail t h.0)
    ∙ ap (load_numbers push (length q)) (keeps ino t tail)
    ∙ load_numbers-bytes push keeps q rest (push ino t) h.1
