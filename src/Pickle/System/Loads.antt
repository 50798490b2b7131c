-- ===== src/Pickle/System/Loads.antt =====
-- What the steps of the loops over inodes and inode numbers leave in the loader.
use veri_fs.Base.{
  ◌∙◌, sym, ap, append_assoc, append-nil, ℕ, ◌<◌, ◌≡◌, none, some, List, [], ◌∷◌, ◌++◌, length,
  word,
}
use veri_fs.Types.{Bytes, Inode}
use veri_fs.Memory.{Allocator}
use veri_fs.Fs.{Table}
use veri_fs.Pickle.{Image, IsImage, Layout, word_bytes, next_word}
use veri_fs.Pickle.Runs.{Run, done, ◌>>=◌, bind-done, modify}
use veri_fs.Pickle.System.Loading.{
  Loader, reading, next_image, load_slots, load_numbers, push_inode, push_cr_inode, push_deleted,
  push_cr_deleted,
}
use veri_fs.Pickle.System.Slots.{
  AreStored, table_bytes, loaded_table, push_all, load_slots-pickled, reading-next_word,
  reading-next_image,
}
use veri_fs.Pickle.System.Queues.{numbers_bytes, AreWords, push_numbers, load_numbers-bytes}

-- From one loader the step reads the bytes, returns the value and leaves another one.
pub record Loads {A : Type 0} (f : Loader → Run Loader A) (bytes : Bytes) (a : A) (t u : Loader)
    : Type 0 where
  pub before :
      (rest : Bytes) → f (record t { ptr = bytes ++ rest }) ≡ done a (record u { ptr = rest })

pub Loads-then :
    {A B : Type 0} (f : Loader → Run Loader A) (g : A → Loader → Run Loader B) (b c : Bytes) (a : A)
    (x : B) (t u v : Loader)
    → Loads f b a t u
    → Loads (g a) c x u v
    → Loads (f >>= g) (b ++ c) x t v
Loads-then f g b c a x t u v hf hg = record {
  before = λ rest.
      ap (λ p. (f >>= g) (record t { ptr = p })) (append_assoc b c rest)
      ∙ bind-done f g (record t { ptr = b ++ (c ++ rest) }) (record u { ptr = c ++ rest }) a
          (hf.before (c ++ rest))
      ∙ hg.before rest;
}

-- The same where the second step does not look at the first one's value.
pub Loads-next :
    {A B : Type 0} (f : Loader → Run Loader A) (g : Loader → Run Loader B) (b c : Bytes) (a : A)
    (x : B) (t u v : Loader)
    → Loads f b a t u
    → Loads g c x u v
    → Loads (f >>= λ _. g) (b ++ c) x t v
Loads-next f g b c a x t u v hf hg = Loads-then f (λ _. g) b c a x t u v hf hg

pub next_word-Loads :
    (x : ℕ) (t : Loader) → x < word → Loads (reading next_word) (word_bytes x) x t t
next_word-Loads x t h = record { before = λ rest. reading-next_word x rest t h }

pub next_image-Loads :
    {A : Type 0} (image : Image A) (a : A) (t : Loader)
    → IsImage image a
    → Loads (reading (next_image image)) (image.to_bytes a) a t t
next_image-Loads image a t h = record { before = λ rest. reading-next_image image a rest t h }

pub modify-Loads :
    (f : Loader → Loader) (t : Loader)
    → ((rest : Bytes) → f (record t { ptr = rest }) ≡ record (f t) { ptr = rest })
    → Loads (modify f) [] tt t (f t)
modify-Loads f t h = record { before = λ rest. ap (λ (u : Loader). done tt u) (h rest) }

leaves :
    (rest : Bytes) {u v : Loader}
    → u ≡ v
    → done tt (record u { ptr = rest }) ≡ done tt (record v { ptr = rest })
leaves rest e = ap (λ (w : Loader). done tt (record w { ptr = rest })) e

pub load_slots-Loads :
    (l : Layout) (m : Allocator) (push : Inode → Loader → Loader)
    (keeps : (i : Inode) (t : Loader) (p : Bytes)
      → push i (record t { ptr = p }) ≡ record (push i t) { ptr = p })
    (slots : Table) (t u : Loader)
    → AreStored l m slots
    → push_all push (loaded_table slots) t ≡ u
    → Loads (load_slots l m push (length slots)) (table_bytes l slots) tt t u
load_slots-Loads l m push keeps slots t u h e = record {
  before = λ rest. load_slots-pickled l m push keeps slots rest t h ∙ leaves rest e;
}

pub load_numbers-Loads :
    (push : ℕ → Loader → Loader)
    (keeps : (ino : ℕ) (t : Loader) (p : Bytes)
      → push ino (record t { ptr = p }) ≡ record (push ino t) { ptr = p })
    (q : List ℕ) (t u : Loader)
    → AreWords q
    → push_numbers push q t ≡ u
    → Loads (load_numbers push (length q)) (numbers_bytes q) tt t u
load_numbers-Loads push keeps q t u h e = record {
  before = λ rest. load_numbers-bytes push keeps q rest t h ∙ leaves rest e;
}

-- The inodes that a loop has pushed.
pub push_all-inodes :
    (s : Table) (t : Loader)
    → push_all push_inode (loaded_table s) t
      ≡ record t { fs = record t.fs { inodes = t.fs.inodes ++ loaded_table s } }
unfolding loaded_table
push_all-inodes [] t =
    ap (λ x. record t { fs = record t.fs { inodes = x } }) (sym (append-nil t.fs.inodes))
push_all-inodes (none ∷ s) t = push_all-inodes s t
push_all-inodes (some i ∷ s) t =
    push_all-inodes s _
    ∙ ap (λ x. record t { fs = record t.fs { inodes = x } }) (append_assoc t.fs.inodes _ _)

pub push_all-cr_inodes :
    (s : Table) (t : Loader)
    → push_all push_cr_inode (loaded_table s) t
      ≡ record t { cr_inodes = t.cr_inodes ++ loaded_table s }
unfolding loaded_table
push_all-cr_inodes [] t = ap (λ x. record t { cr_inodes = x }) (sym (append-nil t.cr_inodes))
push_all-cr_inodes (none ∷ s) t = push_all-cr_inodes s t
push_all-cr_inodes (some i ∷ s) t =
    push_all-cr_inodes s _ ∙ ap (λ x. record t { cr_inodes = x }) (append_assoc t.cr_inodes _ _)

pub push_numbers-deleted :
    (q : List ℕ) (t : Loader)
    → push_numbers push_deleted q t
      ≡ record t { fs = record t.fs { deleted_inodes = t.fs.deleted_inodes ++ q } }
push_numbers-deleted [] t =
    ap (λ x. record t { fs = record t.fs { deleted_inodes = x } })
      (sym (append-nil t.fs.deleted_inodes))
push_numbers-deleted (ino ∷ q) t =
    push_numbers-deleted q _
    ∙ ap (λ x. record t { fs = record t.fs { deleted_inodes = x } })
        (append_assoc t.fs.deleted_inodes _ _)

pub push_numbers-cr_deleted :
    (q : List ℕ) (t : Loader)
    → push_numbers push_cr_deleted q t ≡ record t { cr_deleted_inodes = t.cr_deleted_inodes ++ q }
push_numbers-cr_deleted [] t =
    ap (λ x. record t { cr_deleted_inodes = x }) (sym (append-nil t.cr_deleted_inodes))
push_numbers-cr_deleted (ino ∷ q) t =
    push_numbers-cr_deleted q _
    ∙ ap (λ x. record t { cr_deleted_inodes = x }) (append_assoc t.cr_deleted_inodes _ _)
