-- ===== src/Pickle/System/Slots.antt =====
-- The loops over inodes: what is written is loaded again, without the null pointers.
use veri_fs.Base.{
  ◌∙◌, sym, ap, append_assoc, ℕ, suc, ◌<◌, ◌≡◌, refl, none, some, true, false, Option, [], ◌∷◌,
  ◌++◌, length, arith, word, ◌==◌,
}
use veri_fs.Types.{Bytes, Inode}
use veri_fs.Memory.{Allocator}
use veri_fs.Fs.{Table}
use veri_fs.Pickle.{Image, IsImage, InodeState, Layout, word_bytes, next, next_word}
use veri_fs.Pickle.Words.{next-append, next_word-append, drop-append, memmove-junk_bytes}
use veri_fs.Pickle.Methods.{pickle, get_pickled_size}
use veri_fs.Pickle.Methods.RoundTrip.{IsPicklable, blank, reloaded, load-pickle, pickle_succeeds}
use veri_fs.Pickle.Runs.{done, ◌>>=◌, bind-done, Device}
use veri_fs.Pickle.System.{pickled_data, write_and_hash, write_slot, write_slots}
use veri_fs.Pickle.System.Loading.{
  Loader, reading, next_image, class_of_mode, load_object, load_slot, load_slots,
}
use veri_fs.Pickle.System.Emits.{
  Sink, IsSteady, Emits, return-Emits, Emits-then, write_and_hash-Emits,
}

pub reading-next_word :
    (x : ℕ) (rest : Bytes) (t : Loader)
    → x < word
    → reading next_word (record t { ptr = word_bytes x ++ rest }) ≡ done x (record t { ptr = rest })
reading-next_word x rest t h = rw (reading, next_word-append x rest h) refl

pub reading-next_image :
    {A : Type 0} (image : Image A) (a : A) (rest : Bytes) (t : Loader)
    → IsImage image a
    → reading (next_image image) (record t { ptr = image.to_bytes a ++ rest })
      ≡ done a (record t { ptr = rest })
unfolding next_image
reading-next_image image a rest t h =
    let n : next image.size (image.to_bytes a ++ rest) ≡ some (image.to_bytes a, rest) =
      ap (λ k. next k (image.to_bytes a ++ rest)) (sym h.sized)
      ∙ next-append (image.to_bytes a) rest in
    rw (reading, next_image, n, h.copied) refl

-- Its bytes, where Pickle gives any.
abbrev pub pickled : Layout → Inode → Bytes
pickled l i = elim (pickle l i) [ none ↦ [] | some b ↦ b ]

-- A slot whose inode is picklable to fewer than 2 ^ 64 bytes, for which there is memory, and of the
-- class that its mode stands for.
pub data IsStored (l : Layout) (m : Allocator) : Option Inode → Type 0 where
  absent : IsImage l.inode_state (record { exist = false; mode = 0 }) → IsStored l m none
  present :
      {i : Inode}
      → IsImage l.inode_state (record { exist = true; mode = i.st_mode })
      → IsPicklable l m i
      → length (pickled l i) < word
      → m.grants (get_pickled_size l i) ≡ true
      → class_of_mode i.st_mode ≡ some (blank i.node)
      → IsStored l m (some i)

pub data AreStored (l : Layout) (m : Allocator) : Table → Type 0 where
  end : AreStored l m []
  next_slot :
      {slot : Option Inode} {t : Table}
      → IsStored l m slot
      → AreStored l m t
      → AreStored l m (slot ∷ t)

-- The table that is loaded: null pointers are left out, and the slots behind them move up.
unfoldable pub loaded_table : Table → Table
loaded_table [] = []
loaded_table (none ∷ t) = loaded_table t
loaded_table (some i ∷ t) = some (reloaded i) ∷ loaded_table t

-- The bytes of an inode that can be stored, as the buffer of GetPickledSize bytes has them.
stored_bytes :
    (l : Layout) (m : Allocator) (i : Inode)
    → IsPicklable l m i
    → length (pickled l i) < word
    → (pickle l i ≡ some (pickled l i))
      × (0 < length (pickled l i))
      × (pickled_data l m i ≡ some (pickled l i))
unfolding pickled_data
stored_bytes l m i h w =
    let (b, e, positive, size) = pickle_succeeds l m i h in
    let same : pickled l i ≡ b = rw (pickled, e) refl in
    let fits : get_pickled_size l i ≡ length b = omega (arith, size, w, ap length same) in
    (
      e ∙ ap some (sym same),
      omega (arith, positive, ap length same),
      rw (pickled_data, e, fits, memmove-junk_bytes m b) (ap some (sym same)),
    )

-- The bytes of a slot.
abbrev pub slot_bytes : Layout → Option Inode → Bytes
slot_bytes l none = l.inode_state.to_bytes (record { exist = false; mode = 0 })
slot_bytes l (some i) =
    l.inode_state.to_bytes (record { exist = true; mode = i.st_mode }) ++ pickled l i

abbrev pub table_bytes : Layout → Table → Bytes
table_bytes l [] = []
table_bytes l (slot ∷ t) = slot_bytes l slot ++ table_bytes l t

module _ {S : Type 0} (d : Device S) (v : Sink S) (whole : IsSteady d v) (l : Layout)
    (m : Allocator) where
  write_slot-Emits :
      (slot : Option Inode)
      → IsStored l m slot
      → Emits v (write_slot d l m slot) (slot_bytes l slot)
  unfolding write_slot
  write_slot-Emits none h = write_and_hash-Emits d v whole (slot_bytes l none)
  write_slot-Emits (some i) (IsStored.present image h w g c) =
      rw (g, (stored_bytes l m i h w).2)
        (Emits-then d v whole
          (write_and_hash d (l.inode_state.to_bytes (record { exist = true; mode = i.st_mode })))
          (write_and_hash d (pickled l i))
          (l.inode_state.to_bytes (record { exist = true; mode = i.st_mode })) (pickled l i)
          (write_and_hash-Emits d v whole
            (l.inode_state.to_bytes (record { exist = true; mode = i.st_mode })))
          (write_and_hash-Emits d v whole (pickled l i)))

  pub write_slots-Emits :
      (t : Table) → AreStored l m t → Emits v (write_slots d l m t) (table_bytes l t)
  unfolding write_slots
  write_slots-Emits [] h = return-Emits d v whole
  write_slots-Emits (slot ∷ t) (AreStored.next_slot h hs) =
      Emits-then d v whole (write_slot d l m slot) (write_slots d l m t) (slot_bytes l slot)
        (table_bytes l t) (write_slot-Emits slot h) (write_slots-Emits t hs)

-- push of every inode of a table.
abbrev pub push_all : (Inode → Loader → Loader) → Table → Loader → Loader
push_all push [] t = t
push_all push (none ∷ rest) t = push_all push rest t
push_all push (some i ∷ rest) t = push_all push rest (push i t)

module _ (l : Layout) (m : Allocator) (push : Inode → Loader → Loader)
    (keeps : (i : Inode) (t : Loader) (p : Bytes)
      → push i (record t { ptr = p }) ≡ record (push i t) { ptr = p }) where
  load_object-pickled :
      (i : Inode) (rest : Bytes) (t : Loader)
      → IsStored l m (some i)
      → load_object l m push i.st_mode (record t { ptr = pickled l i ++ rest })
        ≡ done tt (record (push (reloaded i) t) { ptr = rest })
  unfolding load_object
  load_object-pickled i rest t (IsStored.present image h w g c) =
      let (e, positive, _) = stored_bytes l m i h w in
      let nonzero : (length (pickled l i) == 0) ≡ false = ground arith in
      rw
        (
          load_object,
          c,
          load-pickle l m i (pickled l i) rest h e w,
          nonzero,
          keeps (reloaded i) t (pickled l i ++ rest),
          drop-append (pickled l i) rest,
        )
        refl

  load_slot-pickled :
      (slot : Option Inode) (n : ℕ) (rest : Bytes) (t : Loader)
      → IsStored l m slot
      → load_slots l m push (suc n) (record t { ptr = slot_bytes l slot ++ rest })
        ≡ load_slots l m push n (record (push_all push (loaded_table (slot ∷ [])) t) { ptr = rest })
  unfolding load_slots load_slot loaded_table
  load_slot-pickled none n rest t (IsStored.absent image) =
      let info : InodeState = record { exist = false; mode = 0 } in
      bind-done (reading (next_image l.inode_state))
        (λ iinfo. load_slot l m push iinfo >>= λ _. load_slots l m push n)
        (record t { ptr = l.inode_state.to_bytes info ++ rest }) (record t { ptr = rest }) info
        (reading-next_image l.inode_state info rest t image)
  load_slot-pickled (some i) n rest t h =
      let info : InodeState = record { exist = true; mode = i.st_mode } in
      ap (λ p. load_slots l m push (suc n) (record t { ptr = p }))
        (append_assoc (l.inode_state.to_bytes info) (pickled l i) rest)
      ∙ bind-done (reading (next_image l.inode_state))
          (λ iinfo. load_slot l m push iinfo >>= λ _. load_slots l m push n)
          (record t { ptr = l.inode_state.to_bytes info ++ (pickled l i ++ rest) })
          (record t { ptr = pickled l i ++ rest }) info
          (reading-next_image l.inode_state info (pickled l i ++ rest) t (state_image i h))
      ∙ bind-done (load_slot l m push info) (λ _. load_slots l m push n)
          (record t { ptr = pickled l i ++ rest }) (record (push (reloaded i) t) { ptr = rest }) tt
          (load_object-pickled i rest t h)
    where
      state_image :
          (i : Inode)
          → IsStored l m (some i)
          → IsImage l.inode_state (record { exist = true; mode = i.st_mode })
      state_image i (IsStored.present image h w g c) = image

  pub load_slots-pickled :
      (slots : Table) (rest : Bytes) (t : Loader)
      → AreStored l m slots
      → load_slots l m push (length slots) (record t { ptr = table_bytes l slots ++ rest })
        ≡ done tt (record (push_all push (loaded_table slots) t) { ptr = rest })
  unfolding load_slots loaded_table
  load_slots-pickled [] rest t h = refl
  load_slots-pickled (none ∷ slots) rest t (AreStored.next_slot h hs) =
      ap (λ p. load_slots l m push (suc (length slots)) (record t { ptr = p }))
        (append_assoc (slot_bytes l none) (table_bytes l slots) rest)
      ∙ load_slot-pickled none (length slots) (table_bytes l slots ++ rest) t h
      ∙ load_slots-pickled slots rest t hs
  load_slots-pickled (some i ∷ slots) rest t (AreStored.next_slot h hs) =
      ap (λ p. load_slots l m push (suc (length slots)) (record t { ptr = p }))
        (append_assoc (slot_bytes l (some i)) (table_bytes l slots) rest)
      ∙ load_slot-pickled (some i) (length slots) (table_bytes l slots ++ rest) t h
      ∙ load_slots-pickled slots rest (push (reloaded i) t) hs
