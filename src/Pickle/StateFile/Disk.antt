-- ===== src/Pickle/StateFile/Disk.antt =====
-- The state file on the machine: what the calls on a descriptor that is open on it do.
use veri_fs.Base.{
  ℕ, zero, suc, ◌-◌, ◌≡◌, refl, true, [], ◌∷◌, ◌++◌, append_assoc, append-nil, length, take, drop,
  replicate, some, ℤ, pos,
}
use veri_fs.Types.{Bytes}
use veri_fs.Pickle.System.Emits.{Sink, IsSteady}
use veri_fs.Pickle.StateFile.{Kernel}

-- The bytes before the offset and from it on, and what the hash has been fed.
pub record FileView : Type 0 where
  pub before : Bytes
  pub after : Bytes
  pub fed : Bytes

abbrev pub whole : FileView → Bytes
whole x = x.before ++ x.after

abbrev pub written : Bytes → FileView → FileView
written b x = record x { before = x.before ++ b; after = drop (length b) x.after }

-- The offset is set. A gap behind the end reads as zeros.
abbrev pub moved : ℕ → FileView → FileView
moved n x = record x {
  before = take n (whole x) ++ replicate (n - length (whole x)) 0;
  after = drop n (whole x);
}

abbrev pub read_past : ℕ → FileView → FileView
read_past n x = record x { before = x.before ++ take n x.after; after = drop n x.after }

-- The calls on the descriptor while a state of the machine shows the file so: each succeeds, and
-- writes and reads are of as many bytes as they can be. final gives the digest of what was fed.
pub record IsFile {S : Type 0} (k : Kernel S) (fd : ℤ) (sees : S → FileView → Type 0)
    (digest : Bytes → Bytes) : Type 0 where
  pub write_count :
      (b : Bytes) (s : S) (x : FileView) → sees s x → ((k.device fd).write b s).count ≡ length b
  pub write_sees :
      (b : Bytes) (s : S) (x : FileView)
      → sees s x
      → sees ((k.device fd).write b s).after (written b x)
  pub feed_works : (b : Bytes) (s : S) (x : FileView) → sees s x → ((k.device fd).feed b s).0 ≡ true
  pub feed_sees :
      (b : Bytes) (s : S) (x : FileView)
      → sees s x
      → sees ((k.device fd).feed b s).1 (record x { fed = x.fed ++ b })
  pub seek_offset :
      (n : ℕ) (s : S) (x : FileView) → sees s x → ((k.device fd).seek (pos n) s).0 ≡ pos n
  pub seek_sees :
      (n : ℕ) (s : S) (x : FileView) → sees s x → sees ((k.device fd).seek (pos n) s).1 (moved n x)
  pub tell_offset : (s : S) (x : FileView) → sees s x → (k.device fd).tell s ≡ pos (length x.before)
  pub init_works : (s : S) (x : FileView) → sees s x → (k.init s).0 ≡ true
  pub init_sees : (s : S) (x : FileView) → sees s x → sees (k.init s).1 (record x { fed = [] })
  pub final_digest : (s : S) (x : FileView) → sees s x → (k.final s).0 ≡ digest x.fed
  pub final_sees : (s : S) (x : FileView) → sees s x → sees (k.final s).1 x
  pub read_result :
      (n : ℕ) (s : S) (x : FileView)
      → sees s x
      → (k.read fd n s).0 ≡ (pos (length (take n x.after)), take n x.after)
  pub read_sees : (n : ℕ) (s : S) (x : FileView) → sees s x → sees (k.read fd n s).1 (read_past n x)
  pub fstat_size : (s : S) (x : FileView) → sees s x → (k.fstat fd s).0 ≡ (pos 0, length (whole x))
  pub fstat_sees : (s : S) (x : FileView) → sees s x → sees (k.fstat fd s).1 x
  pub mmap_bytes :
      (s : S) (x : FileView) → sees s x → (k.mmap fd (length (whole x)) s).0 ≡ some (whole x)
  pub mmap_sees : (s : S) (x : FileView) → sees s x → sees (k.mmap fd (length (whole x)) s).1 x

pub drop-nil : (n : ℕ) → drop {A = ℕ} n [] ≡ []
drop-nil zero = refl
drop-nil (suc n) = refl

pub take-nil : (n : ℕ) → take {A = ℕ} n [] ≡ []
take-nil zero = refl
take-nil (suc n) = refl

drop-append_length :
    (b c s : Bytes) → drop (length c) (drop (length b) s) ≡ drop (length (b ++ c)) s
drop-append_length [] c s = refl
drop-append_length (x ∷ b) c [] = drop-nil (length c)
drop-append_length (x ∷ b) c (y ∷ s) = drop-append_length b c s

-- The file as what is written and hashed goes to.
abbrev pub file_sink : {S : Type 0} → (S → FileView → Type 0) → Sink S
file_sink sees = record {
  View = FileView;
  At = sees;
  add = λ x b. record (written b x) { fed = x.fed ++ b };
}

pub IsFile-IsSteady :
    {S : Type 0} (k : Kernel S) (fd : ℤ) (sees : S → FileView → Type 0) (digest : Bytes → Bytes)
    → IsFile k fd sees digest
    → IsSteady (k.device fd) (file_sink sees)
IsFile-IsSteady k fd sees digest file = record {
  counted = file.write_count;
  fed = λ b s x h.
      file.feed_works b ((k.device fd).write b s).after (written b x) (file.write_sees b s x h);
  grown = λ b s x h.
      file.feed_sees b ((k.device fd).write b s).after (written b x) (file.write_sees b s x h);
  add_nil =
      λ x i. record { before = append-nil x.before i; after = x.after; fed = append-nil x.fed i };
  add_append = λ x b c i. record {
    before = append_assoc x.before b c i;
    after = drop-append_length b c x.after i;
    fed = append_assoc x.fed b c i;
  };
}
