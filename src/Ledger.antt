-- ===== src/Ledger.antt =====
-- The inode numbers of FuseRamFs as an abstract allocator: which slots of the table are taken and by
-- which number, the queue of numbers to give out again, and the count of free inodes; with the pool of
-- saved states, which the allocator does not touch.
pub mod Sound
pub mod View
pub mod Register
pub mod Create
pub mod Always
pub mod Entries
pub mod Access
pub mod Queries
pub mod Makes
pub mod Requests
pub mod Rollback
use veri_fs.Base.{
  ℕ, suc, ◌+◌, ◌-◌, ◌<◌, ◌≡◌, ◌≢◌, Option, none, some, List, [], ◌∷◌, ◌++◌, length, get_elem?, set,
  word, sub64,
}
use veri_fs.Fs.{SavedState}

pub record Ledger : Type 0 where
  pub numbers : List (Option ℕ)
  pub free_list : List ℕ
  pub free_count : ℕ
  pub total : ℕ
  pub pool : List (ℕ × SavedState)

-- The number that the allocator gives next: the oldest freed one, or a new one.
abbrev pub next_number : Ledger → ℕ
next_number l = elim l.free_list [ [] ↦ length l.numbers | ino ∷ rest ↦ ino ]

abbrev pub allocate : Ledger → Ledger
allocate l = elim l.free_list [
  | [] ↦ record l {
    numbers = l.numbers ++ some (length l.numbers) ∷ [];
    free_count = sub64 l.free_count 1;
  }
  | ino ∷ rest ↦ record l {
    numbers = set l.numbers ino (some ino);
    free_list = rest;
    free_count = sub64 l.free_count 1;
  }
]

abbrev pub release : ℕ → Ledger → Ledger
release ino l = record l {
  numbers = set l.numbers ino none;
  free_list = l.free_list ++ ino ∷ [];
  free_count = sub64 l.free_count (sub64 0 1);
}

-- What one request may do to the numbers: nothing, give one out, take one back, or give one out and
-- take it back because the new object could not be named.
pub data Step (l : Ledger) : Ledger → Type 0 where
  keeps : Step l l
  allocates : l.free_count ≢ 0 → Step l (allocate l)
  frees : (ino n : ℕ) → get_elem? l.numbers ino ≡ some (some n) → Step l (release ino l)
  takes_back : l.free_count ≢ 0 → Step l (release (next_number l) (allocate l))
