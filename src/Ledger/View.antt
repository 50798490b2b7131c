-- ===== src/Ledger/View.antt =====
-- The numbers of a file system's table, and what the table operations do to them.
use mathlib.Core.Path.{subst}
use veri_fs.Base.{
  sym, Bool, true, false, if◌then◌else◌, ℕ, zero, suc, ◌≡◌, refl, ap, Option, none, some, List, [],
  ◌∷◌, ◌++◌, length, get_elem?, set, add64, arith, ℤ, ◌>>=◌,
}
use veri_fs.Types
use veri_fs.Types.{Name, Inode, Attr, Abi, Statvfs}
use veri_fs.Directory.{DirectoryState, update_child}
use veri_fs.Directory.Keeps.{Keeps, add_child-Keeps, remove_child-Keeps, update_child-Keeps}
use veri_fs.Fs.{
  Fs, Table, get_inode, update_inode, modify_inode, directory_at, put_directory, directory_state,
  run_directory, add_child_at, remove_child_at, update_child_at, reply_entry_at, reply_create_at,
  linked_inode,
}
use veri_fs.Inode.{reply_entry, reply_create}
use veri_fs.Replies.{Reply}
use veri_fs.Ledger.{Ledger}

abbrev pub slot_number : Option Inode → Option ℕ
slot_number none = none
slot_number (some i) = some i.st_ino

abbrev pub numbers_of : Table → List (Option ℕ)
numbers_of [] = []
numbers_of (s ∷ t) = slot_number s ∷ numbers_of t

abbrev pub ledger : Fs → Ledger
ledger fs = record {
  numbers = numbers_of fs.inodes;
  free_list = fs.deleted_inodes;
  free_count = fs.m_stbuf.f_ffree;
  total = fs.m_stbuf.f_files;
  pool = fs.state_pool;
}

pub numbers_of-set :
    (t : Table) (ino : ℕ) (s : Option Inode)
    → numbers_of (set t ino s) ≡ set (numbers_of t) ino (slot_number s)
numbers_of-set [] ino s = refl
numbers_of-set (x ∷ t) zero s = refl
numbers_of-set (x ∷ t) (suc ino) s = ap (◌∷◌ (slot_number x)) (numbers_of-set t ino s)

pub numbers_of-append :
    (t : Table) (s : Option Inode) → numbers_of (t ++ s ∷ []) ≡ numbers_of t ++ slot_number s ∷ []
numbers_of-append [] s = refl
numbers_of-append (x ∷ t) s = ap (◌∷◌ (slot_number x)) (numbers_of-append t s)

pub length-numbers_of : (t : Table) → length (numbers_of t) ≡ length t
length-numbers_of [] = refl
length-numbers_of (x ∷ t) = ap suc (length-numbers_of t)

-- An inode that is replaced by one of its number.
pub set_same :
    (t : Table) (ino : ℕ) (i j : Inode)
    → get_elem? t ino ≡ some (some i)
    → j.st_ino ≡ i.st_ino
    → numbers_of (set t ino (some j)) ≡ numbers_of t
set_same [] ino i j h e = refl
set_same (x ∷ t) zero i j h e = ground arith
set_same (x ∷ t) (suc ino) i j h e = ap (◌∷◌ (slot_number x)) (set_same t ino i j h e)

pub get_inode-slot :
    (fs : Fs) (ino : ℕ) (i : Inode)
    → get_inode fs ino ≡ some i
    → get_elem? fs.inodes ino ≡ some (some i)
unfolding get_inode
get_inode-slot fs ino i h = ground arith

pub get_inode-number :
    (t : Table) (ino : ℕ) (i : Inode)
    → get_elem? t ino ≡ some (some i)
    → get_elem? (numbers_of t) ino ≡ some (some i.st_ino)
get_inode-number [] ino i h = cc
get_inode-number (x ∷ t) zero i h = ground arith
get_inode-number (x ∷ t) (suc ino) i h = get_inode-number t ino i h

pub linked_inode-get :
    (fs : Fs) (ino : ℕ) (i : Inode) → linked_inode fs ino ≡ some i → get_inode fs ino ≡ some i
unfolding linked_inode
linked_inode-get fs ino i h = ground arith

-- Two file systems with the same numbers.
abbrev pub SameNumbers : Fs → Fs → Type 0
SameNumbers fs gs = ledger gs ≡ ledger fs

pub update_inode-ledger :
    (fs : Fs) (ino : ℕ) (i j : Inode)
    → get_inode fs ino ≡ some i
    → j.st_ino ≡ i.st_ino
    → SameNumbers fs (update_inode ino j fs)
unfolding update_inode
update_inode-ledger fs ino i j h e =
    ap (λ n. record (ledger fs) { numbers = n })
      (set_same fs.inodes ino i j (get_inode-slot fs ino i h) e)

pub bind_some {ℓ κ} :
    {A : Type ℓ} {B : Type κ} (m : Option A) (f : A → Option B) {b : B}
    → (m >>= f) ≡ some b
    → (a : A) × (m ≡ some a) × (f a ≡ some b)
bind_some none f h = cc
bind_some (some a) f h = (a, refl, h)

-- The same with the parts as variables, for a long chain of steps.
pub bind_cases {ℓ κ ι} :
    {A : Type ℓ} {B : Type κ} {C : Type ι} (m : Option A) (f : A → Option B) (b : B)
    → (m >>= f) ≡ some b
    → ((a : A) → m ≡ some a → f a ≡ some b → C)
    → C
bind_cases none f b h k = absurd (cc)
bind_cases (some a) f b h k = k a refl h

pub modify_inode-ledger :
    (fs gs : Fs) (ino : ℕ) (f : Inode → Inode)
    → ((i : Inode) → (f i).st_ino ≡ i.st_ino)
    → modify_inode ino f fs ≡ some gs
    → SameNumbers fs gs
unfolding modify_inode
modify_inode-ledger fs gs ino f same h = go (get_inode fs ino) refl
  where
    go : (o : Option Inode) → get_inode fs ino ≡ o → SameNumbers fs gs
    go none e = cc
    go (some i) e = ground (arith, update_inode-ledger fs ino i (f i) e (same i))

pub put_directory-ledger :
    (fs : Fs) (ino : ℕ) (i : Inode) (d : DirectoryState)
    → get_inode fs ino ≡ some i
    → d.st_ino ≡ i.st_ino
    → d.stbuf.f_ffree ≡ fs.m_stbuf.f_ffree
    → d.stbuf.f_files ≡ fs.m_stbuf.f_files
    → SameNumbers fs (put_directory ino i d fs)
unfolding put_directory update_inode
put_directory-ledger fs ino i d h e f g = λ k. record {
  numbers =
      set_same fs.inodes ino i
        (record i {
          entry_param = record i.entry_param { attr = d.attr };
          node = Types.directory d.m_children;
        })
        (get_inode-slot fs ino i h) e k;
  free_list = fs.deleted_inodes;
  free_count = f k;
  total = g k;
  pool = fs.state_pool;
}

directory_at-get :
    (fs : Fs) (ino : ℕ) (i : Inode) (c : List (Name × ℕ))
    → directory_at fs ino ≡ some (i, c)
    → get_inode fs ino ≡ some i
unfolding directory_at
directory_at-get fs ino i c h = ground arith

-- Two results that are equal leave equal states.
pub same_state {ℓ κ} :
    {A : Type ℓ} {S : Type κ} {a b : A} {x y : S}
    → ◌≡◌ {A = Option (A × S)} (some (a, x)) (some (b, y))
    → x ≡ y
same_state h = cc

pub some_injective {ℓ} : {A : Type ℓ} {x y : A} → some x ≡ some y → x ≡ y
some_injective h = cc

pub if_same :
    (b : Bool) (m : Option Fs) (fs gs : Fs)
    → ((g : Fs) → m ≡ some g → SameNumbers fs g)
    → (if b then m else some fs) ≡ some gs
    → SameNumbers fs gs
if_same true m fs gs f h = f gs h
if_same false m fs gs f h = ap (λ g. ledger g) (sym (some_injective h))

-- A method that keeps these keeps the numbers of the file system.
pub run_directory-ledger :
    (dir : ℕ) (method : DirectoryState → Option (ℤ × DirectoryState)) (fs gs : Fs) (r : ℤ)
    → ((d e : DirectoryState) (k : ℤ) → method d ≡ some (k, e) → Keeps d e)
    → run_directory dir method fs ≡ some (r, gs)
    → SameNumbers fs gs
unfolding run_directory
run_directory-ledger dir method fs gs r keeps h =
    let ((i, c), p, q) = bind_some (directory_at fs dir) _ h in
    let ((k, d), s, t) = bind_some (method (directory_state i c fs)) _ q in
    let kept = keeps (directory_state i c fs) d k s in
    subst (SameNumbers fs) (same_state t) (
      put_directory-ledger fs dir i d (directory_at-get fs dir i c p) kept.number kept.free_count
        kept.total)

module _ ⦃abi : Abi⦄ where
  pub add_child_at-ledger :
      (dir : ℕ) (name : Name) (ino : ℕ) (fs gs : Fs) (r : ℤ)
      → add_child_at dir name ino fs ≡ some (r, gs)
      → SameNumbers fs gs
  unfolding add_child_at
  add_child_at-ledger dir name ino fs gs r =
      run_directory-ledger dir _ fs gs r (add_child-Keeps name ino)

  pub remove_child_at-ledger :
      (now dir : ℕ) (name : Name) (fs gs : Fs) (r : ℤ)
      → remove_child_at now dir name fs ≡ some (r, gs)
      → SameNumbers fs gs
  unfolding remove_child_at
  remove_child_at-ledger now dir name fs gs r =
      run_directory-ledger dir _ fs gs r (remove_child-Keeps now name)

pub update_child_at-ledger :
    (now dir : ℕ) (name : Name) (ino : ℕ) (fs gs : Fs) (r : ℤ)
    → update_child_at now dir name ino fs ≡ some (r, gs)
    → SameNumbers fs gs
unfolding update_child_at
update_child_at-ledger now dir name ino fs gs r =
    run_directory-ledger dir (λ d. some (update_child now name ino d)) fs gs r
      (λ d e k h. subst (Keeps d) (same_state h) (update_child-Keeps now name ino d))

pub reply_entry_at-ledger :
    (ino : ℕ) (fs gs : Fs) (rs : List Reply)
    → reply_entry_at ino fs ≡ some (rs, gs)
    → SameNumbers fs gs
unfolding reply_entry_at reply_entry
reply_entry_at-ledger ino fs gs rs h =
    let (i, p, q) = bind_some (get_inode fs ino) _ h in
    subst (SameNumbers fs) (same_state q)
      (update_inode-ledger fs ino i (record i { nlookup = add64 i.nlookup 1 }) p refl)

pub reply_create_at-ledger :
    (ino : ℕ) (fs gs : Fs) (rs : List Reply)
    → reply_create_at ino fs ≡ some (rs, gs)
    → SameNumbers fs gs
unfolding reply_create_at reply_create
reply_create_at-ledger ino fs gs rs h =
    let (i, p, q) = bind_some (get_inode fs ino) _ h in
    subst (SameNumbers fs) (same_state q)
      (update_inode-ledger fs ino i (record i { nlookup = add64 i.nlookup 1 }) p refl)
