-- ===== src/Ledger/Sound.antt =====
-- Every step keeps the allocator sound.
use mathlib.Core.Path.{subst}
use veri_fs.Base.{
  ℕ, zero, suc, ◌+◌, ◌<◌, ◌≡◌, ◌≢◌, refl, sym, ap, Option, none, some, List, [], ◌∷◌, ◌++◌, length,
  get_elem?, set, word, sub64, arith, get_elem?-set, get_elem?-append, length-append, length-set,
  get_elem?_out,
}
use veri_fs.Ledger.{
  Ledger, next_number, allocate, release, Step, keeps, allocates, frees, takes_back,
}

abbrev pub NotIn : ℕ → List ℕ → Type 0
NotIn n [] = Unit {0}
NotIn n (x ∷ xs) = (n ≢ x) × NotIn n xs

abbrev pub IsDistinct : List ℕ → Type 0
IsDistinct [] = Unit {0}
IsDistinct (x ∷ xs) = NotIn x xs × IsDistinct xs

-- Every queued number names an empty slot.
abbrev pub AllEmpty : List (Option ℕ) → List ℕ → Type 0
AllEmpty t [] = Unit {0}
AllEmpty t (x ∷ xs) = (get_elem? t x ≡ some none) × AllEmpty t xs

abbrev pub taken : Option ℕ → ℕ
taken none = 0
taken (some n) = 1

-- The slots in use.
abbrev pub live : List (Option ℕ) → ℕ
live [] = 0
live (s ∷ t) = taken s + live t

-- A slot holds its own number; the queue names each empty slot once; and the free inodes are those
-- that are not in use.
pub record IsSound (l : Ledger) : Type 0 where
  pub numbered : (i n : ℕ) → get_elem? l.numbers i ≡ some (some n) → n ≡ i
  pub empty : AllEmpty l.numbers l.free_list
  pub distinct : IsDistinct l.free_list
  pub complete : live l.numbers + length l.free_list ≡ length l.numbers
  pub counted : l.free_count + live l.numbers ≡ l.total
  pub range : l.total < word

live-append : (t : List (Option ℕ)) (s : Option ℕ) → live (t ++ s ∷ []) ≡ live t + taken s
live-append [] s = omega arith
live-append (x ∷ t) s = omega (arith, live-append t s)

live-set :
    (t : List (Option ℕ)) (i : ℕ) (old new : Option ℕ)
    → get_elem? t i ≡ some old
    → live (set t i new) + taken old ≡ live t + taken new
live-set [] i old new h = cc
live-set (x ∷ t) zero old new h = ground arith
live-set (x ∷ t) (suc i) old new h = omega (arith, live-set t i old new h)

AllEmpty-NotIn :
    (t : List (Option ℕ)) (xs : List ℕ) (i : ℕ) (new : Option ℕ)
    → AllEmpty t xs
    → NotIn i xs
    → AllEmpty (set t i new) xs
AllEmpty-NotIn t [] i new h k = tt
AllEmpty-NotIn t (x ∷ xs) i new h k =
    ground (arith, AllEmpty-NotIn t xs i new h.1 k.1, get_elem?-set t i x new)

AllEmpty-append :
    (t : List (Option ℕ)) (xs : List ℕ) (s : Option ℕ) → AllEmpty t xs → AllEmpty (t ++ s ∷ []) xs
AllEmpty-append t [] s h = tt
AllEmpty-append t (x ∷ xs) s h =
    ground (arith, AllEmpty-append t xs s h.1, get_elem?-append t (s ∷ []) x, get_elem?_out t x)

AllEmpty-snoc :
    (t : List (Option ℕ)) (xs : List ℕ) (x : ℕ)
    → AllEmpty t xs
    → get_elem? t x ≡ some none
    → AllEmpty t (xs ++ x ∷ [])
AllEmpty-snoc t [] x h e = (e, tt)
AllEmpty-snoc t (y ∷ xs) x h e = (h.0, AllEmpty-snoc t xs x h.1 e)

NotIn-snoc : (n x : ℕ) (xs : List ℕ) → NotIn n xs → n ≢ x → NotIn n (xs ++ x ∷ [])
NotIn-snoc n x [] h e = (e, tt)
NotIn-snoc n x (y ∷ xs) h e = (h.0, NotIn-snoc n x xs h.1 e)

IsDistinct-snoc : (x : ℕ) (xs : List ℕ) → IsDistinct xs → NotIn x xs → IsDistinct (xs ++ x ∷ [])
IsDistinct-snoc x [] h k = (tt, tt)
IsDistinct-snoc x (y ∷ xs) h k =
    (NotIn-snoc y x xs h.0 (λ e. k.0 (sym e)), IsDistinct-snoc x xs h.1 k.1)

-- A slot in use is not queued.
NotIn-taken :
    (t : List (Option ℕ)) (xs : List ℕ) (i n : ℕ)
    → AllEmpty t xs
    → get_elem? t i ≡ some (some n)
    → NotIn i xs
NotIn-taken t [] i n h e = tt
NotIn-taken t (x ∷ xs) i n h e = (λ p. cc (ap (get_elem? t) p), NotIn-taken t xs i n h.1 e)

fresh-IsSound :
    (l : Ledger)
    → l.free_list ≡ []
    → l.free_count ≢ 0
    → IsSound l
    → IsSound (record l {
      numbers = l.numbers ++ some (length l.numbers) ∷ [];
      free_count = sub64 l.free_count 1;
    })
fresh-IsSound l e c v = record {
  numbered = λ i n h. ground (
    arith,
    v.numbered i n,
    get_elem?-append l.numbers (some (length l.numbers) ∷ []) i,
    get_elem?_out l.numbers i,
  );
  empty = rw e tt;
  distinct = v.distinct;
  complete = omega (
    arith,
    v.complete,
    live-append l.numbers (some (length l.numbers)),
    length-append l.numbers (some (length l.numbers) ∷ []),
  );
  counted = omega (arith, v.counted, v.range, live-append l.numbers (some (length l.numbers)));
  range = v.range;
}

reused-IsSound :
    (l : Ledger) (ino : ℕ) (rest : List ℕ)
    → l.free_list ≡ ino ∷ rest
    → l.free_count ≢ 0
    → IsSound l
    → IsSound (record l {
      numbers = set l.numbers ino (some ino);
      free_list = rest;
      free_count = sub64 l.free_count 1;
    })
reused-IsSound l ino rest e c v =
    let empty = subst (AllEmpty l.numbers) e v.empty in
    let distinct = subst IsDistinct e v.distinct in
    let counts = live-set l.numbers ino none (some ino) empty.0 in
    record {
      numbered = λ i n h. ground (arith, v.numbered i n, get_elem?-set l.numbers ino i (some ino));
      empty = AllEmpty-NotIn l.numbers rest ino (some ino) empty.1 distinct.0;
      distinct = distinct.1;
      complete =
          omega (arith, v.complete, counts, length-set l.numbers ino (some ino), ap length e);
      counted = omega (arith, v.counted, v.range, counts);
      range = v.range;
    }

pub allocate-IsSound : (l : Ledger) → l.free_count ≢ 0 → IsSound l → IsSound (allocate l)
allocate-IsSound l c v = go l.free_list refl
  where
    go : (xs : List ℕ) → l.free_list ≡ xs → IsSound (allocate l)
    go [] e = rw (e, allocate) (fresh-IsSound l e c v)
    go (ino ∷ rest) e = rw (e, allocate) (reused-IsSound l ino rest e c v)

pub release-IsSound :
    (l : Ledger) (ino n : ℕ)
    → get_elem? l.numbers ino ≡ some (some n)
    → IsSound l
    → IsSound (release ino l)
release-IsSound l ino n e v =
    let free : NotIn ino l.free_list = NotIn-taken l.numbers l.free_list ino n v.empty e in
    let counts = live-set l.numbers ino (some n) none e in
    record {
      numbered = λ i k h. ground (arith, v.numbered i k, get_elem?-set l.numbers ino i none);
      empty =
          AllEmpty-snoc _ l.free_list ino
            (AllEmpty-NotIn l.numbers l.free_list ino none v.empty free)
            (ground (arith, get_elem?-set l.numbers ino ino none, get_elem?_out l.numbers ino));
      distinct = IsDistinct-snoc ino l.free_list v.distinct free;
      complete = omega (
        arith,
        v.complete,
        counts,
        length-set l.numbers ino none,
        length-append l.free_list (ino ∷ []),
      );
      counted = omega (arith, v.counted, v.range, counts);
      range = v.range;
    }

-- The number that is given out stands in its slot.
pub next_number-allocate :
    (l : Ledger)
    → IsSound l
    → get_elem? (allocate l).numbers (next_number l) ≡ some (some (next_number l))
next_number-allocate l v = go l.free_list refl
  where
    go :
        (xs : List ℕ)
        → l.free_list ≡ xs
        → get_elem? (allocate l).numbers (next_number l) ≡ some (some (next_number l))
    go [] e =
        rw (e, allocate, next_number)
          (ground
            (arith, get_elem?-append l.numbers (some (length l.numbers) ∷ []) (length l.numbers)))
    go (ino ∷ rest) e =
        let empty = subst (AllEmpty l.numbers) e v.empty in
        rw (e, allocate, next_number)
          (ground (
            arith,
            get_elem?-set l.numbers ino ino (some ino),
            get_elem?_out l.numbers ino,
            empty.0,
          ))

-- The number that is given out is no longer queued.
pub next_number-NotIn : (l : Ledger) → IsSound l → NotIn (next_number l) (allocate l).free_list
next_number-NotIn l v = go l.free_list refl
  where
    go : (xs : List ℕ) → l.free_list ≡ xs → NotIn (next_number l) (allocate l).free_list
    go [] e = rw (e, allocate, next_number, e) tt
    go (ino ∷ rest) e =
        let distinct = subst IsDistinct e v.distinct in rw (e, allocate, next_number) distinct.0

-- In a sound allocator the number that the next new object gets belongs to no object.
pub next_number_free :
    (l : Ledger) (n : ℕ) → IsSound l → get_elem? l.numbers (next_number l) ≢ some (some n)
next_number_free l n v = go l.free_list refl
  where
    go : (xs : List ℕ) → l.free_list ≡ xs → get_elem? l.numbers (next_number l) ≢ some (some n)
    go [] e = rw (e, next_number) (λ h. ground (arith, get_elem?_out l.numbers (length l.numbers)))
    go (ino ∷ rest) e =
        let empty = subst (AllEmpty l.numbers) e v.empty in
        rw (e, next_number) (λ h. ground (arith, empty.0))

-- Every step of the abstract allocator of inode numbers keeps it sound: each taken slot of the
-- table holds its own number, the queue of deleted inodes names each empty slot exactly once, and
-- the free inodes are the total less those in use.
pub Step-IsSound : {l k : Ledger} → Step l k → IsSound l → IsSound k
Step-IsSound keeps v = v
Step-IsSound {l} (allocates c) v = allocate-IsSound l c v
Step-IsSound {l} (frees ino n e) v = release-IsSound l ino n e v
Step-IsSound {l} (takes_back c) v =
    release-IsSound (allocate l) (next_number l) (next_number l) (next_number-allocate l v)
      (allocate-IsSound l c v)
