-- ===== src/Fs/ReadDir/Fill.antt =====
-- The loop of FuseReadDir: it stays in the buffer, and sends every child with links if they fit.
use mathlib.Core.Path.{subst}
use veri_fs.Base.{
  append_assoc, append-nil, ℕ, zero, suc, ◌+◌, ◌≤◌, ◌≡◌, refl, none, some, true, false, Bool,
  Option-cases, Bool-cases, inl, inr, List, [], ◌∷◌, ◌++◌, arith, length, length-append, ltb, leb,
  add64, ◌||◌, ◌==◌,
}
use veri_fs.Types.{Bytes, Name}
use veri_fs.Ledger.View.{some_injective}
use veri_fs.Fs.{Fs, get_inode, linked_inode}
use veri_fs.Fs.ReadDir.{Direntry, Filled, States, fill, back_up, entries_per_response}

-- The bytes of the entries of the children with links, after a cookie.
unfoldable pub entries_of : Direntry → Fs → ℕ → List (Name × ℕ) → Bytes
entries_of entry fs cookie [] = []
entries_of entry fs cookie ((name, ino) ∷ rest) = elim (linked_inode fs ino) [
  | none ↦ entries_of entry fs cookie rest
  | some i ↦
      entry name (record i.attr { st_ino = ino }) (add64 cookie 1)
      ++ entries_of entry fs (add64 cookie 1) rest
]

-- The table of contexts has no part in them.
pub entries_of-states :
    (entry : Direntry) (fs : Fs) (states : States) (cookie : ℕ) (rest : List (Name × ℕ))
    → entries_of entry (record fs { readdir_states = states }) cookie rest
      ≡ entries_of entry fs cookie rest
unfolding entries_of linked_inode get_inode
entries_of-states entry fs states cookie [] = refl
entries_of-states entry fs states cookie ((name, ino) ∷ rest) = ground (
  arith,
  entries_of-states entry fs states cookie rest,
  entries_of-states entry fs states (add64 cookie 1) rest,
)

-- The cookie after them.
unfoldable pub cookie_after : Fs → ℕ → List (Name × ℕ) → ℕ
cookie_after fs cookie [] = cookie
cookie_after fs cookie ((name, ino) ∷ rest) = elim (linked_inode fs ino) [
  | none ↦ cookie_after fs cookie rest
  | some i ↦ cookie_after fs (add64 cookie 1) rest
]

pub fill-entries_of :
    (entry : Direntry) (room : ℕ) (fs : Fs) (added : ℕ) (rest : List (Name × ℕ)) (f : Filled)
    → added + length rest ≤ entries_per_response
    → length f.out + length (entries_of entry fs f.cookie rest) ≤ room
    → fill entry true room fs added rest f
      ≡ some (record {
        it = f.it + length rest;
        cookie = cookie_after fs f.cookie rest;
        out = f.out ++ entries_of entry fs f.cookie rest;
      })
unfolding fill entries_of cookie_after
fill-entries_of entry room fs added [] f c r =
    let at : f.it + 0 ≡ f.it = omega arith in rw (at, append-nil f.out) refl
fill-entries_of entry room fs added ((name, ino) ∷ rest) f c r =
    let more : ltb added entries_per_response ≡ true = ground (arith, c) in
    elim (Option-cases (linked_inode fs ino)) [
      | inl e ↦
          let left : length f.out + length (entries_of entry fs f.cookie rest) ≤ room =
            (rw (entries_of, e) at r) in
          let next =
            fill-entries_of entry room fs added rest (record f { it = suc f.it }) (omega (arith, c))
              left in
          let moved : suc f.it + length rest ≡ f.it + suc (length rest) = omega arith in
          rw (fill, cookie_after, entries_of, more, e, next, moved) refl
      | inr (i, e) ↦
          let bytes = entry name (record i.attr { st_ino = ino }) (add64 f.cookie 1) in
          let others = entries_of entry fs (add64 f.cookie 1) rest in
          let total : length f.out + length (bytes ++ others) ≤ room = (rw (entries_of, e) at r) in
          let fits : leb (length f.out + length bytes) room ≡ true =
            ground (arith, total, length-append bytes others) in
          let left : length (f.out ++ bytes) + length others ≤ room =
            omega (arith, total, length-append bytes others, length-append f.out bytes) in
          let next =
            fill-entries_of entry room fs (suc added) rest
              (record { it = suc f.it; cookie = add64 f.cookie 1; out = f.out ++ bytes })
              (omega (arith, c)) left in
          let moved : suc f.it + length rest ≡ f.it + suc (length rest) = omega arith in
          rw
            (
              fill,
              cookie_after,
              entries_of,
              more,
              e,
              fits,
              next,
              moved,
              append_assoc f.out bytes others,
            )
            refl
    ]

back_up-room :
    (room : ℕ) (f g : Filled) → length f.out ≤ room → back_up f ≡ some g → length g.out ≤ room
back_up-room room f g l h = go f.it h
  where
    go :
        (it : ℕ)
        → elim it [ zero ↦ none | suc k ↦ some (record f { it = k; cookie = add64 f.cookie 1 }) ]
          ≡ some g
        → length g.out ≤ room
    go zero e = absurd (cc)
    go (suc k) e = subst (λ k. length k.out ≤ room) (some_injective e) l

-- Whatever the entries and the inodes are, the loop of FuseReadDir that starts with bytes that
-- fit the buffer ends with bytes that fit it.
pub fill-room :
    (entry : Direntry) (mapped : Bool) (room : ℕ) (fs : Fs) (added : ℕ) (rest : List (Name × ℕ))
    (f g : Filled)
    → length f.out ≤ room
    → fill entry mapped room fs added rest f ≡ some g
    → length g.out ≤ room
unfolding fill
fill-room entry mapped room fs added [] f g l h =
    subst (λ k. length k.out ≤ room) (some_injective h) l
fill-room entry mapped room fs added ((name, ino) ∷ rest) f g l h =
    elim (Bool-cases (ltb added entries_per_response)) [
      | inr full ↦ subst (λ k. length k.out ≤ room) (some_injective (rw (fill, full) at h)) l
      | inl more ↦ elim (Option-cases (linked_inode fs ino)) [
        | inl e ↦
            fill-room entry mapped room fs added rest (record f { it = suc f.it }) g l
              (rw (fill, more, e) at h)
        | inr (i, e) ↦
            let bytes = entry name (record i.attr { st_ino = ino }) (add64 f.cookie 1) in
            elim (Bool-cases (leb (length f.out + length bytes) room)) [
              | inr over ↦ back_up-room room f g l (rw (fill, more, e, over) at h)
              | inl fits ↦
                  let small : length (f.out ++ bytes) ≤ room =
                    ground (arith, fits, length-append f.out bytes) in
                  go (mapped || length f.out == 0) bytes
                    (fill-room entry mapped room fs (suc added) rest
                      (record { it = suc f.it; cookie = add64 f.cookie 1; out = f.out ++ bytes }) g
                      small)
                    (rw (fill, more, e, fits) at h)
            ]
      ]
    ]
  where
    go :
        (there : Bool) (bytes : Bytes)
        → (fill entry mapped room fs
                (suc added)
                rest
                (record { it = suc f.it; cookie = add64 f.cookie 1; out = f.out ++ bytes })
              ≡ some g
            → length g.out ≤ room)
        → elim there [
          | false ↦ none
          | true ↦
              fill entry mapped room fs
                (suc added)
                rest
                (record { it = suc f.it; cookie = add64 f.cookie 1; out = f.out ++ bytes })
        ]
          ≡ some g
        → length g.out ≤ room
    go false bytes next e = absurd (cc)
    go true bytes next e = next e
