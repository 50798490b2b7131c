-- ===== src/Options/Arguments.antt =====
-- erase_arg of src/util.cpp: an argument is taken out of the vector. What free does is left out.
use veri_fs.Base.{
  ℕ, zero, suc, ◌+◌, ◌-◌, ◌≡◌, refl, ap, ◌∙◌, sym, Option, none, some, if◌then◌else◌, List, [], ◌∷◌,
  ◌++◌, leb, length, length-append, append_assoc, get_elem?, set, arith, ◌>>=◌, false,
}
use veri_fs.Types.{Bytes}

-- struct fuse_args, with a null pointer as `none`.
pub record FuseArgs : Type 0 where
  pub argc : ℕ
  pub argv : List (Option Bytes)

-- The loop, for n rounds from an index on; `none` is a read behind the vector.
unfoldable pub shift : ℕ → ℕ → List (Option Bytes) → Option (List (Option Bytes))
shift zero i argv = some argv
shift (suc n) i argv = do x ← get_elem? argv (suc i); shift n (suc i) (set argv i x)

unfoldable pub erase_arg : ℕ → FuseArgs → Option FuseArgs
unfolding shift
erase_arg index args = if leb args.argc index then some args else (do
  argv ← shift (args.argc - 1 - index) index args.argv
  some (record { argc = args.argc - 1; argv = set argv (args.argc - 1) none }))

-- The last argument, where another one is behind a first.
abbrev final : Option Bytes → List (Option Bytes) → Option Bytes
final x [] = x
final x (r ∷ rest) = final r rest

get_elem?-behind :
    (before after : List (Option Bytes)) (x r : Option Bytes)
    → get_elem? (before ++ x ∷ r ∷ after) (suc (length before)) ≡ some r
get_elem?-behind [] after x r = refl
get_elem?-behind (b ∷ before) after x r = get_elem?-behind before after x r

set-behind :
    (before after : List (Option Bytes)) (x r : Option Bytes)
    → set (before ++ x ∷ after) (length before) r ≡ before ++ r ∷ after
set-behind [] after x r = refl
set-behind (b ∷ before) after x r = ap (◌∷◌ b) (set-behind before after x r)

shift_lem :
    (before rest after : List (Option Bytes)) (x : Option Bytes)
    → shift (length rest) (length before) (before ++ x ∷ (rest ++ after))
      ≡ some (before ++ (rest ++ final x rest ∷ after))
unfolding shift
shift_lem before [] after x = refl
shift_lem before (r ∷ rest) after x =
    let next = before ++ r ∷ [] in
    let one : length next ≡ suc (length before) = omega (arith, length-append before (r ∷ [])) in
    rw (get_elem?-behind before (rest ++ after) x r, set-behind before (r ∷ (rest ++ after)) x r)
      (ap (λ l. shift (length rest) (suc (length before)) l)
          (sym (append_assoc before (r ∷ []) (r ∷ (rest ++ after))))
        ∙ ap (λ n. shift (length rest) n (next ++ r ∷ (rest ++ after))) (sym one)
        ∙ shift_lem next rest after r
        ∙ ap some (append_assoc before (r ∷ []) (rest ++ final r rest ∷ after)))

-- erase_arg of an argument that stands between others, with anything behind the vector: the
-- argument is taken out, those behind it move down by one, the place that was the last is a null
-- pointer, and argc is one less.
pub erase_arg_lem :
    (before rest after : List (Option Bytes)) (x : Option Bytes)
    → erase_arg
        (length before)
        (record { argc = length before + 1 + length rest; argv = before ++ x ∷ (rest ++ after) })
      ≡ some
          (record { argc = length before + length rest; argv = before ++ (rest ++ none ∷ after) })
unfolding erase_arg
erase_arg_lem before rest after x =
    let inside : leb (length before + 1 + length rest) (length before) ≡ false = ground arith in
    let rounds : length before + 1 + length rest - 1 - length before ≡ length rest = omega arith in
    let count : length before + 1 + length rest - 1 ≡ length (before ++ rest) =
      omega (arith, length-append before rest) in
    let gone : set (before ++ (rest ++ final x rest ∷ after)) (length (before ++ rest)) none
        ≡ before ++ (rest ++ none ∷ after) =
      ap (λ l. set l (length (before ++ rest)) none)
        (sym (append_assoc before rest (final x rest ∷ after)))
      ∙ set-behind (before ++ rest) after (final x rest) none
      ∙ append_assoc before rest (none ∷ after) in
    rw (erase_arg, inside, rounds, shift_lem before rest after x, count, gone)
      (ap (λ n. some (record { argc = n; argv = before ++ (rest ++ none ∷ after) }))
        (length-append before rest))
