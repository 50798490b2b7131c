-- ===== src/Names.antt =====
-- Comparison of std::string values, and "." and "..".
use veri_fs.Base.{Bool, true, false, [], ◌∷◌, ◌≡◌, refl, ◌↔◌, ◌&&◌, ◌==◌, arith}
use veri_fs.Types.{Name}

-- operator== of std::string.
unfoldable pub name_eq : Name → Name → Bool
name_eq [] [] = true
name_eq [] (y ∷ ys) = false
name_eq (x ∷ xs) [] = false
name_eq (x ∷ xs) (y ∷ ys) = x == y && name_eq xs ys

pub name_eq_iff : (a b : Name) → (name_eq a b ≡ true) ↔ (a ≡ b)
unfolding name_eq
name_eq_iff [] [] = (λ e. refl, λ e. refl)
name_eq_iff [] (y ∷ ys) = (λ e. cc, λ e. cc)
name_eq_iff (x ∷ xs) [] = (λ e. cc, λ e. cc)
name_eq_iff (x ∷ xs) (y ∷ ys) = ground (arith, name_eq_iff xs ys)

pub name_eq_refl : (a : Name) → name_eq a a ≡ true
name_eq_refl a = (name_eq_iff a a).1 refl

abbrev pub dot : Name
dot = b'.' ∷ []

abbrev pub dot_dot : Name
dot_dot = b'.' ∷ b'.' ∷ []
