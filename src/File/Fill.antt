-- ===== src/File/Fill.antt =====
-- The zeroing of a hole in src/file.cpp.
use veri_fs.Base.{
  ℕ, ◌≡◌, ◌<◌, ◌≤◌, refl, inl, inr, some, if◌then◌else◌, ltb, length, get_elem?, arith, word, sub64,
  Bool-cases,
}
use veri_fs.Types.{Bytes}
use veri_fs.Memory.Contents.{memset_lem}
use veri_fs.File.{zero_fill}

pub zero_fill_lem :
    (b : Bytes) (from to : ℕ)
    → from < word
    → to ≤ length b
    → to < word
    → (new : Bytes) × (zero_fill b from to ≡ some new)
      × (length new ≡ length b)
      × ((i : ℕ)
          → get_elem? new i
            ≡ (if ltb i from then get_elem? b i else if ltb i to then some 0 else get_elem? b i))
unfolding zero_fill
zero_fill_lem b from to w h k = elim (Bool-cases (ltb from to)) [
  | inl e ↦
      let (new, p, l, g) = memset_lem b from 0 (sub64 to from) (ground arith) in
      (new, rw e p, l, λ i. ground (arith, g i))
  | inr e ↦ (b, rw e, refl, λ i. ground arith)
]
