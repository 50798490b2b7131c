-- ===== src/Memory/Contents.antt =====
-- When the memory calls succeed, and what each byte is afterwards.
use veri_fs.Base.{
  ℕ, zero, suc, ◌+◌, ◌-◌, ◌≤◌, ◌<◌, ◌≡◌, refl, none, false, some, ◌++◌, if◌then◌else◌, ltb, length,
  take, drop, replicate, get_elem?, arith, length-append, length-take, length-drop,
  length-replicate, get_elem?-append, get_elem?-take, get_elem?-drop, get_elem?-replicate,
}
use veri_fs.Types.{Bytes}
use veri_fs.Memory.{Allocator, junk_bytes, realloc, memmove, memset, read_bytes}

length-junk_bytes : (m : Allocator) (i n : ℕ) → length (junk_bytes m i n) ≡ n
length-junk_bytes m i zero = refl
length-junk_bytes m i (suc n) = omega (arith, length-junk_bytes m (suc i) n)

-- A granted block has the size that was asked for.
-- A null pointer of realloc is a size that the allocator refuses.
pub realloc_refused :
    (m : Allocator) (buf : Bytes) (n : ℕ) → realloc m buf n ≡ none → m.grants n ≡ false
unfolding realloc
realloc_refused m buf n e = ground arith

pub length-realloc :
    (m : Allocator) (buf : Bytes) (n : ℕ) {new : Bytes}
    → realloc m buf n ≡ some new
    → length new ≡ n
unfolding realloc
length-realloc m buf n e = ground (
  arith,
  length-append (take n buf) (junk_bytes m (length buf) (n - length buf)),
  length-take n buf,
  length-junk_bytes m (length buf) (n - length buf),
)

-- It begins with the old block, as far as both go.
pub get_elem?-realloc :
    (m : Allocator) (buf : Bytes) (n : ℕ) {new : Bytes} (i : ℕ)
    → realloc m buf n ≡ some new
    → i < n
    → i < length buf
    → get_elem? new i ≡ get_elem? buf i
unfolding realloc
get_elem?-realloc m buf n i e p q = ground (
  arith,
  get_elem?-append (take n buf) (junk_bytes m (length buf) (n - length buf)) i,
  length-take n buf,
  get_elem?-take n buf i,
)

-- A copy that fits changes just the bytes that it covers.
pub memmove_lem :
    (buf : Bytes) (off : ℕ) (bytes : Bytes)
    → off + length bytes ≤ length buf
    → (new : Bytes) × (memmove buf off bytes ≡ some new)
      × (length new ≡ length buf)
      × ((i : ℕ)
          → get_elem? new i ≡ (
              if ltb i off
              then get_elem? buf i
              else if ltb i (off + length bytes)
              then get_elem? bytes (i - off)
              else get_elem? buf i))
unfolding memmove
memmove_lem buf off bytes h = (
  take off buf ++ (bytes ++ drop (off + length bytes) buf),
  ground arith,
  omega (
    arith,
    length-append (take off buf) (bytes ++ drop (off + length bytes) buf),
    length-append bytes (drop (off + length bytes) buf),
    length-take off buf,
    length-drop (off + length bytes) buf,
  ),
  λ i. ground (
    arith,
    get_elem?-append (take off buf) (bytes ++ drop (off + length bytes) buf) i,
    get_elem?-append bytes (drop (off + length bytes) buf) (i - off),
    length-take off buf,
    get_elem?-take off buf i,
    get_elem?-drop (off + length bytes) buf (i - off - length bytes),
  ),
)

-- So does a fill.
pub memset_lem :
    (buf : Bytes) (off v n : ℕ)
    → off + n ≤ length buf
    → (new : Bytes) × (memset buf off v n ≡ some new)
      × (length new ≡ length buf)
      × ((i : ℕ)
          → get_elem? new i ≡ (
              if ltb i off
              then get_elem? buf i
              else if ltb i (off + n)
              then some v
              else get_elem? buf i))
unfolding memset
memset_lem buf off v n h =
    let (new, e, l, g) =
      memmove_lem buf off (replicate n v) (omega (arith, length-replicate n v)) in
    (new, e, l, λ i. ground (arith, g i, length-replicate n v, get_elem?-replicate n v (i - off)))

-- A read that fits.
pub read_bytes_fits :
    (buf : Bytes) (off n : ℕ)
    → off + n ≤ length buf
    → read_bytes buf off n ≡ some (take n (drop off buf))
unfolding read_bytes
read_bytes_fits buf off n h = ground arith
