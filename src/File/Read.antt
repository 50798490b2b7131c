-- ===== src/File/Read.antt =====
-- ReadAndReply of src/file.cpp, and reading back what a write put there.
use mathlib.Core.Path.{subst}
use veri_fs.Base.{
  ◌∙◌, sym, ap, ℕ, ◌+◌, ◌≡◌, ◌<◌, ◌≤◌, refl, inl, inr, some, true, false, if◌then◌else◌, [], ◌∷◌,
  ltb, length, take, drop, arith, word, sign_bit, add64, sub64, signed_ltb, Bool-cases,
  get_elem?-take, get_elem?-drop, get_elem?_out, list_ext,
}
use veri_fs.Types.{Bytes}
use veri_fs.Memory.{Allocator}
use veri_fs.Memory.Contents.{read_bytes_fits}
use veri_fs.Blocks.Rounding.{get_nblocks_least}
use veri_fs.Replies.{Reply, write, buf}
use veri_fs.File.{FileState, write_and_reply, read_and_reply, contents}
use veri_fs.File.Shape.{IsFile}
use veri_fs.File.Write.{Writes, write_and_reply-Writes}

-- The number of bytes that a read replies with.
abbrev bytes_read : FileState → ℕ → ℕ → ℕ
bytes_read f off size = if ltb f.st_size (add64 off size) then sub64 f.st_size off else size

-- The state after a read: only the access time moves, and only if the read starts in the file.
abbrev pub after_read : ℕ → ℕ → FileState → FileState
after_read now off f =
    if signed_ltb f.st_size off then f else record f { attr = record f.attr { st_atim = now } }

module _ (f : FileState) (size off : ℕ) (v : IsFile f) (h : off < sign_bit)
    (k : off + size < word) where
  read_past : signed_ltb f.st_size off ≡ true → [] ≡ take size (drop off (contents f))
  read_past e = list_ext _ _ (λ i. ground (
    arith,
    v.size_range,
    get_elem?-take size (drop off (contents f)) i,
    get_elem?-drop off (contents f) i,
    get_elem?-take f.st_size f.m_buf (off + i),
  ))

  read_within :
      signed_ltb f.st_size off ≡ false
      → take (bytes_read f off size) (drop off f.m_buf) ≡ take size (drop off (contents f))
  read_within e = list_ext _ _ (λ i. ground (
    arith,
    v.size_range,
    get_elem?-take size (drop off (contents f)) i,
    get_elem?-drop off (contents f) i,
    get_elem?-take f.st_size f.m_buf (off + i),
    get_elem?-take (bytes_read f off size) (drop off f.m_buf) i,
    get_elem?-drop off f.m_buf i,
  ))

  read_fits : signed_ltb f.st_size off ≡ false → off + bytes_read f off size ≤ length f.m_buf
  read_fits e =
      ground (arith, v.size_range, v.blocks, v.buffer, get_nblocks_least f.st_size v.size_range)

-- A read at off < 2 ^ 63 of `size` bytes, with off + size < 2 ^ 64, of a file of the right shape
-- never leaves the buffer; it replies with the file's bytes from `off` on, `size` of them or as
-- many as there are, and changes at most the access time.
pub read_and_reply-contents :
    (now size off : ℕ) (f : FileState)
    → IsFile f
    → off < sign_bit
    → off + size < word
    → read_and_reply now size off f
      ≡ some (buf (take size (drop off (contents f))), after_read now off f)
unfolding read_and_reply
read_and_reply-contents now size off f v h k = elim (Bool-cases (signed_ltb f.st_size off)) [
  | inl past ↦ rw (past, read_past f size off v h k past)
  | inr within ↦ rw (
    within,
    read_bytes_fits f.m_buf off _ (read_fits f size off v h k within),
    read_within f size off v h k within,
  )
]

take_nothing : (src b : Bytes) → write 0 ≡ write (length src) → take (length src) b ≡ src
take_nothing [] b e = refl
take_nothing (x ∷ xs) b e = cc

Writes-range :
    (m : Allocator) (f g : FileState) (src : Bytes) (off : ℕ) (r : Reply)
    → Writes m f src off r g
    → r ≡ write (length src)
    → take (length src) (drop off (contents g)) ≡ src
Writes-range m f g src off r (Writes.no_space p) e = cc
Writes-range m f g src off r (Writes.no_memory p q s) e = take_nothing src (drop off (contents f)) e
Writes-range m f g src off r (Writes.done p v s c b) e = list_ext _ _ (λ i. ground (
  arith,
  get_elem?-take (length src) (drop off (contents g)) i,
  get_elem?-drop off (contents g) i,
  c (off + i),
  get_elem?_out src i,
))

-- Every write keeps the shape, however it ends.
pub Writes-IsFile :
    {m : Allocator} {f g : FileState} {src : Bytes} {off : ℕ} {r : Reply}
    → IsFile f
    → Writes m f src off r g
    → IsFile g
Writes-IsFile v (Writes.no_space p) = v
Writes-IsFile v (Writes.no_memory p q s) = v
Writes-IsFile v (Writes.done p w s c b) = w

-- After a write to a file of the right shape, with off + length src < 2 ^ 63, that reports all
-- its bytes, a read of the same range replies with the bytes written.
pub read_and_reply-write_and_reply :
    (m : Allocator) (now later : ℕ) (src : Bytes) (off : ℕ) (f g : FileState)
    → IsFile f
    → off + length src < sign_bit
    → write_and_reply m now src off f ≡ some (write (length src), g)
    → read_and_reply later (length src) off g ≡ some (buf src, after_read later off g)
read_and_reply-write_and_reply m now later src off f g v h e =
    let (r, g', p, w) = write_and_reply-Writes m now src off f v h in
    let same : g' ≡ g = cc in
    let done : r ≡ write (length src) = cc in
    let shape : IsFile g = subst IsFile same (Writes-IsFile v w) in
    read_and_reply-contents later (length src) off g shape (omega arith) (omega arith)
    ∙ ap (λ b. some (buf b, after_read later off g))
        (ap (λ s. take (length src) (drop off (contents s))) (sym same)
          ∙ Writes-range m f g' src off r w done)
