-- ===== src/Memory.antt =====
-- The C library's memory calls that the program makes, over buffers as lists of bytes.
-- `none` is an access outside of the buffer, except in `realloc`, where it is a null pointer.
pub mod Contents
use veri_fs.Base.{
  ℕ, zero, suc, ◌+◌, ◌-◌, Option, none, some, [], ◌∷◌, ◌++◌, Bool, if◌then◌else◌, leb, length, take,
  drop, replicate,
}
use veri_fs.Types.{Bytes}

-- The allocator: which sizes it grants, and what the fresh bytes of a block hold.
pub record Allocator : Type 0 where
  pub grants : ℕ → Bool
  pub junk : ℕ → ℕ

-- `n` fresh bytes, from index `i` of a block on.
abbrev pub junk_bytes : Allocator → ℕ → ℕ → Bytes
junk_bytes m i zero = []
junk_bytes m i (suc n) = m.junk i ∷ junk_bytes m (suc i) n

-- realloc: the common part is kept, the rest is whatever the allocator left there.
unfoldable pub realloc : Allocator → Bytes → ℕ → Option Bytes
realloc m buf n =
    if m.grants n then some (take n buf ++ junk_bytes m (length buf) (n - length buf)) else none

-- memmove and memcpy of `bytes` to buf + off.
unfoldable pub memmove : Bytes → ℕ → Bytes → Option Bytes
memmove buf off bytes =
    if leb (off + length bytes) (length buf)
    then some (take off buf ++ (bytes ++ drop (off + length bytes) buf))
    else none

-- memset of `n` bytes `v` at buf + off.
unfoldable pub memset : Bytes → ℕ → ℕ → ℕ → Option Bytes
unfolding memmove
memset buf off v n = memmove buf off (replicate n v)

-- The `n` bytes at buf + off that a reply copies out.
unfoldable pub read_bytes : Bytes → ℕ → ℕ → Option Bytes
read_bytes buf off n = if leb (off + n) (length buf) then some (take n (drop off buf)) else none
