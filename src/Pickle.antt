-- ===== src/Pickle.antt =====
-- The pickled form of the file system: the Pickle and Load methods of src/inode.cpp, file.cpp,
-- directory.cpp, symlink.cpp and special_inode.cpp, and src/pickle.cpp in the children.
-- A pointer into the mapped file is the bytes from it on; `none` is a read past the end of them.
-- How the compiler lays a struct out is a parameter.
pub mod Words
pub mod Methods
pub mod Runs
pub mod System
pub mod StateFile
use veri_fs.Base.{
  ℕ, zero, suc, ◌+◌, ◌*◌, ◌/◌, ◌%◌, ◌≡◌, Option, none, some, Bool, if◌then◌else◌, List, [], ◌∷◌,
  leb, ◌>>=◌, length, take, drop,
}
use veri_fs.Types.{Bytes, EntryParam, SpecialInodeType, Statvfs}

-- A value's object in memory: sizeof, the bytes that memcpy copies out and the value that bytes
-- copied in stand for.
pub record Image (A : Type 0) : Type 0 where
  pub size : ℕ
  pub to_bytes : A → Bytes
  pub of_bytes : Bytes → A

-- The value's object has sizeof bytes, and a copy of them is the value.
pub record IsImage {A : Type 0} (image : Image A) (a : A) : Type 0 where
  pub sized : length (image.to_bytes a) ≡ image.size
  pub copied : image.of_bytes (image.to_bytes a) ≡ a

-- struct inode_state.
pub record InodeState : Type 0 where
  pub exist : Bool
  pub mode : ℕ

pub record Layout : Type 0 where
  pub entry_param : Image EntryParam
  pub statvfs : Image Statvfs
  pub inode_state : Image InodeState
  pub special_type : Image SpecialInodeType

-- The first n bytes of a number, the least significant one first.
abbrev pub le_bytes : ℕ → ℕ → Bytes
le_bytes zero x = []
le_bytes (suc n) x = x % 256 ∷ le_bytes n (x / 256)

abbrev pub le_value : Bytes → ℕ
le_value [] = 0
le_value (b ∷ bs) = b + 256 * le_value bs

-- memcpy from a size_t, unsigned long, fuse_ino_t or uint64_t.
unfoldable pub word_bytes : ℕ → Bytes
word_bytes x = le_bytes 8 x

-- memcpy of n bytes from the pointer, and the pointer moved past them.
unfoldable pub next : ℕ → Bytes → Option (Bytes × Bytes)
next n ptr = if leb n (length ptr) then some (take n ptr, drop n ptr) else none

unfoldable pub next_byte : Bytes → Option (ℕ × Bytes)
next_byte [] = none
next_byte (b ∷ ptr) = some (b, ptr)

-- memcpy to a 64-bit number.
unfoldable pub next_word : Bytes → Option (ℕ × Bytes)
unfolding next
next_word ptr = do (bytes, rest) ← next 8 ptr; some (le_value bytes, rest)

-- A length and as many bytes.
unfoldable pub next_string : Bytes → Option (Bytes × Bytes)
unfolding next_word next
next_string ptr = do (n, p) ← next_word ptr; next n p
