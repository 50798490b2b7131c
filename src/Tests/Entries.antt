-- ===== src/Tests/Entries.antt =====
-- Runs of the theorems on directories, attributes and sizes.
use veri_fs.Base.{◌+◌, ◌*◌, ◌≡◌, ◌<◌, ◌≤◌, refl, arith, length, some, [], ◌∷◌, ℤ, pos}
use veri_fs.Types.{buf_block_size}
use veri_fs.Replies.{Reply, buf, err}
use veri_fs.Blocks.{get_nblocks, check_has_space_for}
use veri_fs.Blocks.Rounding.{get_nblocks_least}
use veri_fs.Blocks.Room.{check_has_space_for_room}
use veri_fs.Directory.{DirectoryState, add_child, remove_child}
use veri_fs.Directory.Changes.{Adds, Removes, add_child-Adds, remove_child-Removes}
use veri_fs.Inode.Xattr
use veri_fs.Names.{name_eq}
use veri_fs.Memory.{realloc, memmove}
use veri_fs.Inode.Xattr.{Xattrs, set_xattr, get_xattr, name_list, name_list_size, store_value, put}
use veri_fs.Inode.Xattr.Laws.{Sets, set_xattr-Sets, get_xattr-set_xattr, name_list_size-length}
use veri_fs.Tests.Data.{
  x86_64, docs-IsDirectory, megabyte, docs, hello, bang, counters, readme, notes,
}

add_child-Adds_example :
    (r : ℤ) × (e : DirectoryState) × (add_child notes 3 docs ≡ some (r, e)) × Adds notes 3 docs r e
add_child-Adds_example = add_child-Adds notes docs docs-IsDirectory (omega arith) 3

remove_child-Removes_example :
    (r : ℤ) × (e : DirectoryState) × (remove_child 9 readme docs ≡ some (r, e))
    × Removes readme docs r e
remove_child-Removes_example = remove_child-Removes 9 readme docs docs-IsDirectory

-- An attribute "notes" that holds one byte.
abbrev attributed : Xattrs
attributed = (notes, b'x' ∷ []) ∷ []

set_xattr-Sets_example :
    (r : Reply) × (y : Xattrs) × (set_xattr megabyte notes bang 2 0 attributed ≡ some (r, y))
    × Sets megabyte notes bang 2 attributed r y
set_xattr-Sets_example = set_xattr-Sets megabyte notes bang 2 attributed (omega arith)

set_notes : set_xattr megabyte notes bang 2 0 attributed ≡ some (err (pos 0), (notes, bang) ∷ [])
unfolding set_xattr name_eq realloc memmove
set_notes = refl

get_xattr-set_xattr_example : get_xattr notes 16 0 ((notes, bang) ∷ []) ≡ some (buf bang)
unfolding Xattr.find name_eq
get_xattr-set_xattr_example =
    get_xattr-set_xattr megabyte notes bang 2 16 attributed ((notes, bang) ∷ []) (omega arith)
      set_notes (omega arith) (omega arith) (omega arith)

name_list_size-length_example : name_list_size attributed ≡ length (name_list attributed)
unfolding name_list
name_list_size-length_example = name_list_size-length attributed (omega arith)

get_nblocks_least_example :
    (513 ≤ get_nblocks 513 buf_block_size * buf_block_size)
    × (get_nblocks 513 buf_block_size * buf_block_size < 513 + buf_block_size)
get_nblocks_least_example = get_nblocks_least 513 (omega arith)

check_has_space_for_room_example :
    get_nblocks 5000 buf_block_size ≤ hello.attr.st_blocks + counters.f_bfree
unfolding check_has_space_for
check_has_space_for_room_example =
    check_has_space_for_room counters hello.attr 5000 (omega arith) (omega arith) (omega arith) refl
