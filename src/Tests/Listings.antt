-- ===== src/Tests/Listings.antt =====
-- A listing of a directory whose two entries stand for itself.
use veri_fs.Base.{◌≡◌, ◌≤◌, refl, arith, [], ◌∷◌, some, true, length}
use veri_fs.Replies.{buf}
use veri_fs.Fs.{linked_inode}
use veri_fs.Fs.ReadDir.{Direntry, Filled, fill, fresh_key, fuse_read_dir}
use veri_fs.Fs.ReadDir.Fill.{entries_of, fill-room}
use veri_fs.Fs.ReadDir.Listing.{fuse_read_dir-lists}
use veri_fs.Tests.Data.{megabyte}
use veri_fs.Names.{dot, dot_dot}
use veri_fs.Tests.Creation.{small, root}

-- The inode number, the cookie and the name.
abbrev entry : Direntry
entry = λ name attr cookie. attr.st_ino ∷ cookie ∷ name

fuse_read_dir-lists_example :
    fuse_read_dir megabyte entry (70000 ∷ []) 1 4096 0 small
    ≡ some (buf (1 ∷ 292552705 ∷ b'.' ∷ 1 ∷ 292552706 ∷ b'.' ∷ b'.' ∷ []) ∷ [], small)
unfolding linked_inode fresh_key entries_of
fuse_read_dir-lists_example =
    fuse_read_dir-lists megabyte entry (70000 ∷ []) 1 4096 4464 small root
      ((dot, 1) ∷ (dot_dot, 1) ∷ []) refl refl refl tt refl (omega arith) (omega arith)

abbrev start : Filled
start = record { it = 0; cookie = 0; out = [] }

-- Room for the first entry only: the iterator is backed up on it.
abbrev stopped : Filled
stopped = record { it = 0; cookie = 2; out = 1 ∷ 1 ∷ b'.' ∷ [] }

fill-room_example : length stopped.out ≤ 5
unfolding fill
fill-room_example =
    fill-room entry true 5 small 0 ((dot, 1) ∷ (dot_dot, 1) ∷ []) start stopped (omega arith) refl
