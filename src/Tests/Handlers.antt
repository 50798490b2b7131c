-- ===== src/Tests/Handlers.antt =====
-- Runs of the theorems on handlers.
use mathlib.Core.Path.{subst}
use veri_fs.Base.{ℕ, ◌≡◌, refl, arith, List, [], ◌∷◌, Option, none, some, true, pos}
use veri_fs.Types.{Inode, directory, enoent}
use veri_fs.Names.{name_eq}
use veri_fs.Replies.{Reply, err, write, buf}
use veri_fs.Memory.{memmove}
use veri_fs.Blocks.{get_nblocks}
use veri_fs.File.{write_and_reply, write_into, zero_fill}
use veri_fs.File.Shape.{IsFile}
use veri_fs.Directory.{find, update_child, remove_child, update_size, elem_size}
use veri_fs.Directory.Children.{Distinct}
use veri_fs.Directory.Updates.{Updates, update_child-Updates}
use veri_fs.Inode.{has_no_links}
use veri_fs.Fs.{Fs, linked_inode, directory_at, reply}
use veri_fs.Fs.Access.{file_state, fuse_write, fuse_read, fuse_lookup}
use veri_fs.Fs.Access.RoundTrip.{fuse_read-fuse_write}
use veri_fs.Fs.Entries.{fuse_unlink, fuse_rmdir, drop_links}
use veri_fs.Fs.Entries.Links.{drop_links-has_no_links}
use veri_fs.Fs.Entries.Unlinked.{fuse_lookup-fuse_unlink, fuse_lookup-fuse_rmdir}
use veri_fs.Ledger.View.{same_state}
use veri_fs.Tests.Data.{x86_64, megabyte, hello_bytes, bang, readme, docs, docs-IsDirectory}
use veri_fs.Tests.Creation.{root}
use veri_fs.Tests.Saves.{before, hello_inode}

update_child-Updates_example :
    Updates readme 5 docs (update_child 9 readme 5 docs).0 (update_child 9 readme 5 docs).1
update_child-Updates_example = update_child-Updates 9 readme 5 docs docs-IsDirectory

drop_links-has_no_links_example : has_no_links (drop_links root.st_nlink root) ≡ true
drop_links-has_no_links_example = drop_links-has_no_links root (omega arith)

hello_there : linked_inode before 2 ≡ some hello_inode
unfolding linked_inode
hello_there = refl

hello_fits : IsFile (file_state hello_inode hello_bytes before)
unfolding get_nblocks
hello_fits = record {
  blocks = refl;
  buffer = refl;
  size_range = omega arith;
  free_range = omega arith;
}

abbrev outcome_or : Option (List Reply × Fs) → Fs
outcome_or none = before
outcome_or (some o) = o.1

abbrev after_write : Fs
after_write = outcome_or (fuse_write megabyte 9 2 (some bang) 4 before)

bang_written : fuse_write megabyte 9 2 (some bang) 4 before ≡ some (write 2 ∷ [], after_write)
unfolding fuse_write write_and_reply write_into zero_fill memmove
bang_written = refl

fuse_read-fuse_write_example :
    (hs : Fs) × (fuse_read 10 2 2 4 after_write ≡ some (buf bang ∷ [], hs))
fuse_read-fuse_write_example =
    fuse_read-fuse_write megabyte 9 10 2 bang 4 hello_inode hello_bytes before after_write
      hello_there refl hello_fits (omega arith) bang_written

-- The file under a name in the root directory.
abbrev named : Fs
named = record before {
  inodes =
      none ∷ some (record root { node = directory ((readme, 2) ∷ []) }) ∷ some hello_inode ∷ [];
}

abbrev after_unlink : Fs
after_unlink = outcome_or (fuse_unlink 9 1 readme named)

unlinked : fuse_unlink 9 1 readme named ≡ some (err (pos 0) ∷ [], after_unlink)
unfolding fuse_unlink name_eq remove_child update_size elem_size
unlinked = refl

named-Distinct :
    (i : Inode) (c : List (List ℕ × ℕ)) → directory_at named 1 ≡ some (i, c) → Distinct c
unfolding directory_at find
named-Distinct i c h = subst Distinct (same_state h) (refl, tt)

fuse_lookup-fuse_unlink_example :
    fuse_lookup 1 readme after_unlink ≡ reply (err (pos enoent)) after_unlink
fuse_lookup-fuse_unlink_example =
    fuse_lookup-fuse_unlink 9 1 readme named after_unlink named-Distinct unlinked

-- An empty directory under a name in the root directory.
abbrev nested : Fs
nested = record before {
  inodes =
      none
      ∷ some (record root { node = directory ((readme, 2) ∷ []) })
      ∷ some (record root { node = directory [] })
      ∷ [];
}

abbrev after_rmdir : Fs
after_rmdir = outcome_or (fuse_rmdir 9 1 readme nested)

directory_removed : fuse_rmdir 9 1 readme nested ≡ some (err (pos 0) ∷ [], after_rmdir)
unfolding fuse_rmdir name_eq remove_child update_size elem_size
directory_removed = refl

nested-Distinct :
    (i : Inode) (c : List (List ℕ × ℕ)) → directory_at nested 1 ≡ some (i, c) → Distinct c
unfolding directory_at find
nested-Distinct i c h = subst Distinct (same_state h) (refl, tt)

fuse_lookup-fuse_rmdir_example :
    fuse_lookup 1 readme after_rmdir ≡ reply (err (pos enoent)) after_rmdir
fuse_lookup-fuse_rmdir_example =
    fuse_lookup-fuse_rmdir 9 1 readme nested after_rmdir nested-Distinct directory_removed
