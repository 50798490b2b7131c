-- ===== src/Tests/Runs.antt =====
-- A run of requests from a mount: a directory, a file in it, its removal and its end.
use veri_fs.Base.{ℕ, ◌≡◌, refl, arith, length, List, [], ◌∷◌, Option, none, some, true}
use veri_fs.Types.{Inode, special, no_block}
use veri_fs.Names.{name_eq}
use veri_fs.Memory.{realloc, memmove}
use veri_fs.Blocks.{get_nblocks, check_has_space_for, update_used_blocks, update_used_inodes}
use veri_fs.Directory
use veri_fs.Directory.{update_size, add_child, remove_child, elem_size}
use veri_fs.File.{write_and_reply, write_into, zero_fill}
use veri_fs.Inode.{
  new_inode, reply_entry, reply_create, decrement_link_count, forget, forgotten, has_no_links,
}
use veri_fs.Fs.Create.{fuse_mkdir, fuse_create}
use veri_fs.Fs.Access.{fuse_write}
use veri_fs.Fs.Entries.{fuse_unlink, fuse_forget}
use veri_fs.Fs.{Fs, get_inode}
use veri_fs.Fs.Mount.{construct, fuse_init}
use veri_fs.Fs.ReadDir.{Direntry}
use veri_fs.Fs.Requests.{World, Request, dispatch, run}
use veri_fs.Fs.Requests.Forgets.{forgets, freed, run-forgets}
use veri_fs.Fs.Access.{fuse_lookup}
use veri_fs.Ledger.{Step}
use veri_fs.Ledger.Sound.{IsSound}
use veri_fs.Ledger.View.{ledger}
use veri_fs.Ledger.Requests.{dispatch-Step, run-IsSound}
use veri_fs.Replies.{Reply}
use veri_fs.Tests.Data.{x86_64, megabyte, notes, readme, bang}
use veri_fs.Tests.Creation.{caller, small}

-- fuse_add_direntry writes the length of the name.
abbrev one_byte : Direntry
one_byte name a cookie = length name ∷ []

abbrev pub world : World
world = record {
  now = 5;
  later = 6;
  memory = true;
  allocator = megabyte;
  caller = caller;
  entry = one_byte;
  rands = 77 ∷ [];
}

-- mkdir /notes; create /notes/read; write to it; unlink it; forget it.
abbrev requests : List (World × Request)
requests =
    (world, Request.mkdir 1 notes 0x1ed)
    ∷ (world, Request.create 2 readme 0x1a4)
    ∷ (world, Request.write 3 (some bang) 0)
    ∷ (world, Request.unlink 2 readme)
    ∷ (world, Request.forget 3 1)
    ∷ []

-- The state of a result.
abbrev pub mounted_or : Option Fs → Fs
mounted_or none = small
mounted_or (some fs) = fs

abbrev found : Option Inode → Inode
found none = new_inode (special no_block)
found (some i) = i

abbrev mounted : Fs
mounted = mounted_or (fuse_init 1 caller 0x1ed (construct 100 50))

abbrev last : Fs
last = mounted_or (run requests mounted)

mount_works : fuse_init 1 caller 0x1ed (construct 100 50) ≡ some mounted
unfolding fuse_init new_inode construct update_size add_child Directory.find get_nblocks
    check_has_space_for elem_size name_eq
mount_works = refl

run_works : run requests mounted ≡ some last
unfolding run fuse_init fuse_mkdir fuse_create fuse_write fuse_unlink fuse_forget new_inode
    construct update_size add_child Directory.find get_nblocks check_has_space_for elem_size name_eq
    update_used_blocks update_used_inodes reply_entry reply_create write_and_reply write_into
    zero_fill realloc memmove remove_child Directory.erase decrement_link_count forget forgotten
    has_no_links
run_works = refl

run-IsSound_example : IsSound (ledger last)
run-IsSound_example =
    run-IsSound 100 50 1 caller 0x1ed requests mounted last (ground arith) (omega arith) mount_works
      run_works

-- The directory that the run made is number 2.
abbrev made : Inode
made = found (get_inode last 2)

abbrev outcome_or : Option (List Reply × Fs) → List Reply × Fs
outcome_or none = ([], small)
outcome_or (some o) = o

-- A directory made in the small file system.
abbrev again : List Reply × Fs
again = outcome_or (dispatch world (Request.mkdir 1 readme 0x1ed) small)

again_works : dispatch world (Request.mkdir 1 readme 0x1ed) small ≡ some (again.0, again.1)
unfolding dispatch fuse_init fuse_mkdir fuse_create fuse_write fuse_unlink fuse_forget new_inode
    construct update_size add_child Directory.find get_nblocks check_has_space_for elem_size name_eq
    update_used_blocks update_used_inodes reply_entry reply_create write_and_reply write_into
    zero_fill realloc memmove remove_child Directory.erase decrement_link_count forget forgotten
    has_no_links
again_works = refl

dispatch-Step_example : Step (ledger small) (ledger again.1)
dispatch-Step_example =
    dispatch-Step world (Request.mkdir 1 readme 0x1ed) small again.1 again.0 again_works

-- A file that is looked up, then unlinked: the kernel counts two references.
abbrev unlinked : Fs
unlinked = mounted_or (
    run
      ((world, Request.mkdir 1 notes 0x1ed)
        ∷ (world, Request.create 2 readme 0x1a4)
        ∷ (world, Request.write 3 (some bang) 0)
        ∷ (world, Request.lookup 2 readme)
        ∷ (world, Request.unlink 2 readme)
        ∷ [])
      mounted)

abbrev ghost : Inode
ghost = found (get_inode unlinked 3)

abbrev parts : List (World × ℕ)
parts = (world, 0) ∷ (world, 1) ∷ []

ghost_counts :
    (get_inode unlinked 3 ≡ some ghost)
    × (ghost.st_nlink ≡ 0)
    × (ghost.nlookup ≡ 2)
    × (ghost.st_blocks ≡ 1)
unfolding get_inode run fuse_init fuse_mkdir fuse_create fuse_write fuse_lookup fuse_unlink
    new_inode construct update_size add_child Directory.find get_nblocks check_has_space_for
    elem_size name_eq update_used_blocks update_used_inodes reply_entry reply_create write_and_reply
    write_into zero_fill realloc memmove remove_child Directory.erase decrement_link_count
    has_no_links
ghost_counts = (refl, refl, refl, refl)

run-forgets_example : run (forgets 3 ((world, 1) ∷ parts)) unlinked ≡ some (freed 3 ghost unlinked)
run-forgets_example =
    run-forgets 3 1 world parts ghost unlinked ghost_counts.0 ghost_counts.1
      (omega (arith, ghost_counts.2)) (omega (arith, ghost_counts.3))
      (omega (arith, ghost_counts.2))
