-- ===== src/Tests/Rollbacks.antt =====
-- A run of requests after a checkpoint, and the restore that undoes it.
use veri_fs.Base.{◌≡◌, refl, List, [], ◌∷◌, some, true, pos}
use veri_fs.Names.{name_eq}
use veri_fs.Memory.{realloc, memmove}
use veri_fs.Blocks.{get_nblocks, check_has_space_for, update_used_blocks, update_used_inodes}
use veri_fs.Directory
use veri_fs.Directory.{update_size, add_child, elem_size}
use veri_fs.File.{write_and_reply, write_into, zero_fill}
use veri_fs.Inode.{new_inode, reply_entry, reply_create, increment_link_count}
use veri_fs.Fs.{Fs}
use veri_fs.Fs.Create.{fuse_mkdir, fuse_create}
use veri_fs.Fs.Access.{fuse_write}
use veri_fs.Fs.Checkpoint.{restore, can_notify}
use veri_fs.Fs.Requests.{World, Request, run}
use veri_fs.Ledger.Rollback.{restore-run}
use veri_fs.Tests.Data.{x86_64, megabyte, notes, readme, bang}
use veri_fs.Tests.Saves.{before, before-IsCopyable, after, checkpointed}
use veri_fs.Tests.Runs.{world, mounted_or}

-- mkdir /notes; create /readme; write to it and to the file from before the checkpoint.
abbrev requests : List (World × Request)
requests =
    (world, Request.mkdir 1 notes 0x1ed)
    ∷ (world, Request.create 1 readme 0x1a4)
    ∷ (world, Request.write 4 (some bang) 0)
    ∷ (world, Request.write 2 (some bang) 9)
    ∷ []

abbrev changed : Fs
changed = mounted_or (run requests after)

run_works : run requests after ≡ some changed
unfolding run fuse_mkdir fuse_create fuse_write new_inode update_size add_child Directory.find
    get_nblocks check_has_space_for elem_size name_eq update_used_blocks update_used_inodes
    reply_entry reply_create write_and_reply write_into zero_fill realloc memmove
    increment_link_count
run_works = refl

changed_classes : can_notify changed.inodes ≡ true
unfolding can_notify run fuse_mkdir fuse_create fuse_write new_inode update_size add_child
    Directory.find get_nblocks check_has_space_for elem_size name_eq update_used_blocks
    update_used_inodes reply_entry reply_create write_and_reply write_into zero_fill realloc memmove
    increment_link_count
changed_classes = refl

restore-run_example :
    restore megabyte 7 changed
    ≡ some (
      pos 0,
      record changed {
        inodes = before.inodes;
        deleted_inodes = before.deleted_inodes;
        m_stbuf = before.m_stbuf;
        state_pool = before.state_pool;
      },
    )
restore-run_example =
    restore-run megabyte 7 requests before after changed before-IsCopyable (λ e. cc) checkpointed
      run_works changed_classes
