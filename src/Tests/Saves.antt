-- ===== src/Tests/Saves.antt =====
-- A checkpoint of a file system with a file, changes, and the way back.
use veri_fs.Base.{◌≡◌, refl, arith, [], ◌∷◌, ◌++◌, none, some, false, pos, neg}
use veri_fs.Types.{Inode, file, enoent, eexist}
use veri_fs.Inode.{zero_attr}
use veri_fs.Fs.{Fs}
use veri_fs.Fs.Checkpoint.{checkpoint, restore, can_notify}
use veri_fs.Fs.Checkpoint.Laws.{
  IsCopyable, saved, restore-checkpoint, restore-restore, checkpoint-checkpoint,
}
use veri_fs.Replies.{ioctl_done}
use veri_fs.Ioctl.{verifs_checkpoint, verifs_restore, fuse_ioctl}
use veri_fs.Ioctl.Restores.{fuse_ioctl-fuse_ioctl}
use veri_fs.Tests.Layouts.{Machine, one_file, wide, header_image}
use veri_fs.Tests.Data.{megabyte, hello_bytes}
use veri_fs.Tests.Creation.{small}

abbrev pub hello_inode : Inode
hello_inode = record {
  marked_for_deletion = false;
  nlookup = 1;
  entry_param = record {
    ino = 2;
    generation = 0;
    attr = record zero_attr {
      st_ino = 2;
      st_mode = 0x81a4;
      st_nlink = 1;
      st_size = 5;
      st_blocks = 1;
    };
    attr_timeout = 1;
    entry_timeout = 1;
  };
  xattr = [];
  node = file hello_bytes;
}

abbrev pub before : Fs
before = record small { inodes = small.inodes ++ some hello_inode ∷ [] }

abbrev blank : Machine
blank = record { file_bytes = []; offset = 0; sum = 0 }

pub before-IsCopyable : IsCopyable megabyte before.inodes
before-IsCopyable = (
  refl,
  (omega arith, omega arith, omega arith),
  (refl, refl, (refl, (refl, refl, omega arith, refl), tt)),
)

abbrev pub after : Fs
after = record before { state_pool = (7, saved before) ∷ [] }

pub checkpointed : checkpoint megabyte 7 before ≡ some (pos 0, after)
unfolding checkpoint
checkpointed = refl

-- The root directory and the file are gone, the pool is as the checkpoint left it.
abbrev emptied : Fs
emptied = record after { inodes = none ∷ []; deleted_inodes = 1 ∷ 2 ∷ [] }

restore-checkpoint_example : restore megabyte 7 emptied ≡ some (pos 0, before)
unfolding can_notify
restore-checkpoint_example =
    restore-checkpoint megabyte 7 before after emptied before-IsCopyable (λ e. cc) checkpointed refl
      refl

restored : restore megabyte 7 emptied ≡ some (pos 0, before)
unfolding can_notify
restored =
    restore-checkpoint megabyte 7 before after emptied before-IsCopyable (λ e. cc) checkpointed refl
      refl

restore-restore_example : restore megabyte 7 before ≡ some (neg (pos enoent), before)
unfolding can_notify
restore-restore_example =
    restore-restore megabyte 7 before after emptied before before-IsCopyable (λ e. cc) checkpointed
      refl restore-checkpoint_example refl

checkpoint-checkpoint_example : checkpoint megabyte 7 emptied ≡ some (neg (pos eexist), emptied)
checkpoint-checkpoint_example =
    checkpoint-checkpoint megabyte 7 before after emptied before-IsCopyable checkpointed refl tt

-- The same by ioctl: the pool has the checkpoint of the first request.
ioctl_checkpointed :
    fuse_ioctl one_file wide header_image megabyte 9 verifs_checkpoint 7 before blank
    ≡ some (ioctl_done 0, after, blank)
unfolding fuse_ioctl
ioctl_checkpointed = refl

fuse_ioctl-fuse_ioctl_example :
    fuse_ioctl one_file wide header_image megabyte 9 verifs_restore 7 emptied blank
    ≡ some (ioctl_done 0, before, blank)
unfolding can_notify
fuse_ioctl-fuse_ioctl_example =
    fuse_ioctl-fuse_ioctl one_file wide header_image megabyte 9 7 before after emptied blank blank
      blank before-IsCopyable (λ e. cc) ioctl_checkpointed refl refl
