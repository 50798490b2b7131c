-- ===== src/Fs/Access.antt =====
-- The handlers of src/fuse_cpp_ramfs.cpp that read or change one inode: lookup, attributes, opening
-- and closing, reading and writing, extended attributes, access, statfs.
pub mod RoundTrip
use veri_fs.Base.{[], ℕ, Option, none, some, if◌then◌else◌, ◌==◌, ◌>>=◌, pos, is_zero}
use veri_fs.Types.{
  Name, Bytes, Attr, Inode, file, directory, symlink, special, ino_notfound, enoent, enotdir,
  einval, eisdir,
}
use veri_fs.Replies.{Reply, err, attributes, opened, link_target, counters}
use veri_fs.Memory.{Allocator}
use veri_fs.Directory.{child_inode_number_with_name}
use veri_fs.File
use veri_fs.File.{FileState}
use veri_fs.Inode.{flag, with_attr, reply_attr, reply_set_attr, reply_access}
use veri_fs.Inode.Xattr
use veri_fs.Fs.{
  Fs, Outcome, Caller, reply, get_inode, update_inode, linked_inode, as_directory, reply_entry_at,
}
use veri_fs.Fs.Entries.{is_dir}

-- The state that the methods of a file work on, and the way back into the table.
abbrev pub file_state : Inode → Bytes → Fs → FileState
file_state i b fs = record { attr = i.attr; m_buf = b; stbuf = fs.m_stbuf }

unfoldable pub put_file : ℕ → Inode → FileState → Fs → Fs
unfolding update_inode
put_file ino i f fs =
    update_inode ino (record (with_attr i f.attr) { node = file f.m_buf })
      (record fs { m_stbuf = f.stbuf })

-- FuseLookup.
unfoldable pub fuse_lookup : ℕ → Name → Fs → Outcome
unfolding linked_inode child_inode_number_with_name reply_entry_at
fuse_lookup parent name fs = elim (linked_inode fs parent) [
  | none ↦ reply (err (pos enoent)) fs
  | some p ↦ elim (as_directory p) [
    | none ↦ reply (err (pos enotdir)) fs
    | some c ↦
        let ino = child_inode_number_with_name name c in
        if ino == ino_notfound then reply (err (pos enoent)) fs else elim (linked_inode fs ino) [
          | none ↦ reply (err (pos enoent)) fs
          | some i ↦ reply_entry_at ino fs
        ]
  ]
]

-- FuseGetAttr.
unfoldable pub fuse_get_attr : ℕ → Fs → Outcome
unfolding linked_inode reply_attr
fuse_get_attr ino fs = elim (linked_inode fs ino) [
  | none ↦ reply (err (pos enoent)) fs
  | some i ↦ reply (reply_attr i) fs
]

-- The branch of FuseSetAttr for a new size, which looks at no other bit.
unfoldable pub set_size : Allocator → ℕ → ℕ → ℕ → Inode → Fs → Outcome
unfolding put_file
set_size m now ino size i fs = elim i.node [
  | file b ↦ do
    (ret, f) ← File.file_truncate m now size (file_state i b fs)
    let after = put_file ino i f fs
    if is_zero ret then reply (attributes f.attr 1) after else reply (err ret) after
  | _ ↦ reply (err (pos (if is_dir i then eisdir else einval))) fs
]

-- FuseSetAttr. Bit 3 is FUSE_SET_ATTR_SIZE.
unfoldable pub fuse_set_attr : Allocator → ℕ → ℕ → Attr → ℕ → Fs → Outcome
unfolding linked_inode update_inode set_size reply_set_attr
fuse_set_attr m now ino wanted to_set fs = elim (linked_inode fs ino) [
  | none ↦ reply (err (pos enoent)) fs
  | some i ↦
      if flag to_set 3
      then set_size m now ino wanted.st_size i fs
      else let (r, j) = reply_set_attr now now wanted to_set i in reply r (update_inode ino j fs)
]

-- FuseOpenDir and FuseReleaseDir, which differ in the reply that they end with. A file is refused,
-- any other object is not.
unfoldable pub with_non_file : Reply → ℕ → Fs → Outcome
unfolding linked_inode
with_non_file good ino fs = elim (linked_inode fs ino) [
  | none ↦ reply (err (pos enoent)) fs
  | some i ↦ elim i.node [ file b ↦ reply (err (pos enotdir)) fs | _ ↦ reply good fs ]
]

unfoldable pub fuse_open_dir : ℕ → Fs → Outcome
unfolding with_non_file
fuse_open_dir ino fs = with_non_file opened ino fs

unfoldable pub fuse_release_dir : ℕ → Fs → Outcome
unfolding with_non_file
fuse_release_dir ino fs = with_non_file (err (pos 0)) ino fs

-- FuseOpen and FuseRelease.
unfoldable pub with_non_directory : Reply → ℕ → Fs → Outcome
unfolding linked_inode
with_non_directory good ino fs = elim (linked_inode fs ino) [
  | none ↦ reply (err (pos enoent)) fs
  | some i ↦ elim i.node [ directory c ↦ reply (err (pos eisdir)) fs | _ ↦ reply good fs ]
]

unfoldable pub fuse_open : ℕ → Fs → Outcome
unfolding with_non_directory
fuse_open ino fs = with_non_directory opened ino fs

unfoldable pub fuse_release : ℕ → Fs → Outcome
unfolding with_non_directory
fuse_release ino fs = with_non_directory (err (pos 0)) ino fs

-- FuseFsync, FuseFsyncDir, FuseFlush.
unfoldable pub fuse_fsync : ℕ → Fs → Outcome
unfolding get_inode
fuse_fsync ino fs = elim (get_inode fs ino) [
  | none ↦ reply (err (pos enoent)) fs
  | some i ↦ reply (err (pos 0)) fs
]

unfoldable pub fuse_fsync_dir : ℕ → Fs → Outcome
unfolding linked_inode
fuse_fsync_dir ino fs = elim (linked_inode fs ino) [
  | none ↦ reply (err (pos enoent)) fs
  | some i ↦ elim (as_directory i) [
    | none ↦ reply (err (pos enotdir)) fs
    | some c ↦ reply (err (pos 0)) fs
  ]
]

unfoldable pub fuse_flush : ℕ → Fs → Outcome
fuse_flush ino fs = reply (err (pos 0)) fs

-- WriteAndReply, by the class of the object in the slot.
unfoldable pub write_at : Allocator → ℕ → ℕ → Bytes → ℕ → Inode → Fs → Outcome
unfolding put_file
write_at m now ino src off i fs = elim i.node [
  | file b ↦ do
    (r, f) ← File.write_and_reply m now src off (file_state i b fs)
    reply r (put_file ino i f fs)
  | directory c ↦ reply (err (pos eisdir)) fs
  | symlink t ↦ reply (err (pos eisdir)) fs
  | special t ↦ reply (err (pos enoent)) fs
]

-- ReadAndReply, by the class of the object in the slot.
unfoldable pub read_at : ℕ → ℕ → ℕ → ℕ → Inode → Fs → Outcome
unfolding put_file
read_at now ino size off i fs = elim i.node [
  | file b ↦ do
    (r, f) ← File.read_and_reply now size off (file_state i b fs)
    reply r (put_file ino i f fs)
  | directory c ↦ reply (err (pos eisdir)) fs
  | symlink t ↦ reply (err (pos eisdir)) fs
  | special t ↦ reply (err (pos enoent)) fs
]

-- FuseWrite. A null buffer is `none`.
unfoldable pub fuse_write : Allocator → ℕ → ℕ → Option Bytes → ℕ → Fs → Outcome
unfolding linked_inode write_at
fuse_write m now ino none off fs = reply (err (pos einval)) fs
fuse_write m now ino (some src) off fs = elim (linked_inode fs ino) [
  | none ↦ reply (err (pos enoent)) fs
  | some i ↦ write_at m now ino src off i fs
]

-- FuseRead.
unfoldable pub fuse_read : ℕ → ℕ → ℕ → ℕ → Fs → Outcome
unfolding linked_inode read_at
fuse_read now ino size off fs = elim (linked_inode fs ino) [
  | none ↦ reply (err (pos enoent)) fs
  | some i ↦ read_at now ino size off i fs
]

-- FuseReadLink.
unfoldable pub fuse_read_link : ℕ → Fs → Outcome
unfolding linked_inode
fuse_read_link ino fs = elim (linked_inode fs ino) [
  | none ↦ reply (err (pos enoent)) fs
  | some i ↦ elim i.node [ symlink t ↦ reply (link_target t) fs | _ ↦ reply (err (pos einval)) fs ]
]

-- FuseStatfs.
unfoldable pub fuse_statfs : ℕ → Fs → Outcome
fuse_statfs ino fs = reply (counters fs.m_stbuf) fs

-- FuseSetXAttr, FuseGetXAttr, FuseListXAttr, FuseRemoveXAttr; the position is 0 off Apple's systems.
unfoldable pub fuse_set_xattr : Allocator → ℕ → Name → Bytes → ℕ → Fs → Outcome
unfolding linked_inode update_inode
fuse_set_xattr m ino name value flags fs = elim (linked_inode fs ino) [
  | none ↦ reply (err (pos enoent)) fs
  | some i ↦ do
    (r, x) ← Xattr.set_xattr m name value flags 0 i.xattr
    reply r (update_inode ino (record i { xattr = x }) fs)
]

unfoldable pub fuse_get_xattr : ℕ → Name → ℕ → Fs → Outcome
unfolding linked_inode
fuse_get_xattr ino name size fs = elim (linked_inode fs ino) [
  | none ↦ reply (err (pos enoent)) fs
  | some i ↦ do r ← Xattr.get_xattr name size 0 i.xattr; reply r fs
]

unfoldable pub fuse_list_xattr : Allocator → ℕ → ℕ → Fs → Outcome
unfolding linked_inode
fuse_list_xattr m ino size fs = elim (linked_inode fs ino) [
  | none ↦ reply (err (pos enoent)) fs
  | some i ↦ reply (Xattr.list_xattr m size i.xattr) fs
]

unfoldable pub fuse_remove_xattr : ℕ → Name → Fs → Outcome
unfolding linked_inode update_inode
fuse_remove_xattr ino name fs = elim (linked_inode fs ino) [
  | none ↦ reply (err (pos enoent)) fs
  | some i ↦
      let (r, x) = Xattr.remove_xattr name i.xattr in
      reply r (update_inode ino (record i { xattr = x }) fs)
]

-- FuseAccess.
unfoldable pub fuse_access : Caller → ℕ → ℕ → Fs → Outcome
unfolding linked_inode reply_access
fuse_access ctx ino mask fs = elim (linked_inode fs ino) [
  | none ↦ reply (err (pos enoent)) fs
  | some i ↦ reply (reply_access mask ctx.gid ctx.uid i) fs
]

-- FuseGetLock: nothing, not even a reply.
unfoldable pub fuse_get_lock : ℕ → Fs → Outcome
fuse_get_lock ino fs = some ([], fs)
