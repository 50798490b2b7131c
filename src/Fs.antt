-- ===== src/Fs.antt =====
-- The state of class FuseRamFs (src/fuse_cpp_ramfs.hpp and src/fuse_cpp_ramfs.cpp), its inode table,
-- and how a handler reaches an inode. An object that the program mutates through a pointer is
-- written back into its slot of the table, so that two names of one inode see the same object.
pub mod Create
pub mod Entries
pub mod Access
pub mod Mount
pub mod Requests
pub mod Checkpoint
pub mod ReadDir
use veri_fs.Base.{
  ℕ, suc, ◌+◌, ◌/◌, ◌%◌, Option, none, some, Bool, if◌then◌else◌, List, [], ◌∷◌, ◌++◌, ◌==◌, ◌>>=◌,
  length, get_elem?, set, ℤ, pos, neg,
}
use veri_fs.Types.{
  Name, Bytes, Attr, Inode, Node, file, directory, symlink, special, Statvfs, Abi, enoent,
}
use veri_fs.Replies.{Reply, err}
use veri_fs.Blocks.{update_used_blocks, update_used_inodes}
use veri_fs.Directory
use veri_fs.Directory.{DirectoryState}
use veri_fs.Inode.{
  with_attr, has_no_links, reply_entry, reply_create, increment_link_count, decrement_link_count,
}

-- A null pointer in the table is `none`.
abbrev pub Table : Type 0
Table = List (Option Inode)

-- verifs2_state: a saved table, queue of deleted inodes and counters.
pub record SavedState : Type 0 where
  pub stored_files : Table
  pub stored_deleted : List ℕ
  pub stored_stbuf : Statvfs

-- Directory::ReadDirCtx. The iterator is an index into the children.
pub record ReadDirCtx : Type 0 where
  pub cookie : ℕ
  pub it : ℕ
  pub children : List (Name × ℕ)

pub record Fs : Type 0 where
  pub inodes : Table
  pub deleted_inodes : List ℕ
  pub m_stbuf : Statvfs
  pub state_pool : List (ℕ × SavedState)
  pub readdir_states : List (ℕ × ReadDirCtx)

-- What a handler leaves: its replies in order and the new state. `none` is a failed assertion, an
-- access through a null pointer or an access out of bounds.
abbrev pub Outcome : Type 0
Outcome = Option (List Reply × Fs)

abbrev pub reply : Reply → Fs → Outcome
reply r fs = some (r ∷ [], fs)

-- struct fuse_ctx.
pub record Caller : Type 0 where
  pub uid : ℕ
  pub gid : ℕ

-- GetInode: a null pointer out of range too.
unfoldable pub get_inode : Fs → ℕ → Option Inode
get_inode fs ino = elim (get_elem? fs.inodes ino) [ none ↦ none | some slot ↦ slot ]

-- UpdateInode, and every write through a pointer to the inode of that slot.
unfoldable pub update_inode : ℕ → Inode → Fs → Fs
update_inode ino i fs = record fs { inodes = set fs.inodes ino (some i) }

-- AddInode.
unfoldable pub add_inode : Inode → Fs → ℕ × Fs
add_inode i fs = (length fs.inodes, record fs { inodes = fs.inodes ++ some i ∷ [] })

-- DeleteInode.
unfoldable pub delete_inode : ℕ → Fs → Fs
delete_inode ino fs = record fs {
  inodes = set fs.inodes ino none;
  deleted_inodes = fs.deleted_inodes ++ ino ∷ [];
}

-- RegisterInode up to the slot: AddInode, or PopOneDeletedInode and UpdateInode.
unfoldable pub take_slot : Inode → Fs → ℕ × Fs
unfolding add_inode update_inode
take_slot i fs = elim fs.deleted_inodes [
  | [] ↦ add_inode i fs
  | ino ∷ rest ↦ (ino, update_inode ino i (record fs { deleted_inodes = rest }))
]

abbrev pub use_blocks : ℕ → Fs → Fs
use_blocks n fs = record fs { m_stbuf = update_used_blocks n fs.m_stbuf }

abbrev pub use_inodes : ℕ → Fs → Fs
use_inodes n fs = record fs { m_stbuf = update_used_inodes n fs.m_stbuf }

-- The inode that the handlers accept: neither null nor without links.
unfoldable pub linked_inode : Fs → ℕ → Option Inode
unfolding get_inode has_no_links
linked_inode fs ino = elim (get_inode fs ino) [
  | none ↦ none
  | some i ↦ if has_no_links i then none else some i
]

-- dynamic_cast<Directory *>: the children, if it is one.
abbrev pub as_directory : Inode → Option (List (Name × ℕ))
as_directory i = elim i.node [ directory c ↦ some c | _ ↦ none ]

-- The state that the methods of a directory work on, and the way back into the table.
abbrev pub directory_state : Inode → List (Name × ℕ) → Fs → DirectoryState
directory_state i c fs = record { attr = i.attr; m_children = c; stbuf = fs.m_stbuf }

unfoldable pub put_directory : ℕ → Inode → DirectoryState → Fs → Fs
unfolding update_inode
put_directory ino i d fs =
    update_inode ino (record (with_attr i d.attr) { node = directory d.m_children })
      (record fs { m_stbuf = d.stbuf })

-- A change of the inode in a slot; a null slot is a null pointer.
unfoldable pub modify_inode : ℕ → (Inode → Inode) → Fs → Option Fs
unfolding get_inode update_inode
modify_inode ino f fs = elim (get_inode fs ino) [
  | none ↦ none
  | some i ↦ some (update_inode ino (f i) fs)
]

-- The children of the directory in a slot; another object or a null pointer is `none`.
unfoldable pub directory_at : Fs → ℕ → Option (Inode × List (Name × ℕ))
unfolding get_inode
directory_at fs ino = do i ← get_inode fs ino; c ← as_directory i; some (i, c)

-- A method of the directory in a slot.
unfoldable pub run_directory :
    ℕ → (DirectoryState → Option (ℤ × DirectoryState)) → Fs → Option (ℤ × Fs)
unfolding directory_at put_directory
run_directory dir method fs = do
  (i, c) ← directory_at fs dir
  (r, d) ← method (directory_state i c fs)
  some (r, put_directory dir i d fs)

-- AddChild, RemoveChild and UpdateChild of the directory in a slot.
module _ ⦃abi : Abi⦄ where
  unfoldable pub add_child_at : ℕ → Name → ℕ → Fs → Option (ℤ × Fs)
  unfolding run_directory
  add_child_at dir name ino = run_directory dir (Directory.add_child name ino)

  unfoldable pub remove_child_at : ℕ → ℕ → Name → Fs → Option (ℤ × Fs)
  unfolding run_directory
  remove_child_at now dir name = run_directory dir (Directory.remove_child now name)

unfoldable pub update_child_at : ℕ → ℕ → Name → ℕ → Fs → Option (ℤ × Fs)
unfolding run_directory
update_child_at now dir name ino =
    run_directory dir (λ d. some (Directory.update_child now name ino d))

-- GetInode(ino)->ReplyEntry and ->ReplyCreate.
unfoldable pub reply_entry_at : ℕ → Fs → Outcome
unfolding get_inode update_inode
reply_entry_at ino fs = do
  i ← get_inode fs ino
  let (r, j) = reply_entry i
  reply r (update_inode ino j fs)

unfoldable pub reply_create_at : ℕ → Fs → Outcome
unfolding get_inode update_inode
reply_create_at ino fs = do
  i ← get_inode fs ino
  let (r, j) = reply_create i
  reply r (update_inode ino j fs)
