-- ===== src/Directory.antt =====
-- src/directory.cpp: a directory's children, with its attributes and the counters that they move.
-- Each method returns its value and the new state; `none` is the failed assertion of UpdateSize.
pub mod Children
pub mod Shape
pub mod Changes
pub mod Keeps
pub mod Updates
use veri_fs.Base.{
  ℕ, ◌+◌, Option, none, some, Bool, ◌&&◌, if◌then◌else◌, not, List, [], ◌∷◌, ◌++◌, ◌==◌, ◌>>=◌,
  length, ℤ, pos, neg, add64, sub64, signed_ltb, is_negative,
}
use veri_fs.Types.{Name, Attr, Statvfs, Abi, buf_block_size, ino_notfound, enoent, eexist, enospc}
use veri_fs.Names.{name_eq}
use veri_fs.Blocks.{get_nblocks, update_used_blocks, check_has_space_for}

-- m_fuseEntryParam.attr, m_children and FuseRamFs::m_stbuf.
pub record DirectoryState : Type 0 where
  pub attr : Attr
  pub open attr use *
  pub m_children : List (Name × ℕ)
  pub stbuf : Statvfs

-- find: the inode number of the first child of that name; `none` is end().
unfoldable pub find : Name → List (Name × ℕ) → Option ℕ
find name [] = none
find name ((n, ino) ∷ rest) = if name_eq n name then some ino else find name rest

-- child->second = ino, for the child that find gives.
unfoldable pub assign : Name → ℕ → List (Name × ℕ) → List (Name × ℕ)
assign name ino [] = []
assign name ino ((n, old) ∷ rest) =
    if name_eq n name then (n, ino) ∷ rest else (n, old) ∷ assign name ino rest

-- m_children.erase, for the child that find gives.
unfoldable pub erase : Name → List (Name × ℕ) → List (Name × ℕ)
erase name [] = []
erase name ((n, old) ∷ rest) = if name_eq n name then rest else (n, old) ∷ erase name rest

-- _ChildInodeNumberWithName, and ChildInodeNumberWithName, which only locks around it.
unfoldable pub child_inode_number_with_name : Name → List (Name × ℕ) → ℕ
unfolding find
child_inode_number_with_name name children = elim (find name children) [
  | none ↦ ino_notfound
  | some ino ↦ ino
]

-- The part of UpdateSize after its assertion.
pub resize_to : ℕ → DirectoryState → DirectoryState
resize_to new_size d =
    let new_blocks = get_nblocks new_size buf_block_size in
    if new_blocks == d.st_blocks
    then record d { attr = record d.attr { st_size = new_size } }
    else record d {
      attr = record d.attr { st_size = new_size; st_blocks = new_blocks };
      stbuf = update_used_blocks (sub64 new_blocks d.st_blocks) d.stbuf;
    }

-- UpdateSize. The argument is signed.
unfoldable pub update_size : ℕ → DirectoryState → Option DirectoryState
unfolding resize_to
update_size delta d =
    if is_negative delta && signed_ltb d.st_size (sub64 0 delta)
    then none
    else some (resize_to (add64 d.st_size delta) d)

-- What the sizes of a directory are made of.
module _ ⦃abi : Abi⦄ where
  -- elem_size of _AddChild and _RemoveChild.
  unfoldable pub elem_size : Name → ℕ
  elem_size name = add64 (add64 (add64 abi.rb_node_size abi.ino_size) abi.string_size) (length name)

  -- _AddChild and AddChild.
  unfoldable pub add_child : Name → ℕ → DirectoryState → Option (ℤ × DirectoryState)
  add_child name ino d = elim (find name d.m_children) [
    | some _ ↦ some (neg (pos eexist), d)
    | none ↦
        if not (check_has_space_for d.stbuf (some d.attr) (elem_size name))
        then some (neg (pos enospc), d)
        else do
          e ←
              update_size (elem_size name)
                (record d { m_children = d.m_children ++ (name, ino) ∷ [] })
          some (pos 0, e)
  ]

  -- _RemoveChild and RemoveChild.
  unfoldable pub remove_child : ℕ → Name → DirectoryState → Option (ℤ × DirectoryState)
  remove_child now name d = elim (find name d.m_children) [
    | none ↦ some (neg (pos enoent), d)
    | some _ ↦ do
      e ← update_size (sub64 0 (elem_size name)) (record d { m_children = erase name d.m_children })
      some (pos 0, record e { attr = record e.attr { st_ctim = now; st_mtim = now } })
  ]

  -- The part of Initialize that is not Inode::Initialize.
  unfoldable pub initialize_size : DirectoryState → Option DirectoryState
  initialize_size d = update_size abi.vector_size d

-- _UpdateChild and UpdateChild.
unfoldable pub update_child : ℕ → Name → ℕ → DirectoryState → ℤ × DirectoryState
update_child now name ino d = elim (find name d.m_children) [
  | none ↦ (neg (pos enoent), d)
  | some _ ↦ (
    pos 0,
    record d {
      attr = record d.attr { st_ctim = now; st_mtim = now };
      m_children = assign name ino d.m_children;
    },
  )
]
