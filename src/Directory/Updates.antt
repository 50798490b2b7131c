-- ===== src/Directory/Updates.antt =====
-- What _UpdateChild of src/directory.cpp does, on both branches.
use veri_fs.Base.{
  ℕ, ◌≡◌, refl, none, some, if◌then◌else◌, arith, Option-cases, inl, inr, ℤ, pos, neg,
}
use veri_fs.Types.{Name, Abi, enoent}
use veri_fs.Names.{name_eq}
use veri_fs.Directory.{DirectoryState, find, update_child}
use veri_fs.Directory.Children.{find-assign, assign-Distinct, children_bytes-assign}
use veri_fs.Directory.Shape.{IsDirectory}

-- How changing a child's inode number ends: there is no such child, or the name stands for the new
-- number, every other name for what it did, the shape holds, and the size is as before.
pub data Updates ⦃abi : Abi⦄ (name : Name) (ino : ℕ) (d : DirectoryState)
    : ℤ → DirectoryState → Type 0 where
  missing : find name d.m_children ≡ none → Updates name ino d (neg (pos enoent)) d
  done :
      {e : DirectoryState} (old : ℕ)
      → find name d.m_children ≡ some old
      → IsDirectory e
      → ((j : Name)
          → find j e.m_children ≡ (if name_eq name j then some ino else find j d.m_children))
      → e.st_size ≡ d.st_size
      → Updates name ino d (pos 0) e

-- Changing a child's inode number in a directory of the right shape ends in one of two ways:
-- -ENOENT and nothing changes, where there is no such child; or 0, and then the name stands for
-- the new number, every other name for what it did, the directory keeps its shape, and its size
-- is as before.
pub update_child-Updates :
    ⦃abi : Abi⦄ (now : ℕ) (name : Name) (ino : ℕ) (d : DirectoryState)
    → IsDirectory d
    → Updates name ino d (update_child now name ino d).0 (update_child now name ino d).1
unfolding update_child
update_child-Updates now name ino d v = elim (Option-cases (find name d.m_children)) [
  | inl p ↦ rw (p, update_child) (missing p)
  | inr (old, p) ↦
      rw (p, update_child)
        (done old p
          (record {
            distinct = assign-Distinct name ino d.m_children v.distinct;
            size = omega (arith, v.size, children_bytes-assign name ino d.m_children);
            blocks = v.blocks;
            size_range = v.size_range;
            free_range = v.free_range;
          })
          (λ j. find-assign j name ino old d.m_children p) refl)
]
