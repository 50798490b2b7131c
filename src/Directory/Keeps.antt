-- ===== src/Directory/Keeps.antt =====
-- What no method of a directory changes: its number, and the counts of inodes.
use veri_fs.Base.{ℕ, ◌≡◌, none, some, ◌∷◌, [], ◌++◌, arith, ℤ}
use veri_fs.Types.{Name, Abi}
use veri_fs.Blocks.{update_used_blocks}
use veri_fs.Names.{name_eq_refl}
use veri_fs.Directory.Children.{Distinct, find-erase}
use veri_fs.Directory.{
  find, DirectoryState, elem_size, resize_to, update_size, add_child, remove_child, update_child,
}

pub record Keeps (d e : DirectoryState) : Type 0 where
  pub number : e.st_ino ≡ d.st_ino
  pub free_count : e.stbuf.f_ffree ≡ d.stbuf.f_ffree
  pub total : e.stbuf.f_files ≡ d.stbuf.f_files

pub update_size-Keeps :
    (delta : ℕ) (d e : DirectoryState) → update_size delta d ≡ some e → Keeps d e
unfolding update_size resize_to update_used_blocks
update_size-Keeps delta d e h = record {
  number = ground arith;
  free_count = ground arith;
  total = ground arith;
}

pub update_child-Keeps :
    (now : ℕ) (name : Name) (ino : ℕ) (d : DirectoryState) → Keeps d (update_child now name ino d).1
unfolding update_child
update_child-Keeps now name ino d = record {
  number = ground arith;
  free_count = ground arith;
  total = ground arith;
}

module _ ⦃abi : Abi⦄ where
  pub add_child-Keeps :
      (name : Name) (ino : ℕ) (d e : DirectoryState) (r : ℤ)
      → add_child name ino d ≡ some (r, e)
      → Keeps d e
  unfolding add_child
  add_child-Keeps name ino d e r h =
      let grown =
        update_size-Keeps (elem_size name)
          (record d { m_children = d.m_children ++ (name, ino) ∷ [] }) e in
      record {
        number = ground (arith, grown);
        free_count = ground (arith, grown);
        total = ground (arith, grown);
      }

  pub remove_child-Keeps :
      (now : ℕ) (name : Name) (d e : DirectoryState) (r : ℤ)
      → remove_child now name d ≡ some (r, e)
      → Keeps d e
  unfolding remove_child update_size resize_to update_used_blocks
  remove_child-Keeps now name d e r h = record {
    number = ground arith;
    free_count = ground arith;
    total = ground arith;
  }

  -- A removal leaves a directory without the name.
  pub remove_child-find :
      (now : ℕ) (name : Name) (d e : DirectoryState) (r : ℤ)
      → Distinct d.m_children
      → remove_child now name d ≡ some (r, e)
      → find name e.m_children ≡ none
  unfolding remove_child update_size resize_to
  remove_child-find now name d e r v h =
      ground (arith, find-erase name name d.m_children v, name_eq_refl name)
