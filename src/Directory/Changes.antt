-- ===== src/Directory/Changes.antt =====
-- What each change to a directory does, on every branch.
use veri_fs.Base.{
  ℕ, ◌+◌, ◌-◌, ◌≤◌, ◌<◌, ◌≡◌, sym, ◌∙◌, ap, none, some, true, false, if◌then◌else◌, [], ◌∷◌, ◌++◌,
  arith, Bool-cases, Option-cases, inl, inr, ℤ, pos, neg, word, sign_bit, add64, sub64,
}
use veri_fs.Types.{Name, Abi, buf_block_size, enoent, eexist, enospc}
use veri_fs.Names.{name_eq}
use veri_fs.Blocks.{get_nblocks, update_used_blocks, check_has_space_for}
use veri_fs.Blocks.Rounding.{get_nblocks_mono}
use veri_fs.Directory.{
  DirectoryState, find, erase, elem_size, resize_to, update_size, add_child, remove_child,
}
use veri_fs.Directory.Children.{
  Distinct, entry_bytes, children_bytes, find-append, find-erase, append-Distinct, erase-Distinct,
  children_bytes-append, children_bytes-erase,
}
use veri_fs.Directory.Shape.{IsDirectory}

resize_to-m_children : (n : ℕ) (d : DirectoryState) → (resize_to n d).m_children ≡ d.m_children
unfolding resize_to
resize_to-m_children n d = ground arith

resize_to-st_size : (n : ℕ) (d : DirectoryState) → (resize_to n d).st_size ≡ n
unfolding resize_to
resize_to-st_size n d = ground arith

resize_to-st_blocks :
    (n : ℕ) (d : DirectoryState) → (resize_to n d).st_blocks ≡ get_nblocks n buf_block_size
unfolding resize_to
resize_to-st_blocks n d = ground arith

resize_to-balance :
    (n : ℕ) (d : DirectoryState)
    → n < sign_bit
    → d.st_blocks + d.stbuf.f_bfree < word
    → get_nblocks n buf_block_size ≤ d.st_blocks + d.stbuf.f_bfree
    → (resize_to n d).stbuf.f_bfree + (resize_to n d).st_blocks ≡ d.stbuf.f_bfree + d.st_blocks
unfolding resize_to update_used_blocks
resize_to-balance n d h r room = ground arith

update_size_grows :
    (delta : ℕ) (d : DirectoryState)
    → d.st_size + delta < sign_bit
    → update_size delta d ≡ some (resize_to (d.st_size + delta) d)
unfolding update_size
update_size_grows delta d h =
    let e : add64 d.st_size delta ≡ d.st_size + delta = omega arith in rw e (ground arith)

update_size_shrinks :
    (delta : ℕ) (d : DirectoryState)
    → d.st_size < sign_bit
    → delta ≤ d.st_size
    → update_size (sub64 0 delta) d ≡ some (resize_to (d.st_size - delta) d)
unfolding update_size
update_size_shrinks delta d h k =
    let e : add64 d.st_size (sub64 0 delta) ≡ d.st_size - delta = omega arith in rw e (ground arith)

module _ ⦃abi : Abi⦄ where
  -- How adding a child ends: the name is taken, the blocks do not suffice, or the child is there,
  -- every other name is as before, and the directory gains the blocks that the file system loses.
  pub data Adds (name : Name) (ino : ℕ) (d : DirectoryState) : ℤ → DirectoryState → Type 0 where
    taken : (old : ℕ) → find name d.m_children ≡ some old → Adds name ino d (neg (pos eexist)) d
    no_space :
        find name d.m_children ≡ none
        → d.st_blocks + d.stbuf.f_bfree < get_nblocks (d.st_size + entry_bytes name) buf_block_size
        → Adds name ino d (neg (pos enospc)) d
    done :
        {e : DirectoryState}
        → find name d.m_children ≡ none
        → IsDirectory e
        → ((j : Name)
            → find j e.m_children ≡ (if name_eq name j then some ino else find j d.m_children))
        → e.stbuf.f_bfree + e.st_blocks ≡ d.stbuf.f_bfree + d.st_blocks
        → Adds name ino d (pos 0) e

  -- How removing a child ends: there is none, or it is gone, every other name is as before, and the
  -- directory gives back the blocks that it no longer needs.
  pub data Removes (name : Name) (d : DirectoryState) : ℤ → DirectoryState → Type 0 where
    missing : find name d.m_children ≡ none → Removes name d (neg (pos enoent)) d
    done :
        {e : DirectoryState} (old : ℕ)
        → find name d.m_children ≡ some old
        → IsDirectory e
        → ((j : Name)
            → find j e.m_children ≡ (if name_eq name j then none else find j d.m_children))
        → e.stbuf.f_bfree + e.st_blocks ≡ d.stbuf.f_bfree + d.st_blocks
        → Removes name d (pos 0) e

  -- A change of the list with the size that goes with it.
  resize_to-IsDirectory :
      (n : ℕ) (b : DirectoryState)
      → Distinct b.m_children
      → n ≡ abi.vector_size + children_bytes b.m_children
      → n < sign_bit
      → b.st_blocks + b.stbuf.f_bfree < word
      → get_nblocks n buf_block_size ≤ b.st_blocks + b.stbuf.f_bfree
      → IsDirectory (resize_to n b)
  resize_to-IsDirectory n b names size range free room = record {
    distinct = rw (resize_to-m_children n b) names;
    size =
        resize_to-st_size n b
        ∙ size
        ∙ ap (λ c. abi.vector_size + children_bytes c) (sym (resize_to-m_children n b));
    blocks =
        resize_to-st_blocks n b
        ∙ ap (λ k. get_nblocks k buf_block_size) (sym (resize_to-st_size n b));
    size_range = omega (arith, resize_to-st_size n b, range);
    free_range = omega (arith, resize_to-balance n b range free room, free);
  }

  -- The size of an entry does not wrap where it is part of a size.
  pub elem_size_lem : (name : Name) → entry_bytes name < word → elem_size name ≡ entry_bytes name
  unfolding elem_size
  elem_size_lem name h = omega arith

  module _ (name : Name) (d : DirectoryState) (v : IsDirectory d)
      (h : d.st_size + entry_bytes name < sign_bit) where
    elem_size-eq : elem_size name ≡ entry_bytes name
    elem_size-eq = elem_size_lem name (omega arith)

    add_refused :
        check_has_space_for d.stbuf (some d.attr) (elem_size name) ≡ false
        → d.st_blocks + d.stbuf.f_bfree < get_nblocks (d.st_size + entry_bytes name) buf_block_size
    unfolding check_has_space_for get_nblocks
    add_refused e = ground (arith, elem_size-eq)

    add_granted :
        check_has_space_for d.stbuf (some d.attr) (elem_size name) ≡ true
        → get_nblocks (d.st_size + entry_bytes name) buf_block_size ≤ d.st_blocks + d.stbuf.f_bfree
    unfolding check_has_space_for get_nblocks
    add_granted e = ground (arith, elem_size-eq, v.blocks, v.free_range)

    added : ℕ → DirectoryState
    added ino = record d { m_children = d.m_children ++ (name, ino) ∷ [] }

    -- Adding a child to a directory of the right shape, whose size stays below 2 ^ 63, never
    -- fails the assertion of UpdateSize and ends in one of three ways: -EEXIST where the name is
    -- taken; -ENOSPC where the free blocks and the directory's own are fewer than the new size
    -- needs; or 0, and then the name stands for the inode number, every other name for what it
    -- did, the directory keeps its shape, and the free blocks fall by what the directory's rise.
    pub add_child-Adds :
        (ino : ℕ)
        → (r : ℤ) × (e : DirectoryState) × (add_child name ino d ≡ some (r, e))
          × Adds name ino d r e
    unfolding add_child added
    add_child-Adds ino = elim (Option-cases (find name d.m_children)) [
      | inr (old, p) ↦ (neg (pos eexist), d, rw (p, add_child), taken old p)
      | inl p ↦ elim (Bool-cases (check_has_space_for d.stbuf (some d.attr) (elem_size name))) [
        | inr full ↦ (neg (pos enospc), d, rw (p, full, add_child), no_space p (add_refused full))
        | inl room ↦
            let n : ℕ = d.st_size + entry_bytes name in
            let fits = add_granted room in
            (
              pos 0,
              resize_to n (added ino),
              rw (
                p,
                room,
                add_child,
                elem_size-eq,
                update_size_grows (entry_bytes name) (added ino) h,
              ),
              done p
                  (resize_to-IsDirectory n (added ino)
                    (append-Distinct name ino d.m_children p v.distinct)
                    (omega (arith, v.size, children_bytes-append name ino d.m_children)) h
                    v.free_range fits)
                  (λ j.
                    rw (resize_to-m_children n (added ino)) (find-append j name ino d.m_children p))
                  (resize_to-balance n (added ino) h v.free_range fits),
            )
      ]
    ]

  -- Removing a name from a directory of the right shape never fails the assertion of UpdateSize
  -- and ends in one of two ways: -ENOENT where there is no such child; or 0, and then the name is
  -- gone, every other name stands for what it did, the directory keeps its shape, and the free
  -- blocks rise by what the directory's fall.
  pub remove_child-Removes :
      (now : ℕ) (name : Name) (d : DirectoryState)
      → IsDirectory d
      → (r : ℤ) × (e : DirectoryState) × (remove_child now name d ≡ some (r, e))
        × Removes name d r e
  unfolding remove_child
  remove_child-Removes now name d v = elim (Option-cases (find name d.m_children)) [
    | inl p ↦ (neg (pos enoent), d, rw (p, remove_child), missing p)
    | inr (old, p) ↦
        let b : DirectoryState = record d { m_children = erase name d.m_children } in
        let bytes = children_bytes-erase name old d.m_children p in
        let n : ℕ = d.st_size - entry_bytes name in
        let small : n < sign_bit = omega (arith, v.size_range) in
        let room : get_nblocks n buf_block_size ≤ d.st_blocks + d.stbuf.f_bfree =
          omega (arith, get_nblocks_mono n d.st_size, v.size_range, v.blocks) in
        let entry : elem_size name ≡ entry_bytes name =
          elem_size_lem name (omega (arith, bytes, v.size, v.size_range)) in
        let c : DirectoryState = resize_to n b in
        let shape : IsDirectory c =
          resize_to-IsDirectory n b (erase-Distinct name d.m_children v.distinct)
            (omega (arith, v.size, bytes)) small v.free_range room in
        (
          pos 0,
          record c { attr = record c.attr { st_ctim = now; st_mtim = now } },
          rw (
            p,
            remove_child,
            entry,
            update_size_shrinks (entry_bytes name) b v.size_range (omega (arith, bytes, v.size)),
          ),
          done old p
              (record {
                distinct = shape.distinct;
                size = shape.size;
                blocks = shape.blocks;
                size_range = shape.size_range;
                free_range = shape.free_range;
              })
              (λ j. rw (resize_to-m_children n b) (find-erase j name d.m_children v.distinct))
              (resize_to-balance n b small v.free_range room),
        )
  ]
