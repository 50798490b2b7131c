-- ===== src/Fs/Entries/Unlinked.antt =====
-- After FuseUnlink or FuseRmdir has replied 0, FuseLookup no longer finds the name.
use mathlib.Core.Path.{subst}
use veri_fs.Base.{
  zero, suc, ℕ, ◌≡◌, refl, ap, ◌∙◌, Option, none, some, List, [], ◌∷◌, ◌==◌, arith, get_elem?, set,
  get_elem?-set, get_elem?_out, Option-cases, Bool-cases, inl, inr, ℤ, pos,
}
use veri_fs.Types
use veri_fs.Types.{Abi, Name, Inode, ino_notfound, enoent}
use veri_fs.Replies.{err}
use veri_fs.Directory.{DirectoryState, find, remove_child, child_inode_number_with_name}
use veri_fs.Directory.Children.{Distinct}
use veri_fs.Directory.Keeps.{remove_child-find}
use veri_fs.Inode.{decrement_link_count, with_attr}
use veri_fs.Fs.{
  Fs, reply, linked_inode, get_inode, update_inode, as_directory, directory_at, directory_state,
  put_directory, run_directory, modify_inode, remove_child_at,
}
use veri_fs.Fs.Entries.{fuse_unlink, is_empty, drop_links, rmdir_entry, fuse_rmdir}
use veri_fs.Fs.Access.{fuse_lookup}
use veri_fs.Ledger.View.{bind_cases, same_state}

-- The directory in a slot is there, and does not have the name.
abbrev Lacks : Fs → ℕ → Name → Type 0
Lacks fs dir name =
    (i : Inode) × (c : List (Name × ℕ)) × (directory_at fs dir ≡ some (i, c)) × (find name c ≡ none)

put_directory-directory_at :
    (fs : Fs) (dir : ℕ) (i : Inode) (c : List (Name × ℕ)) (d : DirectoryState)
    → directory_at fs dir ≡ some (i, c)
    → directory_at (put_directory dir i d fs) dir
      ≡ some (record (with_attr i d.attr) { node = Types.directory d.m_children }, d.m_children)
unfolding directory_at get_inode put_directory update_inode
put_directory-directory_at fs dir i c d h =
    let j : Inode = record (with_attr i d.attr) { node = Types.directory d.m_children } in
    let there : get_elem? (set fs.inodes dir (some j)) dir ≡ some (some j) =
      ground (arith, get_elem?-set fs.inodes dir dir (some j), get_elem?_out fs.inodes dir) in
    ground (arith, there)

remove_child_at-Lacks :
    ⦃abi : Abi⦄ (now dir : ℕ) (name : Name) (fs gs : Fs) (r : ℤ)
    → ((i : Inode) (c : List (Name × ℕ)) → directory_at fs dir ≡ some (i, c) → Distinct c)
    → remove_child_at now dir name fs ≡ some (r, gs)
    → Lacks gs dir name
unfolding remove_child_at run_directory
remove_child_at-Lacks now dir name fs gs r v h =
    bind_cases (directory_at fs dir) _ _ h λ (i, c) p q.
      bind_cases (remove_child now name (directory_state i c fs)) _ _ q λ (k, d) s t.
        subst (λ g. Lacks g dir name) (same_state t)
          (
            record (with_attr i d.attr) { node = Types.directory d.m_children },
            d.m_children,
            put_directory-directory_at fs dir i c d p,
            remove_child-find now name (directory_state i c fs) d k (v i c p) s,
          )

-- A change of an inode that is not one of its class or its children.
modify_inode-Lacks :
    (ino dir : ℕ) (name : Name) (f : Inode → Inode) (fs gs : Fs)
    → ((i : Inode) → (f i).node ≡ i.node)
    → modify_inode ino f fs ≡ some gs
    → Lacks fs dir name
    → Lacks gs dir name
unfolding modify_inode directory_at get_inode update_inode
modify_inode-Lacks ino dir name f fs gs same h (i, c, p, q) = go (get_inode fs ino) refl
  where
    go : (o : Option Inode) → get_inode fs ino ≡ o → Lacks gs dir name
    go none e = cc
    go (some k) e =
        let slot = get_elem?-set fs.inodes ino dir (some (f k)) in
        elim (Bool-cases (ino == dir)) [
          | inl here ↦ (f k, c, ground (arith, slot, same k, get_elem?_out fs.inodes ino), q)
          | inr away ↦ (i, c, ground (arith, slot), q)
        ]

decrement-node : (i : Inode) → (decrement_link_count i).node ≡ i.node
unfolding decrement_link_count
decrement-node i = refl

drop_links-node : (n : ℕ) (i : Inode) → (drop_links n i).node ≡ i.node
unfolding drop_links
drop_links-node zero i = refl
drop_links-node (suc n) i =
    ground (arith, drop_links-node n (decrement_link_count i), decrement-node i)

lookup_lacking :
    (parent : ℕ) (name : Name) (fs : Fs)
    → Lacks fs parent name
    → fuse_lookup parent name fs ≡ reply (err (pos enoent)) fs
unfolding fuse_lookup linked_inode directory_at child_inode_number_with_name
lookup_lacking parent name fs (i, c, p, q) = ground arith

-- The two steps of an unlink that replies 0.
fuse_unlink-parts :
    ⦃abi : Abi⦄ (now parent : ℕ) (name : Name) (fs gs : Fs)
    → fuse_unlink now parent name fs ≡ some (err (pos 0) ∷ [], gs)
    → (ino : ℕ) × (r : ℤ) × (removed : Fs) × (remove_child_at now parent name fs
        ≡ some (r, removed))
      × (modify_inode ino decrement_link_count removed ≡ some gs)
unfolding fuse_unlink
fuse_unlink-parts now parent name fs gs h = elim (Option-cases (linked_inode fs parent)) [
  | inl e ↦ absurd (cc (rw (e, fuse_unlink) at h))
  | inr (p, e) ↦ elim (Option-cases (as_directory p)) [
    | inl f ↦ absurd (cc (rw (e, f, fuse_unlink) at h))
    | inr (c, f) ↦
        let ino : ℕ = child_inode_number_with_name name c in
        elim (Bool-cases (ino == ino_notfound)) [
          | inl g ↦ absurd (cc (rw (e, f, g, fuse_unlink) at h))
          | inr g ↦
              bind_cases (remove_child_at now parent name fs) _ _ (rw (e, f, g, fuse_unlink) at h)
                λ (r, removed) k l.
                  bind_cases (modify_inode ino decrement_link_count removed) _ _ l
                    λ after m n. (ino, r, removed, k, m ∙ ap some (same_state n))
        ]
  ]
]

-- Where no name stands twice in the directory, after FuseUnlink of a name has replied 0,
-- FuseLookup of that name in the same directory replies ENOENT.
pub fuse_lookup-fuse_unlink :
    ⦃abi : Abi⦄ (now parent : ℕ) (name : Name) (fs gs : Fs)
    → ((i : Inode) (c : List (Name × ℕ)) → directory_at fs parent ≡ some (i, c) → Distinct c)
    → fuse_unlink now parent name fs ≡ some (err (pos 0) ∷ [], gs)
    → fuse_lookup parent name gs ≡ reply (err (pos enoent)) gs
fuse_lookup-fuse_unlink now parent name fs gs v h =
    let (ino, r, removed, p, q) = fuse_unlink-parts now parent name fs gs h in
    lookup_lacking parent name gs (
      modify_inode-Lacks ino parent name decrement_link_count removed gs decrement-node q
        (remove_child_at-Lacks now parent name fs removed r v p))

rmdir_found :
    ⦃abi : Abi⦄ (now parent : ℕ) (name : Name) (fs gs : Fs) (ino : ℕ)
    → rmdir_entry now parent name ino fs ≡ some (err (pos 0) ∷ [], gs)
    → (k : ℕ) × (r : ℤ) × (removed : Fs) × (lowered : Fs) × (remove_child_at now parent name fs
        ≡ some (r, removed))
      × (modify_inode parent decrement_link_count removed ≡ some lowered)
      × (modify_inode k (λ j. drop_links j.st_nlink j) lowered ≡ some gs)
unfolding rmdir_entry
rmdir_found now parent name fs gs ino h = elim (Bool-cases (ino == ino_notfound)) [
  | inl g ↦ absurd (cc (rw (g, rmdir_entry) at h))
  | inr g ↦ elim (Bool-cases (ino == parent)) [
    | inl k ↦ absurd (cc (rw (g, k, rmdir_entry) at h))
    | inr k ↦ elim (Option-cases (linked_inode fs ino)) [
      | inl e ↦ absurd (cc (rw (g, k, e, rmdir_entry) at h))
      | inr (i, e) ↦ elim (Option-cases (as_directory i)) [
        | inl f ↦ absurd (cc (rw (g, k, e, f, rmdir_entry) at h))
        | inr (c, f) ↦ elim (Bool-cases (is_empty fs c)) [
          | inr full ↦ absurd (cc (rw (g, k, e, f, full, rmdir_entry) at h))
          | inl empty ↦
              bind_cases (remove_child_at now parent name fs) _ _
                (rw (g, k, e, f, empty, rmdir_entry) at h)
                λ (r, removed) l m.
                  bind_cases (modify_inode parent decrement_link_count removed) _ _ m λ lowered n o.
                    bind_cases (modify_inode ino (λ j. drop_links j.st_nlink j) lowered) _ _ o
                      λ after u w. (ino, r, removed, lowered, l, n, u ∙ ap some (same_state w))
        ]
      ]
    ]
  ]
]

-- The steps of a removal of a directory that replies 0.
fuse_rmdir-parts :
    ⦃abi : Abi⦄ (now parent : ℕ) (name : Name) (fs gs : Fs)
    → fuse_rmdir now parent name fs ≡ some (err (pos 0) ∷ [], gs)
    → (ino : ℕ) × (r : ℤ) × (removed : Fs) × (lowered : Fs) × (remove_child_at now parent name fs
        ≡ some (r, removed))
      × (modify_inode parent decrement_link_count removed ≡ some lowered)
      × (modify_inode ino (λ j. drop_links j.st_nlink j) lowered ≡ some gs)
unfolding fuse_rmdir
fuse_rmdir-parts now parent name fs gs h = elim (Option-cases (linked_inode fs parent)) [
  | inl e ↦ absurd (cc (rw (e, fuse_rmdir) at h))
  | inr (p, e) ↦ elim (Option-cases (as_directory p)) [
    | inl f ↦ absurd (cc (rw (e, f, fuse_rmdir) at h))
    | inr (c, f) ↦
        rmdir_found now parent name fs gs (child_inode_number_with_name name c)
          (rw (e, f, fuse_rmdir) at h)
  ]
]

-- Where no name stands twice in the directory, after FuseRmdir of a name has replied 0,
-- FuseLookup of that name in the same directory replies ENOENT.
pub fuse_lookup-fuse_rmdir :
    ⦃abi : Abi⦄ (now parent : ℕ) (name : Name) (fs gs : Fs)
    → ((i : Inode) (c : List (Name × ℕ)) → directory_at fs parent ≡ some (i, c) → Distinct c)
    → fuse_rmdir now parent name fs ≡ some (err (pos 0) ∷ [], gs)
    → fuse_lookup parent name gs ≡ reply (err (pos enoent)) gs
fuse_lookup-fuse_rmdir now parent name fs gs v h =
    let (ino, r, removed, lowered, p, q, s) = fuse_rmdir-parts now parent name fs gs h in
    lookup_lacking parent name gs (
      modify_inode-Lacks ino parent name (λ j. drop_links j.st_nlink j) lowered gs
        (λ j. drop_links-node j.st_nlink j) s
        (modify_inode-Lacks parent parent name decrement_link_count removed lowered decrement-node q
          (remove_child_at-Lacks now parent name fs removed r v p)))
