-- ===== src/Fs/Entries.antt =====
-- The handlers of src/fuse_cpp_ramfs.cpp that change names: FuseUnlink, FuseRmdir, FuseLink,
-- FuseRename; and FuseForget, which frees an inode.
pub mod Links
pub mod Unlinked
use veri_fs.Base.{
  ℕ, zero, suc, Option, none, some, Bool, true, false, ◌&&◌, ◌||◌, if◌then◌else◌, not, List, [],
  ◌∷◌, ◌==◌, ◌>>=◌, pos, neg, is_below_zero, sub64,
}
use veri_fs.Types.{
  Name, Inode, Abi, ino_notfound, enoent, enotdir, einval, eexist, eisdir, enotempty,
}
use veri_fs.Replies.{err, nothing}
use veri_fs.Names.{name_eq, dot, dot_dot}
use veri_fs.Directory.{child_inode_number_with_name}
use veri_fs.Inode.{
  increment_link_count, decrement_link_count, has_no_links, num_links_positive, forget, forgotten,
}
use veri_fs.Fs.{
  Fs, Outcome, reply, get_inode, update_inode, delete_inode, use_blocks, use_inodes, linked_inode,
  as_directory, modify_inode, add_child_at, remove_child_at, update_child_at, reply_entry_at,
}
use veri_fs.Fs.Create.{file_type}

-- IsEmpty: no child but "." and ".." has an inode with links.
unfoldable pub is_empty : Fs → List (Name × ℕ) → Bool
unfolding linked_inode
is_empty fs [] = true
is_empty fs ((n, ino) ∷ rest) =
    (name_eq n dot
      || name_eq n dot_dot
      || (elim (linked_inode fs ino) [ none ↦ true | some _ ↦ false ]))
    && is_empty fs rest

-- The loop of FuseRmdir: decrement while NumLinks() > 0. The count is a bound on its rounds.
unfoldable pub drop_links : ℕ → Inode → Inode
unfolding num_links_positive decrement_link_count
drop_links zero i = i
drop_links (suc fuel) i =
    let rest = drop_links fuel (decrement_link_count i) in if num_links_positive i then rest else i

-- The test of FuseRename on the inode that the new name stands for: existing, and NumLinks() > 0.
unfoldable pub target_inode : Fs → ℕ → Option Inode
unfolding get_inode num_links_positive
target_inode fs ino = elim (get_inode fs ino) [
  | none ↦ none
  | some i ↦ if num_links_positive i then some i else none
]

-- S_ISDIR.
abbrev pub is_dir : Inode → Bool
is_dir i = file_type i.st_mode == 4

-- FuseRename's last steps on link counts: the replaced directory's, twice, and its old parent's.
unfoldable pub lower_twice : ℕ → ℕ → Fs → Option Fs
unfolding modify_inode
lower_twice old_ino parent fs = do
  once ← modify_inode old_ino decrement_link_count fs
  twice ← modify_inode old_ino decrement_link_count once
  modify_inode parent decrement_link_count twice

-- A directory that moves takes its link from the old parent to the new one.
unfoldable pub shift_link : ℕ → ℕ → Fs → Option Fs
unfolding modify_inode
shift_link parent newparent fs = do
  lowered ← modify_inode parent decrement_link_count fs
  modify_inode newparent increment_link_count lowered

-- FuseRename's test of an existing target; its dynamic_cast of a directory's mode must not fail.
unfoldable pub target_is_empty : Inode → Fs → Option Bool
unfolding is_empty
target_is_empty old fs =
    if is_dir old
    then elim (as_directory old) [ none ↦ none | some c ↦ some (is_empty fs c) ]
    else some true

module _ ⦃abi : Abi⦄ where
  -- FuseUnlink.
  unfoldable pub fuse_unlink : ℕ → ℕ → Name → Fs → Outcome
  unfolding linked_inode child_inode_number_with_name remove_child_at modify_inode
  fuse_unlink now parent name fs = elim (linked_inode fs parent) [
    | none ↦ reply (err (pos enoent)) fs
    | some p ↦ elim (as_directory p) [
      | none ↦ reply (err (pos enotdir)) fs
      | some c ↦
          let ino = child_inode_number_with_name name c in
          if ino == ino_notfound then reply (err (pos enoent)) fs else do
            (_, removed) ← remove_child_at now parent name fs
            after ← modify_inode ino decrement_link_count removed
            reply (err (pos 0)) after
    ]
  ]

  -- FuseRmdir, of the number that the name stands for.
  unfoldable pub rmdir_entry : ℕ → ℕ → Name → ℕ → Fs → Outcome
  unfolding linked_inode remove_child_at modify_inode is_empty drop_links
  rmdir_entry now parent name ino fs =
      if ino == ino_notfound
      then reply (err (pos enoent)) fs
      else if ino == parent
      then reply (err (pos einval)) fs
      else elim (linked_inode fs ino) [
        | none ↦ reply (err (pos enoent)) fs
        | some i ↦ elim (as_directory i) [
          | none ↦ reply (err (pos enotdir)) fs
          | some children ↦
              if not (is_empty fs children) then reply (err (pos enotempty)) fs else do
                (_, removed) ← remove_child_at now parent name fs
                lowered ← modify_inode parent decrement_link_count removed
                after ← modify_inode ino (λ j. drop_links j.st_nlink j) lowered
                reply (err (pos 0)) after
        ]
      ]

  -- FuseRmdir.
  unfoldable pub fuse_rmdir : ℕ → ℕ → Name → Fs → Outcome
  unfolding linked_inode child_inode_number_with_name rmdir_entry
  fuse_rmdir now parent name fs = elim (linked_inode fs parent) [
    | none ↦ reply (err (pos enoent)) fs
    | some p ↦ elim (as_directory p) [
      | none ↦ reply (err (pos enotdir)) fs
      | some c ↦ rmdir_entry now parent name (child_inode_number_with_name name c) fs
    ]
  ]

  -- FuseLink.
  unfoldable pub fuse_link : ℕ → ℕ → Name → Fs → Outcome
  unfolding linked_inode child_inode_number_with_name add_child_at modify_inode reply_entry_at
  fuse_link ino newparent newname fs = elim (linked_inode fs ino) [
    | none ↦ reply (err (pos enoent)) fs
    | some src ↦ elim (linked_inode fs newparent) [
      | none ↦ reply (err (pos enoent)) fs
      | some p ↦ elim (as_directory p) [
        | none ↦ reply (err (pos enotdir)) fs
        | some c ↦
            if not (child_inode_number_with_name newname c == ino_notfound)
            then reply (err (pos eexist)) fs
            else do
              (ret, added) ← add_child_at newparent newname ino fs
              if is_below_zero ret then reply (err (neg ret)) added else (do
                linked ← modify_inode ino increment_link_count added
                reply_entry_at ino linked)
      ]
    ]
  ]

  -- FuseRename where the new name stands for an inode with links. A mode that says
  -- directory on another object fails the assertion; `now` and `later` are the clock at
  -- the update and at the removal.
  unfoldable pub replace_target : ℕ → ℕ → ℕ → Name → ℕ → Name → ℕ → Inode → ℕ → Inode → Fs → Outcome
  unfolding target_is_empty remove_child_at update_child_at modify_inode lower_twice
  replace_target now later parent name newparent newname src_ino src old_ino old fs =
      if is_dir src && not (is_dir old) then reply (err (pos enotdir)) fs else do
        empty ← target_is_empty old fs
        if not empty
            then reply (err (pos enotempty)) fs
            else if not (is_dir src) && is_dir old
            then reply (err (pos eisdir)) fs
            else do
              lowered ← modify_inode old_ino decrement_link_count fs
              (_, updated) ← update_child_at now newparent newname src_ino lowered
              (_, removed) ← remove_child_at later parent name updated
              after ← (if is_dir old then lower_twice old_ino parent removed else some removed)
              reply (err (pos 0)) after

  -- FuseRename where it does not. The result of _AddChild is not looked at.
  unfoldable pub move_entry : ℕ → ℕ → Name → ℕ → Name → ℕ → Inode → Fs → Outcome
  unfolding add_child_at remove_child_at shift_link
  move_entry later parent name newparent newname src_ino src fs = do
    (_, added) ← add_child_at newparent newname src_ino fs
    (_, removed) ← remove_child_at later parent name added
    after ← (if is_dir src then shift_link parent newparent removed else some removed)
    reply (err (pos 0)) after

  -- FuseRename.
  unfoldable pub fuse_rename : ℕ → ℕ → ℕ → Name → ℕ → Name → Fs → Outcome
  unfolding linked_inode target_inode child_inode_number_with_name replace_target move_entry
  fuse_rename now later parent name newparent newname fs = elim (linked_inode fs parent) [
    | none ↦ reply (err (pos enoent)) fs
    | some p ↦ elim (linked_inode fs newparent) [
      | none ↦ reply (err (pos enoent)) fs
      | some q ↦ elim (as_directory p) [
        | none ↦ reply (err (pos enotdir)) fs
        | some c ↦ elim (as_directory q) [
          | none ↦ reply (err (pos enotdir)) fs
          | some d ↦
              let src_ino = child_inode_number_with_name name c in
              let old_ino = child_inode_number_with_name newname d in
              elim (linked_inode fs src_ino) [
                | none ↦ reply (err (pos enoent)) fs
                | some src ↦ elim (target_inode fs old_ino) [
                  | none ↦ move_entry later parent name newparent newname src_ino src fs
                  | some old ↦
                      replace_target now later parent name newparent newname src_ino src old_ino old
                        fs
                ]
              ]
        ]
      ]
    ]
  ]

-- FuseForget. Without an inode there is no reply.
unfoldable pub fuse_forget : ℕ → ℕ → Fs → Outcome
unfolding get_inode update_inode forget forgotten has_no_links delete_inode
fuse_forget ino nlookup fs = elim (get_inode fs ino) [
  | none ↦ some ([], fs)
  | some i ↦
      let j = forget nlookup i in
      let fs' = update_inode ino j fs in
      reply nothing (
        if forgotten j && has_no_links j
        then use_blocks (sub64 0 j.st_blocks) (use_inodes (sub64 0 1) (delete_inode ino fs'))
        else fs')
]
