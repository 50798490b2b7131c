-- ===== src/Ledger/Entries.antt =====
-- FuseUnlink, FuseRmdir, FuseLink, FuseRename and FuseForget as steps of the allocator.
use veri_fs.Base.{
  ℕ, zero, suc, arith, ◌&&◌, ◌≡◌, refl, ◌∙◌, some, if◌then◌else◌, not, ◌==◌, is_below_zero,
}
use veri_fs.Types.{Name, Inode, Abi, ino_notfound}
use veri_fs.Directory.{child_inode_number_with_name}
use veri_fs.Inode.{decrement_link_count, increment_link_count}
use veri_fs.Fs.{
  Fs, linked_inode, as_directory, remove_child_at, add_child_at, update_child_at, modify_inode,
  reply_entry_at,
}
use veri_fs.Fs.Entries.{
  target_is_empty, lower_twice, shift_link, fuse_unlink, rmdir_entry, fuse_rmdir, fuse_link,
  is_empty, drop_links, replace_target, move_entry, fuse_rename, target_inode, is_dir,
}
use veri_fs.Ledger.Always.{Always, leaves, Always-bind, Always-if, Always-elim, Always-start}
use veri_fs.Ledger.Register.{increment_same}
use veri_fs.Ledger.View.{
  if_same, bind_cases, SameNumbers, modify_inode-ledger, remove_child_at-ledger,
  add_child_at-ledger, update_child_at-ledger, reply_entry_at-ledger,
}

decrement_same : (i : Inode) → (decrement_link_count i).st_ino ≡ i.st_ino
unfolding decrement_link_count
decrement_same i = refl

drop_links_same : (n : ℕ) (i : Inode) → (drop_links n i).st_ino ≡ i.st_ino
unfolding drop_links
drop_links_same zero i = refl
drop_links_same (suc n) i =
    ground (arith, drop_links_same n (decrement_link_count i), decrement_same i)

lower_twice-ledger :
    (old_ino parent : ℕ) (fs gs : Fs) → lower_twice old_ino parent fs ≡ some gs → SameNumbers fs gs
unfolding lower_twice
lower_twice-ledger old_ino parent fs gs h =
    bind_cases (modify_inode old_ino decrement_link_count fs) _ _ h λ once p q.
      bind_cases (modify_inode old_ino decrement_link_count once) _ _ q λ twice r s.
        modify_inode-ledger twice gs parent decrement_link_count decrement_same s
        ∙ modify_inode-ledger once twice old_ino decrement_link_count decrement_same r
        ∙ modify_inode-ledger fs once old_ino decrement_link_count decrement_same p

shift_link-ledger :
    (parent newparent : ℕ) (fs gs : Fs)
    → shift_link parent newparent fs ≡ some gs
    → SameNumbers fs gs
unfolding shift_link
shift_link-ledger parent newparent fs gs h =
    bind_cases (modify_inode parent decrement_link_count fs) _ _ h λ lowered p q.
      modify_inode-ledger lowered gs newparent increment_link_count increment_same q
      ∙ modify_inode-ledger fs lowered parent decrement_link_count decrement_same p

module _ ⦃abi : Abi⦄ where
  pub fuse_unlink-SameNumbers :
      (now parent : ℕ) (name : Name) (fs : Fs)
      → Always (SameNumbers fs) (fuse_unlink now parent name fs)
  unfolding fuse_unlink
  fuse_unlink-SameNumbers now parent name fs =
      Always-elim (linked_inode fs parent) (leaves _ _ refl) λ p _.
        Always-elim (as_directory p) (leaves _ _ refl) λ c _.
          let ino : ℕ = child_inode_number_with_name name c in
          Always-if (ino == ino_notfound) (leaves _ _ refl) (
            Always-bind (remove_child_at now parent name fs) λ (r, removed) e.
              Always-bind (modify_inode ino decrement_link_count removed) λ after f. leaves _ _ (
                modify_inode-ledger removed after ino decrement_link_count decrement_same f
                ∙ remove_child_at-ledger now parent name fs removed r e))

  pub fuse_rmdir-SameNumbers :
      (now parent : ℕ) (name : Name) (fs : Fs)
      → Always (SameNumbers fs) (fuse_rmdir now parent name fs)
  unfolding fuse_rmdir rmdir_entry
  fuse_rmdir-SameNumbers now parent name fs =
      Always-elim (linked_inode fs parent) (leaves _ _ refl) λ p _.
        Always-elim (as_directory p) (leaves _ _ refl) λ c _.
          let ino : ℕ = child_inode_number_with_name name c in
          Always-if (ino == ino_notfound) (leaves _ _ refl) (
            Always-if (ino == parent) (leaves _ _ refl) (
              Always-elim (linked_inode fs ino) (leaves _ _ refl) λ i _.
                Always-elim (as_directory i) (leaves _ _ refl) λ children _.
                  Always-if (not (is_empty fs children)) (leaves _ _ refl) (
                    Always-bind (remove_child_at now parent name fs) λ (r, removed) e.
                      Always-bind (modify_inode parent decrement_link_count removed) λ lowered f.
                        Always-bind (modify_inode ino (λ j. drop_links j.st_nlink j) lowered)
                          λ after g. leaves _ _ (
                            modify_inode-ledger lowered after ino _
                              (λ j. drop_links_same j.st_nlink j) g
                            ∙ modify_inode-ledger removed lowered parent decrement_link_count
                                decrement_same f
                            ∙ remove_child_at-ledger now parent name fs removed r e))))

  pub fuse_link-SameNumbers :
      (ino newparent : ℕ) (newname : Name) (fs : Fs)
      → Always (SameNumbers fs) (fuse_link ino newparent newname fs)
  unfolding fuse_link
  fuse_link-SameNumbers ino newparent newname fs =
      Always-elim (linked_inode fs ino) (leaves _ _ refl) λ src _.
        Always-elim (linked_inode fs newparent) (leaves _ _ refl) λ p _.
          Always-elim (as_directory p) (leaves _ _ refl) λ c _.
            Always-if (not (child_inode_number_with_name newname c == ino_notfound))
              (leaves _ _ refl)
              (Always-bind (add_child_at newparent newname ino fs) λ (ret, added) e.
                let named = add_child_at-ledger newparent newname ino fs added ret e in
                Always-if (is_below_zero ret) (leaves _ _ named) (
                  Always-bind (modify_inode ino increment_link_count added) λ linked f.
                    Always-start (reply_entry_at ino linked) λ rs gs g.
                      reply_entry_at-ledger ino linked gs rs g
                      ∙ modify_inode-ledger added linked ino increment_link_count increment_same f
                      ∙ named))

  replace_target-SameNumbers :
      (now later parent : ℕ) (name : Name) (newparent : ℕ) (newname : Name) (src_ino : ℕ)
      (src : Inode) (old_ino : ℕ) (old : Inode) (fs : Fs)
      → Always
          (SameNumbers fs)
          (replace_target now later parent name newparent newname src_ino src old_ino old fs)
  unfolding replace_target
  replace_target-SameNumbers now later parent name newparent newname src_ino src old_ino old fs =
      Always-if (is_dir src && not (is_dir old)) (leaves _ _ refl) (
        Always-bind (target_is_empty old fs) λ empty _. Always-if (not empty) (leaves _ _ refl) (
          Always-if (not (is_dir src) && is_dir old) (leaves _ _ refl) (
            Always-bind (modify_inode old_ino decrement_link_count fs) λ lowered e.
              Always-bind (update_child_at now newparent newname src_ino lowered) λ (r, updated) f.
                Always-bind (remove_child_at later parent name updated) λ (k, removed) g.
                  let moved =
                    remove_child_at-ledger later parent name updated removed k g
                    ∙ update_child_at-ledger now newparent newname src_ino lowered updated r f
                    ∙ modify_inode-ledger fs lowered old_ino decrement_link_count decrement_same
                        e in
                  Always-bind
                    (if is_dir old then lower_twice old_ino parent removed else some removed)
                    λ after h. leaves _ _ (
                      if_same (is_dir old) (lower_twice old_ino parent removed) removed after
                        (lower_twice-ledger old_ino parent removed) h
                      ∙ moved))))

  move_entry-SameNumbers :
      (later parent : ℕ) (name : Name) (newparent : ℕ) (newname : Name) (src_ino : ℕ) (src : Inode)
      (fs : Fs)
      → Always (SameNumbers fs) (move_entry later parent name newparent newname src_ino src fs)
  unfolding move_entry
  move_entry-SameNumbers later parent name newparent newname src_ino src fs =
      Always-bind (add_child_at newparent newname src_ino fs) λ (r, added) e.
        Always-bind (remove_child_at later parent name added) λ (k, removed) f.
          Always-bind (if is_dir src then shift_link parent newparent removed else some removed)
            λ after h. leaves _ _ (
              if_same (is_dir src) (shift_link parent newparent removed) removed after
                (shift_link-ledger parent newparent removed) h
              ∙ remove_child_at-ledger later parent name added removed k f
              ∙ add_child_at-ledger newparent newname src_ino fs added r e)

  pub fuse_rename-SameNumbers :
      (now later parent : ℕ) (name : Name) (newparent : ℕ) (newname : Name) (fs : Fs)
      → Always (SameNumbers fs) (fuse_rename now later parent name newparent newname fs)
  unfolding fuse_rename
  fuse_rename-SameNumbers now later parent name newparent newname fs =
      Always-elim (linked_inode fs parent) (leaves _ _ refl) λ p _.
        Always-elim (linked_inode fs newparent) (leaves _ _ refl) λ q _.
          Always-elim (as_directory p) (leaves _ _ refl) λ c _.
            Always-elim (as_directory q) (leaves _ _ refl) λ d _.
              let src_ino : ℕ = child_inode_number_with_name name c in
              let old_ino : ℕ = child_inode_number_with_name newname d in
              Always-elim (linked_inode fs src_ino) (leaves _ _ refl) λ src _.
                Always-elim (target_inode fs old_ino)
                  (move_entry-SameNumbers later parent name newparent newname src_ino src fs)
                  λ old _.
                    replace_target-SameNumbers now later parent name newparent newname src_ino src
                      old_ino old fs
