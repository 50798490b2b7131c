-- ===== src/Ledger/Makes.antt =====
-- FuseMknod, FuseMkdir, FuseSymlink, FuseCreate and FuseForget as steps of the allocator.
use mathlib.Core.Path.{subst}
use Prim.Native.Nat.{bit_or}
use veri_fs.Base.{
  ℕ, ◌≡◌, refl, ap, sym, ◌∙◌, none, some, Bool, true, false, List, if◌then◌else◌, ◌==◌, not, ◌&&◌,
  ℤ, sub64,
}
use veri_fs.Types.{Name, Bytes, Inode, Abi, ino_notfound}
use veri_fs.Replies.{Reply}
use veri_fs.Blocks.{update_used_blocks, update_used_inodes}
use veri_fs.Directory.{child_inode_number_with_name}
use veri_fs.Inode.{forget, forgotten, has_no_links}
use veri_fs.Fs.{
  use_blocks, use_inodes, Fs, Caller, Outcome, linked_inode, as_directory, get_inode, update_inode,
  delete_inode, reply_entry_at, reply_create_at,
}
use veri_fs.Fs.Create.{
  s_ifdir, s_ifreg, symlink_mode, do_create_node, link_unless_there, make_child, fuse_mknod,
  fuse_mkdir, fuse_symlink, fuse_create, reply_new,
}
use veri_fs.Fs.Entries.{fuse_forget}
use veri_fs.Ledger.{Step, keeps, frees, release}
use veri_fs.Ledger.Always.{
  Always, leaves, Always-bind, Always-if, Always-elim, Always-start, Always-end,
}
use veri_fs.Ledger.Create.{do_create_node-Step}
use veri_fs.Ledger.View.{
  ledger, SameNumbers, numbers_of-set, get_inode-slot, get_inode-number, update_inode-ledger,
  reply_entry_at-ledger, reply_create_at-ledger,
}

-- One step of the allocator leads from `fs`.
abbrev pub Steps : Fs → Fs → Type 0
Steps fs gs = Step (ledger fs) (ledger gs)

pub SameNumbers-Steps : (fs gs : Fs) → SameNumbers fs gs → Steps fs gs
SameNumbers-Steps fs gs e = subst (Step (ledger fs)) (sym e) keeps

-- A reply that keeps the numbers, after a step.
reply_new-Steps :
    (fs made : Fs) (r : ℤ) (good : ℕ → Fs → Outcome)
    → ((ino : ℕ) (gs hs : Fs) (rs : List Reply) → good ino gs ≡ some (rs, hs) → SameNumbers gs hs)
    → Steps fs made
    → Always (Steps fs) (reply_new good r made)
reply_new-Steps fs made (ℤ.pos ino) good same step = Always-if (ino == 0) (leaves _ _ step) (
    Always-start (good ino made)
      λ rs gs h. subst (Step (ledger fs)) (sym (same ino made gs rs h)) step)
reply_new-Steps fs made (ℤ.negsuc n) good same step = leaves _ _ step

module _ ⦃abi : Abi⦄ where
  make_child-Steps :
      (memory : Bool) (now : ℕ) (ctx : Caller) (parent : ℕ) (name : Name) (mode : ℕ) (fs : Fs)
      → Always (Steps fs) (make_child memory now ctx parent name mode fs)
  unfolding make_child
  make_child-Steps memory now ctx parent name mode fs =
      Always-elim (linked_inode fs parent) (leaves _ _ keeps) λ p _.
        Always-elim (as_directory p) (leaves _ _ keeps) λ c _.
          Always-if (fs.m_stbuf.f_ffree == 0) (leaves _ _ keeps) (
            Always-if (not (child_inode_number_with_name name c == ino_notfound)) (leaves _ _ keeps)
              (Always-bind (do_create_node memory now parent name mode ctx none fs) λ (r, made) h.
                reply_new-Steps fs made r reply_entry_at reply_entry_at-ledger
                  (do_create_node-Step memory now parent name mode ctx none fs made r h)))

  pub fuse_mknod-Steps :
      (memory : Bool) (now : ℕ) (ctx : Caller) (parent : ℕ) (name : Name) (mode : ℕ) (fs : Fs)
      → Always (Steps fs) (fuse_mknod memory now ctx parent name mode fs)
  unfolding fuse_mknod
  fuse_mknod-Steps = make_child-Steps

  pub fuse_mkdir-Steps :
      (memory : Bool) (now : ℕ) (ctx : Caller) (parent : ℕ) (name : Name) (mode : ℕ) (fs : Fs)
      → Always (Steps fs) (fuse_mkdir memory now ctx parent name mode fs)
  unfolding fuse_mkdir
  fuse_mkdir-Steps memory now ctx parent name mode fs =
      make_child-Steps memory now ctx parent name (bit_or mode s_ifdir) fs

  pub fuse_create-Steps :
      (memory : Bool) (now : ℕ) (ctx : Caller) (parent : ℕ) (name : Name) (mode : ℕ) (fs : Fs)
      → Always (Steps fs) (fuse_create memory now ctx parent name mode fs)
  unfolding fuse_create
  fuse_create-Steps memory now ctx parent name mode fs =
      Always-elim (linked_inode fs parent) (leaves _ _ keeps) λ p _.
        Always-elim (as_directory p) (leaves _ _ keeps) λ c _.
          Always-bind (do_create_node memory now parent name (bit_or mode s_ifreg) ctx none fs)
            λ (r, made) h. reply_new-Steps fs made r reply_create_at reply_create_at-ledger (
              do_create_node-Step memory now parent name (bit_or mode s_ifreg) ctx none fs made r h)

  link_unless_there-Steps :
      (memory : Bool) (now : ℕ) (ctx : Caller) (link : Bytes) (parent : ℕ) (name : Name)
      (c : List (Name × ℕ)) (fs : Fs)
      → Always (Steps fs) (link_unless_there memory now ctx link parent name c fs)
  unfolding link_unless_there
  link_unless_there-Steps memory now ctx link parent name c fs =
      Always-if (not (child_inode_number_with_name name c == ino_notfound)) (leaves _ _ keeps) (
        Always-bind (do_create_node memory now parent name symlink_mode ctx (some link) fs)
          λ (r, made) h.
            reply_new-Steps fs made r reply_entry_at reply_entry_at-ledger
              (do_create_node-Step memory now parent name symlink_mode ctx (some link) fs made r h))

  pub fuse_symlink-Steps :
      (memory : Bool) (now : ℕ) (ctx : Caller) (link : Bytes) (parent : ℕ) (name : Name) (fs : Fs)
      → Always (Steps fs) (fuse_symlink memory now ctx link parent name fs)
  unfolding fuse_symlink
  fuse_symlink-Steps memory now ctx link parent name fs =
      Always-elim (linked_inode fs parent) (leaves _ _ keeps) λ p _.
        Always-elim (as_directory p) (leaves _ _ keeps) λ c _.
          Always-bind (link_unless_there memory now ctx link parent name c fs) λ (last, after) h.
            leaves _ _ (
              Always-end (link_unless_there memory now ctx link parent name c fs)
                (link_unless_there-Steps memory now ctx link parent name c fs) h)

freed-ledger :
    (ino n : ℕ) (fs : Fs)
    → ledger (use_blocks n (use_inodes (sub64 0 1) (delete_inode ino fs))) ≡ release ino (ledger fs)
unfolding delete_inode update_used_blocks update_used_inodes
freed-ledger ino n fs =
    ap (λ k. record (release ino (ledger fs)) { numbers = k }) (numbers_of-set fs.inodes ino none)

if_holds : (P : Fs → Type 0) (b : Bool) (x y : Fs) → P x → P y → P (if b then x else y)
if_holds P true x y p q = p
if_holds P false x y p q = q

pub fuse_forget-Steps : (ino nlookup : ℕ) (fs : Fs) → Always (Steps fs) (fuse_forget ino nlookup fs)
unfolding fuse_forget forget
fuse_forget-Steps ino nlookup fs = Always-elim (get_inode fs ino) (leaves _ _ keeps) λ i h.
    let j : Inode = forget nlookup i in
    let lowered : Fs = update_inode ino j fs in
    let same : SameNumbers fs lowered = update_inode-ledger fs ino i j h refl in
    leaves _ _ (
      if_holds (Steps fs) (forgotten j && has_no_links j)
        (use_blocks (sub64 0 j.st_blocks) (use_inodes (sub64 0 1) (delete_inode ino lowered)))
        lowered
        (subst (Step (ledger fs))
          (sym (freed-ledger ino (sub64 0 j.st_blocks) lowered ∙ ap (release ino) same))
          (frees ino i.st_ino (get_inode-number fs.inodes ino i (get_inode-slot fs ino i h))))
        (SameNumbers-Steps fs lowered same))
