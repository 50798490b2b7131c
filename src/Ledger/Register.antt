-- ===== src/Ledger/Register.antt =====
-- RegisterInode as a step of the allocator.
use mathlib.Core.Path.{subst}
use veri_fs.Base.{
  set-set, ℕ, ◌≡◌, refl, sym, ap, ◌∙◌, none, some, List, [], ◌∷◌, ◌++◌, length, set, get_elem?,
  sub64, arith, inl, inr, Option-cases,
}
use veri_fs.Types.{Inode, Node, Abi}
use veri_fs.Blocks.{update_used_blocks, update_used_inodes}
use veri_fs.Directory.{DirectoryState, initialize_size}
use veri_fs.Directory.Keeps.{update_size-Keeps}
use veri_fs.Inode.{initialize, increment_link_count}
use veri_fs.Names.{dot, dot_dot}
use veri_fs.Fs.{
  Fs, Table, get_inode, update_inode, delete_inode, use_blocks, use_inodes, take_slot,
  directory_state, put_directory, add_child_at,
}
use veri_fs.Fs.Create.{initialize_as, initialize_at, initialize_symlink, register_inode, add_dots}
use veri_fs.Ledger.{Ledger, next_number, allocate, release}
use veri_fs.Ledger.Sound.{IsSound, NotIn, next_number-allocate, next_number-NotIn, next_number_free}
use veri_fs.Ledger.View.{
  get_inode-slot, get_inode-number, some_injective, ledger, numbers_of, numbers_of-set,
  numbers_of-append, length-numbers_of, SameNumbers, bind_some, same_state, add_child_at-ledger,
}

set_last {ℓ} : {A : Type ℓ} (l : List A) (a b : A) → set (l ++ a ∷ []) (length l) b ≡ l ++ b ∷ []
set_last [] a b = refl
set_last (x ∷ l) a b = ap (◌∷◌ x) (set_last l a b)

-- The number that an object gets stands in its slot.
abbrev numbered_at : ℕ → Ledger → Ledger
numbered_at ino l = record l { numbers = set l.numbers ino (some ino) }

update_inode-numbered :
    (fs : Fs) (ino : ℕ) (i : Inode)
    → i.st_ino ≡ ino
    → ledger (update_inode ino i fs) ≡ numbered_at ino (ledger fs)
unfolding update_inode
update_inode-numbered fs ino i e =
    ap (λ n. record (ledger fs) { numbers = n })
      (numbers_of-set fs.inodes ino (some i) ∙ ap (λ k. set (numbers_of fs.inodes) ino (some k)) e)

put_directory-numbered :
    (fs : Fs) (ino : ℕ) (i : Inode) (d : DirectoryState)
    → d.st_ino ≡ ino
    → d.stbuf.f_ffree ≡ fs.m_stbuf.f_ffree
    → d.stbuf.f_files ≡ fs.m_stbuf.f_files
    → ledger (put_directory ino i d fs) ≡ numbered_at ino (ledger fs)
unfolding put_directory
put_directory-numbered fs ino i d e f g =
    update_inode-numbered (record fs { m_stbuf = d.stbuf }) ino _ e ∙ (λ k. record {
      numbers = set (numbers_of fs.inodes) ino (some ino);
      free_list = fs.deleted_inodes;
      free_count = f k;
      total = g k;
      pool = fs.state_pool;
    })

use_blocks-ledger : (n : ℕ) (fs : Fs) → ledger (use_blocks n fs) ≡ ledger fs
unfolding update_used_blocks
use_blocks-ledger n fs = refl

pub delete_inode-ledger :
    (ino n : ℕ) (fs : Fs)
    → ledger (delete_inode ino (use_blocks n (use_inodes (sub64 0 1) fs))) ≡ release ino (ledger fs)
unfolding delete_inode update_used_blocks update_used_inodes
delete_inode-ledger ino n fs =
    ap (λ k. record (release ino (ledger fs)) { numbers = k }) (numbers_of-set fs.inodes ino none)

pub increment_same : (i : Inode) → (increment_link_count i).st_ino ≡ i.st_ino
unfolding increment_link_count
increment_same i = refl

fresh_slot :
    (i : Inode) (t : Table)
    → set (numbers_of (t ++ some i ∷ [])) (length t) (some (length t))
      ≡ numbers_of t ++ some (length t) ∷ []
fresh_slot i t =
    rw (numbers_of-append t (some i), ← length-numbers_of t)
      (set_last (numbers_of t) (some i.st_ino) (some (length (numbers_of t))))

reused_slot :
    (i : Inode) (t : Table) (ino : ℕ)
    → set (numbers_of (set t ino (some i))) ino (some ino) ≡ set (numbers_of t) ino (some ino)
reused_slot i t ino =
    rw (numbers_of-set t ino (some i)) (set-set (numbers_of t) ino (some i.st_ino) (some ino))

module _ ⦃abi : Abi⦄ where
  initialize_as-ledger :
      (n : Node) (ino : ℕ) (base : Inode) (fs gs : Fs)
      → base.st_ino ≡ ino
      → initialize_as n ino base fs ≡ some gs
      → ledger gs ≡ numbered_at ino (ledger fs)
  unfolding initialize_as
  initialize_as-ledger (Node.file b) ino base fs gs e h =
      subst (λ g. ledger g ≡ numbered_at ino (ledger fs)) (some_injective h)
        (update_inode-numbered fs ino base e)
  initialize_as-ledger (Node.special t) ino base fs gs e h =
      subst (λ g. ledger g ≡ numbered_at ino (ledger fs)) (some_injective h)
        (update_inode-numbered fs ino base e)
  initialize_as-ledger (Node.symlink t) ino base fs gs e h =
      subst (λ g. ledger g ≡ numbered_at ino (ledger fs)) (some_injective h)
        (update_inode-numbered fs ino (initialize_symlink t base) (unfold initialize_symlink in e))
  initialize_as-ledger (Node.directory c) ino base fs gs e h =
      let (d, p, q) = bind_some (initialize_size (directory_state base c fs)) _ h in
      let kept =
        update_size-Keeps abi.vector_size (directory_state base c fs) d
          (unfold initialize_size in p) in
      subst (λ g. ledger g ≡ numbered_at ino (ledger fs)) (some_injective q)
        (put_directory-numbered fs ino base d (kept.number ∙ e) kept.free_count kept.total)

  -- The slot that is taken, before the object in it has its number.
  take_slot-ledger :
      (i : Inode) (fs : Fs)
      → ((take_slot i fs).0 ≡ next_number (ledger fs))
        × (numbered_at (take_slot i fs).0 (ledger (use_inodes 1 (take_slot i fs).1))
            ≡ allocate (ledger fs))
  unfolding take_slot update_used_inodes
  take_slot-ledger i fs = go fs.deleted_inodes refl
    where
      go :
          (xs : List ℕ)
          → fs.deleted_inodes ≡ xs
          → ((take_slot i fs).0 ≡ next_number (ledger fs))
            × (numbered_at (take_slot i fs).0 (ledger (use_inodes 1 (take_slot i fs).1))
                ≡ allocate (ledger fs))
      go [] e = ground (arith, fresh_slot i fs.inodes, length-numbers_of fs.inodes)
      go (ino ∷ rest) e = ground (arith, reused_slot i fs.inodes ino)

  pub register_inode-ledger :
      (now : ℕ) (i : Inode) (mode nlink gid uid : ℕ) (fs gs : Fs) (ino : ℕ)
      → register_inode now i mode nlink gid uid fs ≡ some (ino, gs)
      → (ino ≡ next_number (ledger fs)) × (ledger gs ≡ allocate (ledger fs))
  unfolding register_inode initialize_at
  register_inode-ledger now i mode nlink gid uid fs gs ino h =
      let (n, slotted) = take_slot i fs in
      let (made, p, q) =
        bind_some (initialize_at now n mode nlink gid uid i (use_inodes 1 slotted)) _ h in
      let (j, r, t) = bind_some (get_inode made n) _ q in
      let (named, whole) = take_slot-ledger i fs in
      let filled =
        initialize_as-ledger i.node n (initialize now n mode nlink gid uid i) (use_inodes 1 slotted)
          made (unfold initialize in refl) p in
      (
        ground (arith, named),
        ap (λ g. ledger g) (sym (same_state t))
            ∙ use_blocks-ledger j.st_blocks made
            ∙ filled
            ∙ whole,
      )

  register_inode-there :
      (now : ℕ) (i : Inode) (mode nlink gid uid : ℕ) (fs gs : Fs) (ino : ℕ)
      → register_inode now i mode nlink gid uid fs ≡ some (ino, gs)
      → (j : Inode) × (get_inode gs ino ≡ some j)
  unfolding register_inode get_inode
  register_inode-there now i mode nlink gid uid fs gs ino h =
      let (n, slotted) = take_slot i fs in
      let (made, p, q) =
        bind_some (initialize_at now n mode nlink gid uid i (use_inodes 1 slotted)) _ h in
      let (j, r, t) = bind_some (get_inode made n) _ q in
      let out = some_injective t in
      (
        j,
        subst (λ g. get_inode g ino ≡ some j) (ap (λ o. o.1) out)
            (subst (λ k. get_inode made k ≡ some j) (ap (λ o. o.0) out) r),
      )

  pub add_dots-ledger :
      (ino parent_ino : ℕ) (fs gs : Fs) → add_dots ino parent_ino fs ≡ some gs → SameNumbers fs gs
  unfolding add_dots
  add_dots-ledger ino parent_ino fs gs h =
      let ((r, one), p, q) = bind_some (add_child_at ino dot ino fs) _ h in
      let ((k, two), s, t) = bind_some (add_child_at ino dot_dot parent_ino one) _ q in
      ap (λ g. ledger g) (sym (some_injective t))
      ∙ add_child_at-ledger ino dot_dot parent_ino one two k s
      ∙ add_child_at-ledger ino dot ino fs one r p

  -- Where each inode is in the slot of its number, the queue names each empty slot once and the
  -- counter of free inodes is right: a call of RegisterInode that returns gives the new object a
  -- number under which GetInode found nothing, and under which GetInode then finds an inode that
  -- says that it has this number; the number is then not in the queue.
  pub register_inode-fresh :
      (now : ℕ) (i : Inode) (mode nlink gid uid : ℕ) (fs gs : Fs) (ino : ℕ)
      → IsSound (ledger fs)
      → register_inode now i mode nlink gid uid fs ≡ some (ino, gs)
      → (get_inode fs ino ≡ none)
        × ((j : Inode) × (get_inode gs ino ≡ some j) × (j.st_ino ≡ ino))
        × NotIn ino gs.deleted_inodes
  register_inode-fresh now i mode nlink gid uid fs gs ino v h =
      let (chosen, given) = register_inode-ledger now i mode nlink gid uid fs gs ino h in
      let (j, there) = register_inode-there now i mode nlink gid uid fs gs ino h in
      let placed : get_elem? (numbers_of gs.inodes) ino ≡ some (some ino) =
        ap (λ l. get_elem? l.numbers ino) given
        ∙ subst (λ n. get_elem? (allocate (ledger fs)).numbers n ≡ some (some n)) (sym chosen)
            (next_number-allocate (ledger fs) v) in
      let number = get_inode-number gs.inodes ino j (get_inode-slot gs ino j there) in
      (
        elim (Option-cases (get_inode fs ino)) [
          | inl e ↦ e
          | inr (k, e) ↦ absurd (
              next_number_free (ledger fs) k.st_ino v (
                subst (λ n. get_elem? (numbers_of fs.inodes) n ≡ some (some k.st_ino)) chosen
                  (get_inode-number fs.inodes ino k (get_inode-slot fs ino k e))))
        ],
        (j, there, some_injective (some_injective (sym number ∙ placed))),
        subst (λ l. NotIn ino l.free_list) (sym given)
            (subst (λ n. NotIn n (allocate (ledger fs)).free_list) (sym chosen)
              (next_number-NotIn (ledger fs) v)),
      )
