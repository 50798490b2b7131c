-- ===== src/Ledger/Create.antt =====
-- do_create_node as steps of the allocator.
use mathlib.Core.Path.{subst}
use veri_fs.Base.{
  ℕ, ◌≡◌, ◌≢◌, refl, sym, ap, ◌∙◌, Option, none, some, Bool, arith, ℤ, pos, negsuc, neg, true,
  false, not, ◌⊎◌, inl, inr, if◌then◌else◌, ◌==◌, Bool-cases,
}
use veri_fs.Types.{Name, Bytes, Node, Abi, einval, enospc}
use veri_fs.Inode.{new_inode, increment_link_count}
use veri_fs.Fs.{Fs, Caller, get_inode, modify_inode, add_child_at}
use veri_fs.Fs.Create.{
  register_inode, add_dots, insert_node, settle_node, do_create_node, node_for, file_type,
}
use veri_fs.Ledger.{Ledger, Step, keeps, allocates, takes_back, next_number, allocate, release}
use veri_fs.Ledger.Register.{
  delete_inode-ledger, increment_same, register_inode-ledger, add_dots-ledger,
}
use veri_fs.Ledger.View.{
  if_same, some_injective, ledger, SameNumbers, bind_cases, same_state, modify_inode-ledger,
  add_child_at-ledger,
}

returned_number :
    {a b : ℤ} {x y : Fs} → ◌≡◌ {A = Option (ℤ × Fs)} (some (a, x)) (some (b, y)) → b ≡ a
returned_number q = sym (ap (λ o. o.0) (some_injective q))

left_numbers :
    {a b : ℤ} {x y : Fs}
    → ◌≡◌ {A = Option (ℤ × Fs)} (some (a, x)) (some (b, y))
    → ledger y ≡ ledger x
left_numbers q = sym (ap (λ g. ledger g) (same_state q))

module _ ⦃abi : Abi⦄ where
  -- What do_create_node does to the numbers, by what it returns and by what the naming of the object
  -- in its parent returned.
  pub data Creates (memory : Bool) (parent : ℕ) (name : Name) (made : Option Node) (l : Ledger)
      (r : ℤ) (after : Ledger) : Type 0 where
    bad_mode :
        made ≡ none → r ≡ neg (pos einval) → after ≡ l → Creates memory parent name made l r after
    no_room :
        made ≢ none
        → (memory ≡ false) ⊎ (l.free_count ≡ 0)
        → r ≡ neg (pos enospc)
        → after ≡ l
        → Creates memory parent name made l r after
    given_out :
        made ≢ none
        → memory ≡ true
        → l.free_count ≢ 0
        → (fs gs : Fs) (k : ℕ) → ledger fs ≡ allocate l
        → add_child_at parent name (next_number l) fs ≡ some (pos k, gs)
        → r ≡ pos (next_number l)
        → after ≡ allocate l
        → Creates memory parent name made l r after
    taken_back :
        made ≢ none
        → memory ≡ true
        → l.free_count ≢ 0
        → (fs gs : Fs) (n : ℕ) → ledger fs ≡ allocate l
        → add_child_at parent name (next_number l) fs ≡ some (negsuc n, gs)
        → r ≡ negsuc n
        → after ≡ release (next_number l) (allocate l)
        → Creates memory parent name made l r after

  -- The end of do_create_node: the number is taken back on an error.
  settle_node-Creates :
      (l : Ledger) (b : Bool) (parent ino : ℕ) (name : Name) (n : Node) (dotted named gs : Fs)
      (ret r : ℤ)
      → l.free_count ≢ 0
      → ino ≡ next_number l
      → ledger dotted ≡ allocate l
      → add_child_at parent name ino dotted ≡ some (ret, named)
      → settle_node b parent ino ret named ≡ some (r, gs)
      → Creates true parent name (some n) l r (ledger gs)
  unfolding settle_node
  settle_node-Creates l b parent ino name n dotted named gs (ℤ.pos k) r room chosen whole added h =
      bind_cases _ _ _ h λ linked p q.
        let same : SameNumbers named linked =
          if_same b (modify_inode parent increment_link_count named) named linked
            (λ g. modify_inode-ledger named g parent increment_link_count increment_same) p in
        given_out (λ e. cc) refl room dotted named k whole
          (subst (λ x. add_child_at parent name x dotted ≡ some (pos k, named)) chosen added)
          (sym (ap (λ o. o.0) (some_injective q)) ∙ ap pos chosen)
          (sym (ap (λ g. ledger g) (same_state q))
            ∙ same
            ∙ add_child_at-ledger parent name ino dotted named (pos k) added
            ∙ whole)
  settle_node-Creates l b parent ino name n dotted named gs (ℤ.negsuc k) r room chosen whole added
        h =
      bind_cases (get_inode named ino) _ _ h λ j p q.
        taken_back (λ e. cc) refl room dotted named k whole
          (subst (λ x. add_child_at parent name x dotted ≡ some (negsuc k, named)) chosen added)
          (sym (ap (λ o. o.0) (some_injective q)))
          (sym (ap (λ g. ledger g) (same_state q))
            ∙ delete_inode-ledger ino j.st_blocks named
            ∙ ap (release ino)
                (add_child_at-ledger parent name ino dotted named (negsuc k) added ∙ whole)
            ∙ ap (λ x. release x (allocate l)) chosen)

  insert_node-Creates :
      (now parent : ℕ) (name : Name) (mode : ℕ) (ctx : Caller) (n : Node) (fs gs : Fs) (r : ℤ)
      → fs.m_stbuf.f_ffree ≢ 0
      → insert_node now parent name mode ctx n fs ≡ some (r, gs)
      → Creates true parent name (some n) (ledger fs) r (ledger gs)
  unfolding insert_node
  insert_node-Creates now parent name mode ctx n fs gs r room h =
      let nlink = (if file_type mode == 4 then 2 else 1) in
      bind_cases (register_inode now (new_inode n) mode nlink ctx.gid ctx.uid fs) _ _ h
        λ (ino, made) p1 q1. bind_cases (get_inode made parent) _ _ q1 λ par p2 q2.
          bind_cases (if file_type mode == 4 then add_dots ino par.st_ino made else some made) _ _
            q2
            λ dotted p3 q3.
              bind_cases (add_child_at parent name ino dotted) _ _ q3 λ (ret, named) p4 q4.
                let (chosen, given) =
                  register_inode-ledger now (new_inode n) mode nlink ctx.gid ctx.uid fs made ino
                    p1 in
                let same =
                  if_same (file_type mode == 4) (add_dots ino par.st_ino made) made dotted
                    (add_dots-ledger ino par.st_ino made) p3 in
                settle_node-Creates (ledger fs) (file_type mode == 4) parent ino name n dotted named
                  gs ret r room chosen (same ∙ given) p4 q4

  pub do_create_node-Creates :
      (memory : Bool) (now parent : ℕ) (name : Name) (mode : ℕ) (ctx : Caller) (link : Option Bytes)
      (fs gs : Fs) (r : ℤ)
      → do_create_node memory now parent name mode ctx link fs ≡ some (r, gs)
      → Creates memory parent name (node_for mode link) (ledger fs) r (ledger gs)
  unfolding do_create_node
  do_create_node-Creates memory now parent name mode ctx link fs gs r h =
      go memory (node_for mode link) h
    where
      go :
          (memory : Bool) (o : Option Node)
          → ◌≡◌ {A = Option (ℤ × Fs)}
              (elim o [
                | none ↦ some (neg (pos einval), fs)
                | some n ↦
                    if not memory
                    then some (neg (pos enospc), fs)
                    else if fs.m_stbuf.f_ffree == 0
                    then some (neg (pos enospc), fs)
                    else insert_node now parent name mode ctx n fs
              ])
              (some (r, gs))
          → Creates memory parent name o (ledger fs) r (ledger gs)
      go memory none q = bad_mode refl (returned_number q) (left_numbers q)
      go false (some n) q = no_room (λ e. cc) (inl refl) (returned_number q) (left_numbers q)
      go true (some n) q = elim (Bool-cases (fs.m_stbuf.f_ffree == 0)) [
        | inl full ↦
            let same = rw (full) at q in
            no_room (λ e. cc) (inr (ground (arith, full))) (returned_number same)
              (left_numbers same)
        | inr room ↦
            insert_node-Creates now parent name mode ctx n fs gs r (ground (arith, room))
              (rw (room) at q)
      ]

  -- However do_create_node ends, what it does to the inode numbers is one step of the allocator.
  pub do_create_node-Step :
      (memory : Bool) (now parent : ℕ) (name : Name) (mode : ℕ) (ctx : Caller) (link : Option Bytes)
      (fs gs : Fs) (r : ℤ)
      → do_create_node memory now parent name mode ctx link fs ≡ some (r, gs)
      → Step (ledger fs) (ledger gs)
  do_create_node-Step memory now parent name mode ctx link fs gs r h =
      go (do_create_node-Creates memory now parent name mode ctx link fs gs r h)
    where
      go :
          Creates memory parent name (node_for mode link) (ledger fs) r (ledger gs)
          → Step (ledger fs) (ledger gs)
      go (Creates.bad_mode m e q) = subst (Step (ledger fs)) (sym q) keeps
      go (Creates.no_room m c e q) = subst (Step (ledger fs)) (sym q) keeps
      go (Creates.given_out m c room x y k w a e q) =
          subst (Step (ledger fs)) (sym q) (allocates room)
      go (Creates.taken_back m c room x y k w a e q) =
          subst (Step (ledger fs)) (sym q) (takes_back room)
