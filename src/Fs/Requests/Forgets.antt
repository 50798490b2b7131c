-- ===== src/Fs/Requests/Forgets.antt =====
-- FORGET requests for one inode: the kernel gives its references back, in as many parts as it likes.
use veri_fs.Base.{
  ℕ, ◌+◌, ◌-◌, ◌<◌, ◌≡◌, inl, inr, ◌∙◌, refl, ap, none, some, List, [], ◌∷◌, Bool-cases, ltb, arith,
  word, sub64, add64, set, ◌++◌, get_elem?, set_there, set-set,
}
use veri_fs.Types.{Inode, Abi}
use veri_fs.Replies.{nothing}
use veri_fs.Blocks.{update_used_blocks, update_used_inodes}
use veri_fs.Inode.{forget, forgotten, has_no_links}
use veri_fs.Fs.{Fs, Outcome, get_inode, update_inode, delete_inode, use_blocks, use_inodes}
use veri_fs.Fs.Entries.{fuse_forget}
use veri_fs.Fs.Requests.{World, Request, dispatch, run}

-- FORGET requests for an inode with the numbers of references that they give back.
abbrev pub forgets : ℕ → List (World × ℕ) → List (World × Request)
forgets ino [] = []
forgets ino ((w, n) ∷ rest) = (w, Request.forget ino n) ∷ forgets ino rest

abbrev pub given_back : List (World × ℕ) → ℕ
given_back [] = 0
given_back ((w, n) ∷ rest) = n + given_back rest

-- The file system without an inode: its slot is null, its number is the last of the queue, and its
-- blocks and the inode are added to the free ones.
abbrev pub freed : ℕ → Inode → Fs → Fs
freed ino i fs = record fs {
  inodes = set fs.inodes ino none;
  deleted_inodes = fs.deleted_inodes ++ ino ∷ [];
  m_stbuf = record fs.m_stbuf {
    f_bfree = add64 fs.m_stbuf.f_bfree i.st_blocks;
    f_bavail = add64 fs.m_stbuf.f_bavail i.st_blocks;
    f_ffree = add64 fs.m_stbuf.f_ffree 1;
    f_favail = add64 fs.m_stbuf.f_favail 1;
  };
}

-- A negated number of blocks or inodes in use.
sub64-negated : (a n : ℕ) → n < word → sub64 a (sub64 0 n) ≡ add64 a n
sub64-negated a n h = omega arith

delete_inode-freed :
    (fs : Fs) (ino : ℕ) (i : Inode)
    → i.st_blocks < word
    → use_blocks (sub64 0 i.st_blocks) (use_inodes (sub64 0 1) (delete_inode ino fs))
      ≡ freed ino i fs
unfolding delete_inode update_used_blocks update_used_inodes
delete_inode-freed fs ino i h = λ k. record (freed ino i fs) {
  m_stbuf = record fs.m_stbuf {
    f_bfree = sub64-negated fs.m_stbuf.f_bfree i.st_blocks h k;
    f_bavail = sub64-negated fs.m_stbuf.f_bavail i.st_blocks h k;
    f_ffree = sub64-negated fs.m_stbuf.f_ffree 1 (omega arith) k;
    f_favail = sub64-negated fs.m_stbuf.f_favail 1 (omega arith) k;
  };
}

get_inode-slot :
    (fs : Fs) (ino : ℕ) (i : Inode)
    → get_inode fs ino ≡ some i
    → get_elem? fs.inodes ino ≡ some (some i)
unfolding get_inode
get_inode-slot fs ino i h = ground arith

get_inode-update_inode :
    (fs : Fs) (ino : ℕ) (i j : Inode)
    → get_inode fs ino ≡ some i
    → get_inode (update_inode ino j fs) ino ≡ some j
unfolding get_inode update_inode
get_inode-update_inode fs ino i j h =
    ground (arith, set_there fs.inodes ino (some i) (some j) (get_inode-slot fs ino i h))

get_inode-freed :
    (fs : Fs) (ino : ℕ) (i j : Inode)
    → get_inode fs ino ≡ some i
    → get_inode (freed ino j fs) ino ≡ none
unfolding get_inode
get_inode-freed fs ino i j h =
    ground (arith, set_there fs.inodes ino (some i) none (get_inode-slot fs ino i h))

freed-update_inode :
    (fs : Fs) (ino n : ℕ) (i : Inode)
    → freed ino (record i { nlookup = n }) (update_inode ino (record i { nlookup = n }) fs)
      ≡ freed ino i fs
unfolding update_inode
freed-update_inode fs ino n i = rw (set-set fs.inodes ino (some (record i { nlookup = n })) none)

last_forget :
    (fs : Fs) (ino n : ℕ) (i : Inode)
    → get_inode fs ino ≡ some i
    → i.st_nlink ≡ 0
    → i.nlookup ≡ n
    → n < word
    → i.st_blocks < word
    → fuse_forget ino n fs ≡ some (nothing ∷ [], freed ino i fs)
unfolding fuse_forget forget forgotten has_no_links get_inode delete_inode update_inode
last_forget fs ino n i h none_left e range blocks =
    let left : Outcome = some (
      nothing ∷ [],
      use_blocks (sub64 0 i.st_blocks) (use_inodes (sub64 0 1) (delete_inode ino fs)),
    ) in
    let frees : fuse_forget ino n fs ≡ left =
      ground (arith, set-set fs.inodes ino (some (forget n i)) none) in
    frees ∙ ap (λ gs. some (nothing ∷ [], gs)) (delete_inode-freed fs ino i blocks)

earlier_forget :
    (fs : Fs) (ino n : ℕ) (i : Inode)
    → get_inode fs ino ≡ some i
    → n < i.nlookup
    → i.nlookup < word
    → fuse_forget ino n fs
      ≡ some (nothing ∷ [], update_inode ino (record i { nlookup = i.nlookup - n }) fs)
unfolding fuse_forget forget forgotten has_no_links get_inode update_inode
earlier_forget fs ino n i h less range = ground arith

fuse_forget-none :
    (fs : Fs) (ino n : ℕ) → get_inode fs ino ≡ none → fuse_forget ino n fs ≡ some ([], fs)
unfolding fuse_forget
fuse_forget-none fs ino n h = ground arith

module _ ⦃abi : Abi⦄ where
  forgets-none :
      (ino : ℕ) (ns : List (World × ℕ)) (fs : Fs)
      → get_inode fs ino ≡ none
      → run (forgets ino ns) fs ≡ some fs
  unfolding run dispatch
  forgets-none ino [] fs h = refl
  forgets-none ino ((w, n) ∷ rest) fs h =
      rw (run, dispatch, fuse_forget-none fs ino n h) (forgets-none ino rest fs h)

  -- An inode without links is freed when the kernel has given back the references that it counts,
  -- at least one FORGET and fewer than 2 ^ 64 references, however they are split, where it has
  -- fewer than 2 ^ 64 blocks: the run of the requests ends in the state in which the slot is
  -- null, the number is the last of the queue of deleted inodes, the free blocks have risen by
  -- the inode's and the free inodes by one, modulo 2 ^ 64, and nothing else has changed.
  pub run-forgets :
      (ino n : ℕ) (w : World) (rest : List (World × ℕ)) (i : Inode) (fs : Fs)
      → get_inode fs ino ≡ some i
      → i.st_nlink ≡ 0
      → i.nlookup < word
      → i.st_blocks < word
      → n + given_back rest ≡ i.nlookup
      → run (forgets ino ((w, n) ∷ rest)) fs ≡ some (freed ino i fs)
  unfolding run dispatch
  run-forgets ino n w [] i fs h unlinked range blocks e =
      rw (run, dispatch, last_forget fs ino n i h unlinked (omega arith) (omega arith) blocks) refl
  run-forgets ino n w ((v, m) ∷ rest) i fs h unlinked range blocks e =
      elim (Bool-cases (ltb n i.nlookup)) [
        | inl less ↦
            let j : Inode = record i { nlookup = i.nlookup - n } in
            rw (run, dispatch, earlier_forget fs ino n i h (ground (arith, less)) range)
              (run-forgets ino m v rest j (update_inode ino j fs)
                  (get_inode-update_inode fs ino i j h) unlinked (omega arith) blocks
                  (ground (arith, less))
                ∙ ap some (freed-update_inode fs ino (i.nlookup - n) i))
        | inr equal ↦
            rw
              (
                run,
                dispatch,
                last_forget fs ino n i h unlinked (ground (arith, equal)) (omega arith) blocks,
              )
              (forgets-none ino ((v, m) ∷ rest) (freed ino i fs) (get_inode-freed fs ino i i h))
      ]
