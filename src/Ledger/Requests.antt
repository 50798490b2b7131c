-- ===== src/Ledger/Requests.antt =====
-- Every request is one step of the allocator, so every run from a mount keeps it sound.
use mathlib.Core.Path.{subst}
use Prim.Native.Nat.{bit_or}
use veri_fs.Base.{ℕ, ◌≡◌, ◌≢◌, ◌≤◌, ◌<◌, refl, ap, sym, ◌∙◌, none, some, arith, List, [], ◌∷◌, word}
use veri_fs.Replies.{Reply}
use veri_fs.Types.{Inode, Abi, special, no_block, directory}
use veri_fs.Inode.{new_inode}
use veri_fs.Fs.{Fs, Caller, Outcome}
use veri_fs.Fs.Create.{register_inode, s_ifdir}
use veri_fs.Fs.Mount.{limit_or, k_total_inodes, construct, reset_counters, fuse_init}
use veri_fs.Fs.Requests.{World, Request, dispatch, run}
use veri_fs.Ledger.{Ledger, Step, allocate}
use veri_fs.Ledger.Sound.{IsSound, Step-IsSound, allocate-IsSound}
use veri_fs.Ledger.Always.{Always, leaves, stops, Always-end}
use veri_fs.Ledger.View.{ledger, SameNumbers, bind_cases, some_injective}
use veri_fs.Ledger.Register.{register_inode-ledger, add_dots-ledger}
use veri_fs.Ledger.Makes.{
  Steps, SameNumbers-Steps, fuse_mknod-Steps, fuse_mkdir-Steps, fuse_create-Steps,
  fuse_symlink-Steps, fuse_forget-Steps,
}
use veri_fs.Ledger.Entries.{
  fuse_unlink-SameNumbers, fuse_rmdir-SameNumbers, fuse_link-SameNumbers, fuse_rename-SameNumbers,
}
use veri_fs.Ledger.Access.{
  fuse_lookup-SameNumbers, fuse_set_attr-SameNumbers, fuse_write-SameNumbers, fuse_read-SameNumbers,
  fuse_set_xattr-SameNumbers, fuse_remove_xattr-SameNumbers, fuse_read_dir-SameNumbers,
}
use veri_fs.Ledger.Queries.{
  Unchanged, fuse_get_attr-Unchanged, fuse_open_dir-Unchanged, fuse_release_dir-Unchanged,
  fuse_open-Unchanged, fuse_release-Unchanged, fuse_fsync-Unchanged, fuse_fsync_dir-Unchanged,
  fuse_flush-Unchanged, fuse_read_link-Unchanged, fuse_statfs-Unchanged, fuse_get_xattr-Unchanged,
  fuse_list_xattr-Unchanged, fuse_access-Unchanged, fuse_get_lock-Unchanged,
}

-- A handler that keeps the numbers, or the whole state, takes no step.
kept : (fs : Fs) (o : Outcome) → Always (SameNumbers fs) o → Always (Steps fs) o
kept fs none h = stops
kept fs (some _) (Always.leaves rs gs e) = leaves rs gs (SameNumbers-Steps fs gs e)

same : (fs : Fs) (o : Outcome) → Always (Unchanged fs) o → Always (Steps fs) o
same fs none h = stops
same fs (some _) (Always.leaves rs gs e) =
    leaves rs gs (SameNumbers-Steps fs gs (ap (λ g. ledger g) e))

-- An empty table with `n` inodes to give.
abbrev empty_ledger : ℕ → Ledger
empty_ledger n = record { numbers = []; free_list = []; free_count = n; total = n; pool = [] }

empty_ledger-IsSound : (n : ℕ) → n < word → IsSound (empty_ledger n)
empty_ledger-IsSound n h = record {
  numbered = λ i k e. cc;
  empty = tt;
  distinct = tt;
  complete = refl;
  counted = omega arith;
  range = h;
}

two_allocated-IsSound : (n : ℕ) → 2 ≤ n → n < word → IsSound (allocate (allocate (empty_ledger n)))
two_allocated-IsSound n two range =
    allocate-IsSound (allocate (empty_ledger n)) (ground arith)
      (allocate-IsSound (empty_ledger n) (ground arith) (empty_ledger-IsSound n range))

module _ ⦃abi : Abi⦄ where
  dispatch-Always : (w : World) (r : Request) (fs : Fs) → Always (Steps fs) (dispatch w r fs)
  unfolding dispatch
  dispatch-Always w (Request.lookup parent name) fs =
      kept fs _ (fuse_lookup-SameNumbers parent name fs)
  dispatch-Always w (Request.forget ino n) fs = fuse_forget-Steps ino n fs
  dispatch-Always w (Request.get_attr ino) fs = same fs _ (fuse_get_attr-Unchanged ino fs)
  dispatch-Always w (Request.set_attr ino a to_set) fs =
      kept fs _ (fuse_set_attr-SameNumbers w.allocator w.now ino a to_set fs)
  dispatch-Always w (Request.read_link ino) fs = same fs _ (fuse_read_link-Unchanged ino fs)
  dispatch-Always w (Request.mknod parent name mode) fs =
      fuse_mknod-Steps w.memory w.now w.caller parent name mode fs
  dispatch-Always w (Request.mkdir parent name mode) fs =
      fuse_mkdir-Steps w.memory w.now w.caller parent name mode fs
  dispatch-Always w (Request.unlink parent name) fs =
      kept fs _ (fuse_unlink-SameNumbers w.now parent name fs)
  dispatch-Always w (Request.rmdir parent name) fs =
      kept fs _ (fuse_rmdir-SameNumbers w.now parent name fs)
  dispatch-Always w (Request.symlink target parent name) fs =
      fuse_symlink-Steps w.memory w.now w.caller target parent name fs
  dispatch-Always w (Request.rename parent name newparent newname) fs =
      kept fs _ (fuse_rename-SameNumbers w.now w.later parent name newparent newname fs)
  dispatch-Always w (Request.link ino newparent newname) fs =
      kept fs _ (fuse_link-SameNumbers ino newparent newname fs)
  dispatch-Always w (Request.open_file ino) fs = same fs _ (fuse_open-Unchanged ino fs)
  dispatch-Always w (Request.read ino size off) fs =
      kept fs _ (fuse_read-SameNumbers w.now ino size off fs)
  dispatch-Always w (Request.write ino bytes off) fs =
      kept fs _ (fuse_write-SameNumbers w.allocator w.now ino bytes off fs)
  dispatch-Always w (Request.flush ino) fs = same fs _ (fuse_flush-Unchanged ino fs)
  dispatch-Always w (Request.release ino) fs = same fs _ (fuse_release-Unchanged ino fs)
  dispatch-Always w (Request.fsync ino) fs = same fs _ (fuse_fsync-Unchanged ino fs)
  dispatch-Always w (Request.open_dir ino) fs = same fs _ (fuse_open_dir-Unchanged ino fs)
  dispatch-Always w (Request.read_dir ino size off) fs =
      kept fs _ (fuse_read_dir-SameNumbers w.allocator w.entry w.rands ino size off fs)
  dispatch-Always w (Request.get_lock ino) fs = same fs _ (fuse_get_lock-Unchanged ino fs)
  dispatch-Always w (Request.release_dir ino) fs = same fs _ (fuse_release_dir-Unchanged ino fs)
  dispatch-Always w (Request.fsync_dir ino) fs = same fs _ (fuse_fsync_dir-Unchanged ino fs)
  dispatch-Always w (Request.statfs ino) fs = same fs _ (fuse_statfs-Unchanged ino fs)
  dispatch-Always w (Request.set_xattr ino name value flags) fs =
      kept fs _ (fuse_set_xattr-SameNumbers w.allocator ino name value flags fs)
  dispatch-Always w (Request.get_xattr ino name size) fs =
      same fs _ (fuse_get_xattr-Unchanged ino name size fs)
  dispatch-Always w (Request.list_xattr ino size) fs =
      same fs _ (fuse_list_xattr-Unchanged w.allocator ino size fs)
  dispatch-Always w (Request.remove_xattr ino name) fs =
      kept fs _ (fuse_remove_xattr-SameNumbers ino name fs)
  dispatch-Always w (Request.access ino mask) fs =
      same fs _ (fuse_access-Unchanged w.caller ino mask fs)
  dispatch-Always w (Request.create parent name mode) fs =
      fuse_create-Steps w.memory w.now w.caller parent name mode fs

  -- Whatever a request (of every handler but ioctl) replies, it does one step of the abstract
  -- allocator to the inode numbers: nothing, one number given out while free inodes were left,
  -- one number taken back, or one given out and taken back.
  pub dispatch-Step :
      (w : World) (r : Request) (fs gs : Fs) (rs : List Reply)
      → dispatch w r fs ≡ some (rs, gs)
      → Step (ledger fs) (ledger gs)
  dispatch-Step w r fs gs rs h = Always-end (dispatch w r fs) (dispatch-Always w r fs) h

  run-keeps :
      (rs : List (World × Request)) (fs gs : Fs)
      → IsSound (ledger fs)
      → run rs fs ≡ some gs
      → IsSound (ledger gs)
  unfolding run
  run-keeps [] fs gs v h = subst (λ g. IsSound (ledger g)) (some_injective h) v
  run-keeps ((w, r) ∷ rest) fs gs v h = bind_cases (dispatch w r fs) _ _ h λ (replies, after) p q.
      run-keeps rest after gs (Step-IsSound (dispatch-Step w r fs after replies p) v) q

  -- FuseInit makes two objects.
  fuse_init-ledger :
      (now : ℕ) (process : Caller) (rootmode : ℕ) (fs gs : Fs)
      → fuse_init now process rootmode fs ≡ some gs
      → ledger gs ≡ allocate (allocate (ledger (reset_counters fs)))
  unfolding fuse_init
  fuse_init-ledger now process rootmode fs gs h =
      let first = new_inode (special no_block) in
      let root = new_inode (directory []) in
      let mode : ℕ = bit_or s_ifdir rootmode in
      bind_cases (register_inode now first 0 0 process.gid process.uid (reset_counters fs)) _ _ h
        λ (ino, one) p q.
          bind_cases (register_inode now root mode 2 process.gid process.uid one) _ _ q
            λ (rootno, two) r s.
              add_dots-ledger rootno rootno two gs s
              ∙ (register_inode-ledger now root mode 2 process.gid process.uid one two rootno r).1
              ∙ ap allocate
                  (register_inode-ledger now first 0 0 process.gid process.uid (reset_counters fs)
                    one ino p).1

  -- From any mount with a number of inodes other than 1 and below 2 ^ 64, after any run of
  -- requests (every handler but ioctl) that no failed assertion or bad pointer stops, their error
  -- replies included, the inode table is sound: each inode stands in the slot of its own number,
  -- the queue of deleted inodes names each empty slot exactly once, and the free inodes that
  -- statfs reports are the total less the inodes in the table.
  pub run-IsSound :
      (blocks inodes now : ℕ) (process : Caller) (rootmode : ℕ) (rs : List (World × Request))
      (fs gs : Fs)
      → inodes ≢ 1
      → inodes < word
      → fuse_init now process rootmode (construct blocks inodes) ≡ some fs
      → run rs fs ≡ some gs
      → IsSound (ledger gs)
  unfolding construct reset_counters
  run-IsSound blocks inodes now process rootmode rs fs gs two range h k =
      let n : ℕ = limit_or inodes k_total_inodes in
      run-keeps rs fs gs
        (subst IsSound (sym (fuse_init-ledger now process rootmode (construct blocks inodes) fs h))
          (two_allocated-IsSound n (ground arith) (ground arith)))
        k
