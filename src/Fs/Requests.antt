-- ===== src/Fs/Requests.antt =====
-- The requests that libfuse passes on to the handlers of src/fuse_cpp_ramfs.cpp, and runs of them.
pub mod Forgets
use veri_fs.Base.{ℕ, Option, some, Bool, List, [], ◌∷◌, ◌>>=◌}
use veri_fs.Types.{Abi, Name, Bytes, Attr}
use veri_fs.Memory.{Allocator}
use veri_fs.Fs.{Fs, Caller, Outcome}
use veri_fs.Fs.Create.{fuse_mknod, fuse_mkdir, fuse_symlink, fuse_create}
use veri_fs.Fs.Entries.{fuse_unlink, fuse_rmdir, fuse_link, fuse_rename, fuse_forget}
use veri_fs.Fs.Access.{
  fuse_lookup, fuse_get_attr, fuse_set_attr, fuse_open_dir, fuse_release_dir, fuse_open,
  fuse_release, fuse_fsync, fuse_fsync_dir, fuse_flush, fuse_write, fuse_read, fuse_read_link,
  fuse_statfs, fuse_set_xattr, fuse_get_xattr, fuse_list_xattr, fuse_remove_xattr, fuse_access,
  fuse_get_lock,
}
use veri_fs.Fs.ReadDir.{Direntry, fuse_read_dir}

-- What the world gives a handler: the clock at its two readings, whether `new` finds memory, the
-- allocator, the caller, fuse_add_direntry and the results of rand.
pub record World : Type 0 where
  pub now : ℕ
  pub later : ℕ
  pub memory : Bool
  pub allocator : Allocator
  pub caller : Caller
  pub entry : Direntry
  pub rands : List ℕ

-- The handlers with their arguments, but for ioctl.
pub data Request : Type 0 where
  lookup : ℕ → Name → Request
  forget : ℕ → ℕ → Request
  get_attr : ℕ → Request
  set_attr : ℕ → Attr → ℕ → Request
  read_link : ℕ → Request
  mknod : ℕ → Name → ℕ → Request
  mkdir : ℕ → Name → ℕ → Request
  unlink : ℕ → Name → Request
  rmdir : ℕ → Name → Request
  symlink : Bytes → ℕ → Name → Request
  rename : ℕ → Name → ℕ → Name → Request
  link : ℕ → ℕ → Name → Request
  open_file : ℕ → Request
  read : ℕ → ℕ → ℕ → Request
  write : ℕ → Option Bytes → ℕ → Request
  flush : ℕ → Request
  release : ℕ → Request
  fsync : ℕ → Request
  open_dir : ℕ → Request
  read_dir : ℕ → ℕ → ℕ → Request
  release_dir : ℕ → Request
  fsync_dir : ℕ → Request
  statfs : ℕ → Request
  set_xattr : ℕ → Name → Bytes → ℕ → Request
  get_xattr : ℕ → Name → ℕ → Request
  list_xattr : ℕ → ℕ → Request
  remove_xattr : ℕ → Name → Request
  access : ℕ → ℕ → Request
  create : ℕ → Name → ℕ → Request
  get_lock : ℕ → Request

module _ ⦃abi : Abi⦄ where
  -- FuseOps: the handler of a request.
  unfoldable pub dispatch : World → Request → Fs → Outcome
  dispatch w (Request.lookup parent name) = fuse_lookup parent name
  dispatch w (Request.forget ino n) = fuse_forget ino n
  dispatch w (Request.get_attr ino) = fuse_get_attr ino
  dispatch w (Request.set_attr ino a to_set) = fuse_set_attr w.allocator w.now ino a to_set
  dispatch w (Request.read_link ino) = fuse_read_link ino
  dispatch w (Request.mknod parent name mode) = fuse_mknod w.memory w.now w.caller parent name mode
  dispatch w (Request.mkdir parent name mode) = fuse_mkdir w.memory w.now w.caller parent name mode
  dispatch w (Request.unlink parent name) = fuse_unlink w.now parent name
  dispatch w (Request.rmdir parent name) = fuse_rmdir w.now parent name
  dispatch w (Request.symlink target parent name) =
      fuse_symlink w.memory w.now w.caller target parent name
  dispatch w (Request.rename parent name newparent newname) =
      fuse_rename w.now w.later parent name newparent newname
  dispatch w (Request.link ino newparent newname) = fuse_link ino newparent newname
  dispatch w (Request.open_file ino) = fuse_open ino
  dispatch w (Request.read ino size off) = fuse_read w.now ino size off
  dispatch w (Request.write ino bytes off) = fuse_write w.allocator w.now ino bytes off
  dispatch w (Request.flush ino) = fuse_flush ino
  dispatch w (Request.release ino) = fuse_release ino
  dispatch w (Request.fsync ino) = fuse_fsync ino
  dispatch w (Request.open_dir ino) = fuse_open_dir ino
  dispatch w (Request.read_dir ino size off) =
      fuse_read_dir w.allocator w.entry w.rands ino size off
  dispatch w (Request.get_lock ino) = fuse_get_lock ino
  dispatch w (Request.release_dir ino) = fuse_release_dir ino
  dispatch w (Request.fsync_dir ino) = fuse_fsync_dir ino
  dispatch w (Request.statfs ino) = fuse_statfs ino
  dispatch w (Request.set_xattr ino name value flags) =
      fuse_set_xattr w.allocator ino name value flags
  dispatch w (Request.get_xattr ino name size) = fuse_get_xattr ino name size
  dispatch w (Request.list_xattr ino size) = fuse_list_xattr w.allocator ino size
  dispatch w (Request.remove_xattr ino name) = fuse_remove_xattr ino name
  dispatch w (Request.access ino mask) = fuse_access w.caller ino mask
  dispatch w (Request.create parent name mode) =
      fuse_create w.memory w.now w.caller parent name mode

  -- The state after some requests, one after the other.
  unfoldable pub run : List (World × Request) → Fs → Option Fs
  unfolding dispatch
  run [] fs = some fs
  run ((w, r) ∷ rest) fs = do (_, after) ← dispatch w r fs; run rest after
