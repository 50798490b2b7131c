-- ===== src/Fs/Create.antt =====
-- RegisterInode and do_create_node of src/fuse_cpp_ramfs.cpp, the virtual Initialize methods, and the
-- handlers that make new objects: FuseMknod, FuseMkdir, FuseSymlink, FuseCreate.
use Prim.Native.Nat.{bit_or, min}
use veri_fs.Base.{
  List, ℕ, ◌+◌, ◌/◌, ◌%◌, Option, none, some, Bool, if◌then◌else◌, not, [], ◌∷◌, ◌++◌, ◌==◌, ◌>>=◌,
  length, ltb, ℤ, pos, negsuc, neg, is_below_zero, mul64, sub64,
}
use veri_fs.Types.{
  Name, Bytes, Inode, Node, file, directory, symlink, special, char_dev, block_dev, fifo, sock, Abi,
  ino_notfound, enoent, enotdir, einval, enospc, eexist,
}
use veri_fs.Replies.{err}
use veri_fs.Names.{dot, dot_dot}
use veri_fs.Blocks.{check_has_space_for}
use veri_fs.Directory.{child_inode_number_with_name, initialize_size}
use veri_fs.Inode.{new_inode, initialize, with_attr, increment_link_count}
use veri_fs.Fs.{
  Fs, Outcome, Caller, reply, get_inode, update_inode, delete_inode, take_slot, use_blocks,
  use_inodes, linked_inode, as_directory, directory_state, put_directory, modify_inode,
  add_child_at, reply_entry_at, reply_create_at,
}

-- mode & S_IFMT, as the digit that the S_IS tests compare.
abbrev pub file_type : ℕ → ℕ
file_type mode = mode / 4096 % 16

abbrev pub s_ifdir : ℕ
s_ifdir = 0x4000

abbrev pub s_ifreg : ℕ
s_ifreg = 0x8000

-- 0777 | S_IFLNK.
abbrev pub symlink_mode : ℕ
symlink_mode = 0xa1ff

abbrev pub path_max : ℕ
path_max = 4096

-- The objects that do_create_node makes by mode; `none` is -EINVAL.
unfoldable pub node_for : ℕ → Option Bytes → Option Node
node_for mode link =
    if file_type mode == 8
    then some (file [])
    else if file_type mode == 4
    then some (directory [])
    else if file_type mode == 2
    then some (special char_dev)
    else if file_type mode == 6
    then some (special block_dev)
    else if file_type mode == 1
    then some (special fifo)
    else if file_type mode == 12
    then some (special sock)
    else if file_type mode == 10
    then elim link [ none ↦ none | some target ↦ some (symlink target) ]
    else none

-- SymLink::Initialize after Inode::Initialize.
unfoldable pub initialize_symlink : Bytes → Inode → Inode
initialize_symlink target i =
    let blocks = length target / i.st_blksize in
    with_attr i (record i.attr {
      st_size = length target;
      st_blocks = if ltb (mul64 i.st_blksize blocks) (length target) then blocks + 1 else blocks;
    })

-- The reply to a new object: its entry, or the error.
abbrev pub reply_new : (ℕ → Fs → Outcome) → ℤ → Fs → Outcome
reply_new good (pos ino) fs = if ino == 0 then reply (err (pos 0)) fs else good ino fs
reply_new good (negsuc n) fs = reply (err (neg (negsuc n))) fs

module _ ⦃abi : Abi⦄ where
  -- What the virtual Initialize does after Inode::Initialize has left `base`, by class.
  unfoldable pub initialize_as : Node → ℕ → Inode → Fs → Option Fs
  unfolding initialize_symlink update_inode put_directory initialize_size
  initialize_as (file b) ino base fs = some (update_inode ino base fs)
  initialize_as (special t) ino base fs = some (update_inode ino base fs)
  initialize_as (symlink target) ino base fs =
      some (update_inode ino (initialize_symlink target base) fs)
  initialize_as (directory c) ino base fs = do
    d ← initialize_size (directory_state base c fs)
    some (put_directory ino base d fs)

  -- Initialize of the object in the slot.
  unfoldable pub initialize_at : ℕ → ℕ → ℕ → ℕ → ℕ → ℕ → Inode → Fs → Option Fs
  unfolding initialize_as initialize
  initialize_at now ino mode nlink gid uid i fs =
      initialize_as i.node ino (initialize now ino mode nlink gid uid i) fs

  -- RegisterInode.
  unfoldable pub register_inode : ℕ → Inode → ℕ → ℕ → ℕ → ℕ → Fs → Option (ℕ × Fs)
  unfolding take_slot initialize_at get_inode
  register_inode now i mode nlink gid uid fs = do
    let (ino, slotted) = take_slot i fs
    made ← initialize_at now ino mode nlink gid uid i (use_inodes 1 slotted)
    j ← get_inode made ino
    some (ino, use_blocks j.st_blocks made)

  -- The entries "." and ".." of a new directory; their results are not looked at.
  unfoldable pub add_dots : ℕ → ℕ → Fs → Option Fs
  unfolding add_child_at
  add_dots ino parent_ino fs = do
    (_, one) ← add_child_at ino dot ino fs
    (_, two) ← add_child_at ino dot_dot parent_ino one
    some two

  -- The end of do_create_node, by what _AddChild returned.
  unfoldable pub settle_node : Bool → ℕ → ℕ → ℤ → Fs → Option (ℤ × Fs)
  unfolding get_inode delete_inode modify_inode
  settle_node is_dir parent ino ret fs =
      if is_below_zero ret
      then (do
        j ← get_inode fs ino
        some (ret, delete_inode ino (use_blocks j.st_blocks (use_inodes (sub64 0 1) fs))))
      else (do
        linked ← (if is_dir then modify_inode parent increment_link_count fs else some fs)
        some (pos ino, linked))

  -- do_create_node after the object is made.
  unfoldable pub insert_node : ℕ → ℕ → Name → ℕ → Caller → Node → Fs → Option (ℤ × Fs)
  unfolding register_inode add_dots add_child_at settle_node
  insert_node now parent name mode ctx n fs =
      let is_dir = file_type mode == 4 in
      do
        (ino, made) ←
            register_inode now (new_inode n) mode (if is_dir then 2 else 1) ctx.gid ctx.uid fs
        p ← get_inode made parent
        dotted ← (if is_dir then add_dots ino p.st_ino made else some made)
        (ret, named) ← add_child_at parent name ino dotted
        settle_node is_dir parent ino ret named

  -- do_create_node. The first argument is whether `new` finds memory.
  unfoldable pub do_create_node :
      Bool → ℕ → ℕ → Name → ℕ → Caller → Option Bytes → Fs → Option (ℤ × Fs)
  unfolding node_for insert_node
  do_create_node memory now parent name mode ctx link fs = elim (node_for mode link) [
    | none ↦ some (neg (pos einval), fs)
    | some n ↦
        if not memory
        then some (neg (pos enospc), fs)
        else if fs.m_stbuf.f_ffree == 0
        then some (neg (pos enospc), fs)
        else insert_node now parent name mode ctx n fs
  ]

  -- FuseMknod and FuseMkdir, which differ in the mode that they pass on.
  unfoldable pub make_child : Bool → ℕ → Caller → ℕ → Name → ℕ → Fs → Outcome
  unfolding linked_inode child_inode_number_with_name do_create_node reply_entry_at
  make_child memory now ctx parent name mode fs = elim (linked_inode fs parent) [
    | none ↦ reply (err (pos enoent)) fs
    | some p ↦ elim (as_directory p) [
      | none ↦ reply (err (pos enotdir)) fs
      | some c ↦
          if fs.m_stbuf.f_ffree == 0
          then reply (err (pos enospc)) fs
          else if not (child_inode_number_with_name name c == ino_notfound)
          then reply (err (pos eexist)) fs
          else do
            (ino, made) ← do_create_node memory now parent name mode ctx none fs
            reply_new reply_entry_at ino made
    ]
  ]

  unfoldable pub fuse_mknod : Bool → ℕ → Caller → ℕ → Name → ℕ → Fs → Outcome
  unfolding make_child
  fuse_mknod memory now ctx parent name mode = make_child memory now ctx parent name mode

  unfoldable pub fuse_mkdir : Bool → ℕ → Caller → ℕ → Name → ℕ → Fs → Outcome
  unfolding make_child
  fuse_mkdir memory now ctx parent name mode =
      make_child memory now ctx parent name (bit_or mode s_ifdir)

  -- FuseSymlink after its checks for space.
  unfoldable pub link_unless_there :
      Bool → ℕ → Caller → Bytes → ℕ → Name → List (Name × ℕ) → Fs → Outcome
  unfolding child_inode_number_with_name do_create_node reply_entry_at
  link_unless_there memory now ctx link parent name c fs =
      if not (child_inode_number_with_name name c == ino_notfound)
      then reply (err (pos eexist)) fs
      else do
        (ino, made) ← do_create_node memory now parent name symlink_mode ctx (some link) fs
        reply_new reply_entry_at ino made

  -- FuseSymlink. The two checks for space reply, but do not return.
  unfoldable pub fuse_symlink : Bool → ℕ → Caller → Bytes → ℕ → Name → Fs → Outcome
  unfolding linked_inode link_unless_there
  fuse_symlink memory now ctx link parent name fs = elim (linked_inode fs parent) [
    | none ↦ reply (err (pos enoent)) fs
    | some p ↦ elim (as_directory p) [
      | none ↦ reply (err (pos enotdir)) fs
      | some c ↦
          let blocks =
            (if not (check_has_space_for fs.m_stbuf none (min (length name) path_max))
              then err (pos enospc) ∷ []
              else []) in
          let slots = (if fs.m_stbuf.f_ffree == 0 then err (pos enospc) ∷ [] else []) in
          do
            (last, after) ← link_unless_there memory now ctx link parent name c fs
            some (blocks ++ (slots ++ last), after)
    ]
  ]

  -- FuseCreate, which leaves the checks to do_create_node.
  unfoldable pub fuse_create : Bool → ℕ → Caller → ℕ → Name → ℕ → Fs → Outcome
  unfolding linked_inode do_create_node reply_create_at
  fuse_create memory now ctx parent name mode fs = elim (linked_inode fs parent) [
    | none ↦ reply (err (pos enoent)) fs
    | some p ↦ elim (as_directory p) [
      | none ↦ reply (err (pos enotdir)) fs
      | some c ↦ do
        (ino, made) ← do_create_node memory now parent name (bit_or mode s_ifreg) ctx none fs
        reply_new reply_create_at ino made
    ]
  ]
