-- ===== src/Inode.antt =====
-- src/inode.cpp and src/inode.hpp: attributes, link and lookup counts, access.
-- The extended attributes are in the child Xattr.
pub mod Xattr
use Prim.Native.Nat.{bit_and}
use veri_fs.Base.{
  ℕ, ◌+◌, ◌*◌, ◌/◌, ◌%◌, ◌^◌, Bool, true, false, ◌&&◌, not, if◌then◌else◌, ◌==◌, leb, ltb, ℤ, pos,
  neg, add64, sub64, List, [], ◌∷◌,
}
use veri_fs.Types.{Attr, EntryParam, Inode, Node, buf_block_size, eacces}
use veri_fs.Replies.{Reply, err, entry, created, attributes, nothing}

-- A flag of a mask of bits.
abbrev pub flag : ℕ → ℕ → Bool
flag mask k = mask / 2 ^ k % 2 == 1

abbrev pub with_attr : Inode → Attr → Inode
with_attr i a = record i { entry_param = record i.entry_param { attr = a } }

-- A new object: what the constructors leave, before Initialize.
abbrev pub zero_attr : Attr
zero_attr = record {
  st_dev = 0;
  st_ino = 0;
  st_mode = 0;
  st_nlink = 0;
  st_uid = 0;
  st_gid = 0;
  st_size = 0;
  st_blksize = 0;
  st_blocks = 0;
  st_atim = 0;
  st_mtim = 0;
  st_ctim = 0;
}

unfoldable pub new_inode : Node → Inode
new_inode n = record {
  marked_for_deletion = false;
  nlookup = 0;
  entry_param = record {
    ino = 0;
    generation = 0;
    attr = zero_attr;
    attr_timeout = 0;
    entry_timeout = 0;
  };
  xattr = [];
  node = n;
}

-- Inode::Initialize.
unfoldable pub initialize : ℕ → ℕ → ℕ → ℕ → ℕ → ℕ → Inode → Inode
initialize now ino mode nlink gid uid i = record i {
  entry_param = record {
    ino = ino;
    generation = 0;
    attr = record zero_attr {
      st_ino = ino;
      st_mode = mode;
      st_nlink = nlink;
      st_uid = uid;
      st_gid = gid;
      st_blksize = buf_block_size;
      st_atim = now;
      st_mtim = now;
      st_ctim = now;
    };
    attr_timeout = 1;
    entry_timeout = 1;
  };
}

-- IncrementLinkCount and DecrementLinkCount.
unfoldable pub increment_link_count : Inode → Inode
increment_link_count i = with_attr i (record i.attr { st_nlink = add64 i.st_nlink 1 })

unfoldable pub decrement_link_count : Inode → Inode
decrement_link_count i = with_attr i (record i.attr { st_nlink = sub64 i.st_nlink 1 })

-- NumLinks() > 0. NumLinks is an int: the low 32 bits of the count, read as a signed number.
unfoldable pub num_links_positive : Inode → Bool
num_links_positive i = ltb 0 (i.st_nlink % 2 ^ 32) && ltb (i.st_nlink % 2 ^ 32) (2 ^ 31)

-- HasNoLinks.
unfoldable pub has_no_links : Inode → Bool
has_no_links i = i.st_nlink == 0

-- IsActive.
unfoldable pub is_active : Inode → Bool
is_active i = ltb 0 (add64 i.st_nlink i.nlookup)

-- Forget, and Forgotten.
unfoldable pub forget : ℕ → Inode → Inode
forget n i = record i { nlookup = sub64 i.nlookup n }

unfoldable pub forgotten : Inode → Bool
forgotten i = i.nlookup == 0

-- ReplyEntry, ReplyCreate and ReplyAttr.
unfoldable pub reply_entry : Inode → Reply × Inode
reply_entry i = (entry i.entry_param, record i { nlookup = add64 i.nlookup 1 })

unfoldable pub reply_create : Inode → Reply × Inode
reply_create i = (created i.entry_param, record i { nlookup = add64 i.nlookup 1 })

unfoldable pub reply_attr : Inode → Reply
reply_attr i = attributes i.attr 1

-- The attributes that ReplySetAttr leaves; the clock is read for a new size, and at the end.
unfoldable pub attr_set : ℕ → ℕ → Attr → ℕ → Attr → Attr
attr_set resized_at now wanted to_set a = record a {
  st_mode = if flag to_set 0 then wanted.st_mode else a.st_mode;
  st_uid = if flag to_set 1 then wanted.st_uid else a.st_uid;
  st_gid = if flag to_set 2 then wanted.st_gid else a.st_gid;
  st_size = if flag to_set 3 then wanted.st_size else a.st_size;
  st_atim = if flag to_set 4 then wanted.st_atim else a.st_atim;
  st_mtim =
      if flag to_set 5 then wanted.st_mtim else if flag to_set 3 then resized_at else a.st_mtim;
  st_ctim = now;
}

-- ReplySetAttr.
unfoldable pub reply_set_attr : ℕ → ℕ → Attr → ℕ → Inode → Reply × Inode
unfolding attr_set
reply_set_attr resized_at now wanted to_set i =
    let a = attr_set resized_at now wanted to_set i.attr in (attributes a 1, with_attr i a)

-- The test (st_mode & mask) == mask.
abbrev pub permits : ℕ → ℕ → Bool
permits mode mask = bit_and mode mask == mask

-- ReplyAccess.
unfoldable pub reply_access : ℕ → ℕ → ℕ → Inode → Reply
reply_access mask gid uid i =
    if mask == 0
    then err (pos 0)
    else if permits i.st_mode mask
    then err (pos 0)
    else if permits i.st_mode (mask * 8) && gid == i.st_gid
    then err (pos 0)
    else if uid == i.st_uid && permits i.st_mode (mask * 8 * 8)
    then err (pos 0)
    else err (pos eacces)
