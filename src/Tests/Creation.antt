-- ===== src/Tests/Creation.antt =====
-- A file system of two inodes, and making a file in it.
use veri_fs.Base.{arith, ℕ, ◌≡◌, refl, [], ◌∷◌, Option, none, some, true, false, ℤ}
use veri_fs.Types.{Inode, special, directory, no_block}
use veri_fs.Names.{dot, dot_dot}
use veri_fs.Blocks.{update_used_blocks, update_used_inodes}
use veri_fs.Inode.{zero_attr, initialize}
use veri_fs.Fs.{Fs, Caller, get_inode}
use veri_fs.Fs.Create.{do_create_node, register_inode}
use veri_fs.Ledger.Sound.{IsSound, NotIn}
use veri_fs.Ledger.View.{ledger}
use veri_fs.Ledger.Register.{register_inode-fresh}
use veri_fs.Tests.Data.{x86_64, counters, notes}

abbrev first : Inode
first = record {
  marked_for_deletion = false;
  nlookup = 0;
  entry_param = record {
    ino = 0;
    generation = 0;
    attr = zero_attr;
    attr_timeout = 1;
    entry_timeout = 1;
  };
  xattr = [];
  node = special no_block;
}

abbrev pub root : Inode
root = record first {
  entry_param = record {
    ino = 1;
    generation = 0;
    attr = record zero_attr {
      st_ino = 1;
      st_mode = 0x41ed;
      st_nlink = 2;
      st_size = 171;
      st_blksize = 512;
      st_blocks = 1;
    };
    attr_timeout = 1;
    entry_timeout = 1;
  };
  node = directory ((dot, 1) ∷ (dot_dot, 1) ∷ []);
}

abbrev pub small : Fs
small = record {
  inodes = some first ∷ some root ∷ [];
  deleted_inodes = [];
  m_stbuf = counters;
  state_pool = [];
  readdir_states = [];
}

abbrev pub caller : Caller
caller = record { uid = 1000; gid = 1000 }

-- The state of a result.
abbrev pub state_of : Option (ℤ × Fs) → Fs
state_of none = small
state_of (some (r, fs)) = fs

abbrev with_notes : Fs
with_notes = state_of (do_create_node true 9 1 notes 0x81a4 caller none small)

small-IsSound : IsSound (ledger small)
small-IsSound = record {
  numbered = λ i n h. ground arith;
  empty = tt;
  distinct = tt;
  complete = refl;
  counted = refl;
  range = omega arith;
}

abbrev number_and_state : Option (ℕ × Fs) → ℕ × Fs
number_and_state none = (0, small)
number_and_state (some r) = r

abbrev registered : ℕ × Fs
registered = number_and_state (register_inode 9 first 0x81a4 1 1000 1000 small)

registered_works :
    register_inode 9 first 0x81a4 1 1000 1000 small ≡ some (registered.0, registered.1)
unfolding register_inode initialize update_used_blocks update_used_inodes
registered_works = refl

register_inode-fresh_example :
    (get_inode small registered.0 ≡ none)
    × ((j : Inode) × (get_inode registered.1 registered.0 ≡ some j) × (j.st_ino ≡ registered.0))
    × NotIn registered.0 registered.1.deleted_inodes
register_inode-fresh_example =
    register_inode-fresh 9 first 0x81a4 1 1000 1000 small registered.1 registered.0 small-IsSound
      registered_works
