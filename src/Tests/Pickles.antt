-- ===== src/Tests/Pickles.antt =====
-- A file system with a null pointer in its table and a stored state, pickled and loaded.
use veri_fs.Base.{◌≡◌, ◌++◌, ◌%◌, refl, arith, [], ◌∷◌, none, some, length, pos, word}
use veri_fs.Types.{Bytes, Inode}
use veri_fs.Inode.{new_inode}
use veri_fs.Fs.{Fs, SavedState}
use veri_fs.Fs.Checkpoint.{lookup}
use veri_fs.Pickle.{word_bytes}
use veri_fs.Pickle.Methods.{load, pickle, get_pickled_size}
use veri_fs.Pickle.Methods.Size.{get_pickled_size-pickle}
use veri_fs.Pickle.Methods.RoundTrip.{IsPicklable, blank, reloaded, load-pickle}
use veri_fs.Pickle.System.{pickle_file_system}
use veri_fs.Pickle.System.Loading.{load_file_system, class_of_mode}
use veri_fs.Pickle.System.Slots.{IsStored, AreStored}
use veri_fs.Pickle.System.RoundTrip.{
  CanPickle, Reproduces, clear_tables, load_file_system-pickle_file_system,
}
use veri_fs.Tests.Data.{megabyte, counters}
use veri_fs.Tests.Creation.{small, root}
use veri_fs.Tests.Saves.{hello_inode}
use veri_fs.Tests.Layouts.{Machine, appending, appending-IsWhole, wide}

-- The file of five bytes, with an extended attribute.
abbrev kept : Inode
kept = record hello_inode {
  entry_param = record hello_inode.entry_param {
    attr = record hello_inode.attr { st_blksize = 512 };
  };
  xattr = ((b'a' ∷ []), (b'x' ∷ b'y' ∷ [])) ∷ [];
}

kept-IsPicklable : IsPicklable wide megabyte kept
kept-IsPicklable = record {
  param_image = record { sized = refl; copied = refl };
  nlookup_fits = omega arith;
  count_fits = omega arith;
  attributes = (tt, omega arith, omega arith, refl, tt);
  part = (omega arith, refl, omega arith, refl);
}

abbrev kept_bytes : Bytes
kept_bytes = elim (pickle wide kept) [ none ↦ [] | some b ↦ b ]

load-pickle_example :
    load wide megabyte (kept_bytes ++ b'!' ∷ []) (new_inode (blank kept.node))
    ≡ some (length kept_bytes, reloaded kept)
unfolding pickle word_bytes
load-pickle_example =
    load-pickle wide megabyte kept kept_bytes (b'!' ∷ []) kept-IsPicklable refl (omega arith)

get_pickled_size-pickle_example : get_pickled_size wide kept ≡ length kept_bytes % word
unfolding pickle
get_pickled_size-pickle_example =
    get_pickled_size-pickle wide kept kept_bytes (record { sized = refl; copied = refl }) refl

root-IsPicklable : IsPicklable wide megabyte root
root-IsPicklable = record {
  param_image = record { sized = refl; copied = refl };
  nlookup_fits = omega arith;
  count_fits = omega arith;
  attributes = tt;
  part = (omega arith, (omega arith, omega arith, (omega arith, omega arith, tt)));
}

root-IsStored : IsStored wide megabyte (some root)
unfolding class_of_mode blank get_pickled_size pickle word_bytes
root-IsStored =
    IsStored.present {i = root} (record { sized = refl; copied = refl }) root-IsPicklable
      (omega arith) refl refl

kept-IsStored : IsStored wide megabyte (some kept)
unfolding class_of_mode blank get_pickled_size pickle word_bytes
kept-IsStored =
    IsStored.present {i = kept} (record { sized = refl; copied = refl }) kept-IsPicklable
      (omega arith) refl refl

abbrev saved_root : SavedState
saved_root = record {
  stored_files = some root ∷ [];
  stored_deleted = 2 ∷ [];
  stored_stbuf = counters;
}

abbrev pub full : Fs
full = record small {
  inodes = some root ∷ none ∷ some kept ∷ [];
  deleted_inodes = 1 ∷ 5 ∷ [];
  state_pool = (7, saved_root) ∷ [];
}

pub full-CanPickle : CanPickle wide megabyte full
unfolding lookup
full-CanPickle = record {
  stbuf_image = record { sized = refl; copied = refl };
  inodes = AreStored.next_slot root-IsStored (
      AreStored.next_slot (IsStored.absent (record { sized = refl; copied = refl }))
        (AreStored.next_slot kept-IsStored AreStored.end));
  inodes_count = omega arith;
  deleted = (omega arith, (omega arith, tt));
  deleted_count = omega arith;
  states = (
    omega arith,
    refl,
    record {
      files = AreStored.next_slot root-IsStored AreStored.end;
      files_count = omega arith;
      deleted = (omega arith, tt);
      deleted_count = omega arith;
      stbuf_image = record { sized = refl; copied = refl };
    },
    tt,
  );
  states_count = omega arith;
}

abbrev blank_machine : Machine
blank_machine = record { file_bytes = []; offset = 0; sum = 0 }

load_file_system-pickle_file_system_example :
    (s' : Machine) × (bytes : Bytes) × (ls : Fs) × (pickle_file_system appending wide megabyte full
        blank_machine
      ≡ some (pos 0, full, s'))
    × (s'.file_bytes ≡ [] ++ bytes)
    × (load_file_system wide megabyte (bytes ++ []) (clear_tables small)
        ≡ some (pos (length bytes), ls))
    × Reproduces full ls
load_file_system-pickle_file_system_example =
    load_file_system-pickle_file_system appending (λ s. s.file_bytes) wide megabyte full small
      blank_machine [] appending-IsWhole full-CanPickle
