-- ===== src/Tests/RoundTrips.antt =====
-- A file system that is saved to a state file and loaded again, on a machine with one state file.
use veri_fs.Base.{
  ℕ, ◌≡◌, refl, ap, arith, Bool, true, false, Option, none, some, if◌then◌else◌, [], ◌∷◌, ◌++◌,
  ◌==◌, length, take, ℤ, pos, negsuc,
}
use veri_fs.Types.{Bytes}
use veri_fs.Names.{name_eq}
use veri_fs.Fs.{Fs}
use veri_fs.Pickle.{le_bytes, word_bytes, IsImage}
use veri_fs.Pickle.Methods.{pickle}
use veri_fs.Pickle.Runs.{Device}
use veri_fs.Pickle.System.RoundTrip.{Reproduces}
use veri_fs.Pickle.StateFile.{Kernel, fetch_filepath}
use veri_fs.Pickle.StateFile.Save.{pickle_verifs2}
use veri_fs.Pickle.StateFile.Load.{load_verifs2}
use veri_fs.Pickle.StateFile.Disk.{FileView, whole, written, moved, read_past, IsFile}
use veri_fs.Pickle.StateFile.Saved.{header_of}
use veri_fs.Pickle.StateFile.RoundTrip.{Opens, load_verifs2-pickle_verifs2}
use veri_fs.Tests.Data.{megabyte}
use veri_fs.Tests.Creation.{small}
use veri_fs.Tests.Layouts.{wide, header_image, total}
use veri_fs.Tests.Pickles.{full, full-CanPickle}

-- The configuration file and the path in it.
abbrev cfg : Bytes
cfg = b'c' ∷ []

abbrev state_path : Bytes
state_path = b's' ∷ []

abbrev digest : Bytes → Bytes
digest b = le_bytes 8 (total b)

abbrev seek_to : ℤ → FileView → ℤ × FileView
seek_to (pos n) s = (pos n, moved n s)
seek_to (negsuc n) s = (negsuc n, s)

abbrev disk : Device FileView
disk = record {
  write = λ b s. record { count = length b; error = 0; after = written b s };
  feed = λ b s. (true, record s { fed = s.fed ++ b });
  tell = λ s. pos (length s.before);
  seek = seek_to;
}

-- Descriptor 9 is the configuration file, 3 the state file.
abbrev open_at : Option Bytes → Bool → FileView → ℤ × FileView
open_at none create s = (negsuc 0, s)
open_at (some path) create s =
    if name_eq path state_path
    then (pos 3, record s { before = []; after = if create then [] else whole s })
    else (pos 9, s)

abbrev read_at : ℤ → ℕ → FileView → (ℤ × Bytes) × FileView
read_at fd n s = elim fd [
  | pos d ↦
      if d == 9
      then ((pos 1, state_path), s)
      else ((pos (length (take n s.after)), take n s.after), read_past n s)
  | negsuc d ↦ ((negsuc 0, []), s)
]

abbrev two_files : Kernel FileView
two_files = record {
  open_path = open_at;
  read = read_at;
  fstat = λ fd s. ((pos 0, length (whole s)), s);
  mmap = λ fd n s. (some (whole s), s);
  close = λ fd s. (tt, s);
  errno = λ s. 5;
  init = λ s. (true, record s { fed = [] });
  final = λ s. (digest s.fed, s);
  device = λ fd. disk;
}

abbrev Shows : FileView → FileView → Type 0
Shows s x = s ≡ x

two_files-IsFile : IsFile two_files (pos 3) Shows digest
two_files-IsFile = record {
  write_count = λ b s x h. refl;
  write_sees = λ b s x h. ap (written b) h;
  feed_works = λ b s x h. refl;
  feed_sees = λ b s x h. ap {A = FileView} {B = FileView} (λ y. record y { fed = y.fed ++ b }) h;
  seek_offset = λ n s x h. refl;
  seek_sees = λ n s x h. ap (moved n) h;
  tell_offset = λ s x h. ap (λ (y : FileView). pos (length y.before)) h;
  init_works = λ s x h. refl;
  init_sees = λ s x h. ap {A = FileView} {B = FileView} (λ y. record y { fed = [] }) h;
  final_digest = λ s x h. ap (λ (y : FileView). digest y.fed) h;
  final_sees = λ s x h. h;
  read_result = λ n s x h. ap (λ (y : FileView). (pos (length (take n y.after)), take n y.after)) h;
  read_sees = λ n s x h. ap (read_past n) h;
  fstat_size = λ s x h. ap (λ (y : FileView). (pos 0, length (whole y))) h;
  fstat_sees = λ s x h. h;
  mmap_bytes = λ s x h. ap (λ (y : FileView). some (whole y)) h;
  mmap_sees = λ s x h. h;
}

abbrev blank : FileView
blank = record { before = []; after = b'o' ∷ b'l' ∷ b'd' ∷ []; fed = [] }

creates : Opens two_files 2 megabyte Shows cfg true full blank []
unfolding fetch_filepath name_eq
creates = record {
  path = some state_path;
  named = blank;
  opened = record { before = []; after = []; fed = [] };
  fed = [];
  fetched = refl;
  returned = refl;
  shown = refl;
}

reopens :
    (u x : FileView) → Shows u x → Opens two_files 2 megabyte Shows cfg false small u (whole x)
unfolding fetch_filepath name_eq
reopens u x h = record {
  path = some state_path;
  named = u;
  opened = record { before = []; after = whole u; fed = u.fed };
  fed = u.fed;
  fetched = refl;
  returned = refl;
  shown =
      ap {A = FileView} {B = FileView} (λ y. record { before = []; after = whole y; fed = u.fed })
        h;
}

header_fits : IsImage header_image (header_of header_image wide digest full)
unfolding word_bytes pickle
header_fits = record { sized = refl; copied = refl }

load_verifs2-pickle_verifs2_example :
    (t u : FileView) × (ls : Fs) × (pickle_verifs2 two_files wide header_image megabyte cfg full
        blank
      ≡ some (pos 0, full, t))
    × (load_verifs2 two_files wide header_image megabyte 5000 cfg small t ≡ some (pos 0, ls, u))
    × Reproduces full ls
unfolding word_bytes pickle
load_verifs2-pickle_verifs2_example =
    load_verifs2-pickle_verifs2 two_files 2 wide header_image megabyte Shows digest 5000 cfg cfg
      full small blank two_files-IsFile full-CanPickle header_fits (omega arith) (omega arith)
      creates reopens
