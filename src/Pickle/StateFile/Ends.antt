-- ===== src/Pickle/StateFile/Ends.antt =====
-- load_verifs2 loads a file that verify_state_file has accepted, or leaves the file system.
use veri_fs.Base.{ℕ, ◌≡◌, Option, none, some, false, drop, ℤ}
use veri_fs.Types.{Bytes}
use veri_fs.Memory.{Allocator}
use veri_fs.Fs.{Fs}
use veri_fs.Pickle.{Image, Layout}
use veri_fs.Pickle.Runs.{Run, done, ◌>>=◌, return, throw}
use veri_fs.Pickle.System.Loading.{load_file_system}
use veri_fs.Pickle.System.RoundTrip.{clear_tables}
use veri_fs.Pickle.StateFile.{Kernel, Host, Header, is_error, verify_state_file}
use veri_fs.Pickle.StateFile.Load.{verify_error, load_tables, map_file}
use veri_fs.Pickle.StateFile.Steps.{Fetched}

-- A load that has gone through, from the machine `s`: the file at the path of the configuration file
-- is opened for reading and passes verify_state_file, whose result is no error; the same descriptor
-- is mapped for as many bytes as fstat then gives; the file system is what load_file_system leaves
-- of the cleared tables for the mapped bytes behind the header, whatever it returns; and the
-- descriptor is closed.
pub record Loaded {S : Type 0} (k : Kernel S) (l : Layout) (image : Image Header) (m : Allocator)
    (fuel : ℕ) (cfg : Bytes) (fs : Fs) (s : S) (res : ℤ) (gs : Fs) (s' : S) : Type 0 where
  pub path : Option Bytes
  pub named : S
  pub fetched : Fetched k m cfg s path named
  pub fd : ℤ
  pub opened : S
  pub opening : k.open_path path false named ≡ (fd, opened)
  pub usable : is_error fd ≡ false
  pub after : Host S
  pub verified :
      verify_state_file k fuel image fd (record { fs = fs; machine = opened }) ≡ done res after
  pub accepted : verify_error res ≡ none
  pub known : is_error (k.fstat fd after.machine).0.0 ≡ false
  pub mapped : Bytes
  pub unmapped : S
  pub mapping :
      k.mmap fd (k.fstat fd after.machine).0.1 (k.fstat fd after.machine).1
      ≡ (some mapped, unmapped)
  pub count : ℤ
  pub load : load_file_system l m (drop image.size mapped) (clear_tables fs) ≡ some (count, gs)
  pub closed : (k.close fd unmapped).1 ≡ s'

module _ {S : Type 0} (k : Kernel S) (l : Layout) (image : Image Header) (m : Allocator)
    (fuel : ℕ) where
  -- load_from, behind the verification.
  abbrev load_or : ℤ → ℤ → Option ℕ → Host S → Run (Host S) ℤ
  load_or fd res o = elim o [
    | some e ↦ throw e
    | none ↦ map_file k l image m fd >>= λ bytes. load_tables k l image m bytes >>= λ _. return res
  ]

-- Whatever is thrown, the file system is as it was.
abbrev Anything : {S : Type 0} → ℤ → Host S → Type 0
Anything res h = Unit {0}
