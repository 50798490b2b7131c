-- ===== src/Tests/StateFiles.antt =====
-- The load of a state file with empty tables, the loop over its bytes, and a number with a unit.
use veri_fs.Base.{
  ap, ◌≡◌, ◌<◌, ◌≤◌, ◌*◌, ◌%◌, ◌-◌, refl, arith, ℕ, suc, ℤ, [], ◌∷◌, ◌++◌, none, some, Option,
  length, pos, word, take, drop, length-take, length-drop,
}
use veri_fs.Types.{Bytes}
use veri_fs.Fs.{Fs}
use veri_fs.Pickle.{le_bytes}
use veri_fs.Pickle.Runs.{Run, done, thrown, stuck}
use veri_fs.Pickle.StateFile.{Host, hash_file, magnitude, verify_state_file}
use veri_fs.Pickle.StateFile.Load.{load_verifs2}
use veri_fs.Pickle.StateFile.Hashing.{hash_file-returns}
use veri_fs.Pickle.StateFile.Matches.{Accepted, read_header, verify_state_file-Accepted}
use veri_fs.Options.{size_str_to_number, unit_of}
use veri_fs.Options.Numbers.{size_str_to_number-decimal}
use veri_fs.Tests.Data.{megabyte}
use veri_fs.Tests.Creation.{small}
use veri_fs.Tests.Layouts.{Machine, one_file, header_image, wide, words_bytes, total}

-- Counters and the three counts.
abbrev body : Bytes
body = words_bytes (4096 ∷ 512 ∷ 100 ∷ 90 ∷ 90 ∷ 50 ∷ 48 ∷ 48 ∷ 0 ∷ 0 ∷ 255 ∷ 0 ∷ 0 ∷ 0 ∷ [])

abbrev state_file : Machine
state_file = record {
  file_bytes = le_bytes 8 128 ++ (le_bytes 8 (total body) ++ body);
  offset = 0;
  sum = 0;
}

abbrev cfg : Bytes
cfg = b'c' ∷ []

-- The parts of a result.
abbrev result_fs : Option (ℤ × Fs × Machine) → Fs
result_fs none = small
result_fs (some (ret, fs, s)) = fs

abbrev result_machine : Option (ℤ × Fs × Machine) → Machine
result_machine none = state_file
result_machine (some (ret, fs, s)) = s

abbrev outcome : Option (ℤ × Fs × Machine)
outcome = load_verifs2 one_file wide header_image megabyte 3 cfg small state_file

-- The bytes that are still to be read.
abbrev left : Machine → ℕ
left s = length s.file_bytes - s.offset

reads_less :
    (s : Machine) (n : ℕ)
    → (one_file.read (pos 3) 4096 s).0.0 ≡ pos (suc n)
    → left
        ((one_file.device (pos 3)).feed
          (one_file.read (pos 3) 4096 s).0.1
          (one_file.read (pos 3) 4096 s).1).1
      < left s
reads_less s n e =
    let got : length (take 4096 (drop s.offset s.file_bytes)) ≡ suc n = ap magnitude e in
    omega
      (arith, got, length-take 4096 (drop s.offset s.file_bytes), length-drop s.offset s.file_bytes)

hash_file-returns_example :
    (res : ℤ) × (h : Host Machine) × (hash_file one_file 200
        (pos 3)
        (record { fs = small; machine = state_file })
      ≡ done res h)
hash_file-returns_example =
    hash_file-returns one_file (pos 3) left reads_less 200
      (record { fs = small; machine = state_file }) (omega arith)

-- "12k".
size_str_to_number-decimal_example :
    size_str_to_number (b'1' ∷ b'2' ∷ b'k' ∷ []) ≡ some (12 * 1024 % word)
unfolding unit_of
size_str_to_number-decimal_example =
    size_str_to_number-decimal (1 ∷ 2 ∷ []) b'k' 1024 (omega arith, (omega arith, tt)) refl refl
      (omega arith)

-- The machine that verify_state_file leaves.
abbrev machine_of : Run (Host Machine) ℤ → Machine
machine_of (done res h) = h.machine
machine_of (thrown e h) = h.machine
machine_of stuck = state_file

abbrev verified_machine : Machine
verified_machine = machine_of (
    verify_state_file one_file 3 header_image (pos 3) (record { fs = small; machine = state_file }))

verified :
    verify_state_file one_file 3 header_image (pos 3) (record { fs = small; machine = state_file })
    ≡ done (pos 0) (record { fs = small; machine = verified_machine })
unfolding verify_state_file
verified = refl

verify_state_file-Accepted_example :
    (16 ≤ magnitude (read_header one_file header_image (pos 3) state_file).0.0)
    × Accepted one_file
        (pos 3)
        (record { fsize = 128; hash = le_bytes 8 (total body) })
        (record state_file { offset = 16 })
verify_state_file-Accepted_example =
    verify_state_file-Accepted one_file 3 header_image (pos 3)
      (record { fs = small; machine = state_file })
      (record { fs = small; machine = verified_machine }) (λ s e. cc) verified
