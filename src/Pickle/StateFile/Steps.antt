-- ===== src/Pickle/StateFile/Steps.antt =====
-- How fetch_filepath and map_file of src/pickle.cpp return.
use veri_fs.Base.{
  ◌∙◌, sym, ap, suc, ◌≡◌, refl, Option, none, some, false, not, length, if◌then◌else◌, ℤ,
}
use veri_fs.Types.{Bytes, enomem}
use veri_fs.Memory.{Allocator}
use veri_fs.Pickle.{Image, Layout}
use veri_fs.Pickle.Runs.{Run, done, ◌>>=◌, return, throw}
use veri_fs.Pickle.StateFile.{
  Kernel, Host, Header, call, throw_errno, is_error, path_max, until_zero, fetch_filepath,
}
use veri_fs.Pickle.StateFile.Load.{map_file}
use veri_fs.Pickle.StateFile.Inversion.{other_branch, returned_value, returned_host}

-- The path in a configuration file that has been opened, read up to the first 0 and closed; without
-- memory for the copy it is a null pointer.
pub record Fetched {S : Type 0} (k : Kernel S) (m : Allocator) (cfg : Bytes) (s : S)
    (path : Option Bytes) (s' : S) : Type 0 where
  pub cfgfd : ℤ
  pub opened : S
  pub bytes : Bytes
  pub count : ℤ
  pub taken : S
  pub opening : k.open_path (some cfg) false s ≡ (cfgfd, opened)
  pub usable : is_error cfgfd ≡ false
  pub read : k.read cfgfd path_max opened ≡ ((count, bytes), taken)
  pub complete : is_error count ≡ false
  pub content :
      path ≡ (if m.grants (suc (length (until_zero bytes))) then some (until_zero bytes) else none)
  pub closed : (k.close cfgfd taken).1 ≡ s'

-- The end of map_file.
abbrev pub mapped_or : {S : Type 0} → Kernel S → Option Bytes → Host S → Run (Host S) Bytes
mapped_or k mapped = elim mapped [ none ↦ throw_errno k | some bytes ↦ return bytes ]

module _ {S : Type 0} (k : Kernel S) where
  pub fetch_filepath-Fetched :
      (m : Allocator) (cfg : Bytes) (h h' : Host S) (path : Option Bytes)
      → fetch_filepath k m cfg h ≡ done path h'
      → Fetched k m cfg h.machine path h'.machine
  unfolding fetch_filepath
  fetch_filepath-Fetched m cfg h h' path e =
      let o = k.open_path (some cfg) false h.machine in
      let r = k.read o.0 path_max o.1 in
      let copy : Option Bytes =
        (if m.grants (suc (length (until_zero r.0.1))) then some (until_zero r.0.1) else none) in
      let finish : Host S → Run (Host S) (Option Bytes) =
        call (k.close o.0) >>= λ _. if is_error r.0.0 then throw_errno k else return copy in
      let h1 : Host S = record h { machine = o.1 } in
      let h2 : Host S = record h { machine = r.1 } in
      let h3 : Host S = record h { machine = (k.close o.0 r.1).1 } in
      let reading : Host S → Run (Host S) (Option Bytes) = call (k.read o.0 path_max) >>= λ q.
      call (k.close o.0) >>= λ _.
      if is_error q.0
      then throw_errno k
      else return
          (if m.grants (suc (length (until_zero q.1))) then some (until_zero q.1) else none) in
      let refusing : Host S → Run (Host S) (Option Bytes) =
        call (k.close o.0) >>= λ _. throw enomem in
      let (usable, e1) =
        other_branch (is_error o.0) (throw_errno k)
          (if not (m.grants path_max) then refusing else reading) h1 (done path h') e (λ x. cc) in
      let (_, e2) =
        other_branch (not (m.grants path_max)) refusing reading h1 (done path h') e1 (λ x. cc) in
      let (complete, e3) =
        other_branch (is_error r.0.0) (throw_errno k) (return copy) h3 (done path h') e2
          (λ x. cc) in
      record {
        cfgfd = o.0;
        opened = o.1;
        bytes = r.0.1;
        count = r.0.0;
        taken = r.1;
        opening = refl;
        usable = usable;
        read = refl;
        complete = complete;
        content = sym (returned_value e3);
        closed = ap (λ x. x.machine) (returned_host e3);
      }

  pub map_file-mapped :
      (l : Layout) (image : Image Header) (m : Allocator) (fd : ℤ) (h h' : Host S) (bytes : Bytes)
      → map_file k l image m fd h ≡ done bytes h'
      → (is_error (k.fstat fd h.machine).0.0 ≡ false)
        × (k.mmap fd (k.fstat fd h.machine).0.1 (k.fstat fd h.machine).1 ≡ (some bytes, h'.machine))
  unfolding map_file
  map_file-mapped l image m fd h h' bytes e =
      let r = k.fstat fd h.machine in
      let h1 : Host S = record h { machine = r.1 } in
      let (known, e1) =
        other_branch (is_error r.0.0) (throw_errno k)
          (call (k.mmap fd r.0.1) >>= λ mapped. mapped_or k mapped) h1 (done bytes h') e
          (λ x. cc) in
      (known, go (k.mmap fd r.0.1 r.1).0 (k.mmap fd r.0.1 r.1).1 refl e1)
    where
      go :
          (o : Option Bytes) (t : S)
          → k.mmap fd (k.fstat fd h.machine).0.1 (k.fstat fd h.machine).1 ≡ (o, t)
          → mapped_or k o (record h { machine = t }) ≡ done bytes h'
          → k.mmap fd (k.fstat fd h.machine).0.1 (k.fstat fd h.machine).1 ≡ (some bytes, h'.machine)
      go none t q x = absurd (cc)
      go (some b) t q x = q ∙ (λ i. (some (returned_value x i), (returned_host x i).machine))
