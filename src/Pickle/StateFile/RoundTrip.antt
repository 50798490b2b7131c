-- ===== src/Pickle/StateFile/RoundTrip.antt =====
-- pickle_verifs2, then load_verifs2, on one machine.
use veri_fs.Base.{
  ℕ, suc, ◌≡◌, ◌<◌, refl, ap, ◌∙◌, true, false, Bool, if◌then◌else◌, Option, some, [], length,
  sign_bit, ℤ, pos,
}
use veri_fs.Types.{Bytes}
use veri_fs.Memory.{Allocator}
use veri_fs.Fs.{Fs}
use veri_fs.Pickle.{Image, IsImage, Layout}
use veri_fs.Pickle.Runs.{Run, done, ◌>>=◌, bind-done}
use veri_fs.Pickle.System.RoundTrip.{CanPickle, Reproduces, system_bytes}
use veri_fs.Pickle.StateFile.{
  Kernel, Host, Header, is_error, throw_errno, call, closing, caught, fetch_filepath,
}
use veri_fs.Pickle.StateFile.Save.{is_positive, save_to, save, pickle_verifs2}
use veri_fs.Pickle.StateFile.Load.{load_from, open_and_load, load_verifs2}
use veri_fs.Pickle.StateFile.Disk.{FileView, whole, IsFile}
use veri_fs.Pickle.StateFile.Saved.{header_of, save_to-Saves}
use veri_fs.Pickle.StateFile.Restored.{load_from-Reproduces}

-- On this machine the configuration file names a path, at which open gives a descriptor with these
-- bytes.
pub record Opens {S : Type 0} (k : Kernel S) (fd : ℕ) (m : Allocator) (sees : S → FileView → Type 0)
    (cfg : Bytes) (create : Bool) (fs : Fs) (s : S) (bytes : Bytes) : Type 0 where
  pub path : Option Bytes
  pub named : S
  pub opened : S
  pub fed : Bytes
  pub fetched :
      fetch_filepath k m cfg (record { fs = fs; machine = s })
      ≡ done path (record { fs = fs; machine = named })
  pub returned : k.open_path path create named ≡ (pos (suc fd), opened)
  pub shown : sees opened (record { before = []; after = bytes; fed = fed })

closing-done :
    {S : Type 0} (k : Kernel S) (fd : ℤ) (f : Host S → Run (Host S) ℤ) (h h' : Host S) (a : ℤ)
    → f h ≡ done a h'
    → closing k fd f h ≡ done a (record h' { machine = (k.close fd h'.machine).1 })
closing-done k fd f h h' a e = rw (closing, e) refl

module _ {S : Type 0} (k : Kernel S) (fd : ℕ) (l : Layout) (image : Image Header)
    (m : Allocator) where
  pickle_steps :
      (cfg : Bytes) (path : Option Bytes) (fs : Fs) (s s1 s2 s3 : S)
      → fetch_filepath k m cfg (record { fs = fs; machine = s })
        ≡ done path (record { fs = fs; machine = s1 })
      → k.open_path path true s1 ≡ (pos (suc fd), s2)
      → save_to k l image m (pos (suc fd)) (record { fs = fs; machine = s2 })
        ≡ done (pos 0) (record { fs = fs; machine = s3 })
      → pickle_verifs2 k l image m cfg fs s ≡ some (pos 0, fs, (k.close (pos (suc fd)) s3).1)
  unfolding pickle_verifs2 save
  pickle_steps cfg path fs s s1 s2 s3 e1 e2 e3 =
      let from : ℤ → Host S → Run (Host S) ℤ = λ f.
        if is_error f
        then throw_errno k
        else (if is_positive f
            then closing k f (save_to k l image m f)
            else save_to k l image m f) in
      ap caught (
        bind-done (fetch_filepath k m cfg) (λ p. call (k.open_path p true) >>= from)
          (record { fs = fs; machine = s }) (record { fs = fs; machine = s1 }) path e1
        ∙ bind-done (call (k.open_path path true)) from (record { fs = fs; machine = s1 })
            (record { fs = fs; machine = s2 }) (pos (suc fd))
            (ap (λ r. done r.0 (record { fs = fs; machine = r.1 })) e2)
        ∙ closing-done k (pos (suc fd)) (save_to k l image m (pos (suc fd))) _ _ (pos 0) e3)

  load_steps :
      (fuel : ℕ) (cfg : Bytes) (path : Option Bytes) (fs ls : Fs) (s s1 s2 s3 : S)
      → fetch_filepath k m cfg (record { fs = fs; machine = s })
        ≡ done path (record { fs = fs; machine = s1 })
      → k.open_path path false s1 ≡ (pos (suc fd), s2)
      → load_from k l image m fuel (pos (suc fd)) (record { fs = fs; machine = s2 })
        ≡ done (pos 0) (record { fs = ls; machine = s3 })
      → load_verifs2 k l image m fuel cfg fs s ≡ some (pos 0, ls, (k.close (pos (suc fd)) s3).1)
  unfolding load_verifs2 open_and_load
  load_steps fuel cfg path fs ls s s1 s2 s3 e1 e2 e3 =
      let from : ℤ → Host S → Run (Host S) ℤ =
        λ f. if is_error f then throw_errno k else closing k f (load_from k l image m fuel f) in
      ap caught (
        bind-done (fetch_filepath k m cfg) (λ p. call (k.open_path p false) >>= from)
          (record { fs = fs; machine = s }) (record { fs = fs; machine = s1 }) path e1
        ∙ bind-done (call (k.open_path path false)) from (record { fs = fs; machine = s1 })
            (record { fs = fs; machine = s2 }) (pos (suc fd))
            (ap (λ r. done r.0 (record { fs = fs; machine = r.1 })) e2)
        ∙ closing-done k (pos (suc fd)) (load_from k l image m fuel (pos (suc fd))) _ _ (pos 0) e3)

-- On a machine whose calls on the open state file succeed, write and read as many bytes as they
-- can, and hash to a digest of the bytes fed: pickle_verifs2 of a file system that can be pickled
-- returns 0 and leaves the file system as it was, and load_verifs2 on the machine that it leaves,
-- from any file system, returns 0 and reproduces the file system: the inodes without the null
-- pointers between them, the queue of deleted inodes, the counters, and the state under each key
-- of the pool, files with zeros after their bytes. The conditions: the configuration files name
-- paths at which open makes an empty file for the first and, after it has been closed, gives the
-- file's bytes to the second; the header has as many bytes as sizeof says and is copied by
-- memcpy; and the fuel is above the number of bytes behind the header.
pub load_verifs2-pickle_verifs2 :
    {S : Type 0} (k : Kernel S) (fd : ℕ) (l : Layout) (image : Image Header) (m : Allocator)
    (sees : S → FileView → Type 0) (digest : Bytes → Bytes) (fuel : ℕ) (cfg cfg' : Bytes)
    (fs gs : Fs) (s : S)
    → IsFile k (pos (suc fd)) sees digest
    → CanPickle l m fs
    → IsImage image (header_of image l digest fs)
    → image.size < sign_bit
    → length (system_bytes l fs) < fuel
    → Opens k fd m sees cfg true fs s []
    → ((u : S) (x : FileView)
        → sees u x
        → Opens k fd m sees cfg' false gs (k.close (pos (suc fd)) u).1 (whole x))
    → (t u : S) × (ls : Fs) × (pickle_verifs2 k l image m cfg fs s ≡ some (pos 0, fs, t))
      × (load_verifs2 k l image m fuel cfg' gs t ≡ some (pos 0, ls, u))
      × Reproduces fs ls
load_verifs2-pickle_verifs2 k fd l image m sees digest fuel cfg cfg' fs gs s file can fits small
      enough o again =
    let (s3, run, seen) =
      save_to-Saves k (pos (suc fd)) sees digest file l image m fs o.opened o.fed can fits small
        o.shown in
    let p = again s3 _ seen in
    let (ls, t3, run', same) =
      load_from-Reproduces k (pos (suc fd)) sees digest file l image m fuel fs gs p.opened p.fed can
        fits enough p.shown in
    (
      (k.close (pos (suc fd)) s3).1,
      (k.close (pos (suc fd)) t3).1,
      ls,
      pickle_steps k fd l image m cfg o.path fs s o.named o.opened s3 o.fetched o.returned run,
      load_steps k fd l image m fuel cfg' p.path gs ls (k.close (pos (suc fd)) s3).1 p.named
          p.opened t3 p.fetched p.returned run',
      same,
    )
