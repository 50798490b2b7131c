-- ===== src/Pickle/Methods/RoundTrip.antt =====
-- Load of what Pickle has copied.
use mathlib.Core.Path.{subst}
use veri_fs.Base.{
  ◌∙◌, sym, ap, append_assoc, ◌%◌, ◌*◌, ◌<◌, ◌≤◌, ◌≡◌, refl, some, true, [], ◌++◌, arith, length,
  take, word, length-append, length-take, add64,
}
use veri_fs.Types
use veri_fs.Types.{Bytes, Inode, Node, no_block, file}
use veri_fs.Memory.{Allocator}
use veri_fs.Memory.Contents.{read_bytes_fits}
use veri_fs.Inode.{new_inode}
use veri_fs.Ledger.View.{some_injective, bind_cases}
use veri_fs.Pickle.{Layout, IsImage, word_bytes}
use veri_fs.Pickle.Methods.Size.{AreImages, get_pickled_size-pickle}
use veri_fs.Pickle.Methods.{
  get_pickled_size, load, load_part, load_file, load_directory, load_symlink, load_special, pickle,
  pickle_base, pickle_part, pickle_children,
}
use veri_fs.Pickle.Methods.Loads.{AreStorable, load_base-pickle_base}
use veri_fs.Pickle.Methods.Parts.{
  AreNamed, zeroed, load_directory-pickle_children, load_file-pickle_part, load_symlink-pickle_part,
  load_special-pickle_part,
}

-- A file's buffer is as long as its blocks, holds st_size bytes and has a size that the allocator
-- grants; a directory's entries and their count fit 64 bits; a link's size is its length; a special
-- inode's type is copied by memcpy.
abbrev pub IsLoadable : Layout → Allocator → Inode → Node → Type 0
IsLoadable l m i (Node.file b) =
    (i.st_size ≤ length b)
    × (length b ≡ i.st_blksize * i.st_blocks)
    × (length b < word)
    × (m.grants (length b) ≡ true)
IsLoadable l m i (Node.directory c) = (length c < word) × AreNamed c
IsLoadable l m i (Node.symlink t) = i.st_size ≡ length t
IsLoadable l m i (Node.special t) = IsImage l.special_type t

-- What a pickled inode needs for Load to find it again.
pub record IsPicklable (l : Layout) (m : Allocator) (i : Inode) : Type 0 where
  pub param_image : IsImage l.entry_param i.entry_param
  pub nlookup_fits : i.nlookup < word
  pub count_fits : length i.xattr < word
  pub attributes : AreStorable m [] i.xattr
  pub part : IsLoadable l m i i.node

IsPicklable-AreImages :
    (l : Layout) (m : Allocator) (i : Inode) (n : Node)
    → IsImage l.entry_param i.entry_param
    → IsLoadable l m i n
    → AreImages l i n
IsPicklable-AreImages l m i (Node.file b) h f = h
IsPicklable-AreImages l m i (Node.directory c) h f = h
IsPicklable-AreImages l m i (Node.symlink t) h f = h
IsPicklable-AreImages l m i (Node.special t) h f = (h, f)

-- What the default constructor of the node's class leaves there.
unfoldable pub blank : Node → Node
blank (Node.file b) = Types.file []
blank (Node.directory c) = Types.directory []
blank (Node.symlink t) = Types.symlink []
blank (Node.special t) = Types.special no_block

-- An inode as Load leaves it: the bytes of a file's buffer from st_size on are zeros.
unfoldable pub reloaded : Inode → Inode
reloaded i = elim i.node [ file b ↦ record i { node = file (zeroed b i.st_size) } | _ ↦ i ]

load_part-pickle_part :
    (l : Layout) (m : Allocator) (i : Inode) (n : Node) (base part rest : Bytes)
    → IsLoadable l m i n
    → pickle_part l (record i { node = n }) ≡ some part
    → length (base ++ part) < word
    → load_part l m (blank n) (base ++ (part ++ rest)) (length base) (record i { node = blank n })
      ≡ some (length (base ++ part), reloaded (record i { node = n }))
unfolding load_part pickle_part blank reloaded
load_part-pickle_part l m i (Node.file b) base part rest f p w =
    let bytes : take i.st_size b ≡ part =
      some_injective (sym (read_bytes_fits b 0 i.st_size (omega (arith, f.0))) ∙ p) in
    let size : add64 (length base) i.st_size ≡ length (base ++ part) =
      omega (arith, w, ap length bytes, f.0, length-take i.st_size b, length-append base part) in
    subst
      (λ q.
        load_file m (base ++ (q ++ rest)) (length base) (record i { node = file [] })
        ≡ some (length (base ++ part), record i { node = file (zeroed b i.st_size) }))
      bytes
      (load_file-pickle_part m base b rest (record i { node = file [] }) f.0 f.1 f.2 f.3
        ∙ ap (λ k. some (k, record i { node = file (zeroed b i.st_size) })) size)
load_part-pickle_part l m i (Node.directory c) base part rest f p w =
    subst
      (λ q.
        load_directory (base ++ (q ++ rest)) (length base) (record i { node = Types.directory [] })
        ≡ some (length (base ++ q), record i { node = Types.directory c }))
      (some_injective p)
      (load_directory-pickle_children base c rest (record i { node = Types.directory [] }) f.0 f.1)
load_part-pickle_part l m i (Node.symlink t) base part rest f p w =
    let bytes : t ≡ part = some_injective p in
    let size : add64 (length base) (length t) ≡ length (base ++ part) =
      omega (arith, w, ap length bytes, length-append base part) in
    subst
      (λ q.
        load_symlink (base ++ (q ++ rest)) (length base) (record i { node = Types.symlink [] })
        ≡ some (length (base ++ part), record i { node = Types.symlink t }))
      bytes
      (load_symlink-pickle_part base t rest (record i { node = Types.symlink [] }) f
        ∙ ap (λ k. some (k, record i { node = Types.symlink t })) size)
load_part-pickle_part l m i (Node.special t) base part rest f p w =
    let bytes : l.special_type.to_bytes t ≡ part = some_injective p in
    let size : add64 (length base) (length (l.special_type.to_bytes t)) ≡ length (base ++ part) =
      omega (arith, w, ap length bytes, length-append base part) in
    subst
      (λ q.
        load_special l (base ++ (q ++ rest)) (length base)
          (record i { node = Types.special no_block })
        ≡ some (length (base ++ part), record i { node = Types.special t }))
      bytes
      (load_special-pickle_part l base t rest (record i { node = Types.special no_block }) f
        ∙ ap (λ k. some (k, record i { node = Types.special t })) size)

-- Load of a new object of the inode's class, from the bytes that Pickle has copied and any bytes
-- after them, returns the number of the bytes copied, and the object is the pickled one but for
-- the bytes of a file's buffer from st_size on, which are zeros. The conditions: the inode is
-- picklable and the bytes are fewer than 2 ^ 64.
pub load-pickle :
    (l : Layout) (m : Allocator) (i : Inode) (b rest : Bytes)
    → IsPicklable l m i
    → pickle l i ≡ some b
    → length b < word
    → load l m (b ++ rest) (new_inode (blank i.node)) ≡ some (length b, reloaded i)
unfolding load pickle new_inode
load-pickle l m i b rest h p w =
    bind_cases (pickle_part l i) (λ c. some (pickle_base l i ++ c)) b p
      λ part q r.
        let bytes : pickle_base l i ++ part ≡ b = some_injective r in
        let fits : length (pickle_base l i ++ part) < word =
          subst (λ c. length c < word) (sym bytes) w in
        subst (λ c. load l m (c ++ rest) (new_inode (blank i.node)) ≡ some (length c, reloaded i))
          bytes
          (ap (λ k. load l m k (new_inode (blank i.node)))
              (append_assoc (pickle_base l i) part rest)
            ∙ (rw
                (load_base-pickle_base l m i (new_inode (blank i.node)) (part ++ rest) h.param_image
                  h.nlookup_fits h.count_fits h.attributes)
                (load_part-pickle_part l m i i.node (pickle_base l i) part rest h.part q fits)))

pickle_part_succeeds :
    (l : Layout) (m : Allocator) (i : Inode) (n : Node)
    → IsLoadable l m i n
    → (b : Bytes) × (pickle_part l (record i { node = n }) ≡ some b)
unfolding pickle_part
pickle_part_succeeds l m i (Node.file b) f =
    (take i.st_size b, read_bytes_fits b 0 i.st_size (omega (arith, f.0)))
pickle_part_succeeds l m i (Node.directory c) f = (word_bytes (length c) ++ pickle_children c, refl)
pickle_part_succeeds l m i (Node.symlink t) f = (t, refl)
pickle_part_succeeds l m i (Node.special t) f = (l.special_type.to_bytes t, refl)

-- Pickle of a picklable inode: the bytes, of which there is at least one, and their number.
pub pickle_succeeds :
    (l : Layout) (m : Allocator) (i : Inode)
    → IsPicklable l m i
    → (b : Bytes) × (pickle l i ≡ some b)
      × (0 < length b)
      × (get_pickled_size l i ≡ length b % word)
unfolding pickle pickle_base
pickle_succeeds l m i h =
    let (part, e) = pickle_part_succeeds l m i i.node h.part in
    let p : pickle l i ≡ some (pickle_base l i ++ part) = rw (e) refl in
    (
      pickle_base l i ++ part,
      p,
      omega arith,
      get_pickled_size-pickle l i (pickle_base l i ++ part)
          (IsPicklable-AreImages l m i i.node h.param_image h.part) p,
    )
