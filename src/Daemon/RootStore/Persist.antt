-- ===== src/Daemon/RootStore/Persist.antt =====
-- internal/daemon/store.go: save and loadPersisted, less the file, gzip and gob.
use gcgrep.Base.{
  ℕ, ◌+◌, ◌≡◌, refl, ap, sym, ◌∙◌, Bool, false, ◌||◌, not, Option, none, some, List, [], ◌∷◌, map,
  Bytes, codes, if◌then◌else◌, arith, All, Bool-cases, inl, inr,
}
use gcgrep.Base.Int.{ℤ, pos, ◌+ℤ◌, pos-add}
use gcgrep.Go.Map.{bytes_eq, bytes_eq_iff}
use gcgrep.Symbol.{Def}
use gcgrep.Index.Postings.{trigram_keys}
use gcgrep.Index.Store.{FileMeta, FileEntry, Index, new, add, add_with_keys, snapshot, live_files}
use gcgrep.Index.Store.Live.{
  live_entry, Unique, live_entry-Free, live_files-Unique, live_files-AllLive, live_entry-live_files,
}
use gcgrep.Index.Store.Invariant.{IsValid, new-IsValid, add-IsValid}
use gcgrep.Index.Store.View.{entry_of, add-entry}
use gcgrep.Index.Store.Sizes.{live_bytes, live_bytes-live_files}

-- persisted, with its three parallel lists as one.
pub record Persisted : Type 0 where
  pub version : Bytes
  pub root : Bytes
  pub files : List (FileMeta × Bytes × List Def)

abbrev pub persist_version : Bytes
persist_version = codes "2"

-- What save writes.
unfoldable pub save : Bytes → Index → Persisted
unfolding snapshot
save root idx = record { version = persist_version; root = root; files = snapshot idx }

-- The jobs of the workers, in the order of the files.
unfoldable pub load_files : List (FileMeta × Bytes × List Def) → Index → Index
load_files [] idx = idx
load_files ((meta, content, defs) ∷ files) idx =
    load_files files (add_with_keys idx meta content (trigram_keys content) defs)

-- The loop that adds the sizes up.
unfoldable pub sum_sizes : List (FileMeta × Bytes × List Def) → ℤ → ℤ
sum_sizes [] total = total
sum_sizes ((meta, content, defs) ∷ files) total = sum_sizes files (total +ℤ pos meta.size)

-- loadPersisted, once the file is decoded: the index and totalBytes, or nil.
unfoldable pub load_persisted : Bytes → Persisted → Option (Index × ℤ)
unfolding load_files sum_sizes
load_persisted root p =
    if not (bytes_eq p.version persist_version) || not (bytes_eq p.root root)
    then none
    else some (load_files p.files (new root), sum_sizes p.files (pos 0))

abbrev triple : FileEntry → FileMeta × Bytes × List Def
triple f = (f.meta, f.content, f.defs)

load_files-IsValid :
    (fs : List FileEntry) (ix : Index) → IsValid ix → IsValid (load_files (map triple fs) ix)
unfolding load_files add
load_files-IsValid [] ix v = v
load_files-IsValid (f ∷ fs) ix v =
    load_files-IsValid fs _ (add-IsValid (λ _ _. f.defs) ix f.meta f.content v)

or_else : Option FileEntry → Option FileEntry → Option FileEntry
or_else none e = e
or_else (some f) e = some f

load_files-entry :
    (fs : List FileEntry) (ix : Index) (q : Bytes)
    → IsValid ix
    → Unique fs
    → All (λ f. f.dead ≡ false) fs
    → entry_of (load_files (map triple fs) ix) q ≡ or_else (live_entry q fs) (entry_of ix q)
unfolding load_files live_entry or_else add
load_files-entry [] ix q v u l = refl
load_files-entry (f ∷ fs) ix q v u l =
    let ix' = add (λ _ _. f.defs) ix f.meta f.content in
    let w = add-IsValid (λ _ _. f.defs) ix f.meta f.content v in
    let ih = load_files-entry fs ix' q w u.1 l.1 in
    let one = add-entry (λ _ _. f.defs) ix f.meta f.content q v in
    let free = live_entry-Free f.meta.path fs (u.0 l.0) in
    let live : record f { dead = false } ≡ f = ap (λ (b : Bool). record f { dead = b }) (sym l.0) in
    ih ∙ elim (Bool-cases (bytes_eq f.meta.path q)) [
      | inl e ↦
          let none_later =
            ap (λ (p : Bytes). live_entry p fs) (sym ((bytes_eq_iff f.meta.path q).0 e)) ∙ free in
          ground (arith, one, none_later, live, l.0, ap (λ (g : FileEntry). some g) live)
      | inr e ↦ ground (arith, one, l.0)
    ]

sum_sizes-live_bytes :
    (fs : List FileEntry) (t : ℕ)
    → All (λ f. f.dead ≡ false) fs
    → sum_sizes (map triple fs) (pos t) ≡ pos (t + live_bytes fs)
unfolding sum_sizes live_bytes
sum_sizes-live_bytes [] t l = ap pos (omega arith)
sum_sizes-live_bytes (f ∷ fs) t l =
    ap (sum_sizes (map triple fs)) (pos-add t f.meta.size)
    ∙ sum_sizes-live_bytes fs (t + f.meta.size) l.1
    ∙ ap pos (ground (arith, l.0))

-- What save writes of a valid index is loaded, for the same root, as a valid index that holds the same
-- file for every path, with totalBytes the sum of the sizes of the files.
pub load_persisted-save :
    (root : Bytes) (ix : Index)
    → IsValid ix
    → (loaded : Index) × (load_persisted root (save root ix)
        ≡ some (loaded, pos (live_bytes ix.files)))
      × IsValid loaded
      × ((q : Bytes) → entry_of loaded q ≡ entry_of ix q)
unfolding load_persisted save snapshot or_else new live_entry
load_persisted-save root ix v =
    let fs = live_files ix.files in
    let live = live_files-AllLive ix.files in
    let unique = live_files-Unique ix.files v.indexed.unique in
    let total : sum_sizes (map triple fs) (pos 0) ≡ pos (live_bytes ix.files) =
      sum_sizes-live_bytes fs 0 live ∙ ap pos (omega (arith, live_bytes-live_files ix.files)) in
    (
      load_files (map triple fs) (new root),
      ground (
        arith,
        total,
        (bytes_eq_iff root root).1 refl,
        (bytes_eq_iff persist_version persist_version).1 refl,
      ),
      load_files-IsValid fs (new root) (new-IsValid root),
      λ q.
          load_files-entry fs (new root) q (new-IsValid root) unique live
          ∙ back (live_entry q fs) q
          ∙ live_entry-live_files q ix.files,
    )
  where
    back : (e : Option FileEntry) (q : Bytes) → or_else e (entry_of (new root) q) ≡ e
    back none q = refl
    back (some f) q = refl
