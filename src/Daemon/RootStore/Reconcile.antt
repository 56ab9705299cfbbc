-- ===== src/Daemon/RootStore/Reconcile.antt =====
-- internal/daemon/store.go: reconcile, for an index in memory that stays in memory.
use gcgrep.Base.{
  ℕ, ◌+◌, ◌≡◌, ◌⊎◌, ◌↔◌, refl, ap, sym, ◌∙◌, Bool, true, false, ◌&&◌, ◌||◌, not, Option, none, some,
  List, [], ◌∷◌, map, Bytes, ◌==◌, if◌then◌else◌, if_both, arith, Bool-cases, inl, inr,
}
use gcgrep.Go.Map.{listed, Map, get, bytes_eq, bytes_eq_iff, bytes_key}
use gcgrep.Symbol.{Def}
use gcgrep.Index.Store.{FileEntry, FileMeta, Index, remove, meta_of, paths}
use gcgrep.Index.Store.Invariant.{IsValid, remove-IsValid}
use gcgrep.Index.Store.View.{entry_of, remove-entry, live_index-entry, meta_in, meta_of-entry}
use gcgrep.Daemon.Stream.{StreamEntry, stream_get, stream_retain, get-keep}
use gcgrep.Daemon.RootStore.{RootStore, Limits, Disk, index_all}
use gcgrep.Daemon.RootStore.Routes.{
  IsSettled, IsExclusive, same_place, index_all_lem, index_all-IsExclusive,
}
use gcgrep.Daemon.RootStore.Accounts.{IsSound, recount, index_all-IsSound}

-- fileStat
pub record FileStat : Type 0 where
  pub rel : Bytes
  pub size : ℕ
  pub mtime_ns : ℕ

unfoldable pub on_disk : List FileStat → Bytes → Bool
on_disk [] p = false
on_disk (f ∷ fs) p = bytes_eq f.rel p || on_disk fs p

unfoldable pub same_meta : FileStat → Option FileMeta → Bool
same_meta f none = false
same_meta f (some meta) = f.size == meta.size && f.mtime_ns == meta.mtime_ns

unfoldable pub same_stream : FileStat → Option StreamEntry → Bool
same_stream f none = false
same_stream f (some e) = f.size == e.size && f.mtime_ns == e.mtime_ns

-- A file that the store holds as it is on disk, indexed or listed.
unfoldable pub unchanged : RootStore → FileStat → Bool
unfolding same_meta same_stream stream_get
unchanged s f = same_meta f (meta_of s.idx f.rel) || same_stream f (stream_get f.rel s.stream)

-- stale
unfoldable pub stale : RootStore → List FileStat → List Bytes
unfolding unchanged
stale s [] = []
stale s (f ∷ fs) = let rest = stale s fs in if unchanged s f then rest else f.rel ∷ rest

-- How many files are counted as indexed already.
unfoldable pub count_unchanged : RootStore → List FileStat → ℕ
unfolding unchanged
count_unchanged s [] = 0
count_unchanged s (f ∷ fs) =
    let rest = count_unchanged s fs in if unchanged s f then rest + 1 else rest

-- The last loop: the index without the paths that are not on disk.
unfoldable pub remove_missing : (Bytes → Bool) → List Bytes → Index → Index
remove_missing here [] ix = ix
remove_missing here (p ∷ ps) ix = remove_missing here ps (if here p then ix else remove ix p)

-- reconcile, with the files that listFiles finds, and without the save that may be scheduled at its end.
unfoldable pub reconcile :
    (Bytes → Bytes → List Def) → Limits → Disk → List FileStat → RootStore → RootStore
unfolding stale count_unchanged index_all stream_retain remove_missing paths
reconcile extract cfg disk files s =
    let s1 = record s { indexed = s.indexed + count_unchanged s files } in
    let s2 = index_all extract cfg disk (stale s files) s1 in
    record s2 {
      stream = stream_retain (on_disk files) s2.stream;
      idx = remove_missing (on_disk files) (paths s2.idx) s2.idx;
    }

-- A path is on disk.
abbrev pub OnDisk : List FileStat → Bytes → Type 0
OnDisk [] q = ⊥
OnDisk (f ∷ fs) q = (f.rel ≡ q) ⊎ OnDisk fs q

-- One of the files that the walk found.
abbrev pub Found : List FileStat → FileStat → Type 0
Found [] g = ⊥
Found (f ∷ fs) g = (f ≡ g) ⊎ Found fs g

-- The walk finds a path once.
abbrev pub Once : List FileStat → Type 0
Once [] = Unit
Once (f ∷ fs) = ¬ OnDisk fs f.rel × Once fs

-- The store holds the file with the size and the time that it has on disk, indexed or listed.
abbrev pub IsHeld : RootStore → FileStat → Type 0
IsHeld s f =
    ((e : FileEntry) × (entry_of s.idx f.rel ≡ some e)
      × (e.meta.size ≡ f.size)
      × (e.meta.mtime_ns ≡ f.mtime_ns))
    ⊎ ((e : StreamEntry) × (stream_get f.rel s.stream ≡ some e)
        × (e.size ≡ f.size)
        × (e.mtime_ns ≡ f.mtime_ns))

on_disk-OnDisk : (fs : List FileStat) (q : Bytes) → on_disk fs q ≡ true → OnDisk fs q
unfolding on_disk
on_disk-OnDisk [] q h = ground (arith, h)
on_disk-OnDisk (f ∷ fs) q h = elim (Bool-cases (bytes_eq f.rel q)) [
  | inl e ↦ inl ((bytes_eq_iff f.rel q).0 e)
  | inr e ↦ inr (on_disk-OnDisk fs q (ground (arith, h, e)))
]

Found-on_disk : (fs : List FileStat) (g : FileStat) → Found fs g → on_disk fs g.rel ≡ true
unfolding on_disk
Found-on_disk [] g h = absurd h
Found-on_disk (f ∷ fs) g (inl e) =
    let same = (bytes_eq_iff f.rel g.rel).1 (ap (λ (x : FileStat). x.rel) e) in ground (arith, same)
Found-on_disk (f ∷ fs) g (inr m) = ground (arith, Found-on_disk fs g m)

Found-OnDisk : (fs : List FileStat) (g : FileStat) → Found fs g → OnDisk fs g.rel
Found-OnDisk [] g h = h
Found-OnDisk (f ∷ fs) g (inl e) = inl (ap (λ (x : FileStat). x.rel) e)
Found-OnDisk (f ∷ fs) g (inr m) = inr (Found-OnDisk fs g m)

unlisted-stale :
    (s : RootStore) (fs : List FileStat) (q : Bytes) → ¬ OnDisk fs q → listed q (stale s fs) ≡ false
unfolding stale listed
unlisted-stale s [] q n = refl
unlisted-stale s (f ∷ fs) q n =
    let rest = unlisted-stale s fs q (λ m. n (inr m)) in
    elim (Bool-cases (bytes_eq f.rel q)) [
      | inl e ↦ absurd (n (inl ((bytes_eq_iff f.rel q).0 e)))
      | inr e ↦ ground (arith, rest, e)
    ]

stale-unchanged :
    (s : RootStore) (fs : List FileStat) (g : FileStat)
    → Once fs
    → Found fs g
    → listed g.rel (stale s fs) ≡ not (unchanged s g)
unfolding stale listed
stale-unchanged s [] g o h = absurd h
stale-unchanged s (f ∷ fs) g o (inl e) =
    let rel = ap (λ (x : FileStat). x.rel) e in
    let same = (bytes_eq_iff f.rel g.rel).1 rel in
    let rest = unlisted-stale s fs g.rel (λ m. o.0 (rw rel m)) in
    let kept = ap (unchanged s) e in ground (arith, same, rest, kept)
stale-unchanged s (f ∷ fs) g o (inr m) =
    let rest = stale-unchanged s fs g o.1 m in
    elim (Bool-cases (bytes_eq f.rel g.rel)) [
      | inl e ↦ absurd (o.0 (rw ((bytes_eq_iff f.rel g.rel).0 e) (Found-OnDisk fs g m)))
      | inr e ↦ ground (arith, rest, e)
    ]

same_meta_iff :
    (f : FileStat) (o : Option FileEntry)
    → (same_meta f (meta_in o) ≡ true)
      ↔ ((e : FileEntry) × (o ≡ some e) × (e.meta.size ≡ f.size) × (e.meta.mtime_ns ≡ f.mtime_ns))
unfolding same_meta
same_meta_iff f none = ((λ h. ground (arith, h)), (λ h. ground (arith, h.1)))
same_meta_iff f (some e) = (
  (λ h. (e, refl, ground (arith, h), ground (arith, h))),
  (λ h. let meta = ap (λ (o : Option FileEntry). meta_in o) h.1 in ground (arith, h.2, h.3, meta)),
)

same_stream_iff :
    (f : FileStat) (o : Option StreamEntry)
    → (same_stream f o ≡ true)
      ↔ ((e : StreamEntry) × (o ≡ some e) × (e.size ≡ f.size) × (e.mtime_ns ≡ f.mtime_ns))
unfolding same_stream
same_stream_iff f none = ((λ h. ground (arith, h)), (λ h. ground (arith, h.1)))
same_stream_iff f (some e) =
    ((λ h. (e, refl, ground (arith, h), ground (arith, h))), (λ h. ground (arith, h.1, h.2, h.3)))

unchanged_iff : (s : RootStore) (f : FileStat) → IsValid s.idx → (unchanged s f ≡ true) ↔ IsHeld s f
unfolding unchanged
unchanged_iff s f v =
    let meta = ap (same_meta f) (meta_of-entry s.idx f.rel v) in
    let of_meta = same_meta_iff f (entry_of s.idx f.rel) in
    let of_stream = same_stream_iff f (stream_get f.rel s.stream) in
    (
      (λ h. elim (Bool-cases (same_meta f (meta_of s.idx f.rel))) [
        | inl m ↦ inl (of_meta.0 (sym meta ∙ m))
        | inr m ↦ inr (of_stream.0 (ground (arith, h, m)))
      ]),
      (λ h. elim h [
        | inl m ↦ let here = meta ∙ of_meta.1 m in ground (arith, here)
        | inr m ↦ let here = of_stream.1 m in ground (arith, here)
      ]),
    )

remove_missing-IsValid :
    (here : Bytes → Bool) (ps : List Bytes) (ix : Index)
    → IsValid ix
    → IsValid (remove_missing here ps ix)
unfolding remove_missing
remove_missing-IsValid here [] ix v = v
remove_missing-IsValid here (p ∷ ps) ix v =
    remove_missing-IsValid here ps _ (if_both IsValid (here p) _ _ v (remove-IsValid ix p v))

remove_unless-entry :
    (here : Bytes → Bool) (p q : Bytes) (ix : Index)
    → IsValid ix
    → entry_of (if here p then ix else remove ix p) q
      ≡ (if bytes_eq p q && not (here q) then none else entry_of ix q)
remove_unless-entry here p q ix v = elim (Bool-cases (bytes_eq p q)) [
  | inl e ↦
      let same = ap here ((bytes_eq_iff p q).0 e) in ground (arith, same, remove-entry ix p q v)
  | inr e ↦ ground (arith, remove-entry ix p q v)
]

remove_missing-entry :
    (here : Bytes → Bool) (ps : List Bytes) (ix : Index) (q : Bytes)
    → IsValid ix
    → entry_of (remove_missing here ps ix) q
      ≡ (if listed q ps && not (here q) then none else entry_of ix q)
unfolding remove_missing listed
remove_missing-entry here [] ix q v = refl
remove_missing-entry here (p ∷ ps) ix q v =
    remove_missing-entry here ps (if here p then ix else remove ix p) q
      (if_both IsValid (here p) _ _ v (remove-IsValid ix p v))
    ∙ ground (arith, remove_unless-entry here p q ix v)

listed-get :
    (q : Bytes) (m : Map Bytes ℕ)
    → listed q (map (λ (e : Bytes × ℕ). e.0) m) ≡ false
    → get q m ≡ none
unfolding listed get
listed-get q [] h = refl
listed-get q ((p, id) ∷ m) h = ground (arith, listed-get q m)

-- A path that Paths does not list is not in the index.
unlisted-entry :
    (q : Bytes) (ix : Index) → IsValid ix → listed q (paths ix) ≡ false → entry_of ix q ≡ none
unfolding paths
unlisted-entry q ix v h =
    live_index-entry q ix.files (sym (v.indexed.paths q) ∙ listed-get q ix.by_path h)

pruned-entry :
    (here : Bytes → Bool) (ix : Index) (q : Bytes)
    → IsValid ix
    → entry_of (remove_missing here (paths ix) ix) q ≡ (if here q then entry_of ix q else none)
pruned-entry here ix q v =
    remove_missing-entry here (paths ix) ix q v ∙ elim (Bool-cases (listed q (paths ix))) [
      | inl l ↦ ground (arith, l)
      | inr l ↦ ground (arith, l, unlisted-entry q ix v l)
    ]

module _ (extract : Bytes → Bytes → List Def) (cfg : Limits) (disk : Disk) (d : ℕ)
    (files : List FileStat) (s : RootStore) (q : Bytes) (v : IsSound cfg d s) where
  -- The store after the stale files are indexed.
  abbrev refreshed : RootStore
  refreshed =
      index_all extract cfg disk (stale s files)
        (record s { indexed = s.indexed + count_unchanged s files })

  refreshed-IsSound : IsSound cfg d refreshed
  refreshed-IsSound =
      index_all-IsSound extract cfg d disk (stale s files) _ (recount cfg d s _ v refl refl)

  reconcile-entry :
      entry_of (reconcile extract cfg disk files s).idx q
      ≡ (if on_disk files q then entry_of refreshed.idx q else none)
  unfolding reconcile
  reconcile-entry = pruned-entry (on_disk files) refreshed.idx q refreshed-IsSound.valid

  reconcile-stream :
      stream_get q (reconcile extract cfg disk files s).stream
      ≡ (if on_disk files q then stream_get q refreshed.stream else none)
  unfolding reconcile stream_retain stream_get
  reconcile-stream = get-keep (on_disk files) q refreshed.stream

  reconcile-IsValid : IsValid (reconcile extract cfg disk files s).idx
  unfolding reconcile
  reconcile-IsValid =
      remove_missing-IsValid (on_disk files) (paths refreshed.idx) refreshed.idx
        refreshed-IsSound.valid

  reconcile-stale :
      let t = reconcile extract cfg disk files s in
      (on_disk files q ≡ true
        → listed q (stale s files) ≡ false
        → (entry_of t.idx q ≡ entry_of s.idx q) × (stream_get q t.stream ≡ stream_get q s.stream))
      × (on_disk files q ≡ true
          → listed q (stale s files) ≡ true
          → IsSettled extract cfg disk q t.idx t.stream)
  reconcile-stale =
      let t = reconcile extract cfg disk files s in
      let after =
        index_all_lem extract cfg disk d (stale s files)
          (record s { indexed = s.indexed + count_unchanged s files }) q
          (recount cfg d s _ v refl refl) in
      let entry = reconcile-entry in
      let stream = reconcile-stream in
      (
        (λ here kept.
            let rest = after.1 kept in
            (ground (arith, entry, here) ∙ rest.0, ground (arith, stream, here) ∙ rest.1)),
        (λ here dirty.
            same_place extract cfg disk d q refreshed t (ground (arith, entry, here))
              (ground (arith, stream, here)) (after.0 dirty)),
      )

  reconcile_gone :
      let t = reconcile extract cfg disk files s in
      ¬ OnDisk files q → (entry_of t.idx q ≡ none) × (stream_get q t.stream ≡ none)
  reconcile_gone n =
      let entry = reconcile-entry in
      let stream = reconcile-stream in
      elim (Bool-cases (on_disk files q)) [
        | inl h ↦ absurd (n (on_disk-OnDisk files q h))
        | inr h ↦ (ground (arith, entry, h), ground (arith, stream, h))
      ]

  -- A path that is both indexed and listed never comes out of a reconcile, when there is none before and the
  -- index is sound.
  pub reconcile-exclusive :
      IsExclusive s
      → (entry_of (reconcile extract cfg disk files s).idx q ≡ none)
        ⊎ (stream_get q (reconcile extract cfg disk files s).stream ≡ none)
  reconcile-exclusive x =
      let one =
        index_all-IsExclusive extract cfg disk d (stale s files)
          (record s { indexed = s.indexed + count_unchanged s files })
          (recount cfg d s _ v refl refl) x q in
      let entry = reconcile-entry in
      let stream = reconcile-stream in ground (arith, entry, stream, one)

-- After a reconcile, from whatever drift, the index is valid, and a path that the walk does not find is neither
-- indexed nor listed. A file that the walk finds stays as it was where the store holds it, indexed or listed, with
-- the size and the time that it has on disk; where the store does not, it is where `route` puts it, for what the
-- file system answers and for some number of reserved bytes. The index is sound before, and the walk finds no path
-- twice.
pub reconcile_lem :
    (extract : Bytes → Bytes → List Def) (cfg : Limits) (disk : Disk) (d : ℕ)
    (files : List FileStat) (s : RootStore)
    → IsSound cfg d s
    → Once files
    → let t = reconcile extract cfg disk files s in
      IsValid t.idx
      × ((q : Bytes)
          → ¬ OnDisk files q
          → (entry_of t.idx q ≡ none) × (stream_get q t.stream ≡ none))
      × ((f : FileStat)
          → Found files f
          → IsHeld s f
          → (entry_of t.idx f.rel ≡ entry_of s.idx f.rel)
            × (stream_get f.rel t.stream ≡ stream_get f.rel s.stream))
      × ((f : FileStat)
          → Found files f
          → ¬ IsHeld s f
          → IsSettled extract cfg disk f.rel t.idx t.stream)
reconcile_lem extract cfg disk d files s v once = (
  reconcile-IsValid extract cfg disk d files s [] v,
  (λ q n. reconcile_gone extract cfg disk d files s q v n),
  (λ f m held.
      let kept = (unchanged_iff s f v.valid).1 held in
      let fresh = stale-unchanged s files f once m in
      (reconcile-stale extract cfg disk d files s f.rel v).0 (Found-on_disk files f m)
        (ground (arith, fresh, kept))),
  (λ f m lost.
      let fresh = stale-unchanged s files f once m in
      elim (Bool-cases (unchanged s f)) [
        | inl e ↦ absurd (lost ((unchanged_iff s f v.valid).0 e))
        | inr e ↦
            (reconcile-stale extract cfg disk d files s f.rel v).1 (Found-on_disk files f m)
              (ground (arith, fresh, e))
      ]),
)
