-- ===== src/Index/Store/Sizes.antt =====
-- How many bytes the live files of a store have on disk, and what each operation does to the number.
use gcgrep.Base.{
  ℕ, zero, suc, ◌+◌, ◌≤◌, ◌≡◌, refl, ap, sym, ◌∙◌, Bool, false, Option, none, some, List, [], ◌∷◌,
  ◌++◌, Bytes, if◌then◌else◌, if_both, arith, Option-cases, inl, inr,
}
use gcgrep.Go.Map.{Map, get, bytes_key}
use gcgrep.Symbol.{Def}
use gcgrep.Index.Postings.{trigram_keys}
use gcgrep.Index.Store.{
  FileEntry, FileMeta, Index, kill, live_files, remove_locked, compact, maybe_compact_locked,
  insert_locked, add_with_keys, add, remove, is_under, remove_if, remove_each, remove_prefix,
}
use gcgrep.Index.Store.Live.{live_index, live_entry}
use gcgrep.Index.Store.Invariant.{
  IsValid, remove_locked-none, remove_locked-some, remove_locked-IsValid,
}
use gcgrep.Index.Store.View.{entry_of, live_index-entry}

unfoldable pub live_bytes : List FileEntry → ℕ
live_bytes [] = 0
live_bytes (f ∷ fs) = if f.dead then live_bytes fs else f.meta.size + live_bytes fs

-- The size on disk that the store holds for a path.
abbrev pub size_in : Option FileEntry → ℕ
size_in none = 0
size_in (some f) = f.meta.size

live_bytes-kill :
    (p : Bytes) (fs : List FileEntry) (id : ℕ)
    → live_index p fs ≡ some id
    → live_bytes (kill id fs) + size_in (live_entry p fs) ≡ live_bytes fs
unfolding live_bytes kill live_index live_entry
live_bytes-kill p [] id e = cc
live_bytes-kill p (f ∷ fs) zero e = elim (Option-cases (live_index p fs)) [
  | inl n ↦ ground arith
  | inr (k, s) ↦ ground arith
]
live_bytes-kill p (f ∷ fs) (suc id) e = elim (Option-cases (live_index p fs)) [
  | inl n ↦ ground arith
  | inr (k, s) ↦ ground (arith, live_bytes-kill p fs k s)
]

live_bytes-snoc :
    (fs : List FileEntry) (f : FileEntry)
    → f.dead ≡ false
    → live_bytes (fs ++ f ∷ []) ≡ live_bytes fs + f.meta.size
unfolding live_bytes
live_bytes-snoc [] f d = ground arith
live_bytes-snoc (g ∷ fs) f d = ground (arith, live_bytes-snoc fs f d)

pub live_bytes-live_files : (fs : List FileEntry) → live_bytes (live_files fs) ≡ live_bytes fs
unfolding live_bytes live_files
live_bytes-live_files [] = refl
live_bytes-live_files (f ∷ fs) = ground (arith, live_bytes-live_files fs)

-- A live entry is counted.
pub size-le-live_bytes :
    (p : Bytes) (fs : List FileEntry) → size_in (live_entry p fs) ≤ live_bytes fs
unfolding live_bytes live_entry
size-le-live_bytes p [] = omega arith
size-le-live_bytes p (f ∷ fs) = ground (arith, size-le-live_bytes p fs)

live_bytes-compact : (ix : Index) → live_bytes (maybe_compact_locked ix).files ≡ live_bytes ix.files
unfolding maybe_compact_locked compact
live_bytes-compact ix = ground (arith, live_bytes-live_files ix.files)

live_bytes-remove_locked :
    (ix : Index) (p : Bytes)
    → IsValid ix
    → live_bytes (remove_locked ix p).files + size_in (entry_of ix p) ≡ live_bytes ix.files
live_bytes-remove_locked ix p v = elim (Option-cases (get p ix.by_path)) [
  | inl e ↦
      let n = live_index-entry p ix.files (sym (v.indexed.paths p) ∙ e) in
      let same = ap (λ (j : Index). live_bytes j.files) (remove_locked-none ix p e) in
      ground (arith, n, same)
  | inr (id, e) ↦
      let k = live_bytes-kill p ix.files id (sym (v.indexed.paths p) ∙ e) in
      let same = ap (λ (j : Index). live_bytes j.files) (remove_locked-some ix p id e) in
      ground (arith, k, same)
]

pub live_bytes-remove :
    (ix : Index) (p : Bytes)
    → IsValid ix
    → live_bytes (remove ix p).files + size_in (entry_of ix p) ≡ live_bytes ix.files
unfolding remove
live_bytes-remove ix p v =
    omega (arith, live_bytes-compact (remove_locked ix p), live_bytes-remove_locked ix p v)

pub live_bytes-add :
    (extract : Bytes → Bytes → List Def) (ix : Index) (meta : FileMeta) (content : Bytes)
    → IsValid ix
    → live_bytes (add extract ix meta content).files + size_in (entry_of ix meta.path)
      ≡ live_bytes ix.files + meta.size
unfolding add add_with_keys insert_locked
live_bytes-add extract ix meta content v =
    let f : FileEntry = record {
      meta = meta;
      content = content;
      defs = extract meta.path content;
      dead = false;
    } in
    omega (
      arith,
      live_bytes-compact (
          insert_locked (remove_locked ix meta.path) meta content (trigram_keys content)
            (extract meta.path content)),
      live_bytes-snoc (remove_locked ix meta.path).files f refl,
      live_bytes-remove_locked ix meta.path v,
    )

live_bytes-remove_each :
    (test : Bytes → Bool) (m : Map Bytes ℕ) (ix : Index)
    → IsValid ix
    → live_bytes (remove_each test m ix).files ≤ live_bytes ix.files
unfolding remove_each
live_bytes-remove_each test [] ix v = omega arith
live_bytes-remove_each test ((p, id) ∷ m) ix v =
    let w = if_both IsValid (test p) _ _ (remove_locked-IsValid ix p v) v in
    let less : live_bytes (remove_locked ix p).files ≤ live_bytes ix.files =
      omega (arith, live_bytes-remove_locked ix p v) in
    let one : live_bytes (remove_if test ix p).files ≤ live_bytes ix.files =
      if_both (λ (j : Index). live_bytes j.files ≤ live_bytes ix.files) (test p) _ _ less
        (omega arith) in
    omega (arith, one, live_bytes-remove_each test m (remove_if test ix p) w)

pub live_bytes-remove_prefix :
    (ix : Index) (dir : Bytes)
    → IsValid ix
    → live_bytes (remove_prefix ix dir).files ≤ live_bytes ix.files
unfolding remove_prefix
live_bytes-remove_prefix ix dir v = omega (
  arith,
  live_bytes-compact (remove_each (is_under dir) ix.by_path ix),
  live_bytes-remove_each (is_under dir) ix.by_path ix v,
)
