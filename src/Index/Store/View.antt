-- ===== src/Index/Store/View.antt =====
-- The store seen as a map from paths to files, whatever is dead, compacted or renumbered.
use gcgrep.Base.{
  ℕ, zero, suc, ◌≡◌, refl, ap, sym, ◌∙◌, Bool, false, ◌&&◌, ◌||◌, Option, none, some, List, [], ◌∷◌,
  Bytes, if◌then◌else◌, if_both, fun_ext, get_elem?, arith, Bool-cases, Option-cases, inl, inr,
}
use gcgrep.Go.Map.{Map, get, bytes_eq, bytes_eq_iff, bytes_key}
use gcgrep.Symbol.{Def}
use gcgrep.Index.Store.{
  FileEntry, FileMeta, Index, new, remove_locked, compact, maybe_compact_locked, insert_locked,
  add_with_keys, add, remove, is_under, remove_if, remove_each, remove_prefix, meta_of,
}
use gcgrep.Index.Store.Live.{
  live_index, live_entry, Free-live_index, live_entry-kill, live_entry-snoc, live_entry-live_files,
}
use gcgrep.Index.Store.Invariant.{
  IsValid, new-IsValid, remove_locked-none, remove_locked-some, remove_locked-IsValid,
  remove_locked-gone, add-IsValid, remove-IsValid, remove_prefix-IsValid,
}

abbrev pub meta_in : Option FileEntry → Option FileMeta
meta_in none = none
meta_in (some f) = some f.meta

-- What the store holds for a path.
abbrev pub entry_of : Index → Bytes → Option FileEntry
entry_of ix q = live_entry q ix.files

pub live_index-entry :
    (q : Bytes) (fs : List FileEntry) → live_index q fs ≡ none → live_entry q fs ≡ none
unfolding live_index live_entry
live_index-entry q [] e = refl
live_index-entry q (f ∷ fs) e = elim (Option-cases (live_index q fs)) [
  | inl n ↦ ground (arith, live_index-entry q fs n)
  | inr (k, s) ↦ ground arith
]

pub get_elem?-live :
    (q : Bytes) (fs : List FileEntry) (id : ℕ)
    → live_index q fs ≡ some id
    → get_elem? fs id ≡ live_entry q fs
unfolding live_index live_entry
get_elem?-live q [] id e = cc
get_elem?-live q (f ∷ fs) zero e = elim (Option-cases (live_index q fs)) [
  | inl n ↦ ground arith
  | inr (k, s) ↦ ground arith
]
get_elem?-live q (f ∷ fs) (suc id) e = elim (Option-cases (live_index q fs)) [
  | inl n ↦ ground arith
  | inr (k, s) ↦ ground (arith, get_elem?-live q fs k s)
]

pub meta_of-entry : (ix : Index) (q : Bytes) → IsValid ix → meta_of ix q ≡ meta_in (entry_of ix q)
unfolding meta_of
meta_of-entry ix q v = elim (Option-cases (get q ix.by_path)) [
  | inl e ↦ ground (arith, live_index-entry q ix.files (sym (v.indexed.paths q) ∙ e))
  | inr (id, e) ↦ ground (arith, get_elem?-live q ix.files id (sym (v.indexed.paths q) ∙ e))
]

pub remove_locked-entry :
    (ix : Index) (p q : Bytes)
    → IsValid ix
    → entry_of (remove_locked ix p) q ≡ (if bytes_eq p q then none else entry_of ix q)
remove_locked-entry ix p q v = elim (Option-cases (get p ix.by_path)) [
  | inl e ↦
      rw (remove_locked-none ix p e) (
        ground (arith, bytes_eq_iff p q, live_index-entry p ix.files (sym (v.indexed.paths p) ∙ e)))
  | inr (id, e) ↦
      rw (remove_locked-some ix p id e)
        (live_entry-kill p q ix.files id v.indexed.unique (sym (v.indexed.paths p) ∙ e))
]

pub maybe_compact_locked-entry :
    (ix : Index) (q : Bytes) → entry_of (maybe_compact_locked ix) q ≡ entry_of ix q
unfolding maybe_compact_locked compact
maybe_compact_locked-entry ix q = ground (arith, live_entry-live_files q ix.files)

pub add-entry :
    (extract : Bytes → Bytes → List Def) (ix : Index) (meta : FileMeta) (content : Bytes)
    (q : Bytes)
    → IsValid ix
    → entry_of (add extract ix meta content) q ≡ (
        if bytes_eq meta.path q
        then some (record {
          meta = meta;
          content = content;
          defs = extract meta.path content;
          dead = false;
        })
        else entry_of ix q)
unfolding add add_with_keys insert_locked
add-entry extract ix meta content q v =
    let f : FileEntry = record {
      meta = meta;
      content = content;
      defs = extract meta.path content;
      dead = false;
    } in
    let w = remove_locked-IsValid ix meta.path v in
    maybe_compact_locked-entry _ q
    ∙ live_entry-snoc q (remove_locked ix meta.path).files f refl (
        Free-live_index meta.path (remove_locked ix meta.path).files
          (sym (w.indexed.paths meta.path) ∙ remove_locked-gone ix meta.path))
    ∙ ground (arith, remove_locked-entry ix meta.path q v)

pub remove-entry :
    (ix : Index) (p q : Bytes)
    → IsValid ix
    → entry_of (remove ix p) q ≡ (if bytes_eq p q then none else entry_of ix q)
unfolding remove
remove-entry ix p q v =
    maybe_compact_locked-entry (remove_locked ix p) q ∙ remove_locked-entry ix p q v

-- A path is a key of the table.
has_key : Bytes → Map Bytes ℕ → Bool
has_key q [] = false
has_key q ((p, _) ∷ m) = bytes_eq p q || has_key q m

get-has_key : (q : Bytes) (m : Map Bytes ℕ) → has_key q m ≡ false → get q m ≡ none
unfolding has_key get
get-has_key q [] e = refl
get-has_key q ((p, id) ∷ m) e = ground (arith, get-has_key q m)

remove_if-entry :
    (test : Bytes → Bool) (ix : Index) (p q : Bytes)
    → IsValid ix
    → entry_of (remove_if test ix p) q ≡ (if bytes_eq p q && test q then none else entry_of ix q)
remove_if-entry test ix p q v = elim (Bool-cases (bytes_eq p q)) [
  | inl e ↦
      let same = (bytes_eq_iff p q).0 e in
      rw same (ground (arith, remove_locked-entry ix q q v, (bytes_eq_iff q q).1 refl))
  | inr e ↦ ground (arith, remove_locked-entry ix p q v)
]

remove_each-entry :
    (test : Bytes → Bool) (m : Map Bytes ℕ) (ix : Index) (q : Bytes)
    → IsValid ix
    → entry_of (remove_each test m ix) q ≡ (if has_key q m && test q then none else entry_of ix q)
unfolding remove_each has_key
remove_each-entry test [] ix q v = refl
remove_each-entry test ((p, id) ∷ m) ix q v =
    remove_each-entry test m (remove_if test ix p) q
      (if_both IsValid (test p) _ _ (remove_locked-IsValid ix p v) v)
    ∙ ground (arith, remove_if-entry test ix p q v)

pub remove_prefix-entry :
    (ix : Index) (dir q : Bytes)
    → IsValid ix
    → entry_of (remove_prefix ix dir) q ≡ (if is_under dir q then none else entry_of ix q)
unfolding remove_prefix
remove_prefix-entry ix dir q v =
    maybe_compact_locked-entry (remove_each (is_under dir) ix.by_path ix) q
    ∙ remove_each-entry (is_under dir) ix.by_path ix q v
    ∙ elim (Bool-cases (has_key q ix.by_path)) [
      | inl e ↦ rw e
      | inr e ↦ ground (
        arith,
        live_index-entry q ix.files (sym (v.indexed.paths q) ∙ get-has_key q ix.by_path e),
      )
    ]

-- The operations on the store, and what each does to a plain map from paths to files.
pub data Op : Type 0 where
  adding : FileMeta → Bytes → Op
  removing removing_prefix : Bytes → Op

module _ (extract : Bytes → Bytes → List Def) where
  unfoldable pub apply : Op → Index → Index
  apply (adding meta content) ix = add extract ix meta content
  apply (removing p) ix = remove ix p
  apply (removing_prefix dir) ix = remove_prefix ix dir

  unfoldable pub apply_all : List Op → Index → Index
  unfolding apply
  apply_all [] ix = ix
  apply_all (o ∷ os) ix = apply_all os (apply o ix)

  abbrev pub Files : Type 0
  Files = Bytes → Option FileEntry

  unfoldable pub apply_map : Op → Files → Files
  apply_map (adding meta content) s q =
      if bytes_eq meta.path q
      then some (record {
        meta = meta;
        content = content;
        defs = extract meta.path content;
        dead = false;
      })
      else s q
  apply_map (removing p) s q = if bytes_eq p q then none else s q
  apply_map (removing_prefix dir) s q = if is_under dir q then none else s q

  unfoldable pub map_all : List Op → Files → Files
  unfolding apply_map
  map_all [] s = s
  map_all (o ∷ os) s = map_all os (apply_map o s)

  apply-IsValid : (o : Op) (ix : Index) → IsValid ix → IsValid (apply o ix)
  unfolding apply
  apply-IsValid (adding meta content) ix v = add-IsValid extract ix meta content v
  apply-IsValid (removing p) ix v = remove-IsValid ix p v
  apply-IsValid (removing_prefix dir) ix v = remove_prefix-IsValid ix dir v

  apply-entry :
      (o : Op) (ix : Index) (q : Bytes)
      → IsValid ix
      → entry_of (apply o ix) q ≡ apply_map o (entry_of ix) q
  unfolding apply apply_map
  apply-entry (adding meta content) ix q v = add-entry extract ix meta content q v
  apply-entry (removing p) ix q v = remove-entry ix p q v
  apply-entry (removing_prefix dir) ix q v = remove_prefix-entry ix dir q v

  pub apply_all-IsValid : (os : List Op) (ix : Index) → IsValid ix → IsValid (apply_all os ix)
  unfolding apply_all
  apply_all-IsValid [] ix v = v
  apply_all-IsValid (o ∷ os) ix v = apply_all-IsValid os (apply o ix) (apply-IsValid o ix v)

  apply_all-entry :
      (os : List Op) (ix : Index) (s : Files)
      → IsValid ix
      → ((q : Bytes) → entry_of ix q ≡ s q)
      → (q : Bytes) → entry_of (apply_all os ix) q ≡ map_all os s q
  unfolding apply_all map_all
  apply_all-entry [] ix s v h q = h q
  apply_all-entry (o ∷ os) ix s v h q =
      apply_all-entry os (apply o ix) (apply_map o s) (apply-IsValid o ix v)
        (λ r. apply-entry o ix r v ∙ ap (λ (t : Files). apply_map o t r) (fun_ext h)) q

  -- After any sequence of Add, Remove and RemovePrefix on a new store its tables are valid, and Meta
  -- answers for each path with what the last operation on it left, as on a plain map.
  pub store_refines_map :
      (root : Bytes) (os : List Op) (q : Bytes)
      → IsValid (apply_all os (new root))
        × (entry_of (apply_all os (new root)) q ≡ map_all os (λ _. none) q)
        × (meta_of (apply_all os (new root)) q ≡ meta_in (map_all os (λ _. none) q))
  unfolding new live_entry
  store_refines_map root os q =
      let v = apply_all-IsValid os (new root) (new-IsValid root) in
      let same = apply_all-entry os (new root) (λ _. none) (new-IsValid root) (λ r. refl) q in
      (v, same, meta_of-entry (apply_all os (new root)) q v ∙ ap meta_in same)
