-- ===== src/Index/Search/Scan.antt =====
-- Search against a scan of every live file.
use gcgrep.Base.{
  ℕ, ◌≡◌, refl, ap, sym, ◌∙◌, ◌⊎◌, inl, inr, true, false, none, some, List, [], ◌∷◌, map, Bytes,
  ltb, if◌then◌else◌, length, get_elem?, arith, Bool-cases, Option-cases,
}
use gcgrep.Go.Map.{Map, get, bytes_key, bytes_eq, bytes_eq_iff}
use gcgrep.Index.{lower}
use gcgrep.Index.Matcher.{Regexps}
use gcgrep.Index.Postings.Intersect.{Holds}
use gcgrep.Index.Store.{FileEntry, Index}
use gcgrep.Index.Store.Live.{live_index, live_entry}
use gcgrep.Index.Store.Invariant.{IsValid}
use gcgrep.Index.Store.View.{entry_of, live_index-entry, get_elem?-live}
use gcgrep.Index.Search.{
  SearchOpts, SearchResult, locations, passed_over, search, candidates_locked,
}
use gcgrep.Index.Search.Candidates.{FoldOccurs, candidates_complete}
use gcgrep.Index.Search.Counts.{counted, scan_file, loop-counts, loop-counts_none}

live_entry_self :
    (q : Bytes) (fs : List FileEntry) (f : FileEntry)
    → live_entry q fs ≡ some f
    → (f.meta.path ≡ q) × (f.dead ≡ false)
unfolding live_entry
live_entry_self q [] f e = absurd (ground arith)
live_entry_self q (g ∷ fs) f e = elim (Bool-cases g.dead) [
  | inl x ↦ live_entry_self q fs f (ground arith)
  | inr x ↦ elim (Bool-cases (bytes_eq g.meta.path q)) [
    | inl y ↦
        let same : g ≡ f = ground arith in
        (
          ap (λ (x : FileEntry). x.meta.path) (sym same) ∙ (bytes_eq_iff g.meta.path q).0 y,
          ap (λ (x : FileEntry). x.dead) (sym same) ∙ x,
        )
    | inr y ↦ live_entry_self q fs f (ground arith)
  ]
]

get-Holds :
    (q : Bytes) (m : Map Bytes ℕ) (id : ℕ)
    → get q m ≡ some id
    → Holds (map (λ (p : Bytes × ℕ). p.1) m) id
unfolding get
get-Holds q [] id e = cc
get-Holds q ((p, j) ∷ m) id e = ground (arith, get-Holds q m id)

-- With a short literal every live file is a candidate.
candidates_short :
    (ix : Index) (lit q : Bytes) (id : ℕ)
    → ltb (length lit) 3 ≡ true
    → get q ix.by_path ≡ some id
    → Holds (candidates_locked ix lit) id
unfolding candidates_locked
candidates_short ix lit q id e g = rw e (get-Holds q ix.by_path id g)

found_entry :
    (fs : List FileEntry) (q : Bytes) (id : ℕ)
    → live_index q fs ≡ some id
    → live_entry q fs ≡ none
    → ⊥
unfolding live_index live_entry
found_entry [] q id e n = cc
found_entry (f ∷ fs) q id e n = elim (Option-cases (live_index q fs)) [
  | inl x ↦ ground arith
  | inr (k, x) ↦ ground (arith, found_entry fs q k x)
]

module _ (rx : Regexps) (re : rx.Regexp) (opts : SearchOpts) where
  -- The literal that the caller extracted is short, or stands in lowercase in every content in which
  -- there is anything to find.
  abbrev pub Prunes : Type 0
  Prunes =
      (ltb (length opts.literal) 3 ≡ true)
      ⊎ ((lit : Bytes) × (opts.literal ≡ map lower lit)
          × (ltb (length lit) 3 ≡ false)
          × ((content : Bytes) → (locations rx re opts content ≡ []) ⊎ FoldOccurs lit content))

  -- A live file that the scan counts is a candidate.
  scanned-Holds :
      (ix : Index) (q : Bytes) (id : ℕ) (f : FileEntry)
      → IsValid ix
      → Prunes
      → get q ix.by_path ≡ some id
      → get_elem? ix.files id ≡ some f
      → f.dead ≡ false
      → Holds (candidates_locked ix opts.literal) id ⊎ (scan_file rx re opts (some f) ≡ none)
  unfolding scan_file
  scanned-Holds ix q id f v (inl short) g e d = inl (candidates_short ix opts.literal q id short g)
  scanned-Holds ix q id f v (inr (lit, same, long, needs)) g e d = go (needs f.content)
    where
      go :
          (locations rx re opts f.content ≡ []) ⊎ FoldOccurs lit f.content
          → Holds (candidates_locked ix opts.literal) id
            ⊎ ((if passed_over opts f then none else counted (locations rx re opts f.content))
                ≡ none)
      go (inl n) = inr (ground arith)
      go (inr o) = inl (rw same (candidates_complete ix lit id f v long e d o))

  abbrev start : SearchResult
  start = record { matches = []; file_counts = []; truncated = false }

  start-none : (q : Bytes) → get q start.file_counts ≡ none
  unfolding get
  start-none q = refl

  counts_at :
      (ix : Index) (q : Bytes) (id : ℕ) (f : FileEntry)
      → IsValid ix
      → opts.limit ≡ 0
      → Prunes
      → live_index q ix.files ≡ some id
      → get_elem? ix.files id ≡ some f
      → live_entry q ix.files ≡ some f
      → get q (search rx re opts ix).file_counts ≡ scan_file rx re opts (some f)
  unfolding search
  counts_at ix q id f v h prunes e g s =
      let (path, live) = live_entry_self q ix.files f s in
      loop-counts rx re opts ix.files q id f (candidates_locked ix opts.literal) start h
        v.indexed.unique e g path
        (inr (start-none q, scanned-Holds ix q id f v prunes (v.indexed.paths q ∙ e) g live))

  counts_none :
      (ix : Index) (q : Bytes)
      → IsValid ix
      → opts.limit ≡ 0
      → live_index q ix.files ≡ none
      → get q (search rx re opts ix).file_counts ≡ none
  unfolding search
  counts_none ix q v h n =
      loop-counts_none rx re opts ix.files q (candidates_locked ix opts.literal) start h
        v.indexed.unique n (start-none q)

  -- In a valid store, and without a limit, Search counts for every path what a scan of the path's
  -- live file finds, and nothing for a path that has no live file: the trigram index leaves out no
  -- file, as long as the extracted literal is one that every file with a match contains.
  pub search-counts :
      (ix : Index) (q : Bytes)
      → IsValid ix
      → opts.limit ≡ 0
      → Prunes
      → get q (search rx re opts ix).file_counts ≡ scan_file rx re opts (entry_of ix q)
  search-counts ix q v h prunes = elim (Option-cases (live_index q ix.files)) [
    | inl n ↦
        counts_none ix q v h n
        ∙ sym (ap (scan_file rx re opts) (live_index-entry q ix.files n) ∙ unfold scan_file in refl)
    | inr (id, e) ↦ elim (Option-cases (live_entry q ix.files)) [
      | inl n ↦ absurd (found_entry ix.files q id e n)
      | inr (f, s) ↦
          counts_at ix q id f v h prunes e (get_elem?-live q ix.files id e ∙ s) s
          ∙ sym (ap (scan_file rx re opts) s)
    ]
  ]
