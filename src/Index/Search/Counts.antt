-- ===== src/Index/Search/Counts.antt =====
-- The counts that Search returns are those of a scan of every live file: pruning loses nothing.
use mathlib.Core.Path.{subst}
use gcgrep.Base.{
  ==_iff, ℕ, zero, suc, ◌≡◌, ◌≢◌, ap, sym, ◌∙◌, ◌⊎◌, inl, inr, false, Option, none, some, List, [],
  ◌∷◌, Bytes, ◌==◌, if◌then◌else◌, length, get_elem?, arith, Bool-cases, Option-cases, List-cases,
}
use gcgrep.Go.Map.{get, get-put, bytes_key, bytes_eq, bytes_eq_iff}
use gcgrep.Index.Matcher.{Regexps}
use gcgrep.Index.Postings.Intersect.{Holds}
use gcgrep.Index.Store.{FileEntry}
use gcgrep.Index.Store.Live.{live_index, Unique, Free}
use gcgrep.Index.Search.{SearchOpts, SearchResult, locations, passed_over, search_file, search_loop}

-- The count of a file that is searched.
abbrev pub counted : List (ℕ × ℕ) → Option ℕ
counted [] = none
counted (loc ∷ locs) = some (length (loc ∷ locs))

Free-at :
    (p : Bytes) (files : List FileEntry) (id : ℕ) (f : FileEntry)
    → Free p files
    → get_elem? files id ≡ some f
    → f.dead ≡ false
    → f.meta.path ≢ p
Free-at p [] id f h e d = λ q. cc
Free-at p (g ∷ files) zero f h e d =
    let same : g ≡ f = cc in subst (λ (x : FileEntry). x.dead ≡ false → x.meta.path ≢ p) same h.0 d
Free-at p (g ∷ files) (suc id) f h e d = Free-at p files id f h.1 e d

-- A live entry stands at the live id of its path.
self_path :
    (files : List FileEntry) (id : ℕ) (f : FileEntry)
    → Unique files
    → get_elem? files id ≡ some f
    → f.dead ≡ false
    → live_index f.meta.path files ≡ some id
unfolding live_index
self_path [] id f u e d = cc
self_path (g ∷ files) zero f u e d =
    let same : g ≡ f = cc in
    ground (
      arith,
      ap (λ (x : FileEntry). x.dead) same,
      ap (λ (x : FileEntry). x.meta.path) same,
      bytes_eq_iff g.meta.path f.meta.path,
    )
self_path (g ∷ files) (suc id) f u e d = elim (Bool-cases g.dead) [
  | inl x ↦ ground (arith, self_path files id f u.1 e d)
  | inr x ↦ ground (
    arith,
    self_path files id f u.1 e d,
    Free-at g.meta.path files id f (u.0 x) e d,
    bytes_eq_iff g.meta.path f.meta.path,
  )
]

-- An id that is not the live id of a path belongs to no live entry of that path.
other_path :
    (files : List FileEntry) (q : Bytes) (id : ℕ) (f : FileEntry)
    → Unique files
    → live_index q files ≢ some id
    → get_elem? files id ≡ some f
    → f.dead ≡ false
    → f.meta.path ≢ q
other_path files q id f u h e d p =
    h (subst (λ (x : Bytes). live_index x files ≡ some id) p (self_path files id f u e d))

pub passed_over-live :
    (opts : SearchOpts) (f : FileEntry) → passed_over opts f ≡ false → f.dead ≡ false
unfolding passed_over
passed_over-live opts f e = ground arith

module _ (rx : Regexps) (re : rx.Regexp) (opts : SearchOpts) where
  -- What a scan of one file reports, with no index.
  unfoldable pub scan_file : Option FileEntry → Option ℕ
  scan_file none = none
  scan_file (some f) = if passed_over opts f then none else counted (locations rx re opts f.content)

  search_file-counts :
      (f : FileEntry) (res : SearchResult) (q : Bytes)
      → get q (search_file rx re opts f res).file_counts
        ≡ elim (counted (locations rx re opts f.content)) [
          | none ↦ get q res.file_counts
          | some n ↦ if bytes_eq f.meta.path q then some n else get q res.file_counts
        ]
  unfolding search_file
  search_file-counts f res q = elim (List-cases (locations rx re opts f.content)) [
    | inl e ↦ ground arith
    | inr (loc, locs, e) ↦
        ground (arith, get-put f.meta.path q (length (loc ∷ locs)) res.file_counts)
  ]

  -- Without a limit the loop visits every id; each id that has an entry, live and not passed over,
  -- sets the count of the entry's path.
  visit : List FileEntry → ℕ → SearchResult → SearchResult
  visit files id res = elim (get_elem? files id) [
    | none ↦ res
    | some f ↦ if passed_over opts f then res else search_file rx re opts f res
  ]

  search_loop-visit :
      (files : List FileEntry) (id : ℕ) (ids : List ℕ) (res : SearchResult)
      → opts.limit ≡ 0
      → search_loop rx re opts files (id ∷ ids) res
        ≡ search_loop rx re opts files ids (visit files id res)
  unfolding search_loop visit
  search_loop-visit files id ids res h = elim (Option-cases (get_elem? files id)) [
    | inl e ↦ ground arith
    | inr (f, e) ↦ ground arith
  ]

  visit-other :
      (files : List FileEntry) (q : Bytes) (id : ℕ) (res : SearchResult)
      → Unique files
      → live_index q files ≢ some id
      → get q (visit files id res).file_counts ≡ get q res.file_counts
  unfolding visit
  visit-other files q id res u h = elim (Option-cases (get_elem? files id)) [
    | inl e ↦ ground arith
    | inr (f, e) ↦ elim (Bool-cases (passed_over opts f)) [
      | inl p ↦ ground arith
      | inr p ↦ ground (
        arith,
        search_file-counts f res q,
        other_path files q id f u h e (passed_over-live opts f p),
        bytes_eq_iff f.meta.path q,
      )
    ]
  ]

  visit_self :
      (files : List FileEntry) (q : Bytes) (id : ℕ) (f : FileEntry) (res : SearchResult)
      → get_elem? files id ≡ some f
      → f.meta.path ≡ q
      → get q (visit files id res).file_counts
        ≡ elim (scan_file (some f)) [ none ↦ get q res.file_counts | some n ↦ some n ]
  unfolding visit scan_file
  visit_self files q id f res e p =
      ground (arith, search_file-counts f res q, bytes_eq_iff f.meta.path q)

  -- One round: the count is right once the id is visited, and stays right.
  visited :
      (files : List FileEntry) (q : Bytes) (id : ℕ) (f : FileEntry) (j : ℕ) (ids : List ℕ)
      (res : SearchResult)
      → Unique files
      → live_index q files ≡ some id
      → get_elem? files id ≡ some f
      → f.meta.path ≡ q
      → (get q res.file_counts ≡ scan_file (some f))
        ⊎ ((get q res.file_counts ≡ none) × (Holds (j ∷ ids) id ⊎ (scan_file (some f) ≡ none)))
      → (get q (visit files j res).file_counts ≡ scan_file (some f))
        ⊎ ((get q (visit files j res).file_counts ≡ none)
            × (Holds ids id ⊎ (scan_file (some f) ≡ none)))
  visited files q id f j ids res u l e p c = elim (Bool-cases (id == j)) [
    | inl same ↦
        let i = (==_iff id j).0 same in
        inl
          (subst (λ (k : ℕ). get q (visit files k res).file_counts ≡ scan_file (some f)) i (here c))
    | inr other ↦ ground (arith, visit-other files q j res u (ground arith))
  ]
    where
      here :
          (get q res.file_counts ≡ scan_file (some f))
            ⊎ ((get q res.file_counts ≡ none) × (Holds (j ∷ ids) id ⊎ (scan_file (some f) ≡ none)))
          → get q (visit files id res).file_counts ≡ scan_file (some f)
      here (inl c) = elim (Option-cases (scan_file (some f))) [
        | inl n ↦ ground (arith, visit_self files q id f res e p)
        | inr (k, n) ↦ ground (arith, visit_self files q id f res e p)
      ]
      here (inr (c, _)) = elim (Option-cases (scan_file (some f))) [
        | inl n ↦ ground (arith, visit_self files q id f res e p)
        | inr (k, n) ↦ ground (arith, visit_self files q id f res e p)
      ]

  -- After the loop the count of a path is the scan's, if its id was visited or it was right before.
  pub loop-counts :
      (files : List FileEntry) (q : Bytes) (id : ℕ) (f : FileEntry) (ids : List ℕ)
      (res : SearchResult)
      → opts.limit ≡ 0
      → Unique files
      → live_index q files ≡ some id
      → get_elem? files id ≡ some f
      → f.meta.path ≡ q
      → (get q res.file_counts ≡ scan_file (some f))
        ⊎ ((get q res.file_counts ≡ none) × (Holds ids id ⊎ (scan_file (some f) ≡ none)))
      → get q (search_loop rx re opts files ids res).file_counts ≡ scan_file (some f)
  loop-counts files q id f [] res h u l e p (inl c) = unfold search_loop in c
  loop-counts files q id f [] res h u l e p (inr (c, inl m)) = absurd m
  loop-counts files q id f [] res h u l e p (inr (c, inr n)) = unfold search_loop in (c ∙ sym n)
  loop-counts files q id f (j ∷ ids) res h u l e p c = rw (search_loop-visit files j ids res h) (
      loop-counts files q id f ids (visit files j res) h u l e p
        (visited files q id f j ids res u l e p c))

  pub loop-counts_none :
      (files : List FileEntry) (q : Bytes) (ids : List ℕ) (res : SearchResult)
      → opts.limit ≡ 0
      → Unique files
      → live_index q files ≡ none
      → get q res.file_counts ≡ none
      → get q (search_loop rx re opts files ids res).file_counts ≡ none
  loop-counts_none files q [] res h u l c = unfold search_loop in c
  loop-counts_none files q (id ∷ ids) res h u l c = rw (search_loop-visit files id ids res h) (
      loop-counts_none files q ids (visit files id res) h u l
        (visit-other files q id res u (ground arith) ∙ c))
