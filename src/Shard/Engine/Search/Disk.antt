-- ===== src/Shard/Engine/Search/Disk.antt =====
-- internal/shard/engine.go: what Search answers for a changed file.
use gcgrep.Base.{
  ℕ, ◌≡◌, refl, ap, sym, ◌∙◌, inl, inr, arith, Bool-cases, Option-cases, Bool, true, false, ◌||◌,
  not, Option, none, some, List, [], ◌∷◌, Bytes, ◌==◌, if◌then◌else◌, length,
}
use gcgrep.Go.Map.{listed, Map, get, put, bytes_eq, bytes_eq_iff, bytes_key, get-put}
use gcgrep.Index.Store.{FileMeta}
use gcgrep.Index.Search.{Match, SearchOpts, SearchResult}
use gcgrep.Shard.File.{Shard, file}
use gcgrep.Shard.Query.{candidates, has_trigrams}
use gcgrep.Shard.Engine.{Dirty, DirtyEntry}
use gcgrep.Shard.Engine.Search.{
  Env, Part, ShardResult, skipped, file_hits, add_hits, search_file, search_candidates, inline_of,
  search_shard, search_shards, put_all, is_full, merge_one, merge, dirty_paths, insert_path,
  sort_paths, dirty_hits, add_dirty, scan_dirty, finish, search,
}

-- Each path has one entry, as in a Go map.
abbrev pub Distinct : Dirty → Type 0
Distinct [] = Unit
Distinct ((p, e) ∷ dirty) = (get p dirty ≡ none) × Distinct dirty

-- The entry of fileCounts for a number of matches.
unfoldable pub counted : ℕ → Option ℕ → Option ℕ
counted n o = if n == 0 then o else some n

is_live : Option DirtyEntry → Bool
is_live none = false
is_live (some e) = not e.deleted

listed-insert_path :
    (q p : Bytes) (ps : List Bytes) → listed q (insert_path p ps) ≡ listed q (p ∷ ps)
unfolding insert_path listed
listed-insert_path q p [] = refl
listed-insert_path q p (r ∷ rs) = ground (arith, listed-insert_path q p rs)

listed-sort_paths : (q : Bytes) (ps : List Bytes) → listed q (sort_paths ps) ≡ listed q ps
unfolding sort_paths listed
listed-sort_paths q [] = refl
listed-sort_paths q (p ∷ ps) =
    listed-insert_path q p (sort_paths ps)
    ∙ ap (λ (b : Bool). bytes_eq p q || b) (listed-sort_paths q ps)

listed-dirty_paths :
    (q : Bytes) (dirty : Dirty)
    → Distinct dirty
    → listed q (dirty_paths dirty) ≡ is_live (get q dirty)
unfolding dirty_paths listed get is_live
listed-dirty_paths q [] u = refl
listed-dirty_paths q ((p, e) ∷ dirty) u = elim (Bool-cases (bytes_eq p q)) [
  | inl s ↦
      let gone : is_live (get q dirty) ≡ false =
        ap (λ (r : Bytes). is_live (get r dirty)) (sym ((bytes_eq_iff p q).0 s)) ∙ ap is_live u.0 in
      let rest = listed-dirty_paths q dirty u.1 in ground (arith, s, gone, rest)
  | inr s ↦ let rest = listed-dirty_paths q dirty u.1 in ground (arith, s, rest)
]

put_all-none :
    (q : Bytes) (counts m : Map Bytes ℕ)
    → get q counts ≡ none
    → get q m ≡ none
    → get q (put_all counts m) ≡ none
unfolding put_all get
put_all-none q [] m e f = f
put_all-none q ((p, c) ∷ counts) m e f =
    put_all-none q counts (put p c m) (ground (arith, e)) (get-put p q c m ∙ ground (arith, e, f))

module _ (env : Env) (opts : SearchOpts) (dirty : Dirty) (q : Bytes) where
  add_hits-other :
      (p : Bytes) (hits : List Match) (r : ShardResult)
      → bytes_eq p q ≡ false
      → get q (add_hits opts p hits r).file_counts ≡ get q r.file_counts
  unfolding add_hits
  add_hits-other p hits r n =
      let there = get-put p q (length hits) r.file_counts in
      elim (Bool-cases (length hits == 0)) [
        | inl c ↦ rw c refl
        | inr c ↦
            rw c
              (there ∙ ap (λ (b : Bool). if b then some (length hits) else get q r.file_counts) n)
      ]

  other_path :
      (e : DirtyEntry) (p : Bytes)
      → get q dirty ≡ some e
      → get p dirty ≡ none
      → bytes_eq p q ≡ false
  other_path e p h n = elim (Bool-cases (bytes_eq p q)) [
    | inl s ↦
        let same = ap (λ (r : Bytes). get r dirty) ((bytes_eq_iff p q).0 s) in
        ground (arith, h, n, same)
    | inr s ↦ s
  ]

  search_file-dirty :
      (fm : FileMeta) (inline : Option Bytes) (e : DirtyEntry) (r : ShardResult)
      → get q dirty ≡ some e
      → get q (search_file env opts dirty fm inline r).file_counts ≡ get q r.file_counts
  unfolding search_file
  search_file-dirty fm inline e r h = elim (Option-cases (get fm.path dirty)) [
    | inr (x, f) ↦ ground (arith, f)
    | inl n ↦
        let same =
          add_hits-other fm.path (file_hits env opts fm.path inline) r (other_path e fm.path h n) in
        elim (Bool-cases (skipped opts fm.path fm.size)) [
          | inl c ↦ ground (arith, n, c)
          | inr c ↦ ground (arith, n, c, same)
        ]
  ]

  search_candidates-dirty :
      (s : Shard) (ids : List ℕ) (e : DirtyEntry) (r out : ShardResult)
      → get q dirty ≡ some e
      → search_candidates env opts dirty s ids r ≡ some out
      → get q out.file_counts ≡ get q r.file_counts
  unfolding search_candidates
  search_candidates-dirty s [] e r out h f =
      ap
        (λ (o : Option ShardResult). elim o as (λ x. Option ℕ) [
          | none ↦ none
          | some x ↦ get q x.file_counts
        ])
        (sym f)
  search_candidates-dirty s (id ∷ ids) e r out h f = elim (Option-cases (file s id)) [
    | inl n ↦ ground (arith, f, n)
    | inr (fm, g) ↦ elim (Option-cases (inline_of opts dirty s fm id)) [
      | inl n ↦ ground (arith, f, g, n)
      | inr (inline, k) ↦
          let rest =
            search_candidates-dirty s ids e (search_file env opts dirty fm inline r) out h
              (ground (arith, f, g, k)) in
          rest ∙ search_file-dirty fm inline e r h
    ]
  ]

  abbrev AllNone : List ShardResult → Type 0
  AllNone [] = Unit
  AllNone (r ∷ rs) = (get q r.file_counts ≡ none) × AllNone rs

  search_shard-dirty :
      (p : Part) (e : DirtyEntry) (out : ShardResult)
      → get q dirty ≡ some e
      → search_shard env opts dirty p ≡ some out
      → get q out.file_counts ≡ none
  unfolding search_shard get
  search_shard-dirty p e out h f =
      let count : ShardResult → Option ℕ = λ r. get q r.file_counts in
      elim (Bool-cases (not (has_trigrams p.shard opts.literal) || not p.mapped)) [
        | inl c ↦
            let same : record { matches = []; file_counts = [] } ≡ out = ground (arith, f, c) in
            ap count (sym same)
        | inr c ↦ elim (Option-cases (candidates p.shard opts.literal)) [
          | inl n ↦ ground (arith, f, c, n)
          | inr (ids, g) ↦
              search_candidates-dirty p.shard ids e (record { matches = []; file_counts = [] }) out
                h (ground (arith, f, c, g))
        ]
      ]

  search_shards-dirty :
      (parts : List Part) (e : DirtyEntry) (rs : List ShardResult)
      → get q dirty ≡ some e
      → search_shards env opts dirty parts ≡ some rs
      → AllNone rs
  unfolding search_shards
  search_shards-dirty parts e [] h f = tt
  search_shards-dirty [] e (r ∷ rs) h f = ground (arith, f)
  search_shards-dirty (p ∷ parts) e (r ∷ rs) h f =
      elim (Option-cases (search_shard env opts dirty p)) [
        | inl n ↦ ground (arith, f, n)
        | inr (a, g) ↦ elim (Option-cases (search_shards env opts dirty parts)) [
          | inl n ↦ ground (arith, f, g, n)
          | inr (bs, k) ↦
              let first : a ≡ r = ground (arith, f, g, k) in
              let others : bs ≡ rs = ground (arith, f, g, k) in
              (
                search_shard-dirty p e r h (g ∙ ap some first),
                search_shards-dirty parts e rs h (k ∙ ap some others),
              )
        ]
      ]

  never_full : (ms : List Match) → opts.limit ≡ 0 → is_full opts ms ≡ false
  unfolding is_full
  never_full ms z = ground (arith, z)

  merge-none :
      (rs : List ShardResult) (res : SearchResult)
      → opts.limit ≡ 0
      → AllNone rs
      → get q res.file_counts ≡ none
      → res.truncated ≡ false
      → (get q (merge opts rs res).file_counts ≡ none) × ((merge opts rs res).truncated ≡ false)
  unfolding merge
  merge-none [] res z a n f = (n, f)
  merge-none (r ∷ rs) res z a n f =
      let next = merge_one opts r res in
      let n' : get q next.file_counts ≡ none =
        unfold merge_one in put_all-none q r.file_counts res.file_counts a.0 n in
      let f' : next.truncated ≡ false = unfold merge_one in f in
      rw (never_full next.matches z) (merge-none rs next z a.1 n' f')

  add_dirty-counts :
      (p : Bytes) (hits : List Match) (res : SearchResult)
      → get q (add_dirty opts p hits res).file_counts ≡ (
          if bytes_eq p q
          then counted (length hits) (get q res.file_counts)
          else get q res.file_counts)
  unfolding add_dirty counted
  add_dirty-counts p hits res =
      let there = get-put p q (length hits) res.file_counts in
      elim (Bool-cases (length hits == 0)) [
        | inl c ↦ elim (Bool-cases (bytes_eq p q)) [
          | inl s ↦ rw (c, s) refl
          | inr s ↦ rw (c, s) refl
        ]
        | inr c ↦ rw c there
      ]

  counted_twice : (n : ℕ) (o : Option ℕ) → counted n (counted n o) ≡ counted n o
  unfolding counted
  counted_twice n o = ground arith

  same_hits :
      (p : Bytes)
      → bytes_eq p q ≡ true
      → length (dirty_hits env opts p) ≡ length (dirty_hits env opts q)
  same_hits p s = ap (λ (r : Bytes). length (dirty_hits env opts r)) ((bytes_eq_iff p q).0 s)

  -- What the scan of dirty files makes of the count of a path.
  scan_dirty-counts :
      (rels : List Bytes) (res : SearchResult)
      → opts.limit ≡ 0
      → get q (scan_dirty env opts rels res).file_counts ≡ (
          if listed q rels
          then counted (length (dirty_hits env opts q)) (get q res.file_counts)
          else get q res.file_counts)
  unfolding scan_dirty listed
  scan_dirty-counts [] res z = refl
  scan_dirty-counts (rel ∷ rels) res z =
      let next = add_dirty opts rel (dirty_hits env opts rel) res in
      let n = length (dirty_hits env opts q) in
      let o = get q res.file_counts in
      let first = add_dirty-counts rel (dirty_hits env opts rel) res in
      let rest = scan_dirty-counts rels next z in
      rw (never_full next.matches z) (
        rest ∙ elim (Bool-cases (bytes_eq rel q)) [
          | inl s ↦
              let now : get q next.file_counts ≡ counted n o =
                first
                ∙ ap (λ (b : Bool). if b then counted (length (dirty_hits env opts rel)) o else o) s
                ∙ ap (λ (k : ℕ). counted k o) (same_hits rel s) in
              ground (arith, s, now, counted_twice n o)
          | inr s ↦
              let now : get q next.file_counts ≡ o =
                first
                ∙ ap (λ (b : Bool). if b then counted (length (dirty_hits env opts rel)) o else o)
                    s in
              ground (arith, s, now)
        ])

finish-dirty :
    (env : Env) (opts : SearchOpts) (dirty : Dirty) (q : Bytes) (rs : List ShardResult)
    (e : DirtyEntry)
    → opts.limit ≡ 0
    → Distinct dirty
    → get q dirty ≡ some e
    → AllNone env opts dirty q rs
    → get q (finish env opts dirty rs).file_counts
      ≡ (if e.deleted then none else counted (length (dirty_hits env opts q)) none)
unfolding finish is_live
finish-dirty env opts dirty q rs e z u h a =
    let start : SearchResult = record { matches = []; file_counts = []; truncated = false } in
    let merged = merge opts rs start in
    let before = merge-none env opts dirty q rs start z a (unfold get in refl) refl in
    let scanned = scan_dirty-counts env opts dirty q (sort_paths (dirty_paths dirty)) merged z in
    let here : listed q (sort_paths (dirty_paths dirty)) ≡ not e.deleted =
      listed-sort_paths q (dirty_paths dirty) ∙ listed-dirty_paths q dirty u ∙ ap is_live h in
    rw before.1 (scanned ∙ ground (arith, here, before.0))

-- Without a limit, and whatever the shards hold, Search answers for a path on the dirty list by the file that
-- is on disk: its number of matches there, and nothing if it has none or is marked as deleted. The dirty list has
-- one entry for each path.
pub search-dirty :
    (env : Env) (opts : SearchOpts) (dirty : Dirty) (q : Bytes) (parts : List Part) (e : DirtyEntry)
    (res : SearchResult)
    → opts.limit ≡ 0
    → Distinct dirty
    → get q dirty ≡ some e
    → search env opts dirty parts ≡ some res
    → get q res.file_counts
      ≡ (if e.deleted then none else counted (length (dirty_hits env opts q)) none)
unfolding search
search-dirty env opts dirty q parts e res z u h f =
    elim (Option-cases (search_shards env opts dirty parts)) [
      | inl n ↦ ground (arith, f, n)
      | inr (rs, g) ↦
          let same : finish env opts dirty rs ≡ res = ground (arith, f, g) in
          ap (λ (r : SearchResult). get q r.file_counts) (sym same)
          ∙ finish-dirty env opts dirty q rs e z u h
              (search_shards-dirty env opts dirty q parts e rs h g)
    ]
