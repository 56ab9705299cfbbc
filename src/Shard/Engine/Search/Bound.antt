-- ===== src/Shard/Engine/Search/Bound.antt =====
-- internal/shard/engine.go: how many matches Search returns.
use gcgrep.Base.{
  ◌↔◌, ◌∙◌, ℕ, ◌+◌, ◌*◌, ◌≤◌, ◌<◌, ◌≡◌, ◌⊎◌, refl, ap, sym, inl, inr, arith, Bool-cases,
  Option-cases, true, false, Option, none, some, List, [], ◌∷◌, ◌++◌, Bytes, if◌then◌else◌, if_both,
  ◌==◌, length, length-append, length-take, length-map,
}
use gcgrep.Index.Search.{Match, SearchOpts, SearchResult}
use gcgrep.Shard.Engine.{Dirty}
use gcgrep.Shard.Engine.Verify.{Scan, Hit, match_content-bound}
use gcgrep.Shard.Engine.Scan.{verify_file, verify_file-match_content}
use gcgrep.Shard.Engine.Search.{
  Env, Part, ShardResult, scan_of, at_path, skipped, file_hits, is_full, merge_one, merge,
  dirty_hits, add_dirty, scan_dirty, finish, search_shards, search, sort_paths, dirty_paths,
}

verify_file-bound :
    (q : Scan) (opened inline : Option Bytes)
    → 0 < q.limit
    → length (verify_file q opened inline) ≤ q.limit
unfolding verify_file
verify_file-bound q opened (some c) h = match_content-bound q c h
verify_file-bound q none none h = omega arith
verify_file-bound q (some s) none h =
    let same = ap (λ (l : List Hit). length l) (verify_file-match_content q s none) in
    omega (arith, same, match_content-bound q s h)

module _ (env : Env) (opts : SearchOpts) (h : 0 < opts.limit) where
  stat_hits-bound :
      (rel : Bytes) (o : Option ℕ)
      → length (elim o as (λ x. List Match) [
        | none ↦ []
        | some size ↦ if skipped opts rel size then [] else file_hits env opts rel none
      ])
        ≤ opts.limit
  unfolding file_hits
  stat_hits-bound rel none = omega arith
  stat_hits-bound rel (some size) =
      let b = verify_file-bound (scan_of env opts) (env.open_file rel) none h in
      let n = length-map (at_path rel) (verify_file (scan_of env opts) (env.open_file rel) none) in
      if_both (λ (l : List Match). length l ≤ opts.limit) (skipped opts rel size) _ _ (omega arith)
        (omega (arith, b, n))

  dirty_hits-bound : (rel : Bytes) → length (dirty_hits env opts rel) ≤ opts.limit
  unfolding dirty_hits
  dirty_hits-bound rel = stat_hits-bound rel (env.stat_size rel)

  full : (ms : List Match) → is_full opts ms ≡ true → opts.limit ≤ length ms
  unfolding is_full
  full ms e = ground (arith, e)

  not_full : (ms : List Match) → is_full opts ms ≡ false → length ms < opts.limit
  unfolding is_full
  not_full ms e = ground (arith, e, h)

  abbrev Merged : SearchResult → Type 0
  Merged out =
      (out.truncated ≡ false) × (length out.matches < opts.limit)
      ⊎ (out.truncated ≡ true) × (length out.matches ≡ opts.limit)

  merge-bound :
      (rs : List ShardResult) (res : SearchResult)
      → res.truncated ≡ false
      → length res.matches < opts.limit
      → Merged (merge opts rs res)
  unfolding merge
  merge-bound [] res f l = inl (f, l)
  merge-bound (r ∷ rs) res f l =
      let next = merge_one opts r res in
      elim (Bool-cases (is_full opts next.matches)) [
        | inl e ↦
            let cut = length-take opts.limit next.matches in
            rw e (inr (refl, omega (arith, cut, full next.matches e)))
        | inr e ↦
            let f' : next.truncated ≡ false = unfold merge_one in f in
            rw e (merge-bound rs next f' (not_full next.matches e))
      ]

  add_dirty-bound :
      (rel : Bytes) (hits : List Match) (res : SearchResult)
      → length (add_dirty opts rel hits res).matches ≤ length res.matches + length hits
  unfolding add_dirty
  add_dirty-bound rel hits res =
      let more = length-append res.matches hits in
      elim (Bool-cases (length hits == 0)) [
        | inl c ↦ rw c (omega arith)
        | inr c ↦ rw c (
            if_both (λ (l : List Match). length l ≤ length res.matches + length hits)
              opts.files_only res.matches (res.matches ++ hits) (omega arith) (omega (arith, more)))
      ]

  add_dirty-truncated :
      (rel : Bytes) (hits : List Match) (res : SearchResult)
      → (add_dirty opts rel hits res).truncated ≡ res.truncated
  unfolding add_dirty
  add_dirty-truncated rel hits res = elim (Bool-cases (length hits == 0)) [
    | inl c ↦ rw c refl
    | inr c ↦ rw c refl
  ]

  -- Fewer matches than twice the limit, and cut short exactly where the limit is reached.
  abbrev Limited : SearchResult → Type 0
  Limited out =
      (length out.matches < 2 * opts.limit)
      × ((out.truncated ≡ true) ↔ (opts.limit ≤ length out.matches))

  open_end :
      (out : SearchResult) → out.truncated ≡ false → length out.matches < opts.limit → Limited out
  open_end out f l =
      (omega (arith, l), ((λ e. ground (arith, e, f)), (λ e. absurd (omega (arith, e, l)))))

  scan_dirty-Limited :
      (rels : List Bytes) (res : SearchResult)
      → res.truncated ≡ false
      → length res.matches < opts.limit
      → Limited (scan_dirty env opts rels res)
  unfolding scan_dirty
  scan_dirty-Limited [] res f l = open_end res f l
  scan_dirty-Limited (rel ∷ rels) res f l =
      let next = add_dirty opts rel (dirty_hits env opts rel) res in
      let more = add_dirty-bound rel (dirty_hits env opts rel) res in
      elim (Bool-cases (is_full opts next.matches)) [
        | inl e ↦
            let reached = full next.matches e in
            rw e (omega (arith, more, l, dirty_hits-bound rel), ((λ x. reached), (λ x. refl)))
        | inr e ↦
            let f' = add_dirty-truncated rel (dirty_hits env opts rel) res ∙ f in
            rw e (scan_dirty-Limited rels next f' (not_full next.matches e))
      ]

  abbrev start : SearchResult
  start = record { matches = []; file_counts = []; truncated = false }

  finish-Limited : (dirty : Dirty) (rs : List ShardResult) → Limited (finish env opts dirty rs)
  unfolding finish
  finish-Limited dirty rs =
      let merged = merge opts rs start in
      elim (merge-bound rs start refl h) [
        | inl (f, l) ↦ rw f (scan_dirty-Limited (sort_paths (dirty_paths dirty)) merged f l)
        | inr (f, l) ↦ rw f (omega (arith, l, h), ((λ x. omega (arith, l)), (λ x. f)))
      ]

  -- With a positive limit, Search returns fewer than twice as many matches, and its result says that it is
  -- truncated exactly where the matches reach the limit.
  pub search-bound :
      (dirty : Dirty) (parts : List Part) (res : SearchResult)
      → search env opts dirty parts ≡ some res
      → (length res.matches < 2 * opts.limit)
        × ((res.truncated ≡ true) ↔ (opts.limit ≤ length res.matches))
  unfolding search
  search-bound dirty parts res e = elim (Option-cases (search_shards env opts dirty parts)) [
    | inl n ↦ ground (arith, e, n)
    | inr (rs, f) ↦
        let same : finish env opts dirty rs ≡ res = ground (arith, e, f) in
        rw (sym same) (finish-Limited dirty rs)
  ]
