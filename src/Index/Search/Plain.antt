-- ===== src/Index/Search/Plain.antt =====
-- Search for a plain literal, with the literal that the pattern itself gives for pruning.
use gcgrep.Base.{
  ℕ, ◌≡◌, refl, ◌∙◌, ◌⊎◌, inl, inr, Bool, true, false, List, [], ◌∷◌, map, Bytes, ltb, length,
  length-map, drop, arith, Bool-cases,
}
use gcgrep.Go.Bytes.{has_prefix, Occurs}
use gcgrep.Go.Map.{get, bytes_key}
use gcgrep.Index.{lower}
use gcgrep.Index.Literal.{literal_find_all}
use gcgrep.Index.Literal.FindAll.{
  Occurrences, literal_find_all_exact, literal_find_all_fold, map-drop,
}
use gcgrep.Index.Matcher.{Regexps}
use gcgrep.Index.Store.{Index}
use gcgrep.Index.Store.Invariant.{IsValid}
use gcgrep.Index.Store.View.{entry_of}
use gcgrep.Index.Search.{SearchOpts, locations, search}
use gcgrep.Index.Search.Candidates.{FoldOccurs}
use gcgrep.Index.Search.Counts.{scan_file}
use gcgrep.Index.Search.Scan.{Prunes, search-counts}

has_prefix-lower :
    (s lit : Bytes) → has_prefix s lit ≡ true → has_prefix (map lower s) (map lower lit) ≡ true
unfolding has_prefix
has_prefix-lower s [] h = refl
has_prefix-lower [] (l ∷ ls) h = h
has_prefix-lower (c ∷ s) (l ∷ ls) h = ground (arith, has_prefix-lower s ls)

-- The first pair of a search that finds something is an occurrence.
first_occurrence :
    (lit content : Bytes) (locs : List (ℕ × ℕ))
    → Occurrences lit content locs
    → (locs ≡ []) ⊎ ((p : ℕ) × Occurs lit content p)
first_occurrence lit content [] o = inl refl
first_occurrence lit content ((a, b) ∷ locs) o = inr (a, o.1)

found-FoldOccurs :
    (fold : Bool) (content : Bytes) (l : ℕ) (ls : Bytes)
    → (literal_find_all content (l ∷ ls) fold ≡ []) ⊎ FoldOccurs (l ∷ ls) content
found-FoldOccurs false content l ls =
    go (first_occurrence (l ∷ ls) content _ (literal_find_all_exact content l ls).0)
  where
    go :
        (literal_find_all content (l ∷ ls) false ≡ []) ⊎ ((p : ℕ) × Occurs (l ∷ ls) content p)
        → (literal_find_all content (l ∷ ls) false ≡ []) ⊎ FoldOccurs (l ∷ ls) content
    go (inl e) = inl e
    go (inr (p, o)) = inr (p, has_prefix-lower (drop p content) (l ∷ ls) o)
found-FoldOccurs true content l ls = go (
    first_occurrence (map lower (l ∷ ls)) (map lower content) _
      (literal_find_all_exact (map lower content) (lower l) (map lower ls)).0)
  where
    go :
        (literal_find_all (map lower content) (map lower (l ∷ ls)) false ≡ [])
          ⊎ ((p : ℕ) × Occurs (map lower (l ∷ ls)) (map lower content) p)
        → (literal_find_all content (l ∷ ls) true ≡ []) ⊎ FoldOccurs (l ∷ ls) content
    go (inl e) = inl (literal_find_all_fold content (l ∷ ls) ∙ e)
    go (inr (p, o)) = inr (p, rw (map-drop lower p content) o)

module _ (rx : Regexps) (re : rx.Regexp) (opts : SearchOpts) where
  locations_plain :
      (l : ℕ) (ls content : Bytes)
      → opts.plain_literal ≡ l ∷ ls
      → locations rx re opts content ≡ literal_find_all content (l ∷ ls) opts.fold_case
  unfolding locations
  locations_plain l ls content e = ground arith

  plain-Prunes :
      (l : ℕ) (ls : Bytes)
      → opts.plain_literal ≡ l ∷ ls
      → opts.literal ≡ map lower (l ∷ ls)
      → Prunes rx re opts
  plain-Prunes l ls e same = elim (Bool-cases (ltb (length (l ∷ ls)) 3)) [
    | inl short ↦ inl (rw (same, length-map lower (l ∷ ls)) short)
    | inr long ↦ inr (
      l ∷ ls,
      same,
      long,
      λ content. rw (locations_plain l ls content e) (found-FoldOccurs opts.fold_case content l ls),
    )
  ]

  -- A search for a plain literal, pruned by its own lowercased bytes and without a limit: in a valid
  -- store the count of every path is the number of matches that scanning its live file gives.
  pub search_plain-counts :
      (l : ℕ) (ls : Bytes) (ix : Index) (q : Bytes)
      → IsValid ix
      → opts.limit ≡ 0
      → opts.plain_literal ≡ l ∷ ls
      → opts.literal ≡ map lower (l ∷ ls)
      → get q (search rx re opts ix).file_counts ≡ scan_file rx re opts (entry_of ix q)
  search_plain-counts l ls ix q v h e same =
      search-counts rx re opts ix q v h (plain-Prunes l ls e same)
