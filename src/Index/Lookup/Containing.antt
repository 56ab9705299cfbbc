-- ===== src/Index/Lookup/Containing.antt =====
-- internal/index/index.go: which files FilesContaining returns.
use gcgrep.Base.{
  ℕ, ◌≡◌, ◌⊎◌, ◌↔◌, refl, ap, sym, inl, inr, arith, Option-cases, Bool, true, false, Option, none,
  some, List, [], ◌∷◌, map, Bytes, ltb, if◌then◌else◌, if_both, length, get_elem?, drop,
}
use gcgrep.Go.Bytes.{has_prefix, index, contains, index-some}
use gcgrep.Index.{lower}
use gcgrep.Index.Postings.Intersect.{Holds}
use gcgrep.Index.Store.{FileEntry, Index}
use gcgrep.Index.Store.Invariant.{IsValid}
use gcgrep.Index.Search.{candidates_locked}
use gcgrep.Index.Search.Candidates.{FoldOccurs, candidates_complete}
use gcgrep.Index.Lookup.{
  FileContent, is_filtered, is_wanted, add_file, containing, files_containing,
}

-- The file is in the list.
abbrev pub Lists : List FileContent → FileContent → Type 0
Lists [] c = ⊥
Lists (x ∷ xs) c = (x ≡ c) ⊎ Lists xs c

-- The file stands in the store, live, passes the filter and contains the literal.
pub record IsWanted (lit : Bytes) (path_match : Option (Bytes → Bool)) (ix : Index)
    (c : FileContent) : Type 0 where
  pub id : ℕ
  pub file : FileEntry
  pub there : get_elem? ix.files id ≡ some file
  pub same : record { path = file.meta.path; content = file.content } ≡ c
  pub live : file.dead ≡ false
  pub passes : is_filtered path_match file.meta.path ≡ false
  pub has_lit : contains file.content lit ≡ true

has_prefix-map :
    (s p : Bytes) → has_prefix s p ≡ true → has_prefix (map lower s) (map lower p) ≡ true
unfolding has_prefix
has_prefix-map s [] h = refl
has_prefix-map [] (c ∷ p) h = ground (arith, h)
has_prefix-map (d ∷ s) (c ∷ p) h =
    let rest = has_prefix-map s p (ground (arith, h)) in
    let same : d ≡ c = ground (arith, h) in let head = ap lower same in ground (arith, rest, head)

contains-FoldOccurs : (s lit : Bytes) → contains s lit ≡ true → FoldOccurs lit s
unfolding contains
contains-FoldOccurs s lit h = elim (Option-cases (index s lit)) [
  | inl n ↦ ground (arith, h, n)
  | inr (i, e) ↦ (i, has_prefix-map (drop i s) lit (index-some s lit i e).0)
]

module _ (lit : Bytes) (path_match : Option (Bytes → Bool)) where
  abbrev view : FileEntry → FileContent
  view f = record { path = f.meta.path; content = f.content }

  add_file_later :
      (o : Option FileEntry) (rest : List FileContent) (c : FileContent)
      → Lists rest c
      → Lists (add_file lit path_match o rest) c
  unfolding add_file
  add_file_later none rest c h = h
  add_file_later (some f) rest c h =
      if_both (λ (l : List FileContent). Lists l c) (is_wanted lit path_match f) (view f ∷ rest)
        rest (inr h) h

  add_file_cases :
      (o : Option FileEntry) (rest : List FileContent) (c : FileContent)
      → Lists (add_file lit path_match o rest) c
      → ((f : FileEntry) × (o ≡ some f) × (is_wanted lit path_match f ≡ true) × (view f ≡ c))
        ⊎ Lists rest c
  unfolding add_file
  add_file_cases none rest c h = inr h
  add_file_cases (some f) rest c h = wanted (is_wanted lit path_match f) refl h
    where
      wanted :
          (b : Bool)
          → is_wanted lit path_match f ≡ b
          → Lists (if b then view f ∷ rest else rest) c
          → ((g : FileEntry) × (some f ≡ some g)
              × (is_wanted lit path_match g ≡ true)
              × (view g ≡ c))
            ⊎ Lists rest c
      wanted true e (inl s) = inl (f, refl, e, s)
      wanted true e (inr m) = inr m
      wanted false e m = inr m

  containing-Lists :
      (files : List FileEntry) (ids : List ℕ) (id : ℕ) (f : FileEntry) (c : FileContent)
      → Holds ids id
      → get_elem? files id ≡ some f
      → is_wanted lit path_match f ≡ true
      → view f ≡ c
      → Lists (containing lit path_match files ids) c
  unfolding containing add_file
  containing-Lists files [] id f c h e w s = absurd h
  containing-Lists files (i ∷ ids) id f c (inr later) e w s =
      add_file_later (get_elem? files i) _ c (containing-Lists files ids id f c later e w s)
  containing-Lists files (i ∷ ids) id f c (inl here) e w s = rw (sym here) (rw e (rw w (inl s)))

  containing_found :
      (files : List FileEntry) (ids : List ℕ) (c : FileContent)
      → Lists (containing lit path_match files ids) c
      → (id : ℕ) × (f : FileEntry) × (get_elem? files id ≡ some f)
        × (is_wanted lit path_match f ≡ true)
        × (view f ≡ c)
  unfolding containing
  containing_found files [] c h = absurd h
  containing_found files (i ∷ ids) c h =
      elim (add_file_cases (get_elem? files i) (containing lit path_match files ids) c h) [
        | inl (f, e, w, s) ↦ (i, f, e, w, s)
        | inr m ↦ containing_found files ids c m
      ]

  -- FilesContaining returns exactly the files of the store that are live, pass the filter and contain the literal,
  -- byte for byte, when the store is valid, the literal has three bytes or more, and strings.ToLower folds
  -- it as the index folds ASCII letters.
  pub files_containing_iff :
      (to_lower : Bytes → Bytes) (ix : Index) (c : FileContent)
      → IsValid ix
      → ltb (length lit) 3 ≡ false
      → to_lower lit ≡ map lower lit
      → Lists (files_containing to_lower lit path_match ix) c ↔ IsWanted lit path_match ix c
  unfolding files_containing
  files_containing_iff to_lower ix c v long low = (
    (λ h.
        let (id, f, e, w, s) =
          containing_found ix.files (candidates_locked ix (to_lower lit)) c h in
        record {
          id = id;
          file = f;
          there = e;
          same = s;
          live = unfold is_wanted in ground (arith, w);
          passes = unfold is_wanted in ground (arith, w);
          has_lit = unfold is_wanted in ground (arith, w);
        }),
    (λ w.
        let wanted : is_wanted lit path_match w.file ≡ true =
          unfold is_wanted in ground (arith, w.live, w.passes, w.has_lit) in
        let held =
          candidates_complete ix lit w.id w.file v long w.there w.live
            (contains-FoldOccurs w.file.content lit w.has_lit) in
        containing-Lists ix.files (candidates_locked ix (to_lower lit)) w.id w.file c (rw low held)
          w.there wanted w.same),
  )
