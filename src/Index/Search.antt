-- ===== src/Index/Search.antt =====
-- internal/index/index.go: candidates by trigram, the search over them, and one match per line.
pub mod Candidates
pub mod Counts
pub mod Scan
pub mod Plain
pub mod LineNumbers
pub mod Window
use gcgrep.Base.{
  ℕ, zero, suc, ◌+◌, ◌-◌, ◌/◌, Bool, true, false, ◌&&◌, ◌||◌, not, Option, none, some, List, [],
  ◌∷◌, ◌++◌, map, Bytes, newline, leb, ltb, ◌==◌, if◌then◌else◌, length, get_elem?, get_or, take,
  drop,
}
use gcgrep.Go.Bytes.{index_byte, last_index_byte}
use gcgrep.Go.Map.{Map, get, put, nat_key, bytes_key}
use gcgrep.Index.Literal.{literal_find_all}
use gcgrep.Index.Matcher.{Regexps}
use gcgrep.Index.Postings.{trigrams_of, intersect_sorted}
use gcgrep.Index.Store.{FileEntry, Index}

-- for k := range seen: the posting lists, or none if a key has none.
unfoldable pub collect : Map ℕ (List ℕ) → List ℕ → Option (List (List ℕ))
collect tri [] = some []
collect tri (k ∷ ks) = elim (get k tri) [
  | none ↦ none
  | some l ↦ elim (collect tri ks) [ none ↦ none | some ls ↦ some (l ∷ ls) ]
]

-- The loop that finds the shortest list: `i` is the index of the next, `size` the length of the
-- list at `best`.
unfoldable pub shortest : List (List ℕ) → ℕ → ℕ → ℕ → ℕ
shortest [] i best size = best
shortest (l ∷ ls) i best size =
    shortest ls (suc i) (if ltb (length l) size then i else best)
      (if ltb (length l) size then length l else size)

-- The loop that intersects all but the list at `skip`.
unfoldable pub intersect_rest : List (List ℕ) → ℕ → ℕ → List ℕ → List ℕ
intersect_rest [] i skip out = out
intersect_rest (l ∷ ls) i skip out =
    let same = intersect_rest ls (suc i) skip out in
    let next = intersect_rest ls (suc i) skip (intersect_sorted out l) in
    if i == skip then same else if length (intersect_sorted out l) == 0 then [] else next

unfoldable pub intersect_all : List (List ℕ) → List ℕ
unfolding shortest intersect_rest
intersect_all lists =
    let best = shortest lists 0 0 (length (get_or lists 0 [])) in
    intersect_rest lists 0 best (get_or lists best [])

-- candidatesLocked
unfoldable pub candidates_locked : Index → Bytes → List ℕ
unfolding collect intersect_all
candidates_locked ix lit =
    if ltb (length lit) 3
    then map (λ (p : Bytes × ℕ). p.1) ix.by_path
    else elim (collect ix.tri (trigrams_of lit [])) [ none ↦ [] | some lists ↦ intersect_all lists ]

pub record Match : Type 0 where
  pub path : Bytes
  pub line : ℕ
  pub text : Bytes
  pub col : ℕ
  pub line_len : ℕ

pub record SearchOpts : Type 0 where
  pub literal : Bytes
  pub path_match : Option (Bytes → Bool)
  pub files_only : Bool
  pub limit : ℕ
  pub plain_literal : Bytes
  pub fold_case : Bool
  pub max_columns : ℕ
  pub max_file_size : ℕ

pub record SearchResult : Type 0 where
  pub matches : List Match
  pub file_counts : Map Bytes ℕ
  pub truncated : Bool

-- `for pos < loc[0]`: the offset and the line number to which the loop advances. Each round moves
-- on by a byte at least, so the fuel `target - pos` is enough.
unfoldable pub advance : ℕ → Bytes → ℕ → ℕ → ℕ → ℕ × ℕ
advance zero content target pos line_no = (pos, line_no)
advance (suc fuel) content target pos line_no =
    if ltb pos target
    then elim (index_byte (take (target - pos) (drop pos content)) newline) [
      | none ↦ (target, line_no)
      | some nl ↦ advance fuel content target (pos + nl + 1) (line_no + 1)
    ]
    else (pos, line_no)

unfoldable pub line_start : Bytes → ℕ → ℕ
line_start content a = elim (last_index_byte (take a content) newline) [ some i ↦ i + 1 | none ↦ 0 ]

unfoldable pub line_end : Bytes → ℕ → ℕ
line_end content b = elim (index_byte (drop b content) newline) [
  | some i ↦ b + i
  | none ↦ length content
]

-- The Match of one location; a line longer than the limit travels without its text.
unfoldable pub match_of : Bytes → Bytes → ℕ → ℕ → ℕ × ℕ → Match
unfolding line_start line_end
match_of path content max_cols line_no (a, b) =
    let start = line_start content a in
    let stop = line_end content b in
    record {
      path = path;
      line = line_no;
      text =
          if max_cols == 0 || leb (stop - start) max_cols
          then take (stop - start) (drop start content)
          else [];
      col = a - start;
      line_len = stop - start;
    }

-- appendLineMatches; `last` is lastLine, none for -1.
unfoldable pub append_line_matches :
    Bytes → Bytes → ℕ → ℕ → List (ℕ × ℕ) → ℕ → ℕ → Option ℕ → List Match → List Match
unfolding advance match_of
append_line_matches path content limit max_cols [] line_no pos last matches = matches
append_line_matches path content limit max_cols ((a, b) ∷ locs) line_no pos last matches =
    let (pos', line') = advance (a - pos) content a pos line_no in
    let again : Bool = elim last [ none ↦ false | some l ↦ line' == l ] in
    let matches' = matches ++ match_of path content max_cols line' (a, b) ∷ [] in
    let skip = append_line_matches path content limit max_cols locs line' pos' last matches in
    let next =
      append_line_matches path content limit max_cols locs line' pos' (some line') matches' in
    if again
    then skip
    else if not (limit == 0) && leb limit (length matches')
    then matches'
    else next

-- The tests that pass over a file.
unfoldable pub passed_over : SearchOpts → FileEntry → Bool
passed_over opts f =
    f.dead
    || (ltb 0 opts.max_file_size && ltb opts.max_file_size f.meta.size)
    || elim opts.path_match [ none ↦ false | some p ↦ not (p f.meta.path) ]

module _ (rx : Regexps) (re : rx.Regexp) (opts : SearchOpts) where
  unfoldable pub locations : Bytes → List (ℕ × ℕ)
  locations content =
      if ltb 0 (length opts.plain_literal)
      then literal_find_all content opts.plain_literal opts.fold_case
      else rx.find_all_index re content

  -- A file that is searched: the result after it.
  unfoldable pub search_file : FileEntry → SearchResult → SearchResult
  unfolding locations append_line_matches
  search_file f res = elim (locations f.content) [
    | [] ↦ res
    | loc ∷ locs ↦ record res {
      file_counts = put f.meta.path (length (loc ∷ locs)) res.file_counts;
      matches =
          if opts.files_only
          then res.matches
          else append_line_matches f.meta.path f.content opts.limit opts.max_columns (loc ∷ locs) 1
              0 none res.matches;
    }
  ]

  -- The loop of Search. (An id beyond the files would panic.)
  unfoldable pub search_loop : List FileEntry → List ℕ → SearchResult → SearchResult
  unfolding search_file passed_over
  search_loop files [] res = res
  search_loop files (id ∷ ids) res =
      let pass = search_loop files ids res in
      elim (get_elem? files id) [
        | none ↦ pass
        | some f ↦
            let res' = search_file f res in
            let next = search_loop files ids res' in
            if passed_over opts f
            then pass
            else if not opts.files_only
                && not (opts.limit == 0)
                && leb opts.limit (length res'.matches)
                && not (length (locations f.content) == 0)
            then record res' { truncated = true }
            else next
      ]

  -- Search
  unfoldable pub search : Index → SearchResult
  unfolding search_loop candidates_locked
  search ix =
      search_loop ix.files (candidates_locked ix opts.literal)
        (record { matches = []; file_counts = []; truncated = false })

-- TruncateWindow; the ellipsis is three bytes.
abbrev pub ellipsis : Bytes
ellipsis = 0xe2 ∷ 0x80 ∷ 0xa6 ∷ []

-- The window's start and end.
unfoldable pub window : ℕ → ℕ → ℕ → ℕ × ℕ
window len match_off max_cols =
    let start = if ltb (max_cols / 2) match_off then match_off - max_cols / 2 else 0 in
    if ltb len (start + max_cols) then (len - max_cols, len) else (start, start + max_cols)

unfoldable pub truncate_window : Bytes → ℕ → ℕ → Bytes
unfolding window
truncate_window line match_off max_cols =
    if max_cols == 0 || leb (length line) max_cols
    then line
    else let (start, stop) = window (length line) match_off max_cols in
      (if ltb 0 start then ellipsis else [])
      ++ (take (stop - start) (drop start line)
          ++ (if ltb stop (length line) then ellipsis else []))
