-- ===== src/Tests/Store.antt =====
-- The properties of the store and the search of internal/index at concrete inputs.
use gcgrep.Base.{
  ◌≡◌, ◌↔◌, refl, inl, true, false, none, some, List, [], ◌∷◌, map, Bytes, codes, arith, get_elem?,
  drop,
}
use gcgrep.Go.Bytes.{has_prefix}
use gcgrep.Go.Map.{get, put, bytes_eq, bytes_key}
use gcgrep.Symbol.{Def}
use gcgrep.Index.{lower}
use gcgrep.Index.Matcher.{Regexps}
use gcgrep.Index.Postings.Intersect.{Holds}
use gcgrep.Index.Store.{
  FileMeta, FileEntry, Index, new, add, meta_of, remove_prefix, maybe_compact_locked, remove_each,
  add_with_keys, insert_locked, remove_locked, is_under,
}
use gcgrep.Index.Store.Invariant.{IsValid, new-IsValid}
use gcgrep.Index.Store.View.{
  Op, adding, removing_prefix, apply_all, map_all, entry_of, meta_in, store_refines_map,
  apply_all-IsValid,
}
use gcgrep.Index.Search.{SearchOpts, search, candidates_locked, append_line_matches}
use gcgrep.Index.Search.Candidates.{candidates_complete}
use gcgrep.Index.Search.Counts.{scan_file}
use gcgrep.Index.Search.Scan.{search-counts}
use gcgrep.Index.Search.Plain.{search_plain-counts}
use gcgrep.Index.Search.LineNumbers.{line_matches, append_line_matches_lines}
use gcgrep.Index.Lookup.{FileContent, files_containing}
use gcgrep.Index.Lookup.Containing.{Lists, IsWanted, files_containing_iff}

abbrev no_defs : Bytes → Bytes → List Def
no_defs path content = []

abbrev meta : Bytes → FileMeta
meta path = record { path = path; size = 3; mtime_ns = 7 }

abbrev three_steps : List Op
three_steps =
    adding (meta (codes "d/a")) (codes "xyz")
    ∷ adding (meta (codes "b")) (codes "Xyzxyz")
    ∷ removing_prefix (codes "d")
    ∷ []

abbrev one_left : Index
one_left = apply_all no_defs three_steps (new (codes "r"))

one_left-IsValid : IsValid one_left
one_left-IsValid = apply_all-IsValid no_defs three_steps (new (codes "r")) (new-IsValid (codes "r"))

store_refines_map_example :
    IsValid one_left
    × (entry_of one_left (codes "b") ≡ map_all no_defs three_steps (λ _. none) (codes "b"))
    × (meta_of one_left (codes "b") ≡ meta_in (map_all no_defs three_steps (λ _. none) (codes "b")))
store_refines_map_example = store_refines_map no_defs (codes "r") three_steps (codes "b")

abbrev b_file : FileEntry
b_file = record { meta = meta (codes "b"); content = codes "Xyzxyz"; defs = []; dead = false }

found : get_elem? one_left.files 1 ≡ some b_file
unfolding apply_all remove_prefix maybe_compact_locked remove_each add add_with_keys insert_locked
    remove_locked get new put bytes_eq is_under has_prefix
found = refl

occurs : has_prefix (map lower (drop 2 (codes "Xyzxyz"))) (map lower (codes "zXy")) ≡ true
unfolding has_prefix lower
occurs = refl

candidates_complete_example : Holds (candidates_locked one_left (map lower (codes "zXy"))) 1
candidates_complete_example =
    candidates_complete one_left (codes "zXy") 1 b_file one_left-IsValid refl found refl (2, occurs)

-- A regexp package that finds nothing.
abbrev no_regexps : Regexps
no_regexps = record {
  Regexp = Bytes;
  quote_meta = λ s. s;
  compile = λ s. some s;
  find_index = λ re s. none;
  find_all_index = λ re s. [];
  parse = λ s. none;
}

abbrev for_xyz : SearchOpts
for_xyz = record {
  literal = map lower (codes "xYz");
  path_match = none;
  files_only = false;
  limit = 0;
  plain_literal = codes "xYz";
  fold_case = true;
  max_columns = 0;
  max_file_size = 0;
}

search_plain-counts_example :
    get (codes "b") (search no_regexps (codes "xYz") for_xyz one_left).file_counts
    ≡ scan_file no_regexps (codes "xYz") for_xyz (entry_of one_left (codes "b"))
search_plain-counts_example =
    search_plain-counts no_regexps (codes "xYz") for_xyz 120 (codes "Yz") one_left (codes "b")
      one_left-IsValid refl refl refl

abbrev for_short : SearchOpts
for_short = record for_xyz { literal = codes "x" }

search-counts_example :
    get (codes "b") (search no_regexps (codes "x") for_short one_left).file_counts
    ≡ scan_file no_regexps (codes "x") for_short (entry_of one_left (codes "b"))
search-counts_example =
    search-counts no_regexps (codes "x") for_short one_left (codes "b") one_left-IsValid refl
      (inl refl)

append_line_matches_lines_example :
    append_line_matches (codes "p") (97 ∷ 10 ∷ 97 ∷ []) 0 0 ((0, 1) ∷ (2, 3) ∷ []) 1 0 none []
    ≡ line_matches (codes "p") (97 ∷ 10 ∷ 97 ∷ []) 0 ((0, 1) ∷ (2, 3) ∷ []) none
append_line_matches_lines_example =
    append_line_matches_lines (codes "p") (97 ∷ 10 ∷ 97 ∷ []) 0 ((0, 1) ∷ (2, 3) ∷ []) []
      (omega arith, omega arith, (omega arith, omega arith, tt))

abbrev b_content : FileContent
b_content = record { path = codes "b"; content = codes "Xyzxyz" }

files_containing_iff_example :
    Lists (files_containing (map lower) (codes "zxy") none one_left) b_content
    ↔ IsWanted (codes "zxy") none one_left b_content
files_containing_iff_example =
    files_containing_iff (codes "zxy") none (map lower) one_left b_content one_left-IsValid refl
      refl
