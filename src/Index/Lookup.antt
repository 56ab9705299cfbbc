-- ===== src/Index/Lookup.antt =====
-- internal/index/index.go: the lookups of definitions by name or file, and of files by their content.
pub mod Containing
use gcgrep.Base.{
  ℕ, zero, suc, ◌+◌, ◌-◌, Bool, true, false, ◌&&◌, ◌||◌, not, Option, none, some, List, [], ◌∷◌,
  ◌++◌, map, Bytes, newline, if◌then◌else◌, get_elem?, take, drop,
}
use gcgrep.Go.Bytes.{index_byte, contains}
use gcgrep.Go.Map.{get, bytes_eq, bytes_key}
use gcgrep.Symbol.{Def}
use gcgrep.Index.Store.{FileEntry, Index}
use gcgrep.Index.Search.{candidates_locked}

-- DefHit
pub record DefHit : Type 0 where
  pub path : Bytes
  pub def : Def
  pub text : Bytes

-- FileContent
pub record FileContent : Type 0 where
  pub path : Bytes
  pub content : Bytes

-- The loop of LineText: what is left behind n newlines.
unfoldable pub skip_lines : ℕ → Bytes → Option Bytes
unfolding index_byte
skip_lines zero content = some content
skip_lines (suc n) content = elim (index_byte content newline) [
  | none ↦ none
  | some i ↦ skip_lines n (drop (suc i) content)
]

-- LineText
unfoldable pub line_text : Bytes → ℕ → Bytes
unfolding skip_lines index_byte
line_text content line = elim (skip_lines (line - 1) content) [
  | none ↦ []
  | some rest ↦ elim (index_byte rest newline) [ none ↦ rest | some i ↦ take i rest ]
]

abbrev pub hit_of : Bytes → Bytes → Def → DefHit
hit_of path content d = record { path = path; def = d; text = line_text content d.line }

-- `pathMatch != nil && !pathMatch(path)`
unfoldable pub is_filtered : Option (Bytes → Bool) → Bytes → Bool
is_filtered none path = false
is_filtered (some ok) path = not (ok path)

-- The test that FilesContaining makes on a candidate.
unfoldable pub is_wanted : Bytes → Option (Bytes → Bool) → FileEntry → Bool
unfolding is_filtered contains
is_wanted lit path_match f =
    not (f.dead || is_filtered path_match f.meta.path) && contains f.content lit

unfoldable pub add_file :
    Bytes → Option (Bytes → Bool) → Option FileEntry → List FileContent → List FileContent
unfolding is_wanted
add_file lit path_match none rest = rest
add_file lit path_match (some f) rest =
    if is_wanted lit path_match f
    then record { path = f.meta.path; content = f.content } ∷ rest
    else rest

-- The loop of FilesContaining over the candidates.
unfoldable pub containing :
    Bytes → Option (Bytes → Bool) → List FileEntry → List ℕ → List FileContent
unfolding add_file
containing lit path_match files [] = []
containing lit path_match files (id ∷ ids) =
    add_file lit path_match (get_elem? files id) (containing lit path_match files ids)

-- strings.ToLower is the argument `to_lower`.
module _ (to_lower : Bytes → Bytes) where
  abbrev folded : Bool → Bytes → Bytes
  folded fold s = if fold then to_lower s else s

  -- The loop over the definitions of one file.
  unfoldable pub named_defs : Bool → Bytes → Bytes → Bytes → List Def → List DefHit
  named_defs fold want path content [] = []
  named_defs fold want path content (d ∷ ds) =
      let rest = named_defs fold want path content ds in
      if bytes_eq (folded fold d.name) want then hit_of path content d ∷ rest else rest

  -- The loop over the files; a file without definitions adds nothing.
  unfoldable pub defs_of : Bool → Bytes → Option (Bytes → Bool) → List FileEntry → List DefHit
  unfolding named_defs is_filtered
  defs_of fold want path_match [] = []
  defs_of fold want path_match (f ∷ fs) =
      let rest = defs_of fold want path_match fs in
      if f.dead || is_filtered path_match f.meta.path
      then rest
      else named_defs fold want f.meta.path f.content f.defs ++ rest

  -- Defs
  unfoldable pub defs : Bytes → Bool → Option (Bytes → Bool) → Index → List DefHit
  unfolding defs_of
  defs name fold path_match ix = defs_of fold (folded fold name) path_match ix.files

  -- FilesContaining
  unfoldable pub files_containing : Bytes → Option (Bytes → Bool) → Index → List FileContent
  unfolding containing candidates_locked
  files_containing lit path_match ix =
      containing lit path_match ix.files (candidates_locked ix (to_lower lit))

-- FileDefs: none where the file is not indexed.
unfoldable pub file_defs : Bytes → Index → Option (List DefHit)
file_defs path ix = elim (get path ix.by_path) [
  | none ↦ none
  | some id ↦ elim (get_elem? ix.files id) [
    | none ↦ none
    | some f ↦ some (map (hit_of path f.content) f.defs)
  ]
]
