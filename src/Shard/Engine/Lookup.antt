-- ===== src/Shard/Engine/Lookup.antt =====
-- internal/shard/engine.go: the lookups of definitions and of files by their content. The shards may be behind
-- the disk; what is on disk is the argument `read_file`.
pub mod Current
use gcgrep.Base.{
  ℕ, zero, suc, ◌+◌, Bool, true, false, ◌&&◌, ◌||◌, not, Option, none, some, List, [], ◌∷◌, ◌++◌,
  map, Bytes, if◌then◌else◌, length, ◌==◌,
}
use gcgrep.Go.Bytes.{contains}
use gcgrep.Go.Map.{listed, bytes_eq}
use gcgrep.Symbol.{Def}
use gcgrep.Index.Store.{FileMeta}
use gcgrep.Index.Lookup.{DefHit, FileContent, line_text, hit_of, is_filtered}
use gcgrep.Daemon.Utf16.{decode_utf16_by_unit, is_binary}
use gcgrep.Shard.File.{Shard, file}
use gcgrep.Shard.Query.{count_up, candidates, file_defs as shard_file_defs}
use gcgrep.Shard.Engine.{Dirty}
use gcgrep.Shard.Engine.Search.{Part}

-- os.ReadFile below the root, symbol.Extract and strings.ToLower.
pub record Env : Type 0 where
  pub read_file : Bytes → Option Bytes
  pub extract : Bytes → Bytes → List Def
  pub to_lower : Bytes → Bytes

-- readLine
unfoldable pub read_line : Env → Bytes → ℕ → Bytes
unfolding line_text
read_line env rel line_no = elim (env.read_file rel) [
  | none ↦ []
  | some content ↦ line_text content line_no
]

abbrev folded : Env → Bool → Bytes → Bytes
folded env fold s = if fold then env.to_lower s else s

-- The definitions of one file of a shard that have the name; their lines are read from disk.
unfoldable pub stored_hits : Env → Bool → Bytes → Bytes → List Def → List DefHit
unfolding read_line
stored_hits env fold want path [] = []
stored_hits env fold want path (d ∷ ds) =
    let rest = stored_hits env fold want path ds in
    if bytes_eq (folded env fold d.name) want
    then record { path = path; def = d; text = read_line env path d.line } ∷ rest
    else rest

-- The loop over the files of a shard; none where a read of the shard panics.
unfoldable pub shard_defs :
    Env → Bool → Bytes → Option (Bytes → Bool) → Shard → List ℕ → Option (List DefHit)
unfolding stored_hits is_filtered
shard_defs env fold want path_match s [] = some []
shard_defs env fold want path_match s (i ∷ is) = elim (file s i) [
  | none ↦ none
  | some fm ↦ elim (shard_defs env fold want path_match s is) [
    | none ↦ none
    | some rest ↦ if is_filtered path_match fm.path then some rest else elim (shard_file_defs s i) [
      | none ↦ none
      | some ds ↦ some (stored_hits env fold want fm.path ds ++ rest)
    ]
  ]
]

unfoldable pub shards_defs :
    Env → Bool → Bytes → Option (Bytes → Bool) → List Part → Option (List DefHit)
unfolding shard_defs
shards_defs env fold want path_match [] = some []
shards_defs env fold want path_match (p ∷ parts) =
    elim (shards_defs env fold want path_match parts) [
      | none ↦ none
      | some rest ↦
          if not p.mapped
          then some rest
          else elim (shard_defs env fold want path_match p.shard (count_up 0 p.shard.num_files)) [
            | none ↦ none
            | some hits ↦ some (hits ++ rest)
          ]
    ]

-- What is read of a file: its text, or none where it cannot be read or is binary.
unfoldable pub text_of : Option Bytes → Option Bytes
unfolding is_binary
text_of none = none
text_of (some content) =
    let text : Bytes = elim (decode_utf16_by_unit content) [
      | none ↦ content
      | some decoded ↦ decoded
    ] in
    if is_binary text then none else some text

unfoldable pub named_hits : Env → Bool → Bytes → Bytes → Bytes → List Def → List DefHit
named_hits env fold want path text [] = []
named_hits env fold want path text (d ∷ ds) =
    let rest = named_hits env fold want path text ds in
    if bytes_eq (folded env fold d.name) want then hit_of path text d ∷ rest else rest

-- The loop over the dirty files.
unfoldable pub dirty_defs : Env → Bool → Bytes → Option (Bytes → Bool) → Dirty → List DefHit
unfolding text_of named_hits is_filtered
dirty_defs env fold want path_match [] = []
dirty_defs env fold want path_match ((p, e) ∷ dirty) =
    let rest = dirty_defs env fold want path_match dirty in
    if e.deleted || is_filtered path_match p then rest else elim (text_of (env.read_file p)) [
      | none ↦ rest
      | some text ↦ named_hits env fold want p text (env.extract p text) ++ rest
    ]

-- Defs
unfoldable pub defs :
    Env → Bytes → Bool → Option (Bytes → Bool) → List Part → Dirty → Option (List DefHit)
unfolding shards_defs dirty_defs
defs env name fold path_match parts dirty =
    elim (shards_defs env fold (folded env fold name) path_match parts) [
      | none ↦ none
      | some hits ↦ some (hits ++ dirty_defs env fold (folded env fold name) path_match dirty)
    ]

-- FileDefs: none where the file cannot be read or is binary.
unfoldable pub file_defs : Env → Bytes → Option (List DefHit)
unfolding text_of
file_defs env path = elim (text_of (env.read_file path)) [
  | none ↦ none
  | some text ↦ some (map (hit_of path text) (env.extract path text))
]

-- The file is appended if it is read and contains the literal.
unfoldable pub take_file : Bytes → Bytes → Option Bytes → List FileContent → List FileContent
unfolding contains
take_file lit path none out = out
take_file lit path (some content) out =
    if contains content lit then out ++ (record { path = path; content = content } ∷ []) else out

-- `seen` and `out` of FilesContaining.
pub record Found : Type 0 where
  pub seen : List Bytes
  pub out : List FileContent

-- One candidate of a shard.
unfoldable pub visit : Env → Bytes → Option (Bytes → Bool) → Bytes → Found → Found
unfolding take_file listed is_filtered
visit env lit path_match path r =
    if listed path r.seen || is_filtered path_match path
    then r
    else record { seen = path ∷ r.seen; out = take_file lit path (env.read_file path) r.out }

unfoldable pub visit_candidates :
    Env → Bytes → Option (Bytes → Bool) → Shard → List ℕ → Found → Option Found
unfolding visit
visit_candidates env lit path_match s [] r = some r
visit_candidates env lit path_match s (id ∷ ids) r = elim (file s id) [
  | none ↦ none
  | some fm ↦ visit_candidates env lit path_match s ids (visit env lit path_match fm.path r)
]

unfoldable pub visit_shards : Env → Bytes → Option (Bytes → Bool) → List Part → Found → Option Found
unfolding visit_candidates candidates
visit_shards env lit path_match [] r = some r
visit_shards env lit path_match (p ∷ parts) r =
    if not p.mapped
    then visit_shards env lit path_match parts r
    else elim (candidates p.shard (env.to_lower lit)) [
      | none ↦ none
      | some ids ↦ elim (visit_candidates env lit path_match p.shard ids r) [
        | none ↦ none
        | some r' ↦ visit_shards env lit path_match parts r'
      ]
    ]

-- The loop over the dirty files that no shard had as a candidate.
unfoldable pub visit_dirty :
    Env → Bytes → Option (Bytes → Bool) → List Bytes → Dirty → List FileContent → List FileContent
unfolding take_file listed is_filtered
visit_dirty env lit path_match seen [] out = out
visit_dirty env lit path_match seen ((p, e) ∷ dirty) out =
    visit_dirty env lit path_match seen dirty (
      if e.deleted || listed p seen || is_filtered path_match p
      then out
      else take_file lit p (env.read_file p) out)

-- FilesContaining
unfoldable pub files_containing :
    Env → Bytes → Option (Bytes → Bool) → List Part → Dirty → Option (List FileContent)
unfolding visit_shards visit_dirty
files_containing env lit path_match parts dirty =
    elim (visit_shards env lit path_match parts (record { seen = []; out = [] })) [
      | none ↦ none
      | some r ↦ some (visit_dirty env lit path_match r.seen dirty r.out)
    ]
