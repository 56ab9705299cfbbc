-- ===== src/Shard/Engine/Search.antt =====
-- internal/shard/engine.go: Search, over the shards and then over the dirty files on disk.
-- The shards are taken in their order: a worker fills the slot of its shard only. The shared flag `truncated` is
-- never set, so no worker stops early.
pub mod Disk
pub mod Bound
use gcgrep.Base.{
  ℕ, zero, suc, ◌+◌, Bool, true, false, ◌&&◌, ◌||◌, not, Option, none, some, List, [], ◌∷◌, ◌++◌,
  map, Bytes, ltb, leb, ◌==◌, if◌then◌else◌, length, take, ◌>>=◌,
}
use gcgrep.Go.Map.{Map, get, put, bytes_key}
use gcgrep.Index.Store.{FileMeta}
use gcgrep.Index.Search.{Match, SearchOpts, SearchResult}
use gcgrep.Shard.Batches.{bytes_lt}
use gcgrep.Shard.File.{Shard, file, file_content}
use gcgrep.Shard.Query.{has_trigrams, candidates}
use gcgrep.Shard.Engine.{Dirty}
use gcgrep.Shard.Engine.Verify.{Scan, Hit}
use gcgrep.Shard.Engine.Scan.{verify_file}

-- What Search asks of its surroundings: FindFirst of the matcher, and os.Open and os.Stat below the root.
pub record Env : Type 0 where
  pub find_first : Bytes → Option ℕ
  pub open_file : Bytes → Option Bytes
  pub stat_size : Bytes → Option ℕ

-- A shard, and whether it can be mapped.
pub record Part : Type 0 where
  pub shard : Shard
  pub mapped : Bool

-- shardResult
pub record ShardResult : Type 0 where
  pub matches : List Match
  pub file_counts : Map Bytes ℕ

abbrev pub scan_of : Env → SearchOpts → Scan
scan_of env opts = record {
  find_first = env.find_first;
  max_columns = opts.max_columns;
  limit = opts.limit;
  files_only = opts.files_only;
}

unfoldable pub at_path : Bytes → Hit → Match
at_path path h = record {
  path = path;
  line = h.line;
  text = h.text;
  col = h.col;
  line_len = h.line_len;
}

-- The guards of both loops on a file's size and path.
unfoldable pub skipped : SearchOpts → Bytes → ℕ → Bool
skipped opts path size =
    ltb 0 opts.max_file_size && ltb opts.max_file_size size
    || elim opts.path_match [ none ↦ false | some ok ↦ not (ok path) ]

-- The matches of one file, with its stored content if it has one.
unfoldable pub file_hits : Env → SearchOpts → Bytes → Option Bytes → List Match
unfolding at_path verify_file
file_hits env opts path inline =
    map (at_path path) (verify_file (scan_of env opts) (env.open_file path) inline)

unfoldable pub add_hits : SearchOpts → Bytes → List Match → ShardResult → ShardResult
add_hits opts path hits r = if length hits == 0 then r else record {
  matches = if opts.files_only then r.matches else r.matches ++ hits;
  file_counts = put path (length hits) r.file_counts;
}

-- One candidate of a shard.
unfoldable pub search_file :
    Env → SearchOpts → Dirty → FileMeta → Option Bytes → ShardResult → ShardResult
unfolding skipped file_hits add_hits
search_file env opts dirty fm inline r = elim (get fm.path dirty) [
  | some _ ↦ r
  | none ↦
      if skipped opts fm.path fm.size
      then r
      else add_hits opts fm.path (file_hits env opts fm.path inline) r
]

-- The content that is read of a shard for a candidate: of one that is passed over, nothing.
unfoldable pub inline_of : SearchOpts → Dirty → Shard → FileMeta → ℕ → Option (Option Bytes)
unfolding skipped file_content
inline_of opts dirty s fm id = elim (get fm.path dirty) [
  | some _ ↦ some none
  | none ↦ if skipped opts fm.path fm.size then some none else file_content s id
]

-- The loop over the candidates; none where a read of the shard panics.
unfoldable pub search_candidates :
    Env → SearchOpts → Dirty → Shard → List ℕ → ShardResult → Option ShardResult
unfolding search_file file inline_of
search_candidates env opts dirty s [] r = some r
search_candidates env opts dirty s (id ∷ ids) r = elim (file s id) [
  | none ↦ none
  | some fm ↦ elim (inline_of opts dirty s fm id) [
    | none ↦ none
    | some inline ↦ search_candidates env opts dirty s ids (search_file env opts dirty fm inline r)
  ]
]

-- The slot of one shard.
unfoldable pub search_shard : Env → SearchOpts → Dirty → Part → Option ShardResult
unfolding search_candidates has_trigrams candidates
search_shard env opts dirty p =
    if not (has_trigrams p.shard opts.literal) || not p.mapped
    then some (record { matches = []; file_counts = [] })
    else elim (candidates p.shard opts.literal) [
      | none ↦ none
      | some ids ↦
          search_candidates env opts dirty p.shard ids (record { matches = []; file_counts = [] })
    ]

unfoldable pub search_shards : Env → SearchOpts → Dirty → List Part → Option (List ShardResult)
unfolding search_shard
search_shards env opts dirty [] = some []
search_shards env opts dirty (p ∷ parts) = elim (search_shard env opts dirty p) [
  | none ↦ none
  | some r ↦ elim (search_shards env opts dirty parts) [ none ↦ none | some rs ↦ some (r ∷ rs) ]
]

-- for p, c := range sr.fileCounts
unfoldable pub put_all : Map Bytes ℕ → Map Bytes ℕ → Map Bytes ℕ
put_all [] m = m
put_all ((p, c) ∷ counts) m = put_all counts (put p c m)

-- `opts.Limit > 0 && len(res.Matches) >= opts.Limit`
unfoldable pub is_full : SearchOpts → List Match → Bool
is_full opts ms = ltb 0 opts.limit && leb opts.limit (length ms)

-- The merge of one slot.
unfoldable pub merge_one : SearchOpts → ShardResult → SearchResult → SearchResult
unfolding put_all
merge_one opts r res = record {
  matches = if opts.files_only then res.matches else res.matches ++ r.matches;
  file_counts = put_all r.file_counts res.file_counts;
  truncated = res.truncated;
}

-- The merge, in the order of the shards. It returns a cut result where the limit is reached.
unfoldable pub merge : SearchOpts → List ShardResult → SearchResult → SearchResult
unfolding merge_one is_full
merge opts [] res = res
merge opts (r ∷ rs) res =
    let next = merge_one opts r res in
    let rest = merge opts rs next in
    if is_full opts next.matches
    then record {
      matches = take opts.limit next.matches;
      file_counts = next.file_counts;
      truncated = true;
    }
    else rest

-- dirtyPaths, before they are sorted
unfoldable pub dirty_paths : Dirty → List Bytes
dirty_paths [] = []
dirty_paths ((p, e) ∷ dirty) = let rest = dirty_paths dirty in if e.deleted then rest else p ∷ rest

-- sort.Strings
unfoldable pub insert_path : Bytes → List Bytes → List Bytes
unfolding bytes_lt
insert_path p [] = p ∷ []
insert_path p (q ∷ qs) =
    let rest = insert_path p qs in if bytes_lt q p then q ∷ rest else p ∷ q ∷ qs

unfoldable pub sort_paths : List Bytes → List Bytes
unfolding insert_path
sort_paths [] = []
sort_paths (p ∷ ps) = insert_path p (sort_paths ps)

-- The matches of a dirty file, where the loop comes to count them.
unfoldable pub dirty_hits : Env → SearchOpts → Bytes → List Match
unfolding skipped file_hits
dirty_hits env opts rel = elim (env.stat_size rel) [
  | none ↦ []
  | some size ↦ if skipped opts rel size then [] else file_hits env opts rel none
]

unfoldable pub add_dirty : SearchOpts → Bytes → List Match → SearchResult → SearchResult
add_dirty opts rel hits res = if length hits == 0 then res else record {
  matches = if opts.files_only then res.matches else res.matches ++ hits;
  file_counts = put rel (length hits) res.file_counts;
  truncated = res.truncated;
}

-- The loop over the dirty files. The test of the limit stands behind the file's matches; a file that is skipped
-- does not come to it, but it cannot hold then, since it did not before.
unfoldable pub scan_dirty : Env → SearchOpts → List Bytes → SearchResult → SearchResult
unfolding dirty_hits add_dirty is_full
scan_dirty env opts [] res = res
scan_dirty env opts (rel ∷ rels) res =
    let next = add_dirty opts rel (dirty_hits env opts rel) res in
    let rest = scan_dirty env opts rels next in
    if is_full opts next.matches then record next { truncated = true } else rest

-- Search after the workers are done: the merge may return at once.
unfoldable pub finish : Env → SearchOpts → Dirty → List ShardResult → SearchResult
unfolding merge scan_dirty sort_paths dirty_paths
finish env opts dirty rs =
    let merged = merge opts rs (record { matches = []; file_counts = []; truncated = false }) in
    if merged.truncated then merged else scan_dirty env opts (sort_paths (dirty_paths dirty)) merged

-- Search
unfoldable pub search : Env → SearchOpts → Dirty → List Part → Option SearchResult
unfolding search_shards finish
search env opts dirty parts = elim (search_shards env opts dirty parts) [
  | none ↦ none
  | some rs ↦ some (finish env opts dirty rs)
]
