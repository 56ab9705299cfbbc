-- ===== src/Tests/Engine.antt =====
-- The properties of the disk engine's search at concrete inputs.
use gcgrep.Base.{
  ◌↔◌, ◌≤◌, true, All, ℕ, ◌*◌, ◌≡◌, ◌<◌, refl, false, Option, none, some, [], ◌∷◌, Bytes, codes,
  arith, length, ◌==◌, if◌then◌else◌,
}
use gcgrep.Go.Map.{listed, get, bytes_eq, bytes_key}
use gcgrep.Index.Search.{SearchOpts}
use gcgrep.Shard.Engine.{Dirty, DirtyEntry}
use gcgrep.Go.Bytes.{contains, index, has_prefix}
use gcgrep.Index.Lookup.{FileContent, is_filtered}
use gcgrep.Index.Lookup.Containing.{Lists}
use gcgrep.Shard.Engine.Lookup
use gcgrep.Shard.Engine.Lookup.Current.{IsCurrent, files_containing-IsCurrent}
use gcgrep.Shard.Engine.Verify.{Scan}
use gcgrep.Shard.Engine.Scan.{verify_file, verify_file-match_content}
use gcgrep.Shard.Engine.Search.{Env, dirty_hits, search, search_shards, finish}
use gcgrep.Shard.Engine.Search.Bound.{search-bound}
use gcgrep.Shard.Engine.Search.Disk.{Distinct, counted, search-dirty}

-- The query "a", as the first byte of a line.
abbrev starts_with_a : Bytes → Option ℕ
starts_with_a [] = none
starts_with_a (c ∷ s) = if c == 97 then some 0 else none

abbrev env : Env
env = record {
  find_first = starts_with_a;
  open_file = λ p. some (97 ∷ 10 ∷ 98 ∷ 10 ∷ 97 ∷ []);
  stat_size = λ p. some 5;
}

abbrev opts : SearchOpts
opts = record {
  literal = codes "a";
  path_match = none;
  files_only = false;
  limit = 0;
  plain_literal = [];
  fold_case = false;
  max_columns = 0;
  max_file_size = 0;
}

abbrev scan : Scan
scan = record { find_first = starts_with_a; max_columns = 0; limit = 1; files_only = false }

verify_file-match_content_example :
    verify_file scan (some (97 ∷ 10 ∷ 98 ∷ [])) none
    ≡ verify_file scan none (some (97 ∷ 10 ∷ 98 ∷ []))
verify_file-match_content_example = verify_file-match_content scan (97 ∷ 10 ∷ 98 ∷ []) none

abbrev one_dirty : Dirty
one_dirty = (codes "p", record { deleted = false }) ∷ []

one_dirty-Distinct : Distinct one_dirty
unfolding get
one_dirty-Distinct = (refl, tt)

p_dirty : get (codes "p") one_dirty ≡ some (record { deleted = false })
unfolding get bytes_eq
p_dirty = refl

answered : (o : SearchOpts) → search env o one_dirty [] ≡ some (finish env o one_dirty [])
unfolding search search_shards
answered o = refl

search-dirty_example :
    get (codes "p") (finish env opts one_dirty []).file_counts
    ≡ (if false then none else counted (length (dirty_hits env opts (codes "p"))) none)
search-dirty_example =
    search-dirty env opts one_dirty (codes "p") [] (record { deleted = false })
      (finish env opts one_dirty []) refl one_dirty-Distinct p_dirty (answered opts)

abbrev limited : SearchOpts
limited = record opts { limit = 1 }

search-bound_example :
    (length (finish env limited one_dirty []).matches < 2 * limited.limit)
    × (((finish env limited one_dirty []).truncated ≡ true)
        ↔ (limited.limit ≤ length (finish env limited one_dirty []).matches))
search-bound_example =
    search-bound env limited (omega arith) one_dirty [] (finish env limited one_dirty [])
      (answered limited)

abbrev disk : Lookup.Env
disk = record { read_file = λ p. some (codes "xay"); extract = λ p c. []; to_lower = λ s. s }

found :
    Lookup.files_containing disk (codes "a") none [] one_dirty
    ≡ some (record { path = codes "p"; content = codes "xay" } ∷ [])
unfolding Lookup.files_containing Lookup.visit_shards Lookup.visit_dirty Lookup.take_file listed
    is_filtered contains index has_prefix
found = refl

files_containing-IsCurrent_example :
    All (IsCurrent disk (codes "a")) (record { path = codes "p"; content = codes "xay" } ∷ [])
    × ((c : FileContent) (e : DirtyEntry)
        → get c.path one_dirty ≡ some e
        → e.deleted ≡ false
        → is_filtered none c.path ≡ false
        → IsCurrent disk (codes "a") c
        → Lists (record { path = codes "p"; content = codes "xay" } ∷ []) c)
files_containing-IsCurrent_example =
    files_containing-IsCurrent disk (codes "a") none [] one_dirty
      (record { path = codes "p"; content = codes "xay" } ∷ []) found
