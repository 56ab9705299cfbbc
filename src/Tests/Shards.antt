-- ===== src/Tests/Shards.antt =====
-- The properties of a shard's sections and ranges, of internal/shard, at concrete inputs.
use gcgrep.Base.{◌≡◌, ◌≤◌, ◌↔◌, false, length, refl, none, some, List, [], ◌∷◌, ◌++◌, codes, arith}
use gcgrep.Go.Bytes.{index_byte}
use gcgrep.Shard.Engine.Verify.{Scan, match_content, match_content-bound}
use gcgrep.Shard.Build.{BuildFile, symbols_of, count_symbols}
use gcgrep.Shard.File.{Shard}
use gcgrep.Shard.Query.{file_defs}
use gcgrep.Shard.Symbols.Table.{file_defs-symbols_of}
use gcgrep.Shard.Batches.{bytes_lt}
use gcgrep.Shard.Engine.{ShardView, shard_for_path}
use gcgrep.Shard.Engine.Ranges.{InRange, IsOrdered, shard_for_path_iff}

abbrev main_file : BuildFile
main_file = record {
  path = codes "m.go";
  size = 9;
  mtime_ns = 1;
  defs = record { name = codes "main"; kind = codes "func"; container = []; line = 3 } ∷ [];
  content = none;
}

abbrev note_file : BuildFile
note_file = record { path = codes "n.txt"; size = 2; mtime_ns = 1; defs = []; content = none }

abbrev two_files : List BuildFile
two_files = note_file ∷ main_file ∷ []

abbrev written : Shard
written = record {
  size = 0;
  path_min = codes "m.go";
  path_max = codes "n.txt";
  num_files = 2;
  num_tri = 0;
  num_syms = count_symbols two_files;
  file_tbl = 64;
  path_blob = 128;
  tri_idx = 128;
  postings = 128;
  symbol_off = 3;
  content_off = 0;
  tri_keys = [];
  bytes = codes "hdr" ++ (symbols_of two_files [] ++ codes "end");
}

file_defs-symbols_of_example : file_defs written 1 ≡ some main_file.defs
file_defs-symbols_of_example =
    file_defs-symbols_of written two_files 1 main_file (codes "hdr") (codes "end") refl refl
      (omega arith) refl
      (
        (omega arith, tt),
        ((omega arith, ((omega arith, omega arith, omega arith, omega arith), tt)), tt),
      )
      refl

abbrev two_shards : List ShardView
two_shards =
    record { path_min = codes "a"; path_max = codes "c"; files = none }
    ∷ record { path_min = codes "d"; path_max = codes "f"; files = none }
    ∷ []

abbrev second : ShardView
second = record { path_min = codes "d"; path_max = codes "f"; files = none }

two_shards-IsOrdered : IsOrdered two_shards
unfolding bytes_lt
two_shards-IsOrdered = (refl, (refl, tt), (refl, tt, tt))

shard_for_path_iff_example :
    (shard_for_path two_shards (codes "e/x") ≡ some 1) ↔ InRange (codes "e/x") second
shard_for_path_iff_example =
    shard_for_path_iff two_shards (codes "e/x") 1 second two_shards-IsOrdered refl

abbrev first_a : Scan
first_a = record {
  find_first = λ line. index_byte line 97;
  max_columns = 0;
  limit = 1;
  files_only = false;
}

match_content-bound_example : length (match_content first_a (97 ∷ 10 ∷ 97 ∷ [])) ≤ 1
match_content-bound_example = match_content-bound first_a (97 ∷ 10 ∷ 97 ∷ []) (omega arith)
