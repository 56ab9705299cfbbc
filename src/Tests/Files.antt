-- ===== src/Tests/Files.antt =====
-- The properties of internal/shard and internal/daemon at concrete inputs.
use gcgrep.Base.{
  ◌≢◌, ◌⊎◌, ◌≡◌, refl, inl, true, false, none, some, List, [], ◌∷◌, ◌++◌, codes, length, arith,
}
use gcgrep.Go.Map.{get, bytes_key}
use gcgrep.Symbol.{Def}
use gcgrep.Shard.Varint.{append_uvarint, read_uvarint}
use gcgrep.Shard.Varint.RoundTrip.{read_uvarint-append_uvarint}
use gcgrep.Shard.Mapping.{Mapping, Call, unmapped, calls, IsBalanced, calls-IsBalanced}
use gcgrep.Shard.Batches.{
  BuildFile, ShardSizeConfig, group_by_dir_boundary, sort_files, concat,
  concat-group_by_dir_boundary,
}
use gcgrep.Shard.Engine.{DirtyEntry, Dirty, clear}
use gcgrep.Shard.Engine.Dirty.{Snapped, get-clear}
use gcgrep.Daemon.Stream.{Stream}

read_uvarint-append_uvarint_example :
    read_uvarint (append_uvarint (codes "ab") 300 ++ codes "c") 2
    ≡ some (300, length (append_uvarint (codes "ab") 300))
read_uvarint-append_uvarint_example =
    read_uvarint-append_uvarint (codes "ab") (codes "c") 300 (omega arith)

abbrev two_defs : List Def
two_defs =
    record { name = codes "Run"; kind = codes "method"; container = codes "App"; line = 12 }
    ∷ record { name = codes "main"; kind = codes "func"; container = []; line = 300 }
    ∷ []

abbrev four_calls : List Call
four_calls =
    Call.map_call (some (codes "x"))
    ∷ Call.map_call none
    ∷ Call.unmap_call
    ∷ Call.unmap_call
    ∷ Call.unmap_call
    ∷ []

unmapped-IsBalanced : IsBalanced unmapped
unfolding IsBalanced
unmapped-IsBalanced = inl (refl, refl, refl)

calls-IsBalanced_example : IsBalanced (calls four_calls unmapped)
calls-IsBalanced_example = calls-IsBalanced four_calls unmapped unmapped-IsBalanced

abbrev one_reader : Mapping
one_reader = record { mapped = some (codes "x"); refs = 1; open_file = true }

abbrev three_files : List BuildFile
three_files =
    record { rel = codes "b"; size = 6; mtime_ns = 0 }
    ∷ record { rel = codes "a"; size = 5; mtime_ns = 0 }
    ∷ record { rel = codes "c"; size = 1; mtime_ns = 0 }
    ∷ []

abbrev ten_bytes : ShardSizeConfig
ten_bytes = record { target_bytes = 10; min_bytes = 5 }

concat-group_by_dir_boundary_example :
    concat (group_by_dir_boundary three_files ten_bytes) ≡ sort_files three_files
concat-group_by_dir_boundary_example = concat-group_by_dir_boundary three_files ten_bytes

abbrev marked : DirtyEntry
marked = record { deleted = false }

abbrev gone : DirtyEntry
gone = record { deleted = true }

abbrev before : Dirty
before = (codes "a", marked) ∷ (codes "b", marked) ∷ []

abbrev now : Dirty
now = (codes "a", gone) ∷ (codes "b", marked) ∷ []

get-clear_example :
    ((e : DirtyEntry)
      → false ≡ false
      → Snapped (codes "a") e before
      → get (codes "a") now ≡ some e
      → get (codes "a") (clear (λ _. false) before now) ≡ none)
    × ((false ≡ true)
          ⊎ ((e : DirtyEntry) → Snapped (codes "a") e before → get (codes "a") now ≢ some e)
        → get (codes "a") (clear (λ _. false) before now) ≡ get (codes "a") now)
get-clear_example = get-clear (λ _. false) before now (codes "a")

abbrev two_streams : Stream
two_streams =
    (codes "d/a", record { size = 1; mtime_ns = 0 })
    ∷ (codes "e", record { size = 2; mtime_ns = 0 })
    ∷ []
