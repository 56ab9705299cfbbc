-- ===== src/Shard/Engine.antt =====
-- internal/shard/engine.go: the list of dirty paths and which shards a rebuild replaces.
-- Each operation on the dirty list holds its lock, so it is one step; a shard set is never changed in place.
pub mod Dirty
pub mod Verify
pub mod Scan
pub mod Search
pub mod Lookup
pub mod Ranges
use gcgrep.Base.{
  ℕ, zero, suc, ◌+◌, ◌-◌, ◌/◌, Bool, true, false, ◌&&◌, ◌||◌, not, Option, none, some, List, [],
  ◌∷◌, ◌++◌, Bytes, codes, ltb, leb, ◌==◌, if◌then◌else◌, length, get_elem?,
}
use gcgrep.Go.Bytes.{has_prefix}
use gcgrep.Go.Map.{Map, get, put, delete, bytes_eq, nat_key, bytes_key}
use gcgrep.Index.Store.{FileMeta}
use gcgrep.Index.Postings.{member}
use gcgrep.Shard.Batches.{BuildFile, bytes_lt}

-- dirtyEntry
pub record DirtyEntry : Type 0 where
  pub deleted : Bool

abbrev pub Dirty : Type 0
Dirty = Map Bytes DirtyEntry

-- What the engine reads of a shard: its range, and its files, or none where the mapping fails.
pub record ShardView : Type 0 where
  pub path_min : Bytes
  pub path_max : Bytes
  pub files : Option (List FileMeta)

-- sort.Search for the first shard whose least path lies after path. hi - lo falls in each turn.
unfoldable pub first_after : ℕ → List ShardView → Bytes → ℕ → ℕ → ℕ
unfolding bytes_lt
first_after zero shards path lo hi = lo
first_after (suc fuel) shards path lo hi =
    let mid = lo + (hi - lo) / 2 in
    let right = first_after fuel shards path (mid + 1) hi in
    let left = first_after fuel shards path lo mid in
    if ltb lo hi
    then elim (get_elem? shards mid) [
      | none ↦ lo
      | some s ↦ if bytes_lt path s.path_min then left else right
    ]
    else lo

-- shardForPath: none is -1.
unfoldable pub shard_for_path : List ShardView → Bytes → Option ℕ
unfolding first_after
shard_for_path shards path = elim (first_after (length shards) shards path 0 (length shards)) [
  | zero ↦ none
  | suc i ↦ elim (get_elem? shards i) [
    | none ↦ none
    | some s ↦
        if not (bytes_lt path s.path_min) && not (bytes_lt s.path_max path) then some i else none
  ]
]

-- shardsForPrefix: the loop ends at the first shard past the prefix.
unfoldable pub shards_for_prefix : Bytes → List ShardView → List ShardView
unfolding bytes_lt has_prefix
shards_for_prefix prefix [] = []
shards_for_prefix prefix (s ∷ shards) =
    let rest = shards_for_prefix prefix shards in
    if bytes_lt s.path_max prefix
    then rest
    else if has_prefix s.path_min prefix || not (bytes_lt prefix s.path_min)
    then s ∷ rest
    else []

-- MarkDirty
unfoldable pub mark_dirty : Bytes → Dirty → Dirty
mark_dirty rel dirty = put rel (record { deleted = false }) dirty

-- MarkDeleted
unfoldable pub mark_deleted : Bytes → Dirty → Dirty
mark_deleted rel dirty = put rel (record { deleted = true }) dirty

-- The paths of one shard that a directory's removal deletes.
unfoldable pub files_below : Bytes → List FileMeta → List Bytes
files_below dir [] = []
files_below dir (f ∷ fs) =
    let rest = files_below dir fs in
    if bytes_eq f.path dir || has_prefix f.path (dir ++ codes "/") then f.path ∷ rest else rest

unfoldable pub to_delete : Bytes → List ShardView → List Bytes
unfolding files_below
to_delete dir [] = []
to_delete dir (s ∷ shards) = elim s.files [
  | none ↦ to_delete dir shards
  | some fs ↦ files_below dir fs ++ to_delete dir shards
]

unfoldable pub mark_each : List Bytes → Dirty → Dirty
unfolding mark_deleted
mark_each [] dirty = dirty
mark_each (p ∷ ps) dirty = mark_each ps (mark_deleted p dirty)

-- MarkDeletedPrefix
unfoldable pub mark_deleted_prefix : List ShardView → Bytes → Dirty → Dirty
unfolding to_delete mark_each shards_for_prefix
mark_deleted_prefix shards dir dirty =
    mark_each (to_delete dir (shards_for_prefix (dir ++ codes "/") shards)) dirty

-- onDisk: of two files with one path the last stays.
unfoldable pub on_disk : List BuildFile → Map Bytes BuildFile → Map Bytes BuildFile
on_disk [] m = m
on_disk (f ∷ fs) m = on_disk fs (put f.rel f m)

-- What Reconcile marks for one file of a shard.
unfoldable pub reconcile_file : Map Bytes BuildFile → FileMeta → Dirty → Dirty
reconcile_file disk fm dirty = elim (get fm.path disk) [
  | none ↦ put fm.path (record { deleted = true }) dirty
  | some df ↦
      if df.size == fm.size && df.mtime_ns == fm.mtime_ns
      then dirty
      else put fm.path (record { deleted = false }) dirty
]

unfoldable pub reconcile_files : Map Bytes BuildFile → List FileMeta → Dirty → Dirty
unfolding reconcile_file
reconcile_files disk [] dirty = dirty
reconcile_files disk (f ∷ fs) dirty = reconcile_files disk fs (reconcile_file disk f dirty)

-- The files of every shard that could be mapped.
unfoldable pub mapped_files : List ShardView → List FileMeta
mapped_files [] = []
mapped_files (s ∷ shards) = elim s.files [
  | none ↦ mapped_files shards
  | some fs ↦ fs ++ mapped_files shards
]

unfoldable pub in_files : Bytes → List FileMeta → Bool
in_files p [] = false
in_files p (f ∷ fs) = bytes_eq f.path p || in_files p fs

unfoldable pub mark_new : List FileMeta → List BuildFile → Dirty → Dirty
unfolding in_files
mark_new known [] dirty = dirty
mark_new known (f ∷ fs) dirty =
    mark_new known fs
      (if in_files f.rel known then dirty else put f.rel (record { deleted = false }) dirty)

-- The marking of Reconcile, given the shards that could be opened and the files on disk.
unfoldable pub reconcile : List ShardView → List BuildFile → Dirty → Dirty
unfolding on_disk reconcile_files mapped_files mark_new
reconcile shards disk dirty =
    mark_new (mapped_files shards) disk
      (reconcile_files (on_disk disk []) (mapped_files shards) dirty)

-- dirtyPerShard: the dirty paths that lie in the range of each shard, by its index.
unfoldable pub dirty_per_shard : List ShardView → Dirty → Map ℕ ℕ
unfolding shard_for_path
dirty_per_shard shards [] = []
dirty_per_shard shards ((p, _) ∷ dirty) =
    let rest = dirty_per_shard shards dirty in
    elim (shard_for_path shards p) [
      | none ↦ rest
      | some si ↦ put si (elim (get si rest) [ none ↦ 1 | some n ↦ n + 1 ]) rest
    ]

-- The paths of the new files, before their existence is asked.
unfoldable pub new_paths : List ShardView → Dirty → List Bytes
unfolding shard_for_path
new_paths shards [] = []
new_paths shards ((p, e) ∷ dirty) =
    let rest = new_paths shards dirty in
    elim (shard_for_path shards p) [ none ↦ if e.deleted then rest else p ∷ rest | some si ↦ rest ]

-- The shards with at least threshold dirty paths, or every one with a dirty path where the dirty list
-- itself is no longer than the threshold.
unfoldable pub over : ℕ → Map ℕ ℕ → List ℕ
over threshold [] = []
over threshold ((si, n) ∷ counts) =
    let rest = over threshold counts in if leb threshold n then si ∷ rest else rest

unfoldable pub affected : ℕ → List ShardView → Dirty → List ℕ
unfolding dirty_per_shard over
affected threshold shards dirty =
    if leb (length dirty) threshold
    then over 0 (dirty_per_shard shards dirty)
    else over threshold (dirty_per_shard shards dirty)

-- Whether a path's entry waits for a later rebuild.
unfoldable pub deferred : ℕ → List ShardView → Dirty → Bytes → Bool
unfolding affected shard_for_path member
deferred threshold shards dirty p =
    if leb (length dirty) threshold then false else elim (shard_for_path shards p) [
      | none ↦ false
      | some si ↦ not (member si (affected threshold shards dirty))
    ]

unfoldable pub same_entry : Option DirtyEntry → DirtyEntry → Bool
same_entry none e = false
same_entry (some e') e = if e'.deleted then e.deleted else not e.deleted

-- The end of rebuild: the entries of the snapshot go, unless they are deferred or were changed meanwhile.
unfoldable pub clear : (Bytes → Bool) → Dirty → Dirty → Dirty
unfolding same_entry
clear keep [] dirty = dirty
clear keep ((p, e) ∷ snap) dirty =
    clear keep snap (if not (keep p) && same_entry (get p dirty) e then delete p dirty else dirty)

-- cleanPending, with what os.Remove answers for each file: the files that could not be removed stay.
unfoldable pub clean_pending : (Bytes → Bool) → List Bytes → List Bytes
clean_pending removed [] = []
clean_pending removed (p ∷ ps) =
    let rest = clean_pending removed ps in if removed p then rest else p ∷ rest
