-- ===== src/Index/Store.antt =====
-- internal/index/index.go: the store of indexed files and the operations that change it.
-- Its lock is held for the whole of each operation, so an operation is one step.
pub mod Live
pub mod Tables
pub mod Invariant
pub mod View
pub mod Sizes
use gcgrep.Base.{
  ℕ, zero, suc, ◌+◌, ◌-◌, ◌*◌, Bool, true, false, ◌&&◌, ◌||◌, not, Option, none, some, List, [],
  ◌∷◌, ◌++◌, map, Bytes, leb, ltb, if◌then◌else◌, length, get_elem?,
}
use gcgrep.Go.Bytes.{has_prefix}
use gcgrep.Go.Map.{Map, get, put, delete, bytes_eq, nat_key, bytes_key}
use gcgrep.Symbol.{Def}
use gcgrep.Index.Postings.{trigram_keys, post_keys}

-- FileMeta. An int64 is kept as its 64-bit pattern.
pub record FileMeta : Type 0 where
  pub path : Bytes
  pub size : ℕ
  pub mtime_ns : ℕ

-- fileEntry
pub record FileEntry : Type 0 where
  pub meta : FileMeta
  pub content : Bytes
  pub defs : List Def
  pub dead : Bool

-- Index, without its lock.
pub record Index : Type 0 where
  pub root : Bytes
  pub files : List FileEntry
  pub by_path : Map Bytes ℕ
  pub tri : Map ℕ (List ℕ)
  pub dead : ℕ

-- New
unfoldable pub new : Bytes → Index
new root = record { root = root; files = []; by_path = []; tri = []; dead = 0 }

-- ix.files[id].dead = true
unfoldable pub kill : ℕ → List FileEntry → List FileEntry
kill id [] = []
kill zero (f ∷ fs) = record f { dead = true } ∷ fs
kill (suc id) (f ∷ fs) = f ∷ kill id fs

-- removeLocked, whose id is looked up first.
unfoldable pub remove_at : Index → Bytes → Option ℕ → Index
unfolding kill
remove_at ix path none = ix
remove_at ix path (some id) = record ix {
  files = kill id ix.files;
  dead = ix.dead + 1;
  by_path = delete path ix.by_path;
}

unfoldable pub remove_locked : Index → Bytes → Index
unfolding remove_at
remove_locked ix path = remove_at ix path (get path ix.by_path)

unfoldable pub live_files : List FileEntry → List FileEntry
live_files [] = []
live_files (f ∷ fs) = let rest = live_files fs in if f.dead then rest else f ∷ rest

-- The last loop of maybeCompactLocked, over the files from id on.
unfoldable pub rebuild :
    List FileEntry → ℕ → Map Bytes ℕ → Map ℕ (List ℕ) → Map Bytes ℕ × Map ℕ (List ℕ)
rebuild [] id by_path tri = (by_path, tri)
rebuild (f ∷ fs) id by_path tri =
    rebuild fs (suc id) (put f.meta.path id by_path) (post_keys tri (trigram_keys f.content) id)

unfoldable pub compact : Index → Index
unfolding live_files rebuild
compact ix =
    let files = live_files ix.files in
    let (by_path, tri) = rebuild files 0 [] [] in
    record ix { files = files; by_path = by_path; tri = tri; dead = 0 }

abbrev compact_min_dead : ℕ
compact_min_dead = 64

abbrev compact_dead_ratio : ℕ
compact_dead_ratio = 4

-- maybeCompactLocked
unfoldable pub maybe_compact_locked : Index → Index
maybe_compact_locked ix =
    if ltb ix.dead compact_min_dead
    then ix
    else if ltb (ix.dead * compact_dead_ratio) (length ix.files - ix.dead)
    then ix
    else compact ix

-- AddWithKeys, up to the compaction. An id is a number without a bound, where the code has a uint32.
unfoldable pub insert_locked : Index → FileMeta → Bytes → List ℕ → List Def → Index
insert_locked ix meta content keys defs =
    let id = length ix.files in
    record ix {
      files = ix.files ++ record { meta = meta; content = content; defs = defs; dead = false } ∷ [];
      by_path = put meta.path id ix.by_path;
      tri = post_keys ix.tri keys id;
    }

unfoldable pub add_with_keys : Index → FileMeta → Bytes → List ℕ → List Def → Index
add_with_keys ix meta content keys defs =
    maybe_compact_locked (insert_locked (remove_locked ix meta.path) meta content keys defs)

-- Add; symbol.Extract is the argument.
unfoldable pub add : (Bytes → Bytes → List Def) → Index → FileMeta → Bytes → Index
add extract ix meta content =
    add_with_keys ix meta content (trigram_keys content) (extract meta.path content)

-- Remove
unfoldable pub remove : Index → Bytes → Index
remove ix path = maybe_compact_locked (remove_locked ix path)

-- p == dir || len(p) > len(prefix) && p[:len(prefix)] == prefix
unfoldable pub is_under : Bytes → Bytes → Bool
is_under dir p =
    bytes_eq p dir
    || (ltb (length (dir ++ b'/' ∷ [])) (length p) && has_prefix p (dir ++ b'/' ∷ []))

abbrev remove_if : (Bytes → Bool) → Index → Bytes → Index
remove_if test ix p = if test p then remove_locked ix p else ix

unfoldable pub remove_each : (Bytes → Bool) → Map Bytes ℕ → Index → Index
remove_each test [] ix = ix
remove_each test ((p, _) ∷ m) ix = remove_each test m (remove_if test ix p)

-- RemovePrefix
unfoldable pub remove_prefix : Index → Bytes → Index
remove_prefix ix dir = maybe_compact_locked (remove_each (is_under dir) ix.by_path ix)

-- Meta
unfoldable pub meta_of : Index → Bytes → Option FileMeta
meta_of ix path = elim (get path ix.by_path) [
  | none ↦ none
  | some id ↦ elim (get_elem? ix.files id) [ none ↦ none | some f ↦ some f.meta ]
]

-- NumFiles
unfoldable pub num_files : Index → ℕ
num_files ix = length ix.by_path

-- Paths
unfoldable pub paths : Index → List Bytes
paths ix = map (λ (p : Bytes × ℕ). p.0) ix.by_path

-- Snapshot, as one list of entries for the three parallel ones.
unfoldable pub snapshot : Index → List (FileMeta × Bytes × List Def)
snapshot ix = map (λ (f : FileEntry). (f.meta, f.content, f.defs)) (live_files ix.files)
