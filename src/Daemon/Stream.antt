-- ===== src/Daemon/Stream.antt =====
-- internal/daemon/stream.go: the manifest of files that are searchable but not held in memory.
-- Each operation holds the manifest's lock for its whole run, so it is one step.
use gcgrep.Base.{
  ℕ, ◌≡◌, ap, Bool, ◌&&◌, ◌||◌, not, Option, none, List, [], ◌∷◌, ◌++◌, codes, Bytes, ltb,
  if◌then◌else◌, length, arith, Bool-cases, inl, inr,
}
use gcgrep.Go.Bytes.{has_prefix}
use gcgrep.Go.Map.{Map, get, put, delete, bytes_eq, bytes_eq_iff, bytes_key}
use gcgrep.Shard.Batches.{bytes_lt}

-- streamEntry
pub record StreamEntry : Type 0 where
  pub size : ℕ
  pub mtime_ns : ℕ

abbrev pub Stream : Type 0
Stream = Map Bytes StreamEntry

-- streamPut
unfoldable pub stream_put : Bytes → ℕ → ℕ → Stream → Stream
stream_put rel size mtime_ns s = put rel (record { size = size; mtime_ns = mtime_ns }) s

-- streamGet
unfoldable pub stream_get : Bytes → Stream → Option StreamEntry
stream_get rel s = get rel s

-- streamDelete
unfoldable pub stream_delete : Bytes → Stream → Stream
stream_delete rel s = delete rel s

-- The test of streamDeletePrefix on one path.
unfoldable pub below : Bytes → Bytes → Bool
below dir p =
    let prefix = dir ++ codes "/" in
    bytes_eq p dir || ltb (length prefix) (length p) && has_prefix p prefix

-- The entries whose path passes a test.
unfoldable pub keep : (Bytes → Bool) → Stream → Stream
keep ok [] = []
keep ok ((p, e) ∷ s) = let rest = keep ok s in if ok p then (p, e) ∷ rest else rest

-- streamDeletePrefix
unfoldable pub stream_delete_prefix : Bytes → Stream → Stream
unfolding keep below
stream_delete_prefix dir s = keep (λ (p : Bytes). not (below dir p)) s

-- streamRetain, with the paths on disk as a test.
unfoldable pub stream_retain : (Bytes → Bool) → Stream → Stream
unfolding keep
stream_retain on_disk s = keep on_disk s

-- streamCount
unfoldable pub stream_count : Stream → ℕ
stream_count s = length s

-- StreamFile
pub record StreamFile : Type 0 where
  pub rel : Bytes
  pub size : ℕ

-- The loop of StreamList.
unfoldable pub selected : ℕ → (Bytes → Bool) → Stream → List StreamFile
selected max_filesize path_ok [] = []
selected max_filesize path_ok ((rel, e) ∷ s) =
    let rest = selected max_filesize path_ok s in
    if ltb 0 max_filesize && ltb max_filesize e.size
    then rest
    else if not (path_ok rel)
    then rest
    else record { rel = rel; size = e.size } ∷ rest

-- sort.Slice by path
unfoldable pub insert_rel : StreamFile → List StreamFile → List StreamFile
unfolding bytes_lt
insert_rel f [] = f ∷ []
insert_rel f (g ∷ gs) =
    let rest = insert_rel f gs in if bytes_lt g.rel f.rel then g ∷ rest else f ∷ g ∷ gs

unfoldable pub sort_rel : List StreamFile → List StreamFile
unfolding insert_rel
sort_rel [] = []
sort_rel (f ∷ fs) = insert_rel f (sort_rel fs)

-- StreamList; a nil filter passes every path.
unfoldable pub stream_list : ℕ → (Bytes → Bool) → Stream → List StreamFile
unfolding selected sort_rel
stream_list max_filesize path_ok s = sort_rel (selected max_filesize path_ok s)

pub get-keep :
    (ok : Bytes → Bool) (rel : Bytes) (s : Stream)
    → get rel (keep ok s) ≡ (if ok rel then get rel s else none)
unfolding get keep
get-keep ok rel [] = ground arith
get-keep ok rel ((p, e) ∷ s) = elim (Bool-cases (bytes_eq p rel)) [
  | inl h ↦
      let same : ok p ≡ ok rel = ap ok ((bytes_eq_iff p rel).0 h) in
      ground (arith, same, get-keep ok rel s)
  | inr h ↦ ground (arith, get-keep ok rel s)
]

-- After a directory is dropped, a path is looked up as before unless it is the directory or lies below
-- it, and then it is absent.
pub stream_get-stream_delete_prefix :
    (dir rel : Bytes) (s : Stream)
    → stream_get rel (stream_delete_prefix dir s)
      ≡ (if below dir rel then none else stream_get rel s)
unfolding stream_get stream_delete_prefix
stream_get-stream_delete_prefix dir rel s = elim (Bool-cases (below dir rel)) [
  | inl h ↦ ground (arith, get-keep (λ (p : Bytes). not (below dir p)) rel s)
  | inr h ↦ ground (arith, get-keep (λ (p : Bytes). not (below dir p)) rel s)
]
