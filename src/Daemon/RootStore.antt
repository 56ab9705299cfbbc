-- ===== src/Daemon/RootStore.antt =====
-- internal/daemon/store.go: the files of one root, those that are indexed and those that are only listed.
-- What the file system answers is an argument of each operation. An operation is one step here; the reservation
-- of bytes, which workers run against one another, is taken apart in Reserve.
pub mod Accounts
pub mod Changes
pub mod Reconcile
pub mod Persist
pub mod Routes
pub mod Reserve
use gcgrep.Base.{
  ℕ, ◌+◌, ◌-◌, ◌*◌, ◌^◌, Bool, true, false, ◌&&◌, ◌||◌, not, Option, none, some, List, [], ◌∷◌,
  ◌++◌, Bytes, codes, ltb, leb, ◌==◌, if◌then◌else◌, length, drop, map,
}
use gcgrep.Base.Int.{ℤ, pos, ◌+ℤ◌, ◌-ℤ◌, ltb_ℤ}
use gcgrep.Go.Bytes.{has_prefix, last_index_byte}
use gcgrep.Go.Map.{bytes_eq}
use gcgrep.Symbol.{Def}
use gcgrep.Index.Store.{
  FileMeta, Index, new, add, add_with_keys, remove, remove_prefix, meta_of, num_files, paths,
  snapshot,
}
use gcgrep.Index.Postings.{trigram_keys}
use gcgrep.Daemon.Stream.{
  Stream, StreamEntry, stream_put, stream_get, stream_delete, stream_delete_prefix, stream_retain,
}
use gcgrep.Daemon.Utf16.{decode_utf16, is_binary}

-- The fields of RootStore that hold its files: the index in memory, the stream manifest, the reserved
-- bytes, and the counters. totalBytes is an int64, far below its bounds.
pub record RootStore : Type 0 where
  pub idx : Index
  pub stream : Stream
  pub total_bytes : ℤ
  pub indexed : ℕ
  pub skipped_large : ℕ
  pub skipped_budget : ℕ
  pub skipped_binary : ℕ
  pub skipped_error : ℕ

-- The two limits of conf.Config, in MB; 0 for every MaxIndexMB that is not positive. MaxFileSizeMB is not
-- negative.
pub record Limits : Type 0 where
  pub max_file_size_mb : ℕ
  pub max_index_mb : ℕ

abbrev pub mb : ℕ
mb = 1048576

-- os.Stat: an error, which may be that the file is absent, something that is no regular file, or a file.
pub data Stat : Type 0 where
  absent denied irregular : Stat
  regular : ℕ → ℕ → Stat

-- os.ReadFile
pub data Read : Type 0 where
  missing unreadable : Read
  contents : Bytes → Read

-- s.totalBytes.Add(-old.Size), where the index has the file.
unfoldable pub release_old : Option FileMeta → RootStore → RootStore
release_old none s = s
release_old (some old) s = record s { total_bytes = s.total_bytes -ℤ pos old.size }

-- toStream
unfoldable pub to_stream : Bytes → ℕ → ℕ → RootStore → RootStore
unfolding release_old
to_stream rel size mtime_ns s =
    let s' = release_old (meta_of s.idx rel) s in
    record s' { idx = remove s'.idx rel; stream = stream_put rel size mtime_ns s'.stream }

-- removeTracked
unfoldable pub remove_tracked : Bytes → RootStore → RootStore
unfolding release_old
remove_tracked rel s =
    let s' = release_old (meta_of s.idx rel) s in
    record s' { idx = remove s'.idx rel; stream = stream_delete rel s'.stream }

-- reserveBytes, where no other worker comes between: the store with the bytes, or none for false.
unfoldable pub reserve_bytes : Limits → ℕ → RootStore → Option RootStore
reserve_bytes cfg n s =
    if cfg.max_index_mb == 0
    then some (record s { total_bytes = s.total_bytes +ℤ pos n })
    else if ltb_ℤ (pos (cfg.max_index_mb * mb)) (s.total_bytes +ℤ pos n)
    then none
    else some (record s { total_bytes = s.total_bytes +ℤ pos n })

-- `if decoded, ok := decodeUTF16(content); ok { content = decoded }`
unfoldable pub text_of : Bytes → Bytes
text_of content = elim (decode_utf16 content) [ none ↦ content | some decoded ↦ decoded ]

-- The end of indexFile, for a text.
unfoldable pub index_text :
    (Bytes → Bytes → List Def) → Bytes → ℕ → ℕ → Bytes → RootStore → RootStore
unfolding release_old
index_text extract rel size mtime_ns content s =
    let s' = release_old (meta_of s.idx rel) s in
    record s' {
      idx = add extract s'.idx (record { path = rel; size = size; mtime_ns = mtime_ns }) content;
      stream = stream_delete rel s'.stream;
    }

-- indexFile after the reservation of size bytes, which it gives back where the file is not indexed.
unfoldable pub index_read :
    (Bytes → Bytes → List Def) → Bytes → ℕ → ℕ → Read → RootStore → RootStore
unfolding index_text to_stream remove_tracked text_of is_binary
index_read extract rel size mtime_ns Read.missing s =
    remove_tracked rel (record s { total_bytes = s.total_bytes -ℤ pos size })
index_read extract rel size mtime_ns Read.unreadable s =
    remove_tracked rel
      (record s { total_bytes = s.total_bytes -ℤ pos size; skipped_error = s.skipped_error + 1 })
index_read extract rel size mtime_ns (Read.contents content) s =
    if is_binary (text_of content)
    then to_stream rel size mtime_ns (record s {
      total_bytes = s.total_bytes -ℤ pos size;
      skipped_binary = s.skipped_binary + 1;
    })
    else index_text extract rel size mtime_ns (text_of content) s

-- What indexFile does with the answer of the reservation.
unfoldable pub index_reserved :
    (Bytes → Bytes → List Def) → Bytes → ℕ → ℕ → Read → RootStore → Option RootStore → RootStore
unfolding index_read to_stream
index_reserved extract rel size mtime_ns read s none =
    to_stream rel size mtime_ns (record s { skipped_budget = s.skipped_budget + 1 })
index_reserved extract rel size mtime_ns read s (some s') =
    index_read extract rel size mtime_ns read s'

-- indexFile
unfoldable pub index_file :
    (Bytes → Bytes → List Def) → Limits → Bytes → Stat → Read → RootStore → RootStore
unfolding index_reserved to_stream remove_tracked reserve_bytes
index_file extract cfg rel Stat.absent read s = remove_tracked rel s
index_file extract cfg rel Stat.irregular read s = remove_tracked rel s
index_file extract cfg rel Stat.denied read s =
    remove_tracked rel (record s { skipped_error = s.skipped_error + 1 })
index_file extract cfg rel (Stat.regular size mtime_ns) read s =
    if ltb (cfg.max_file_size_mb * mb) size
    then to_stream rel size mtime_ns (record s { skipped_large = s.skipped_large + 1 })
    else index_reserved extract rel size mtime_ns read s (reserve_bytes cfg size s)

-- What the file system answers for a path.
pub record Disk : Type 0 where
  pub stat : Bytes → Stat
  pub read : Bytes → Read

-- indexParallel, with the jobs in the order in which the workers finish them.
unfoldable pub index_all :
    (Bytes → Bytes → List Def) → Limits → Disk → List Bytes → RootStore → RootStore
unfolding index_file
index_all extract cfg disk [] s = s
index_all extract cfg disk (rel ∷ rels) s =
    let s' = index_file extract cfg rel (disk.stat rel) (disk.read rel) s in
    index_all extract cfg disk rels (record s' { indexed = s'.indexed + 1 })

-- isCookie
abbrev pub cookie_prefix : Bytes
cookie_prefix = codes ".gcgrep-cookie-"

unfoldable pub base_name : Bytes → Bytes
unfolding last_index_byte
base_name rel = elim (last_index_byte rel b'/') [ none ↦ rel | some i ↦ drop (i + 1) rel ]

unfoldable pub is_cookie : Bytes → Bool
unfolding base_name has_prefix
is_cookie rel = has_prefix (base_name rel) cookie_prefix

-- os.Lstat, as applyChange reads it: an error, a directory with the files that listUnder finds in it, a
-- regular file, or something else.
pub data Change : Type 0 where
  removed : Change
  directory : List Bytes → Change
  file : Change
  other : Change

-- The case of applyChange for an index in memory where the path is gone.
unfoldable pub drop_path : Bytes → RootStore → RootStore
drop_path rel s = record s {
  idx = remove_prefix (remove s.idx rel) rel;
  stream = stream_delete_prefix rel (stream_delete rel s.stream);
}

-- `for _, sub := range s.listUnder(rel) { s.indexFile(sub) }`
unfoldable pub index_each :
    (Bytes → Bytes → List Def) → Limits → Disk → List Bytes → RootStore → RootStore
unfolding index_file
index_each extract cfg disk [] s = s
index_each extract cfg disk (rel ∷ rels) s =
    index_each extract cfg disk rels (index_file extract cfg rel (disk.stat rel) (disk.read rel) s)

-- applyChange for an index in memory, for a path that is neither a cookie nor the control file.
-- `ignored rel is_dir` is RootStore.ignored.
unfoldable pub apply_change :
    (Bytes → Bytes → List Def)
    → Limits
    → Disk
    → (Bytes → Bool → Bool)
    → Bytes
    → Change
    → RootStore
    → RootStore
unfolding drop_path index_each index_file
apply_change extract cfg disk ignored rel Change.removed s =
    if ignored rel true && ignored rel false then s else drop_path rel s
apply_change extract cfg disk ignored rel (Change.directory subs) s =
    if ignored rel true then s else index_each extract cfg disk subs s
apply_change extract cfg disk ignored rel Change.file s =
    if ignored rel false then s else index_file extract cfg rel (disk.stat rel) (disk.read rel) s
apply_change extract cfg disk ignored rel Change.other s = s
