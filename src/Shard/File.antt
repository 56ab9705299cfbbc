-- ===== src/Shard/File.antt =====
-- internal/shard/shard.go: what an index file's bytes are read as.
-- Every read gives none where the slice expression of the program panics.
use gcgrep.Base.{
  ℕ, zero, suc, ◌+◌, ◌-◌, ◌*◌, ◌||◌, not, Option, none, some, List, [], ◌∷◌, ◌⊎◌, inl, inr, Bytes,
  ltb, ◌==◌, if◌then◌else◌, length, take, ◌>>=◌,
}
use gcgrep.Go.Map.{bytes_eq}
use gcgrep.Index.Store.{FileMeta}
use gcgrep.Shard.Varint.{slice, get_le}
use gcgrep.Shard.Build.{magic, header_size, file_entry_len, format_ver, no_content}

-- Shard, with its data mapped, less the reference count.
pub record Shard : Type 0 where
  pub size : ℕ
  pub path_min : Bytes
  pub path_max : Bytes
  pub num_files : ℕ
  pub num_tri : ℕ
  pub num_syms : ℕ
  pub file_tbl : ℕ
  pub path_blob : ℕ
  pub tri_idx : ℕ
  pub postings : ℕ
  pub symbol_off : ℕ
  pub content_off : ℕ
  pub tri_keys : List ℕ
  pub bytes : Bytes

-- s.data[base+off : base+off+len]
unfoldable pub path_at : Shard → Option ℕ → Option ℕ → Option Bytes
unfolding slice
path_at s (some off) (some len) = slice s.bytes (s.path_blob + off) len
path_at s (some off) none = none
path_at s none len = none

-- File
unfoldable pub meta_from : Option Bytes → Option ℕ → Option ℕ → Option FileMeta
meta_from (some path) (some size) (some mtime_ns) =
    some (record { path = path; size = size; mtime_ns = mtime_ns })
meta_from (some path) (some size) none = none
meta_from (some path) none mtime = none
meta_from none size mtime = none

unfoldable pub file : Shard → ℕ → Option FileMeta
unfolding path_at meta_from get_le
file s i =
    let off = s.file_tbl + i * file_entry_len in
    meta_from (path_at s (get_le 4 s.bytes off) (get_le 2 s.bytes (off + 4)))
      (get_le 8 s.bytes (off + 8)) (get_le 8 s.bytes (off + 16))

unfoldable pub content_from : Shard → Option ℕ → Option ℕ → Option (Option Bytes)
unfolding slice
content_from s (some off) (some len) =
    if off == no_content || len == 0
    then some none
    else elim (slice s.bytes (s.content_off + off) len) [ none ↦ none | some c ↦ some (some c) ]
content_from s (some off) none = none
content_from s none len = none

-- FileContent: some none is nil.
unfoldable pub file_content : Shard → ℕ → Option (Option Bytes)
unfolding content_from get_le
file_content s i =
    let off = s.file_tbl + i * file_entry_len in
    if s.content_off == 0
    then some none
    else content_from s (get_le 4 s.bytes (off + 24)) (get_le 4 s.bytes (off + 28))

-- The n numbers of four bytes from off on.
unfoldable pub numbers_at : Bytes → ℕ → ℕ → Option (List ℕ)
unfolding get_le
numbers_at d off zero = some []
numbers_at d off (suc n) = do x ← get_le 4 d off; xs ← numbers_at d (off + 4) n; some (x ∷ xs)

-- Why Load gives no shard; a damaged file panics where a section ends after the file.
pub data LoadError : Type 0 where
  too_small : LoadError
  bad_magic : LoadError
  unsupported_version : LoadError
  out_of_range : LoadError

-- The fields of the header.
unfoldable pub parse_header : Bytes → Option Shard
unfolding get_le
parse_header d = do
  num_files ← get_le 4 d 12
  num_tri ← get_le 4 d 16
  num_syms ← get_le 4 d 20
  file_tbl ← get_le 8 d 24
  tri_idx ← get_le 8 d 32
  postings ← get_le 8 d 40
  symbol_off ← get_le 8 d 48
  content_off ← get_le 8 d 56
  some (record {
    size = length d;
    path_min = [];
    path_max = [];
    num_files = num_files;
    num_tri = num_tri;
    num_syms = num_syms;
    file_tbl = file_tbl;
    path_blob = file_tbl + num_files * file_entry_len;
    tri_idx = tri_idx;
    postings = postings;
    symbol_off = symbol_off;
    content_off = content_off;
    tri_keys = [];
    bytes = d;
  })

-- pathMin and pathMax from the first and the last entry of the file table.
unfoldable pub with_range : Shard → Option Shard
unfolding file
with_range s = if s.num_files == 0 then some s else do
  first ← file s 0
  last ← file s (s.num_files - 1)
  some (record s { path_min = first.path; path_max = last.path })

unfoldable pub with_keys : Shard → Option Shard
unfolding numbers_at
with_keys s = do ks ← numbers_at s.bytes s.tri_idx s.num_tri; some (record s { tri_keys = ks })

unfoldable pub parse : Bytes → Option Shard
unfolding parse_header with_range with_keys
parse d = do s ← parse_header d; t ← with_range s; with_keys t

-- Load, from the bytes of the file. Open reads the same fields.
unfoldable pub load : Bytes → LoadError ⊎ Shard
unfolding parse get_le bytes_eq
load d =
    if ltb (length d) header_size
    then inl LoadError.too_small
    else if not (bytes_eq (take 8 d) magic)
    then inl LoadError.bad_magic
    else elim (get_le 4 d 8) [
      | none ↦ inl LoadError.out_of_range
      | some ver ↦
          if not (ver == format_ver)
          then inl LoadError.unsupported_version
          else elim (parse d) [ none ↦ inl LoadError.out_of_range | some s ↦ inr s ]
    ]
