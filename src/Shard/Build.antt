-- ===== src/Shard/Build.antt =====
-- internal/shard/build.go: the builder of an index file and the bytes it writes.
use gcgrep.Base.{
  ℕ, ◌+◌, ◌-◌, ◌*◌, ◌&&◌, Option, none, some, List, [], ◌∷◌, ◌++◌, Bytes, codes, ltb, leb,
  if◌then◌else◌, length,
}
use gcgrep.Go.Map.{Map}
use gcgrep.Symbol.{Def}
use gcgrep.Index.Postings.{trigram_keys, post_keys, ids_of}
use gcgrep.Shard.Varint.{put_le, append_uvarint}

-- buildFile. An int64 is kept as its 64-bit pattern; nil content is none.
pub record BuildFile : Type 0 where
  pub path : Bytes
  pub size : ℕ
  pub mtime_ns : ℕ
  pub defs : List Def
  pub content : Option Bytes

-- Builder
pub record Builder : Type 0 where
  pub files : List BuildFile
  pub tris : Map ℕ (List ℕ)
  pub inline_kb : ℕ

-- NewBuilder
unfoldable pub new_builder : ℕ → Builder
new_builder inline_kb = record { files = []; tris = []; inline_kb = inline_kb }

-- AddWithDefs
unfoldable pub add_with_defs : Builder → Bytes → ℕ → ℕ → Bytes → List Def → Builder
add_with_defs b path size mtime_ns content defs =
    let stored : Option Bytes =
      if ltb 0 b.inline_kb && leb (length content) (b.inline_kb * 1024)
      then some content
      else none in
    record b {
      files =
          b.files
          ++ record { path = path; size = size; mtime_ns = mtime_ns; defs = defs; content = stored }
            ∷ [];
      tris = post_keys b.tris (trigram_keys content) (length b.files);
    }

-- sort.Slice on numbers
unfoldable pub insert_sorted : ℕ → List ℕ → List ℕ
insert_sorted x [] = x ∷ []
insert_sorted x (y ∷ ys) = let rest = insert_sorted x ys in if leb x y then x ∷ y ∷ ys else y ∷ rest

unfoldable pub sort : List ℕ → List ℕ
unfolding insert_sorted
sort [] = []
sort (x ∷ xs) = insert_sorted x (sort xs)

unfoldable pub keys_of : Map ℕ (List ℕ) → List ℕ
keys_of [] = []
keys_of ((k, _) ∷ m) = k ∷ keys_of m

-- The deltas of one posting list, appended to a buffer. id - prev does not wrap: the ids are sorted.
unfoldable pub append_deltas : Bytes → ℕ → List ℕ → Bytes
append_deltas b prev [] = b
append_deltas b prev (id ∷ ids) = append_deltas (append_uvarint b (id - prev)) id ids

-- postData and postOffsets, for the keys in order.
unfoldable pub postings_of : Map ℕ (List ℕ) → List ℕ → Bytes → Bytes × List ℕ
unfolding append_deltas
postings_of tris [] b = (b, [])
postings_of tris (k ∷ ks) b =
    let ids = sort (ids_of tris k) in
    let rest = postings_of tris ks (append_deltas (append_uvarint b (length ids)) 0 ids) in
    (rest.0, length b ∷ rest.1)

unfoldable pub append_string : Bytes → Bytes → Bytes
append_string b s = append_uvarint b (length s) ++ s

unfoldable pub append_defs : Bytes → List Def → Bytes
unfolding append_string
append_defs b [] = b
append_defs b (d ∷ ds) =
    append_defs
      (append_uvarint (append_string (append_string (append_string b d.name) d.kind) d.container)
        d.line)
      ds

-- symData
unfoldable pub symbols_of : List BuildFile → Bytes → Bytes
unfolding append_defs
symbols_of [] b = b
symbols_of (f ∷ fs) b = symbols_of fs (append_defs (append_uvarint b (length f.defs)) f.defs)

-- numSyms
unfoldable pub count_symbols : List BuildFile → ℕ
count_symbols [] = 0
count_symbols (f ∷ fs) = length f.defs + count_symbols fs

-- pathBlob
unfoldable pub paths_of : List BuildFile → Bytes
paths_of [] = []
paths_of (f ∷ fs) = f.path ++ paths_of fs

unfoldable pub stored_of : Option Bytes → Bytes
stored_of none = []
stored_of (some c) = c

-- contentBlob
unfoldable pub contents_of : List BuildFile → Bytes
unfolding stored_of
contents_of [] = []
contents_of (f ∷ fs) = stored_of f.content ++ contents_of fs

abbrev pub no_content : ℕ
no_content = 4294967295

-- contentRefs[i]: where the content stands in its blob, and its length.
unfoldable pub content_ref : ℕ → Option Bytes → Bytes
content_ref off none = put_le 4 no_content ++ put_le 4 0
content_ref off (some c) = put_le 4 off ++ put_le 4 (length c)

-- One entry of the file table; two bytes after the path's length stay zero.
unfoldable pub file_entry : ℕ → ℕ → BuildFile → Bytes
unfolding content_ref
file_entry path_off content_off f =
    put_le 4 path_off
    ++ put_le 2 (length f.path)
    ++ 0 ∷ 0 ∷ put_le 8 f.size
    ++ put_le 8 f.mtime_ns
    ++ content_ref content_off f.content

unfoldable pub file_table : ℕ → ℕ → List BuildFile → Bytes
unfolding file_entry stored_of
file_table path_off content_off [] = []
file_table path_off content_off (f ∷ fs) =
    file_entry path_off content_off f
    ++ file_table (path_off + length f.path) (content_off + length (stored_of f.content)) fs

unfoldable pub put_all : List ℕ → Bytes
put_all [] = []
put_all (x ∷ xs) = put_le 4 x ++ put_all xs

abbrev pub magic : Bytes
magic = codes "GCSHARD1"

abbrev pub header_size : ℕ
header_size = 64

abbrev pub file_entry_len : ℕ
file_entry_len = 32

abbrev pub format_ver : ℕ
format_ver = 3

-- The sections of the file, in the order of their offsets, and the header that holds the offsets.
unfoldable pub header : ℕ → ℕ → ℕ → ℕ → ℕ → ℕ → ℕ → Bytes
header num_files num_tri num_syms tri_off post_off sym_off ct_off =
    magic
    ++ put_le 4 format_ver
    ++ put_le 4 num_files
    ++ put_le 4 num_tri
    ++ put_le 4 num_syms
    ++ put_le 8 header_size
    ++ put_le 8 tri_off
    ++ put_le 8 post_off
    ++ put_le 8 sym_off
    ++ put_le 8 ct_off

-- Write, up to the files: the bytes of `out`, whose sections do not overlap.
unfoldable pub write : Builder → Bytes
unfolding header file_table postings_of symbols_of paths_of contents_of put_all sort keys_of
    count_symbols
write b =
    let tri_keys = sort (keys_of b.tris) in
    let posts = postings_of b.tris tri_keys [] in
    let sym_data = symbols_of b.files [] in
    let path_blob = paths_of b.files in
    let content_blob = contents_of b.files in
    let num_files = length b.files in
    let num_tri = length tri_keys in
    let tri_off = header_size + num_files * file_entry_len + length path_blob in
    let post_off = tri_off + num_tri * 4 * 2 in
    let sym_off = post_off + length posts.0 in
    let ct_off = if ltb 0 (length content_blob) then sym_off + length sym_data else 0 in
    header num_files num_tri (count_symbols b.files) tri_off post_off sym_off ct_off
    ++ file_table 0 0 b.files
    ++ path_blob
    ++ put_all tri_keys
    ++ put_all posts.1
    ++ posts.0
    ++ sym_data
    ++ content_blob
