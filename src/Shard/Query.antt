-- ===== src/Shard/Query.antt =====
-- internal/shard/shard.go: the queries on a mapped index file.
use gcgrep.Base.{
  ℕ, zero, suc, ◌+◌, ◌-◌, ◌*◌, ◌/◌, ◌%◌, ◌^◌, Bool, true, false, ◌&&◌, ◌||◌, not, Option, none,
  some, List, [], ◌∷◌, Bytes, ltb, leb, ◌==◌, if◌then◌else◌, length, get_elem?, get_or, ◌>>=◌,
}
use gcgrep.Symbol.{Def}
use gcgrep.Index.Postings.{trigrams_of, intersect_sorted}
use gcgrep.Shard.Varint.{slice, get_le, read_uvarint}
use gcgrep.Shard.Build.{sort}
use gcgrep.Shard.Batches.{bytes_lt}
use gcgrep.Shard.File.{Shard}

-- ContainsPath
unfoldable pub contains_path : Shard → Bytes → Bool
contains_path s path = not (bytes_lt path s.path_min) && not (bytes_lt s.path_max path)

-- trigramsOfLit
unfoldable pub trigrams_of_lit : Bytes → List ℕ
trigrams_of_lit lit = sort (trigrams_of lit [])

-- sort.Search: the least index whose key is not below k, if the keys ascend. Each turn makes hi - lo
-- smaller, so fuel hi - lo is enough.
unfoldable pub search_key : ℕ → List ℕ → ℕ → ℕ → ℕ → ℕ
search_key zero ks k lo hi = lo
search_key (suc fuel) ks k lo hi =
    let mid = lo + (hi - lo) / 2 in
    let right = search_key fuel ks k (mid + 1) hi in
    let left = search_key fuel ks k lo mid in
    if ltb lo hi then if ltb (get_or ks mid 0) k then right else left else lo

-- Whether a key is found, as HasTrigrams tests it.
unfoldable pub has_key : List ℕ → ℕ → Bool
unfolding search_key
has_key ks k = elim (get_elem? ks (search_key (length ks) ks k 0 (length ks))) [
  | none ↦ false
  | some j ↦ j == k
]

unfoldable pub has_keys : List ℕ → List ℕ → Bool
unfolding has_key
has_keys ks [] = true
has_keys ks (k ∷ tris) = has_key ks k && has_keys ks tris

-- HasTrigrams
unfoldable pub has_trigrams : Shard → Bytes → Bool
unfolding has_keys trigrams_of_lit
has_trigrams s literal =
    if ltb (length literal) 3 then true else has_keys s.tri_keys (trigrams_of_lit literal)

-- The loop over one posting list's deltas. The ids are added modulo 2 ^ 32.
unfoldable pub read_ids : Bytes → ℕ → ℕ → ℕ → Option (List ℕ)
unfolding read_uvarint
read_ids d zero pos prev = some []
read_ids d (suc n) pos prev = do
  (delta, next) ← read_uvarint d pos
  let id = (prev + delta) % 2 ^ 32
  rest ← read_ids d n next id
  some (id ∷ rest)

-- The binary search of posting, on the bytes of the file.
unfoldable pub posting_search : ℕ → Shard → ℕ → ℕ → ℕ → Option ℕ
unfolding get_le
posting_search zero s tri lo hi = some lo
posting_search (suc fuel) s tri lo hi =
    let mid = lo + (hi - lo) / 2 in
    let right = posting_search fuel s tri (mid + 1) hi in
    let left = posting_search fuel s tri lo mid in
    if ltb lo hi
    then elim (get_le 4 s.bytes (s.tri_idx + mid * 4)) [
      | none ↦ none
      | some k ↦ if ltb k tri then right else left
    ]
    else some lo

-- What posting does with the index found: some none is nil.
unfoldable pub posting_at : Shard → ℕ → ℕ → Option (Option (List ℕ))
unfolding read_ids
posting_at s tri lo = if leb s.num_tri lo then some none else do
  k ← get_le 4 s.bytes (s.tri_idx + lo * 4)
  if not (k == tri) then some none else do
    off ← get_le 4 s.bytes (s.tri_idx + s.num_tri * 4 + lo * 4)
    (num_docs, pos) ← read_uvarint s.bytes (off + s.postings)
    ids ← read_ids s.bytes num_docs pos 0
    some (some ids)

-- posting
unfoldable pub posting : Shard → ℕ → Option (Option (List ℕ))
unfolding posting_search posting_at
posting s tri = do lo ← posting_search s.num_tri s tri 0 s.num_tri; posting_at s tri lo

-- The loop of Candidates after its first list.
unfoldable pub narrow : Shard → List ℕ → List ℕ → Option (List ℕ)
unfolding posting intersect_sorted
narrow s [] result = some result
narrow s (tri ∷ tris) result = elim (posting s tri) [
  | none ↦ none
  | some none ↦ some []
  | some (some ids) ↦
      if length (intersect_sorted result ids) == 0
      then some []
      else narrow s tris (intersect_sorted result ids)
]

unfoldable pub count_up : ℕ → ℕ → List ℕ
count_up i zero = []
count_up i (suc n) = i ∷ count_up (suc i) n

unfoldable pub narrow_all : Shard → List ℕ → Option (List ℕ)
unfolding narrow
narrow_all s [] = some []
narrow_all s (tri ∷ tris) = elim (posting s tri) [
  | none ↦ none
  | some none ↦ some []
  | some (some ids) ↦ narrow s tris ids
]

-- Candidates
unfoldable pub candidates : Shard → Bytes → Option (List ℕ)
unfolding narrow_all count_up trigrams_of_lit
candidates s literal =
    if ltb (length literal) 3
    then some (count_up 0 s.num_files)
    else narrow_all s (trigrams_of_lit literal)

-- A string preceded by its length, and the position after it.
unfoldable pub read_string : Bytes → ℕ → Option (Bytes × ℕ)
unfolding read_uvarint slice
read_string d pos = do (len, p) ← read_uvarint d pos; text ← slice d p len; some (text, p + len)

-- The definitions of one file.
unfoldable pub read_defs : Bytes → ℕ → ℕ → Option (List Def × ℕ)
unfolding read_string
read_defs d zero pos = some ([], pos)
read_defs d (suc n) pos = do
  (name, p) ← read_string d pos
  (kind, p2) ← read_string d p
  (container, p3) ← read_string d p2
  (line, p4) ← read_uvarint d p3
  (rest, next) ← read_defs d n p4
  some (record { name = name; kind = kind; container = container; line = line } ∷ rest, next)

-- The loop over the files before the one asked for, whose definitions are skipped.
-- A string that ends after the data panics at the read that follows it, if it is not copied.
unfoldable pub defs_from : Bytes → ℕ → ℕ → Option (List Def)
unfolding read_defs
defs_from d zero pos = do
  (num_defs, next) ← read_uvarint d pos
  (defs, after) ← read_defs d num_defs next
  some defs
defs_from d (suc i) pos = do
  (num_defs, next) ← read_uvarint d pos
  (defs, after) ← read_defs d num_defs next
  defs_from d i after

-- FileDefs
unfoldable pub file_defs : Shard → ℕ → Option (List Def)
unfolding defs_from
file_defs s i =
    if s.symbol_off == 0 || s.num_syms == 0 then some [] else defs_from s.bytes i s.symbol_off
