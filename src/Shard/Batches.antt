-- ===== src/Shard/Batches.antt =====
-- internal/shard/build.go: GroupByDirBoundary, which cuts the sorted files into batches.
use gcgrep.Base.{
  ℕ, ◌+◌, ◌≡◌, ◌∙◌, ap, sym, Bool, true, false, ◌&&◌, List, [], ◌∷◌, ◌++◌, Bytes, ltb, leb,
  if◌then◌else◌, length, arith, append-nil, append_assoc,
}

-- BuildFile
pub record BuildFile : Type 0 where
  pub rel : Bytes
  pub size : ℕ
  pub mtime_ns : ℕ

-- ShardSizeConfig, less MaxBytes, which nothing reads.
pub record ShardSizeConfig : Type 0 where
  pub target_bytes : ℕ
  pub min_bytes : ℕ

-- a < b on strings
unfoldable pub bytes_lt : Bytes → Bytes → Bool
bytes_lt [] [] = false
bytes_lt [] (_ ∷ _) = true
bytes_lt (_ ∷ _) [] = false
bytes_lt (a ∷ s) (b ∷ t) =
    let rest = bytes_lt s t in if ltb a b then true else if ltb b a then false else rest

-- sort.Slice by path. It may leave files of one path in any order; paths are distinct.
unfoldable pub insert_file : BuildFile → List BuildFile → List BuildFile
unfolding bytes_lt
insert_file f [] = f ∷ []
insert_file f (g ∷ gs) =
    let rest = insert_file f gs in if bytes_lt g.rel f.rel then g ∷ rest else f ∷ g ∷ gs

unfoldable pub sort_files : List BuildFile → List BuildFile
unfolding insert_file
sort_files [] = []
sort_files (f ∷ fs) = insert_file f (sort_files fs)

-- batches[len-1] = append(batches[len-1], cur...), or append(batches, cur) where there is none.
unfoldable pub merge_last : List (List BuildFile) → List BuildFile → List (List BuildFile)
merge_last [] cur = cur ∷ []
merge_last (b ∷ []) cur = (b ++ cur) ∷ []
merge_last (b ∷ c ∷ bs) cur = b ∷ merge_last (c ∷ bs) cur

unfoldable pub finish :
    ShardSizeConfig → List (List BuildFile) → List BuildFile → ℕ → List (List BuildFile)
unfolding merge_last
finish sc batches [] cur_bytes = batches
finish sc batches (f ∷ cur) cur_bytes =
    if ltb 0 (length batches) && ltb cur_bytes sc.min_bytes
    then merge_last batches (f ∷ cur)
    else batches ++ (f ∷ cur) ∷ []

-- The loop over the files, and what follows it. The sizes are those of files, and their sum stays below 2 ^ 63.
unfoldable pub group_loop :
    ShardSizeConfig
    → List BuildFile
    → List (List BuildFile)
    → List BuildFile
    → ℕ
    → List (List BuildFile)
unfolding finish
group_loop sc [] batches cur cur_bytes = finish sc batches cur cur_bytes
group_loop sc (f ∷ fs) batches cur cur_bytes =
    let full = group_loop sc fs (batches ++ (cur ++ f ∷ []) ∷ []) [] 0 in
    let more = group_loop sc fs batches (cur ++ f ∷ []) (cur_bytes + f.size) in
    if leb sc.target_bytes (cur_bytes + f.size) then full else more

-- GroupByDirBoundary
unfoldable pub group_by_dir_boundary : List BuildFile → ShardSizeConfig → List (List BuildFile)
unfolding sort_files group_loop
group_by_dir_boundary files sc = group_loop sc (sort_files files) [] [] 0

abbrev pub concat : List (List BuildFile) → List BuildFile
concat [] = []
concat (b ∷ bs) = b ++ concat bs

concat-append :
    (bs : List (List BuildFile)) (cur : List BuildFile) → concat (bs ++ cur ∷ []) ≡ concat bs ++ cur
concat-append [] cur = append-nil cur
concat-append (b ∷ bs) cur =
    ap (λ (t : List BuildFile). b ++ t) (concat-append bs cur)
    ∙ sym (append_assoc b (concat bs) cur)

concat-merge_last :
    (bs : List (List BuildFile)) (cur : List BuildFile)
    → concat (merge_last bs cur) ≡ concat bs ++ cur
unfolding merge_last
concat-merge_last [] cur = append-nil cur
concat-merge_last (b ∷ []) cur =
    append-nil (b ++ cur) ∙ ap (λ (t : List BuildFile). t ++ cur) (sym (append-nil b))
concat-merge_last (b ∷ c ∷ bs) cur =
    ap (λ (t : List BuildFile). b ++ t) (concat-merge_last (c ∷ bs) cur)
    ∙ sym (append_assoc b (c ++ concat bs) cur)

concat-finish :
    (sc : ShardSizeConfig) (bs : List (List BuildFile)) (cur : List BuildFile) (n : ℕ)
    → concat (finish sc bs cur n) ≡ concat bs ++ cur
unfolding finish
concat-finish sc bs [] n = sym (append-nil (concat bs))
concat-finish sc bs (f ∷ cur) n =
    ground (arith, concat-merge_last bs (f ∷ cur), concat-append bs (f ∷ cur))

concat-group_loop :
    (sc : ShardSizeConfig) (fs : List BuildFile) (bs : List (List BuildFile)) (cur : List BuildFile)
    (n : ℕ)
    → concat (group_loop sc fs bs cur n) ≡ (concat bs ++ cur) ++ fs
unfolding group_loop
concat-group_loop sc [] bs cur n = concat-finish sc bs cur n ∙ sym (append-nil (concat bs ++ cur))
concat-group_loop sc (f ∷ fs) bs cur n =
    let full = concat-group_loop sc fs (bs ++ (cur ++ f ∷ []) ∷ []) [] 0 in
    let more = concat-group_loop sc fs bs (cur ++ f ∷ []) (n + f.size) in
    ground (
      arith,
      full,
      more,
      concat-append bs (cur ++ f ∷ []),
      append-nil (concat bs ++ (cur ++ f ∷ [])),
      append_assoc (concat bs) cur (f ∷ []),
      append_assoc (concat bs ++ cur) (f ∷ []) fs,
    )

-- Put together in order, the batches are the files in the order of their paths: no file is lost, doubled
-- or moved, so the shards cover ranges of paths that follow one another.
pub concat-group_by_dir_boundary :
    (files : List BuildFile) (sc : ShardSizeConfig)
    → concat (group_by_dir_boundary files sc) ≡ sort_files files
unfolding group_by_dir_boundary
concat-group_by_dir_boundary files sc = concat-group_loop sc (sort_files files) [] [] 0
