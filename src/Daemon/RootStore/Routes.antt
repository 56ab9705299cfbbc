-- ===== src/Daemon/RootStore/Routes.antt =====
-- internal/daemon/store.go: where indexFile puts a file.
use gcgrep.Base.{
  ℕ, ◌+◌, ◌*◌, ◌≡◌, ◌⊎◌, refl, ap, ◌∙◌, Bool, true, false, ◌&&◌, ◌||◌, not, Option, none, some,
  List, [], ◌∷◌, Bytes, ltb, ◌==◌, if◌then◌else◌, arith, Bool-cases, inl, inr,
}
use gcgrep.Base.Int.{ℤ, pos, ◌+ℤ◌, ◌-ℤ◌, ltb_ℤ}
use gcgrep.Go.Map.{listed, get, put, delete, bytes_eq, bytes_eq_iff, bytes_key, get-put, get-delete}
use gcgrep.Symbol.{Def}
use gcgrep.Index.Store.{FileMeta, FileEntry, Index, meta_of, remove, add}
use gcgrep.Index.Store.Invariant.{IsValid}
use gcgrep.Index.Store.View.{entry_of, add-entry, remove-entry}
use gcgrep.Daemon.Stream.{Stream, StreamEntry, stream_get, stream_put, stream_delete}
use gcgrep.Daemon.Utf16.{is_binary}
use gcgrep.Daemon.RootStore.{
  RootStore, Limits, mb, Stat, Read, Disk, release_old, to_stream, remove_tracked, reserve_bytes,
  text_of, index_text, index_read, index_reserved, index_file, index_all,
}
use gcgrep.Daemon.RootStore.Accounts.{IsSound, recount, release_old-idx, index_file-IsSound}

-- The places of a file: in the index with its text, in the stream manifest, or in neither.
pub data Route : Type 0 where
  indexed : ℕ → ℕ → Bytes → Route
  streamed : ℕ → ℕ → Route
  dropped : Route

-- A text goes to the index, a binary file to the stream, a file that cannot be read nowhere.
unfoldable pub route_read : ℕ → ℕ → Read → Route
route_read size mtime_ns (Read.contents content) =
    if is_binary (text_of content)
    then streamed size mtime_ns
    else indexed size mtime_ns (text_of content)
route_read size mtime_ns _ = dropped

-- Only a regular file is kept, and a large one, or one past the budget, is not read.
unfoldable pub route : Limits → ℤ → Stat → Read → Route
unfolding route_read
route cfg total (Stat.regular size mtime_ns) read =
    if ltb (cfg.max_file_size_mb * mb) size
      || (not (cfg.max_index_mb == 0) && ltb_ℤ (pos (cfg.max_index_mb * mb)) (total +ℤ pos size))
    then streamed size mtime_ns
    else route_read size mtime_ns read
route cfg total _ read = dropped

abbrev pub indexed_as : (Bytes → Bytes → List Def) → Bytes → Route → Option FileEntry
indexed_as extract rel (indexed size mtime_ns text) = some (record {
  meta = record { path = rel; size = size; mtime_ns = mtime_ns };
  content = text;
  defs = extract rel text;
  dead = false;
})
indexed_as extract rel (streamed size mtime_ns) = none
indexed_as extract rel dropped = none

abbrev pub streamed_as : Route → Option StreamEntry
streamed_as (streamed size mtime_ns) = some (record { size = size; mtime_ns = mtime_ns })
streamed_as (indexed size mtime_ns text) = none
streamed_as dropped = none

-- The path goes where the route says, and every other path stays where it is.
abbrev pub Placed : (Bytes → Bytes → List Def) → Bytes → Route → RootStore → RootStore → Type 0
Placed extract rel r s t =
    (q : Bytes)
    → (entry_of t.idx q ≡ (if bytes_eq rel q then indexed_as extract rel r else entry_of s.idx q))
      × (stream_get q t.stream ≡ (if bytes_eq rel q then streamed_as r else stream_get q s.stream))

release_old-stream : (o : Option FileMeta) (s : RootStore) → (release_old o s).stream ≡ s.stream
unfolding release_old
release_old-stream none s = refl
release_old-stream (some m) s = refl

module _ (extract : Bytes → Bytes → List Def) (rel : Bytes) where
  to_stream-Placed :
      (size mtime_ns : ℕ) (s : RootStore)
      → IsValid s.idx
      → Placed extract rel (streamed size mtime_ns) s (to_stream rel size mtime_ns s)
  unfolding to_stream stream_get stream_put
  to_stream-Placed size mtime_ns s v q =
      let e : StreamEntry = record { size = size; mtime_ns = mtime_ns } in
      let old = meta_of s.idx rel in
      (
        ap (λ (j : Index). entry_of (remove j rel) q) (release_old-idx old s)
            ∙ remove-entry s.idx rel q v,
        ap (λ (m : Stream). get q (put rel e m)) (release_old-stream old s)
            ∙ get-put rel q e s.stream,
      )

  remove_tracked-Placed :
      (s : RootStore) → IsValid s.idx → Placed extract rel dropped s (remove_tracked rel s)
  unfolding remove_tracked stream_get stream_delete
  remove_tracked-Placed s v q =
      let old = meta_of s.idx rel in
      (
        ap (λ (j : Index). entry_of (remove j rel) q) (release_old-idx old s)
            ∙ remove-entry s.idx rel q v,
        ap (λ (m : Stream). get q (delete rel m)) (release_old-stream old s)
            ∙ get-delete rel q s.stream,
      )

  index_text-Placed :
      (size mtime_ns : ℕ) (text : Bytes) (s : RootStore)
      → IsValid s.idx
      → Placed extract rel
          (indexed size mtime_ns text)
          s
          (index_text extract rel size mtime_ns text s)
  unfolding index_text stream_get stream_delete
  index_text-Placed size mtime_ns text s v q =
      let meta : FileMeta = record { path = rel; size = size; mtime_ns = mtime_ns } in
      let old = meta_of s.idx rel in
      (
        ap (λ (j : Index). entry_of (add extract j meta text) q) (release_old-idx old s)
            ∙ add-entry extract s.idx meta text q v,
        ap (λ (m : Stream). get q (delete rel m)) (release_old-stream old s)
            ∙ get-delete rel q s.stream,
      )

  Placed-if :
      (b : Bool) (r1 r2 : Route) (s t1 t2 : RootStore)
      → Placed extract rel r1 s t1
      → Placed extract rel r2 s t2
      → Placed extract rel (if b then r1 else r2) s (if b then t1 else t2)
  Placed-if true r1 r2 s t1 t2 p1 p2 = p1
  Placed-if false r1 r2 s t1 t2 p1 p2 = p2

  Placed-or :
      (a b : Bool) (r1 r2 : Route) (s t1 t2 : RootStore)
      → Placed extract rel r1 s t1
      → Placed extract rel (if b then r1 else r2) s t2
      → Placed extract rel (if a || b then r1 else r2) s (if a then t1 else t2)
  Placed-or true b r1 r2 s t1 t2 p1 p2 = p1
  Placed-or false b r1 r2 s t1 t2 p1 p2 = p2

  index_read-Placed :
      (size mtime_ns : ℕ) (r : Read) (s : RootStore)
      → IsValid s.idx
      → Placed extract rel (route_read size mtime_ns r) s (index_read extract rel size mtime_ns r s)
  unfolding index_read route_read
  index_read-Placed size mtime_ns Read.missing s v =
      remove_tracked-Placed (record s { total_bytes = s.total_bytes -ℤ pos size }) v
  index_read-Placed size mtime_ns Read.unreadable s v =
      remove_tracked-Placed
        (record s { total_bytes = s.total_bytes -ℤ pos size; skipped_error = s.skipped_error + 1 })
        v
  index_read-Placed size mtime_ns (Read.contents content) s v =
      let s' : RootStore = record s {
        total_bytes = s.total_bytes -ℤ pos size;
        skipped_binary = s.skipped_binary + 1;
      } in
      Placed-if (is_binary (text_of content)) _ _ s _ _ (to_stream-Placed size mtime_ns s' v)
        (index_text-Placed size mtime_ns (text_of content) s v)

  index_reserved-Placed :
      (unlimited over : Bool) (size mtime_ns : ℕ) (r : Read) (s s' : RootStore)
      → IsValid s.idx
      → IsValid s'.idx
      → Placed extract rel
          (route_read size mtime_ns r)
          s
          (index_read extract rel size mtime_ns r s')
      → Placed extract rel
          (if not unlimited && over then streamed size mtime_ns else route_read size mtime_ns r)
          s
          (index_reserved extract rel size mtime_ns r s
            (if unlimited then some s' else if over then none else some s'))
  unfolding index_reserved
  index_reserved-Placed true over size mtime_ns r s s' v v' p = p
  index_reserved-Placed false true size mtime_ns r s s' v v' p =
      to_stream-Placed size mtime_ns (record s { skipped_budget = s.skipped_budget + 1 }) v
  index_reserved-Placed false false size mtime_ns r s s' v v' p = p

  -- Whatever the file system answers for a path, indexFile puts it where `route` says (in the index with
  -- the decoded text and the definitions found in it, in the stream manifest, or nowhere), takes it out of
  -- every other place, and leaves all other paths as they are, when the index is valid.
  pub index_file-Placed :
      (cfg : Limits) (st : Stat) (r : Read) (s : RootStore)
      → IsValid s.idx
      → Placed extract rel (route cfg s.total_bytes st r) s (index_file extract cfg rel st r s)
  unfolding index_file route reserve_bytes
  index_file-Placed cfg Stat.absent r s v = remove_tracked-Placed s v
  index_file-Placed cfg Stat.irregular r s v = remove_tracked-Placed s v
  index_file-Placed cfg Stat.denied r s v =
      remove_tracked-Placed (record s { skipped_error = s.skipped_error + 1 }) v
  index_file-Placed cfg (Stat.regular size mtime_ns) r s v =
      let s' : RootStore = record s { total_bytes = s.total_bytes +ℤ pos size } in
      Placed-or (ltb (cfg.max_file_size_mb * mb) size) _ _ _ s _ _
        (to_stream-Placed size mtime_ns (record s { skipped_large = s.skipped_large + 1 }) v)
        (index_reserved-Placed (cfg.max_index_mb == 0) _ size mtime_ns r s s' v v
          (index_read-Placed size mtime_ns r s' v))

-- A path is where `route` says, for what the file system answers and for some number of reserved bytes.
pub record IsSettled (extract : Bytes → Bytes → List Def) (cfg : Limits) (disk : Disk) (q : Bytes)
    (ix : Index) (m : Stream) : Type 0 where
  pub total : ℤ
  pub in_index : entry_of ix q ≡ indexed_as extract q (route cfg total (disk.stat q) (disk.read q))
  pub in_stream : stream_get q m ≡ streamed_as (route cfg total (disk.stat q) (disk.read q))

-- No path is both indexed and listed.
abbrev pub IsExclusive : RootStore → Type 0
IsExclusive s = (q : Bytes) → (entry_of s.idx q ≡ none) ⊎ (stream_get q s.stream ≡ none)

one_place :
    (extract : Bytes → Bytes → List Def) (rel : Bytes) (r : Route)
    → (indexed_as extract rel r ≡ none) ⊎ (streamed_as r ≡ none)
one_place extract rel (indexed size mtime_ns text) = inr refl
one_place extract rel (streamed size mtime_ns) = inl refl
one_place extract rel dropped = inl refl

module _ (extract : Bytes → Bytes → List Def) (cfg : Limits) (disk : Disk) (d : ℕ) where
  pub index_file-IsExclusive :
      (rel : Bytes) (st : Stat) (r : Read) (s : RootStore)
      → IsValid s.idx
      → IsExclusive s
      → IsExclusive (index_file extract cfg rel st r s)
  index_file-IsExclusive rel st r s v x q =
      let placed = index_file-Placed extract rel cfg st r s v q in
      let one = one_place extract rel (route cfg s.total_bytes st r) in
      let before = x q in ground (arith, placed.0, placed.1, one, before)

  IsSettled-here :
      (rel q : Bytes) (s : RootStore)
      → IsValid s.idx
      → bytes_eq rel q ≡ true
      → let t = index_file extract cfg rel (disk.stat rel) (disk.read rel) s in
        IsSettled extract cfg disk q t.idx t.stream
  IsSettled-here rel q s v e =
      let placed = index_file-Placed extract rel cfg (disk.stat rel) (disk.read rel) s v q in
      let same = (bytes_eq_iff rel q).0 e in
      let there : Bytes → Route =
        λ (p : Bytes). route cfg s.total_bytes (disk.stat p) (disk.read p) in
      record {
        total = s.total_bytes;
        in_index =
            placed.0
            ∙ ap (λ (b : Bool). if b then indexed_as extract rel (there rel) else entry_of s.idx q)
                e
            ∙ ap (λ (p : Bytes). indexed_as extract p (there p)) same;
        in_stream =
            placed.1
            ∙ ap (λ (b : Bool). if b then streamed_as (there rel) else stream_get q s.stream) e
            ∙ ap (λ (p : Bytes). streamed_as (there p)) same;
      }

  -- A path after the files of a list are indexed: settled, or untouched.
  abbrev pub Indexed : List Bytes → RootStore → Bytes → RootStore → Type 0
  Indexed rels s q t =
      (listed q rels ≡ true → IsSettled extract cfg disk q t.idx t.stream)
      × (listed q rels ≡ false
          → (entry_of t.idx q ≡ entry_of s.idx q) × (stream_get q t.stream ≡ stream_get q s.stream))

  pub same_place :
      (q : Bytes) (s t : RootStore)
      → entry_of t.idx q ≡ entry_of s.idx q
      → stream_get q t.stream ≡ stream_get q s.stream
      → IsSettled extract cfg disk q s.idx s.stream
      → IsSettled extract cfg disk q t.idx t.stream
  same_place q s t e f h = record {
    total = h.total;
    in_index = e ∙ h.in_index;
    in_stream = f ∙ h.in_stream;
  }

  Indexed-first :
      (rel : Bytes) (rels : List Bytes) (s : RootStore) (q : Bytes) (t : RootStore)
      → IsSound cfg d s
      → (let u = index_file extract cfg rel (disk.stat rel) (disk.read rel) s in
          Indexed rels u q t → Indexed (rel ∷ rels) s q t)
  unfolding listed
  Indexed-first rel rels s q t v later =
      let u = index_file extract cfg rel (disk.stat rel) (disk.read rel) s in
      let placed = index_file-Placed extract rel cfg (disk.stat rel) (disk.read rel) s v.valid q in
      (
        (λ h. elim (Bool-cases (listed q rels)) [
          | inl l ↦ later.0 l
          | inr l ↦
              let rest = later.1 l in
              same_place q u t rest.0 rest.1 (IsSettled-here rel q s v.valid (ground (arith, h, l)))
        ]),
        (λ h.
            let here : bytes_eq rel q ≡ false = ground (arith, h) in
            let rest = later.1 (ground (arith, h)) in
            let there = route cfg s.total_bytes (disk.stat rel) (disk.read rel) in
            (
              rest.0
                  ∙ placed.0
                  ∙ ap (λ (b : Bool). if b then indexed_as extract rel there else entry_of s.idx q)
                      here,
              rest.1
                  ∙ placed.1
                  ∙ ap (λ (b : Bool). if b then streamed_as there else stream_get q s.stream) here,
            )),
      )

  pub index_all_lem :
      (rels : List Bytes) (s : RootStore) (q : Bytes)
      → IsSound cfg d s
      → Indexed rels s q (index_all extract cfg disk rels s)
  unfolding index_all listed
  index_all_lem [] s q v = ((λ h. ground (arith, h)), (λ h. (refl, refl)))
  index_all_lem (rel ∷ rels) s q v =
      let u = index_file extract cfg rel (disk.stat rel) (disk.read rel) s in
      let sound =
        recount cfg d u (record u { indexed = u.indexed + 1 })
          (index_file-IsSound extract cfg d rel (disk.stat rel) (disk.read rel) s v) refl refl in
      Indexed-first rel rels s q (index_all extract cfg disk (rel ∷ rels) s) v
        (index_all_lem rels (record u { indexed = u.indexed + 1 }) q sound)

  pub index_all-IsExclusive :
      (rels : List Bytes) (s : RootStore)
      → IsSound cfg d s
      → IsExclusive s
      → IsExclusive (index_all extract cfg disk rels s)
  unfolding index_all
  index_all-IsExclusive [] s v x = x
  index_all-IsExclusive (rel ∷ rels) s v x =
      let u = index_file extract cfg rel (disk.stat rel) (disk.read rel) s in
      let sound =
        recount cfg d u (record u { indexed = u.indexed + 1 })
          (index_file-IsSound extract cfg d rel (disk.stat rel) (disk.read rel) s v) refl refl in
      index_all-IsExclusive rels _ sound
        (index_file-IsExclusive rel (disk.stat rel) (disk.read rel) s v.valid x)
