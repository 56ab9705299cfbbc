-- ===== src/Daemon/RootStore/Accounts.antt =====
-- internal/daemon/store.go: totalBytes against the sizes of the files in the index.
use gcgrep.Base.{
  ℕ, ◌+◌, ◌-◌, ◌*◌, ◌≤◌, ◌≡◌, ◌⊎◌, refl, ap, sym, ◌∙◌, Option, none, some, List, [], ◌∷◌, Bytes,
  if_both, arith,
}
use gcgrep.Base.Int.{ℤ, pos, ◌-ℤ◌, ◌+ℤ◌, pos-add, pos-sub}
use gcgrep.Symbol.{Def}
use gcgrep.Index.Store.{FileMeta, FileEntry, Index, meta_of, remove, add}
use gcgrep.Index.Store.Invariant.{IsValid, add-IsValid, remove-IsValid}
use gcgrep.Index.Store.View.{entry_of, meta_in, meta_of-entry}
use gcgrep.Index.Store.Sizes.{
  live_bytes, size_in, size-le-live_bytes, live_bytes-remove, live_bytes-add,
}
use gcgrep.Daemon.RootStore.{
  RootStore, Limits, mb, Stat, Read, Disk, release_old, to_stream, remove_tracked, reserve_bytes,
  text_of, index_text, index_read, index_reserved, index_file, index_all, index_each,
}
use gcgrep.Daemon.Utf16.{is_binary}

-- totalBytes is d more than the live files of a valid index have on disk, and within the budget.
pub record IsSound (cfg : Limits) (d : ℕ) (s : RootStore) : Type 0 where
  pub valid : IsValid s.idx
  pub accounted : s.total_bytes ≡ pos (live_bytes s.idx.files + d)
  pub within : (cfg.max_index_mb ≡ 0) ⊎ (live_bytes s.idx.files + d ≤ cfg.max_index_mb * mb)

pub release_old-idx : (o : Option FileMeta) (s : RootStore) → (release_old o s).idx ≡ s.idx
unfolding release_old
release_old-idx none s = refl
release_old-idx (some m) s = refl

release_size :
    (e : Option FileEntry) (s : RootStore) (t : ℕ)
    → s.total_bytes ≡ pos t
    → size_in e ≤ t
    → (release_old (meta_in e) s).total_bytes ≡ pos (t - size_in e)
unfolding release_old
release_size none s t e h = ground (arith, e)
release_size (some f) s t e h = ap (λ (z : ℤ). z -ℤ pos f.meta.size) e ∙ pos-sub t f.meta.size h

reserve_total :
    (cfg : Limits) (n : ℕ) (s s' : RootStore)
    → reserve_bytes cfg n s ≡ some s'
    → (s'.idx ≡ s.idx) × (s'.total_bytes ≡ s.total_bytes +ℤ pos n)
unfolding reserve_bytes
reserve_total cfg n s s' e = (ground arith, ground arith)

reserve_fits :
    (cfg : Limits) (n t : ℕ) (s s' : RootStore)
    → s.total_bytes +ℤ pos n ≡ pos (t + n)
    → reserve_bytes cfg n s ≡ some s'
    → (cfg.max_index_mb ≡ 0) ⊎ (t + n ≤ cfg.max_index_mb * mb)
unfolding reserve_bytes
reserve_fits cfg n t s s' h e = ground arith

module _ (cfg : Limits) (d : ℕ) where
  -- What is left after the old size of a path is given back.
  released :
      (rel : Bytes) (s : RootStore)
      → IsSound cfg d s
      → (release_old (meta_of s.idx rel) s).total_bytes
        ≡ pos (live_bytes s.idx.files + d - size_in (entry_of s.idx rel))
  released rel s v =
      ap (λ (o : Option FileMeta). (release_old o s).total_bytes) (meta_of-entry s.idx rel v.valid)
      ∙ release_size (entry_of s.idx rel) s (live_bytes s.idx.files + d) v.accounted
          (omega (arith, size-le-live_bytes rel s.idx.files))

  removed-IsSound :
      (rel : Bytes) (s t : RootStore)
      → IsSound cfg d s
      → t.idx ≡ remove s.idx rel
      → t.total_bytes ≡ (release_old (meta_of s.idx rel) s).total_bytes
      → IsSound cfg d t
  removed-IsSound rel s t v e h =
      let less = live_bytes-remove s.idx rel v.valid in
      let size : live_bytes t.idx.files ≡ live_bytes (remove s.idx rel).files =
        ap (λ (j : Index). live_bytes j.files) e in
      let left : live_bytes s.idx.files + d - size_in (entry_of s.idx rel)
          ≡ live_bytes t.idx.files + d =
        omega (arith, less, size) in
      record {
        valid = rw e (remove-IsValid s.idx rel v.valid);
        accounted = h ∙ released rel s v ∙ ap pos left;
        within = ground (arith, v.within, less, size);
      }

  to_stream-IsSound :
      (rel : Bytes) (size mtime_ns : ℕ) (s : RootStore)
      → IsSound cfg d s
      → IsSound cfg d (to_stream rel size mtime_ns s)
  unfolding to_stream
  to_stream-IsSound rel size mtime_ns s v =
      removed-IsSound rel s (to_stream rel size mtime_ns s) v
        (ap (λ (j : Index). remove j rel) (release_old-idx (meta_of s.idx rel) s)) refl

  remove_tracked-IsSound :
      (rel : Bytes) (s : RootStore) → IsSound cfg d s → IsSound cfg d (remove_tracked rel s)
  unfolding remove_tracked
  remove_tracked-IsSound rel s v =
      removed-IsSound rel s (remove_tracked rel s) v
        (ap (λ (j : Index). remove j rel) (release_old-idx (meta_of s.idx rel) s)) refl

  -- The counters play no part.
  pub recount :
      (s t : RootStore)
      → IsSound cfg d s
      → t.idx ≡ s.idx
      → t.total_bytes ≡ s.total_bytes
      → IsSound cfg d t
  recount s t v e h =
      let same = ap (λ (j : Index). live_bytes j.files) e in
      record {
        valid = rw e v.valid;
        accounted = h ∙ v.accounted ∙ ap (λ (n : ℕ). pos (n + d)) (sym same);
        within = ground (arith, v.within, same);
      }

  -- Giving a reservation back.
  refund :
      (n : ℕ) (s t : RootStore)
      → IsSound cfg (d + n) s
      → t.idx ≡ s.idx
      → t.total_bytes ≡ s.total_bytes -ℤ pos n
      → IsSound cfg d t
  refund n s t v e h =
      let same = ap (λ (j : Index). live_bytes j.files) e in
      let left : live_bytes s.idx.files + (d + n) - n ≡ live_bytes t.idx.files + d =
        omega (arith, same) in
      record {
        valid = rw e v.valid;
        accounted =
            h
            ∙ ap (λ (z : ℤ). z -ℤ pos n) v.accounted
            ∙ pos-sub (live_bytes s.idx.files + (d + n)) n (omega arith)
            ∙ ap pos left;
        within = ground (arith, v.within, same);
      }

  reserved-IsSound :
      (n : ℕ) (s s' : RootStore)
      → IsSound cfg d s
      → reserve_bytes cfg n s ≡ some s'
      → IsSound cfg (d + n) s'
  reserved-IsSound n s s' v e =
      let (same_idx, total) = reserve_total cfg n s s' e in
      let same = ap (λ (j : Index). live_bytes j.files) same_idx in
      let sum = ap (λ (z : ℤ). z +ℤ pos n) v.accounted ∙ pos-add (live_bytes s.idx.files + d) n in
      let fits = reserve_fits cfg n (live_bytes s.idx.files + d) s s' sum e in
      let count : live_bytes s.idx.files + d + n ≡ live_bytes s'.idx.files + (d + n) =
        omega (arith, same) in
      record {
        valid = rw same_idx v.valid;
        accounted = total ∙ sum ∙ ap pos count;
        within = ground (arith, fits, count);
      }

module _ (extract : Bytes → Bytes → List Def) (cfg : Limits) (d : ℕ) where
  index_text-IsSound :
      (rel : Bytes) (size mtime_ns : ℕ) (content : Bytes) (s : RootStore)
      → IsSound cfg (d + size) s
      → IsSound cfg d (index_text extract rel size mtime_ns content s)
  unfolding index_text
  index_text-IsSound rel size mtime_ns content s v =
      let meta : FileMeta = record { path = rel; size = size; mtime_ns = mtime_ns } in
      let old = meta_of s.idx rel in
      let kept : add extract (release_old old s).idx meta content ≡ add extract s.idx meta content =
        ap (λ (j : Index). add extract j meta content) (release_old-idx old s) in
      let more = live_bytes-add extract s.idx meta content v.valid in
      let same = ap (λ (j : Index). live_bytes j.files) kept in
      let left : live_bytes s.idx.files + (d + size) - size_in (entry_of s.idx rel)
          ≡ live_bytes (add extract (release_old old s).idx meta content).files + d =
        omega (arith, more, same) in
      record {
        valid = rw kept (add-IsValid extract s.idx meta content v.valid);
        accounted = released cfg (d + size) rel s v ∙ ap pos left;
        within = ground (arith, v.within, more, same);
      }

  index_read-IsSound :
      (rel : Bytes) (size mtime_ns : ℕ) (r : Read) (s : RootStore)
      → IsSound cfg (d + size) s
      → IsSound cfg d (index_read extract rel size mtime_ns r s)
  unfolding index_read
  index_read-IsSound rel size mtime_ns Read.missing s v =
      remove_tracked-IsSound cfg d rel _ (refund cfg d size s _ v refl refl)
  index_read-IsSound rel size mtime_ns Read.unreadable s v =
      remove_tracked-IsSound cfg d rel _ (refund cfg d size s _ v refl refl)
  index_read-IsSound rel size mtime_ns (Read.contents content) s v =
      if_both (IsSound cfg d) (is_binary (text_of content)) _ _
        (to_stream-IsSound cfg d rel size mtime_ns _ (refund cfg d size s _ v refl refl))
        (index_text-IsSound rel size mtime_ns (text_of content) s v)

  index_regular-IsSound :
      (rel : Bytes) (size mtime_ns : ℕ) (r : Read) (s : RootStore) (o : Option RootStore)
      → IsSound cfg d s
      → reserve_bytes cfg size s ≡ o
      → IsSound cfg d (index_reserved extract rel size mtime_ns r s o)
  unfolding index_reserved
  index_regular-IsSound rel size mtime_ns r s none v e =
      to_stream-IsSound cfg d rel size mtime_ns _ (recount cfg d s _ v refl refl)
  index_regular-IsSound rel size mtime_ns r s (some s') v e =
      index_read-IsSound rel size mtime_ns r s' (reserved-IsSound cfg d size s s' v e)

  pub index_file-IsSound :
      (rel : Bytes) (st : Stat) (r : Read) (s : RootStore)
      → IsSound cfg d s
      → IsSound cfg d (index_file extract cfg rel st r s)
  unfolding index_file
  index_file-IsSound rel Stat.absent r s v = remove_tracked-IsSound cfg d rel s v
  index_file-IsSound rel Stat.irregular r s v = remove_tracked-IsSound cfg d rel s v
  index_file-IsSound rel Stat.denied r s v =
      remove_tracked-IsSound cfg d rel _ (recount cfg d s _ v refl refl)
  index_file-IsSound rel (Stat.regular size mtime_ns) r s v =
      if_both (IsSound cfg d) _ _ _
        (to_stream-IsSound cfg d rel size mtime_ns _ (recount cfg d s _ v refl refl))
        (index_regular-IsSound rel size mtime_ns r s (reserve_bytes cfg size s) v refl)

  -- However the file system answers for each of the paths that are indexed, totalBytes stays as far above
  -- the sizes of the files in the index as it was, the index stays valid, and the budget, if there is
  -- one, is not passed: where totalBytes was exact it stays exact.
  pub index_all-IsSound :
      (disk : Disk) (rels : List Bytes) (s : RootStore)
      → IsSound cfg d s
      → IsSound cfg d (index_all extract cfg disk rels s)
  unfolding index_all
  index_all-IsSound disk [] s v = v
  index_all-IsSound disk (rel ∷ rels) s v =
      index_all-IsSound disk rels _
        (recount cfg d _ _ (index_file-IsSound rel (disk.stat rel) (disk.read rel) s v) refl refl)

  pub index_each-IsSound :
      (disk : Disk) (rels : List Bytes) (s : RootStore)
      → IsSound cfg d s
      → IsSound cfg d (index_each extract cfg disk rels s)
  unfolding index_each
  index_each-IsSound disk [] s v = v
  index_each-IsSound disk (rel ∷ rels) s v =
      index_each-IsSound disk rels _ (index_file-IsSound rel (disk.stat rel) (disk.read rel) s v)
