-- ===== src/Daemon/RootStore/Changes.antt =====
-- internal/daemon/store.go: what applyChange does to the reserved bytes.
use gcgrep.Base.{
  ℕ, ◌+◌, ◌-◌, ◌≤◌, ◌<◌, ◌≡◌, refl, ap, ◌∙◌, Bool, true, false, ◌&&◌, some, List, Bytes, arith,
  Bool-cases, inl, inr,
}
use gcgrep.Base.Int.{pos, pos_part}
use gcgrep.Symbol.{Def}
use gcgrep.Index.Store.{FileEntry, remove}
use gcgrep.Index.Store.Invariant.{remove-IsValid, remove_prefix-IsValid}
use gcgrep.Index.Store.View.{entry_of}
use gcgrep.Index.Store.Sizes.{live_bytes, size_in, live_bytes-remove, live_bytes-remove_prefix}
use gcgrep.Daemon.RootStore.{RootStore, Limits, Disk, Change, drop_path, apply_change}
use gcgrep.Daemon.RootStore.Accounts.{IsSound, index_file-IsSound, index_each-IsSound}

less_after_drop :
    (cfg : Limits) (d : ℕ) (rel : Bytes) (s : RootStore)
    → IsSound cfg d s
    → live_bytes (drop_path rel s).idx.files + size_in (entry_of s.idx rel) ≤ live_bytes s.idx.files
unfolding drop_path
less_after_drop cfg d rel s v = omega (
  arith,
  live_bytes-remove s.idx rel v.valid,
  live_bytes-remove_prefix (remove s.idx rel) rel (remove-IsValid s.idx rel v.valid),
)

drop_path-IsSound :
    (cfg : Limits) (d : ℕ) (rel : Bytes) (s : RootStore)
    → IsSound cfg d s
    → IsSound cfg
        (d + (live_bytes s.idx.files - live_bytes (drop_path rel s).idx.files))
        (drop_path rel s)
unfolding drop_path
drop_path-IsSound cfg d rel s v =
    let less = less_after_drop cfg d rel s v in
    let count : live_bytes s.idx.files + d
        ≡ live_bytes (drop_path rel s).idx.files
          + (d + (live_bytes s.idx.files - live_bytes (drop_path rel s).idx.files)) =
      omega (arith, less) in
    record {
      valid = remove_prefix-IsValid (remove s.idx rel) rel (remove-IsValid s.idx rel v.valid);
      accounted = v.accounted ∙ ap pos count;
      within = ground (arith, v.within, count);
    }

module _ (extract : Bytes → Bytes → List Def) (cfg : Limits) (disk : Disk)
    (ignored : Bytes → Bool → Bool) where
  -- The excess of totalBytes over the sizes of the indexed files never falls by a change that the watcher
  -- reports, and the index stays valid and the budget kept: the reserved bytes never run below what is used.
  pub apply_change-IsSound :
      (d : ℕ) (rel : Bytes) (c : Change) (s : RootStore)
      → IsSound cfg d s
      → (d' : ℕ) × (d ≤ d') × IsSound cfg d' (apply_change extract cfg disk ignored rel c s)
  unfolding apply_change
  apply_change-IsSound d rel Change.removed s v =
      elim (Bool-cases (ignored rel true && ignored rel false)) [
        | inl e ↦ (d, omega arith, rw e v)
        | inr e ↦ (
          d + (live_bytes s.idx.files - live_bytes (drop_path rel s).idx.files),
          omega arith,
          rw e (drop_path-IsSound cfg d rel s v),
        )
      ]
  apply_change-IsSound d rel (Change.directory subs) s v = elim (Bool-cases (ignored rel true)) [
    | inl e ↦ (d, omega arith, rw e v)
    | inr e ↦ (d, omega arith, rw e (index_each-IsSound extract cfg d disk subs s v))
  ]
  apply_change-IsSound d rel Change.file s v = elim (Bool-cases (ignored rel false)) [
    | inl e ↦ (d, omega arith, rw e v)
    | inr e ↦ (
      d,
      omega arith,
      rw e (index_file-IsSound extract cfg d rel (disk.stat rel) (disk.read rel) s v),
    )
  ]
  apply_change-IsSound d rel Change.other s v = (d, omega arith, v)

  -- The bytes of an indexed file that is not empty and whose removal the watcher reports are not given
  -- back: totalBytes is above the sizes of the indexed files afterwards, also where it was exact.
  pub apply_change_leaks :
      (d : ℕ) (rel : Bytes) (f : FileEntry) (s : RootStore)
      → IsSound cfg d s
      → entry_of s.idx rel ≡ some f
      → 0 < f.meta.size
      → ignored rel false ≡ false
      → live_bytes (apply_change extract cfg disk ignored rel Change.removed s).idx.files + d
        < pos_part (apply_change extract cfg disk ignored rel Change.removed s).total_bytes
  unfolding apply_change
  apply_change_leaks d rel f s v e h i =
      let less = less_after_drop cfg d rel s v in
      let total = ap pos_part v.accounted in
      let kept : (drop_path rel s).total_bytes ≡ s.total_bytes = unfold drop_path in refl in
      let size = ap size_in e in
      let gone : (ignored rel true && ignored rel false) ≡ false = ground (arith, i) in
      rw gone (omega (arith, less, total, ap pos_part kept, size, h))
