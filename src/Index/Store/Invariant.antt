-- ===== src/Index/Store/Invariant.antt =====
-- Every operation keeps the store's tables right.
use gcgrep.Base.{
  ℕ, ◌+◌, ◌*◌, ◌-◌, ◌≡◌, refl, ap, sym, ◌∙◌, Bool, false, none, some, List, [], ◌∷◌, Bytes, if_both,
  length, ltb, arith, Option-cases, inl, inr,
}
use gcgrep.Go.Map.{Map, get, delete, get-delete, bytes_eq_iff, nat_key, bytes_key}
use gcgrep.Symbol.{Def}
use gcgrep.Index.Postings.{trigram_keys}
use gcgrep.Index.Store.{
  FileEntry, FileMeta, Index, new, kill, live_files, remove_at, remove_locked, compact,
  maybe_compact_locked, insert_locked, add_with_keys, add, remove, is_under, remove_if, remove_each,
  remove_prefix,
}
use gcgrep.Index.Store.Live.{
  dead_count, Free-live_index, dead_count-kill, dead_count-snoc, live_files-Unique,
  live_files-AllLive, dead_count-AllLive,
}
use gcgrep.Index.Store.Tables.{Indexed, Indexed-nil, kill-Indexed, snoc-Indexed, rebuild-Indexed}

-- The tables agree with the files, and `dead` counts the dead ones.
pub record IsValid (ix : Index) : Type 0 where
  pub indexed : Indexed ix.files ix.by_path ix.tri
  pub counted : ix.dead ≡ dead_count ix.files

pub new-IsValid : (root : Bytes) → IsValid (new root)
unfolding new dead_count
new-IsValid root = record { indexed = Indexed-nil; counted = refl }

pub remove_locked-none :
    (ix : Index) (p : Bytes) → get p ix.by_path ≡ none → remove_locked ix p ≡ ix
unfolding remove_locked
remove_locked-none ix p e = ap (remove_at ix p) e

pub remove_locked-some :
    (ix : Index) (p : Bytes) (id : ℕ)
    → get p ix.by_path ≡ some id
    → remove_locked ix p
      ≡ record ix { files = kill id ix.files; dead = ix.dead + 1; by_path = delete p ix.by_path }
unfolding remove_locked
remove_locked-some ix p id e = ap (remove_at ix p) e

pub remove_locked-IsValid : (ix : Index) (p : Bytes) → IsValid ix → IsValid (remove_locked ix p)
remove_locked-IsValid ix p v = elim (Option-cases (get p ix.by_path)) [
  | inl e ↦ rw (remove_locked-none ix p e) v
  | inr (id, e) ↦ rw (remove_locked-some ix p id e) (record {
    indexed = kill-Indexed p id v.indexed e;
    counted = omega (arith, v.counted, dead_count-kill p ix.files id (sym (v.indexed.paths p) ∙ e));
  })
]

pub remove_locked-gone : (ix : Index) (p : Bytes) → get p (remove_locked ix p).by_path ≡ none
remove_locked-gone ix p = elim (Option-cases (get p ix.by_path)) [
  | inl e ↦ rw (remove_locked-none ix p e) e
  | inr (id, e) ↦
      rw (remove_locked-some ix p id e)
        (ground (arith, get-delete p p ix.by_path, bytes_eq_iff p p))
]

compact-IsValid : (ix : Index) → IsValid ix → IsValid (compact ix)
unfolding compact
compact-IsValid ix v =
    let live = live_files-AllLive ix.files in
    record {
      indexed =
          rebuild-Indexed (live_files ix.files) [] 0 [] [] refl Indexed-nil live
            (live_files-Unique ix.files v.indexed.unique);
      counted = sym (dead_count-AllLive (live_files ix.files) live);
    }

pub maybe_compact_locked-IsValid : (ix : Index) → IsValid ix → IsValid (maybe_compact_locked ix)
unfolding maybe_compact_locked
maybe_compact_locked-IsValid ix v =
    if_both IsValid (ltb ix.dead 64) _ _ v
      (if_both IsValid (ltb (ix.dead * 4) (length ix.files - ix.dead)) _ _ v (compact-IsValid ix v))

pub insert_locked-IsValid :
    (ix : Index) (meta : FileMeta) (content : Bytes) (defs : List Def)
    → IsValid ix
    → get meta.path ix.by_path ≡ none
    → IsValid (insert_locked ix meta content (trigram_keys content) defs)
unfolding insert_locked
insert_locked-IsValid ix meta content defs v e =
    let f : FileEntry = record { meta = meta; content = content; defs = defs; dead = false } in
    record {
      indexed =
          snoc-Indexed f v.indexed refl
            (Free-live_index meta.path ix.files (sym (v.indexed.paths meta.path) ∙ e));
      counted = v.counted ∙ sym (dead_count-snoc ix.files f refl);
    }

pub add-IsValid :
    (extract : Bytes → Bytes → List Def) (ix : Index) (meta : FileMeta) (content : Bytes)
    → IsValid ix
    → IsValid (add extract ix meta content)
unfolding add add_with_keys
add-IsValid extract ix meta content v = maybe_compact_locked-IsValid _ (
    insert_locked-IsValid (remove_locked ix meta.path) meta content (extract meta.path content)
      (remove_locked-IsValid ix meta.path v) (remove_locked-gone ix meta.path))

pub remove-IsValid : (ix : Index) (p : Bytes) → IsValid ix → IsValid (remove ix p)
unfolding remove
remove-IsValid ix p v = maybe_compact_locked-IsValid _ (remove_locked-IsValid ix p v)

pub remove_each-IsValid :
    (test : Bytes → Bool) (m : Map Bytes ℕ) (ix : Index)
    → IsValid ix
    → IsValid (remove_each test m ix)
unfolding remove_each
remove_each-IsValid test [] ix v = v
remove_each-IsValid test ((p, id) ∷ m) ix v =
    remove_each-IsValid test m (remove_if test ix p)
      (if_both IsValid (test p) _ _ (remove_locked-IsValid ix p v) v)

pub remove_prefix-IsValid : (ix : Index) (dir : Bytes) → IsValid ix → IsValid (remove_prefix ix dir)
unfolding remove_prefix
remove_prefix-IsValid ix dir v =
    maybe_compact_locked-IsValid _ (remove_each-IsValid (is_under dir) ix.by_path ix v)
