-- ===== src/Shard/Engine/Dirty.antt =====
-- internal/shard/engine.go: what the operations on the dirty list do to one path.
use gcgrep.Base.{
  ◌≡◌, ◌≢◌, ◌⊎◌, ◌↔◌, sym, ◌∙◌, refl, ap, Bool, true, false, ◌&&◌, ◌||◌, not, Option, none, some,
  List, [], ◌∷◌, Bytes, if◌then◌else◌, arith, Bool-cases, inl, inr,
}
use gcgrep.Go.Map.{get, put, delete, bytes_eq, bytes_eq_iff, bytes_key, get-put, get-delete}
use gcgrep.Shard.Engine.{DirtyEntry, Dirty, mark_deleted, mark_each, same_entry, clear}

-- A path is on a list.
listed : Bytes → List Bytes → Bool
listed p [] = false
listed p (q ∷ qs) = bytes_eq q p || listed p qs

get-mark_each :
    (ps : List Bytes) (dirty : Dirty) (p : Bytes)
    → get p (mark_each ps dirty)
      ≡ (if listed p ps then some (record { deleted = true }) else get p dirty)
unfolding mark_each mark_deleted listed
get-mark_each [] dirty p = refl
get-mark_each (q ∷ qs) dirty p = ground (
  arith,
  get-mark_each qs (put q (record { deleted = true }) dirty) p,
  get-put q p (record { deleted = true }) dirty,
)

-- The test of `clear` on the snapshot.
abbrev settled : (Bytes → Bool) → Bytes → Dirty → Option DirtyEntry → Bool
settled keep p [] now = false
settled keep p ((q, e) ∷ snap) now =
    bytes_eq q p && (not (keep p) && same_entry now e) || settled keep p snap now

settled-none : (keep : Bytes → Bool) (p : Bytes) (snap : Dirty) → settled keep p snap none ≡ false
unfolding same_entry
settled-none keep p [] = refl
settled-none keep p ((q, e) ∷ snap) = ground (arith, settled-none keep p snap)

clear-settled :
    (keep : Bytes → Bool) (snap dirty : Dirty) (p : Bytes)
    → get p (clear keep snap dirty)
      ≡ (if settled keep p snap (get p dirty) then none else get p dirty)
unfolding clear
clear-settled keep [] dirty p = refl
clear-settled keep ((q, e) ∷ snap) dirty p = elim (Bool-cases (bytes_eq q p)) [
  | inl h ↦
      let same = (bytes_eq_iff q p).0 h in
      let g : get q dirty ≡ get p dirty = ap (λ (k : Bytes). get k dirty) same in
      let k : keep q ≡ keep p = ap keep same in
      ground (
        arith,
        g,
        k,
        clear-settled keep snap dirty p,
        clear-settled keep snap (delete q dirty) p,
        get-delete q p dirty,
        settled-none keep p snap,
      )
  | inr h ↦ ground (
    arith,
    clear-settled keep snap dirty p,
    clear-settled keep snap (delete q dirty) p,
    get-delete q p dirty,
  )
]

-- The snapshot that the rebuild started from has the entry for the path.
abbrev pub Snapped : Bytes → DirtyEntry → Dirty → Type 0
Snapped p e [] = ⊥
Snapped p e ((q, x) ∷ snap) = (q ≡ p) × (x ≡ e) ⊎ Snapped p e snap

same_entry_iff : (o : Option DirtyEntry) (e : DirtyEntry) → (same_entry o e ≡ true) ↔ (o ≡ some e)
unfolding same_entry
same_entry_iff none e = ((λ h. ground (arith, h)), (λ h. ground (arith, h)))
same_entry_iff (some x) e = (
  (λ h. ap (λ (b : Bool). some (record { deleted = b })) (ground (arith, h))),
  (λ h. let flag : x.deleted ≡ e.deleted = ground (arith, h) in ground (arith, flag)),
)

settled-Snapped :
    (keep : Bytes → Bool) (p : Bytes) (e : DirtyEntry) (snap : Dirty) (now : Option DirtyEntry)
    → keep p ≡ false
    → Snapped p e snap
    → now ≡ some e
    → settled keep p snap now ≡ true
settled-Snapped keep p e [] now k s h = absurd s
settled-Snapped keep p e ((q, x) ∷ snap) now k (inl (same, entry)) h =
    let named = (bytes_eq_iff q p).1 same in
    let held = (same_entry_iff now x).1 (h ∙ ap some (sym entry)) in ground (arith, named, held, k)
settled-Snapped keep p e ((q, x) ∷ snap) now k (inr s) h =
    ground (arith, settled-Snapped keep p e snap now k s h)

Snapped-settled :
    (keep : Bytes → Bool) (p : Bytes) (snap : Dirty) (now : Option DirtyEntry)
    → settled keep p snap now ≡ true
    → (keep p ≡ false) × (e : DirtyEntry) × Snapped p e snap × (now ≡ some e)
Snapped-settled keep p [] now h = ground (arith, h)
Snapped-settled keep p ((q, x) ∷ snap) now h =
    elim (Bool-cases (bytes_eq q p && (not (keep p) && same_entry now x))) [
      | inl here ↦ (
        ground (arith, here),
        x,
        inl ((bytes_eq_iff q p).0 (ground (arith, here)), refl),
        (same_entry_iff now x).0 (ground (arith, here)),
      )
      | inr other ↦
          let (k, e, s, same) = Snapped-settled keep p snap now (ground (arith, h, other)) in
          (k, e, inr s, same)
    ]

-- When a rebuild ends, the dirty list has lost a path that is not deferred and whose entry now is one that the
-- snapshot has for it, and every other path keeps what it has: a deferred path, one that was marked with another
-- flag in the meantime, and one that was marked only then. An entry is its flag and no more, so a path that was
-- marked again with the same flag in the meantime is lost as well.
pub get-clear :
    (keep : Bytes → Bool) (snap dirty : Dirty) (p : Bytes)
    → ((e : DirtyEntry)
        → keep p ≡ false
        → Snapped p e snap
        → get p dirty ≡ some e
        → get p (clear keep snap dirty) ≡ none)
      × ((keep p ≡ true) ⊎ ((e : DirtyEntry) → Snapped p e snap → get p dirty ≢ some e)
          → get p (clear keep snap dirty) ≡ get p dirty)
get-clear keep snap dirty p =
    let now = get p dirty in
    let cleared = clear-settled keep snap dirty p in
    (
      (λ e k s h.
          let lost = settled-Snapped keep p e snap now k s h in ground (arith, cleared, lost)),
      (λ h. elim (Bool-cases (settled keep p snap now)) [
        | inr kept ↦ ground (arith, cleared, kept)
        | inl lost ↦
            let (k, e, s, same) = Snapped-settled keep p snap now lost in
            absurd
              (elim h [ inl deferred ↦ ground (arith, k, deferred) | inr other ↦ other e s same ])
      ]),
    )
