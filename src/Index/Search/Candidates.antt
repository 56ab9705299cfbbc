-- ===== src/Index/Search/Candidates.antt =====
-- The candidates of a literal leave out no file that can contain it.
use gcgrep.Base.{
  ℕ, zero, suc, ◌+◌, ◌<◌, ◌≡◌, refl, ap, inl, inr, true, false, some, List, [], ◌∷◌, map, Bytes,
  ltb, length, get_or, get_elem?, drop, arith, Option-cases, length-map,
}
use mathlib.Core.Path.{subst}
use native.Mathlib.Nat.{zero-add}
use gcgrep.Go.Bytes.{has_prefix}
use gcgrep.Go.Map.{Map, get, nat_key, bytes_key}
use gcgrep.Index.{lower}
use gcgrep.Index.Postings.{trigram_keys, intersect_sorted, ids_of}
use gcgrep.Index.Postings.Intersect.{
  Holds, IsIncreasing, intersect_sorted_iff, intersect-IsIncreasing,
}
use gcgrep.Index.Postings.Trigrams.{HasTrigram, trigram_keys_iff, prefix-HasTrigram}
use gcgrep.Index.Store.{FileEntry, Index}
use gcgrep.Index.Store.Tables.{Posted}
use gcgrep.Index.Store.Invariant.{IsValid}
use gcgrep.Index.Search.{collect, shortest, intersect_rest, intersect_all, candidates_locked}

-- Every list holds the id, and is increasing.
abbrev AllHold : ℕ → List (List ℕ) → Type 0
AllHold i [] = Unit {0}
AllHold i (l ∷ ls) = Holds l i × IsIncreasing l × AllHold i ls

intersect_rest-Holds :
    (ls : List (List ℕ)) (n skip : ℕ) (out : List ℕ) (i : ℕ)
    → IsIncreasing out
    → Holds out i
    → AllHold i ls
    → Holds (intersect_rest ls n skip out) i
unfolding intersect_rest
intersect_rest-Holds [] n skip out i p h a = h
intersect_rest-Holds (l ∷ ls) n skip out i p h a =
    let both = (intersect_sorted_iff out l i p a.1).1 (h, a.0) in
    choose (intersect_sorted out l) refl both (intersect_rest-Holds ls (suc n) skip out i p h a.2) (
      intersect_rest-Holds ls (suc n) skip (intersect_sorted out l) i
        (intersect-IsIncreasing out l p) both a.2)
  where
    choose :
        (next : List ℕ)
        → next ≡ intersect_sorted out l
        → Holds next i
        → Holds (intersect_rest ls (suc n) skip out) i
        → Holds (intersect_rest ls (suc n) skip (intersect_sorted out l)) i
        → Holds (intersect_rest (l ∷ ls) n skip out) i
    choose [] e h k m = absurd h
    choose (x ∷ xs) e h k m = ground arith

shortest-lt :
    (ls : List (List ℕ)) (n best size : ℕ) → best < n → shortest ls n best size < n + length ls
unfolding shortest
shortest-lt [] n best size h = omega arith
shortest-lt (l ∷ ls) n best size h =
    ground (arith, shortest-lt ls (suc n) n (length l), shortest-lt ls (suc n) best size)

AllHold-get_or :
    (ls : List (List ℕ)) (n i : ℕ)
    → n < length ls
    → AllHold i ls
    → Holds (get_or ls n []) i × IsIncreasing (get_or ls n [])
AllHold-get_or [] n i h a = absurd (omega arith)
AllHold-get_or (l ∷ ls) zero i h a = (a.0, a.1)
AllHold-get_or (l ∷ ls) (suc n) i h a = AllHold-get_or ls n i (omega arith) a.2

shortest-first :
    (l : List ℕ) (ls : List (List ℕ)) (size : ℕ) → shortest (l ∷ ls) 0 0 size < length (l ∷ ls)
unfolding shortest
shortest-first l ls size = ground (arith, shortest-lt ls 1 0 (length l), shortest-lt ls 1 0 size)

intersect_all-Holds :
    (l : List ℕ) (ls : List (List ℕ)) (i : ℕ)
    → AllHold i (l ∷ ls)
    → Holds (intersect_all (l ∷ ls)) i
unfolding intersect_all
intersect_all-Holds l ls i a =
    let best = shortest (l ∷ ls) 0 0 (length l) in
    let (h, p) = AllHold-get_or (l ∷ ls) best i (shortest-first l ls (length l)) a in
    intersect_rest-Holds (l ∷ ls) 0 best (get_or (l ∷ ls) best []) i p h a

-- A key whose list holds an id has a list.
Holds-get :
    (tri : Map ℕ (List ℕ)) (k i : ℕ)
    → Holds (ids_of tri k) i
    → (l : List ℕ) × (get k tri ≡ some l) × (ids_of tri k ≡ l)
unfolding ids_of
Holds-get tri k i h = elim (Option-cases (get k tri)) [
  | inl e ↦ absurd (ground arith)
  | inr (l, e) ↦ (l, e, ground arith)
]

collect-Holds :
    (tri : Map ℕ (List ℕ)) (ks : List ℕ) (i : ℕ)
    → ((k : ℕ) → IsIncreasing (ids_of tri k))
    → ((k : ℕ) → Holds ks k → Holds (ids_of tri k) i)
    → (ls : List (List ℕ)) × (collect tri ks ≡ some ls) × AllHold i ls × (length ls ≡ length ks)
unfolding collect
collect-Holds tri [] i s h = ([], refl, tt, refl)
collect-Holds tri (k ∷ ks) i s h =
    let (ls, e, a, n) = collect-Holds tri ks i s (λ j m. h j (inr m)) in
    let (l, g, same) = Holds-get tri k i (h k (inl refl)) in
    (l ∷ ls, ground arith, (rw (← same) (h k (inl refl)), rw (← same) (s k), a), ap suc n)

HasTrigram-lists :
    (tri : Map ℕ (List ℕ)) (lit : Bytes) (i : ℕ)
    → ((k : ℕ) → IsIncreasing (ids_of tri k))
    → ((k : ℕ) → HasTrigram lit k → Holds (ids_of tri k) i)
    → (ls : List (List ℕ)) × (collect tri (trigram_keys lit) ≡ some ls)
      × AllHold i ls
      × (length ls ≡ length (trigram_keys lit))
HasTrigram-lists tri lit i s h =
    collect-Holds tri (trigram_keys lit) i s (λ k m. h k ((trigram_keys_iff lit k).0 m))

trigram_keys-ne : (lit : Bytes) → (ltb (length lit) 3 ≡ false) → (k : ℕ) × HasTrigram lit k
trigram_keys-ne [] e = absurd (ground arith)
trigram_keys-ne (a ∷ []) e = absurd (ground arith)
trigram_keys-ne (a ∷ b ∷ []) e = absurd (ground arith)
trigram_keys-ne (a ∷ b ∷ c ∷ s) e = (_, inl refl)

Posted-Holds :
    (tri : Map ℕ (List ℕ)) (n id : ℕ) (fs : List FileEntry) (f : FileEntry) (k : ℕ)
    → Posted tri n fs
    → get_elem? fs id ≡ some f
    → f.dead ≡ false
    → HasTrigram f.content k
    → Holds (ids_of tri k) (n + id)
Posted-Holds tri n id [] f k h e d t = absurd (ground arith)
Posted-Holds tri n zero (g ∷ fs) f k h e d t =
    let same : n ≡ n + 0 = omega arith in
    let found : f ≡ g = cc in
    rw (← same) (h.0 (ground arith) k (subst (λ (x : FileEntry). HasTrigram x.content k) found t))
Posted-Holds tri n (suc id) (g ∷ fs) f k h e d t =
    let same : suc n + id ≡ n + suc id = omega arith in
    rw (← same) (Posted-Holds tri (suc n) id fs f k h.1 e d t)

-- A folded occurrence of the literal in the content.
abbrev pub FoldOccurs : Bytes → Bytes → Type 0
FoldOccurs lit content = (p : ℕ) × (has_prefix (map lower (drop p content)) (map lower lit) ≡ true)

HasTrigram-drop : (p : ℕ) (s : Bytes) (k : ℕ) → HasTrigram (drop p s) k → HasTrigram s k
HasTrigram-drop zero s k h = h
HasTrigram-drop (suc p) [] k h = h
HasTrigram-drop (suc p) (a ∷ s) k h = behind a s (HasTrigram-drop p s k h)
  where
    behind : (a : ℕ) (s : Bytes) → HasTrigram s k → HasTrigram (a ∷ s) k
    behind a (b ∷ c ∷ s) t = inr t
    behind a [] t = absurd t
    behind a (b ∷ []) t = absurd t

nonempty-Holds :
    (ls : List (List ℕ)) (i : ℕ) → 0 < length ls → AllHold i ls → Holds (intersect_all ls) i
nonempty-Holds [] i h a = absurd (omega arith)
nonempty-Holds (l ∷ ls) i h a = intersect_all-Holds l ls i a

Holds-length : (ks : List ℕ) (k : ℕ) → Holds ks k → 0 < length ks
Holds-length [] k h = absurd h
Holds-length (j ∷ ks) k h = omega arith

candidates_long :
    (ix : Index) (lit : Bytes) (i : ℕ)
    → ltb (length lit) 3 ≡ false
    → ((k : ℕ) → IsIncreasing (ids_of ix.tri k))
    → ((k : ℕ) → HasTrigram lit k → Holds (ids_of ix.tri k) i)
    → Holds (candidates_locked ix lit) i
unfolding candidates_locked trigram_keys
candidates_long ix lit i long s h =
    let (k, t) = trigram_keys-ne lit long in
    let (ls, e, a, n) = HasTrigram-lists ix.tri lit i s h in
    let some_key = Holds-length (trigram_keys lit) k ((trigram_keys_iff lit k).1 t) in
    let held = nonempty-Holds ls i (rw n some_key) a in ground arith

-- In a valid store every live file whose lowercased content contains the lowercased literal, of
-- three bytes or more, is among the candidates that the posting lists give.
pub candidates_complete :
    (ix : Index) (lit : Bytes) (id : ℕ) (f : FileEntry)
    → IsValid ix
    → ltb (length lit) 3 ≡ false
    → get_elem? ix.files id ≡ some f
    → f.dead ≡ false
    → FoldOccurs lit f.content
    → Holds (candidates_locked ix (map lower lit)) id
candidates_complete ix lit id f v long e d (p, o) =
    candidates_long ix (map lower lit) id (rw (length-map lower lit) long) v.indexed.sorted (λ k t.
      subst (λ (j : ℕ). Holds (ids_of ix.tri k) j) (zero-add id)
        (Posted-Holds ix.tri 0 id ix.files f k v.indexed.posted e d
          (HasTrigram-drop p f.content k (prefix-HasTrigram (drop p f.content) lit k o t))))
