-- ===== src/Index/Literal/FindAll.antt =====
-- literalFindAll finds the leftmost occurrences that do not overlap, and misses none of the others.
use gcgrep.Base.{
  ℕ, zero, suc, ◌+◌, ◌-◌, ◌≤◌, ◌<◌, ◌≡◌, refl, ◌⊎◌, inl, inr, true, false, Option, List, [], ◌∷◌,
  map, Bytes, length, drop, arith, Option-cases, length-drop, drop-drop, drop-nil, length-map,
}
use gcgrep.Go.Bytes.{index, has_prefix, Occurs, index-some, index_first, index-none}
use gcgrep.Index.{lower}
use gcgrep.Index.Literal.{fold_index, find_loop, literal_find_all}
use gcgrep.Index.Literal.Fold.{fold_index-index}

-- Index pairs in order, from lo on, none overlapping the next.
abbrev pub Apart : ℕ → List (ℕ × ℕ) → Type 0
Apart lo [] = Unit {0}
Apart lo ((a, b) ∷ locs) = (lo ≤ a) × (a < b) × Apart b locs

-- The index p lies inside one of the pairs.
abbrev pub Covers : ℕ → List (ℕ × ℕ) → Type 0
Covers p [] = ⊥
Covers p ((a, b) ∷ locs) = ((a ≤ p) × (p < b)) ⊎ Covers p locs

-- Each pair is an occurrence of lit in content.
abbrev pub Occurrences : Bytes → Bytes → List (ℕ × ℕ) → Type 0
Occurrences lit content [] = Unit {0}
Occurrences lit content ((a, b) ∷ locs) =
    (b ≡ a + length lit) × Occurs lit content a × Occurrences lit content locs

find_loop-Apart :
    (fuel n : ℕ) (find : Bytes → Option ℕ) (rest : Bytes) (off : ℕ)
    → 0 < n
    → Apart off (find_loop fuel find n rest off)
unfolding find_loop
find_loop-Apart zero n find rest off h = tt
find_loop-Apart (suc fuel) n find rest off h = elim (Option-cases (find rest)) [
  | inl e ↦ ground arith
  | inr (i, e) ↦ ground (arith, find_loop-Apart fuel n find (drop (i + n) rest) (off + i + n) h)
]

find_loop-Occurrences :
    (fuel : ℕ) (lit content rest : Bytes) (off : ℕ)
    → rest ≡ drop off content
    → Occurrences lit content (find_loop fuel (λ s. index s lit) (length lit) rest off)
unfolding find_loop
find_loop-Occurrences zero lit content rest off r = tt
find_loop-Occurrences (suc fuel) lit content rest off r = elim (Option-cases (index rest lit)) [
  | inl e ↦ ground arith
  | inr (i, e) ↦ ground (
    arith,
    index-some rest lit i e,
    drop-drop i off content,
    drop-drop (i + length lit) off content,
    find_loop-Occurrences fuel lit content (drop (i + length lit) rest) (off + i + length lit),
  )
]

has_prefix_nil : (l : ℕ) (ls : Bytes) → has_prefix [] (l ∷ ls) ≡ false
unfolding has_prefix
has_prefix_nil l ls = refl

find_loop-Covers :
    (fuel l : ℕ) (ls content rest : Bytes) (off p : ℕ)
    → rest ≡ drop off content
    → length rest ≤ fuel
    → off ≤ p
    → Occurs (l ∷ ls) content p
    → Covers p (find_loop fuel (λ s. index s (l ∷ ls)) (length (l ∷ ls)) rest off)
unfolding find_loop
find_loop-Covers zero l ls content [] off p r h k o =
    ground (arith, drop-drop (p - off) off content, drop-nil {A = ℕ} (p - off), has_prefix_nil l ls)
find_loop-Covers zero l ls content (x ∷ rest) off p r h k o = absurd (omega arith)
find_loop-Covers (suc fuel) l ls content rest off p r h k o =
    elim (Option-cases (index rest (l ∷ ls))) [
      | inl e ↦
          ground (arith, index-none rest (l ∷ ls) (p - off) e, drop-drop (p - off) off content)
      | inr (i, e) ↦ ground (
        arith,
        index_first rest (l ∷ ls) i (p - off) e,
        drop-drop (p - off) off content,
        drop-drop (i + length (l ∷ ls)) off content,
        length-drop (i + length (l ∷ ls)) rest,
        find_loop-Covers fuel l ls content (drop (i + length (l ∷ ls)) rest)
            (off + i + length (l ∷ ls)) p,
      )
    ]

-- The pairs that the exact search returns are occurrences of the literal, in order and apart from
-- one another, and every occurrence begins inside one of them: none is missed.
pub literal_find_all_exact :
    (content : Bytes) (l : ℕ) (ls : Bytes)
    → Occurrences (l ∷ ls) content (literal_find_all content (l ∷ ls) false)
      × Apart 0 (literal_find_all content (l ∷ ls) false)
      × ((p : ℕ) → Occurs (l ∷ ls) content p → Covers p (literal_find_all content (l ∷ ls) false))
unfolding literal_find_all
literal_find_all_exact content l ls = (
  find_loop-Occurrences (length content) (l ∷ ls) content content 0 refl,
  find_loop-Apart (length content) (length (l ∷ ls)) _ content 0 (omega arith),
  λ p o.
      find_loop-Covers (length content) l ls content content 0 p refl (omega arith) (omega arith) o,
)

pub map-drop : (f : ℕ → ℕ) (n : ℕ) (s : Bytes) → map f (drop n s) ≡ drop n (map f s)
map-drop f zero s = refl
map-drop f (suc n) [] = refl
map-drop f (suc n) (x ∷ s) = map-drop f n s

find_loop-fold :
    (fuel l : ℕ) (ls rest : Bytes) (off n : ℕ)
    → find_loop fuel (λ s. fold_index s (l ∷ ls)) n rest off
      ≡ find_loop fuel (λ s. index s (map lower (l ∷ ls))) n (map lower rest) off
unfolding find_loop
find_loop-fold zero l ls rest off n = refl
find_loop-fold (suc fuel) l ls rest off n =
    elim (Option-cases (index (map lower rest) (map lower (l ∷ ls)))) [
      | inl e ↦ ground (arith, fold_index-index rest l ls)
      | inr (i, e) ↦ ground (
        arith,
        fold_index-index rest l ls,
        map-drop lower (i + n) rest,
        find_loop-fold fuel l ls (drop (i + n) rest) (off + i + n) n,
      )
    ]

-- The folded search is the exact search over lowercased copies of the content and the literal.
pub literal_find_all_fold :
    (content lit : Bytes)
    → literal_find_all content lit true ≡ literal_find_all (map lower content) (map lower lit) false
unfolding literal_find_all
literal_find_all_fold content [] = refl
literal_find_all_fold content (l ∷ ls) = ground (
  arith,
  length-map lower content,
  length-map lower ls,
  find_loop-fold (length content) l ls content 0 (length (l ∷ ls)),
)
