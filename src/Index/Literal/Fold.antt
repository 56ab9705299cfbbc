-- ===== src/Index/Literal/Fold.antt =====
-- foldIndex is bytes.Index over lowercased copies.
use gcgrep.Base.{
  ℕ, zero, suc, ◌+◌, ◌≤◌, ◌<◌, ◌≡◌, refl, sym, ◌∙◌, inl, inr, Bool, true, false, none, some, [],
  ◌∷◌, map, Bytes, ◌==◌, length, take, drop, arith, Option-cases, length-drop, if◌then◌else◌,
}
use gcgrep.Go.Bytes.{shift, bump, index, index_byte, index_where, has_prefix}
use gcgrep.Index.{lower}
use gcgrep.Index.Literal.{fold_equal, other_case, next_variant, fold_loop, fold_index}

-- A byte is a case variant of a lowercased one exactly when it folds to it.
variant_folds :
    (b l : ℕ)
    → ((b == lower l) ≡ false)
    → ((b == other_case (lower l)) ≡ false)
    → (lower b == lower l) ≡ false
unfolding lower other_case
variant_folds b l h k = ground arith

fold_variant : (b l : ℕ) → (b ≡ lower l) → (lower b == lower l) ≡ true
unfolding lower
fold_variant b l h = ground arith

fold_variant_other : (b l : ℕ) → (b ≡ other_case (lower l)) → (lower b == lower l) ≡ true
unfolding lower other_case
fold_variant_other b l h = ground arith

abbrev folds_to : ℕ → ℕ → Bool
folds_to l b = lower b == lower l

next_variant_lem :
    (s : Bytes) (l : ℕ)
    → next_variant s (lower l) (other_case (lower l)) ≡ index_where (folds_to l) s
unfolding next_variant index_byte index_where
next_variant_lem [] l = ground arith
next_variant_lem (c ∷ s) l =
    ground
      (arith, next_variant_lem s l, variant_folds c l, fold_variant c l, fold_variant_other c l)

skip_none :
    (s : Bytes) (l : ℕ) (ls : Bytes)
    → index_where (folds_to l) s ≡ none
    → index (map lower s) (lower l ∷ ls) ≡ none
unfolding index_where index
skip_none [] l ls e = refl
skip_none (c ∷ s) l ls e = ground (arith, skip_none s l ls)

skip_some :
    (s : Bytes) (l : ℕ) (ls : Bytes) (i : ℕ)
    → index_where (folds_to l) s ≡ some i
    → index (map lower s) (lower l ∷ ls) ≡ shift i (index (map lower (drop i s)) (lower l ∷ ls))
unfolding index_where index
skip_some [] l ls i e = cc
skip_some (c ∷ s) l ls zero e = ground arith
skip_some (c ∷ s) l ls (suc i) e = elim (Option-cases (index_where (folds_to l) s)) [
  | inl n ↦ ground arith
  | inr (k, f) ↦ ground (arith, skip_some s l ls k f)
]

fold_equal_lem :
    (t lit : Bytes)
    → length lit ≤ length t
    → fold_equal (take (length lit) t) lit ≡ has_prefix (map lower t) (map lower lit)
unfolding fold_equal has_prefix
fold_equal_lem t [] h = refl
fold_equal_lem [] (y ∷ lit) h = absurd (omega arith)
fold_equal_lem (x ∷ t) (y ∷ lit) h = ground (arith, fold_equal_lem t lit)

has_prefix_short :
    (t lit : Bytes) → length t < length lit → has_prefix (map lower t) (map lower lit) ≡ false
unfolding has_prefix
has_prefix_short t [] h = absurd (omega arith)
has_prefix_short [] (y ∷ lit) h = refl
has_prefix_short (x ∷ t) (y ∷ lit) h = ground (arith, has_prefix_short t lit)

index_short : (t lit : Bytes) → length t < length lit → index (map lower t) (map lower lit) ≡ none
unfolding index
index_short [] lit h = ground (arith, has_prefix_short [] lit h)
index_short (x ∷ t) lit h = ground (arith, has_prefix_short (x ∷ t) lit h, index_short t lit)

index_where-lt : (s : Bytes) (p : ℕ → Bool) (i : ℕ) → index_where p s ≡ some i → i < length s
unfolding index_where
index_where-lt [] p i e = cc
index_where-lt (c ∷ s) p i e = elim (Option-cases (index_where p s)) [
  | inl n ↦ ground arith
  | inr (k, f) ↦ ground (arith, index_where-lt s p k f)
]

drop_step : (s : Bytes) (i : ℕ) → i < length s → (x : ℕ) × (drop i s ≡ x ∷ drop (suc i) s)
drop_step [] i h = absurd (omega arith)
drop_step (x ∷ s) zero h = (x, refl)
drop_step (x ∷ s) (suc i) h = drop_step s i (omega arith)

-- The part of a round behind the jump to i.
round_at :
    (rest : Bytes) (l : ℕ) (ls : Bytes) (i : ℕ)
    → i < length rest
    → length (l ∷ ls) ≤ length (drop i rest)
    → index (map lower (drop i rest)) (map lower (l ∷ ls)) ≡ (
        if fold_equal (take (length (l ∷ ls)) (drop i rest)) (l ∷ ls)
        then some 0
        else bump (index (map lower (drop (suc i) rest)) (map lower (l ∷ ls))))
round_at rest l ls i h k =
    let (x, e) = drop_step rest i h in
    rw (fold_equal_lem (drop i rest) (l ∷ ls) k, e) (unfold index in refl)

fold_loop_lem :
    (fuel : ℕ) (rest : Bytes) (l : ℕ) (ls : Bytes) (off : ℕ)
    → length rest < fuel
    → fold_loop fuel rest (l ∷ ls) (lower l) (other_case (lower l)) off
      ≡ shift off (index (map lower rest) (map lower (l ∷ ls)))
unfolding fold_loop
fold_loop_lem zero rest l ls off h = absurd (omega arith)
fold_loop_lem (suc fuel) rest l ls off h =
    elim (Option-cases (next_variant rest (lower l) (other_case (lower l)))) [
      | inl n ↦ ground (
        arith,
        index_short rest (l ∷ ls),
        skip_none rest l (map lower ls) (sym (next_variant_lem rest l) ∙ n),
      )
      | inr (i, f) ↦
          let g = sym (next_variant_lem rest l) ∙ f in
          ground (
            arith,
            index_short rest (l ∷ ls),
            index_short (drop i rest) (l ∷ ls),
            skip_some rest l (map lower ls) i g,
            round_at rest l ls i (index_where-lt rest (folds_to l) i g),
            fold_loop_lem fuel (drop (suc i) rest) l ls (off + suc i),
            length-drop (suc i) rest,
            index_where-lt rest (folds_to l) i g,
          )
    ]

-- For every non-empty literal, the search that jumps between case variants of the first byte
-- gives the index that bytes.Index gives on lowercased copies of both texts.
pub fold_index-index :
    (s : Bytes) (l : ℕ) (ls : Bytes)
    → fold_index s (l ∷ ls) ≡ index (map lower s) (map lower (l ∷ ls))
unfolding fold_index
fold_index-index s l ls = ground (arith, fold_loop_lem (suc (length s)) s l ls 0)
