-- ===== src/Shard/Engine/Ranges.antt =====
-- internal/shard/engine.go: which shard shardForPath finds.
use gcgrep.Base.{
  ℕ, zero, suc, ◌+◌, ◌-◌, ◌/◌, ◌<◌, ◌≤◌, ◌≡◌, ◌↔◌, ◌⊎◌, sym, refl, inl, inr, true, false, none,
  some, List, [], ◌∷◌, Bytes, length, arith, All, get_elem?, ltb, Bool-cases, Option-cases,
}
use mathlib.Core.Path.{subst}
use gcgrep.Shard.Batches.{bytes_lt}
use gcgrep.Shard.Engine.{ShardView, first_after, shard_for_path}

lt_le_trans : (a b c : Bytes) → bytes_lt a b ≡ true → bytes_lt c b ≡ false → bytes_lt a c ≡ true
unfolding bytes_lt
lt_le_trans [] [] c h k = cc
lt_le_trans [] (y ∷ b) [] h k = cc
lt_le_trans [] (y ∷ b) (z ∷ c) h k = refl
lt_le_trans (x ∷ a) [] c h k = cc
lt_le_trans (x ∷ a) (y ∷ b) [] h k = cc
lt_le_trans (x ∷ a) (y ∷ b) (z ∷ c) h k = ground (arith, lt_le_trans a b c)

le_lt_trans : (a b c : Bytes) → bytes_lt b a ≡ false → bytes_lt b c ≡ true → bytes_lt a c ≡ true
unfolding bytes_lt
le_lt_trans a [] [] h k = cc
le_lt_trans [] [] (z ∷ c) h k = refl
le_lt_trans (x ∷ a) [] c h k = cc
le_lt_trans a (y ∷ b) [] h k = cc
le_lt_trans [] (y ∷ b) (z ∷ c) h k = refl
le_lt_trans (x ∷ a) (y ∷ b) (z ∷ c) h k = ground (arith, le_lt_trans a b c)

asym : (a b : Bytes) → bytes_lt a b ≡ true → bytes_lt b a ≡ false
unfolding bytes_lt
asym [] [] h = refl
asym [] (y ∷ b) h = refl
asym (x ∷ a) [] h = cc
asym (x ∷ a) (y ∷ b) h = ground (arith, asym a b)

-- Every shard's range is one, and ends before the ranges of the later shards begin.
abbrev pub IsOrdered : List ShardView → Type 0
IsOrdered [] = Unit {0}
IsOrdered (s ∷ shards) =
    (bytes_lt s.path_max s.path_min ≡ false)
    × All (λ (t : ShardView). bytes_lt s.path_max t.path_min ≡ true) shards
    × IsOrdered shards

-- path >= s.pathMin && path <= s.pathMax
abbrev pub InRange : Bytes → ShardView → Type 0
InRange path s = (bytes_lt path s.path_min ≡ false) × (bytes_lt s.path_max path ≡ false)

All-get {ℓ} :
    {A : Type ℓ} (P : A → Type 0) (xs : List A) (i : ℕ) (x : A)
    → All P xs
    → get_elem? xs i ≡ some x
    → P x
All-get P [] i x h e = absurd (ground (arith, e))
All-get P (y ∷ xs) zero x h e = let same : y ≡ x = ground (arith, e) in subst P same h.0
All-get P (y ∷ xs) (suc i) x h e = All-get P xs i x h.1 e

range_of :
    (shards : List ShardView) (i : ℕ) (s : ShardView)
    → IsOrdered shards
    → get_elem? shards i ≡ some s
    → bytes_lt s.path_max s.path_min ≡ false
range_of [] i s o e = ground arith
range_of (t ∷ shards) zero s o e = let same : t ≡ s = ground (arith, e) in rw (sym same) o.0
range_of (t ∷ shards) (suc i) s o e = range_of shards i s o.2 e

before_later :
    (shards : List ShardView) (i j : ℕ) (s t : ShardView)
    → IsOrdered shards
    → i < j
    → get_elem? shards i ≡ some s
    → get_elem? shards j ≡ some t
    → bytes_lt s.path_max t.path_min ≡ true
before_later [] i j s t o l e f = ground arith
before_later (u ∷ shards) i zero s t o l e f = absurd (omega (arith, l))
before_later (u ∷ shards) zero (suc j) s t o l e f =
    let same : u ≡ s = ground (arith, e) in
    rw (sym same)
      (All-get (λ (v : ShardView). bytes_lt u.path_max v.path_min ≡ true) shards j t o.1 f)
before_later (u ∷ shards) (suc i) (suc j) s t o l e f =
    before_later shards i j s t o.2 (omega (arith, l)) e f

get-bound {ℓ} : {A : Type ℓ} (xs : List A) (i : ℕ) (x : A) → get_elem? xs i ≡ some x → i < length xs
get-bound [] i x e = ground arith
get-bound (y ∷ xs) zero x e = omega arith
get-bound (y ∷ xs) (suc i) x e = omega (arith, get-bound xs i x e)

get-none {ℓ} : {A : Type ℓ} (xs : List A) (i : ℕ) → get_elem? xs i ≡ none → length xs ≤ i
get-none [] i e = omega arith
get-none (y ∷ xs) zero e = ground arith
get-none (y ∷ xs) (suc i) e = omega (arith, get-none xs i e)

lt_cases : (a b : ℕ) → (a < b) ⊎ (b ≤ a)
lt_cases a b = elim (Bool-cases (ltb a b)) [
  | inl e ↦ inl (ground (arith, e))
  | inr e ↦ inr (ground (arith, e))
]

-- The search ends behind i where the ranges up to i start no later than the path and the others do.
first_after_lem :
    (fuel : ℕ) (shards : List ShardView) (path : Bytes) (lo hi i : ℕ)
    → hi - lo ≤ fuel
    → lo ≤ suc i
    → suc i ≤ hi
    → hi ≤ length shards
    → ((j : ℕ) (t : ShardView)
        → j ≤ i
        → get_elem? shards j ≡ some t
        → bytes_lt path t.path_min ≡ false)
    → ((j : ℕ) (t : ShardView)
        → i < j
        → get_elem? shards j ≡ some t
        → bytes_lt path t.path_min ≡ true)
    → first_after fuel shards path lo hi ≡ suc i
unfolding first_after
first_after_lem zero shards path lo hi i f l h n low high = omega arith
first_after_lem (suc fuel) shards path lo hi i f l h n low high =
    let mid = lo + (hi - lo) / 2 in
    elim (Option-cases (get_elem? shards mid)) [
      | inl e ↦ let out = get-none shards mid e in ground arith
      | inr (t, e) ↦ elim (lt_cases i mid) [
        | inl c ↦
            let p = high mid t (omega (arith, c)) e in
            let ih : lo < hi → first_after fuel shards path lo mid ≡ suc i = λ d.
              first_after_lem fuel shards path lo mid i (omega (arith, d)) l (omega (arith, c))
                (omega (arith, d)) low high in
            ground (arith, e, p, ih)
        | inr c ↦
            let p = low mid t (omega (arith, c)) e in
            let ih : lo < hi → first_after fuel shards path (mid + 1) hi ≡ suc i = λ d.
              first_after_lem fuel shards path (mid + 1) hi i (omega (arith, d)) (omega (arith, c))
                h n low high in
            ground (arith, e, p, ih)
      ]
    ]

starts_by :
    (shards : List ShardView) (path : Bytes) (i j : ℕ) (s t : ShardView)
    → IsOrdered shards
    → get_elem? shards i ≡ some s
    → InRange path s
    → j ≤ i
    → get_elem? shards j ≡ some t
    → bytes_lt path t.path_min ≡ false
starts_by shards path i j s t o e r l f = elim (Bool-cases (bytes_lt path t.path_min)) [
  | inr p ↦ p
  | inl p ↦ elim (lt_cases j i) [
    | inl c ↦
        let q = lt_le_trans path t.path_min t.path_max p (range_of shards j t o f) in
        let sooner = before_later shards j i t s o (omega (arith, c)) f e in
        let w = le_lt_trans path t.path_max s.path_min (asym path t.path_max q) sooner in
        ground (arith, w, r.0)
    | inr c ↦
        let same : j ≡ i = omega (arith, c, l) in
        let st : get_elem? shards i ≡ some t =
          subst (λ (k : ℕ). get_elem? shards k ≡ some t) same f in
        ground (arith, st, e, p, r.0)
  ]
]

shard_for_path_found :
    (shards : List ShardView) (path : Bytes) (i : ℕ) (s : ShardView)
    → IsOrdered shards
    → get_elem? shards i ≡ some s
    → InRange path s
    → shard_for_path shards path ≡ some i
unfolding shard_for_path
shard_for_path_found shards path i s o e (a, b) =
    let bound = get-bound shards i s e in
    let at =
      first_after_lem (length shards) shards path 0 (length shards) i (omega arith) (omega arith)
        (omega (arith, bound)) (omega arith)
        (λ j t l f. starts_by shards path i j s t o e (a, b) l f)
        (λ j t l f.
          le_lt_trans path s.path_max t.path_min b (before_later shards i j s t o l e f)) in
    ground (arith, at, e, a, b)

shard_for_path-InRange :
    (shards : List ShardView) (path : Bytes) (i : ℕ) (s : ShardView)
    → get_elem? shards i ≡ some s
    → shard_for_path shards path ≡ some i
    → InRange path s
unfolding shard_for_path
shard_for_path-InRange shards path i s e h = ground (arith, e, h)

-- Among shards whose ranges are in order and apart, shardForPath returns the index of a shard exactly
-- for the paths in that shard's range.
pub shard_for_path_iff :
    (shards : List ShardView) (path : Bytes) (i : ℕ) (s : ShardView)
    → IsOrdered shards
    → get_elem? shards i ≡ some s
    → (shard_for_path shards path ≡ some i) ↔ InRange path s
shard_for_path_iff shards path i s o e =
    (shard_for_path-InRange shards path i s e, shard_for_path_found shards path i s o e)
