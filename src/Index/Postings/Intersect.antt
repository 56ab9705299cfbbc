-- ===== src/Index/Postings/Intersect.antt =====
-- The intersection of increasing lists holds exactly what both hold, and is increasing.
use gcgrep.Base.{ℕ, ◌<◌, ◌≡◌, ◌⊎◌, ◌↔◌, inl, inr, List, [], ◌∷◌, All, arith}
use gcgrep.Index.Postings.{intersect_sorted}

abbrev pub Holds : List ℕ → ℕ → Type 0
Holds [] i = ⊥
Holds (x ∷ a) i = (i ≡ x) ⊎ Holds a i

abbrev pub IsIncreasing : List ℕ → Type 0
IsIncreasing [] = Unit {0}
IsIncreasing (x ∷ a) = All (λ y. x < y) a × IsIncreasing a

pub Holds-All : (a : List ℕ) (x i : ℕ) → All (λ y. x < y) a → Holds a i → x < i
Holds-All [] x i h m = absurd m
Holds-All (y ∷ a) x i h (inl e) = omega arith
Holds-All (y ∷ a) x i h (inr m) = Holds-All a x i h.1 m

intersect-left : (a b : List ℕ) (i : ℕ) → Holds (intersect_sorted a b) i → Holds a i
unfolding intersect_sorted
intersect-left [] b i h = h
intersect-left (x ∷ a) [] i h = absurd h
intersect-left (x ∷ a) (y ∷ b) i h =
    ground (arith, intersect-left a (y ∷ b) i, intersect-left (x ∷ a) b i, intersect-left a b i)

intersect-right : (a b : List ℕ) (i : ℕ) → Holds (intersect_sorted a b) i → Holds b i
unfolding intersect_sorted
intersect-right [] b i h = absurd h
intersect-right (x ∷ a) [] i h = h
intersect-right (x ∷ a) (y ∷ b) i h =
    ground (arith, intersect-right a (y ∷ b) i, intersect-right (x ∷ a) b i, intersect-right a b i)

intersect-both :
    (a b : List ℕ) (i : ℕ)
    → IsIncreasing a
    → IsIncreasing b
    → Holds a i
    → Holds b i
    → Holds (intersect_sorted a b) i
unfolding intersect_sorted
intersect-both [] b i p q h k = h
intersect-both (x ∷ a) [] i p q h k = k
intersect-both (x ∷ a) (y ∷ b) i p q h k = ground (
  arith,
  Holds-All a x i p.0,
  Holds-All b y i q.0,
  intersect-both a (y ∷ b) i p.1 q,
  intersect-both (x ∷ a) b i p q.1,
  intersect-both a b i p.1 q.1,
)

All-intersect :
    (a b : List ℕ) (x : ℕ) → All (λ y. x < y) a → All (λ y. x < y) (intersect_sorted a b)
unfolding intersect_sorted
All-intersect [] b x h = tt
All-intersect (y ∷ a) [] x h = tt
All-intersect (y ∷ a) (z ∷ b) x h =
    ground (arith, All-intersect a (z ∷ b) x, All-intersect (y ∷ a) b x, All-intersect a b x)

pub intersect-IsIncreasing : (a b : List ℕ) → IsIncreasing a → IsIncreasing (intersect_sorted a b)
unfolding intersect_sorted
intersect-IsIncreasing [] b p = tt
intersect-IsIncreasing (x ∷ a) [] p = tt
intersect-IsIncreasing (x ∷ a) (y ∷ b) p = ground (
  arith,
  All-intersect a b x p.0,
  intersect-IsIncreasing a (y ∷ b) p.1,
  intersect-IsIncreasing (x ∷ a) b p,
  intersect-IsIncreasing a b p.1,
)

-- The merge of two increasing lists holds an id exactly when both lists hold it.
pub intersect_sorted_iff :
    (a b : List ℕ) (i : ℕ)
    → IsIncreasing a
    → IsIncreasing b
    → Holds (intersect_sorted a b) i ↔ (Holds a i × Holds b i)
intersect_sorted_iff a b i p q =
    (λ h. (intersect-left a b i h, intersect-right a b i h), λ h. intersect-both a b i p q h.0 h.1)
