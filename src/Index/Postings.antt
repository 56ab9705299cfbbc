-- ===== src/Index/Postings.antt =====
-- internal/index/index.go: trigrams, posting lists and their intersection.
pub mod Intersect
pub mod Trigrams
use gcgrep.Base.{
  ℕ, ◌+◌, ◌*◌, ◌≡◌, Bool, true, false, ◌||◌, Option, none, some, List, [], ◌∷◌, ◌++◌, Bytes, ◌==◌,
  ltb, if◌then◌else◌,
}
use gcgrep.Go.Map.{Map, get, put, nat_key}
use gcgrep.Index.{lower}

-- uint32(lower(a))<<16 | uint32(lower(b))<<8 | uint32(lower(c)): the shifted bytes do not overlap.
unfoldable pub trigram : ℕ → ℕ → ℕ → ℕ
trigram a b c = lower a * 65536 + lower b * 256 + lower c

unfoldable pub member : ℕ → List ℕ → Bool
member k [] = false
member k (j ∷ s) = k == j || member k s

-- seen[k] = struct{}{}
unfoldable pub see : ℕ → List ℕ → List ℕ
unfolding member
see k seen = if member k seen then seen else k ∷ seen

-- trigramsOf
unfoldable pub trigrams_of : Bytes → List ℕ → List ℕ
trigrams_of [] seen = seen
trigrams_of (a ∷ []) seen = seen
trigrams_of (a ∷ b ∷ []) seen = seen
trigrams_of (a ∷ b ∷ c ∷ s) seen = trigrams_of (b ∷ c ∷ s) (see (trigram a b c) seen)

-- TrigramKeys
unfoldable pub trigram_keys : Bytes → List ℕ
unfolding trigrams_of
trigram_keys content = trigrams_of content []

-- The posting list of a trigram; no entry reads as nil.
unfoldable pub ids_of : Map ℕ (List ℕ) → ℕ → List ℕ
ids_of tri k = elim (get k tri) [ none ↦ [] | some ids ↦ ids ]

-- for each key: tri[k] = append(tri[k], id)
unfoldable pub post_keys : Map ℕ (List ℕ) → List ℕ → ℕ → Map ℕ (List ℕ)
post_keys tri [] id = tri
post_keys tri (k ∷ ks) id = post_keys (put k (ids_of tri k ++ id ∷ []) tri) ks id

-- intersectSorted (intersect of shard.go is the same text)
unfoldable pub intersect_sorted : List ℕ → List ℕ → List ℕ
intersect_sorted [] b = []
intersect_sorted (x ∷ a) [] = []
intersect_sorted (x ∷ a) (y ∷ b) =
    let left = intersect_sorted a (y ∷ b) in
    let right = intersect_sorted (x ∷ a) b in
    let both = intersect_sorted a b in if ltb x y then left else if ltb y x then right else x ∷ both
