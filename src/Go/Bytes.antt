-- ===== src/Go/Bytes.antt =====
-- The searches of Go's bytes and strings packages. An index of -1 is none.
use gcgrep.Base.{
  ℕ, zero, suc, ◌+◌, ◌≤◌, ◌≡◌, Bool, true, false, ◌&&◌, Option, none, some, [], ◌∷◌, Bytes, ◌==◌,
  if◌then◌else◌, length, drop, arith, Option-cases, inl, inr,
}

-- Move an index that was found behind n bytes.
abbrev pub shift : ℕ → Option ℕ → Option ℕ
shift n none = none
shift n (some i) = some (n + i)

-- The same behind one byte.
abbrev pub bump : Option ℕ → Option ℕ
bump none = none
bump (some i) = some (suc i)

-- HasPrefix
unfoldable pub has_prefix : Bytes → Bytes → Bool
has_prefix s [] = true
has_prefix [] (p ∷ ps) = false
has_prefix (c ∷ s) (p ∷ ps) = c == p && has_prefix s ps

-- The first index at which a byte passes the test.
unfoldable pub index_where : (ℕ → Bool) → Bytes → Option ℕ
index_where p [] = none
index_where p (c ∷ s) = if p c then some 0 else bump (index_where p s)

-- IndexByte
unfoldable pub index_byte : Bytes → ℕ → Option ℕ
unfolding index_where
index_byte s b = index_where (λ c. c == b) s

-- Index
unfoldable pub index : Bytes → Bytes → Option ℕ
unfolding has_prefix
index [] p = if has_prefix [] p then some 0 else none
index (c ∷ s) p = if has_prefix (c ∷ s) p then some 0 else bump (index s p)

-- Contains
unfoldable pub contains : Bytes → Bytes → Bool
unfolding index
contains s p = elim (index s p) [ none ↦ false | some _ ↦ true ]

-- LastIndexByte
unfoldable pub last_index_byte : Bytes → ℕ → Option ℕ
last_index_byte [] b = none
last_index_byte (c ∷ s) b = elim (last_index_byte s b) [
  | some i ↦ some (suc i)
  | none ↦ if c == b then some 0 else none
]

-- The index at which p occurs in s.
abbrev pub Occurs : Bytes → Bytes → ℕ → Type 0
Occurs p s i = has_prefix (drop i s) p ≡ true

pub index-some : (s p : Bytes) (i : ℕ) → index s p ≡ some i → Occurs p s i × (i ≤ length s)
unfolding index
index-some [] p i e = ground arith
index-some (c ∷ s) p i e = elim (Option-cases (index s p)) [
  | inl n ↦ ground arith
  | inr (k, f) ↦ ground (arith, index-some s p k f)
]

-- Index finds the first occurrence.
pub index_first : (s p : Bytes) (i j : ℕ) → index s p ≡ some i → Occurs p s j → i ≤ j
unfolding index
index_first [] p i j e o = ground arith
index_first (c ∷ s) p i zero e o = ground arith
index_first (c ∷ s) p i (suc j) e o = elim (Option-cases (index s p)) [
  | inl n ↦ ground arith
  | inr (k, f) ↦ ground (arith, index_first s p k j f o)
]

pub index-none : (s p : Bytes) (j : ℕ) → index s p ≡ none → has_prefix (drop j s) p ≡ false
unfolding index
index-none [] p zero e = ground arith
index-none [] p (suc j) e = ground arith
index-none (c ∷ s) p zero e = ground arith
index-none (c ∷ s) p (suc j) e = elim (Option-cases (index s p)) [
  | inl n ↦ index-none s p j n
  | inr (k, f) ↦ ground arith
]
