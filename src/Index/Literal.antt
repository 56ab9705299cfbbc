-- ===== src/Index/Literal.antt =====
-- internal/index/literal.go: the direct search for a literal, with and without ASCII case folding.
pub mod Fold
pub mod FindAll
use gcgrep.Base.{
  ℕ, zero, suc, ◌+◌, ◌-◌, ◌≡◌, Bool, true, false, ◌&&◌, ◌||◌, not, Option, none, some, List, [],
  ◌∷◌, Bytes, ◌==◌, leb, ltb, if◌then◌else◌, length, take, drop,
}
use gcgrep.Go.Bytes.{index, index_byte}
use gcgrep.Index.{lower}

-- HasNonASCII
unfoldable pub has_non_ascii : Bytes → Bool
has_non_ascii [] = false
has_non_ascii (c ∷ s) = leb 0x80 c || has_non_ascii s

-- foldEqual: the loop over b. (A shorter a would panic; the callers cut a to b's length.)
unfoldable pub fold_equal : Bytes → Bytes → Bool
fold_equal a [] = true
fold_equal [] (y ∷ b) = false
fold_equal (x ∷ a) (y ∷ b) = lower x == lower y && fold_equal a b

-- The other case of the first byte, as foldIndex computes it.
unfoldable pub other_case : ℕ → ℕ
other_case c1 = if leb b'a' c1 && leb c1 b'z' then c1 - 32 else c1

-- The smaller of two indices of which either may be missing.
earlier : Option ℕ → Option ℕ → Option ℕ
earlier i1 none = i1
earlier none (some i2) = some i2
earlier (some i1) (some i2) = if ltb i2 i1 then some i2 else some i1

-- The jump of foldIndex: the first byte that is one of the two case variants.
unfoldable pub next_variant : Bytes → ℕ → ℕ → Option ℕ
unfolding earlier
next_variant s c1 c2 =
    if not (c2 == c1) then earlier (index_byte s c1) (index_byte s c2) else index_byte s c1

-- The loop of foldIndex: `rest` is s[off:]. Each round moves on by a byte at least, so the fuel
-- `length s + 1` is enough.
unfoldable pub fold_loop : ℕ → Bytes → Bytes → ℕ → ℕ → ℕ → Option ℕ
fold_loop zero rest lit c1 c2 off = none
fold_loop (suc fuel) rest lit c1 c2 off =
    if leb (length lit) (length rest)
    then elim (next_variant rest c1 c2) [
      | none ↦ none
      | some i1 ↦
          let again = fold_loop fuel (drop (suc i1) rest) lit c1 c2 (off + suc i1) in
          if ltb (length (drop i1 rest)) (length lit)
          then none
          else if fold_equal (take (length lit) (drop i1 rest)) lit
          then some (off + i1)
          else again
    ]
    else none

-- foldIndex. lit[0] of an empty literal would panic: its callers test for that.
unfoldable pub fold_index : Bytes → Bytes → Option ℕ
unfolding fold_loop
fold_index s [] = none
fold_index s (l ∷ ls) = fold_loop (suc (length s)) s (l ∷ ls) (lower l) (other_case (lower l)) 0

-- The loops of literalFindAll, over content[off:]: index pairs of the matches. Each round moves on
-- by the literal's length, so the fuel `length content` is enough.
unfoldable pub find_loop : ℕ → (Bytes → Option ℕ) → ℕ → Bytes → ℕ → List (ℕ × ℕ)
find_loop zero find n rest off = []
find_loop (suc fuel) find n rest off = elim (find rest) [
  | none ↦ []
  | some i ↦ (off + i, off + i + n) ∷ find_loop fuel find n (drop (i + n) rest) (off + i + n)
]

-- literalFindAll
unfoldable pub literal_find_all : Bytes → Bytes → Bool → List (ℕ × ℕ)
unfolding find_loop
literal_find_all content [] fold = []
literal_find_all content (l ∷ ls) fold =
    find_loop (length content) (λ s. if fold then fold_index s (l ∷ ls) else index s (l ∷ ls))
      (length (l ∷ ls)) content 0
