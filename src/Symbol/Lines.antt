-- ===== src/Symbol/Lines.antt =====
-- internal/symbol/symbol.go: line numbers of byte offsets, by counting and by binary search.
use gcgrep.Base.{
  ℕ, zero, suc, ◌+◌, ◌-◌, ◌/◌, ◌≤◌, ◌<◌, ◌≡◌, refl, sym, ◌∙◌, List, [], ◌∷◌, Bytes, newline, ltb,
  leb, ◌==◌, if◌then◌else◌, length, get_or, take, All, arith,
}

-- lineOf: the loop over the bytes before offset pos.
line_loop : Bytes → ℕ → ℕ → ℕ
line_loop [] pos line = line
line_loop (c ∷ s) zero line = line
line_loop (c ∷ s) (suc pos) line = line_loop s pos (if c == newline then line + 1 else line)

unfoldable pub line_of : Bytes → ℕ → ℕ
unfolding line_loop
line_of src pos = line_loop src pos 1

-- newLineIndex: `line_starts s i` is what the loop appends from index i on.
line_starts : Bytes → ℕ → List ℕ
line_starts [] i = []
line_starts (c ∷ s) i =
    let rest = line_starts s (i + 1) in if c == newline then (i + 1) ∷ rest else rest

unfoldable pub new_line_index : Bytes → List ℕ
unfolding line_starts
new_line_index src = 0 ∷ line_starts src 0

-- lineIndex.line: the binary search. Each round halves hi - lo, so `length li` rounds are enough.
line_search : ℕ → List ℕ → ℕ → ℕ → ℕ → ℕ
line_search zero li pos lo hi = lo
line_search (suc fuel) li pos lo hi =
    let mid = (lo + hi + 1) / 2 in
    let up = line_search fuel li pos mid hi in
    let down = line_search fuel li pos lo (mid - 1) in
    if ltb lo hi then if leb (get_or li mid 0) pos then up else down else lo

unfoldable pub line : List ℕ → ℕ → ℕ
unfolding line_search
line li pos = line_search (length li) li pos 0 (length li - 1) + 1

-- How many entries at the front are at most pos.
count_le : List ℕ → ℕ → ℕ
count_le [] pos = 0
count_le (x ∷ li) pos = if leb x pos then suc (count_le li pos) else 0

abbrev IsIncreasing : List ℕ → Type 0
IsIncreasing [] = Unit {0}
IsIncreasing (x ∷ li) = All (λ y. x < y) li × IsIncreasing li

count_le-length : (li : List ℕ) (pos : ℕ) → count_le li pos ≤ length li
unfolding count_le
count_le-length [] pos = omega arith
count_le-length (x ∷ li) pos = ground (arith, count_le-length li pos)

lt-get_or : (x : ℕ) (li : List ℕ) (i : ℕ) → All (λ y. x < y) li → i < length li → x < get_or li i 0
lt-get_or x [] i h k = absurd (omega arith)
lt-get_or x (y ∷ li) zero h k = h.0
lt-get_or x (y ∷ li) (suc i) h k = lt-get_or x li i h.1 (omega arith)

-- In an increasing list exactly the entries below the count are at most pos.
get_or-count_le :
    (li : List ℕ) (pos i : ℕ)
    → IsIncreasing li
    → i < length li
    → leb (get_or li i 0) pos ≡ ltb i (count_le li pos)
unfolding count_le
get_or-count_le [] pos i inc h = absurd (omega arith)
get_or-count_le (x ∷ li) pos zero inc h = ground arith
get_or-count_le (x ∷ li) pos (suc i) inc h =
    ground (arith, get_or-count_le li pos i, lt-get_or x li i inc.0)

line_search-count_le :
    (fuel : ℕ) (li : List ℕ) (pos lo hi : ℕ)
    → IsIncreasing li
    → hi < length li
    → lo < count_le li pos
    → count_le li pos ≤ hi + 1
    → hi - lo < fuel
    → line_search fuel li pos lo hi + 1 ≡ count_le li pos
unfolding line_search
line_search-count_le zero li pos lo hi inc a b c d = absurd (omega arith)
line_search-count_le (suc fuel) li pos lo hi inc a b c d =
    let mid = (lo + hi + 1) / 2 in
    ground (
      arith,
      get_or-count_le li pos mid inc,
      line_search-count_le fuel li pos mid hi inc,
      line_search-count_le fuel li pos lo (mid - 1) inc,
    )

line_starts_above : (s : Bytes) (i j : ℕ) → j ≤ i → All (λ y. j < y) (line_starts s i)
unfolding line_starts
line_starts_above [] i j h = tt
line_starts_above (c ∷ s) i j h = ground (arith, line_starts_above s (i + 1) j)

line_starts-IsIncreasing : (s : Bytes) (i : ℕ) → IsIncreasing (line_starts s i)
unfolding line_starts
line_starts-IsIncreasing [] i = tt
line_starts-IsIncreasing (c ∷ s) i =
    ground (arith, line_starts-IsIncreasing s (i + 1), line_starts_above s (i + 1) (i + 1))

count_le_above : (li : List ℕ) (pos : ℕ) → All (λ y. pos < y) li → count_le li pos ≡ 0
unfolding count_le
count_le_above [] pos h = refl
count_le_above (x ∷ li) pos h = ground arith

line_loop-count_le :
    (s : Bytes) (p line i pos : ℕ)
    → pos ≡ i + p
    → line_loop s p line ≡ line + count_le (line_starts s i) pos
unfolding line_loop line_starts count_le
line_loop-count_le [] p line i pos e = omega arith
line_loop-count_le (c ∷ s) zero line i pos e = omega (
  arith,
  count_le_above (line_starts (c ∷ s) i) pos (line_starts_above (c ∷ s) i pos (omega arith)),
)
line_loop-count_le (c ∷ s) (suc p) line i pos e =
    ground (arith, line_loop-count_le s p (if c == newline then line + 1 else line) (i + 1) pos)

line-count_le :
    (li : List ℕ) (pos : ℕ) → IsIncreasing li → 0 < count_le li pos → line li pos ≡ count_le li pos
unfolding line
line-count_le li pos inc h =
    line_search-count_le (length li) li pos 0 (length li - 1) inc
      (omega (arith, count_le-length li pos)) h (omega (arith, count_le-length li pos))
      (omega (arith, count_le-length li pos))

line_of-count_le : (src : Bytes) (pos : ℕ) → line_of src pos ≡ count_le (new_line_index src) pos
unfolding line_of new_line_index count_le
line_of-count_le src pos = ground (arith, line_loop-count_le src pos 1 0 pos)

new_line_index-IsIncreasing : (src : Bytes) → IsIncreasing (new_line_index src)
unfolding new_line_index
new_line_index-IsIncreasing src =
    (line_starts_above src 0 0 (omega arith), line_starts-IsIncreasing src 0)

line_of-pos : (src : Bytes) (pos : ℕ) → 0 < count_le (new_line_index src) pos
unfolding count_le new_line_index
line_of-pos src pos = ground arith

-- The binary search over the line index of a text finds, at every offset, the line number that
-- counting the newlines before the offset gives.
pub line-line_of : (src : Bytes) (pos : ℕ) → line (new_line_index src) pos ≡ line_of src pos
line-line_of src pos =
    line-count_le (new_line_index src) pos (new_line_index-IsIncreasing src) (line_of-pos src pos)
    ∙ sym (line_of-count_le src pos)

-- How many newlines a text has.
unfoldable pub newlines : Bytes → ℕ
newlines [] = 0
newlines (c ∷ s) = if c == newline then suc (newlines s) else newlines s

line_loop-newlines :
    (s : Bytes) (pos line : ℕ) → line_loop s pos line ≡ line + newlines (take pos s)
unfolding line_loop newlines
line_loop-newlines [] zero line = omega arith
line_loop-newlines [] (suc pos) line = omega arith
line_loop-newlines (c ∷ s) zero line = omega arith
line_loop-newlines (c ∷ s) (suc pos) line =
    ground (arith, line_loop-newlines s pos (if c == newline then line + 1 else line))

pub line_of-newlines : (s : Bytes) (pos : ℕ) → line_of s pos ≡ 1 + newlines (take pos s)
unfolding line_of
line_of-newlines s pos = line_loop-newlines s pos 1
