-- ===== src/Index/Search/LineNumbers.antt =====
-- The line numbers of the matches: the loop that advances counts the newlines before each match.
use native.Mathlib.Nat.{zero-add}
use gcgrep.Base.{
  ℕ, zero, suc, ◌+◌, ◌-◌, ◌≤◌, ◌<◌, ◌≡◌, refl, ap, sym, ◌∙◌, inl, inr, Bool, false, Option, none,
  some, List, [], ◌∷◌, ◌++◌, append_assoc, append-nil, Bytes, newline, ◌==◌, if◌then◌else◌, length,
  take, drop, arith, Option-cases, drop-drop, drop-nil,
}
use gcgrep.Go.Bytes.{index_byte, index_where}
use gcgrep.Index.Literal.FindAll.{Apart}
use gcgrep.Index.Search.{Match, advance, match_of, append_line_matches}
use gcgrep.Symbol.Lines.{line_of, line_of-newlines, newlines}

newlines-index :
    (s : Bytes) (i : ℕ)
    → index_byte s newline ≡ some i
    → (newlines s ≡ suc (newlines (drop (suc i) s))) × (i < length s)
unfolding index_byte index_where newlines
newlines-index [] i e = absurd (ground arith)
newlines-index (c ∷ s) i e = elim (Option-cases (index_byte s newline)) [
  | inl n ↦ ground arith
  | inr (k, f) ↦ ground (arith, newlines-index s k f)
]

newlines-index-none : (s : Bytes) → index_byte s newline ≡ none → newlines s ≡ 0
unfolding index_byte index_where newlines
newlines-index-none [] e = refl
newlines-index-none (c ∷ s) e = ground (arith, newlines-index-none s)

take-nil : (n : ℕ) → take {A = ℕ} n [] ≡ []
take-nil zero = refl
take-nil (suc n) = refl

drop-take : (i n : ℕ) (s : Bytes) → drop i (take (i + n) s) ≡ take n (drop i s)
drop-take zero n s = ap (λ (k : ℕ). take k s) (omega arith)
drop-take (suc i) n [] = ground (arith, take-nil n, take-nil (suc i + n), drop-nil {A = ℕ} (suc i))
drop-take (suc i) n (c ∷ s) =
    let e : suc i + n ≡ suc (i + n) = omega arith in rw e (drop-take i n s)

length-take-le : (n : ℕ) (s : Bytes) → length (take n s) ≤ n
length-take-le zero s = omega arith
length-take-le (suc n) [] = omega arith
length-take-le (suc n) (c ∷ s) = omega (arith, length-take-le n s)

-- The loop ends at the target, having counted the newlines in between.
advance_lem :
    (fuel : ℕ) (content : Bytes) (target pos n line_no : ℕ)
    → target ≡ pos + n
    → n ≤ fuel
    → advance fuel content target pos line_no
      ≡ (target, line_no + newlines (take n (drop pos content)))
unfolding advance
advance_lem zero content target pos zero line_no e h = unfold newlines in ground arith
advance_lem zero content target pos (suc n) line_no e h = absurd (omega arith)
advance_lem (suc fuel) content target pos zero line_no e h = unfold newlines in ground arith
advance_lem (suc fuel) content target pos (suc n) line_no e h =
    let seg : Bytes = take (suc n) (drop pos content) in
    let width : target - pos ≡ suc n = omega arith in
    elim (Option-cases (index_byte seg newline)) [
      | inl x ↦ ground (arith, width, newlines-index-none seg x)
      | inr (nl, x) ↦
          let (count, inside) = newlines-index seg nl x in
          let room : nl < suc n =
            omega (arith, inside, length-take-le (suc n) (drop pos content)) in
          let split : suc nl + (n - nl) ≡ suc n = omega arith in
          ground (
            arith,
            width,
            count,
            room,
            drop-take (suc nl) (n - nl) (drop pos content),
            split,
            drop-drop (suc nl) pos content,
            advance_lem fuel content target (pos + nl + 1) (n - nl) (line_no + 1),
          )
    ]

-- One match for each line, its number counted from the start of the content.
unfoldable pub line_matches : Bytes → Bytes → ℕ → List (ℕ × ℕ) → Option ℕ → List Match
line_matches path content max_cols [] last = []
line_matches path content max_cols ((a, b) ∷ locs) last =
    let again : Bool = elim last [ none ↦ false | some l ↦ line_of content a == l ] in
    let skip = line_matches path content max_cols locs last in
    let next = line_matches path content max_cols locs (some (line_of content a)) in
    if again then skip else match_of path content max_cols (line_of content a) (a, b) ∷ next

newlines-take :
    (pos n : ℕ) (s : Bytes)
    → newlines (take (pos + n) s) ≡ newlines (take pos s) + newlines (take n (drop pos s))
unfolding newlines
newlines-take zero n s = ground (arith, zero-add n)
newlines-take (suc pos) n [] = ground (arith, take-nil n, take-nil (suc pos + n))
newlines-take (suc pos) n (c ∷ s) =
    let e : suc pos + n ≡ suc (pos + n) = omega arith in
    rw e (ground (arith, newlines-take pos n s))

-- The loop carries the line number from one offset to the next.
advance-line_of :
    (content : Bytes) (a pos line_no : ℕ)
    → pos ≤ a
    → line_no ≡ line_of content pos
    → advance (a - pos) content a pos line_no ≡ (a, line_of content a)
advance-line_of content a pos line_no h e =
    let whole : pos + (a - pos) ≡ a = omega arith in
    advance_lem (a - pos) content a pos (a - pos) line_no (sym whole) (omega arith)
    ∙ ground (
      arith,
      whole,
      line_of-newlines content a,
      line_of-newlines content pos,
      newlines-take pos (a - pos) content,
    )

Apart-weaken : (a b : ℕ) (locs : List (ℕ × ℕ)) → a < b → Apart b locs → Apart a locs
Apart-weaken a b [] h k = tt
Apart-weaken a b ((c, d) ∷ locs) h k = (omega arith, k.1, k.2)

append_line_matches-line_matches :
    (path content : Bytes) (max_cols : ℕ) (locs : List (ℕ × ℕ)) (line_no pos : ℕ) (last : Option ℕ)
    (matches : List Match)
    → Apart pos locs
    → line_no ≡ line_of content pos
    → append_line_matches path content 0 max_cols locs line_no pos last matches
      ≡ matches ++ line_matches path content max_cols locs last
unfolding append_line_matches line_matches
append_line_matches-line_matches path content max_cols [] line_no pos last matches h e =
    sym (append-nil matches)
append_line_matches-line_matches path content max_cols ((a, b) ∷ locs) line_no pos none matches h
      e =
    let m = match_of path content max_cols (line_of content a) (a, b) in
    ground (
      arith,
      advance-line_of content a pos line_no h.0 e,
      Apart-weaken a b locs h.1 h.2,
      append_line_matches-line_matches path content max_cols locs (line_of content a) a
          (some (line_of content a)) (matches ++ m ∷ []) (Apart-weaken a b locs h.1 h.2) refl,
      append_assoc matches (m ∷ [])
          (line_matches path content max_cols locs (some (line_of content a))),
    )
append_line_matches-line_matches path content max_cols ((a, b) ∷ locs) line_no pos (some l) matches
      h e =
    let m = match_of path content max_cols (line_of content a) (a, b) in
    ground (
      arith,
      advance-line_of content a pos line_no h.0 e,
      Apart-weaken a b locs h.1 h.2,
      append_line_matches-line_matches path content max_cols locs (line_of content a) a (some l)
          matches (Apart-weaken a b locs h.1 h.2) refl,
      append_line_matches-line_matches path content max_cols locs (line_of content a) a
          (some (line_of content a)) (matches ++ m ∷ []) (Apart-weaken a b locs h.1 h.2) refl,
      append_assoc matches (m ∷ [])
          (line_matches path content max_cols locs (some (line_of content a))),
    )

line_of-zero : (content : Bytes) → 1 ≡ line_of content 0
unfolding newlines
line_of-zero content = omega (arith, line_of-newlines content 0)

-- For locations in order that do not overlap, and without a limit, the matches appended are one for
-- each line that holds the start of a location, the first on that line, and its line number is that
-- of the location's offset, counted from the start of the content.
pub append_line_matches_lines :
    (path content : Bytes) (max_cols : ℕ) (locs : List (ℕ × ℕ)) (matches : List Match)
    → Apart 0 locs
    → append_line_matches path content 0 max_cols locs 1 0 none matches
      ≡ matches ++ line_matches path content max_cols locs none
append_line_matches_lines path content max_cols locs matches h =
    append_line_matches-line_matches path content max_cols locs 1 0 none matches h
      (line_of-zero content)
