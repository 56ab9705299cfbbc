-- ===== src/Shard/Engine/Verify.antt =====
-- internal/shard/engine.go: the scan of the content that a shard stores for a file.
use gcgrep.Base.{
  ℕ, zero, suc, ◌+◌, ◌<◌, ◌≤◌, inl, inr, arith, Bool-cases, Option-cases, Bool, ◌&&◌, ◌||◌, Option,
  none, some, List, [], ◌∷◌, Bytes, newline, ltb, leb, ◌==◌, if◌then◌else◌, length, drop, take,
}
use gcgrep.Go.Bytes.{index_byte}
use gcgrep.Daemon.Utf16.{is_binary}

-- A query as this scan reads it: the position of the first match in a line, and the limits, where 0
-- stands for every number that is not positive.
pub record Scan : Type 0 where
  pub find_first : Bytes → Option ℕ
  pub max_columns : ℕ
  pub limit : ℕ
  pub files_only : Bool

-- index.Match, less its path.
pub record Hit : Type 0 where
  pub line : ℕ
  pub col : ℕ
  pub line_len : ℕ
  pub text : Bytes

unfoldable pub hit : Scan → ℕ → Bytes → ℕ → Hit
hit q line_no line col = record {
  line = line_no;
  col = col;
  line_len = length line;
  text = if q.max_columns == 0 || leb (length line) q.max_columns then line else [];
}

-- Whether the scan returns with n matches.
unfoldable pub is_done : Scan → ℕ → Bool
is_done q n = q.files_only || ltb 0 q.limit && leb q.limit n

-- One line, with the number of matches before it, and what the rest of the loop gives.
unfoldable pub step : Scan → ℕ → ℕ → Bytes → (ℕ → List Hit) → List Hit
unfolding hit is_done
step q line_no found line rest = elim (q.find_first line) [
  | none ↦ rest found
  | some col ↦
      if is_done q (suc found)
      then hit q line_no line col ∷ []
      else hit q line_no line col ∷ rest (suc found)
]

-- matchContent's loop. Each turn takes a byte, so a fuel of the length is enough.
unfoldable pub content_loop : ℕ → Scan → ℕ → ℕ → Bytes → List Hit
unfolding step index_byte
content_loop zero q line_no found content = []
content_loop (suc fuel) q line_no found [] = []
content_loop (suc fuel) q line_no found (c ∷ content) = elim (index_byte (c ∷ content) newline) [
  | none ↦ step q line_no found (c ∷ content) (λ (n : ℕ). [])
  | some i ↦
      step q line_no found (take i (c ∷ content))
        (λ (n : ℕ). content_loop fuel q (suc line_no) n (drop (suc i) (c ∷ content)))
]

-- matchContent
unfoldable pub match_content : Scan → Bytes → List Hit
unfolding content_loop is_binary
match_content q content =
    if is_binary content then [] else content_loop (length content) q 1 0 content

step-bound :
    (q : Scan) (line_no found : ℕ) (line : Bytes) (rest : ℕ → List Hit)
    → found < q.limit
    → ((n : ℕ) → n < q.limit → n + length (rest n) ≤ q.limit)
    → found + length (step q line_no found line rest) ≤ q.limit
unfolding step is_done
step-bound q line_no found line rest h more = elim (Option-cases (q.find_first line)) [
  | inl e ↦ let m = more found h in ground (arith, e, m)
  | inr (col, e) ↦ elim (Bool-cases (q.files_only || ltb 0 q.limit && leb q.limit (suc found))) [
    | inl d ↦ ground (arith, e, d, h)
    | inr d ↦
        let room : suc found < q.limit = ground (arith, d, h) in
        let m = more (suc found) room in ground (arith, e, d, m)
  ]
]

content_loop-bound :
    (fuel : ℕ) (q : Scan) (line_no found : ℕ) (content : Bytes)
    → found < q.limit
    → found + length (content_loop fuel q line_no found content) ≤ q.limit
unfolding content_loop
content_loop-bound zero q line_no found content h = omega (arith, h)
content_loop-bound (suc fuel) q line_no found [] h = omega (arith, h)
content_loop-bound (suc fuel) q line_no found (c ∷ content) h =
    elim (Option-cases (index_byte (c ∷ content) newline)) [
      | inl e ↦
          let m =
            step-bound q line_no found (c ∷ content) (λ (n : ℕ). []) h (λ n k. omega (arith, k)) in
          rw (e, length) m
      | inr (i, e) ↦
          let m =
            step-bound q line_no found (take i (c ∷ content))
              (λ (n : ℕ). content_loop fuel q (suc line_no) n (drop (suc i) (c ∷ content))) h
              (λ n k. content_loop-bound fuel q (suc line_no) n (drop (suc i) (c ∷ content)) k) in
          rw (e, length) m
    ]

-- With a positive limit, the scan of a stored content returns no more matches than the limit.
pub match_content-bound :
    (q : Scan) (content : Bytes) → 0 < q.limit → length (match_content q content) ≤ q.limit
unfolding match_content
match_content-bound q content h = elim (Bool-cases (is_binary content)) [
  | inl e ↦ ground (arith, e)
  | inr e ↦ let b = content_loop-bound (length content) q 1 0 content h in ground (arith, e, b)
]
