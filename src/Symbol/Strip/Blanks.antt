-- ===== src/Symbol/Strip/Blanks.antt =====
-- What the C-like stripper blanks: comments and literals that begin in code.
use gcgrep.Base.{
  ℕ, ◌≡◌, ◌≢◌, refl, ap, ◌∙◌, ◌⊎◌, inr, Option, none, some, [], ◌∷◌, ◌++◌, Bytes, newline, space,
  map, All, arith,
}
use gcgrep.Symbol.Strip.{
  one, two, Step, run, blank, code, line_comment, block_comment, quoted, c_step, strip_c_like,
}

abbrev first : Bytes → Option ℕ
first [] = none
first (c ∷ s) = some c

abbrev second : Bytes → Option ℕ
second [] = none
second (c ∷ s) = first s

-- One round that writes one byte, and one that writes two.
run_one :
    {M : Type 0} (step : Step M) (m m' : M) (c a : ℕ) (s : Bytes)
    → step m c (first s) (second s) ≡ one a m'
    → run step m (c ∷ s) ≡ a ∷ run step m' s
unfolding run
run_one step m m' c a [] e = rw e
run_one step m m' c a (d ∷ []) e = rw e
run_one step m m' c a (d ∷ x ∷ s) e = rw e

run_two :
    {M : Type 0} (step : Step M) (m m' : M) (c d a b : ℕ) (s : Bytes)
    → step m c (some d) (first s) ≡ two a b m'
    → run step m (c ∷ d ∷ s) ≡ a ∷ b ∷ run step m' s
unfolding run
run_two step m m' c d a b [] e = rw e
run_two step m m' c d a b (x ∷ s) e = rw e

run-line_comment :
    (body rest : Bytes)
    → All (λ c. c ≢ newline) body
    → run c_step line_comment (body ++ newline ∷ rest)
      ≡ map blank body ++ newline ∷ run c_step code rest
unfolding c_step
run-line_comment [] rest h = run_one c_step line_comment code newline newline rest refl
run-line_comment (c ∷ body) rest h =
    run_one c_step line_comment line_comment c (blank c) (body ++ newline ∷ rest) (ground arith)
    ∙ ap (λ (t : Bytes). blank c ∷ t) (run-line_comment body rest h.1)

-- A line comment that begins in code is blanked up to its newline, where code goes on.
pub strip_c_like-line_comment :
    (body rest : Bytes)
    → All (λ c. c ≢ newline) body
    → strip_c_like (b'/' ∷ b'/' ∷ (body ++ newline ∷ rest))
      ≡ space ∷ space ∷ (map blank body ++ newline ∷ strip_c_like rest)
unfolding strip_c_like c_step
strip_c_like-line_comment body rest h =
    run_one c_step code line_comment b'/' space (b'/' ∷ (body ++ newline ∷ rest)) refl
    ∙ ap (λ (t : Bytes). space ∷ t)
        (run_one c_step line_comment line_comment b'/' space (body ++ newline ∷ rest) refl)
    ∙ ap (λ (t : Bytes). space ∷ space ∷ t) (run-line_comment body rest h)

-- No `*/` stands in the text.
abbrev pub NoClose : Bytes → Type 0
NoClose [] = Unit {0}
NoClose (c ∷ s) = ((c ≢ b'*') ⊎ (first s ≢ some b'/')) × NoClose s

block_inside :
    (c : ℕ) (d e : Option ℕ)
    → (c ≢ b'*') ⊎ (d ≢ some b'/')
    → c_step block_comment c d e ≡ one (blank c) block_comment
unfolding c_step
block_inside c none e h = ground arith
block_inside c (some d) e h = ground arith

block_round :
    (c : ℕ) (body tail : Bytes)
    → NoClose (c ∷ body)
    → run c_step block_comment (c ∷ (body ++ b'*' ∷ tail))
      ≡ blank c ∷ run c_step block_comment (body ++ b'*' ∷ tail)
block_round c [] tail h =
    run_one c_step block_comment block_comment c (blank c) (b'*' ∷ tail)
      (block_inside c (some b'*') (first tail) (inr (ground arith)))
block_round c (d ∷ body) tail h =
    run_one c_step block_comment block_comment c (blank c) (d ∷ (body ++ b'*' ∷ tail))
      (block_inside c (some d) (first (body ++ b'*' ∷ tail)) h.0)

run-block_comment :
    (body rest : Bytes)
    → NoClose body
    → run c_step block_comment (body ++ b'*' ∷ b'/' ∷ rest)
      ≡ map blank body ++ space ∷ space ∷ run c_step code rest
run-block_comment [] rest h =
    run_two c_step block_comment code b'*' b'/' space space rest (unfold c_step in refl)
run-block_comment (c ∷ body) rest h =
    block_round c body (b'/' ∷ rest) h
    ∙ ap (λ (t : Bytes). blank c ∷ t) (run-block_comment body rest h.1)

-- A block comment that begins in code, and whose text neither begins with a slash nor holds the
-- closing mark, is blanked with its marks; its newlines stay, and code goes on behind it.
pub strip_c_like-block_comment :
    (body rest : Bytes)
    → NoClose (b'*' ∷ body)
    → strip_c_like (b'/' ∷ b'*' ∷ (body ++ b'*' ∷ b'/' ∷ rest))
      ≡ space ∷ space ∷ (map blank body ++ space ∷ space ∷ strip_c_like rest)
unfolding strip_c_like c_step
strip_c_like-block_comment body rest h =
    run_one c_step code block_comment b'/' space (b'*' ∷ (body ++ b'*' ∷ b'/' ∷ rest)) refl
    ∙ ap (λ (t : Bytes). space ∷ t) (run-block_comment (b'*' ∷ body) rest h)

-- `/*/` is taken for a whole comment: its second slash closes it, and code goes on.
pub strip_c_like-slash_star_slash :
    (rest : Bytes)
    → strip_c_like (b'/' ∷ b'*' ∷ b'/' ∷ rest) ≡ space ∷ space ∷ space ∷ strip_c_like rest
unfolding strip_c_like c_step
strip_c_like-slash_star_slash rest =
    run_one c_step code block_comment b'/' space (b'*' ∷ b'/' ∷ rest) refl
    ∙ ap (λ (t : Bytes). space ∷ t)
        (run_two c_step block_comment code b'*' b'/' space space rest refl)

abbrev IsPlain : ℕ → ℕ → Type 0
IsPlain q c = (c ≢ q) × (c ≢ 92) × (c ≢ newline)

quoted_inside :
    (q c : ℕ) (d e : Option ℕ) → IsPlain q c → c_step (quoted q) c d e ≡ one space (quoted q)
unfolding c_step
quoted_inside q c none e h = ground arith
quoted_inside q c (some d) e h = ground arith

quoted_end : (q : ℕ) (d e : Option ℕ) → q ≢ 92 → c_step (quoted q) q d e ≡ one q code
unfolding c_step
quoted_end q none e h = ground arith
quoted_end q (some d) e h = ground arith

run-quoted :
    (q : ℕ) (body rest : Bytes)
    → q ≢ 92
    → All (IsPlain q) body
    → run c_step (quoted q) (body ++ q ∷ rest) ≡ map (λ _. space) body ++ q ∷ run c_step code rest
run-quoted q [] rest e h = run_one c_step (quoted q) code q q rest (quoted_end q _ _ e)
run-quoted q (c ∷ body) rest e h =
    run_one c_step (quoted q) (quoted q) c space (body ++ q ∷ rest) (quoted_inside q c _ _ h.0)
    ∙ ap (λ (t : Bytes). space ∷ t) (run-quoted q body rest e h.1)

-- The text of a double-quoted literal that begins in code, and holds no quote, backslash or
-- newline, is blanked between its quotes.
pub strip_c_like-quoted :
    (body rest : Bytes)
    → All (IsPlain b'"') body
    → strip_c_like (b'"' ∷ (body ++ b'"' ∷ rest))
      ≡ b'"' ∷ (map (λ _. space) body ++ b'"' ∷ strip_c_like rest)
unfolding strip_c_like c_step
strip_c_like-quoted body rest h =
    run_one c_step code (quoted b'"') b'"' b'"' (body ++ b'"' ∷ rest) refl
    ∙ ap (λ (t : Bytes). b'"' ∷ t) (run-quoted b'"' body rest (omega arith) h)
