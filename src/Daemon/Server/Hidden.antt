-- ===== src/Daemon/Server/Hidden.antt =====
-- internal/daemon/server.go: hiddenPath against the segments of a path.
use gcgrep.Base.{
  ℕ, zero, suc, ◌≤◌, ◌≡◌, refl, ap, sym, ◌∙◌, inl, inr, arith, Bool-cases, Option-cases, Bool,
  false, ◌||◌, Option, none, some, List, [], ◌∷◌, Bytes, ◌==◌, length, take, drop, length-drop,
}
use gcgrep.Go.Bytes.{index_where, index_byte}
use gcgrep.Ignore.{split}
use gcgrep.Daemon.Server.{hidden_loop, hidden_path}

-- The segment begins with a dot.
unfoldable pub is_dotted : Bytes → Bool
is_dotted [] = false
is_dotted (c ∷ s) = c == b'.'

unfoldable pub any_dotted : List Bytes → Bool
unfolding is_dotted
any_dotted [] = false
any_dotted (p ∷ ps) = is_dotted p || any_dotted ps

abbrev is_slash : ℕ → Bool
is_slash c = c == b'/'

split-none : (s : Bytes) → index_where is_slash s ≡ none → split s ≡ s ∷ []
unfolding index_where split
split-none [] e = refl
split-none (c ∷ s) e = elim (Option-cases (index_where is_slash s)) [
  | inl n ↦ let rest = split-none s n in ground (arith, e, rest)
  | inr (k, f) ↦ ground (arith, e, f)
]

split-cons : (s : Bytes) → (p : Bytes) × (ps : List Bytes) × (split s ≡ p ∷ ps)
unfolding split
split-cons [] = ([], [], refl)
split-cons (c ∷ s) =
    let (p, ps, e) = split-cons s in
    elim (Bool-cases (c == b'/')) [
      | inl h ↦ ([], p ∷ ps, ground (arith, e, h))
      | inr h ↦ (c ∷ p, ps, ground (arith, e, h))
    ]

split-some :
    (s : Bytes) (i : ℕ)
    → index_where is_slash s ≡ some i
    → split s ≡ take i s ∷ split (drop (suc i) s)
unfolding index_where split
split-some [] i e = ground (arith, e)
split-some (c ∷ s) zero e =
    let (p, ps, f) = split-cons s in
    elim (Bool-cases (c == b'/')) [
      | inl h ↦ ground (arith, f, h)
      | inr h ↦ elim (Option-cases (index_where is_slash s)) [
        | inl n ↦ ground (arith, e, h, n)
        | inr (k, g) ↦ ground (arith, e, h, g)
      ]
    ]
split-some (c ∷ s) (suc i) e = elim (Option-cases (index_where is_slash s)) [
  | inl n ↦ ground (arith, e, n)
  | inr (k, g) ↦
      let same : k ≡ i = ground (arith, e, g) in
      let rest = split-some s i (g ∙ ap some same) in
      let other : (c == b'/') ≡ false = ground (arith, e, g) in ground (arith, rest, other)
]

split-nil : split [] ≡ [] ∷ []
unfolding split
split-nil = refl

-- One turn of the loop, for an answer of IndexByte.
loop_turn : Option ℕ → ℕ → ℕ → Bytes → Bool
loop_turn o fuel c s =
    c == b'.' || elim o [ none ↦ false | some i ↦ hidden_loop fuel (drop (suc i) (c ∷ s)) ]

-- The segment before the slash begins with the byte that the loop looks at, unless it is empty.
first_segment :
    (c : ℕ) (s : Bytes) (i : ℕ) (b : Bool)
    → index_where is_slash (c ∷ s) ≡ some i
    → (c == b'.' || b) ≡ (is_dotted (take i (c ∷ s)) || b)
unfolding index_where is_dotted
first_segment c s (suc i) b e = refl
first_segment c s zero b e = elim (Option-cases (index_where is_slash s)) [
  | inl n ↦ ground (arith, e, n)
  | inr (k, g) ↦ ground (arith, e, g)
]

hidden_loop-split :
    (fuel : ℕ) (rel : Bytes) → length rel ≤ fuel → hidden_loop fuel rel ≡ any_dotted (split rel)
unfolding hidden_loop loop_turn any_dotted is_dotted index_byte
hidden_loop-split zero [] h = sym (ap any_dotted split-nil)
hidden_loop-split zero (c ∷ s) h = ground (arith, h)
hidden_loop-split (suc fuel) [] h = sym (ap any_dotted split-nil)
hidden_loop-split (suc fuel) (c ∷ s) h =
    let turn = λ (o : Option ℕ). loop_turn o fuel c s in
    elim (Option-cases (index_where is_slash (c ∷ s))) [
      | inl e ↦ ap turn e ∙ sym (ap any_dotted (split-none (c ∷ s) e))
      | inr (i, e) ↦
          let left = length-drop i s in
          let rest = hidden_loop-split fuel (drop i s) (omega (arith, h, left)) in
          ap turn e
          ∙ ap (λ (b : Bool). c == b'.' || b) rest
          ∙ first_segment c s i (any_dotted (split (drop i s))) e
          ∙ sym (ap any_dotted (split-some (c ∷ s) i e))
    ]

-- A path is hidden exactly if one of the segments between its slashes begins with a dot.
pub hidden_path-split : (rel : Bytes) → hidden_path rel ≡ any_dotted (split rel)
unfolding hidden_path
hidden_path-split rel = hidden_loop-split (length rel) rel (omega arith)
