-- ===== src/Symbol/Strip.antt =====
-- internal/symbol/strip.go: comments and string literals are blanked, byte for byte.
-- A loop body that looks at most two bytes ahead is a step function; what it writes and how far
-- it moves on is an action, and `run` is the loop over the bytes that are left.
pub mod Shape
pub mod Blanks
use Prim.Native.String.{String}
use gcgrep.Base.{
  ℕ, ◌==◌, if◌then◌else◌, Bool, false, ◌&&◌, ◌||◌, Option, none, some, List, [], ◌∷◌, Bytes,
  newline, space,
}
use text.Mathlib.Text.{◌==◌ as str_eq}

-- One round of a loop: the bytes written at i, i+1, i+2 and the state in which the loop goes on.
pub data Action (M : Type 0) : Type 0 where
  one : ℕ → M → Action M
  two : ℕ → ℕ → M → Action M
  three : ℕ → ℕ → ℕ → M → Action M

-- A loop body: the state, out[i], and out[i+1] and out[i+2] where they exist.
abbrev pub Step : Type 0 → Type 0
Step M = M → ℕ → Option ℕ → Option ℕ → Action M

-- The bytes written, then the loop from i+1, i+2 or i+3 in the new state.
abbrev pub emit : {M : Type 0} → Action M → (M → Bytes) → (M → Bytes) → (M → Bytes) → Bytes
emit (one a m) k₁ k₂ k₃ = a ∷ k₁ m
emit (two a b m) k₁ k₂ k₃ = a ∷ b ∷ k₂ m
emit (three a b x m) k₁ k₂ k₃ = a ∷ b ∷ x ∷ k₃ m

unfoldable pub run : {M : Type 0} → Step M → M → Bytes → Bytes
run step m [] = []
run step m (c ∷ []) = emit (step m c none none) (λ _. []) (λ _. []) (λ _. [])
run step m (c ∷ d ∷ []) =
    emit (step m c (some d) none) (λ m'. run step m' (d ∷ [])) (λ _. []) (λ _. [])
run step m (c ∷ d ∷ e ∷ s) =
    emit (step m c (some d) (some e)) (λ m'. run step m' (d ∷ e ∷ s)) (λ m'. run step m' (e ∷ s))
      (λ m'. run step m' s)

abbrev pub is_byte : Option ℕ → ℕ → Bool
is_byte none x = false
is_byte (some c) x = c == x

-- A byte inside a comment or literal: blank, but a newline stays.
abbrev pub blank : ℕ → ℕ
blank c = if c == newline then c else space

-- The states of stripCLike; `quoted q` is dquote and squote.
pub data Mode : Type 0 where
  code line_comment block_comment backtick : Mode
  quoted : ℕ → Mode

c_code : ℕ → Option ℕ → Action Mode
c_code c d =
    if c == b'/' && is_byte d b'/'
    then one space line_comment
    else if c == b'/' && is_byte d b'*'
    then one space block_comment
    else if c == b'"'
    then one c (quoted b'"')
    else if c == 39
    then one c (quoted 39)
    else if c == 96
    then one c backtick
    else one c code

c_quoted : ℕ → ℕ → Option ℕ → Action Mode
c_quoted q c (some d) =
    if c == 92
    then two space (blank d) (quoted q)
    else if c == q
    then one c code
    else if c == newline
    then one c code
    else one space (quoted q)
c_quoted q c none =
    if c == q then one c code else if c == newline then one c code else one space (quoted q)

unfoldable pub c_step : Step Mode
unfolding c_code c_quoted
c_step code c d e = c_code c d
c_step line_comment c d e = if c == newline then one c code else one space line_comment
c_step block_comment c d e =
    if c == b'*' && is_byte d b'/' then two space space code else one (blank c) block_comment
c_step (quoted q) c d e = c_quoted q c d
c_step backtick c d e = if c == 96 then one c code else one (blank c) backtick

-- stripCLike
unfoldable pub strip_c_like : Bytes → Bytes
unfolding run c_step
strip_c_like src = run c_step code src

-- Where stripPython stands: in its outer loop, or in one of the three loops inside it.
pub data PyMode : Type 0 where
  outer hash : PyMode
  triple single : ℕ → PyMode

abbrev py_outer : ℕ → Option ℕ → Option ℕ → Action PyMode
py_outer c d e =
    if c == b'#'
    then one space hash
    else if c == b'"' || c == 39
    then if is_byte d c && is_byte e c then three c c c (triple c) else one c (single c)
    else one c outer

py_single : ℕ → ℕ → Option ℕ → Action PyMode
py_single q c d =
    if c == newline
    then one c outer
    else if c == 92
    then elim d [ some x ↦ two space (blank x) (single q) | none ↦ one space (single q) ]
    else if c == q
    then one c outer
    else one space (single q)

unfoldable pub py_step : Step PyMode
unfolding py_single
py_step outer c d e = py_outer c d e
py_step hash c d e = if c == newline then one c outer else one space hash
py_step (triple q) c d e =
    if c == q && is_byte d q && is_byte e q then three q q q outer else one (blank c) (triple q)
py_step (single q) c d e = py_single q c d

-- stripPython
unfoldable pub strip_python : Bytes → Bytes
unfolding run py_step
strip_python src = run py_step outer src

-- Strip
unfoldable pub strip : String → Bytes → Bytes
unfolding strip_c_like strip_python
strip lang src =
    if str_eq lang "python"
    then strip_python src
    else if str_eq lang "go" || str_eq lang "java" || str_eq lang "typescript"
    then strip_c_like src
    else src
