-- ===== src/Symbol/Strip/Shape.antt =====
-- What the two strippers keep: the length and every newline.
use Prim.Native.String.{String}
use gcgrep.Base.{
  ℕ, ◌≡◌, ◌≢◌, refl, ◌⊎◌, inl, Option, none, some, [], ◌∷◌, Bytes, newline, space, arith,
}
use gcgrep.Symbol.Strip.{
  Action, one, two, three, Step, emit, run, Mode, code, line_comment, block_comment, backtick,
  quoted, c_step, PyMode, outer, hash, triple, single, py_step, strip,
}

-- A byte is kept, or blanked where it is no newline.
abbrev pub Blank : ℕ → ℕ → Type 0
Blank c a = (a ≡ c) ⊎ ((a ≡ space) × (c ≢ newline))

-- `out` is `src` with some bytes blanked, none of them a newline.
abbrev pub Blanked : Bytes → Bytes → Type 0
Blanked [] [] = Unit {0}
Blanked [] (_ ∷ _) = ⊥
Blanked (c ∷ src) [] = ⊥
Blanked (c ∷ src) (a ∷ out) = Blank c a × Blanked src out

abbrev BlankAt : Option ℕ → ℕ → Type 0
BlankAt none a = ⊥
BlankAt (some c) a = Blank c a

abbrev Fits : {M : Type 0} → Action M → ℕ → Option ℕ → Option ℕ → Type 0
Fits (one a m) c d e = Blank c a
Fits (two a b m) c d e = Blank c a × BlankAt d b
Fits (three a b x m) c d e = Blank c a × BlankAt d b × BlankAt e x

emit-Blanked :
    {M : Type 0} (a : Action M) (c d e : ℕ) (s : Bytes) (k₁ k₂ k₃ : M → Bytes)
    → Fits a c (some d) (some e)
    → ((m : M) → Blanked (d ∷ e ∷ s) (k₁ m))
    → ((m : M) → Blanked (e ∷ s) (k₂ m))
    → ((m : M) → Blanked s (k₃ m))
    → Blanked (c ∷ d ∷ e ∷ s) (emit a k₁ k₂ k₃)
emit-Blanked (one a m) c d e s k₁ k₂ k₃ f h₁ h₂ h₃ = (f, h₁ m)
emit-Blanked (two a b m) c d e s k₁ k₂ k₃ f h₁ h₂ h₃ = (f.0, (f.1, h₂ m))
emit-Blanked (three a b x m) c d e s k₁ k₂ k₃ f h₁ h₂ h₃ = (f.0, (f.1, (f.2, h₃ m)))

emit-Blanked_two :
    {M : Type 0} (a : Action M) (c d : ℕ) (k₁ k₂ k₃ : M → Bytes)
    → Fits a c (some d) none
    → ((m : M) → Blanked (d ∷ []) (k₁ m))
    → ((m : M) → Blanked [] (k₂ m))
    → Blanked (c ∷ d ∷ []) (emit a k₁ k₂ k₃)
emit-Blanked_two (one a m) c d k₁ k₂ k₃ f h₁ h₂ = (f, h₁ m)
emit-Blanked_two (two a b m) c d k₁ k₂ k₃ f h₁ h₂ = (f.0, (f.1, h₂ m))
emit-Blanked_two (three a b x m) c d k₁ k₂ k₃ f h₁ h₂ = absurd f.2

run-Blanked :
    {M : Type 0} (step : Step M)
    → ((m : M) (c : ℕ) (d e : Option ℕ) → Fits (step m c d e) c d e)
    → (m : M) (src : Bytes) → Blanked src (run step m src)
unfolding run
run-Blanked step fits m [] = tt
run-Blanked step fits m (c ∷ []) = ground (arith, fits m c none none)
run-Blanked step fits m (c ∷ d ∷ []) =
    emit-Blanked_two (step m c (some d) none) c d _ _ _ (fits m c (some d) none)
      (λ m'. run-Blanked step fits m' (d ∷ [])) (λ _. tt)
run-Blanked step fits m (c ∷ d ∷ e ∷ s) =
    emit-Blanked (step m c (some d) (some e)) c d e s _ _ _ (fits m c (some d) (some e))
      (λ m'. run-Blanked step fits m' (d ∷ e ∷ s)) (λ m'. run-Blanked step fits m' (e ∷ s))
      (λ m'. run-Blanked step fits m' s)

c_step-Fits : (m : Mode) (c : ℕ) (d e : Option ℕ) → Fits (c_step m c d e) c d e
unfolding c_step
c_step-Fits code c d e = ground arith
c_step-Fits line_comment c d e = ground arith
c_step-Fits block_comment c none e = ground arith
c_step-Fits block_comment c (some d) e = ground arith
c_step-Fits backtick c d e = ground arith
c_step-Fits (quoted q) c none e = ground arith
c_step-Fits (quoted q) c (some d) e = ground arith

py_step-Fits : (m : PyMode) (c : ℕ) (d e : Option ℕ) → Fits (py_step m c d e) c d e
unfolding py_step
py_step-Fits outer c none e = ground arith
py_step-Fits outer c (some d) none = ground arith
py_step-Fits outer c (some d) (some e) = ground arith
py_step-Fits hash c d e = ground arith
py_step-Fits (triple q) c none e = ground arith
py_step-Fits (triple q) c (some d) none = ground arith
py_step-Fits (triple q) c (some d) (some e) = ground arith
py_step-Fits (single q) c none e = ground arith
py_step-Fits (single q) c (some d) e = ground arith

Blanked-self : (src : Bytes) → Blanked src src
Blanked-self [] = tt
Blanked-self (c ∷ src) = (inl refl, Blanked-self src)

-- For every language key, Strip returns as many bytes as it is given, each of them either the
-- source's byte or a space that stands for a byte other than a newline.
pub strip-Blanked : (lang : String) (src : Bytes) → Blanked src (strip lang src)
unfolding strip
strip-Blanked lang src = ground (
  arith,
  run-Blanked py_step py_step-Fits outer src,
  run-Blanked c_step c_step-Fits code src,
  Blanked-self src,
)
