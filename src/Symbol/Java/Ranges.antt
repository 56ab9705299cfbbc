-- ===== src/Symbol/Java/Ranges.antt =====
-- internal/symbol/java.go: the innermost type around a position.
use gcgrep.Base.{
  ℕ, ◌≤◌, ◌≡◌, inl, inr, refl, sym, ◌∙◌, if◌then◌else◌, Bool, true, false, ◌&&◌, Option, none, some,
  List, [], ◌∷◌, ltb, arith, Bool-cases, All,
}
use gcgrep.Symbol.Java.{TypeRange, covers, opens_at, deeper_than, innermost_from, innermost}

-- A type was found whose body starts no earlier than that of t.
abbrev pub Beats : Option TypeRange → TypeRange → Type 0
Beats none t = ⊥
Beats (some best) t = opens_at t ≤ opens_at best

-- What was found, if anything, is around the position.
abbrev pub Around : ℕ → Option TypeRange → Type 0
Around pos none = Unit {0}
Around pos (some t) = covers t pos ≡ true

Beats-innermost_from :
    (types : List TypeRange) (best : Option TypeRange) (pos : ℕ) (t : TypeRange)
    → Beats best t
    → Beats (innermost_from best types pos) t
unfolding innermost_from deeper_than
Beats-innermost_from [] best pos t h = h
Beats-innermost_from (u ∷ us) none pos t h = elim h [ ]
Beats-innermost_from (u ∷ us) (some b) pos t h =
    elim (Bool-cases (covers u pos && ltb (opens_at b) (opens_at u))) [
      | inl e ↦
          let le : opens_at t ≤ opens_at u = ground arith in
          rw e (Beats-innermost_from us (some u) pos t le)
      | inr e ↦ rw e (Beats-innermost_from us (some b) pos t h)
    ]

Around-innermost_from :
    (types : List TypeRange) (best : Option TypeRange) (pos : ℕ)
    → Around pos best
    → Around pos (innermost_from best types pos)
unfolding innermost_from
Around-innermost_from [] best pos h = h
Around-innermost_from (u ∷ us) best pos h = elim (Bool-cases (covers u pos && deeper_than best u)) [
  | inl e ↦
      let c : covers u pos ≡ true = ground arith in rw e (Around-innermost_from us (some u) pos c)
  | inr e ↦ rw e (Around-innermost_from us best pos h)
]

beaten : (best : Option TypeRange) (u : TypeRange) → deeper_than best u ≡ false → Beats best u
unfolding deeper_than
beaten none u h = cc
beaten (some b) u h = ground arith

from_cons :
    (u : TypeRange) (us : List TypeRange) (best : Option TypeRange) (pos : ℕ) (b : Bool)
    → (covers u pos && deeper_than best u) ≡ b
    → innermost_from best (u ∷ us) pos
      ≡ (if b then innermost_from (some u) us pos else innermost_from best us pos)
unfolding innermost_from
from_cons u us best pos b e = rw e refl

All-Beats :
    (types : List TypeRange) (best r : Option TypeRange) (pos : ℕ)
    → innermost_from best types pos ≡ r
    → All (λ (u : TypeRange). covers u pos ≡ true → Beats r u) types
All-Beats [] best r pos e = tt
All-Beats (u ∷ us) best r pos e = elim (Bool-cases (covers u pos && deeper_than best u)) [
  | inl h ↦
      let e' : innermost_from (some u) us pos ≡ r = sym (from_cons u us best pos true h) ∙ e in
      (
        (λ _. rw (sym e') (Beats-innermost_from us (some u) pos u (omega arith))),
        All-Beats us (some u) r pos e',
      )
  | inr h ↦
      let e' : innermost_from best us pos ≡ r = sym (from_cons u us best pos false h) ∙ e in
      (
        (λ c. rw (sym e') (Beats-innermost_from us best pos u (beaten best u (ground arith)))),
        All-Beats us best r pos e',
      )
]

-- The type that innermost returns has a body around the position, and no type of the list whose body is
-- around it starts further in: with none returned, there is no such type.
pub innermost_best :
    (types : List TypeRange) (pos : ℕ)
    → Around pos (innermost types pos)
      × All (λ (u : TypeRange). covers u pos ≡ true → Beats (innermost types pos) u) types
unfolding innermost
innermost_best types pos =
    (Around-innermost_from types none pos tt, All-Beats types none (innermost types pos) pos refl)
