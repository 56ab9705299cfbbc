-- ===== src/Index/Matcher/Fixed.antt =====
-- MatcherFor on fixed patterns.
use gcgrep.Base.{
  ℕ, ◌≡◌, refl, Bool, true, false, some, ◌∷◌, ◌++◌, Bytes, All, length, codes, Option-cases, inl,
  inr, arith,
}
use gcgrep.Index.Literal.{has_non_ascii}
use gcgrep.Index.Matcher.{Regexps, Matcher, plain_literal, matcher_for, find_first, span}
use gcgrep.Index.Matcher.Prefilter.{IsByte, plain_search, find_first_plain}

-- A non-empty fixed pattern of bytes, ASCII if case is to be ignored: the matcher that MatcherFor
-- returns finds in each line the first occurrence of the pattern, in lowercased copies under -i.
pub matcher_for_fixed :
    (rx : Regexps) (l : ℕ) (ls : Bytes) (nocase : Bool) (m : Matcher rx) (line : Bytes)
    → All IsByte (l ∷ ls)
    → (nocase ≡ true → has_non_ascii (l ∷ ls) ≡ false)
    → matcher_for rx (l ∷ ls) true nocase ≡ some m
    → find_first rx m line ≡ span (length (l ∷ ls)) (plain_search nocase line (l ∷ ls))
unfolding matcher_for plain_literal
matcher_for_fixed rx l ls false m line h a e =
    elim (Option-cases (rx.compile (rx.quote_meta (l ∷ ls)))) [
      | inl n ↦ ground arith
      | inr (re, f) ↦ ground (arith, find_first_plain rx re false l ls line h)
    ]
matcher_for_fixed rx l ls true m line h a e =
    elim (Option-cases (rx.compile (codes "(?i)" ++ rx.quote_meta (l ∷ ls)))) [
      | inl n ↦ ground arith
      | inr (re, f) ↦ ground (arith, a refl, find_first_plain rx re true l ls line h)
    ]
