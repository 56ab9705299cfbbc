-- ===== src/Tests/Text.antt =====
-- The properties of internal/symbol, and of the literal searches of internal/index, at concrete inputs.
use gcgrep.Base.{
  Bool, ℕ, ◌≡◌, refl, true, false, some, List, [], ◌∷◌, map, Bytes, codes, space, length, All,
  arith,
}
use gcgrep.Go.Map.{bytes_eq, bytes_eq_iff}
use gcgrep.Go.Bytes.{index, Occurs}
use gcgrep.Symbol.Strip.{strip, strip_c_like}
use gcgrep.Symbol.Strip.Shape.{Blanked, strip-Blanked}
use gcgrep.Symbol.Strip.Blanks.{strip_c_like-slash_star_slash}
use gcgrep.Symbol.Lines.{line, new_line_index, line_of, line-line_of}
use gcgrep.Symbol.Java.{TypeRange, covers, innermost}
use gcgrep.Symbol.Java.Ranges.{Around, Beats, innermost_best}
use gcgrep.Index.{lower}
use gcgrep.Index.Literal.{has_non_ascii, fold_index, literal_find_all}
use gcgrep.Index.Literal.Fold.{fold_index-index}
use gcgrep.Index.Literal.FindAll.{Apart, Covers, Occurrences, literal_find_all_exact}
use gcgrep.Index.Matcher.{
  Regexps, Matcher, matcher_for, plain_literal, find_first, pick_rare_byte, span,
}
use gcgrep.Index.Matcher.Prefilter.{plain_search}
use gcgrep.Index.Matcher.Fixed.{matcher_for_fixed}
use gcgrep.Index.Query.{Syntax, literal, plus, concat, nil, cons, required_literal}
use gcgrep.Index.Query.Required.{Matches, MatchesAll, Infix, required_literal_sound}

strip-Blanked_example : Blanked (codes "x # y") (strip "python" (codes "x # y"))
strip-Blanked_example = strip-Blanked "python" (codes "x # y")

strip_c_like-slash_star_slash_example :
    strip_c_like (codes "/*/x") ≡ space ∷ space ∷ space ∷ strip_c_like (codes "x")
strip_c_like-slash_star_slash_example = strip_c_like-slash_star_slash (codes "x")

line-line_of_example : line (new_line_index (97 ∷ 10 ∷ 98 ∷ [])) 2 ≡ line_of (97 ∷ 10 ∷ 98 ∷ []) 2
line-line_of_example = line-line_of (97 ∷ 10 ∷ 98 ∷ []) 2

abbrev outer : TypeRange
outer = record { name = codes "Outer"; kind = codes "class"; body = some (4, 90) }

abbrev inner : TypeRange
inner = record { name = codes "Inner"; kind = codes "class"; body = some (20, 40) }

abbrev two_types : List TypeRange
two_types = outer ∷ inner ∷ []

innermost_best_example :
    Around 30 (innermost two_types 30)
    × All (λ (u : TypeRange). covers u 30 ≡ true → Beats (innermost two_types 30) u) two_types
innermost_best_example = innermost_best two_types 30

fold_index-index_example :
    fold_index (codes "xaBc") (codes "abC")
    ≡ index (map lower (codes "xaBc")) (map lower (codes "abC"))
fold_index-index_example = fold_index-index (codes "xaBc") 97 (codes "bC")

literal_find_all_exact_example :
    Occurrences (codes "ab") (codes "abxab") (literal_find_all (codes "abxab") (codes "ab") false)
    × Apart 0 (literal_find_all (codes "abxab") (codes "ab") false)
    × ((p : ℕ)
        → Occurs (codes "ab") (codes "abxab") p
        → Covers p (literal_find_all (codes "abxab") (codes "ab") false))
literal_find_all_exact_example = literal_find_all_exact (codes "abxab") 97 (codes "b")

-- A regexp package whose patterns are their own texts, found literally.
abbrev literal_regexps : Regexps
literal_regexps = record {
  Regexp = Bytes;
  quote_meta = λ s. s;
  compile = λ s. some s;
  find_index = λ re s. span (length re) (index s re);
  find_all_index = λ re s. literal_find_all s re false;
  parse = λ s. some (literal false s);
}

abbrev nocase_matcher : Matcher literal_regexps
nocase_matcher = record {
  re = codes "(?i)ab";
  plain_lit = codes "ab";
  fold = true;
  rare_byte = (pick_rare_byte (codes "ab")).0;
  has_rare = (pick_rare_byte (codes "ab")).1;
}

compiled : matcher_for literal_regexps (codes "ab") true true ≡ some nocase_matcher
unfolding matcher_for plain_literal has_non_ascii
compiled = refl

ascii : has_non_ascii (codes "ab") ≡ false
unfolding has_non_ascii
ascii = refl

matcher_for_fixed_example :
    find_first literal_regexps nocase_matcher (codes "xABy")
    ≡ span 2 (plain_search true (codes "xABy") (codes "ab"))
matcher_for_fixed_example =
    matcher_for_fixed literal_regexps 97 (codes "b") true nocase_matcher (codes "xABy")
      (omega arith, (omega arith, tt)) (λ _. ascii) compiled

abbrev ab_then_c : Syntax
ab_then_c = concat (cons (literal false (codes "ab")) (cons (plus (literal false (codes "c"))) nil))

-- The folding of ASCII letters.
abbrev folds : Bytes → Bytes → Bool
folds r s = bytes_eq (map lower s) (map lower r)

abcc : Matches folds ab_then_c (codes "abcc")
abcc = Matches.in_order (
    MatchesAll.part (Matches.exact (codes "ab"))
      (MatchesAll.part
        (Matches.once_more (Matches.exact (codes "c"))
          (Matches.last_time (Matches.exact (codes "c"))) refl)
        MatchesAll.done refl)
      refl)

abcc-ascii : has_non_ascii (codes "abcc") ≡ false
unfolding has_non_ascii
abcc-ascii = refl

required_literal_sound_example :
    Infix (map lower (required_literal (map lower) ab_then_c)) (map lower (codes "abcc"))
required_literal_sound_example =
    required_literal_sound (map lower) folds ab_then_c (codes "abcc") (λ r h. refl)
      (λ r s h k e. (bytes_eq_iff (map lower s) (map lower r)).0 e) (tt, (tt, tt)) abcc-ascii abcc
