-- ===== src/Index/Matcher.antt =====
-- internal/index/matcher.go: a compiled pattern with its fast path for plain literals.
-- Go's regexp package is a parameter: what it compiles and finds is not under the sources.
pub mod Prefilter
pub mod Fixed
use Prim.Native.Nat.{bit_xor}
use gcgrep.Base.{
  ℕ, ◌+◌, ◌≡◌, Bool, true, false, ◌&&◌, ◌||◌, not, Option, none, some, List, [], ◌∷◌, ◌++◌, Bytes,
  ◌==◌, leb, ltb, if◌then◌else◌, length, codes,
}
use gcgrep.Go.Bytes.{index, index_byte}
use gcgrep.Index.{lower}
use gcgrep.Index.Literal.{has_non_ascii, fold_index}
use gcgrep.Index.Query.{Syntax, literal}

-- Compiled patterns, compilation, quoting and parsing, as the regexp package gives them.
-- `parse` is syntax.Parse followed by Simplify.
pub record Regexps : Type 1 where
  pub Regexp : Type 0
  pub quote_meta : Bytes → Bytes
  pub compile : Bytes → Option Regexp
  pub find_index : Regexp → Bytes → Option (ℕ × ℕ)
  pub find_all_index : Regexp → Bytes → List (ℕ × ℕ)
  pub parse : Bytes → Option Syntax

abbrev pub lacks : Bytes → ℕ → Bool
lacks line b = elim (index_byte line b) [ none ↦ true | some _ ↦ false ]

-- init of matcher.go: the later assignments stand first.
unfoldable pub byte_freq_rank : ℕ → ℕ
unfolding index_byte
byte_freq_rank b =
    if not (lacks (codes "(){}[];,._=-+*/<>&|!:\"'\\#") b)
    then 140
    else if leb b'0' b && leb b b'9'
    then 160
    else if leb b'A' b && leb b b'Z'
    then 180
    else if leb b'a' b && leb b b'z'
    then 200
    else if b == 32 || b == 9 || b == 10 || b == 13
    then 255
    else 50

rare_loop : ℕ → Bytes → ℕ
rare_loop best [] = best
rare_loop best (c ∷ s) =
    rare_loop (if ltb (byte_freq_rank c) (byte_freq_rank best) then c else best) s

-- pickRareByte
unfoldable pub pick_rare_byte : Bytes → ℕ × Bool
unfolding rare_loop
pick_rare_byte [] = (0, false)
pick_rare_byte (c ∷ s) = (rare_loop c s, true)

-- PlainLiteral (literal.go)
unfoldable pub plain_literal : (Bytes → Option Syntax) → Bytes → Bool → Option Bytes
plain_literal parse pattern true = some pattern
plain_literal parse pattern false = elim (parse pattern) [
  | some (literal false r) ↦ some r
  | _ ↦ none
]

unfoldable pub is_letter : ℕ → Bool
is_letter b = (leb b'a' b && leb b b'z') || (leb b'A' b && leb b b'Z')

-- The pair [i, i+len) of an index.
abbrev pub span : ℕ → Option ℕ → Option (ℕ × ℕ)
span n none = none
span n (some i) = some (i, i + n)

-- The early returns of FindFirst: the line lacks the rare byte and, under folding, its other case.
unfoldable pub prefilter : Bool → ℕ → Bytes → Bool
unfolding is_letter
prefilter fold rare line =
    lacks line rare
    && (not fold || (is_letter (bit_xor rare 0x20) && lacks line (bit_xor rare 0x20)))

module _ (rx : Regexps) where
  open rx use {Regexp, quote_meta, compile, find_index, parse}

  pub record Matcher : Type 0 where
    pub re : Regexp
    pub plain_lit : Bytes
    pub fold : Bool
    pub rare_byte : ℕ
    pub has_rare : Bool

  -- MatcherFor: the literal and the fold flag that it settles on.
  unfoldable pub fast_path : Option Bytes → Bool → Bytes × Bool
  fast_path none nocase = ([], false)
  fast_path (some lit) false = (lit, false)
  fast_path (some lit) true = if not (has_non_ascii lit) then (lit, true) else ([], false)

  unfoldable pub matcher_for : Bytes → Bool → Bool → Option Matcher
  unfolding fast_path
  matcher_for pattern fixed nocase =
      let quoted = if fixed then quote_meta pattern else pattern in
      let pat = if nocase then codes "(?i)" ++ quoted else quoted in
      elim (compile pat) [
        | none ↦ none
        | some re ↦
            let (lit, fold) = fast_path (plain_literal parse pattern fixed) nocase in
            let (rare, has) = pick_rare_byte lit in
            some
              (record { re = re; plain_lit = lit; fold = fold; rare_byte = rare; has_rare = has })
      ]

  -- FindFirst
  unfoldable pub find_first : Matcher → Bytes → Option (ℕ × ℕ)
  find_first m line = elim (m.plain_lit) [
    | [] ↦ find_index m.re line
    | l ∷ ls ↦
        if m.has_rare && prefilter m.fold m.rare_byte line
        then none
        else if m.fold
        then span (length (l ∷ ls)) (fold_index line (l ∷ ls))
        else span (length (l ∷ ls)) (index line (l ∷ ls))
  ]
