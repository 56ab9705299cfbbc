-- ===== src/Index/Query.antt =====
-- internal/index/query.go: the literal that every match of a pattern must contain.
pub mod Required
use gcgrep.Base.{
  ℕ, Bool, true, false, Option, none, some, [], ◌∷◌, ◌++◌, Bytes, ltb, if◌then◌else◌, length,
}

-- A simplified regexp/syntax tree. `literal fold r` holds string(re.Rune), the UTF-8 bytes, and the
-- FoldCase flag. The operations of the default case are told apart as far as matching needs it.
mutual
  pub data Syntax : Type 0 where
    literal : Bool → Bytes → Syntax
    capture plus star quest : Syntax → Syntax
    concat alternate : Subs → Syntax
    char_class : (Bytes → Bool) → Syntax
    zero_width : Syntax

  pub data Subs : Type 0 where
    nil : Subs
    cons : Syntax → Subs → Subs

-- The longer of the two, the first where they are equally long: `if len(s) > len(best)`.
abbrev pub longer : Bytes → Bytes → Bytes
longer best s = if ltb (length best) (length s) then s else best

-- sub.Op == syntax.OpLiteral && sub.Flags&syntax.FoldCase == 0
abbrev pub plain_part : Syntax → Option Bytes
plain_part (literal false r) = some r
plain_part _ = none

-- requiredLiteral. strings.ToLower is the argument `to_lower`. `required_concat best run` is the
-- loop over the parts of a concatenation, with its builder; the flush at the end included.
unfoldable mutual
  pub required_literal : (Bytes → Bytes) → Syntax → Bytes
  required_literal to_lower (literal true r) = to_lower r
  required_literal to_lower (literal false r) = r
  required_literal to_lower (capture re) = required_literal to_lower re
  required_literal to_lower (plus re) = required_literal to_lower re
  required_literal to_lower (concat subs) = required_concat to_lower subs [] []
  required_literal to_lower _ = []

  pub required_concat : (Bytes → Bytes) → Subs → Bytes → Bytes → Bytes
  required_concat to_lower nil best run = longer best run
  required_concat to_lower (cons sub subs) best run = elim (plain_part sub) [
    | some r ↦ required_concat to_lower subs best (run ++ r)
    | none ↦
        required_concat to_lower subs (longer (longer best run) (required_literal to_lower sub)) []
  ]

-- ExtractLiteral: the parsed pattern is given, none where parsing fails.
unfoldable pub extract_literal : (Bytes → Bytes) → (Bytes → Option Syntax) → Bytes → Bool → Bytes
extract_literal to_lower parse pattern fixed =
    let lit =
      if fixed
      then pattern
      else elim (parse pattern) [ none ↦ [] | some re ↦ required_literal to_lower re ] in
    if ltb (length lit) 3 then [] else to_lower lit
