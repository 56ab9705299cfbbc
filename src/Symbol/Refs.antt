-- ===== src/Symbol/Refs.antt =====
-- internal/symbol/refs.go: the candidate references to a name.
use gcgrep.Base.{
  ℕ, zero, suc, ◌+◌, ◌-◌, Bool, false, ◌&&◌, ◌||◌, Option, none, some, List, [], ◌∷◌, Bytes, codes,
  ltb, leb, ◌==◌, if◌then◌else◌, length, drop, take, get_or,
}
use gcgrep.Go.Bytes.{index}
use gcgrep.Go.Map.{bytes_eq}
use gcgrep.Symbol.{Def, is_ident_byte}
use gcgrep.Symbol.Lines.{new_line_index, line}
use gcgrep.Index.Postings.{member}

-- Ref
pub record Ref : Type 0 where
  pub line : ℕ
  pub is_call : Bool

unfoldable pub is_blank : ℕ → Bool
is_blank c = c == 32 || c == 9 || c == 10 || c == 13

-- The blanks at the start of a list.
unfoldable pub blanks : Bytes → ℕ
unfolding is_blank
blanks [] = 0
blanks (c ∷ s) = let rest = blanks s in if is_blank c then suc rest else 0

-- skipSpace
unfoldable pub skip_space : Bytes → ℕ → ℕ
unfolding blanks
skip_space s i = i + blanks (drop i s)

-- defLines
unfoldable pub def_lines : Bytes → List Def → List ℕ
def_lines name [] = []
def_lines name (d ∷ ds) =
    let rest = def_lines name ds in if bytes_eq d.name name then d.line ∷ rest else rest

-- Whether an occurrence at pos, of n bytes, is a part of a longer identifier. A byte out of range is
-- read as 0, which no identifier has.
unfoldable pub inside_word : Bytes → ℕ → ℕ → Bool
unfolding is_ident_byte
inside_word s pos off =
    ltb 0 pos && is_ident_byte (get_or s (pos - 1) 0) || is_ident_byte (get_or s off 0)

-- The loop back over blanks and tabs: one more than the last position before pos that is neither.
unfoldable pub back_over : ℕ → Bytes → ℕ
back_over zero s = 0
back_over (suc p) s =
    let rest = back_over p s in if get_or s p 0 == 32 || get_or s p 0 == 9 then rest else suc p

unfoldable pub after_new : Bytes → ℕ → Bool
unfolding back_over bytes_eq
after_new s pos =
    let p = back_over pos s in leb 3 p && bytes_eq (take 3 (drop (p - 3) s)) (codes "new")

unfoldable pub is_call_at : Bytes → ℕ → ℕ → Bool
unfolding skip_space after_new
is_call_at s pos off = get_or s (skip_space s off) 0 == 40 || after_new s pos

-- One turn of the loop at an occurrence: the reference, if there is one, that starts at pos.
unfoldable pub ref_at : Bytes → List ℕ → ℕ → ℕ → Option ℕ → Option Ref
unfolding inside_word is_call_at member line new_line_index
ref_at s defs pos off seen_line =
    let at = line (new_line_index s) pos in
    if inside_word s pos off
    then none
    else if member at defs || elim seen_line [ none ↦ false | some l ↦ at == l ]
    then none
    else some (record { line = at; is_call = is_call_at s pos off })

unfoldable pub seen_after : Option ℕ → Option Ref → Option ℕ
seen_after seen none = seen
seen_after seen (some r) = some r.line

unfoldable pub cons_ref : Option Ref → List Ref → List Ref
cons_ref none rs = rs
cons_ref (some r) rs = r ∷ rs

-- The loop over the occurrences. Each moves off by the length of the name, so that with a name that is
-- not empty a fuel of one more than the length of the text is enough.
unfoldable pub refs_loop : ℕ → Bytes → Bytes → List ℕ → ℕ → Option ℕ → List Ref
unfolding ref_at seen_after cons_ref index
refs_loop zero s name defs off seen = []
refs_loop (suc fuel) s name defs off seen = elim (index (drop off s) name) [
  | none ↦ []
  | some i ↦
      let pos = off + i in
      let r = ref_at s defs pos (pos + length name) seen in
      cons_ref r (refs_loop fuel s name defs (pos + length name) (seen_after seen r))
]

-- Refs, from the stripped text and the definitions that were extracted.
unfoldable pub refs : Bytes → List Def → Bytes → List Ref
unfolding refs_loop def_lines
refs s defs name = refs_loop (suc (length s)) s name (def_lines name defs) 0 none
