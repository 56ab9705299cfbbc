-- ===== src/Symbol/Java.antt =====
-- internal/symbol/java.go: the definitions in a Java text whose comments and strings are blanked.
pub mod Ranges
use gcgrep.Base.{
  ℕ, zero, suc, ◌+◌, ◌-◌, Bool, true, false, ◌&&◌, ◌||◌, not, Option, none, some, List, [], ◌∷◌,
  ◌++◌, Bytes, codes, ltb, leb, ◌==◌, if◌then◌else◌, length, drop, take, get_or,
}
use gcgrep.Go.Map.{bytes_eq}
use gcgrep.Symbol.{Def, is_ident_byte}
use gcgrep.Symbol.Lines.{new_line_index, line}
use gcgrep.Symbol.Refs.{is_blank, skip_space}
use gcgrep.Index.Postings.{member}

-- typeRange; none is the pair of -1 that braceRange returns where it finds no body.
pub record TypeRange : Type 0 where
  pub name : Bytes
  pub kind : Bytes
  pub body : Option (ℕ × ℕ)

-- The first '{', unless a ';' comes before it.
unfoldable pub find_open : Bytes → Option ℕ
find_open [] = none
find_open (c ∷ s) =
    let rest = find_open s in
    if c == 123
    then some 0
    else if c == 59
    then none
    else elim rest [ none ↦ none | some i ↦ some (suc i) ]

-- The bytes up to the bracket that brings the depth back to 0, or all of them.
unfoldable pub balanced : ℕ → ℕ → ℕ → Bytes → ℕ
balanced opener closer depth [] = 0
balanced opener closer depth (c ∷ s) =
    let deeper = balanced opener closer (depth + 1) s in
    let shallower = balanced opener closer (depth - 1) s in
    let same = balanced opener closer depth s in
    if c == opener
    then suc deeper
    else if c == closer
    then if depth - 1 == 0 then 1 else suc shallower
    else suc same

-- braceRange
unfoldable pub brace_range : Bytes → ℕ → Option (ℕ × ℕ)
unfolding find_open balanced
brace_range s pos = elim (find_open (drop pos s)) [
  | none ↦ none
  | some i ↦ some (pos + i, (pos + i) + balanced 123 125 0 (drop (pos + i) s))
]

-- t.open >= 0 && t.open < pos && pos < t.close
unfoldable pub covers : TypeRange → ℕ → Bool
covers t pos = elim t.body [ none ↦ false | some (first, past) ↦ ltb first pos && ltb pos past ]

unfoldable pub opens_at : TypeRange → ℕ
opens_at t = elim t.body [ none ↦ 0 | some (first, _) ↦ first ]

-- best == nil || t.open > best.open
unfoldable pub deeper_than : Option TypeRange → TypeRange → Bool
unfolding opens_at
deeper_than none t = true
deeper_than (some best) t = ltb (opens_at best) (opens_at t)

-- The loop of innermost.
unfoldable pub innermost_from : Option TypeRange → List TypeRange → ℕ → Option TypeRange
unfolding covers deeper_than
innermost_from best [] pos = best
innermost_from best (t ∷ ts) pos =
    if covers t pos && deeper_than best t
    then innermost_from (some t) ts pos
    else innermost_from best ts pos

unfoldable pub innermost : List TypeRange → ℕ → Option TypeRange
unfolding innermost_from
innermost types pos = innermost_from none types pos

-- containerAt
unfoldable pub container_at : List TypeRange → ℕ → Bytes
unfolding innermost
container_at types pos = elim (innermost types pos) [ none ↦ [] | some t ↦ t.name ]

-- methodCandidate
pub record MethodCandidate : Type 0 where
  pub name : Bytes
  pub name_pos : ℕ
  pub has_body : Bool

-- notDefPreceders
abbrev pub not_def_preceders : List Bytes
not_def_preceders =
    codes "if"
    ∷ codes "for"
    ∷ codes "while"
    ∷ codes "switch"
    ∷ codes "catch"
    ∷ codes "return"
    ∷ codes "new"
    ∷ codes "else"
    ∷ codes "do"
    ∷ codes "throw"
    ∷ codes "case"
    ∷ codes "assert"
    ∷ codes "yield"
    ∷ codes "await"
    ∷ codes "typeof"
    ∷ codes "in"
    ∷ codes "of"
    ∷ codes "delete"
    ∷ codes "synchronized"
    ∷ codes "try"
    ∷ codes "finally"
    ∷ codes "record"
    ∷ []

unfoldable pub listed : Bytes → List Bytes → Bool
listed w [] = false
listed w (v ∷ vs) = bytes_eq v w || listed w vs

-- The identifier bytes at the start of a list.
unfoldable pub word : Bytes → ℕ
unfolding is_ident_byte
word [] = 0
word (c ∷ s) = let rest = word s in if is_ident_byte c then suc rest else 0

-- One more than the last position before pos that is not blank.
unfoldable pub back_blanks : ℕ → Bytes → ℕ
unfolding is_blank
back_blanks zero s = 0
back_blanks (suc p) s =
    let rest = back_blanks p s in if is_blank (get_or s p 0) then rest else suc p

-- Where the identifier that ends at a position starts.
unfoldable pub back_word : ℕ → Bytes → ℕ
unfolding is_ident_byte
back_word zero s = 0
back_word (suc p) s =
    let rest = back_word p s in if is_ident_byte (get_or s p 0) then rest else suc p

-- The word before end, the empty one after '>' ']' '}' and '@', or none where this cannot be a definition.
unfoldable pub prev_word : Bytes → ℕ → Option Bytes
unfolding back_word member
prev_word s zero = none
prev_word s (suc p) =
    let c = get_or s p 0 in
    if member c (codes ".(,=+-!&|:?{;<*/")
    then none
    else if is_ident_byte c
    then some (take (suc p - back_word (suc p) s) (drop (back_word (suc p) s) s))
    else if member c (codes ">]};@")
    then some []
    else none

-- The bytes before the first '{' or ';'.
unfoldable pub to_body : Bytes → ℕ
to_body [] = 0
to_body (c ∷ s) = let rest = to_body s in if c == 123 || c == 59 then 0 else suc rest

-- The position after the parameters that open at j, the blanks and the throws clause.
unfoldable pub body_at : Bytes → ℕ → ℕ
unfolding balanced skip_space to_body
body_at s j =
    let k = skip_space s (j + balanced 40 41 0 (drop j s)) in
    if bytes_eq (take 6 (drop k s)) (codes "throws") then k + to_body (drop k s) else k

unfoldable pub is_empty : Bytes → Bool
is_empty [] = true
is_empty (_ ∷ _) = false

-- What the loop appends for the word between start and end.
unfoldable pub candidate_at : Bytes → ℕ → ℕ → Option MethodCandidate
unfolding prev_word body_at listed back_blanks is_empty skip_space
candidate_at s start end =
    let name = take (end - start) (drop start s) in
    let j = skip_space s end in
    let k = body_at s j in
    if not (get_or s j 0 == 40)
    then none
    else if listed name not_def_preceders
    then none
    else elim (prev_word s (back_blanks start s)) [
      | none ↦ none
      | some prev ↦
          if listed prev not_def_preceders
          then none
          else if get_or s k 0 == 123
          then some (record { name = name; name_pos = start; has_body = true })
          else if get_or s k 0 == 59 && not (is_empty prev)
          then some (record { name = name; name_pos = start; has_body = false })
          else none
    ]

unfoldable pub cons_candidate : Option MethodCandidate → List MethodCandidate → List MethodCandidate
cons_candidate none cs = cs
cons_candidate (some c) cs = c ∷ cs

-- The loop of methodCandidates. Each turn moves i on, so a fuel of the length is enough.
unfoldable pub candidates_loop : ℕ → Bytes → ℕ → List MethodCandidate
unfolding word candidate_at cons_candidate is_ident_byte
candidates_loop zero s i = []
candidates_loop (suc fuel) s i =
    let end = i + word (drop i s) in
    let next = candidates_loop fuel s (suc i) in
    let after = candidates_loop fuel s (suc end) in
    if leb (length s) i
    then []
    else if not (is_ident_byte (get_or s i 0)) || ltb 0 i && is_ident_byte (get_or s (i - 1) 0)
    then next
    else cons_candidate (candidate_at s i end) after

unfoldable pub method_candidates : Bytes → List MethodCandidate
unfolding candidates_loop
method_candidates s = candidates_loop (length s) s 0

-- One match of javaTypeRe: where it starts and ends, and its two groups.
pub record TypeMatch : Type 0 where
  pub start : ℕ
  pub end : ℕ
  pub kind : Bytes
  pub name : Bytes

-- The loop over the matches: the definitions of types, and the ranges of their bodies.
unfoldable pub types_loop : Bytes → List TypeMatch → List TypeRange → List Def × List TypeRange
unfolding brace_range container_at line new_line_index
types_loop s [] types = ([], types)
types_loop s (m ∷ ms) types =
    let t : TypeRange = record { name = m.name; kind = m.kind; body = brace_range s m.end } in
    let rest = types_loop s ms (types ++ t ∷ []) in
    let d : Def = record {
      name = m.name;
      kind = m.kind;
      container = container_at types m.start;
      line = line (new_line_index s) m.start;
    } in
    (d ∷ rest.0, rest.1)

-- The loop over the candidates.
unfoldable pub methods_loop : Bytes → List TypeRange → List MethodCandidate → List Def
unfolding innermost line new_line_index
methods_loop s types [] = []
methods_loop s types (c ∷ cs) =
    let rest = methods_loop s types cs in
    elim (innermost types c.name_pos) [
      | none ↦ rest
      | some t ↦
          if not c.has_body && not (bytes_eq t.kind (codes "interface"))
          then rest
          else record {
            name = c.name;
            kind = codes "method";
            container = t.name;
            line = line (new_line_index s) c.name_pos;
          }
            ∷ rest
    ]

-- extractJava, from the stripped text and the matches of its type pattern.
unfoldable pub extract_java : Bytes → List TypeMatch → List Def
unfolding types_loop methods_loop method_candidates
extract_java s matches =
    let typed = types_loop s matches [] in typed.0 ++ methods_loop s typed.1 (method_candidates s)
