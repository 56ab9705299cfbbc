-- ===== src/Shard/Symbols.antt =====
-- internal/shard: the symbol table that build.go writes and shard.go reads.
pub mod Table
use gcgrep.Base.{
  ℕ, ◌^◌, ◌<◌, ◌≡◌, ◌∙◌, ap, sym, some, List, [], ◌∷◌, ◌++◌, Bytes, length, arith, append_assoc,
  append-nil, length-append, drop-append, take-append, All, take, drop,
}
use gcgrep.Symbol.{Def}
use gcgrep.Shard.Varint.{slice, append_uvarint, put_uvarint, read_uvarint}
use gcgrep.Shard.Varint.RoundTrip.{read_uvarint-append_uvarint}
use gcgrep.Shard.Build.{append_string, append_defs}
use gcgrep.Shard.Query.{read_string, read_defs}

slice-append : (b s rest : Bytes) → slice ((b ++ s) ++ rest) (length b) (length s) ≡ some s
unfolding slice
slice-append b s rest =
    let at : drop (length b) ((b ++ s) ++ rest) ≡ s ++ rest =
      ap (λ (t : Bytes). drop (length b) t) (append_assoc b s rest) ∙ drop-append b (s ++ rest) in
    let text : take (length s) (drop (length b) ((b ++ s) ++ rest)) ≡ s =
      ap (λ (t : Bytes). take (length s) t) at ∙ take-append s rest in
    ground (arith, text, length-append (b ++ s) rest, length-append b s)

read_string-append_string :
    (b s rest : Bytes)
    → length s < 2 ^ 64
    → read_string (append_string b s ++ rest) (length b) ≡ some (s, length (append_string b s))
unfolding read_string append_string
read_string-append_string b s rest h =
    let head = append_uvarint b (length s) in
    let n : read_uvarint ((head ++ s) ++ rest) (length b) ≡ some (length s, length head) =
      ap (λ (t : Bytes). read_uvarint t (length b)) (append_assoc head s rest)
      ∙ read_uvarint-append_uvarint b (s ++ rest) (length s) h in
    ground (arith, n, slice-append head s rest, length-append head s)

-- A definition whose strings and line fit the 64 bits of their fields.
abbrev pub Fits : Def → Type 0
Fits d =
    (length d.name < 2 ^ 64)
    × (length d.kind < 2 ^ 64)
    × (length d.container < 2 ^ 64)
    × (d.line < 2 ^ 64)

str : Bytes → Bytes
str s = put_uvarint 9 (length s) ++ s

-- What append_defs adds to a buffer for one definition.
def_bytes : Def → Bytes
def_bytes d = str d.name ++ (str d.kind ++ (str d.container ++ put_uvarint 9 d.line))

append_string-str : (b s : Bytes) → append_string b s ≡ b ++ str s
unfolding append_string append_uvarint str
append_string-str b s = append_assoc b (put_uvarint 9 (length s)) s

string_at :
    (buf b s rest : Bytes)
    → length s < 2 ^ 64
    → buf ≡ b ++ (str s ++ rest)
    → read_string buf (length b) ≡ some (s, length (b ++ str s))
string_at buf b s rest h e =
    let place : buf ≡ append_string b s ++ rest =
      e
      ∙ sym (append_assoc b (str s) rest)
      ∙ ap (λ (t : Bytes). t ++ rest) (sym (append_string-str b s)) in
    ap (λ (t : Bytes). read_string t (length b)) place
    ∙ read_string-append_string b s rest h
    ∙ ap (λ (t : Bytes). some (s, length t)) (append_string-str b s)

pub line_at :
    (buf b rest : Bytes) (x : ℕ)
    → x < 2 ^ 64
    → buf ≡ b ++ (put_uvarint 9 x ++ rest)
    → read_uvarint buf (length b) ≡ some (x, length (b ++ put_uvarint 9 x))
unfolding append_uvarint
line_at buf b rest x h e =
    ap (λ (t : Bytes). read_uvarint t (length b)) (e ∙ sym (append_assoc b (put_uvarint 9 x) rest))
    ∙ read_uvarint-append_uvarint b rest x h

pub defs_bytes : List Def → Bytes
defs_bytes [] = []
defs_bytes (d ∷ ds) = def_bytes d ++ defs_bytes ds

append_four : (b n k c l : Bytes) → (((b ++ n) ++ k) ++ c) ++ l ≡ b ++ (n ++ (k ++ (c ++ l)))
append_four b n k c l =
    append_assoc ((b ++ n) ++ k) c l
    ∙ append_assoc (b ++ n) k (c ++ l)
    ∙ append_assoc b n (k ++ (c ++ l))

pub append_defs-defs_bytes : (b : Bytes) (ds : List Def) → append_defs b ds ≡ b ++ defs_bytes ds
unfolding append_defs defs_bytes def_bytes append_uvarint
append_defs-defs_bytes b [] = sym (append-nil b)
append_defs-defs_bytes b (d ∷ ds) =
    let strings : append_string (append_string (append_string b d.name) d.kind) d.container
        ≡ ((b ++ str d.name) ++ str d.kind) ++ str d.container =
      append_string-str (append_string (append_string b d.name) d.kind) d.container
      ∙ ap (λ (t : Bytes). t ++ str d.container)
          (append_string-str (append_string b d.name) d.kind
            ∙ ap (λ (t : Bytes). t ++ str d.kind) (append_string-str b d.name)) in
    let one =
      ap (λ (t : Bytes). t ++ put_uvarint 9 d.line) strings
      ∙ append_four b (str d.name) (str d.kind) (str d.container) (put_uvarint 9 d.line) in
    append_defs-defs_bytes
      (append_uvarint (append_string (append_string (append_string b d.name) d.kind) d.container)
        d.line)
      ds
    ∙ ap (λ (t : Bytes). t ++ defs_bytes ds) one
    ∙ append_assoc b (def_bytes d) (defs_bytes ds)

append_parts : (n k c l t : Bytes) → (n ++ (k ++ (c ++ l))) ++ t ≡ n ++ (k ++ (c ++ (l ++ t)))
append_parts n k c l t =
    append_assoc n (k ++ (c ++ l)) t
    ∙ ap (λ (u : Bytes). n ++ u)
        (append_assoc k (c ++ l) t ∙ ap (λ (u : Bytes). k ++ u) (append_assoc c l t))

pub defs_at :
    (ds : List Def) (buf b rest : Bytes)
    → All Fits ds
    → buf ≡ b ++ (defs_bytes ds ++ rest)
    → read_defs buf (length ds) (length b) ≡ some (ds, length (b ++ defs_bytes ds))
unfolding read_defs defs_bytes def_bytes
defs_at [] buf b rest fits e = ap (λ (t : Bytes). some ([], length t)) (sym (append-nil b))
defs_at (d ∷ ds) buf b rest ((h1, h2, h3, h4), fits) e =
    let n = str d.name in
    let k = str d.kind in
    let c = str d.container in
    let l = put_uvarint 9 d.line in
    let more = defs_bytes ds in
    let p1 : buf ≡ b ++ (n ++ (k ++ (c ++ (l ++ (more ++ rest))))) =
      e
      ∙ ap (λ (t : Bytes). b ++ t)
          (append_assoc (def_bytes d) more rest ∙ append_parts n k c l (more ++ rest)) in
    let p2 = p1 ∙ sym (append_assoc b n (k ++ (c ++ (l ++ (more ++ rest))))) in
    let p3 = p2 ∙ sym (append_assoc (b ++ n) k (c ++ (l ++ (more ++ rest)))) in
    let p4 = p3 ∙ sym (append_assoc ((b ++ n) ++ k) c (l ++ (more ++ rest))) in
    let p5 = p4 ∙ sym (append_assoc (((b ++ n) ++ k) ++ c) l (more ++ rest)) in
    let e1 = string_at buf b d.name (k ++ (c ++ (l ++ (more ++ rest)))) h1 p1 in
    let e2 = string_at buf (b ++ n) d.kind (c ++ (l ++ (more ++ rest))) h2 p2 in
    let e3 = string_at buf ((b ++ n) ++ k) d.container (l ++ (more ++ rest)) h3 p3 in
    let e4 = line_at buf (((b ++ n) ++ k) ++ c) (more ++ rest) d.line h4 p4 in
    let e5 = defs_at ds buf ((((b ++ n) ++ k) ++ c) ++ l) rest fits p5 in
    let end : ((((b ++ n) ++ k) ++ c) ++ l) ++ more ≡ b ++ (def_bytes d ++ more) =
      ap (λ (t : Bytes). t ++ more) (append_four b n k c l) ∙ append_assoc b (def_bytes d) more in
    rw e1 (rw e2 (rw e3 (rw e4 (rw e5 (ap (λ (t : Bytes). some (d ∷ ds, length t)) end)))))

-- The definitions that the builder appends to a buffer are the definitions that a shard reads from where
-- they were appended, whatever follows, if the lengths and the lines are below 2 ^ 64; and the position
-- returned is the one after them.
pub read_defs-append_defs :
    (ds : List Def) (b rest : Bytes)
    → All Fits ds
    → read_defs (append_defs b ds ++ rest) (length ds) (length b)
      ≡ some (ds, length (append_defs b ds))
read_defs-append_defs ds b rest fits =
    let whole = append_defs-defs_bytes b ds in
    let place = ap (λ (t : Bytes). t ++ rest) whole ∙ append_assoc b (defs_bytes ds) rest in
    defs_at ds (append_defs b ds ++ rest) b rest fits place
    ∙ ap (λ (t : Bytes). some (ds, length t)) (sym whole)
