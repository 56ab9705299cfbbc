-- ===== src/Index/Query/Required.antt =====
-- The required literal stands in every match.
use gcgrep.Base.{
  ℕ, ◌≡◌, refl, ap, sym, ◌∙◌, inl, inr, Bool, true, false, none, some, [], ◌∷◌, ◌++◌, append_assoc,
  append-nil, map, Bytes, ltb, if_both, length, arith, Option-cases,
}
use mathlib.Core.List.{map-append}
use gcgrep.Index.{lower}
use gcgrep.Index.Literal.{has_non_ascii}
use gcgrep.Index.Query.{
  Syntax, literal, capture, plus, star, quest, concat, alternate, char_class, zero_width, Subs, nil,
  cons, longer, plain_part, required_literal, required_concat,
}

-- The texts that a pattern can consume. `folds r s` says that the package takes the text s for the literal r
-- with FoldCase; assertions consume nothing.
mutual
  pub data Matches (folds : Bytes → Bytes → Bool) : Syntax → Bytes → Type 0 where
    exact : (r : Bytes) → Matches folds (literal false r) r
    folded : (r s : Bytes) → folds r s ≡ true → Matches folds (literal true r) s
    captured : {re : Syntax} {s : Bytes} → Matches folds re s → Matches folds (capture re) s
    last_time : {re : Syntax} {s : Bytes} → Matches folds re s → Matches folds (plus re) s
    once_more :
        {re : Syntax} {s t u : Bytes}
        → Matches folds re s
        → Matches folds (plus re) t
        → u ≡ s ++ t
        → Matches folds (plus re) u
    never : {re : Syntax} → Matches folds (star re) []
    again :
        {re : Syntax} {s t u : Bytes}
        → Matches folds re s
        → Matches folds (star re) t
        → u ≡ s ++ t
        → Matches folds (star re) u
    absent : {re : Syntax} → Matches folds (quest re) []
    present : {re : Syntax} {s : Bytes} → Matches folds re s → Matches folds (quest re) s
    in_order : {subs : Subs} {s : Bytes} → MatchesAll folds subs s → Matches folds (concat subs) s
    first_of_two :
        {re : Syntax} {subs : Subs} {s : Bytes}
        → Matches folds re s
        → Matches folds (alternate (cons re subs)) s
    other :
        {re : Syntax} {subs : Subs} {s : Bytes}
        → Matches folds (alternate subs) s
        → Matches folds (alternate (cons re subs)) s
    one_char : (p : Bytes → Bool) (s : Bytes) → p s ≡ true → Matches folds (char_class p) s
    nothing : Matches folds zero_width []

  pub data MatchesAll (folds : Bytes → Bytes → Bool) : Subs → Bytes → Type 0 where
    done : MatchesAll folds nil []
    part :
        {re : Syntax} {subs : Subs} {s t u : Bytes}
        → Matches folds re s
        → MatchesAll folds subs t
        → u ≡ s ++ t
        → MatchesAll folds (cons re subs) u

-- Every literal that folds case is ASCII.
abbrev mutual
  pub AsciiFolds : Syntax → Type 0
  AsciiFolds (literal true r) = has_non_ascii r ≡ false
  AsciiFolds (capture re) = AsciiFolds re
  AsciiFolds (plus re) = AsciiFolds re
  AsciiFolds (concat subs) = AsciiFoldsAll subs
  AsciiFolds _ = Unit {0}

  pub AsciiFoldsAll : Subs → Type 0
  AsciiFoldsAll nil = Unit {0}
  AsciiFoldsAll (cons re subs) = AsciiFolds re × AsciiFoldsAll subs

abbrev pub Infix : Bytes → Bytes → Type 0
Infix x s = (a : Bytes) × (b : Bytes) × (s ≡ a ++ (x ++ b))

abbrev Suffix : Bytes → Bytes → Type 0
Suffix x s = (a : Bytes) × (s ≡ a ++ x)

Infix-nil : (s : Bytes) → Infix [] s
Infix-nil s = ([], s, refl)

Infix-left : (x s t : Bytes) → Infix x s → Infix x (s ++ t)
Infix-left x s t (a, b, e) = (
  a,
  b ++ t,
  ap (λ (u : Bytes). u ++ t) e
      ∙ append_assoc a (x ++ b) t
      ∙ ap (λ (u : Bytes). a ++ u) (append_assoc x b t),
)

Infix-right : (x t s : Bytes) → Infix x t → Infix x (s ++ t)
Infix-right x t s (a, b, e) =
    (s ++ a, b, ap (λ (u : Bytes). s ++ u) e ∙ sym (append_assoc s a (x ++ b)))

Suffix→Infix : (x s : Bytes) → Suffix x s → Infix x s
Suffix→Infix x s (a, e) = (a, [], e ∙ ap (λ (u : Bytes). a ++ u) (sym (append-nil x)))

Suffix-snoc : (x s t : Bytes) → Suffix x s → Suffix (x ++ t) (s ++ t)
Suffix-snoc x s t (a, e) = (a, ap (λ (u : Bytes). u ++ t) e ∙ append_assoc a x t)

abbrev pub low : Bytes → Bytes
low s = map lower s

longer-Infix : (p x y : Bytes) → Infix (low x) p → Infix (low y) p → Infix (low (longer x y)) p
longer-Infix p x y hx hy = if_both (λ z. Infix (low z) p) (ltb (length x) (length y)) _ _ hy hx

plain_part-exact :
    {folds : Bytes → Bytes → Bool} (re : Syntax) (r s : Bytes)
    → plain_part re ≡ some r
    → Matches folds re s
    → s ≡ r
plain_part-exact (literal false x) r _ e (exact _) = cc
plain_part-exact (literal true x) r s e m = absurd (ground arith)
plain_part-exact (capture re) r s e m = absurd (ground arith)
plain_part-exact (plus re) r s e m = absurd (ground arith)
plain_part-exact (star re) r s e m = absurd (ground arith)
plain_part-exact (quest re) r s e m = absurd (ground arith)
plain_part-exact (concat re) r s e m = absurd (ground arith)
plain_part-exact (alternate re) r s e m = absurd (ground arith)
plain_part-exact (char_class re) r s e m = absurd (ground arith)
plain_part-exact zero_width r s e m = absurd (ground arith)

-- strings.ToLower is the ASCII lowercase on ASCII text.
abbrev pub LowersAscii : (Bytes → Bytes) → Type 0
LowersAscii to_lower = (r : Bytes) → has_non_ascii r ≡ false → to_lower r ≡ map lower r

-- Between ASCII texts, folding is the folding of ASCII letters.
abbrev pub FoldsAscii : (Bytes → Bytes → Bool) → Type 0
FoldsAscii folds =
    (r s : Bytes)
    → has_non_ascii r ≡ false
    → has_non_ascii s ≡ false
    → folds r s ≡ true
    → map lower s ≡ map lower r

has_non_ascii-append :
    (s t : Bytes)
    → has_non_ascii (s ++ t) ≡ false
    → (has_non_ascii s ≡ false) × (has_non_ascii t ≡ false)
unfolding has_non_ascii
has_non_ascii-append [] t h = (refl, h)
has_non_ascii-append (c ∷ s) t h =
    let rest = has_non_ascii-append s t (ground (arith, h)) in (ground (arith, h, rest.0), rest.1)

ascii_parts :
    (s t u : Bytes)
    → u ≡ s ++ t
    → has_non_ascii u ≡ false
    → (has_non_ascii s ≡ false) × (has_non_ascii t ≡ false)
ascii_parts s t u e h = has_non_ascii-append s t (ap has_non_ascii (sym e) ∙ h)

lower_twice : (b : ℕ) → lower (lower b) ≡ lower b
unfolding lower
lower_twice b = ground arith

low_twice : (s : Bytes) → low (low s) ≡ low s
low_twice [] = refl
low_twice (c ∷ s) = ground (arith, lower_twice c, low_twice s)

module _ (to_lower : Bytes → Bytes) (folds : Bytes → Bytes → Bool) where
  concat_part :
      (sub : Syntax) (subs : Subs) (best run r : Bytes)
      → plain_part sub ≡ some r
      → required_concat to_lower (cons sub subs) best run
        ≡ required_concat to_lower subs best (run ++ r)
  unfolding required_concat
  concat_part sub subs best run r e = ground arith

  concat_other :
      (sub : Syntax) (subs : Subs) (best run : Bytes)
      → plain_part sub ≡ none
      → required_concat to_lower (cons sub subs) best run
        ≡ required_concat to_lower subs
            (longer (longer best run) (required_literal to_lower sub))
            []
  unfolding required_concat
  concat_other sub subs best run e = ground arith

  part_text : (p s t u : Bytes) → u ≡ s ++ t → p ++ low u ≡ (p ++ low s) ++ low t
  part_text p s t u e =
      ap (λ (x : Bytes). p ++ low x) e
      ∙ ap (λ (x : Bytes). p ++ x) (map-append lower s t)
      ∙ sym (append_assoc p (low s) (low t))

  -- One part of a concatenation: a plain literal joins the run, any other part ends it.
  part_step :
      (re : Syntax) (subs : Subs) (best run p s t : Bytes)
      → ((best' run' : Bytes)
          → Infix (low best') (p ++ low s)
          → Suffix (low run') (p ++ low s)
          → Infix (low (required_concat to_lower subs best' run')) ((p ++ low s) ++ low t))
      → Infix (low best) p
      → Suffix (low run) p
      → Infix (low (required_literal to_lower re)) (low s)
      → Matches folds re s
      → Infix (low (required_concat to_lower (cons re subs) best run)) ((p ++ low s) ++ low t)
  part_step re subs best run p s t ih hb hr hl m = elim (Option-cases (plain_part re)) [
    | inl e ↦
        let q = p ++ low s in
        rw (concat_other re subs best run e) (
          ih (longer (longer best run) (required_literal to_lower re)) []
            (longer-Infix q (longer best run) (required_literal to_lower re)
              (Infix-left _ p (low s) (longer-Infix p best run hb (Suffix→Infix (low run) p hr)))
              (Infix-right _ (low s) p hl))
            (q, sym (append-nil q)))
    | inr (r, e) ↦ rw (concat_part re subs best run r e) (
        ih best (run ++ r) (Infix-left _ p (low s) hb)
          (rw (plain_part-exact re r s e m, map-append) (Suffix-snoc (low run) p (low r) hr)))
  ]

  mutual
    unfolding required_literal

    required-Infix :
        {re : Syntax} {s : Bytes}
        → LowersAscii to_lower
        → FoldsAscii folds
        → AsciiFolds re
        → has_non_ascii s ≡ false
        → Matches folds re s
        → Infix (low (required_literal to_lower re)) (low s)
    required-Infix l f a n (exact r) = Suffix→Infix (low r) (low r) ([], refl)
    required-Infix l f a n (folded r s e) =
        Suffix→Infix _ (low s) ([], f r s a n e ∙ sym (ap low (l r a) ∙ low_twice r))
    required-Infix l f a n (captured m) = required-Infix l f a n m
    required-Infix l f a n (last_time m) = required-Infix l f a n m
    required-Infix l f a n (once_more {s = s} {t = t} {u = u} m ms e) =
        rw (e, map-append)
          (Infix-left _ (low s) (low t) (required-Infix l f a (ascii_parts s t u e n).0 m))
    required-Infix l f a n never = Infix-nil _
    required-Infix l f a n (again m ms e) = Infix-nil _
    required-Infix l f a n absent = Infix-nil _
    required-Infix l f a n (present m) = Infix-nil _
    required-Infix l f a n (in_order m) = concat-Infix [] [] [] l f a n ([], [], refl) ([], refl) m
    required-Infix l f a n (first_of_two m) = Infix-nil _
    required-Infix l f a n (other m) = Infix-nil _
    required-Infix l f a n (one_char p s e) = Infix-nil _
    required-Infix l f a n nothing = Infix-nil _

    -- The loop over the parts: p is the lowercased text matched so far.
    concat-Infix :
        {subs : Subs} {t : Bytes} (p best run : Bytes)
        → LowersAscii to_lower
        → FoldsAscii folds
        → AsciiFoldsAll subs
        → has_non_ascii t ≡ false
        → Infix (low best) p
        → Suffix (low run) p
        → MatchesAll folds subs t
        → Infix (low (required_concat to_lower subs best run)) (p ++ low t)
    concat-Infix p best run l f a n hb hr done =
        Infix-left _ p [] (longer-Infix p best run hb (Suffix→Infix (low run) p hr))
    concat-Infix p best run l f a n hb hr
          (part {re = re} {subs = subs} {s = s} {t = t} {u = u} m ms e) =
        let ascii = ascii_parts s t u e n in
        rw (part_text p s t u e) (
          part_step re subs best run p s t
            (λ best' run' x y. concat-Infix (p ++ low s) best' run' l f a.1 ascii.1 x y ms) hb hr
            (required-Infix l f a.0 ascii.0 m) m)

  -- Every ASCII text that a pattern matches contains the pattern's required literal, up to the case of ASCII
  -- letters, if strings.ToLower is the ASCII lowercase on ASCII text, if between ASCII texts the package folds no
  -- more than ASCII letters, and if the literals of the pattern that fold case are ASCII.
  pub required_literal_sound :
      (re : Syntax) (s : Bytes)
      → LowersAscii to_lower
      → FoldsAscii folds
      → AsciiFolds re
      → has_non_ascii s ≡ false
      → Matches folds re s
      → Infix (map lower (required_literal to_lower re)) (map lower s)
  required_literal_sound re s l f a n m = required-Infix l f a n m
