-- ===== src/Ignore/Git.antt =====
-- internal/ignore/ignore.go: the test for .git against the segments of a path.
use gcgrep.Base.{
  ℕ, suc, ◌-◌, ◌≤◌, ◌≡◌, refl, ap, sym, ◌∙◌, inl, inr, arith, Bool-cases, Option-cases, Bool, true,
  false, ◌||◌, ◌&&◌, List, [], ◌∷◌, ◌++◌, Bytes, codes, length, drop, ◌==◌, leb,
}
use gcgrep.Go.Bytes.{has_prefix, index, contains}
use gcgrep.Go.Map.{bytes_eq}
use gcgrep.Ignore.{has_suffix, is_git, split}

-- One of the segments is the name.
unfoldable pub any_named : Bytes → List Bytes → Bool
any_named p [] = false
any_named p (q ∷ qs) = bytes_eq q p || any_named p qs

-- The first segment is the name, told from the path.
unfoldable starts : Bytes → Bytes → Bool
unfolding has_prefix
starts p s = bytes_eq s p || has_prefix s (p ++ codes "/")

-- There is no slash in the name.
unfoldable Whole : Bytes → Type 0
Whole [] = Unit
Whole (c ∷ p) = ((c == b'/') ≡ false) × Whole p

split-cons : (s : Bytes) → (p : Bytes) × (ps : List Bytes) × (split s ≡ p ∷ ps)
unfolding split
split-cons [] = ([], [], refl)
split-cons (c ∷ s) =
    let (p, ps, e) = split-cons s in
    elim (Bool-cases (c == b'/')) [
      | inl h ↦ ([], p ∷ ps, ground (arith, e, h))
      | inr h ↦ (c ∷ p, ps, ground (arith, e, h))
    ]

split-slash : (s : Bytes) (c : ℕ) → (c == b'/') ≡ true → split (c ∷ s) ≡ [] ∷ split s
unfolding split
split-slash s c h = let (p, ps, e) = split-cons s in ground (arith, e, h)

split-other :
    (s q : Bytes) (qs : List Bytes) (c : ℕ)
    → (c == b'/') ≡ false
    → split s ≡ q ∷ qs
    → split (c ∷ s) ≡ (c ∷ q) ∷ qs
unfolding split
split-other s q qs c h e = ground (arith, e, h)

first_named :
    (p s q : Bytes) (qs : List Bytes) → Whole p → split s ≡ q ∷ qs → bytes_eq q p ≡ starts p s
unfolding starts bytes_eq has_prefix split Whole
first_named [] [] q qs w e = ground (arith, e)
first_named [] (c ∷ s) q qs w e =
    let (r, rs, f) = split-cons s in
    elim (Bool-cases (c == b'/')) [
      | inl h ↦ ground (arith, e, f, h)
      | inr h ↦ ground (arith, e, f, h)
    ]
first_named (x ∷ p) [] q qs w e = ground (arith, e)
first_named (x ∷ p) (c ∷ s) q qs w e =
    let (r, rs, f) = split-cons s in
    let rest = first_named p s r rs w.1 f in
    elim (Bool-cases (c == b'/')) [
      | inl h ↦ ground (arith, e, f, h, w.0)
      | inr h ↦ ground (arith, e, f, h, rest)
    ]

contains-cons : (s w : Bytes) (c : ℕ) → contains (c ∷ s) w ≡ (has_prefix (c ∷ s) w || contains s w)
unfolding contains index
contains-cons s w c = elim (Option-cases (index s w)) [
  | inl n ↦ ground (arith, n)
  | inr (k, e) ↦ ground (arith, e)
]

bytes_eq-short : (s t : Bytes) → leb (length t) (length s) ≡ false → bytes_eq s t ≡ false
unfolding bytes_eq
bytes_eq-short [] [] h = ground (arith, h)
bytes_eq-short [] (b ∷ t) h = refl
bytes_eq-short (a ∷ s) [] h = refl
bytes_eq-short (a ∷ s) (b ∷ t) h = ground (arith, h, bytes_eq-short s t)

bytes_eq-long : (s t : Bytes) → leb (length s) (length t) ≡ false → bytes_eq s t ≡ false
unfolding bytes_eq
bytes_eq-long [] [] h = ground (arith, h)
bytes_eq-long [] (b ∷ t) h = refl
bytes_eq-long (a ∷ s) [] h = refl
bytes_eq-long (a ∷ s) (b ∷ t) h = ground (arith, h, bytes_eq-long s t)

drop-later :
    (s : Bytes) (c m : ℕ) → m ≤ length s → drop (suc (length s) - m) (c ∷ s) ≡ drop (length s - m) s
drop-later s c m h =
    let e : suc (length s) - m ≡ suc (length s - m) = omega (arith, h) in
    ap (λ (k : ℕ). drop k (c ∷ s)) e

drop-all : (s : Bytes) (m : ℕ) → m ≡ length s → drop (length s - m) s ≡ s
drop-all s m h = let e : length s - m ≡ 0 = omega (arith, h) in ap (λ (k : ℕ). drop k s) e

has_suffix-cons :
    (s w : Bytes) (c : ℕ) → has_suffix (c ∷ s) w ≡ (bytes_eq (c ∷ s) w || has_suffix s w)
unfolding has_suffix
has_suffix-cons s w c = elim (Bool-cases (leb (length w) (length s))) [
  | inl h ↦
      let d = drop-later s c (length w) (ground (arith, h)) in
      let n = bytes_eq-long (c ∷ s) w (ground (arith, h)) in ground (arith, h, d, n)
  | inr h ↦ elim (Bool-cases (leb (length w) (suc (length s)))) [
    | inl g ↦ let d = drop-all (c ∷ s) (length w) (ground (arith, h, g)) in ground (arith, h, g, d)
    | inr g ↦ let n = bytes_eq-short (c ∷ s) w (ground (arith, g)) in ground (arith, h, g, n)
  ]
]

-- What the last two tests of is_git look for.
unfoldable inside : Bytes → Bytes → Bool
unfolding contains has_suffix
inside p s = contains s (b'/' ∷ p ++ codes "/") || has_suffix s (b'/' ∷ p)

inside-cons : (p s : Bytes) (c : ℕ) → inside p (c ∷ s) ≡ ((c == b'/') && starts p s || inside p s)
unfolding inside starts has_prefix bytes_eq
inside-cons p s c =
    let a = contains-cons s (b'/' ∷ p ++ codes "/") c in
    let b = has_suffix-cons s (b'/' ∷ p) c in ground (arith, a, b)

later_named :
    (p s q : Bytes) (qs : List Bytes) → Whole p → split s ≡ q ∷ qs → any_named p qs ≡ inside p s
unfolding any_named split
later_named p [] q qs w e = unfold inside contains index has_prefix has_suffix in ground (arith, e)
later_named p (c ∷ s) q qs w e =
    let (r, rs, f) = split-cons s in
    let head = first_named p s r rs w f in
    let rest = later_named p s r rs w f in
    let more = inside-cons p s c in
    elim (Bool-cases (c == b'/')) [
      | inl h ↦ ground (arith, e, f, h, head, rest, more)
      | inr h ↦ ground (arith, e, f, h, head, rest, more)
    ]

named-split : (p s : Bytes) → Whole p → any_named p (split s) ≡ (starts p s || inside p s)
unfolding any_named
named-split p s w =
    let (r, rs, f) = split-cons s in
    let head = first_named p s r rs w f in
    let rest = later_named p s r rs w f in ap (any_named p) f ∙ ground (arith, head, rest)

or_assoc : (a b c d : Bool) → (a || b || (c || d)) ≡ ((a || b) || (c || d))
or_assoc a b c d = ground arith

-- The built-in rule for .git leaves a path out exactly if one of the segments between its slashes is `.git`: the
-- directory itself and everything below it, at the root and deeper, and no name that only begins or ends so.
pub is_git-split : (rel : Bytes) → is_git rel ≡ any_named (codes ".git") (split rel)
unfolding is_git starts inside
is_git-split rel =
    or_assoc (bytes_eq rel (codes ".git")) (has_prefix rel (codes ".git/"))
      (contains rel (codes "/.git/")) (has_suffix rel (codes "/.git"))
    ∙ sym (named-split (codes ".git") rel (unfold Whole in (refl, (refl, (refl, (refl, tt))))))
