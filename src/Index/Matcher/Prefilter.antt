-- ===== src/Index/Matcher/Prefilter.antt =====
-- The rare-byte pre-filter of FindFirst turns away no line that the search would match.
use Prim.Native.Nat.{bit_xor}
use gcgrep.Base.{
  ℕ, zero, suc, ◌+◌, ◌-◌, ◌/◌, ◌%◌, ◌<◌, ◌≡◌, ◌≢◌, refl, ap, ◌⊎◌, inl, inr, Bool, true, false, ◌&&◌,
  Option, none, [], ◌∷◌, map, Bytes, ◌==◌, ltb, if◌then◌else◌, All, length, arith, Bool-cases,
  ==_iff,
}
use gcgrep.Go.Bytes.{index, index_byte, index_where, has_prefix}
use gcgrep.Index.{lower}
use gcgrep.Index.Literal.Fold.{fold_index-index}
use gcgrep.Index.Matcher.{
  byte_freq_rank, rare_loop, pick_rare_byte, is_letter, lacks, prefilter, span, Regexps, find_first,
}

abbrev pub IsByte : ℕ → Type 0
IsByte b = b < 256

abbrev Among : ℕ → Bytes → Type 0
Among b [] = ⊥
Among b (c ∷ s) = (b ≡ c) ⊎ Among b s

Among-choice :
    (t : Bool) (r c best : ℕ) (s : Bytes)
    → Among r ((if t then c else best) ∷ s)
    → Among r (best ∷ c ∷ s)
Among-choice true r c best s m = inr m
Among-choice false r c best s (inl e) = inl e
Among-choice false r c best s (inr m) = inr (inr m)

rare_loop-Among : (best : ℕ) (s : Bytes) → Among (rare_loop best s) (best ∷ s)
unfolding rare_loop
rare_loop-Among best [] = inl refl
rare_loop-Among best (c ∷ s) =
    let less = ltb (byte_freq_rank c) (byte_freq_rank best) in
    Among-choice less _ c best s (rare_loop-Among (if less then c else best) s)

abbrev Absent : ℕ → Bytes → Type 0
Absent b s = All (λ c. c ≢ b) s

lacks-Absent : (s : Bytes) (b : ℕ) → lacks s b ≡ true → Absent b s
unfolding index_byte index_where
lacks-Absent [] b h = tt
lacks-Absent (c ∷ s) b h = ground (arith, lacks-Absent s b)

has_prefix-Absent : (s lit : Bytes) (b : ℕ) → Absent b s → Among b lit → has_prefix s lit ≡ false
unfolding has_prefix
has_prefix-Absent s [] b h m = absurd m
has_prefix-Absent [] (l ∷ ls) b h m = refl
has_prefix-Absent (c ∷ s) (l ∷ ls) b h (inl e) = ground arith
has_prefix-Absent (c ∷ s) (l ∷ ls) b h (inr m) = ground (arith, has_prefix-Absent s ls b h.1 m)

index-Absent : (s lit : Bytes) (b : ℕ) → Absent b s → Among b lit → index s lit ≡ none
unfolding index
index-Absent [] lit b h m = ground (arith, has_prefix-Absent [] lit b h m)
index-Absent (c ∷ s) lit b h m =
    ground (arith, has_prefix-Absent (c ∷ s) lit b h m, index-Absent s lit b h.1 m)

-- Flipping bit 5 of a byte.
abbrev flipped : ℕ → ℕ
flipped b = if b / 32 % 2 == 1 then b - 32 else b + 32

flips_below : ℕ → Bool
flips_below zero = true
flips_below (suc n) = bit_xor n 0x20 == flipped n && flips_below n

flips_below_sound : (n b : ℕ) → flips_below n ≡ true → b < n → bit_xor b 0x20 ≡ flipped b
unfolding flips_below
flips_below_sound zero b h k = absurd (omega arith)
flips_below_sound (suc n) b h k = elim (Bool-cases (b == n)) [
  | inl e ↦ rw ((==_iff b n).0 e) ((==_iff _ _).0 (ground arith))
  | inr e ↦ flips_below_sound n b (ground arith) (ground arith)
]

flips_table : flips_below 256 ≡ true
unfolding flips_below
flips_table = refl

bit_xor-flipped : (b : ℕ) → IsByte b → bit_xor b 0x20 ≡ flipped b
bit_xor-flipped b h = flips_below_sound 256 b flips_table h

lower-ne : (c b : ℕ) → is_letter (flipped b) ≡ true → c ≢ b → c ≢ flipped b → lower c ≢ lower b
unfolding lower is_letter
lower-ne c b h p q e = ground arith

Absent-lower :
    (s : Bytes) (b : ℕ)
    → is_letter (flipped b) ≡ true
    → Absent b s
    → Absent (flipped b) s
    → Absent (lower b) (map lower s)
Absent-lower [] b h p q = tt
Absent-lower (c ∷ s) b h p q = (lower-ne c b h p.0 q.0, Absent-lower s b h p.1 q.1)

Among-map : (s : Bytes) (b : ℕ) → Among b s → Among (lower b) (map lower s)
Among-map [] b m = absurd m
Among-map (c ∷ s) b (inl e) = inl (ap lower e)
Among-map (c ∷ s) b (inr m) = inr (Among-map s b m)

prefilter_exact :
    (line lit : Bytes) (b : ℕ) → Among b lit → prefilter false b line ≡ true → index line lit ≡ none
unfolding prefilter
prefilter_exact line lit b m h = index-Absent line lit b (lacks-Absent line b (ground arith)) m

prefilter_fold :
    (line lit : Bytes) (b : ℕ)
    → IsByte b
    → Among b lit
    → prefilter true b line ≡ true
    → index (map lower line) (map lower lit) ≡ none
unfolding prefilter
prefilter_fold line lit b k m h =
    index-Absent (map lower line) (map lower lit) (lower b)
      (Absent-lower line b (ground (arith, bit_xor-flipped b k))
        (lacks-Absent line b (ground arith))
        (lacks-Absent line (flipped b) (ground (arith, bit_xor-flipped b k))))
      (Among-map lit b m)

Among-IsByte : (s : Bytes) (b : ℕ) → All IsByte s → Among b s → IsByte b
Among-IsByte [] b h m = absurd m
Among-IsByte (c ∷ s) b h (inl e) = omega arith
Among-IsByte (c ∷ s) b h (inr m) = Among-IsByte s b h.1 m

-- What the search of a literal finds, with no pre-filter.
abbrev pub plain_search : Bool → Bytes → Bytes → Option ℕ
plain_search false line lit = index line lit
plain_search true line lit = index (map lower line) (map lower lit)

prefilter_sound :
    (fold : Bool) (line : Bytes) (l : ℕ) (ls : Bytes)
    → All IsByte (l ∷ ls)
    → prefilter fold (rare_loop l ls) line ≡ true
    → plain_search fold line (l ∷ ls) ≡ none
prefilter_sound false line l ls h k = prefilter_exact line (l ∷ ls) _ (rare_loop-Among l ls) k
prefilter_sound true line l ls h k =
    prefilter_fold line (l ∷ ls) _ (Among-IsByte (l ∷ ls) _ h (rare_loop-Among l ls))
      (rare_loop-Among l ls) k

-- A matcher with a non-empty plain literal of bytes, whose rare byte pickRareByte chose, finds in
-- each line the first occurrence of the literal (in lowercased copies, when it folds case): the
-- pre-filter never changes the answer.
pub find_first_plain :
    (rx : Regexps) (re : rx.Regexp) (fold : Bool) (l : ℕ) (ls line : Bytes)
    → All IsByte (l ∷ ls)
    → find_first rx
        (record {
          re = re;
          plain_lit = l ∷ ls;
          fold = fold;
          rare_byte = (pick_rare_byte (l ∷ ls)).0;
          has_rare = (pick_rare_byte (l ∷ ls)).1;
        })
        line
      ≡ span (length (l ∷ ls)) (plain_search fold line (l ∷ ls))
unfolding find_first pick_rare_byte
find_first_plain rx re false l ls line h =
    elim (Bool-cases (prefilter false (rare_loop l ls) line)) [
      | inl e ↦ rw (e, prefilter_sound false line l ls h e)
      | inr e ↦ rw e
    ]
find_first_plain rx re true l ls line h = elim (Bool-cases (prefilter true (rare_loop l ls) line)) [
  | inl e ↦ rw (e, prefilter_sound true line l ls h e)
  | inr e ↦ rw (e, fold_index-index line l ls)
]
