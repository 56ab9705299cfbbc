-- ===== src/Daemon/RootStore/Reserve/Ends.antt =====
-- internal/daemon/store.go: the loop of reserveBytes, which tries again when the swap fails.
use gcgrep.Base.{
  ℕ, zero, suc, ◌+◌, ◌*◌, ◌≤◌, ◌<◌, ◌≡◌, ◌≢◌, ◌⊎◌, refl, ap, inl, inr, true, false, Bool, List, [],
  ◌∷◌, ◌==◌, arith, Bool-cases, length, All, if◌then◌else◌,
}
use gcgrep.Base.Int.{ℤ, pos, negsuc, ◌+ℤ◌, ltb_ℤ}
use gcgrep.Daemon.RootStore.{Limits, mb}
use gcgrep.Daemon.RootStore.Reserve.{
  Ticket, Turn, add, refuse, load, swap, retry, give_back, Step, call, here, later,
}

-- Turns of the calls in flight, in any order, with no new call.
pub data Run (cfg : Limits) : ℕ → ℤ → List Ticket → ℤ → List Ticket → Type 0 where
  stop : {t : ℤ} {ks : List Ticket} → Run cfg 0 t ks t ks
  move :
      {n : ℕ} {t t' t'' : ℤ} {ks ks' ks'' : List Ticket}
      → Step cfg t ks t' ks'
      → length ks' ≡ length ks
      → Run cfg n t' ks' t'' ks''
      → Run cfg (suc n) t ks t'' ks''

unfoldable eq_ℤ : ℤ → ℤ → Bool
eq_ℤ (pos a) (pos b) = a == b
eq_ℤ (pos a) (negsuc b) = false
eq_ℤ (negsuc a) (pos b) = false
eq_ℤ (negsuc a) (negsuc b) = a == b

eq_ℤ-eq : (a b : ℤ) → eq_ℤ a b ≡ true → a ≡ b
unfolding eq_ℤ
eq_ℤ-eq (pos a) (pos b) h = ap pos (ground (arith, h))
eq_ℤ-eq (pos a) (negsuc b) h = ground (arith, h)
eq_ℤ-eq (negsuc a) (pos b) h = ground (arith, h)
eq_ℤ-eq (negsuc a) (negsuc b) h = ap negsuc (ground (arith, h))

eq_ℤ_self : (a : ℤ) → eq_ℤ a a ≡ true
unfolding eq_ℤ
eq_ℤ_self (pos a) = ground arith
eq_ℤ_self (negsuc a) = ground arith

-- How often a call can still change the total, or be refused.
unfoldable credit : Ticket → ℕ
credit (Ticket.asking n) = 2
credit (Ticket.loaded n cur) = 2
credit (Ticket.granted n) = 1
credit (Ticket.refused n) = 0
credit Ticket.returned = 0

-- How many turns a call can take while the total stays: a value that is no longer the total is loaded again.
unfoldable weight : ℤ → Ticket → ℕ
unfolding eq_ℤ
weight t (Ticket.asking n) = 2
weight t (Ticket.loaded n cur) = if eq_ℤ cur t then 1 else 3
weight t (Ticket.granted n) = 0
weight t (Ticket.refused n) = 0
weight t Ticket.returned = 0

unfoldable credits : List Ticket → ℕ
credits [] = 0
credits (k ∷ ks) = credit k + credits ks

unfoldable weights : ℤ → List Ticket → ℕ
weights t [] = 0
weights t (k ∷ ks) = weight t k + weights t ks

-- One of the two measures goes down, the first one whenever the total changes.
abbrev Falls : ℕ → ℕ → ℤ → ℤ → ℕ → ℕ → Type 0
Falls c c' t t' w w' = (suc c' ≤ c) ⊎ ((t' ≡ t) × (c' ≡ c) × (suc w' ≤ w))

module _ (cfg : Limits) (t : ℤ) where
  turn-Falls :
      {k k' : Ticket} {t' : ℤ}
      → Turn cfg t k t' k'
      → Falls (credit k) (credit k') t t' (weight t k) (weight t k')
  unfolding credit weight
  turn-Falls (add n e) = inl (omega arith)
  turn-Falls (refuse n e h) = inl (omega arith)
  turn-Falls (load n e h) = let same = eq_ℤ_self t in inr (refl, refl, ground (arith, same))
  turn-Falls (swap n cur e) = inl (omega arith)
  turn-Falls (retry n cur e) = elim (Bool-cases (eq_ℤ cur t)) [
    | inl h ↦ elim (e (eq_ℤ-eq cur t h)) [ ]
    | inr h ↦ inr (refl, refl, ground (arith, h))
  ]
  turn-Falls (give_back n) = inl (omega arith)

  step-Falls :
      {ks ks' : List Ticket} {t' : ℤ}
      → Step cfg t ks t' ks'
      → length ks' ≡ length ks
      → Falls (credits ks) (credits ks') t t' (weights t ks) (weights t ks')
  unfolding credits weights
  step-Falls (call n) h = ground (arith, h)
  step-Falls (here {k} {k'} ks turn) h = elim (turn-Falls turn) [
    | inl c ↦ inl (omega (arith, c))
    | inr (e, c, w) ↦ inr (e, omega (arith, c), omega (arith, w))
  ]
  step-Falls (later {ks} {ks'} k step) h = elim (step-Falls step (omega (arith, h))) [
    | inl c ↦ inl (omega (arith, c))
    | inr (e, c, w) ↦ inr (e, omega (arith, c), omega (arith, w))
  ]

weight_bound : (t : ℤ) (k : Ticket) → weight t k ≤ 3
unfolding weight
weight_bound t (Ticket.asking n) = omega arith
weight_bound t (Ticket.loaded n cur) = ground arith
weight_bound t (Ticket.granted n) = omega arith
weight_bound t (Ticket.refused n) = omega arith
weight_bound t Ticket.returned = omega arith

weights_bound : (t : ℤ) (ks : List Ticket) → weights t ks ≤ 3 * length ks
unfolding weights
weights_bound t [] = omega arith
weights_bound t (k ∷ ks) =
    let a = weight_bound t k in let b = weights_bound t ks in omega (arith, a, b)

credit_bound : (k : Ticket) → credit k ≤ 2
unfolding credit
credit_bound (Ticket.asking n) = omega arith
credit_bound (Ticket.loaded n cur) = omega arith
credit_bound (Ticket.granted n) = omega arith
credit_bound (Ticket.refused n) = omega arith
credit_bound Ticket.returned = omega arith

credits_bound : (ks : List Ticket) → credits ks ≤ 2 * length ks
unfolding credits
credits_bound [] = omega arith
credits_bound (k ∷ ks) = let a = credit_bound k in let b = credits_bound ks in omega (arith, a, b)

mul_mono : (c d b : ℕ) → c ≤ d → c * b ≤ d * b
mul_mono zero d b h = omega arith
mul_mono (suc c) zero b h = omega (arith, h)
mul_mono (suc c) (suc d) b h = let rest = mul_mono c d b (omega (arith, h)) in omega (arith, rest)

-- The two measures as one number, when the second stays below b.
lex : (c c' b w w' : ℕ) → suc c' ≤ c → suc w' ≤ b → suc (c' * b + w') ≤ c * b + w
lex c c' b w w' h g = let more = mul_mono (suc c') c b h in omega (arith, g, more)

Run-bound :
    (cfg : Limits) (b : ℕ) {n : ℕ} {t t' : ℤ} {ks ks' : List Ticket}
    → Run cfg n t ks t' ks'
    → 3 * length ks ≤ b
    → n ≤ credits ks * suc b + weights t ks
Run-bound cfg b stop h = omega arith
Run-bound cfg b (move {n} {t} {t'} {t''} {ks} {ks'} {ks''} step len run) h =
    let rest = Run-bound cfg b run (omega (arith, h, len)) in
    let below = weights_bound t' ks' in
    elim (step-Falls cfg t step len) [
      | inl c ↦
          let less =
            lex (credits ks) (credits ks') (suc b) (weights t ks) (weights t' ks') c
              (omega (arith, below, len, h)) in
          omega (arith, rest, less)
      | inr (e, c, w) ↦
          let there = ap (λ (z : ℤ). weights z ks') e in
          let kept = ap (λ (m : ℕ). m * suc b) c in omega (arith, rest, w, there, kept)
    ]

-- The call has been answered.
unfoldable pub IsAnswered : Ticket → Type 0
IsAnswered (Ticket.asking n) = ⊥
IsAnswered (Ticket.loaded n cur) = ⊥
IsAnswered (Ticket.granted n) = Unit
IsAnswered (Ticket.refused n) = Unit
IsAnswered Ticket.returned = Unit

-- The call can take a turn at this total.
abbrev pub CanMove : Limits → ℤ → Ticket → Type 0
CanMove cfg t k = (k' : Ticket) × (t' : ℤ) × Turn cfg t k t' k'

can_move : (cfg : Limits) (t : ℤ) (k : Ticket) → IsAnswered k ⊎ CanMove cfg t k
unfolding IsAnswered
can_move cfg t (Ticket.asking n) = elim (Bool-cases (cfg.max_index_mb == 0)) [
  | inl e ↦ inr (Ticket.granted n, t +ℤ pos n, add n (ground (arith, e)))
  | inr e ↦
      let ne : cfg.max_index_mb ≢ 0 = ground (arith, e) in
      elim (Bool-cases (ltb_ℤ (pos (cfg.max_index_mb * mb)) (t +ℤ pos n))) [
        | inl over ↦ inr (Ticket.refused n, t, refuse n ne over)
        | inr fits ↦ inr (Ticket.loaded n t, t, load n ne fits)
      ]
]
can_move cfg t (Ticket.loaded n cur) = elim (Bool-cases (eq_ℤ cur t)) [
  | inl e ↦ inr (Ticket.granted n, cur +ℤ pos n, swap n cur (eq_ℤ-eq cur t e))
  | inr e ↦
      let ne : cur ≢ t = λ same. ground (arith, e, eq_ℤ_self t, ap (λ (z : ℤ). eq_ℤ z t) same) in
      inr (Ticket.asking n, t, retry n cur ne)
]
can_move cfg t (Ticket.granted n) = inl tt
can_move cfg t (Ticket.refused n) = inl tt
can_move cfg t Ticket.returned = inl tt

All-CanMove :
    (cfg : Limits) (t : ℤ) (ks : List Ticket) → All (λ k. IsAnswered k ⊎ CanMove cfg t k) ks
All-CanMove cfg t [] = tt
All-CanMove cfg t (k ∷ ks) = (can_move cfg t k, All-CanMove cfg t ks)

-- Calls of reserveBytes that are in flight together end, whatever their loads and swaps find and in whichever
-- order they take their turns: the number of turns before the next call begins has a bound that is quadratic in
-- the number of calls, and wherever such a run stands, each call has been answered or can take a turn.
pub reserve_ends :
    (cfg : Limits) (n : ℕ) (t t' : ℤ) (ks ks' : List Ticket)
    → Run cfg n t ks t' ks'
    → (n < suc (2 * length ks) * suc (3 * length ks))
      × All (λ k. IsAnswered k ⊎ CanMove cfg t' k) ks'
reserve_ends cfg n t t' ks ks' run =
    let b = 3 * length ks in
    let turns = Run-bound cfg b run (omega arith) in
    let rounds = mul_mono (credits ks) (2 * length ks) (suc b) (credits_bound ks) in
    let left = weights_bound t ks in (omega (arith, turns, rounds, left), All-CanMove cfg t' ks')
