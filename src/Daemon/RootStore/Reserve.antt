-- ===== src/Daemon/RootStore/Reserve.antt =====
-- internal/daemon/store.go: reserveBytes, with the atomic operations of several workers taken one by one.
-- A run starts with a new store, whose total is 0; loadPersisted sets the total of a loaded one before any call.
pub mod Ends
use gcgrep.Base.{
  ℕ, ◌+◌, ◌*◌, ◌≤◌, ◌≡◌, ◌≢◌, ◌⊎◌, refl, ap, sym, ◌∙◌, inl, inr, true, false, none, some, List, [],
  ◌∷◌, ◌==◌, arith, Bool-cases,
}
use gcgrep.Base.Int.{ℤ, pos, ◌+ℤ◌, ◌-ℤ◌, ltb_ℤ, pos-add, pos-sub}
use gcgrep.Daemon.RootStore.{RootStore, Limits, mb, reserve_bytes}

-- Where one call of reserveBytes is: before the load, after it with the value `cur`, and after the return; then
-- the bytes may be given back (totalBytes.Add(-n), by the worker itself or by one that drops the file later).
pub data Ticket : Type 0 where
  asking : ℕ → Ticket
  loaded : ℕ → ℤ → Ticket
  granted : ℕ → Ticket
  refused : ℕ → Ticket
  returned : Ticket

-- One atomic operation of a call on the shared total.
pub data Turn (cfg : Limits) (total : ℤ) : Ticket → ℤ → Ticket → Type 0 where
  add :
      (n : ℕ)
      → cfg.max_index_mb ≡ 0
      → Turn cfg total (Ticket.asking n) (total +ℤ pos n) (Ticket.granted n)
  refuse :
      (n : ℕ)
      → cfg.max_index_mb ≢ 0
      → ltb_ℤ (pos (cfg.max_index_mb * mb)) (total +ℤ pos n) ≡ true
      → Turn cfg total (Ticket.asking n) total (Ticket.refused n)
  load :
      (n : ℕ)
      → cfg.max_index_mb ≢ 0
      → ltb_ℤ (pos (cfg.max_index_mb * mb)) (total +ℤ pos n) ≡ false
      → Turn cfg total (Ticket.asking n) total (Ticket.loaded n total)
  swap :
      (n : ℕ) (cur : ℤ)
      → cur ≡ total
      → Turn cfg total (Ticket.loaded n cur) (cur +ℤ pos n) (Ticket.granted n)
  retry :
      (n : ℕ) (cur : ℤ) → cur ≢ total → Turn cfg total (Ticket.loaded n cur) total (Ticket.asking n)
  give_back : (n : ℕ) → Turn cfg total (Ticket.granted n) (total -ℤ pos n) Ticket.returned

-- A call begins, or one of the calls takes its turn.
pub data Step (cfg : Limits) (total : ℤ) : List Ticket → ℤ → List Ticket → Type 0 where
  call : (n : ℕ) → Step cfg total [] total (Ticket.asking n ∷ [])
  here :
      {k k' : Ticket} {t : ℤ} (ks : List Ticket)
      → Turn cfg total k t k'
      → Step cfg total (k ∷ ks) t (k' ∷ ks)
  later :
      {ks ks' : List Ticket} {t : ℤ} (k : Ticket)
      → Step cfg total ks t ks'
      → Step cfg total (k ∷ ks) t (k ∷ ks')

pub record System : Type 0 where
  pub total : ℤ
  pub tickets : List Ticket

pub data Reach (cfg : Limits) : System → Type 0 where
  start : Reach cfg (record { total = pos 0; tickets = [] })
  next :
      {s : System} {t : ℤ} {ks : List Ticket}
      → Reach cfg s
      → Step cfg s.total s.tickets t ks
      → Reach cfg (record { total = t; tickets = ks })

abbrev pub held_by : Ticket → ℕ
held_by (Ticket.granted n) = n
held_by (Ticket.asking n) = 0
held_by (Ticket.loaded n cur) = 0
held_by (Ticket.refused n) = 0
held_by Ticket.returned = 0

-- The bytes that are reserved.
unfoldable pub held : List Ticket → ℕ
held [] = 0
held (k ∷ ks) = held_by k + held ks

-- A value that a call has loaded leaves room for its bytes.
unfoldable pub Fits : Limits → Ticket → Type 0
Fits cfg (Ticket.loaded n cur) = ltb_ℤ (pos (cfg.max_index_mb * mb)) (cur +ℤ pos n) ≡ false
Fits cfg (Ticket.asking n) = Unit
Fits cfg (Ticket.granted n) = Unit
Fits cfg (Ticket.refused n) = Unit
Fits cfg Ticket.returned = Unit

unfoldable pub AllFit : Limits → List Ticket → Type 0
AllFit cfg [] = Unit
AllFit cfg (k ∷ ks) = Fits cfg k × AllFit cfg ks

abbrev pub Within : Limits → ℕ → Type 0
Within cfg n = (cfg.max_index_mb ≡ 0) ⊎ (n ≤ cfg.max_index_mb * mb)

-- The total is what is reserved, with d bytes more, and within the budget.
abbrev pub Exact : Limits → ℕ → ℤ → List Ticket → Type 0
Exact cfg d total ks = (total ≡ pos (held ks + d)) × Within cfg (held ks + d) × AllFit cfg ks

room :
    (cfg : Limits) (d n : ℕ)
    → ltb_ℤ (pos (cfg.max_index_mb * mb)) (pos (n + d)) ≡ false
    → n + d ≤ cfg.max_index_mb * mb
room cfg d n h = ground arith

raised : (total : ℤ) (d n : ℕ) → total ≡ pos (0 + d) → total +ℤ pos n ≡ pos (n + d)
raised total d n e = ap (λ (z : ℤ). z +ℤ pos n) e ∙ pos-add (0 + d) n ∙ ap pos (omega arith)

lowered : (total : ℤ) (d n : ℕ) → total ≡ pos (n + d) → total -ℤ pos n ≡ pos (0 + d)
lowered total d n e =
    ap (λ (z : ℤ). z -ℤ pos n) e ∙ pos-sub (n + d) n (omega arith) ∙ ap pos (omega arith)

module _ (cfg : Limits) (total : ℤ) where
  turn-Exact :
      {k k' : Ticket} {t : ℤ} (d : ℕ)
      → Turn cfg total k t k'
      → (total ≡ pos (held_by k + d)) × Within cfg (held_by k + d) × Fits cfg k
      → (t ≡ pos (held_by k' + d)) × Within cfg (held_by k' + d) × Fits cfg k'
  unfolding Fits
  turn-Exact d (add n e) (same, within, fits) = (raised total d n same, inl e, tt)
  turn-Exact d (refuse n e h) (same, within, fits) = (same, within, tt)
  turn-Exact d (load n e h) (same, within, fits) = (same, within, h)
  turn-Exact d (swap n cur e) (same, within, fits) =
      let sum = raised cur d n (e ∙ same) in
      (
        sum,
        inr (room cfg d n (ap (λ (z : ℤ). ltb_ℤ (pos (cfg.max_index_mb * mb)) z) (sym sum) ∙ fits)),
        tt,
      )
  turn-Exact d (retry n cur e) (same, within, fits) = (same, within, tt)
  turn-Exact d (give_back n) (same, within, fits) =
      (lowered total d n same, ground (arith, within), tt)

  step-Exact :
      {ks ks' : List Ticket} {t : ℤ} (d : ℕ)
      → Step cfg total ks t ks'
      → Exact cfg d total ks
      → Exact cfg d t ks'
  unfolding held AllFit Fits
  step-Exact d (call n) (same, within, fits) = (same, within, (tt, tt))
  step-Exact d (here {k} {k'} {t} ks turn) (same, within, fits) =
      let moved =
        turn-Exact (held ks + d) turn
          (same ∙ ap pos (omega arith), ground (arith, within), fits.0) in
      (moved.0 ∙ ap pos (omega arith), ground (arith, moved.1), (moved.2, fits.1))
  step-Exact d (later {ks} {ks'} {t} k step) (same, within, fits) =
      let moved =
        step-Exact (held_by k + d) step
          (same ∙ ap pos (omega arith), ground (arith, within), fits.1) in
      (moved.0 ∙ ap pos (omega arith), ground (arith, moved.1), (fits.0, moved.2))

reach-Exact : (cfg : Limits) {s : System} → Reach cfg s → Exact cfg 0 s.total s.tickets
unfolding held AllFit
reach-Exact cfg start = (refl, inr (omega arith), tt)
reach-Exact cfg (next {s} r step) = step-Exact cfg s.total 0 step (reach-Exact cfg r)

-- In every state that calls of reserveBytes reach, however their loads and swaps fall between one another,
-- totalBytes is the sum of the reservations that were granted and not given back, and it is within the budget
-- where there is one.
pub reserve-IsBounded :
    (cfg : Limits) (s : System)
    → Reach cfg s
    → (s.total ≡ pos (held s.tickets))
      × ((cfg.max_index_mb ≡ 0) ⊎ (held s.tickets ≤ cfg.max_index_mb * mb))
reserve-IsBounded cfg s r =
    let e = reach-Exact cfg r in (e.0 ∙ ap pos (omega arith), ground (arith, e.1))

-- Each turn that answers a call does what the whole of reserveBytes does in one step at that moment: a call is
-- refused where the one step fails, and a call is granted, with the same total afterwards, where it succeeds,
-- when a value that the call has loaded leaves room for its bytes.
pub turn-reserve_bytes :
    (cfg : Limits) (s : RootStore) (k k' : Ticket) (t : ℤ) (n : ℕ)
    → Turn cfg s.total_bytes k t k'
    → Fits cfg k
    → (k' ≡ Ticket.refused n → reserve_bytes cfg n s ≡ none)
      × (k' ≡ Ticket.granted n → reserve_bytes cfg n s ≡ some (record s { total_bytes = t }))
unfolding reserve_bytes Fits
turn-reserve_bytes cfg s k k' t n (add m e) fits = (ground arith, ground arith)
turn-reserve_bytes cfg s k k' t n (refuse m e h) fits = (ground arith, ground arith)
turn-reserve_bytes cfg s k k' t n (load m e h) fits = (ground arith, ground arith)
turn-reserve_bytes cfg s k k' t n (swap m cur e) fits =
    let room = ap (λ (z : ℤ). ltb_ℤ (pos (cfg.max_index_mb * mb)) (z +ℤ pos m)) (sym e) ∙ fits in
    let same = ap (λ (z : ℤ). z +ℤ pos m) e in (ground arith, ground (arith, room, same))
turn-reserve_bytes cfg s k k' t n (retry m cur e) fits = (ground arith, ground arith)
turn-reserve_bytes cfg s k k' t n (give_back m) fits = (ground arith, ground arith)
