-- ===== src/Watch/Delivery.antt =====
-- internal/watch/watch.go: what of the events reaches the consumer.
use gcgrep.Base.{
  ◌≡◌, refl, ap, ◌∙◌, Bool, true, false, ◌&&◌, ◌||◌, not, Option, none, some, List, [], ◌∷◌, ◌++◌,
  Bytes, arith, Bool-cases, inl, inr,
}
use gcgrep.Go.Map.{bytes_eq, bytes_eq_iff}
use gcgrep.Watch.{
  Batch, Env, Input, Loop, idle, is_pending, insert, is_cookie, on_event, iterate, run,
}

-- The input reports a change of the path, other than of a cookie.
unfoldable pub names : Env → Bytes → Input → Bool
names env q (Input.event name create) = not (is_cookie (env.base name)) && bytes_eq name q
names env q _ = false

unfoldable pub reported : Env → Bytes → List Input → Bool
unfolding names
reported env q [] = false
reported env q (i ∷ is) = names env q i || reported env q is

unfoldable pub is_overflow : Input → Bool
is_overflow Input.overflow = true
is_overflow _ = false

unfoldable pub overflowed : List Input → Bool
unfolding is_overflow
overflowed [] = false
overflowed (i ∷ is) = is_overflow i || overflowed is

-- The path is in one of the batches.
unfoldable pub delivered : Bytes → List Batch → Bool
unfolding is_pending
delivered q [] = false
delivered q (b ∷ bs) = is_pending q b.paths || delivered q bs

unfoldable pub rescanned : List Batch → Bool
rescanned [] = false
rescanned (b ∷ bs) = b.rescan || rescanned bs

insert_pending :
    (p q : Bytes) (ps : List Bytes) → is_pending q (insert p ps) ≡ (bytes_eq p q || is_pending q ps)
unfolding insert is_pending
insert_pending p q ps = elim (Bool-cases (bytes_eq p q)) [
  | inl e ↦
      let same = ap (λ (x : Bytes). is_pending x ps) ((bytes_eq_iff p q).0 e) in
      ground (arith, e, same)
  | inr e ↦ ground (arith, e)
]

unfoldable pub out : Option Batch → List Batch
out none = []
out (some b) = b ∷ []

-- There is a timer while there is something to deliver.
abbrev pub IsArmed : Loop → Type 0
IsArmed l =
    ((q : Bytes) → is_pending q l.pending ≡ true → l.timer ≡ true)
    × (l.rescan ≡ true → l.timer ≡ true)

delivered-cons :
    (q : Bytes) (o : Option Batch) (bs : List Batch)
    → delivered q (elim o [ none ↦ bs | some b ↦ b ∷ bs ]) ≡ (delivered q (out o) || delivered q bs)
unfolding out delivered
delivered-cons q none bs = refl
delivered-cons q (some b) bs = ground arith

rescanned-cons :
    (o : Option Batch) (bs : List Batch)
    → rescanned (elim o [ none ↦ bs | some b ↦ b ∷ bs ]) ≡ (rescanned (out o) || rescanned bs)
unfolding out rescanned
rescanned-cons none bs = refl
rescanned-cons (some b) bs = ground arith

chained :
    (x o b p p' r a n : Bool)
    → x ≡ (o || b)
    → (b || p) ≡ (p' || r)
    → (o || p') ≡ (a || n)
    → (x || p) ≡ (a || (n || r))
chained x o b p p' r a n e f g = ground (arith, e, f, g)

module _ (env : Env) where
  iterate_paths :
      (i : Input) (l : Loop) (q : Bytes)
      → (delivered q (out (iterate env i l).batch) || is_pending q (iterate env i l).loop.pending)
        ≡ (is_pending q l.pending || names env q i)
  unfolding iterate on_event names delivered is_pending out
  iterate_paths (Input.event name create) l q = elim (Bool-cases (is_cookie (env.base name))) [
    | inl c ↦ ground (arith, c)
    | inr c ↦ ground (arith, c, insert_pending name q l.pending)
  ]
  iterate_paths Input.overflow l q = ground arith
  iterate_paths Input.other_error l q = ground arith
  iterate_paths Input.flush l q = ground arith
  iterate_paths Input.fire l q = elim (Bool-cases l.timer) [
    | inl t ↦ ground (arith, t)
    | inr t ↦ ground (arith, t)
  ]

  iterate_rescan :
      (i : Input) (l : Loop)
      → (rescanned (out (iterate env i l).batch) || (iterate env i l).loop.rescan)
        ≡ (l.rescan || is_overflow i)
  unfolding iterate on_event rescanned is_overflow out
  iterate_rescan (Input.event name create) l = elim (Bool-cases (is_cookie (env.base name))) [
    | inl c ↦ ground (arith, c)
    | inr c ↦ ground (arith, c)
  ]
  iterate_rescan Input.overflow l = ground arith
  iterate_rescan Input.other_error l = ground arith
  iterate_rescan Input.flush l = ground arith
  iterate_rescan Input.fire l = elim (Bool-cases l.timer) [
    | inl t ↦ ground (arith, t)
    | inr t ↦ ground (arith, t)
  ]

  -- From any state of the loop, after any iterations, a path is in one of the batches or still pending exactly
  -- when it was pending before or one of the events, a cookie's aside, reports it: no change is lost and none is
  -- made up. The same holds of a lost event and the batches that ask for a rescan.
  pub run_complete :
      (is : List Input) (l : Loop) (q : Bytes)
      → ((delivered q (run env is l).1 || is_pending q (run env is l).0.pending)
          ≡ (is_pending q l.pending || reported env q is))
        × ((rescanned (run env is l).1 || (run env is l).0.rescan) ≡ (l.rescan || overflowed is))
  unfolding run delivered reported rescanned overflowed
  run_complete [] l q = (ground arith, ground arith)
  run_complete (i ∷ is) l q =
      let turn = iterate env i l in
      let bs = (run env is turn.loop).1 in
      let rest = run_complete is turn.loop q in
      let paths = iterate_paths i l q in
      let rescan = iterate_rescan i l in
      (
        chained _ _ _ _ _ _ _ _ (delivered-cons q turn.batch bs) rest.0 paths,
        chained _ _ _ _ _ _ _ _ (rescanned-cons turn.batch bs) rest.1 rescan,
      )

  iterate-IsArmed : (i : Input) (l : Loop) → IsArmed l → IsArmed (iterate env i l).loop
  unfolding iterate on_event is_pending
  iterate-IsArmed (Input.event name create) l a = elim (Bool-cases (is_cookie (env.base name))) [
    | inl c ↦ ((λ q. ground (arith, c, a.0 q)), ground (arith, c, a.1))
    | inr c ↦ ((λ q. ground (arith, c)), ground (arith, c))
  ]
  iterate-IsArmed Input.overflow l a = ((λ q h. refl), (λ h. refl))
  iterate-IsArmed Input.other_error l a = a
  iterate-IsArmed Input.flush l a = ((λ q h. ground (arith, h)), (λ h. ground (arith, h)))
  iterate-IsArmed Input.fire l a = elim (Bool-cases l.timer) [
    | inl t ↦ ((λ q. ground (arith, t)), ground (arith, t))
    | inr t ↦ ((λ q. ground (arith, t, a.0 q)), ground (arith, t, a.1))
  ]

  idle-IsArmed : IsArmed idle
  unfolding is_pending
  idle-IsArmed = ((λ q h. ground (arith, h)), (λ h. ground (arith, h)))

  -- After any iterations from a state where a timer runs whenever there is something to deliver, it does so
  -- again.
  pub run-IsArmed : (is : List Input) (l : Loop) → IsArmed l → IsArmed (run env is l).0
  unfolding run
  run-IsArmed [] l a = a
  run-IsArmed (i ∷ is) l a = run-IsArmed is (iterate env i l).loop (iterate-IsArmed i l a)

  run-fire_last :
      (is : List Input) (l : Loop)
      → (run env (is ++ (Input.fire ∷ [])) l).0 ≡ (iterate env Input.fire (run env is l).0).loop
  unfolding run
  run-fire_last [] l = refl
  run-fire_last (i ∷ is) l = run-fire_last is (iterate env i l).loop

  reported-fire :
      (q : Bytes) (is : List Input)
      → (reported env q (is ++ (Input.fire ∷ [])) ≡ reported env q is)
        × (overflowed (is ++ (Input.fire ∷ [])) ≡ overflowed is)
  unfolding reported overflowed names is_overflow
  reported-fire q [] = (refl, refl)
  reported-fire q (i ∷ is) =
      let rest = reported-fire q is in
      (ap (λ (b : Bool). names env q i || b) rest.0, ap (λ (b : Bool). is_overflow i || b) rest.1)

  unarmed :
      (ps : List Bytes) (rescan : Bool)
      → IsArmed (record { pending = ps; rescan = rescan; timer = false })
      → record { pending = ps; rescan = rescan; timer = false } ≡ idle
  unfolding is_pending
  unarmed [] rescan a =
      ap (λ (b : Bool). record { pending = []; rescan = b; timer = false }) (ground (arith, a.1))
  unarmed (p ∷ ps) rescan a = ground (arith, a.0 p, (bytes_eq_iff p p).1 refl)

  fired :
      (ps : List Bytes) (rescan timer : Bool)
      → (let l : Loop = record { pending = ps; rescan = rescan; timer = timer } in
          IsArmed l → (iterate env Input.fire l).loop ≡ idle)
  unfolding iterate
  fired ps rescan true a = refl
  fired ps rescan false a = unarmed ps rescan a

  -- When the timer fires after any iterations from the start, all that is pending then, paths and a rescan, is
  -- delivered in one batch, and nothing is pending afterwards. So every path that the events report, and
  -- every lost event, is delivered after the debounce.
  pub run-fire :
      (is : List Input) (q : Bytes)
      → let before = run env is idle in
        let after = run env (is ++ (Input.fire ∷ [])) idle in
        (after.0 ≡ idle)
        × (delivered q after.1 ≡ reported env q is)
        × (rescanned after.1 ≡ overflowed is)
  unfolding is_pending
  run-fire is q =
      let l = (run env is idle).0 in
      let end =
        run-fire_last is idle
        ∙ fired l.pending l.rescan l.timer (run-IsArmed is idle idle-IsArmed) in
      let empty : is_pending q (run env (is ++ (Input.fire ∷ [])) idle).0.pending ≡ false =
        ap (λ (m : Loop). is_pending q m.pending) end in
      let settled = ap (λ (m : Loop). m.rescan) end in
      let all = run_complete (is ++ (Input.fire ∷ [])) idle q in
      let same = reported-fire q is in
      (end, ground (arith, all.0, empty, same.0), ground (arith, all.1, settled, same.1))
