-- ===== src/Shard/Engine/Scan.antt =====
-- internal/shard/engine.go: the scan of a file that is read from disk line by line.
use gcgrep.Base.{
  ℕ, zero, suc, ◌-◌, ◌<◌, ◌≤◌, ◌≡◌, refl, ap, sym, ◌∙◌, inl, inr, arith, Bool-cases, Option-cases,
  Bool, true, false, Option, none, some, List, [], ◌∷◌, Bytes, newline, ◌==◌, if◌then◌else◌, length,
  drop, take, get_elem?, length-drop, fun_ext,
}
use gcgrep.Go.Bytes.{index_where, index_byte}
use gcgrep.Daemon.Utf16.{is_binary}
use gcgrep.Shard.Engine.Verify.{Scan, Hit, step, content_loop, match_content}

-- ReadBytes('\n'): the bytes through the next newline, those behind it, and whether the input ended first.
unfoldable pub read_bytes : Bytes → Bytes × Bytes × Bool
unfolding index_byte
read_bytes s = elim (index_byte s newline) [
  | none ↦ (s, [], true)
  | some i ↦ (take (suc i) s, drop (suc i) s, false)
]

-- A line without its newline.
unfoldable pub trim_newline : Bytes → Bytes
trim_newline line = elim (get_elem? line (length line - 1)) [
  | none ↦ line
  | some c ↦ if c == newline then take (length line - 1) line else line
]

-- The loop of verifyFile over what is left of the file. An error of a read ends it as the end of the file does.
-- Each turn but the last takes a byte, so the length and one more is enough fuel.
unfoldable pub file_loop : ℕ → Scan → ℕ → ℕ → Bytes → List Hit
unfolding read_bytes trim_newline step
file_loop zero q line_no found s = []
file_loop (suc fuel) q line_no found s =
    let r = read_bytes s in
    if length r.0 == 0
    then []
    else step q line_no found (trim_newline r.0)
        (λ (n : ℕ). if r.2 then [] else file_loop fuel q (suc line_no) n r.1)

-- verifyFile: stored content, or else the file that os.Open gives.
unfoldable pub verify_file : Scan → Option Bytes → Option Bytes → List Hit
unfolding match_content file_loop is_binary
verify_file q opened (some inline) = match_content q inline
verify_file q none none = []
verify_file q (some s) none = if is_binary s then [] else file_loop (suc (length s)) q 1 0 s

abbrev is_newline : ℕ → Bool
is_newline c = c == newline

newline_at :
    (s : Bytes) (i : ℕ)
    → index_where is_newline s ≡ some i
    → (get_elem? s i ≡ some newline) × (i < length s)
unfolding index_where
newline_at [] i e = ground (arith, e)
newline_at (c ∷ s) zero e = elim (Bool-cases (c == newline)) [
  | inl h ↦ (ap some (ground (arith, h)), omega arith)
  | inr h ↦ elim (Option-cases (index_where is_newline s)) [
    | inl n ↦ ground (arith, e, h, n)
    | inr (k, f) ↦ ground (arith, e, h, f)
  ]
]
newline_at (c ∷ s) (suc i) e = elim (Option-cases (index_where is_newline s)) [
  | inl n ↦ ground (arith, e, n)
  | inr (k, f) ↦
      let same : k ≡ i = ground (arith, e, f) in
      let later = newline_at s i (f ∙ ap some same) in (later.0, omega (arith, later.1))
]

newline_nowhere :
    (s : Bytes) (i : ℕ) → index_where is_newline s ≡ none → (get_elem? s i ≡ some newline) → ⊥
unfolding index_where
newline_nowhere [] i e h = ground (arith, h)
newline_nowhere (c ∷ s) zero e h = ground (arith, e, h)
newline_nowhere (c ∷ s) (suc i) e h = elim (Option-cases (index_where is_newline s)) [
  | inl n ↦ newline_nowhere s i n h
  | inr (k, f) ↦ ground (arith, e, f)
]

take-head :
    (i : ℕ) (s : Bytes)
    → i < length s
    → (get_elem? (take (suc i) s) i ≡ get_elem? s i)
      × (take i (take (suc i) s) ≡ take i s)
      × (length (take (suc i) s) ≡ suc i)
take-head i [] h = ground (arith, h)
take-head zero (c ∷ s) h = (refl, refl, refl)
take-head (suc i) (c ∷ s) h =
    let rest = take-head i s (omega (arith, h)) in
    (rest.0, ap (λ (l : Bytes). c ∷ l) rest.1, ap suc rest.2)

trim-whole : (s : Bytes) → index_where is_newline s ≡ none → trim_newline s ≡ s
unfolding trim_newline
trim-whole s e = elim (Option-cases (get_elem? s (length s - 1))) [
  | inl n ↦ ground (arith, n)
  | inr (c, f) ↦ elim (Bool-cases (c == newline)) [
    | inl h ↦ elim (newline_nowhere s (length s - 1) e (f ∙ ap some (ground (arith, h)))) [ ]
    | inr h ↦ ground (arith, f, h)
  ]
]

trim-line :
    (s : Bytes) (i : ℕ)
    → index_where is_newline s ≡ some i
    → trim_newline (take (suc i) s) ≡ take i s
unfolding trim_newline
trim-line s i e =
    let at = newline_at s i e in
    let head = take-head i s at.1 in
    let last : length (take (suc i) s) - 1 ≡ i = omega (arith, head.2) in
    let found : get_elem? (take (suc i) s) (length (take (suc i) s) - 1) ≡ some newline =
      ap (get_elem? (take (suc i) s)) last ∙ head.0 ∙ at.0 in
    let cut = ap (λ (n : ℕ). take n (take (suc i) s)) last ∙ head.1 in ground (arith, found, cut)

-- One turn of each loop, for an answer of IndexByte.
content_turn : Option ℕ → ℕ → Scan → ℕ → ℕ → Bytes → List Hit
content_turn o fuel q line_no found s = elim o [
  | none ↦ step q line_no found s (λ (n : ℕ). [])
  | some i ↦
      step q line_no found (take i s)
        (λ (n : ℕ). content_loop fuel q (suc line_no) n (drop (suc i) s))
]

file_turn : Option ℕ → ℕ → Scan → ℕ → ℕ → Bytes → List Hit
file_turn o fuel q line_no found s =
    let r : Bytes × Bytes × Bool = elim o [
      | none ↦ (s, [], true)
      | some i ↦ (take (suc i) s, drop (suc i) s, false)
    ] in
    if length r.0 == 0
    then []
    else step q line_no found (trim_newline r.0)
        (λ (n : ℕ). if r.2 then [] else file_loop fuel q (suc line_no) n r.1)

-- The two loops agree, whatever fuel they have that is enough.
file_loop-content_loop :
    (more fuel : ℕ) (q : Scan) (line_no found : ℕ) (s : Bytes)
    → length s < more
    → length s ≤ fuel
    → file_loop more q line_no found s ≡ content_loop fuel q line_no found s
unfolding file_loop content_loop read_bytes index_byte content_turn file_turn
file_loop-content_loop zero fuel q line_no found s h k = ground (arith, h)
file_loop-content_loop (suc more) zero q line_no found [] h k = refl
file_loop-content_loop (suc more) zero q line_no found (c ∷ s) h k = ground (arith, k)
file_loop-content_loop (suc more) (suc fuel) q line_no found [] h k = refl
file_loop-content_loop (suc more) (suc fuel) q line_no found (c ∷ s) h k =
    let file = λ (o : Option ℕ). file_turn o more q line_no found (c ∷ s) in
    let content = λ (o : Option ℕ). content_turn o fuel q line_no found (c ∷ s) in
    let some_left : (length (c ∷ s) == 0) ≡ false = ground arith in
    elim (Option-cases (index_where is_newline (c ∷ s))) [
      | inl e ↦
          ap file e
          ∙ ap
              (λ (b : Bool).
                if b then [] else step q line_no found (trim_newline (c ∷ s)) (λ (n : ℕ). []))
              some_left
          ∙ ap (λ (l : Bytes). step q line_no found l (λ (n : ℕ). [])) (trim-whole (c ∷ s) e)
          ∙ sym (ap content e)
      | inr (i, e) ↦
          let left = length-drop i s in
          let later : (n : ℕ)
              → file_loop more q (suc line_no) n (drop i s)
                ≡ content_loop fuel q (suc line_no) n (drop i s) =
            λ n.
              file_loop-content_loop more fuel q (suc line_no) n (drop i s) (omega (arith, h, left))
                (omega (arith, k, left)) in
          let some_taken : (length (take (suc i) (c ∷ s)) == 0) ≡ false = ground arith in
          let rest : ℕ → List Hit = λ n. file_loop more q (suc line_no) n (drop i s) in
          ap file e
          ∙ ap
              (λ (b : Bool).
                if b then [] else step q line_no found (trim_newline (take (suc i) (c ∷ s))) rest)
              some_taken
          ∙ ap (λ (l : Bytes). step q line_no found l rest) (trim-line (c ∷ s) i e)
          ∙ ap (step q line_no found (take i (c ∷ s))) (fun_ext later)
          ∙ sym (ap content e)
    ]

-- A file that is read from disk gives the same matches as the scan of its bytes where a shard has stored them:
-- the two ways to take lines apart agree, with the limits and the test for binary content.
pub verify_file-match_content :
    (q : Scan) (s : Bytes) (opened : Option Bytes)
    → verify_file q (some s) none ≡ verify_file q opened (some s)
unfolding verify_file match_content
verify_file-match_content q s opened = elim (Bool-cases (is_binary s)) [
  | inl b ↦ ground (arith, b)
  | inr b ↦
      let same =
        file_loop-content_loop (suc (length s)) (length s) q 1 0 s (omega arith) (omega arith) in
      ground (arith, b, same)
]
