-- ===== src/Shard/Deltas.antt =====
-- internal/shard: the deltas of one posting list, written by Write of build.go and read by posting of shard.go.
use gcgrep.Base.{
  ℕ, ◌+◌, ◌-◌, ◌%◌, ◌^◌, ◌<◌, ◌≤◌, ◌≡◌, ◌∙◌, ap, sym, refl, some, List, [], ◌∷◌, ◌++◌, Bytes,
  length, arith, append_assoc, append-nil,
}
use gcgrep.Shard.Varint.{append_uvarint, put_uvarint}
use gcgrep.Shard.Build.{append_deltas}
use gcgrep.Shard.Query.{read_ids}
use gcgrep.Shard.Symbols.{line_at}

-- The ids do not fall, start no lower than prev, and fit in 32 bits.
abbrev pub Ascends : ℕ → List ℕ → Type 0
Ascends prev [] = Unit {0}
Ascends prev (id ∷ ids) = (prev ≤ id) × (id < 2 ^ 32) × Ascends id ids

deltas : ℕ → List ℕ → Bytes
deltas prev [] = []
deltas prev (id ∷ ids) = put_uvarint 9 (id - prev) ++ deltas id ids

append_deltas-deltas :
    (ids : List ℕ) (b : Bytes) (prev : ℕ) → append_deltas b prev ids ≡ b ++ deltas prev ids
unfolding append_deltas deltas append_uvarint
append_deltas-deltas [] b prev = sym (append-nil b)
append_deltas-deltas (id ∷ ids) b prev =
    append_deltas-deltas ids (b ++ put_uvarint 9 (id - prev)) id
    ∙ append_assoc b (put_uvarint 9 (id - prev)) (deltas id ids)

small : (x y : ℕ) → x < 2 ^ 32 → x - y < 2 ^ 64
small x y h = omega (arith, h)

restored : (prev id : ℕ) → prev ≤ id → id < 2 ^ 32 → (prev + (id - prev)) % 2 ^ 32 ≡ id
restored prev id h k = omega (arith, h, k)

read_ids-deltas :
    (ids : List ℕ) (buf b rest : Bytes) (prev : ℕ)
    → Ascends prev ids
    → buf ≡ b ++ (deltas prev ids ++ rest)
    → read_ids buf (length ids) (length b) prev ≡ some ids
unfolding read_ids deltas
read_ids-deltas [] buf b rest prev h e = refl
read_ids-deltas (id ∷ ids) buf b rest prev (h, k, hs) e =
    let u = put_uvarint 9 (id - prev) in
    let p1 : buf ≡ b ++ (u ++ (deltas id ids ++ rest)) =
      e ∙ ap (λ (t : Bytes). b ++ t) (append_assoc u (deltas id ids) rest) in
    let p2 = p1 ∙ sym (append_assoc b u (deltas id ids ++ rest)) in
    let e1 = line_at buf b (deltas id ids ++ rest) (id - prev) (small id prev k) p1 in
    let e2 = read_ids-deltas ids buf (b ++ u) rest id hs p2 in
    rw e1 (rw (restored prev id h k) (rw e2 refl))

-- Ids of 32 bits that ascend from the one before them are read back from the deltas that Write appends
-- for them to a buffer, whatever follows.
pub read_ids-append_deltas :
    (ids : List ℕ) (b rest : Bytes) (prev : ℕ)
    → Ascends prev ids
    → read_ids (append_deltas b prev ids ++ rest) (length ids) (length b) prev ≡ some ids
read_ids-append_deltas ids b rest prev h =
    let place =
      ap (λ (t : Bytes). t ++ rest) (append_deltas-deltas ids b prev)
      ∙ append_assoc b (deltas prev ids) rest in
    read_ids-deltas ids (append_deltas b prev ids ++ rest) b rest prev h place
