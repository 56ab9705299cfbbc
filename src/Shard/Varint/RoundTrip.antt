-- ===== src/Shard/Varint/RoundTrip.antt =====
-- internal/shard/varint.go: what is written is what is read.
use gcgrep.Base.{
  ℕ, zero, suc, ◌+◌, ◌*◌, ◌/◌, ◌%◌, ◌^◌, ◌<◌, ◌≤◌, ◌≡◌, refl, ap, sym, ◌∙◌, some, ◌++◌, Bytes,
  length, drop, drop-append, arith, append_assoc, length-append,
}
use native.Mathlib.Nat.{add-mul, mul_assoc, mul_comm}
use gcgrep.Shard.Varint.{put_uvarint, append_uvarint, Uvarint, uvarint, read_uvarint}

-- The values that fit where n more continued bytes may be written.
bound : ℕ → ℕ
bound zero = 2
bound (suc n) = 128 * bound n

digits : (x place acc : ℕ) → (acc + (x % 128) * place) + (x / 128) * (128 * place) ≡ acc + x * place
digits x place acc =
    let e : x ≡ x % 128 + 128 * (x / 128) = omega arith in
    let d : x * place ≡ (x % 128 + 128 * (x / 128)) * place = ap (λ (k : ℕ). k * place) e in
    omega (arith, d, ring_step (x % 128) (x / 128) place)
  where
    ring_step : (r q p : ℕ) → (r + 128 * q) * p ≡ r * p + q * (128 * p)
    ring_step r q p =
        add-mul r (128 * q) p
        ∙ ap (λ (k : ℕ). r * p + k) (ap (λ (k : ℕ). k * p) (mul_comm 128 q) ∙ mul_assoc q 128 p)

uvarint_from :
    (n i place acc x : ℕ) (rest : Bytes)
    → i + n ≡ 9
    → x < bound n
    → uvarint i place acc (put_uvarint n x ++ rest)
      ≡ Uvarint.value (acc + x * place) (i + length (put_uvarint n x))
unfolding put_uvarint uvarint bound
uvarint_from zero i place acc x rest e h = ground arith
uvarint_from (suc n) i place acc x rest e h =
    let ih =
      uvarint_from n (suc i) (128 * place) (acc + (x % 128) * place) (x / 128) rest (omega arith)
        (omega arith) in
    ground (arith, ih, digits x place acc)

read_value :
    (buf : Bytes) (pos v n : ℕ)
    → pos ≤ length buf
    → uvarint 0 1 0 (drop pos buf) ≡ Uvarint.value v n
    → read_uvarint buf pos ≡ some (v, pos + n)
unfolding read_uvarint
read_value buf pos v n h e = ground arith

bound_nine : (x : ℕ) → x < 2 ^ 64 → x < bound 9
unfolding bound
bound_nine x h = omega (arith, h)

-- A uint64 that is appended to a buffer is read back from where it was appended, and the position
-- returned is the one after it, whatever follows.
pub read_uvarint-append_uvarint :
    (b rest : Bytes) (x : ℕ)
    → x < 2 ^ 64
    → read_uvarint (append_uvarint b x ++ rest) (length b) ≡ some (x, length (append_uvarint b x))
unfolding append_uvarint
read_uvarint-append_uvarint b rest x h =
    let w = put_uvarint 9 x in
    let at : drop (length b) ((b ++ w) ++ rest) ≡ w ++ rest =
      ap (λ (t : Bytes). drop (length b) t) (append_assoc b w rest) ∙ drop-append b (w ++ rest) in
    let one : 0 + x * 1 ≡ x = omega arith in
    let len : 0 + length w ≡ length w = omega arith in
    let read : uvarint 0 1 0 (drop (length b) ((b ++ w) ++ rest)) ≡ Uvarint.value x (length w) =
      ap (uvarint 0 1 0) at
      ∙ uvarint_from 9 0 1 0 x rest refl (bound_nine x h)
      ∙ ap (λ (k : ℕ). Uvarint.value k (0 + length w)) one
      ∙ ap (Uvarint.value x) len in
    let fits : length b ≤ length ((b ++ w) ++ rest) =
      omega (arith, length-append (b ++ w) rest, length-append b w) in
    read_value ((b ++ w) ++ rest) (length b) x (length w) fits read
    ∙ ap (λ (k : ℕ). some (x, k)) (sym (length-append b w))
