-- ===== src/Shard/Varint.antt =====
-- internal/shard/varint.go and the encoding/binary routines of Go's library that the shard files use.
pub mod RoundTrip
use gcgrep.Base.{
  ℕ, zero, suc, ◌+◌, ◌-◌, ◌*◌, ◌/◌, ◌%◌, Option, none, some, List, [], ◌∷◌, ◌++◌, Bytes, ltb, leb,
  ◌==◌, if◌then◌else◌, length, take, drop,
}

-- The low n bytes of x, the least significant first: PutUint16, PutUint32, PutUint64.
unfoldable pub put_le : ℕ → ℕ → Bytes
put_le zero x = []
put_le (suc n) x = x % 256 ∷ put_le n (x / 256)

unfoldable pub le_value : Bytes → ℕ
le_value [] = 0
le_value (b ∷ s) = b + 256 * le_value s

-- data[from : from+n], none where the program panics.
unfoldable pub slice : Bytes → ℕ → ℕ → Option Bytes
slice buf from n = if leb (from + n) (length buf) then some (take n (drop from buf)) else none

-- Uint16, Uint32, Uint64 of data[off:]
unfoldable pub get_le : ℕ → Bytes → ℕ → Option ℕ
unfolding slice le_value
get_le n buf off = elim (slice buf off n) [ none ↦ none | some s ↦ some (le_value s) ]

-- binary.PutUvarint: a uint64 needs at most ten bytes, so at most nine that are continued.
unfoldable pub put_uvarint : ℕ → ℕ → Bytes
put_uvarint zero x = x ∷ []
put_uvarint (suc n) x =
    let rest = put_uvarint n (x / 128) in if ltb x 128 then x ∷ [] else (x % 128 + 128) ∷ rest

unfoldable pub append_uvarint : Bytes → ℕ → Bytes
unfolding put_uvarint
append_uvarint b x = b ++ put_uvarint 9 x

-- What binary.Uvarint returns: a value and the bytes read, an overflow after i + 1 bytes, or
-- nothing where the buffer ends first.
pub data Uvarint : Type 0 where
  value : ℕ → ℕ → Uvarint
  overflow : ℕ → Uvarint
  short : Uvarint

-- binary.Uvarint at byte i, with place = 2 ^ (7 * i) and x the value so far. The shifted bytes do not
-- overlap the bits of x, and a byte that would leave the 64 bits ends in an overflow.
unfoldable pub uvarint : ℕ → ℕ → ℕ → Bytes → Uvarint
uvarint i place x [] = short
uvarint i place x (b ∷ s) =
    let more = uvarint (suc i) (128 * place) (x + (b % 128) * place) s in
    if i == 10
    then overflow i
    else if ltb b 128
    then if i == 9
      then if ltb 1 b then overflow i else value (x + b * place) (suc i)
      else value (x + b * place) (suc i)
    else more

-- readUvarint: the value and the next position. none is a panic, which a position before the start of
-- the data causes where it is used next.
unfoldable pub read_uvarint : Bytes → ℕ → Option (ℕ × ℕ)
unfolding uvarint
read_uvarint buf pos =
    if leb pos (length buf)
    then elim (uvarint 0 1 0 (drop pos buf)) [
      | value v n ↦ some (v, pos + n)
      | overflow i ↦ if leb (suc i) pos then some (0, pos - suc i) else none
      | short ↦ some (0, pos)
    ]
    else none
