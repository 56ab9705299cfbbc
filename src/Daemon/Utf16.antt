-- ===== src/Daemon/Utf16.antt =====
-- internal/daemon/utf16.go, and the decodeUTF16 of internal/shard/engine.go, which differs in one step.
use gcgrep.Base.{
  ℕ, zero, suc, ◌+◌, ◌-◌, ◌*◌, ◌/◌, ◌%◌, Bool, true, false, ◌&&◌, ◌||◌, Option, none, some, List,
  [], ◌∷◌, ◌++◌, Bytes, ltb, leb, ◌==◌, if◌then◌else◌,
}

-- The byte order that the first two bytes announce: true is big-endian.
unfoldable pub byte_order : Bytes → Option Bool
byte_order [] = none
byte_order (a ∷ []) = none
byte_order (a ∷ b ∷ s) =
    if a == 255 && b == 254 then some false else if a == 254 && b == 255 then some true else none

-- The 16-bit units; a trailing odd byte is dropped.
unfoldable pub units : Bool → Bytes → List ℕ
units be [] = []
units be (a ∷ []) = []
units be (a ∷ b ∷ s) = (if be then a * 256 + b else b * 256 + a) ∷ units be s

unfoldable pub is_high : ℕ → Bool
is_high u = leb 55296 u && ltb u 56320

unfoldable pub is_low : ℕ → Bool
is_low u = leb 56320 u && ltb u 57344

abbrev pub replacement : ℕ
replacement = 65533

-- utf16.Decode: a surrogate pair is one code point, a surrogate alone the replacement character.
unfoldable pub decode_units : List ℕ → List ℕ
unfolding is_high is_low
decode_units [] = []
decode_units (u ∷ []) = (if is_high u || is_low u then replacement else u) ∷ []
decode_units (u ∷ v ∷ us) =
    let pair = decode_units us in
    let rest = decode_units (v ∷ us) in
    if is_high u && is_low v
    then ((u - 55296) * 1024 + (v - 56320) + 65536) ∷ pair
    else if is_high u || is_low u
    then replacement ∷ rest
    else u ∷ rest

-- utf8.EncodeRune: a surrogate or a value past the last code point is the replacement character.
unfoldable pub encode_valid : ℕ → Bytes
encode_valid r =
    if ltb r 128
    then r ∷ []
    else if ltb r 2048
    then (192 + r / 64) ∷ (128 + r % 64) ∷ []
    else if ltb r 65536
    then (224 + r / 4096) ∷ (128 + r / 64 % 64) ∷ (128 + r % 64) ∷ []
    else (240 + r / 262144) ∷ (128 + r / 4096 % 64) ∷ (128 + r / 64 % 64) ∷ (128 + r % 64) ∷ []

unfoldable pub encode_rune : ℕ → Bytes
unfolding encode_valid is_high is_low
encode_rune r = encode_valid (if is_high r || is_low r || ltb 1114111 r then replacement else r)

unfoldable pub encode_all : List ℕ → Bytes
unfolding encode_rune
encode_all [] = []
encode_all (r ∷ rs) = encode_rune r ++ encode_all rs

unfoldable pub after_mark : Bytes → Bytes
after_mark [] = []
after_mark (a ∷ []) = []
after_mark (a ∷ b ∷ s) = s

-- decodeUTF16 of the daemon
unfoldable pub decode_utf16 : Bytes → Option Bytes
unfolding byte_order units decode_units encode_all after_mark
decode_utf16 b = elim (byte_order b) [
  | none ↦ none
  | some be ↦ some (encode_all (decode_units (units be (after_mark b))))
]

-- decodeUTF16 of the shard engine: each unit is a code point of its own.
unfoldable pub decode_utf16_by_unit : Bytes → Option Bytes
unfolding byte_order units encode_all after_mark
decode_utf16_by_unit b = elim (byte_order b) [
  | none ↦ none
  | some be ↦ some (encode_all (units be (after_mark b)))
]

-- isBinary: a NUL among the first 8192 bytes.
unfoldable pub has_nul : ℕ → Bytes → Bool
has_nul zero s = false
has_nul (suc n) [] = false
has_nul (suc n) (a ∷ s) = a == 0 || has_nul n s

unfoldable pub is_binary : Bytes → Bool
unfolding has_nul
is_binary content = has_nul 8192 content
