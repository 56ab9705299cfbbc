-- ===== src/Shard/Symbols/Table.antt =====
-- internal/shard: the symbol section, written by Write of build.go and read by FileDefs of shard.go.
use gcgrep.Base.{
  ℕ, zero, suc, ◌^◌, ◌<◌, ◌≡◌, ◌∙◌, ap, sym, inl, inr, some, List, [], ◌∷◌, ◌++◌, Bytes, length,
  arith, append_assoc, append-nil, All, get_elem?, Bool-cases, List-cases, ◌==◌,
}
use gcgrep.Shard.Varint.{append_uvarint, put_uvarint}
use gcgrep.Shard.Build.{BuildFile, append_defs, symbols_of, count_symbols}
use gcgrep.Shard.File.{Shard}
use gcgrep.Shard.Query.{defs_from, file_defs}
use gcgrep.Shard.Symbols.{Fits, defs_bytes, line_at, defs_at, append_defs-defs_bytes}

-- A file whose definitions, and their number, fit the 64 bits of their fields.
abbrev pub FileFits : BuildFile → Type 0
FileFits f = (length f.defs < 2 ^ 64) × All Fits f.defs

table : List BuildFile → Bytes
table [] = []
table (f ∷ fs) = (put_uvarint 9 (length f.defs) ++ defs_bytes f.defs) ++ table fs

symbols_of-table : (fs : List BuildFile) (b : Bytes) → symbols_of fs b ≡ b ++ table fs
unfolding symbols_of table append_uvarint
symbols_of-table [] b = sym (append-nil b)
symbols_of-table (f ∷ fs) b =
    let u = put_uvarint 9 (length f.defs) in
    let one : append_defs (b ++ u) f.defs ≡ b ++ (u ++ defs_bytes f.defs) =
      append_defs-defs_bytes (b ++ u) f.defs ∙ append_assoc b u (defs_bytes f.defs) in
    symbols_of-table fs (append_defs (b ++ u) f.defs)
    ∙ ap (λ (t : Bytes). t ++ table fs) one
    ∙ append_assoc b (u ++ defs_bytes f.defs) (table fs)

entry_place :
    (buf b u d t rest : Bytes)
    → buf ≡ b ++ (((u ++ d) ++ t) ++ rest)
    → buf ≡ b ++ (u ++ (d ++ (t ++ rest)))
entry_place buf b u d t rest e =
    e ∙ ap (λ (x : Bytes). b ++ x) (append_assoc (u ++ d) t rest ∙ append_assoc u d (t ++ rest))

defs_from-table :
    (fs : List BuildFile) (i : ℕ) (f : BuildFile) (buf b rest : Bytes)
    → All FileFits fs
    → get_elem? fs i ≡ some f
    → buf ≡ b ++ (table fs ++ rest)
    → defs_from buf i (length b) ≡ some f.defs
unfolding defs_from table
defs_from-table [] i f buf b rest fits g e = ground arith
defs_from-table (h ∷ fs) zero f buf b rest ((n, fit), fits) g e =
    let u = put_uvarint 9 (length h.defs) in
    let p1 = entry_place buf b u (defs_bytes h.defs) (table fs) rest e in
    let p2 = p1 ∙ sym (append_assoc b u (defs_bytes h.defs ++ (table fs ++ rest))) in
    let e1 = line_at buf b (defs_bytes h.defs ++ (table fs ++ rest)) (length h.defs) n p1 in
    let e2 = defs_at h.defs buf (b ++ u) (table fs ++ rest) fit p2 in
    let same : h ≡ f = ground (arith, g) in rw e1 (rw e2 (ap (λ (x : BuildFile). some x.defs) same))
defs_from-table (h ∷ fs) (suc i) f buf b rest ((n, fit), fits) g e =
    let u = put_uvarint 9 (length h.defs) in
    let p1 = entry_place buf b u (defs_bytes h.defs) (table fs) rest e in
    let p2 = p1 ∙ sym (append_assoc b u (defs_bytes h.defs ++ (table fs ++ rest))) in
    let p3 = p2 ∙ sym (append_assoc (b ++ u) (defs_bytes h.defs) (table fs ++ rest)) in
    let e1 = line_at buf b (defs_bytes h.defs ++ (table fs ++ rest)) (length h.defs) n p1 in
    let e2 = defs_at h.defs buf (b ++ u) (table fs ++ rest) fit p2 in
    rw e1 (rw e2 (defs_from-table fs i f buf ((b ++ u) ++ defs_bytes h.defs) rest fits g p3))

no_symbols :
    (fs : List BuildFile) (i : ℕ) (f : BuildFile)
    → count_symbols fs ≡ 0
    → get_elem? fs i ≡ some f
    → f.defs ≡ []
unfolding count_symbols
no_symbols [] i f c g = ground arith
no_symbols (h ∷ fs) zero f c g =
    let same : h ≡ f = ground (arith, g) in
    elim (List-cases h.defs) [
      | inl e ↦ ap (λ (x : BuildFile). x.defs) (sym same) ∙ e
      | inr (d, ds, e) ↦ ground (arith, c)
    ]
no_symbols (h ∷ fs) (suc i) f c g = no_symbols fs i f (omega (arith, c)) g

-- In a shard whose bytes hold, at its symbol offset, the symbol section that Write makes of some files,
-- and whose header counts their definitions, FileDefs gives for each file id the definitions of that
-- file, if their lengths, lines and numbers are below 2 ^ 64 and the offset is not 0.
pub file_defs-symbols_of :
    (s : Shard) (fs : List BuildFile) (i : ℕ) (f : BuildFile) (before rest : Bytes)
    → s.bytes ≡ before ++ (symbols_of fs [] ++ rest)
    → s.symbol_off ≡ length before
    → 0 < length before
    → s.num_syms ≡ count_symbols fs
    → All FileFits fs
    → get_elem? fs i ≡ some f
    → file_defs s i ≡ some f.defs
unfolding file_defs
file_defs-symbols_of s fs i f before rest e off pos n fits g =
    let place : s.bytes ≡ before ++ (table fs ++ rest) =
      e ∙ ap (λ (t : Bytes). before ++ (t ++ rest)) (symbols_of-table fs []) in
    let read : defs_from s.bytes i s.symbol_off ≡ some f.defs =
      ap (λ (k : ℕ). defs_from s.bytes i k) off
      ∙ defs_from-table fs i f s.bytes before rest fits g place in
    elim (Bool-cases (s.num_syms == 0)) [
      | inl z ↦
          let none_there : f.defs ≡ [] = no_symbols fs i f (ground (arith, n, z)) g in
          ground (arith, none_there, off, pos, z)
      | inr z ↦ ground (arith, read, off, pos, z)
    ]
