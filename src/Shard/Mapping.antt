-- ===== src/Shard/Mapping.antt =====
-- internal/shard/shard.go: Mmap and Munmap, which share one mapping of the file by a count.
-- Both hold the shard's lock for their whole run, so each call is one step.
use gcgrep.Base.{
  ℕ, ◌+◌, ◌-◌, ◌≤◌, ◌≡◌, ◌≢◌, ◌⊎◌, inl, inr, refl, Bool, true, false, Option, none, some, List, [],
  ◌∷◌, Bytes, ltb, if◌then◌else◌, arith, Option-cases,
}

-- The fields data, refs and mapFile of Shard: the mapped bytes and the open file behind them.
pub record Mapping : Type 0 where
  pub mapped : Option Bytes
  pub refs : ℕ
  pub open_file : Bool

-- os.Open and mmapFile: none where either fails.
-- Mmap, with what it returns (true: no error).
unfoldable pub mmap : Option Bytes → Mapping → Mapping × Bool
mmap os m = if ltb 0 m.refs then (record m { refs = m.refs + 1 }, true) else elim os [
  | none ↦ (m, false)
  | some d ↦ (record { mapped = some d; refs = 1; open_file = true }, true)
]

-- Munmap
unfoldable pub munmap : Mapping → Mapping
munmap m =
    if ltb 0 m.refs
    then if ltb 0 (m.refs - 1)
      then record m { refs = m.refs - 1 }
      else record { mapped = none; refs = 0; open_file = false }
    else m

abbrev pub unmapped : Mapping
unmapped = record { mapped = none; refs = 0; open_file = false }

-- One call by any goroutine: Mmap, with what the system answers if it is asked, or Munmap.
pub data Call : Type 0 where
  map_call : Option Bytes → Call
  unmap_call : Call

unfoldable pub call : Call → Mapping → Mapping
unfolding mmap munmap
call (Call.map_call os) m = (mmap os m).0
call Call.unmap_call m = munmap m

unfoldable pub calls : List Call → Mapping → Mapping
unfolding call
calls [] m = m
calls (c ∷ cs) m = calls cs (call c m)

-- A file is mapped and open exactly while the count is not zero.
unfoldable pub IsBalanced : Mapping → Type 0
IsBalanced m =
    ((m.refs ≡ 0) × (m.mapped ≡ none) × (m.open_file ≡ false))
    ⊎ ((1 ≤ m.refs) × (m.mapped ≢ none) × (m.open_file ≡ true))

call-IsBalanced : (c : Call) (m : Mapping) → IsBalanced m → IsBalanced (call c m)
unfolding call mmap munmap IsBalanced
call-IsBalanced (Call.map_call os) m h = elim (Option-cases os) [
  | inl e ↦ ground arith
  | inr (d, e) ↦ ground arith
]
call-IsBalanced Call.unmap_call m h = ground arith

-- Whatever calls of Mmap and Munmap goroutines make, in whatever order and however the system answers,
-- a shard that has data and an open file exactly while its count is not zero stays so.
pub calls-IsBalanced : (cs : List Call) (m : Mapping) → IsBalanced m → IsBalanced (calls cs m)
unfolding calls
calls-IsBalanced [] m h = h
calls-IsBalanced (c ∷ cs) m h = calls-IsBalanced cs (call c m) (call-IsBalanced c m h)

-- Readers that come and go, each with the answer the system would give it.
abbrev pub flat : List (Option Bytes) → List Call
flat [] = []
flat (a ∷ rest) = Call.map_call a ∷ Call.unmap_call ∷ flat rest

-- While a shard's count is not zero, calls of Mmap that are each followed by a call of Munmap leave the
-- bytes that are mapped, the open file and the count as they are, whatever the system would answer.
pub nested_calls :
    (answers : List (Option Bytes)) (m : Mapping) → 1 ≤ m.refs → calls (flat answers) m ≡ m
unfolding calls call mmap munmap
nested_calls [] m h = refl
nested_calls (a ∷ rest) m h =
    let back : munmap (record m { refs = m.refs + 1 }) ≡ m = ground arith in
    ground (arith, back, nested_calls rest m h)
