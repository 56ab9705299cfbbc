-- ===== src/Tests/Daemon.antt =====
-- The properties of internal/daemon/store.go and internal/watch at concrete inputs.
use gcgrep.Base.{
  All, suc, ℕ, ◌+◌, ◌*◌, ◌≡◌, ◌≤◌, ◌<◌, ◌⊎◌, refl, inr, Bool, true, false, ◌||◌, none, some, List,
  [], ◌∷◌, ◌++◌, Bytes, codes, arith, if◌then◌else◌,
}
use gcgrep.Base.Int.{pos, pos_part, ◌+ℤ◌}
use gcgrep.Go.Map.{get, put, bytes_eq}
use gcgrep.Symbol.{Def}
use gcgrep.Index.Store.{
  FileMeta, Index, new, add, add_with_keys, insert_locked, remove_locked, maybe_compact_locked,
}
use gcgrep.Index.Store.Invariant.{IsValid, new-IsValid, add-IsValid}
use gcgrep.Index.Store.View.{entry_of}
use gcgrep.Index.Store.Live.{live_entry}
use gcgrep.Index.Store.Sizes.{live_bytes}
use gcgrep.Daemon.Stream.{stream_get}
use gcgrep.Daemon.RootStore.{
  RootStore, Limits, mb, Stat, Read, Disk, Change, index_file, index_all, apply_change,
  reserve_bytes,
}
use gcgrep.Daemon.RootStore.Accounts.{IsSound, index_all-IsSound}
use gcgrep.Daemon.RootStore.Changes.{apply_change-IsSound, apply_change_leaks}
use gcgrep.Daemon.RootStore.Persist.{load_persisted, save, load_persisted-save}
use gcgrep.Daemon.RootStore.Routes.{
  route, indexed_as, streamed_as, IsSettled, IsExclusive, index_file-Placed,
}
use gcgrep.Daemon.RootStore.Reconcile.{
  FileStat, reconcile, OnDisk, Found, Once, IsHeld, reconcile_lem, reconcile-exclusive,
}
use gcgrep.Daemon.RootStore.Reserve.{
  Ticket, System, Reach, start, next, call, here, later, load, swap, retry, held, Fits,
  reserve-IsBounded, turn-reserve_bytes,
}
use gcgrep.Daemon.RootStore.Reserve.Ends.{Run, stop, move, IsAnswered, CanMove, reserve_ends}
use gcgrep.Watch.{Env, Input, idle, run, is_pending}
use gcgrep.Watch.Delivery.{
  delivered, reported, rescanned, overflowed, IsArmed, run_complete, run-IsArmed, run-fire,
}

abbrev no_defs : Bytes → Bytes → List Def
no_defs path content = []

abbrev one_mb : Limits
one_mb = record { max_file_size_mb = 1; max_index_mb = 1 }

-- Every path is a text of three bytes.
abbrev texts : Disk
texts = record { stat = λ p. Stat.regular 3 7; read = λ p. Read.contents (codes "xyz") }

abbrev empty : RootStore
empty = record {
  idx = new (codes "r");
  stream = [];
  total_bytes = pos 0;
  indexed = 0;
  skipped_large = 0;
  skipped_budget = 0;
  skipped_binary = 0;
  skipped_error = 0;
}

empty-IsSound : IsSound one_mb 0 empty
unfolding live_bytes new
empty-IsSound = record {
  valid = new-IsValid (codes "r");
  accounted = refl;
  within = inr (omega arith);
}

index_all-IsSound_example :
    IsSound one_mb 0 (index_all no_defs one_mb texts (codes "a" ∷ codes "b" ∷ []) empty)
index_all-IsSound_example =
    index_all-IsSound no_defs one_mb 0 texts (codes "a" ∷ codes "b" ∷ []) empty empty-IsSound

index_file-Placed_example :
    (entry_of
        (index_file no_defs one_mb
          (codes "a")
          (Stat.regular 3 7)
          (Read.contents (codes "xyz"))
          empty).idx
        (codes "b")
      ≡ (if bytes_eq (codes "a") (codes "b")
          then indexed_as no_defs
              (codes "a")
              (route one_mb (pos 0) (Stat.regular 3 7) (Read.contents (codes "xyz")))
          else entry_of empty.idx (codes "b")))
    × (stream_get
          (codes "b")
          (index_file no_defs one_mb
            (codes "a")
            (Stat.regular 3 7)
            (Read.contents (codes "xyz"))
            empty).stream
        ≡ (if bytes_eq (codes "a") (codes "b")
            then streamed_as (route one_mb (pos 0) (Stat.regular 3 7) (Read.contents (codes "xyz")))
            else stream_get (codes "b") empty.stream))
index_file-Placed_example =
    index_file-Placed no_defs (codes "a") one_mb (Stat.regular 3 7) (Read.contents (codes "xyz"))
      empty (new-IsValid (codes "r")) (codes "b")

abbrev meta : FileMeta
meta = record { path = codes "a"; size = 3; mtime_ns = 7 }

abbrev with_a : RootStore
with_a = record empty {
  idx = add no_defs (new (codes "r")) meta (codes "xyz");
  total_bytes = pos 3;
}

a_file :
    entry_of with_a.idx (codes "a")
    ≡ some (record { meta = meta; content = codes "xyz"; defs = []; dead = false })
unfolding add add_with_keys insert_locked remove_locked maybe_compact_locked live_entry new get put
    bytes_eq
a_file = refl

with_a-IsSound : IsSound one_mb 0 with_a
unfolding live_bytes add add_with_keys insert_locked remove_locked maybe_compact_locked new get
with_a-IsSound = record {
  valid = add-IsValid no_defs (new (codes "r")) meta (codes "xyz") (new-IsValid (codes "r"));
  accounted = refl;
  within = inr omega arith;
}

abbrev nothing_ignored : Bytes → Bool → Bool
nothing_ignored rel is_dir = false

apply_change-IsSound_example :
    (d : ℕ) × (0 ≤ d)
    × IsSound one_mb d
        (apply_change no_defs one_mb texts nothing_ignored (codes "a") Change.removed with_a)
apply_change-IsSound_example =
    apply_change-IsSound no_defs one_mb texts nothing_ignored 0 (codes "a") Change.removed with_a
      with_a-IsSound

apply_change_leaks_example :
    live_bytes
        (apply_change no_defs one_mb texts nothing_ignored
          (codes "a")
          Change.removed
          with_a).idx.files
      + 0
    < pos_part
        (apply_change no_defs one_mb texts nothing_ignored
          (codes "a")
          Change.removed
          with_a).total_bytes
apply_change_leaks_example =
    apply_change_leaks no_defs one_mb texts nothing_ignored 0 (codes "a")
      (record { meta = meta; content = codes "xyz"; defs = []; dead = false }) with_a with_a-IsSound
      a_file (omega arith) refl

load_persisted-save_example :
    (loaded : Index) × (load_persisted (codes "r") (save (codes "r") with_a.idx)
      ≡ some (loaded, pos (live_bytes with_a.idx.files)))
    × IsValid loaded
    × ((q : Bytes) → entry_of loaded q ≡ entry_of with_a.idx q)
load_persisted-save_example = load_persisted-save (codes "r") with_a.idx with_a-IsSound.valid

-- The index has "a", and the disk has "b".
abbrev b_on_disk : List FileStat
b_on_disk = record { rel = codes "b"; size = 3; mtime_ns = 7 } ∷ []

b_on_disk-Once : Once b_on_disk
b_on_disk-Once = ((λ h. h), tt)

reconcile_lem_example :
    let t = reconcile no_defs one_mb texts b_on_disk with_a in
    IsValid t.idx
    × ((q : Bytes)
        → ¬ OnDisk b_on_disk q
        → (entry_of t.idx q ≡ none) × (stream_get q t.stream ≡ none))
    × ((f : FileStat)
        → Found b_on_disk f
        → IsHeld with_a f
        → (entry_of t.idx f.rel ≡ entry_of with_a.idx f.rel)
          × (stream_get f.rel t.stream ≡ stream_get f.rel with_a.stream))
    × ((f : FileStat)
        → Found b_on_disk f
        → ¬ IsHeld with_a f
        → IsSettled no_defs one_mb texts f.rel t.idx t.stream)
reconcile_lem_example =
    reconcile_lem no_defs one_mb texts 0 b_on_disk with_a with_a-IsSound b_on_disk-Once

with_a-IsExclusive : IsExclusive with_a
unfolding stream_get get
with_a-IsExclusive q = inr refl

reconcile-exclusive_example :
    (entry_of (reconcile no_defs one_mb texts b_on_disk with_a).idx (codes "b") ≡ none)
    ⊎ (stream_get (codes "b") (reconcile no_defs one_mb texts b_on_disk with_a).stream ≡ none)
reconcile-exclusive_example =
    reconcile-exclusive no_defs one_mb texts 0 b_on_disk with_a (codes "b") with_a-IsSound
      with_a-IsExclusive

-- Two calls for 600000 bytes each: both ask, both load, one swaps, the other retries.
abbrev ask : Ticket
ask = Ticket.asking 600000

abbrev read : Ticket
read = Ticket.loaded 600000 (pos 0)

abbrev one_granted : System
one_granted = record { total = pos 600000; tickets = Ticket.granted 600000 ∷ ask ∷ [] }

one_granted-Reach : Reach one_mb one_granted
unfolding ◌+ℤ◌
one_granted-Reach =
    next
      (next
        (next
          (next (next (next start (call 600000)) (later ask (call 600000)))
            (here (ask ∷ []) (load 600000 (λ e. ground (arith, e)) refl)))
          (later read (here [] (load 600000 (λ e. ground (arith, e)) refl))))
        (here (read ∷ []) (swap 600000 (pos 0) refl)))
      (later (Ticket.granted 600000) (here [] (retry 600000 (pos 0) (λ e. ground (arith, e)))))

reserve-IsBounded_example :
    (pos 600000 ≡ pos (held one_granted.tickets))
    × ((one_mb.max_index_mb ≡ 0) ⊎ (held one_granted.tickets ≤ one_mb.max_index_mb * mb))
reserve-IsBounded_example = reserve-IsBounded one_mb one_granted one_granted-Reach

nine-Fits : Fits one_mb (Ticket.loaded 9 (pos 0))
unfolding Fits ◌+ℤ◌
nine-Fits = refl

turn-reserve_bytes_example :
    (Ticket.granted 9 ≡ Ticket.refused 9 → reserve_bytes one_mb 9 empty ≡ none)
    × (Ticket.granted 9 ≡ Ticket.granted 9
        → reserve_bytes one_mb 9 empty ≡ some (record empty { total_bytes = pos 0 +ℤ pos 9 }))
turn-reserve_bytes_example =
    turn-reserve_bytes one_mb empty (Ticket.loaded 9 (pos 0)) (Ticket.granted 9) (pos 0 +ℤ pos 9) 9
      (swap 9 (pos 0) refl) nine-Fits

two_turns : Run one_mb 2 (pos 0) (read ∷ read ∷ []) one_granted.total one_granted.tickets
unfolding ◌+ℤ◌
two_turns = move (here (read ∷ []) (swap 600000 (pos 0) refl)) refl (
    move (later (Ticket.granted 600000) (here [] (retry 600000 (pos 0) (λ e. ground (arith, e)))))
      refl stop)

reserve_ends_example :
    (2 < suc (2 * 2) * suc (3 * 2))
    × All (λ k. IsAnswered k ⊎ CanMove one_mb one_granted.total k) one_granted.tickets
reserve_ends_example =
    reserve_ends one_mb 2 (pos 0) one_granted.total (read ∷ read ∷ []) one_granted.tickets two_turns

abbrev env : Env
env = record { base = λ p. p; is_dir = λ p. false; ignored = λ p. false }

abbrev inputs : List Input
inputs =
    Input.event (codes "a") true ∷ Input.fire ∷ Input.overflow ∷ Input.event (codes "b") false ∷ []

run_complete_example :
    ((delivered (codes "b") (run env inputs idle).1
        || is_pending (codes "b") (run env inputs idle).0.pending)
      ≡ (is_pending (codes "b") idle.pending || reported env (codes "b") inputs))
    × ((rescanned (run env inputs idle).1 || (run env inputs idle).0.rescan)
        ≡ (idle.rescan || overflowed inputs))
run_complete_example = run_complete env inputs idle (codes "b")

idle-IsArmed : IsArmed idle
unfolding is_pending
idle-IsArmed = ((λ q h. ground (arith, h)), (λ h. ground (arith, h)))

run-IsArmed_example : IsArmed (run env inputs idle).0
run-IsArmed_example = run-IsArmed env inputs idle idle-IsArmed

run-fire_example :
    ((run env (inputs ++ (Input.fire ∷ [])) idle).0 ≡ idle)
    × (delivered (codes "b") (run env (inputs ++ (Input.fire ∷ [])) idle).1
        ≡ reported env (codes "b") inputs)
    × (rescanned (run env (inputs ++ (Input.fire ∷ [])) idle).1 ≡ overflowed inputs)
run-fire_example = run-fire env inputs (codes "b")
