-- ===== src/Watch.antt =====
-- internal/watch/watch.go: the loop that batches the events of the file system.
-- The file system's watcher, the timer and the consumer are outside: each iteration of the loop takes what one of
-- them brings, in any order. The iterations are those before the watcher is closed.
pub mod Delivery
use gcgrep.Base.{
  ℕ, Bool, true, false, ◌&&◌, ◌||◌, not, Option, none, some, List, [], ◌∷◌, ◌++◌, Bytes, codes, ltb,
  if◌then◌else◌, length,
}
use gcgrep.Go.Bytes.{has_prefix}
use gcgrep.Go.Map.{bytes_eq}

-- CookiePrefix
abbrev pub cookie_prefix : Bytes
cookie_prefix = codes ".gcgrep-cookie-"

-- Batch; `flush` for a channel in Done.
pub record Batch : Type 0 where
  pub paths : List Bytes
  pub rescan : Bool
  pub flush : Bool

-- What the loop asks of its surroundings: filepath.Base, whether a path is a directory (os.Lstat), and whether
-- the directory is one that `ignore` leaves out.
pub record Env : Type 0 where
  pub base : Bytes → Bytes
  pub is_dir : Bytes → Bool
  pub ignored : Bytes → Bool

-- What an iteration receives: an event with its name and whether its Op has Create, an error that is
-- ErrEventOverflow or another, a request of Flush, or the timer.
pub data Input : Type 0 where
  event : Bytes → Bool → Input
  overflow other_error flush fire : Input

-- The variables of the loop: the keys of pending, rescan, and whether there is a timer.
pub record Loop : Type 0 where
  pub pending : List Bytes
  pub rescan : Bool
  pub timer : Bool

abbrev pub idle : Loop
idle = record { pending = []; rescan = false; timer = false }

-- What an iteration leaves behind: the variables, a batch for the consumer, the name of a cookie that is offered
-- to a barrier, and a directory that is registered.
pub record Turn : Type 0 where
  pub loop : Loop
  pub batch : Option Batch
  pub cookie : Option Bytes
  pub register : Option Bytes

abbrev pub quiet : Loop → Turn
quiet l = record { loop = l; batch = none; cookie = none; register = none }

unfoldable pub is_pending : Bytes → List Bytes → Bool
is_pending q [] = false
is_pending q (p ∷ ps) = bytes_eq p q || is_pending q ps

-- `pending[ev.Name] = struct{}{}`
unfoldable pub insert : Bytes → List Bytes → List Bytes
unfolding is_pending
insert p ps = if is_pending p ps then ps else p ∷ ps

-- The test of the loop on the base name of an event.
unfoldable pub is_cookie : Bytes → Bool
unfolding has_prefix
is_cookie base = ltb (length cookie_prefix) (length base) && has_prefix base cookie_prefix

-- emit
abbrev pub emit : Loop → Bool → Batch
emit l done = record { paths = l.pending; rescan = l.rescan; flush = done }

-- The case of an event.
unfoldable pub on_event : Env → Bytes → Bool → Loop → Turn
unfolding insert is_cookie
on_event env name create l =
    if is_cookie (env.base name)
    then record {
      loop = l;
      batch = none;
      cookie = if create then some (env.base name) else none;
      register = none;
    }
    else record {
      loop = record { pending = insert name l.pending; rescan = l.rescan; timer = true };
      batch = none;
      cookie = none;
      register = if create && (env.is_dir name && not (env.ignored name)) then some name else none;
    }

-- One iteration of the loop. Without a timer its channel is nil, and a nil channel brings nothing.
unfoldable pub iterate : Env → Input → Loop → Turn
unfolding on_event
iterate env (Input.event name create) l = on_event env name create l
iterate env Input.overflow l = quiet (record { pending = l.pending; rescan = true; timer = true })
iterate env Input.other_error l = quiet l
iterate env Input.flush l = record {
  loop = idle;
  batch = some (emit l true);
  cookie = none;
  register = none;
}
iterate env Input.fire l =
    if l.timer
    then record { loop = idle; batch = some (emit l false); cookie = none; register = none }
    else quiet l

-- Any number of iterations: the variables afterwards, and the batches in their order.
unfoldable pub run : Env → List Input → Loop → Loop × List Batch
unfolding iterate
run env [] l = (l, [])
run env (i ∷ is) l =
    let turn = iterate env i l in
    let rest = run env is turn.loop in
    (rest.0, elim turn.batch [ none ↦ rest.1 | some b ↦ b ∷ rest.1 ])
