-- ===== src/Index/Store/Live.antt =====
-- The live entries of a file list: which id a path has, and how killing and appending change that.
use gcgrep.Base.{
  if_both, ℕ, zero, suc, ◌≡◌, ◌≢◌, refl, ap, sym, Bool, false, ◌&&◌, not, Option, none, some, List,
  [], ◌∷◌, ◌++◌, Bytes, if◌then◌else◌, length, All, arith, Bool-cases, Option-cases, inl, inr,
}
use gcgrep.Go.Bytes.{bump}
use gcgrep.Go.Map.{bytes_eq, bytes_eq_iff}
use gcgrep.Index.Store.{FileEntry, kill, live_files}

-- An entry is live and has the path.
abbrev pub named : Bytes → FileEntry → Bool
named p f = not f.dead && bytes_eq f.meta.path p

-- The id of the first live entry of a path.
unfoldable pub live_index : Bytes → List FileEntry → Option ℕ
live_index p [] = none
live_index p (f ∷ fs) = if named p f then some 0 else bump (live_index p fs)

-- The first live entry of a path: what the store holds for it.
unfoldable pub live_entry : Bytes → List FileEntry → Option FileEntry
live_entry p [] = none
live_entry p (f ∷ fs) = if named p f then some f else live_entry p fs

-- No other live entry has the path.
abbrev pub Free : Bytes → List FileEntry → Type 0
Free p fs = All (λ g. g.dead ≡ false → g.meta.path ≢ p) fs

-- Live entries have different paths.
abbrev pub Unique : List FileEntry → Type 0
Unique [] = Unit {0}
Unique (f ∷ fs) = (f.dead ≡ false → Free f.meta.path fs) × Unique fs

unfoldable pub dead_count : List FileEntry → ℕ
dead_count [] = 0
dead_count (f ∷ fs) = if f.dead then suc (dead_count fs) else dead_count fs

pub live_index-Free : (p : Bytes) (fs : List FileEntry) → Free p fs → live_index p fs ≡ none
unfolding live_index
live_index-Free p [] h = refl
live_index-Free p (f ∷ fs) h = elim (Bool-cases f.dead) [
  | inl e ↦ ground (arith, live_index-Free p fs h.1)
  | inr e ↦ ground (arith, live_index-Free p fs h.1, h.0 e, bytes_eq_iff f.meta.path p)
]

pub live_entry-Free : (p : Bytes) (fs : List FileEntry) → Free p fs → live_entry p fs ≡ none
unfolding live_entry
live_entry-Free p [] h = refl
live_entry-Free p (f ∷ fs) h = elim (Bool-cases f.dead) [
  | inl e ↦ ground (arith, live_entry-Free p fs h.1)
  | inr e ↦ ground (arith, live_entry-Free p fs h.1, h.0 e, bytes_eq_iff f.meta.path p)
]

pub Free-live_index : (p : Bytes) (fs : List FileEntry) → live_index p fs ≡ none → Free p fs
unfolding live_index
Free-live_index p [] e = tt
Free-live_index p (f ∷ fs) e = elim (Option-cases (live_index p fs)) [
  | inl n ↦ (λ d. ground (arith, bytes_eq_iff f.meta.path p), Free-live_index p fs n)
  | inr (k, s) ↦ absurd (ground arith)
]

Free-kill : (p : Bytes) (fs : List FileEntry) (id : ℕ) → Free p fs → Free p (kill id fs)
unfolding kill
Free-kill p [] id h = tt
Free-kill p (f ∷ fs) zero h = (λ d. cc, h.1)
Free-kill p (f ∷ fs) (suc id) h = (h.0, Free-kill p fs id h.1)

pub kill-Unique : (fs : List FileEntry) (id : ℕ) → Unique fs → Unique (kill id fs)
unfolding kill
kill-Unique [] id h = tt
kill-Unique (f ∷ fs) zero h = (λ d. cc, h.1)
kill-Unique (f ∷ fs) (suc id) h = (λ d. Free-kill f.meta.path fs id (h.0 d), kill-Unique fs id h.1)

-- Killing the entry of a path takes that path away and leaves the others.
pub live_index-kill :
    (p q : Bytes) (fs : List FileEntry) (id : ℕ)
    → Unique fs
    → live_index p fs ≡ some id
    → live_index q (kill id fs) ≡ (if bytes_eq p q then none else live_index q fs)
unfolding live_index kill
live_index-kill p q [] id u e = cc
live_index-kill p q (f ∷ fs) zero u e = elim (Bool-cases f.dead) [
  | inl d ↦ elim (Option-cases (live_index p fs)) [
    | inl n ↦ ground arith
    | inr (k, s) ↦ ground arith
  ]
  | inr d ↦ ground (
    arith,
    bytes_eq_iff f.meta.path p,
    bytes_eq_iff f.meta.path q,
    bytes_eq_iff p q,
    live_index-Free f.meta.path fs (u.0 d),
  )
]
live_index-kill p q (f ∷ fs) (suc id) u e = elim (Option-cases (live_index p fs)) [
  | inl n ↦ ground arith
  | inr (k, s) ↦ ground (
    arith,
    bytes_eq_iff f.meta.path p,
    bytes_eq_iff f.meta.path q,
    bytes_eq_iff p q,
    live_index-kill p q fs k u.1 s,
  )
]

pub live_entry-kill :
    (p q : Bytes) (fs : List FileEntry) (id : ℕ)
    → Unique fs
    → live_index p fs ≡ some id
    → live_entry q (kill id fs) ≡ (if bytes_eq p q then none else live_entry q fs)
unfolding live_entry live_index kill
live_entry-kill p q [] id u e = cc
live_entry-kill p q (f ∷ fs) zero u e = elim (Bool-cases f.dead) [
  | inl d ↦ elim (Option-cases (live_index p fs)) [
    | inl n ↦ ground arith
    | inr (k, s) ↦ ground arith
  ]
  | inr d ↦ ground (
    arith,
    bytes_eq_iff f.meta.path p,
    bytes_eq_iff f.meta.path q,
    bytes_eq_iff p q,
    live_entry-Free f.meta.path fs (u.0 d),
  )
]
live_entry-kill p q (f ∷ fs) (suc id) u e = elim (Option-cases (live_index p fs)) [
  | inl n ↦ ground arith
  | inr (k, s) ↦ ground (
    arith,
    bytes_eq_iff f.meta.path p,
    bytes_eq_iff f.meta.path q,
    bytes_eq_iff p q,
    live_entry-kill p q fs k u.1 s,
  )
]

pub length-kill : (fs : List FileEntry) (id : ℕ) → length (kill id fs) ≡ length fs
unfolding kill
length-kill [] id = refl
length-kill (f ∷ fs) zero = refl
length-kill (f ∷ fs) (suc id) = ap suc (length-kill fs id)

pub dead_count-kill :
    (p : Bytes) (fs : List FileEntry) (id : ℕ)
    → live_index p fs ≡ some id
    → dead_count (kill id fs) ≡ suc (dead_count fs)
unfolding live_index kill dead_count
dead_count-kill p [] id e = cc
dead_count-kill p (f ∷ fs) zero e = elim (Option-cases (live_index p fs)) [
  | inl n ↦ ground arith
  | inr (k, s) ↦ ground arith
]
dead_count-kill p (f ∷ fs) (suc id) e = elim (Option-cases (live_index p fs)) [
  | inl n ↦ ground arith
  | inr (k, s) ↦ ground (arith, dead_count-kill p fs k s)
]

-- Appending a live entry of a path that no live entry has.
pub live_index-snoc :
    (q : Bytes) (fs : List FileEntry) (f : FileEntry)
    → f.dead ≡ false
    → Free f.meta.path fs
    → live_index q (fs ++ f ∷ [])
      ≡ (if bytes_eq f.meta.path q then some (length fs) else live_index q fs)
unfolding live_index
live_index-snoc q [] f d h = ground arith
live_index-snoc q (g ∷ fs) f d h = elim (Bool-cases g.dead) [
  | inl e ↦ ground (arith, live_index-snoc q fs f d h.1)
  | inr e ↦ ground (
    arith,
    live_index-snoc q fs f d h.1,
    h.0 e,
    bytes_eq_iff f.meta.path q,
    bytes_eq_iff g.meta.path q,
  )
]

pub live_entry-snoc :
    (q : Bytes) (fs : List FileEntry) (f : FileEntry)
    → f.dead ≡ false
    → Free f.meta.path fs
    → live_entry q (fs ++ f ∷ []) ≡ (if bytes_eq f.meta.path q then some f else live_entry q fs)
unfolding live_entry
live_entry-snoc q [] f d h = ground arith
live_entry-snoc q (g ∷ fs) f d h = elim (Bool-cases g.dead) [
  | inl e ↦ ground (arith, live_entry-snoc q fs f d h.1)
  | inr e ↦ ground (
    arith,
    live_entry-snoc q fs f d h.1,
    h.0 e,
    bytes_eq_iff f.meta.path q,
    bytes_eq_iff g.meta.path q,
  )
]

Free-snoc :
    (p : Bytes) (fs : List FileEntry) (f : FileEntry)
    → f.meta.path ≢ p
    → Free p fs
    → Free p (fs ++ f ∷ [])
Free-snoc p [] f n h = (λ d. n, tt)
Free-snoc p (g ∷ fs) f n h = (h.0, Free-snoc p fs f n h.1)

pub snoc-Unique :
    (fs : List FileEntry) (f : FileEntry) → Unique fs → Free f.meta.path fs → Unique (fs ++ f ∷ [])
snoc-Unique [] f u h = (λ d. tt, tt)
snoc-Unique (g ∷ fs) f u h =
    (λ d. Free-snoc g.meta.path fs f (λ e. h.0 d (sym e)) (u.0 d), snoc-Unique fs f u.1 h.1)

pub dead_count-snoc :
    (fs : List FileEntry) (f : FileEntry)
    → f.dead ≡ false
    → dead_count (fs ++ f ∷ []) ≡ dead_count fs
unfolding dead_count
dead_count-snoc [] f d = rw d
dead_count-snoc (g ∷ fs) f d = ground (arith, dead_count-snoc fs f d)

-- Dropping the dead entries.
Free-live_files : (p : Bytes) (fs : List FileEntry) → Free p fs → Free p (live_files fs)
unfolding live_files
Free-live_files p [] h = tt
Free-live_files p (f ∷ fs) h =
    if_both (Free p) f.dead _ _ (Free-live_files p fs h.1) (h.0, Free-live_files p fs h.1)

pub live_files-Unique : (fs : List FileEntry) → Unique fs → Unique (live_files fs)
unfolding live_files
live_files-Unique [] u = tt
live_files-Unique (f ∷ fs) u =
    if_both Unique f.dead _ _ (live_files-Unique fs u.1)
      (λ d. Free-live_files f.meta.path fs (u.0 d), live_files-Unique fs u.1)

pub live_files-AllLive : (fs : List FileEntry) → All (λ f. f.dead ≡ false) (live_files fs)
unfolding live_files
live_files-AllLive [] = tt
live_files-AllLive (f ∷ fs) = ground (arith, live_files-AllLive fs)

pub live_entry-live_files :
    (q : Bytes) (fs : List FileEntry) → live_entry q (live_files fs) ≡ live_entry q fs
unfolding live_entry live_files
live_entry-live_files q [] = refl
live_entry-live_files q (f ∷ fs) = ground (arith, live_entry-live_files q fs)

pub dead_count-AllLive : (fs : List FileEntry) → All (λ f. f.dead ≡ false) fs → dead_count fs ≡ 0
unfolding dead_count
dead_count-AllLive [] h = refl
dead_count-AllLive (f ∷ fs) h = ground (arith, dead_count-AllLive fs h.1)
