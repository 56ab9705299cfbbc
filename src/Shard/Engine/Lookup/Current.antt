-- ===== src/Shard/Engine/Lookup/Current.antt =====
-- internal/shard/engine.go: FilesContaining answers by what is on disk.
use gcgrep.Base.{
  ℕ, ◌≡◌, refl, ap, sym, inl, inr, arith, Bool-cases, Option-cases, if_both, Bool, true, false,
  ◌||◌, Option, none, some, List, [], ◌∷◌, ◌++◌, All, Bytes, if◌then◌else◌,
}
use gcgrep.Go.Bytes.{contains}
use gcgrep.Go.Map.{listed, get, bytes_eq, bytes_eq_iff, bytes_key}
use gcgrep.Index.Lookup.{FileContent, is_filtered}
use gcgrep.Index.Lookup.Containing.{Lists}
use gcgrep.Shard.File.{Shard, file}
use gcgrep.Shard.Query.{candidates}
use gcgrep.Shard.Engine.{Dirty, DirtyEntry}
use gcgrep.Shard.Engine.Search.{Part}
use gcgrep.Shard.Engine.Lookup.{
  Env, Found, take_file, visit, visit_candidates, visit_shards, visit_dirty, files_containing,
}

-- The file is as it is on disk, and contains the literal.
pub record IsCurrent (env : Env) (lit : Bytes) (c : FileContent) : Type 0 where
  pub on_disk : env.read_file c.path ≡ some c.content
  pub has_lit : contains c.content lit ≡ true

All-snoc {ℓ κ} :
    {A : Type ℓ} (P : A → Type κ) (xs : List A) (x : A) → All P xs → P x → All P (xs ++ (x ∷ []))
All-snoc P [] x a h = (h, tt)
All-snoc P (y ∷ ys) x a h = (a.0, All-snoc P ys x a.1 h)

Lists-snoc : (xs : List FileContent) (x c : FileContent) → Lists xs c → Lists (xs ++ (x ∷ [])) c
Lists-snoc [] x c h = absurd h
Lists-snoc (y ∷ ys) x c (inl e) = inl e
Lists-snoc (y ∷ ys) x c (inr m) = inr (Lists-snoc ys x c m)

Lists-last : (xs : List FileContent) (x : FileContent) → Lists (xs ++ (x ∷ [])) x
Lists-last [] x = inl refl
Lists-last (y ∷ ys) x = inr (Lists-last ys x)

listed-nil : (p : Bytes) → listed p [] ≡ true → ⊥
unfolding listed
listed-nil p h = ground (arith, h)

module _ (env : Env) (lit : Bytes) (path_match : Option (Bytes → Bool)) where
  take_file-IsCurrent :
      (p : Bytes) (out : List FileContent)
      → All (IsCurrent env lit) out
      → All (IsCurrent env lit) (take_file lit p (env.read_file p) out)
  unfolding take_file
  take_file-IsCurrent p out a = read (env.read_file p) refl
    where
      read :
          (o : Option Bytes) → env.read_file p ≡ o → All (IsCurrent env lit) (take_file lit p o out)
      read none e = a
      read (some content) e = holding (contains content lit) refl
        where
          holding :
              (b : Bool)
              → contains content lit ≡ b
              → All
                  (IsCurrent env lit)
                  (if b then out ++ (record { path = p; content = content } ∷ []) else out)
          holding true h =
              All-snoc (IsCurrent env lit) out _ a (record { on_disk = e; has_lit = h })
          holding false h = a

  take_file-Lists :
      (p : Bytes) (o : Option Bytes) (out : List FileContent) (c : FileContent)
      → Lists out c
      → Lists (take_file lit p o out) c
  unfolding take_file
  take_file-Lists p none out c h = h
  take_file-Lists p (some content) out c h =
      if_both (λ (l : List FileContent). Lists l c) (contains content lit) _ _
        (Lists-snoc out _ c h) h

  -- A path that was visited is in the result if it belongs there.
  abbrev Complete : List Bytes → List FileContent → Type 0
  Complete seen out =
      (c : FileContent) → listed c.path seen ≡ true → IsCurrent env lit c → Lists out c

  take_file-here :
      (c : FileContent) (out : List FileContent)
      → IsCurrent env lit c
      → Lists (take_file lit c.path (env.read_file c.path) out) c
  unfolding take_file
  take_file-here c out k = rw k.on_disk (rw k.has_lit (Lists-last out c))

  taken :
      (p : Bytes) (c : FileContent) (out : List FileContent)
      → bytes_eq p c.path ≡ true
      → IsCurrent env lit c
      → Lists (take_file lit p (env.read_file p) out) c
  taken p c out s k = rw ((bytes_eq_iff p c.path).0 s) (take_file-here c out k)

  visit-Complete :
      (p : Bytes) (r : Found)
      → All (IsCurrent env lit) r.out
      → Complete r.seen r.out
      → let t = visit env lit path_match p r in
        All (IsCurrent env lit) t.out × Complete t.seen t.out
  unfolding visit listed
  visit-Complete p r a k =
      if_both (λ (t : Found). All (IsCurrent env lit) t.out × Complete t.seen t.out)
        (listed p r.seen || is_filtered path_match p) r
        (record { seen = p ∷ r.seen; out = take_file lit p (env.read_file p) r.out }) (a, k)
        (
          take_file-IsCurrent p r.out a,
          λ c l i. elim (Bool-cases (bytes_eq p c.path)) [
            | inl s ↦ taken p c r.out s i
            | inr s ↦ take_file-Lists p (env.read_file p) r.out c (k c (ground (arith, l, s)) i)
          ],
        )

  visit_candidates-Complete :
      (s : Shard) (ids : List ℕ) (r t : Found)
      → visit_candidates env lit path_match s ids r ≡ some t
      → All (IsCurrent env lit) r.out
      → Complete r.seen r.out
      → All (IsCurrent env lit) t.out × Complete t.seen t.out
  unfolding visit_candidates
  visit_candidates-Complete s [] r t e a k =
      let same : r ≡ t = ground (arith, e) in rw (sym same) (a, k)
  visit_candidates-Complete s (id ∷ ids) r t e a k = elim (Option-cases (file s id)) [
    | inl n ↦ ground (arith, e, n)
    | inr (fm, f) ↦
        let next = visit-Complete fm.path r a k in
        visit_candidates-Complete s ids (visit env lit path_match fm.path r) t
          (ground (arith, e, f)) next.0 next.1
  ]

  visit_shards-Complete :
      (parts : List Part) (r t : Found)
      → visit_shards env lit path_match parts r ≡ some t
      → All (IsCurrent env lit) r.out
      → Complete r.seen r.out
      → All (IsCurrent env lit) t.out × Complete t.seen t.out
  unfolding visit_shards
  visit_shards-Complete [] r t e a k = let same : r ≡ t = ground (arith, e) in rw (sym same) (a, k)
  visit_shards-Complete (p ∷ parts) r t e a k = elim (Bool-cases p.mapped) [
    | inr m ↦ visit_shards-Complete parts r t (ground (arith, e, m)) a k
    | inl m ↦ elim (Option-cases (candidates p.shard (env.to_lower lit))) [
      | inl n ↦ ground (arith, e, m, n)
      | inr (ids, f) ↦ elim (Option-cases (visit_candidates env lit path_match p.shard ids r)) [
        | inl n ↦ ground (arith, e, m, f, n)
        | inr (r', g) ↦
            let next = visit_candidates-Complete p.shard ids r r' g a k in
            visit_shards-Complete parts r' t (ground (arith, e, m, f, g)) next.0 next.1
      ]
    ]
  ]

  abbrev step_out : List Bytes → Bytes → DirtyEntry → List FileContent → List FileContent
  step_out seen p e out =
      if e.deleted || listed p seen || is_filtered path_match p
      then out
      else take_file lit p (env.read_file p) out

  visit_dirty-IsCurrent :
      (seen : List Bytes) (dirty : Dirty) (out : List FileContent)
      → All (IsCurrent env lit) out
      → All (IsCurrent env lit) (visit_dirty env lit path_match seen dirty out)
  unfolding visit_dirty
  visit_dirty-IsCurrent seen [] out a = a
  visit_dirty-IsCurrent seen ((p, e) ∷ dirty) out a =
      visit_dirty-IsCurrent seen dirty (step_out seen p e out)
        (if_both (All (IsCurrent env lit)) _ out _ a (take_file-IsCurrent p out a))

  visit_dirty-Lists :
      (seen : List Bytes) (dirty : Dirty) (out : List FileContent) (c : FileContent)
      → Lists out c
      → Lists (visit_dirty env lit path_match seen dirty out) c
  unfolding visit_dirty
  visit_dirty-Lists seen [] out c h = h
  visit_dirty-Lists seen ((p, e) ∷ dirty) out c h =
      visit_dirty-Lists seen dirty (step_out seen p e out) c (
        if_both (λ (l : List FileContent). Lists l c) _ out _ h
          (take_file-Lists p (env.read_file p) out c h))

  visit_dirty-Complete :
      (seen : List Bytes) (dirty : Dirty) (out : List FileContent) (c : FileContent)
      (e : DirtyEntry)
      → get c.path dirty ≡ some e
      → e.deleted ≡ false
      → listed c.path seen ≡ false
      → is_filtered path_match c.path ≡ false
      → IsCurrent env lit c
      → Lists (visit_dirty env lit path_match seen dirty out) c
  unfolding visit_dirty get
  visit_dirty-Complete seen [] out c e h d n m k = ground (arith, h)
  visit_dirty-Complete seen ((p, x) ∷ dirty) out c e h d n m k =
      elim (Bool-cases (bytes_eq p c.path)) [
        | inl s ↦
            let same = (bytes_eq_iff p c.path).0 s in
            let entry : x ≡ e = ground (arith, h, s) in
            let passes : (x.deleted || listed p seen || is_filtered path_match p) ≡ false = ground (
              arith,
              ap (λ (y : DirtyEntry). y.deleted) entry,
              d,
              ap (λ (q : Bytes). listed q seen) same,
              n,
              ap (is_filtered path_match) same,
              m,
            ) in
            visit_dirty-Lists seen dirty (step_out seen p x out) c (rw passes (taken p c out s k))
        | inr s ↦
            visit_dirty-Complete seen dirty (step_out seen p x out) c e (ground (arith, h, s)) d n m
              k
      ]

  -- FilesContaining of the disk engine answers by the disk, however old the shards are: every file that it returns
  -- has the content that it has on disk, and contains the literal; and every file on the dirty list that is
  -- not deleted, passes the filter and contains the literal on disk is returned.
  pub files_containing-IsCurrent :
      (parts : List Part) (dirty : Dirty) (out : List FileContent)
      → files_containing env lit path_match parts dirty ≡ some out
      → All (IsCurrent env lit) out
        × ((c : FileContent) (e : DirtyEntry)
            → get c.path dirty ≡ some e
            → e.deleted ≡ false
            → is_filtered path_match c.path ≡ false
            → IsCurrent env lit c
            → Lists out c)
  unfolding files_containing
  files_containing-IsCurrent parts dirty out h =
      elim (Option-cases (visit_shards env lit path_match parts (record { seen = []; out = [] }))) [
        | inl n ↦ ground (arith, h, n)
        | inr (r, f) ↦
            let (a, k) =
              visit_shards-Complete parts (record { seen = []; out = [] }) r f tt
                (λ c l i. listed-nil c.path l) in
            let same : visit_dirty env lit path_match r.seen dirty r.out ≡ out =
              ground (arith, h, f) in
            rw (sym same) (
              visit_dirty-IsCurrent r.seen dirty r.out a,
              λ c e g d m i. elim (Bool-cases (listed c.path r.seen)) [
                | inl s ↦ visit_dirty-Lists r.seen dirty r.out c (k c s i)
                | inr s ↦ visit_dirty-Complete r.seen dirty r.out c e g d s m i
              ],
            )
      ]
