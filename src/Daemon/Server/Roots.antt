-- ===== src/Daemon/Server/Roots.antt =====
-- internal/daemon/server.go: no root lies inside another.
use gcgrep.Base.{
  ◌≡◌, ◌⊎◌, ◌∙◌, append_assoc, refl, sym, inl, inr, arith, Bool-cases, Bool, true, false, ◌&&◌, not,
  Option, none, some, List, [], ◌∷◌, ◌++◌, All, Bytes, codes, ltb, if_both, length,
}
use gcgrep.Go.Bytes.{has_prefix}
use gcgrep.Go.Map.{bytes_eq_iff}
use gcgrep.Daemon.Server.{
  StoreKey, Answer, is_covering, same_bool, find_covering, nested, store_new, store,
}

-- The path is the root, or the root with a slash and more behind it. Below the root "/" these are only the
-- paths that begin with two slashes.
abbrev pub LiesIn : Bytes → Bytes → Type 0
LiesIn path root = (path ≡ root) ⊎ ((rest : Bytes) × (path ≡ root ++ (codes "/" ++ rest)))

-- Of two stores of one kind, neither has its root in the root of the other.
abbrev pub Apart : StoreKey → StoreKey → Type 0
Apart k j = j.follow ≡ k.follow → ¬ LiesIn k.root j.root × ¬ LiesIn j.root k.root

abbrev pub AllApart : List StoreKey → Type 0
AllApart [] = Unit
AllApart (k ∷ ks) = All (Apart k) ks × AllApart ks

has_prefix-append : (s t : Bytes) → has_prefix (s ++ t) s ≡ true
unfolding has_prefix
has_prefix-append [] t = refl
has_prefix-append (c ∷ s) t = ground (arith, has_prefix-append s t)

below_slash :
    (root rest path : Bytes)
    → path ≡ root ++ (codes "/" ++ rest)
    → has_prefix path (root ++ codes "/") ≡ true
below_slash root rest path e =
    rw (e ∙ sym (append_assoc root (codes "/") rest)) (has_prefix-append (root ++ codes "/") rest)

LiesIn-is_covering : (path root : Bytes) → LiesIn path root → is_covering root path ≡ true
unfolding is_covering
LiesIn-is_covering path root (inl e) =
    let same = (bytes_eq_iff path root).1 e in ground (arith, same)
LiesIn-is_covering path root (inr (rest, e)) =
    let inside = below_slash root rest path e in ground (arith, inside)

same_bool_lem : (a b : Bool) → a ≡ b → same_bool a b ≡ true
unfolding same_bool
same_bool_lem true b e = ground (arith, e)
same_bool_lem false b e = ground (arith, e)

not_covered :
    (k : StoreKey) (ks : List StoreKey)
    → find_covering k.root k.follow ks ≡ none
    → nested k.root k.follow ks ≡ []
    → All (Apart k) ks
unfolding find_covering nested
not_covered k [] e n = tt
not_covered k (j ∷ ks) e n = (first, not_covered k ks (ground (arith, e)) (ground (arith, n)))
  where
    first : Apart k j
    first s =
        let kind = same_bool_lem j.follow k.follow s in
        let uncovered : is_covering j.root k.root ≡ false = ground (arith, e, kind) in
        let outside : has_prefix j.root (k.root ++ codes "/") ≡ false = ground (arith, n, kind) in
        (
          (λ inside.
              let covered = LiesIn-is_covering k.root j.root inside in
              ground (arith, covered, uncovered)),
          (λ inside. elim inside [
            | inl same ↦
                let covered = LiesIn-is_covering k.root j.root (inl (sym same)) in
                ground (arith, covered, uncovered)
            | inr (rest, below) ↦
                let covered = below_slash k.root rest j.root below in
                ground (arith, covered, outside)
          ]),
        )

none_nested : (l : List Bytes) → (true && ltb 0 (length l)) ≡ false → l ≡ []
none_nested [] h = refl
none_nested (r ∷ rs) h = ground (arith, h)

store_new-AllApart :
    (made : Bool) (path : Bytes) (follow : Bool) (keys : List StoreKey)
    → find_covering path follow keys ≡ none
    → AllApart keys
    → AllApart (store_new made false path follow keys).1
unfolding store_new
store_new-AllApart made path follow keys e a =
    let key : StoreKey = record { root = path; follow = follow } in
    elim (Bool-cases (not false && ltb 0 (length (nested path follow keys)))) [
      | inl h ↦ rw h a
      | inr h ↦ rw h (
          if_both (λ (r : Answer × List StoreKey). AllApart r.1) made
            (Answer.created key, key ∷ keys) (Answer.failed, keys)
            (not_covered key keys e (none_nested (nested path follow keys) h), a) a)
    ]

-- Server.store keeps the roots apart, when it is not told to allow nested ones: of two stores that both follow
-- links, or both do not, neither has a root that is the other's root, or that is the other's root with a slash and
-- more behind it. For the root "/" that speaks only of paths that begin with two slashes.
pub store-AllApart :
    (made : Bool) (path : Bytes) (follow : Bool) (keys : List StoreKey)
    → AllApart keys
    → AllApart (store made false path follow keys).1
unfolding store
store-AllApart made path follow keys a = found (find_covering path follow keys) refl
  where
    found :
        (o : Option StoreKey)
        → find_covering path follow keys ≡ o
        → (let r : Answer × List StoreKey = elim o [
          | some k ↦ (Answer.reused k, keys)
          | none ↦ store_new made false path follow keys
        ] in
            AllApart r.1)
    found (some k) e = a
    found none e = store_new-AllApart made path follow keys e a
