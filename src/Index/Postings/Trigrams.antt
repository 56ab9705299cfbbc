-- ===== src/Index/Postings/Trigrams.antt =====
-- Which trigrams a text has, and what posting them under an id does to each list.
use gcgrep.Base.{
  ℕ, ◌≡◌, ◌⊎◌, ◌↔◌, refl, inl, inr, true, false, List, [], ◌∷◌, ◌++◌, map, Bytes, ◌==◌,
  if◌then◌else◌, arith, Bool-cases,
}
use gcgrep.Go.Bytes.{has_prefix}
use gcgrep.Go.Map.{Map, put, get-put, nat_key}
use gcgrep.Index.{lower}
use gcgrep.Index.Postings.{trigram, member, see, trigrams_of, trigram_keys, ids_of, post_keys}
use gcgrep.Index.Postings.Intersect.{Holds}

-- k is the trigram of three neighbouring bytes.
abbrev pub HasTrigram : Bytes → ℕ → Type 0
HasTrigram [] k = ⊥
HasTrigram (a ∷ []) k = ⊥
HasTrigram (a ∷ b ∷ []) k = ⊥
HasTrigram (a ∷ b ∷ c ∷ s) k = (k ≡ trigram a b c) ⊎ HasTrigram (b ∷ c ∷ s) k

pub member→Holds : (s : List ℕ) (k : ℕ) → member k s ≡ true → Holds s k
unfolding member
member→Holds [] k h = cc
member→Holds (j ∷ s) k h = ground (arith, member→Holds s k)

pub Holds→member : (s : List ℕ) (k : ℕ) → Holds s k → member k s ≡ true
unfolding member
Holds→member [] k h = absurd h
Holds→member (j ∷ s) k (inl e) = ground arith
Holds→member (j ∷ s) k (inr m) = ground (arith, Holds→member s k m)

see-Holds : (j : ℕ) (seen : List ℕ) (k : ℕ) → Holds (see j seen) k → (k ≡ j) ⊎ Holds seen k
unfolding see
see-Holds j seen k h = ground arith

Holds-see_self : (j : ℕ) (seen : List ℕ) → Holds (see j seen) j
unfolding see
Holds-see_self j seen = elim (Bool-cases (member j seen)) [
  | inl e ↦ ground (arith, member→Holds seen j e)
  | inr e ↦ ground arith
]

Holds-see : (j : ℕ) (seen : List ℕ) (k : ℕ) → Holds seen k → Holds (see j seen) k
unfolding see
Holds-see j seen k h = ground arith

trigrams_of-seen : (s : Bytes) (seen : List ℕ) (k : ℕ) → Holds seen k → Holds (trigrams_of s seen) k
unfolding trigrams_of
trigrams_of-seen [] seen k h = h
trigrams_of-seen (a ∷ []) seen k h = h
trigrams_of-seen (a ∷ b ∷ []) seen k h = h
trigrams_of-seen (a ∷ b ∷ c ∷ s) seen k h =
    trigrams_of-seen (b ∷ c ∷ s) (see (trigram a b c) seen) k (Holds-see (trigram a b c) seen k h)

trigrams_of-HasTrigram :
    (s : Bytes) (seen : List ℕ) (k : ℕ) → HasTrigram s k → Holds (trigrams_of s seen) k
unfolding trigrams_of
trigrams_of-HasTrigram [] seen k h = absurd h
trigrams_of-HasTrigram (a ∷ []) seen k h = absurd h
trigrams_of-HasTrigram (a ∷ b ∷ []) seen k h = absurd h
trigrams_of-HasTrigram (a ∷ b ∷ c ∷ s) seen k (inl e) =
    trigrams_of-seen (b ∷ c ∷ s) (see (trigram a b c) seen) k
      (rw e (Holds-see_self (trigram a b c) seen))
trigrams_of-HasTrigram (a ∷ b ∷ c ∷ s) seen k (inr h) =
    trigrams_of-HasTrigram (b ∷ c ∷ s) (see (trigram a b c) seen) k h

trigrams_of-only :
    (s : Bytes) (seen : List ℕ) (k : ℕ)
    → Holds (trigrams_of s seen) k
    → HasTrigram s k ⊎ Holds seen k
unfolding trigrams_of
trigrams_of-only [] seen k h = inr h
trigrams_of-only (a ∷ []) seen k h = inr h
trigrams_of-only (a ∷ b ∷ []) seen k h = inr h
trigrams_of-only (a ∷ b ∷ c ∷ s) seen k h =
    split (trigrams_of-only (b ∷ c ∷ s) (see (trigram a b c) seen) k h)
  where
    seen_or : (k ≡ trigram a b c) ⊎ Holds seen k → HasTrigram (a ∷ b ∷ c ∷ s) k ⊎ Holds seen k
    seen_or (inl e) = inl (inl e)
    seen_or (inr m) = inr m

    split :
        HasTrigram (b ∷ c ∷ s) k ⊎ Holds (see (trigram a b c) seen) k
        → HasTrigram (a ∷ b ∷ c ∷ s) k ⊎ Holds seen k
    split (inl t) = inl (inr t)
    split (inr m) = seen_or (see-Holds (trigram a b c) seen k m)

-- TrigramKeys returns exactly the trigrams of the text.
pub trigram_keys_iff : (s : Bytes) (k : ℕ) → Holds (trigram_keys s) k ↔ HasTrigram s k
unfolding trigram_keys
trigram_keys_iff s k = (λ h. only (trigrams_of-only s [] k h), trigrams_of-HasTrigram s [] k)
  where
    only : HasTrigram s k ⊎ ⊥ → HasTrigram s k
    only (inl t) = t
    only (inr e) = absurd e

-- No key stands twice.
abbrev pub Distinct : List ℕ → Type 0
Distinct [] = Unit {0}
Distinct (k ∷ ks) = (member k ks ≡ false) × Distinct ks

see-Distinct : (j : ℕ) (seen : List ℕ) → Distinct seen → Distinct (see j seen)
unfolding see
see-Distinct j seen h = ground arith

trigrams_of-Distinct : (s : Bytes) (seen : List ℕ) → Distinct seen → Distinct (trigrams_of s seen)
unfolding trigrams_of
trigrams_of-Distinct [] seen h = h
trigrams_of-Distinct (a ∷ []) seen h = h
trigrams_of-Distinct (a ∷ b ∷ []) seen h = h
trigrams_of-Distinct (a ∷ b ∷ c ∷ s) seen h =
    trigrams_of-Distinct (b ∷ c ∷ s) (see (trigram a b c) seen)
      (see-Distinct (trigram a b c) seen h)

pub trigram_keys-Distinct : (s : Bytes) → Distinct (trigram_keys s)
unfolding trigram_keys
trigram_keys-Distinct s = trigrams_of-Distinct s [] tt

ids_of-put :
    (tri : Map ℕ (List ℕ)) (j k : ℕ) (ids : List ℕ)
    → ids_of (put j ids tri) k ≡ (if j == k then ids else ids_of tri k)
unfolding ids_of
ids_of-put tri j k ids = ground (arith, get-put j k ids tri)

-- Posting an id under distinct keys appends it once to the list of each key, and to no other.
pub ids_of-post_keys :
    (tri : Map ℕ (List ℕ)) (ks : List ℕ) (id k : ℕ)
    → Distinct ks
    → ids_of (post_keys tri ks id) k
      ≡ (if member k ks then ids_of tri k ++ id ∷ [] else ids_of tri k)
unfolding post_keys member
ids_of-post_keys tri [] id k d = refl
ids_of-post_keys tri (j ∷ ks) id k d = ground (
  arith,
  ids_of-post_keys (put j (ids_of tri j ++ id ∷ []) tri) ks id k d.1,
  ids_of-put tri j k (ids_of tri j ++ id ∷ []),
)

lower-lower : (b : ℕ) → lower (lower b) ≡ lower b
unfolding lower
lower-lower b = ground arith

pub prefix-HasTrigram :
    (s lit : Bytes) (k : ℕ)
    → has_prefix (map lower s) (map lower lit) ≡ true
    → HasTrigram (map lower lit) k
    → HasTrigram s k
unfolding has_prefix trigram
prefix-HasTrigram s [] k h t = absurd t
prefix-HasTrigram s (x ∷ []) k h t = absurd t
prefix-HasTrigram s (x ∷ y ∷ []) k h t = absurd t
prefix-HasTrigram [] (x ∷ y ∷ z ∷ lit) k h t = cc
prefix-HasTrigram (a ∷ []) (x ∷ y ∷ z ∷ lit) k h t = ground arith
prefix-HasTrigram (a ∷ b ∷ []) (x ∷ y ∷ z ∷ lit) k h t = ground arith
prefix-HasTrigram (a ∷ b ∷ c ∷ s) (x ∷ y ∷ z ∷ lit) k h (inl e) =
    inl (ground (arith, lower-lower a, lower-lower b, lower-lower c))
prefix-HasTrigram (a ∷ b ∷ c ∷ s) (x ∷ y ∷ z ∷ lit) k h (inr t) =
    inr (prefix-HasTrigram (b ∷ c ∷ s) (y ∷ z ∷ lit) k (ground arith) t)
