-- ===== src/Index/Store/Tables.antt =====
-- The path table and the posting lists agree with the file list, and each change keeps that.
use gcgrep.Base.{
  ℕ, zero, suc, ◌+◌, ◌<◌, ◌≡◌, ◌≢◌, refl, ap, sym, ◌∙◌, false, Option, none, some, List, [], ◌∷◌,
  ◌++◌, append_assoc, append-nil, Bytes, if◌then◌else◌, if_both, length, length-append, All, arith,
  inl, inr,
}
use gcgrep.Go.Map.{Map, get, put, delete, get-put, get-delete, bytes_eq, nat_key, bytes_key}
use gcgrep.Index.Postings.{trigram_keys, post_keys, ids_of, member}
use gcgrep.Index.Postings.Intersect.{Holds, IsIncreasing}
use gcgrep.Index.Postings.Trigrams.{
  HasTrigram, trigram_keys_iff, trigram_keys-Distinct, ids_of-post_keys, Holds→member,
}
use gcgrep.Index.Store.{FileEntry, kill, rebuild}
use gcgrep.Index.Store.Live.{
  live_index, Free, Unique, live_index-kill, kill-Unique, length-kill, live_index-snoc, snoc-Unique,
}

-- Every live entry is in the posting list of each trigram of its content.
abbrev pub Posted : Map ℕ (List ℕ) → ℕ → List FileEntry → Type 0
Posted tri id [] = Unit {0}
Posted tri id (f ∷ fs) =
    (f.dead ≡ false → (k : ℕ) → HasTrigram f.content k → Holds (ids_of tri k) id)
    × Posted tri (suc id) fs

pub record Indexed (files : List FileEntry) (by_path : Map Bytes ℕ) (tri : Map ℕ (List ℕ))
    : Type 0 where
  pub paths : (p : Bytes) → get p by_path ≡ live_index p files
  pub unique : Unique files
  pub posted : Posted tri 0 files
  pub sorted : (k : ℕ) → IsIncreasing (ids_of tri k)
  pub bounded : (k : ℕ) → All (λ i. i < length files) (ids_of tri k)

pub Indexed-nil : Indexed [] [] []
unfolding get live_index ids_of
Indexed-nil = record {
  paths = λ p. refl;
  unique = tt;
  posted = tt;
  sorted = λ k. tt;
  bounded = λ k. tt;
}

Posted-kill :
    (tri : Map ℕ (List ℕ)) (n id : ℕ) (fs : List FileEntry)
    → Posted tri n fs
    → Posted tri n (kill id fs)
unfolding kill
Posted-kill tri n id [] h = tt
Posted-kill tri n zero (f ∷ fs) h = (λ d. cc, h.1)
Posted-kill tri n (suc id) (f ∷ fs) h = (h.0, Posted-kill tri (suc n) id fs h.1)

pub kill-Indexed :
    {fs : List FileEntry} {m : Map Bytes ℕ} {tri : Map ℕ (List ℕ)} (p : Bytes) (id : ℕ)
    → Indexed fs m tri
    → get p m ≡ some id
    → Indexed (kill id fs) (delete p m) tri
kill-Indexed {fs} {m} {tri} p id ix e = record {
  paths = λ q.
      get-delete p q m
      ∙ ap (λ (o : Option ℕ). if bytes_eq p q then none else o) (ix.paths q)
      ∙ sym (live_index-kill p q fs id ix.unique (sym (ix.paths p) ∙ e));
  unique = kill-Unique fs id ix.unique;
  posted = Posted-kill tri 0 id fs ix.posted;
  sorted = ix.sorted;
  bounded = λ k. rw (length-kill fs id) (ix.bounded k);
}

-- Appending a larger id.
snoc-IsIncreasing :
    (a : List ℕ) (n : ℕ) → IsIncreasing a → All (λ i. i < n) a → IsIncreasing (a ++ n ∷ [])
snoc-IsIncreasing [] n p b = (tt, tt)
snoc-IsIncreasing (x ∷ a) n p b = (above a p.0, snoc-IsIncreasing a n p.1 b.1)
  where
    above : (a : List ℕ) → All (λ y. x < y) a → All (λ y. x < y) (a ++ n ∷ [])
    above [] h = (b.0, tt)
    above (y ∷ a) h = (h.0, above a h.1)

snoc-bounded : (a : List ℕ) (n : ℕ) → All (λ i. i < n) a → All (λ i. i < suc n) (a ++ n ∷ [])
snoc-bounded [] n b = (omega arith, tt)
snoc-bounded (x ∷ a) n b = (omega arith, snoc-bounded a n b.1)

weaken : (a : List ℕ) (n : ℕ) → All (λ i. i < n) a → All (λ i. i < suc n) a
weaken [] n b = tt
weaken (x ∷ a) n b = (omega arith, weaken a n b.1)

Holds-snoc : (a : List ℕ) (i n : ℕ) → Holds a i → Holds (a ++ n ∷ []) i
Holds-snoc [] i n h = absurd h
Holds-snoc (x ∷ a) i n (inl e) = inl e
Holds-snoc (x ∷ a) i n (inr h) = inr (Holds-snoc a i n h)

Holds-snoc_self : (a : List ℕ) (n : ℕ) → Holds (a ++ n ∷ []) n
Holds-snoc_self [] n = inl refl
Holds-snoc_self (x ∷ a) n = inr (Holds-snoc_self a n)

module _ (tri : Map ℕ (List ℕ)) (content : Bytes) (n : ℕ) where
  -- Posting a content's trigrams under n.
  abbrev posted_tri : Map ℕ (List ℕ)
  posted_tri = post_keys tri (trigram_keys content) n

  ids_of-posted :
      (k : ℕ)
      → ids_of posted_tri k
        ≡ (if member k (trigram_keys content) then ids_of tri k ++ n ∷ [] else ids_of tri k)
  ids_of-posted k = ids_of-post_keys tri (trigram_keys content) n k (trigram_keys-Distinct content)

  posted-old : (k i : ℕ) → Holds (ids_of tri k) i → Holds (ids_of posted_tri k) i
  posted-old k i h = rw (ids_of-posted k) (
      if_both (λ a. Holds a i) (member k (trigram_keys content)) _ _
        (Holds-snoc (ids_of tri k) i n h) h)

  posted-new : (k : ℕ) → HasTrigram content k → Holds (ids_of posted_tri k) n
  posted-new k h =
      rw (ids_of-posted k, Holds→member (trigram_keys content) k ((trigram_keys_iff content k).1 h))
        (Holds-snoc_self (ids_of tri k) n)

  Posted-old : (id : ℕ) (fs : List FileEntry) → Posted tri id fs → Posted posted_tri id fs
  Posted-old id [] h = tt
  Posted-old id (f ∷ fs) h = (λ d k t. posted-old k id (h.0 d k t), Posted-old (suc id) fs h.1)

Posted-snoc :
    (tri : Map ℕ (List ℕ)) (id n : ℕ) (fs : List FileEntry) (f : FileEntry)
    → Posted tri id fs
    → n ≡ id + length fs
    → ((k : ℕ) → HasTrigram f.content k → Holds (ids_of tri k) n)
    → Posted tri id (fs ++ f ∷ [])
Posted-snoc tri id n [] f h e p = (λ d k t. let e' : n ≡ id = omega arith in rw (← e') (p k t), tt)
Posted-snoc tri id n (g ∷ fs) f h e p = (h.0, Posted-snoc tri (suc id) n fs f h.1 (omega arith) p)

-- A new live entry, at the end of the list.
pub snoc-Indexed :
    {fs : List FileEntry} {m : Map Bytes ℕ} {tri : Map ℕ (List ℕ)} (f : FileEntry)
    → Indexed fs m tri
    → f.dead ≡ false
    → Free f.meta.path fs
    → Indexed
        (fs ++ f ∷ [])
        (put f.meta.path (length fs) m)
        (post_keys tri (trigram_keys f.content) (length fs))
snoc-Indexed {fs} {m} {tri} f ix d h =
    let n = length fs in
    let len : length (fs ++ f ∷ []) ≡ suc n = omega (arith, length-append {0} fs (f ∷ [])) in
    record {
      paths = λ q.
          get-put f.meta.path q n m
          ∙ ap (λ (o : Option ℕ). if bytes_eq f.meta.path q then some n else o) (ix.paths q)
          ∙ sym (live_index-snoc q fs f d h);
      unique = snoc-Unique fs f ix.unique h;
      posted =
          Posted-snoc _ 0 n fs f (Posted-old tri f.content n 0 fs ix.posted) (omega arith)
            (posted-new tri f.content n);
      sorted = λ k. rw (ids_of-posted tri f.content n k) (
          if_both IsIncreasing (member k (trigram_keys f.content)) _ _
            (snoc-IsIncreasing (ids_of tri k) n (ix.sorted k) (ix.bounded k)) (ix.sorted k));
      bounded = λ k.
          rw (len, ids_of-posted tri f.content n k)
            (if_both (All (λ i. i < suc n)) (member k (trigram_keys f.content)) _ _
              (snoc-bounded (ids_of tri k) n (ix.bounded k))
              (weaken (ids_of tri k) n (ix.bounded k)));
    }

Free-here :
    (p : Bytes) (done : List FileEntry) (f : FileEntry) (todo : List FileEntry)
    → f.dead ≡ false
    → Free p (done ++ f ∷ todo)
    → f.meta.path ≢ p
Free-here p [] f todo d h = h.0 d
Free-here p (g ∷ done) f todo d h = Free-here p done f todo d h.1

Unique-Free :
    (done : List FileEntry) (f : FileEntry) (todo : List FileEntry)
    → f.dead ≡ false
    → Unique (done ++ f ∷ todo)
    → Free f.meta.path done
Unique-Free [] f todo d u = tt
Unique-Free (g ∷ done) f todo d u =
    (λ e q. Free-here g.meta.path done f todo d (u.0 e) (sym q), Unique-Free done f todo d u.1)

-- The loop that builds both tables anew over live entries with different paths.
pub rebuild-Indexed :
    (todo done : List FileEntry) (n : ℕ) (m : Map Bytes ℕ) (tri : Map ℕ (List ℕ))
    → n ≡ length done
    → Indexed done m tri
    → All (λ f. f.dead ≡ false) todo
    → Unique (done ++ todo)
    → Indexed (done ++ todo) (rebuild todo n m tri).0 (rebuild todo n m tri).1
unfolding rebuild
rebuild-Indexed [] done n m tri e ix a u = rw (append-nil done) ix
rebuild-Indexed (f ∷ todo) done n m tri e ix a u =
    let step = snoc-Indexed f ix a.0 (Unique-Free done f todo a.0 u) in
    let joined = append_assoc done (f ∷ []) todo in
    rw (← joined) (
      rebuild-Indexed todo (done ++ f ∷ []) (suc n) (put f.meta.path n m)
        (post_keys tri (trigram_keys f.content) n) (omega (arith, length-append {0} done (f ∷ [])))
        (rw e step) a.1 (rw joined u))
