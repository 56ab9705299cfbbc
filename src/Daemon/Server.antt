-- ===== src/Daemon/Server.antt =====
-- internal/daemon/server.go: which paths a request asks for, and the map of roots.
-- filepath.Match is an argument; the globs of a request have been tried before, so it gives no error here.
pub mod Hidden
pub mod Roots
use gcgrep.Base.{
  ℕ, zero, suc, ◌+◌, ◌-◌, Bool, true, false, ◌&&◌, ◌||◌, not, Option, none, some, List, [], ◌∷◌,
  ◌++◌, Bytes, codes, ltb, ◌==◌, if◌then◌else◌, length, take, drop,
}
use gcgrep.Go.Bytes.{has_prefix, index_byte}
use gcgrep.Go.Map.{bytes_eq}
use gcgrep.Ignore.{has_suffix}
use gcgrep.Daemon.RootStore.{base_name}

-- The loop of hiddenPath. Each turn takes a byte at least, so the length is enough fuel.
unfoldable pub hidden_loop : ℕ → Bytes → Bool
unfolding index_byte
hidden_loop zero rel = false
hidden_loop (suc fuel) [] = false
hidden_loop (suc fuel) (c ∷ s) = c == b'.' || elim (index_byte (c ∷ s) b'/') [
  | none ↦ false
  | some i ↦ hidden_loop fuel (drop (suc i) (c ∷ s))
]

-- hiddenPath
unfoldable pub hidden_path : Bytes → Bool
unfolding hidden_loop
hidden_path rel = hidden_loop (length rel) rel

-- What a request says about the paths.
pub record Request : Type 0 where
  pub globs : List Bytes
  pub exclude : List Bytes
  pub include : List Bytes
  pub hidden : Bool
  pub gitignore : Bool

-- TrimPrefix
unfoldable pub strip : Bytes → Bytes → Bytes
unfolding has_prefix
strip sub_prefix p = if has_prefix p sub_prefix then drop (length sub_prefix) p else p

module _ (glob : Bytes → Bytes → Bool) where
  -- The function of globMatcher.
  unfoldable pub any_glob : List Bytes → Bytes → Bool
  unfolding base_name
  any_glob [] p = false
  any_glob (g ∷ gs) p = glob g p || (glob g (base_name p) || any_glob gs p)

  -- globMatchAny
  unfoldable pub glob_match_any : List Bytes → Bytes → Bool
  unfolding base_name has_prefix has_suffix
  glob_match_any [] p = false
  glob_match_any (g ∷ gs) p =
      glob g p
      || (glob g (base_name p)
          || (has_suffix g (codes "/*") && has_prefix p (take (length g - 1) g)
              || glob_match_any gs p))

  -- The function of excludeIncludeMatcher; with no globs at all it is true, as the missing function stands for.
  unfoldable pub exclude_include : List Bytes → List Bytes → Bytes → Bool
  unfolding glob_match_any
  exclude_include exclude include p =
      if ltb 0 (length include) && glob_match_any include p
      then true
      else not (ltb 0 (length exclude) && glob_match_any exclude p)

  -- reqOK of handleSearch, true where there is no function.
  unfoldable pub request_ok : Request → Bytes → Bool
  unfolding any_glob exclude_include hidden_path
  request_ok req p =
      (req.hidden || not (hidden_path p))
      && (exclude_include req.exclude req.include p
          && (length req.globs == 0 || any_glob req.globs p))

  -- PathMatch of handleSearch, below the prefix of a subtree. `tree_ignored` is GitignoreTree.Ignored.
  unfoldable pub path_match : (Bytes → Bool) → Bytes → Request → Bytes → Bool
  unfolding request_ok strip glob_match_any
  path_match tree_ignored sub_prefix req p =
      if req.gitignore && tree_ignored p && not (glob_match_any req.include (strip sub_prefix p))
      then false
      else has_prefix p sub_prefix && request_ok req (strip sub_prefix p)

-- storeKey
pub record StoreKey : Type 0 where
  pub root : Bytes
  pub follow : Bool

-- The test of store on one key: the path is the root, or begins with the root and a separator. '/' stands for
-- filepath.Separator.
unfoldable pub is_covering : Bytes → Bytes → Bool
unfolding has_prefix
is_covering root path = bytes_eq path root || has_prefix path (root ++ codes "/")

unfoldable pub same_bool : Bool → Bool → Bool
same_bool true b = b
same_bool false b = not b

-- The first loop of Server.store: a store that covers the path.
unfoldable pub find_covering : Bytes → Bool → List StoreKey → Option StoreKey
unfolding is_covering same_bool
find_covering path follow [] = none
find_covering path follow (k ∷ ks) =
    if same_bool k.follow follow && is_covering k.root path
    then some k
    else find_covering path follow ks

-- The second loop: the roots inside the path.
unfoldable pub nested : Bytes → Bool → List StoreKey → List Bytes
unfolding has_prefix same_bool
nested path follow [] = []
nested path follow (k ∷ ks) =
    let rest = nested path follow ks in
    if same_bool k.follow follow && has_prefix k.root (path ++ codes "/")
    then k.root ∷ rest
    else rest

-- What Server.store answers: a store is found, refused, or made. `made` is whether newRootStore
-- gives a store.
pub data Answer : Type 0 where
  reused : StoreKey → Answer
  refused : List Bytes → Answer
  failed : Answer
  created : StoreKey → Answer

unfoldable pub store_new : Bool → Bool → Bytes → Bool → List StoreKey → Answer × List StoreKey
unfolding nested
store_new made allow_nested path follow keys =
    if not allow_nested && ltb 0 (length (nested path follow keys))
    then (Answer.refused (nested path follow keys), keys)
    else if made
    then (
      Answer.created (record { root = path; follow = follow }),
      record { root = path; follow = follow } ∷ keys,
    )
    else (Answer.failed, keys)

-- Server.store
unfoldable pub store : Bool → Bool → Bytes → Bool → List StoreKey → Answer × List StoreKey
unfolding find_covering store_new
store made allow_nested path follow keys = elim (find_covering path follow keys) [
  | some k ↦ (Answer.reused k, keys)
  | none ↦ store_new made allow_nested path follow keys
]

-- The change of the map in handleForget: the first store of the root goes.
unfoldable pub forget : Bytes → List StoreKey → List StoreKey
forget root [] = []
forget root (k ∷ ks) = let rest = forget root ks in if bytes_eq k.root root then ks else k ∷ rest
