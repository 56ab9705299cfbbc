-- ===== src/Tests/Requests.antt =====
-- The properties of internal/daemon/server.go at concrete inputs.
use gcgrep.Base.{◌≡◌, true, false, [], ◌∷◌, codes}
use gcgrep.Ignore.{split}
use gcgrep.Daemon.Server.{StoreKey, hidden_path, store}
use gcgrep.Daemon.Server.Hidden.{any_dotted, hidden_path-split}
use gcgrep.Daemon.Server.Roots.{AllApart, store-AllApart}

hidden_path-split_example : hidden_path (codes "a/.b/c") ≡ any_dotted (split (codes "a/.b/c"))
hidden_path-split_example = hidden_path-split (codes "a/.b/c")

abbrev key_a : StoreKey
key_a = record { root = codes "/a"; follow = false }

store-AllApart_example : AllApart (store true false (codes "/b") false (key_a ∷ [])).1
store-AllApart_example = store-AllApart true (codes "/b") false (key_a ∷ []) (tt, tt)
