-- ===== src/Tests/Patterns.antt =====
-- The properties of internal/ignore at concrete inputs.
use gcgrep.Base.{◌≡◌, codes}
use gcgrep.Ignore.{is_git, split}
use gcgrep.Ignore.Git.{any_named, is_git-split}

is_git-split_example :
    is_git (codes "a/.git/config") ≡ any_named (codes ".git") (split (codes "a/.git/config"))
is_git-split_example = is_git-split (codes "a/.git/config")
