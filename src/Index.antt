-- ===== src/Index.antt =====
-- internal/index: the in-memory trigram index, its matchers and its literal search.
pub mod Literal
pub mod Query
pub mod Matcher
pub mod Postings
pub mod Store
pub mod Search
pub mod Lookup
use gcgrep.Base.{ℕ, ◌+◌, ◌&&◌, leb, if◌then◌else◌}

-- lower of index.go (and of shard.go, which is the same text).
unfoldable pub lower : ℕ → ℕ
lower b = if leb b'A' b && leb b b'Z' then b + 32 else b
