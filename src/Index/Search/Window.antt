-- ===== src/Index/Search/Window.antt =====
-- The window of TruncateWindow.
use gcgrep.Base.{ℕ, ◌+◌, ◌≤◌, ◌<◌, ◌≡◌, arith}
use gcgrep.Index.Search.{window}

-- For a line longer than a positive limit and a match that begins inside the line, the window lies
-- in the line, is as long as the limit, and holds the offset at which the match begins.
pub window_bounds :
    (len off cols : ℕ)
    → 0 < cols
    → cols < len
    → off < len
    → ((window len off cols).1 ≡ (window len off cols).0 + cols)
      × ((window len off cols).1 ≤ len)
      × ((window len off cols).0 ≤ off)
      × (off < (window len off cols).1)
unfolding window
window_bounds len off cols h k m = ground arith
