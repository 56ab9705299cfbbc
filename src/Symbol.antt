-- ===== src/Symbol.antt =====
-- internal/symbol/symbol.go: kinds, definitions and the language of a path.
-- The children model the blanking of comments and strings, line numbers and references.
pub mod Strip
pub mod Lines
pub mod Refs
pub mod Java
use gcgrep.Base.{ℕ, Bool, ◌||◌, ◌&&◌, leb, ◌==◌, Bytes}

-- isIdentByte
unfoldable pub is_ident_byte : ℕ → Bool
is_ident_byte c =
    c == b'_'
    || (leb b'a' c && leb c b'z')
    || (leb b'A' c && leb c b'Z')
    || (leb b'0' c && leb c b'9')

-- Def; a kind is its text.
pub record Def : Type 0 where
  pub name : Bytes
  pub kind : Bytes
  pub container : Bytes
  pub line : ℕ
