-- ===== src/Go.antt =====
-- What the program uses of Go's standard library, written out over lists of bytes.
pub mod Bytes
pub mod Map
