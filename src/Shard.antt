-- ===== src/Shard.antt =====
-- internal/shard: the immutable index files, how they are built, written, read and mapped.
pub mod Varint
pub mod Build
pub mod File
pub mod Query
pub mod Symbols
pub mod Deltas
pub mod Mapping
pub mod Batches
pub mod Engine
