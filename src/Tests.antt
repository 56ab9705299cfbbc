-- ===== src/Tests.antt =====
-- The properties at concrete inputs.
mod Text
mod Store
mod Files
mod Shards
mod Daemon
mod Engine
mod Patterns
mod Requests
