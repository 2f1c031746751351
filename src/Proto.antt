-- ===== src/Proto.antt =====
-- crates/hackline-proto/src: the wire types and the key expressions.
pub mod Zid
pub mod Uuid
pub mod Keyexpr
pub mod Level
pub mod AckResult
pub mod Msg
