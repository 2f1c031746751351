-- ===== src/Core.antt =====
-- crates/hackline-core/src: the byte bridge between a TCP stream and the network.
pub mod Pipe
pub mod Bridge
