-- ===== src/Protocol.antt =====
-- crates/rustbound-protocol: the wire codecs and the per-state machines of protocol 763.
pub mod Primitives
pub mod Framing
pub mod State
pub mod Handshake
pub mod Status
pub mod Login
pub mod Compression
pub mod Play
mod Tests
