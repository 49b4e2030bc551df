-- ===== src/Protocol/Play/Codec.antt =====
-- play.rs: the codecs of the packets, by subject.
pub mod Movement
pub mod Player
pub mod World
pub mod Block
pub mod Entity
pub mod Session
pub mod Window
pub mod Registry
pub mod Peers
pub mod PlayerInfo
pub mod Slots
pub mod Containers
pub mod Join
pub mod Chunk
