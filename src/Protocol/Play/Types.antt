-- ===== src/Protocol/Play/Types.antt =====
-- play.rs: the packet types, by subject, and their sum.
pub mod Enums
pub mod Player
pub mod World
pub mod Entity
pub mod Window
pub mod Packet
unfoldable pub use Enums.*
pub use Player.*
pub use World.*
pub use Entity.*
pub use Window.*
pub use Packet.*
