-- ===== src/Protocol/Play.antt =====
-- crates/rustbound-protocol/src/play.rs: the packets of the Play state. The children model the
-- packet types, the codecs by subject, their round trips, and the NBT reader behind item slots.
pub mod Types
pub mod Frame
pub mod Codec
pub mod RoundTrip
pub mod Nbt
pub mod Refusals
pub mod Machine
use rustbound_server.Prelude.{ℕ}
use rustbound_server.Prelude.Int.{ℤ}
use rustbound_server.Prelude.Buffer.{Result, success, failure}
use rustbound_server.Protocol.Primitives.{CodecError, incomplete_input}
use rustbound_server.Protocol.Framing.{FramingError, length_codec, packet_id_codec}
use rustbound_server.Protocol.Compression.{CompressionError}
use rustbound_server.Protocol.State.{ProtocolState}

pub data PlayError : Type 0 where
  framing : FramingError → PlayError
  codec : CodecError → PlayError
  compression : CompressionError → PlayError
  wrong_packet_id : ℤ → ℤ → PlayError
  trailing_bytes : ℕ → PlayError
  wrong_state : ProtocolState → PlayError
  incomplete : PlayError

-- `From<FramingError>`, `From<CodecError>` and `From<CompressionError>`.
unfoldable pub from_framing : FramingError → PlayError
from_framing (length_codec incomplete_input) = PlayError.incomplete
from_framing (packet_id_codec incomplete_input) = PlayError.incomplete
from_framing other = framing other

unfoldable pub from_codec : CodecError → PlayError
from_codec incomplete_input = PlayError.incomplete
from_codec other = codec other

unfoldable pub from_compression : CompressionError → PlayError
from_compression CompressionError.incomplete = PlayError.incomplete
from_compression other = compression other

unfoldable pub ensure_play_state : ProtocolState → Result PlayError (Unit {0})
ensure_play_state ProtocolState.play = success tt
ensure_play_state other = failure (wrong_state other)
