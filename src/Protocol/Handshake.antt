-- ===== src/Protocol/Handshake.antt =====
-- crates/rustbound-protocol/src/handshake.rs: the one packet of the Handshaking state.
pub mod RoundTrip
use rustbound_server.Prelude.{ℕ, List, [], ◌∷◌, length, if◌then◌else◌, none, some}
use rustbound_server.Prelude.Int.{ℤ, pos, eqb_ℤ}
use rustbound_server.Prelude.Buffer.{
  Outcome, Action, ok, err, Result, success, failure, ◌>>=◌, ◌>>◌, done, fail, write, map_err,
  with_body,
}
use rustbound_server.Protocol.Primitives.{CodecError, incomplete_input, string_too_long}
use rustbound_server.Protocol.Primitives.VarInt.{encode_var_int, decode_var_int}
use rustbound_server.Protocol.Primitives.Fixed.{encode_u16, decode_u16}
use rustbound_server.Protocol.Primitives.Text.{encode_string, decode_string}
use rustbound_server.Protocol.Framing.{
  PacketFrame, DecodeOutcome, FramingError, encode_frame, decode_frame,
}
use rustbound_server.Protocol.State.{NextState, wire_value, from_wire}

abbrev pub max_server_address_utf16_units : ℕ
max_server_address_utf16_units = 255

abbrev pub handshake_packet_id : ℤ
handshake_packet_id = pos 0

pub record HandshakePacket : Type 0 where
  pub protocol_version : ℤ
  pub server_address : List ℕ
  pub port : ℕ
  pub next_state : NextState

pub data HandshakeError : Type 0 where
  wrong_packet_id : ℤ → HandshakeError
  codec : CodecError → HandshakeError
  address_too_long : HandshakeError
  invalid_next_state : ℤ → HandshakeError
  trailing_bytes : ℕ → HandshakeError
  incomplete : HandshakeError

-- `From<CodecError>`.
unfoldable pub from_codec : CodecError → HandshakeError
from_codec incomplete_input = HandshakeError.incomplete
from_codec other = codec other

unfoldable pub address_error : CodecError → HandshakeError
unfolding from_codec
address_error string_too_long = address_too_long
address_error other = from_codec other

next_state_field : ℤ → Action HandshakeError NextState
next_state_field raw = elim (from_wire raw) [
  | some next ↦ done next
  | none ↦ fail (invalid_next_state raw)
]

-- The four fields of the body, in order.
unfoldable pub handshake_fields : Action HandshakeError HandshakePacket
unfolding next_state_field
handshake_fields = do
  version ← map_err from_codec decode_var_int
  address ← map_err address_error (decode_string max_server_address_utf16_units)
  port ← map_err from_codec decode_u16
  raw ← map_err from_codec decode_var_int
  next ← next_state_field raw
  done (record {
    protocol_version = version;
    server_address = address;
    port = port;
    next_state = next;
  })

-- Nothing may follow the fields.
unfoldable pub whole_body :
    Outcome HandshakeError HandshakePacket → Result HandshakeError HandshakePacket
whole_body (ok packet []) = success packet
whole_body (ok packet (b ∷ bs)) = failure (trailing_bytes (length (b ∷ bs)))
whole_body (err e rest) = failure e

unfoldable pub parse_handshake_body : PacketFrame → Result HandshakeError HandshakePacket
unfolding whole_body
parse_handshake_body frame =
    if eqb_ℤ frame.packet_id handshake_packet_id
    then whole_body (handshake_fields frame.payload)
    else failure (wrong_packet_id frame.packet_id)

-- Every framing error becomes `Incomplete`.
unfoldable pub decode_framed :
    List ℕ → Outcome FramingError DecodeOutcome → Outcome HandshakeError HandshakePacket
decode_framed source (err e rest) = err HandshakeError.incomplete rest
decode_framed source (ok DecodeOutcome.incomplete rest) = err HandshakeError.incomplete source
decode_framed source (ok (DecodeOutcome.complete frame) rest) = elim (parse_handshake_body frame) [
  | success packet ↦ ok packet rest
  | failure e ↦ err e source
]

unfoldable pub decode_handshake : ℕ → Action HandshakeError HandshakePacket
decode_handshake max_frame_length source =
    decode_framed source (decode_frame max_frame_length source)

-- The body that `encode_handshake` puts in a frame.
unfoldable pub handshake_body : HandshakePacket → Action HandshakeError (Unit {0})
handshake_body packet = do
  write (encode_var_int packet.protocol_version)
  map_err address_error (encode_string packet.server_address max_server_address_utf16_units)
  write (encode_u16 packet.port)
  write (encode_var_int (wire_value packet.next_state))

abbrev pub send_handshake : ℕ → List ℕ → Action HandshakeError (Unit {0})
send_handshake max_frame_length body =
    map_err (λ e. HandshakeError.incomplete)
      (encode_frame handshake_packet_id body max_frame_length)

unfoldable pub encode_handshake : HandshakePacket → ℕ → Action HandshakeError (Unit {0})
unfolding handshake_body
encode_handshake packet max_frame_length =
    with_body (handshake_body packet) (send_handshake max_frame_length)
