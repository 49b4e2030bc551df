-- ===== src/Protocol/Status.antt =====
-- crates/rustbound-protocol/src/status.rs: the status and ping exchange. The JSON library is a
-- parameter.
pub mod RoundTrip
use rustbound_server.Prelude.{
  ℕ, List, [], ◌∷◌, length, if◌then◌else◌, Bool, true, false, Option, none, some,
}
use rustbound_server.Prelude.Int.{ℤ, pos, eqb_ℤ}
use rustbound_server.Prelude.Buffer.{
  Outcome, Action, ok, err, map_err, Result, success, failure, with_body,
}
use rustbound_server.Protocol.Primitives.{CodecError, incomplete_input, string_too_long}
use rustbound_server.Protocol.Primitives.Fixed.{encode_i64, decode_i64}
use rustbound_server.Protocol.Primitives.Text.{encode_string, decode_string}
use rustbound_server.Protocol.Framing.{
  PacketFrame, DecodeOutcome, FramingError, encode_frame, decode_frame,
}
use rustbound_server.Protocol.State.{ProtocolState}

abbrev pub status_packet_id : ℤ
status_packet_id = pos 0

abbrev pub ping_packet_id : ℤ
ping_packet_id = pos 1

abbrev pub max_status_json_utf16_units : ℕ
max_status_json_utf16_units = 32767

pub data StatusError : Type 0 where
  codec : CodecError → StatusError
  payload_not_empty : ℕ → StatusError
  wrong_packet_id : ℤ → ℤ → StatusError
  json_too_long : StatusError
  json_serialization : List ℕ → StatusError
  incomplete : StatusError

unfoldable pub from_codec : CodecError → StatusError
from_codec incomplete_input = StatusError.incomplete
from_codec other = StatusError.codec other

unfoldable pub json_error : CodecError → StatusError
unfolding from_codec
json_error string_too_long = json_too_long
json_error other = from_codec other

pub record StatusVersion : Type 0 where
  pub name : List ℕ
  pub protocol : ℤ

pub record PlayerSampleEntry : Type 0 where
  pub name : List ℕ
  pub id : List ℕ

pub record StatusPlayers : Type 0 where
  pub max : ℤ
  pub online : ℤ
  pub sample : Option (List PlayerSampleEntry)

pub record StatusDescription : Type 0 where
  pub text : List ℕ

pub record StatusResponse : Type 0 where
  pub version : StatusVersion
  pub players : StatusPlayers
  pub description : StatusDescription
  pub favicon : Option (List ℕ)

-- What the source uses of serde_json: both directions, each with its error message.
pub record Json : Type 0 where
  pub to_string : StatusResponse → Result (List ℕ) (List ℕ)
  pub from_str : List ℕ → Result (List ℕ) StatusResponse

-- A decoder behind `decode_frame`: every framing error is `Incomplete`, and a body that does not
-- parse puts the input back.
module _ {A : Type 0} where
  unfoldable pub restore : List ℕ → List ℕ → Result StatusError A → Outcome StatusError (Option A)
  restore source rest (success value) = ok (some value) rest
  restore source rest (failure e) = err e source

  unfoldable pub decode_framed :
      (PacketFrame → Result StatusError A)
      → List ℕ
      → Outcome FramingError DecodeOutcome
      → Outcome StatusError (Option A)
  unfolding restore
  decode_framed parse source (err e rest) = err StatusError.incomplete rest
  decode_framed parse source (ok DecodeOutcome.incomplete _) = ok none source
  decode_framed parse source (ok (DecodeOutcome.complete frame) rest) =
      restore source rest (parse frame)

unfoldable pub validate_status_request_frame : PacketFrame → Result StatusError (Unit {0})
validate_status_request_frame frame =
    if eqb_ℤ frame.packet_id status_packet_id
    then elim frame.payload [
      | [] ↦ success tt
      | b ∷ bs ↦ failure (payload_not_empty (length (b ∷ bs)))
    ]
    else failure (wrong_packet_id frame.packet_id status_packet_id)

unfoldable pub decode_status_request : ℕ → Action StatusError (Option (Unit {0}))
decode_status_request max_frame_length source =
    decode_framed validate_status_request_frame source (decode_frame max_frame_length source)

abbrev pub send_packet : ℤ → ℕ → List ℕ → Action StatusError (Unit {0})
send_packet id max_frame_length body =
    map_err (λ e. StatusError.incomplete) (encode_frame id body max_frame_length)

module _ (json : Json) where
  unfoldable pub encode_status_response : StatusResponse → ℕ → Action StatusError (Unit {0})
  encode_status_response response max_frame_length output = elim (json.to_string response) [
    | failure message ↦ err (json_serialization message) output
    | success text ↦
        with_body (map_err json_error (encode_string text max_status_json_utf16_units))
          (send_packet status_packet_id max_frame_length) output
  ]

  unfoldable pub parse_json : Outcome StatusError (List ℕ) → Result StatusError StatusResponse
  parse_json (err e _) = failure e
  parse_json (ok text _) = elim (json.from_str text) [
    | success response ↦ success response
    | failure message ↦ failure (json_serialization message)
  ]

  unfoldable pub parse_status_response_body : PacketFrame → Result StatusError StatusResponse
  unfolding parse_json
  parse_status_response_body frame =
      if eqb_ℤ frame.packet_id status_packet_id
      then parse_json (map_err json_error (decode_string max_status_json_utf16_units) frame.payload)
      else failure (wrong_packet_id frame.packet_id status_packet_id)

  unfoldable pub decode_status_response : ℕ → Action StatusError (Option StatusResponse)
  decode_status_response max_frame_length source =
      decode_framed parse_status_response_body source (decode_frame max_frame_length source)

unfoldable pub ping_value : Outcome StatusError ℤ → Result StatusError ℤ
ping_value (err e _) = failure e
ping_value (ok value []) = success value
ping_value (ok value (b ∷ bs)) = failure (payload_not_empty (length (b ∷ bs)))

unfoldable pub parse_ping_body : PacketFrame → Result StatusError ℤ
unfolding ping_value
parse_ping_body frame =
    if eqb_ℤ frame.packet_id ping_packet_id
    then ping_value (map_err from_codec decode_i64 frame.payload)
    else failure (wrong_packet_id frame.packet_id ping_packet_id)

unfoldable pub decode_ping_request : ℕ → Action StatusError (Option ℤ)
decode_ping_request max_frame_length source =
    decode_framed parse_ping_body source (decode_frame max_frame_length source)

unfoldable pub encode_pong_response : ℤ → ℕ → Action StatusError (Unit {0})
encode_pong_response payload max_frame_length =
    send_packet ping_packet_id max_frame_length (encode_i64 payload [])

pub data StatusStateError : Type 0 where
  wrong_state : ProtocolState → ProtocolState → StatusStateError
  connection_closed : StatusStateError

unfoldable pub ensure_status_state : ProtocolState → Result StatusStateError (Unit {0})
ensure_status_state ProtocolState.status = success tt
ensure_status_state ProtocolState.closed = failure connection_closed
ensure_status_state other = failure (wrong_state other ProtocolState.status)
