-- ===== src/Protocol/Login.antt =====
-- crates/rustbound-protocol/src/login.rs: the packets of the Login state, and what its decoders
-- share: one frame, one packet id, the fields, and nothing behind them. The children model the
-- packets, their round trips and the login state machine.
pub mod Start
pub mod Encryption
pub mod Success
pub mod Plugin
pub mod RoundTrip
pub mod Machine
use rustbound_server.Prelude.{
  ℕ, List, [], ◌∷◌, length, if◌then◌else◌, Bool, true, false, Option, ◌==◌,
}
use rustbound_server.Prelude.Int.{ℤ, eqb_ℤ}
use rustbound_server.Prelude.Buffer.{Outcome, Action, ok, err, map_err, Result, success, failure}
use rustbound_server.Protocol.Primitives.{CodecError, incomplete_input, invalid_boolean}
use rustbound_server.Protocol.Primitives.VarInt.{decode_var_int}
use rustbound_server.Protocol.Primitives.Fixed.{Uuid}
use rustbound_server.Protocol.Primitives.Text.{decode_string, encode_string}
use rustbound_server.Protocol.Framing.{
  PacketFrame, DecodeOutcome, FramingError, length_codec, packet_id_codec, encode_frame,
  decode_frame,
}
use rustbound_server.Protocol.State.{ProtocolState}

pub data LoginError : Type 0 where
  framing : FramingError → LoginError
  codec : CodecError → LoginError
  wrong_packet_id : ℤ → ℤ → LoginError
  trailing_bytes : ℕ → LoginError
  wrong_state : ProtocolState → LoginError
  incomplete : LoginError

-- `From<FramingError>` and `From<CodecError>`.
unfoldable pub from_framing : FramingError → LoginError
from_framing (length_codec incomplete_input) = LoginError.incomplete
from_framing (packet_id_codec incomplete_input) = LoginError.incomplete
from_framing other = framing other

unfoldable pub from_codec : CodecError → LoginError
from_codec incomplete_input = LoginError.incomplete
from_codec other = codec other

pub record LoginStart : Type 0 where
  pub username : List ℕ
  pub uuid : Uuid

pub record LoginDisconnect : Type 0 where
  pub reason : List ℕ

pub record EncryptionRequest : Type 0 where
  pub server_id : List ℕ
  pub public_key : List ℕ
  pub verify_token : List ℕ

pub record EncryptionResponse : Type 0 where
  pub shared_secret : List ℕ
  pub verify_token : List ℕ

pub record Property : Type 0 where
  pub name : List ℕ
  pub value : List ℕ
  pub signature : Option (List ℕ)

pub record LoginSuccess : Type 0 where
  pub uuid : Uuid
  pub username : List ℕ
  pub properties : List Property

pub record LoginPluginRequest : Type 0 where
  pub message_id : ℤ
  pub channel : List ℕ
  pub payload : List ℕ

pub record LoginPluginResponse : Type 0 where
  pub message_id : ℤ
  pub understood : Bool
  pub payload : List ℕ

pub data LoginPacket : Type 0 where
  login_start : LoginStart → LoginPacket
  login_disconnect : LoginDisconnect → LoginPacket
  encryption_request : EncryptionRequest → LoginPacket
  encryption_response : EncryptionResponse → LoginPacket
  login_success : LoginSuccess → LoginPacket
  login_plugin_request : LoginPluginRequest → LoginPacket
  login_plugin_response : LoginPluginResponse → LoginPacket

pub data LoginDecodeOutcome : Type 0 where
  complete : LoginPacket → LoginDecodeOutcome
  incomplete : LoginDecodeOutcome

unfoldable pub ensure_login_state : ProtocolState → Result LoginError (Unit {0})
ensure_login_state ProtocolState.login = success tt
ensure_login_state other = failure (wrong_state other)

-- `if !body.is_empty()`: whatever fails, the input is put back.
unfoldable pub accept :
    List ℕ → List ℕ → Outcome LoginError LoginPacket → Outcome LoginError LoginDecodeOutcome
accept source rest (ok packet []) = ok (LoginDecodeOutcome.complete packet) rest
accept source rest (ok packet (b ∷ bs)) = err (trailing_bytes (length (b ∷ bs))) source
accept source rest (err e _) = err e source

-- A decoder behind `decode_frame`, for the packet id and the fields of one packet.
unfoldable pub decode_framed :
    ℤ
    → Action LoginError LoginPacket
    → List ℕ
    → Outcome FramingError DecodeOutcome
    → Outcome LoginError LoginDecodeOutcome
unfolding accept
decode_framed expected fields source (err e _) = err (from_framing e) source
decode_framed expected fields source (ok DecodeOutcome.incomplete _) =
    ok LoginDecodeOutcome.incomplete source
decode_framed expected fields source (ok (DecodeOutcome.complete frame) rest) =
    if eqb_ℤ frame.packet_id expected
    then accept source rest (fields frame.payload)
    else err (wrong_packet_id frame.packet_id expected) source

unfoldable pub decode_packet :
    ℤ → Action LoginError LoginPacket → ℕ → Action LoginError LoginDecodeOutcome
decode_packet expected fields max_frame_length source =
    decode_framed expected fields source (decode_frame max_frame_length source)

-- The frame around an encoded body.
abbrev pub send_packet : ℤ → ℕ → List ℕ → Action LoginError (Unit {0})
send_packet id max_frame_length body = map_err from_framing (encode_frame id body max_frame_length)

-- A flag byte, `body.to_vec()` of what is left, and the codecs under the Login error.
unfoldable pub flag_byte : Action LoginError Bool
flag_byte [] = err LoginError.incomplete []
flag_byte (byte ∷ rest) =
    if byte == 0
    then ok false rest
    else if byte == 1
    then ok true rest
    else err (codec invalid_boolean) (byte ∷ rest)

abbrev pub remaining_bytes : Action LoginError (List ℕ)
remaining_bytes body = ok body []

abbrev pub string_field : ℕ → Action LoginError (List ℕ)
string_field max_utf16_units = map_err from_codec (decode_string max_utf16_units)

abbrev pub write_string : List ℕ → ℕ → Action LoginError (Unit {0})
write_string value max_utf16_units = map_err from_codec (encode_string value max_utf16_units)

abbrev pub var_int_field : Action LoginError ℤ
var_int_field = map_err from_codec decode_var_int
