-- ===== src/Protocol/Login/Start.antt =====
-- login.rs: Login Start and Login Disconnect, and the choice between them by direction.
use rustbound_server.Prelude.{ℕ, Bool, true, false}
use rustbound_server.Prelude.Int.{ℤ, pos}
use rustbound_server.Prelude.Buffer.{Action, ◌>>=◌, ◌>>◌, done, write, map_err, with_body}
use rustbound_server.Protocol.Primitives.Fixed.{
  Uuid, encode_bool, decode_bool, encode_uuid, decode_uuid,
}
use rustbound_server.Protocol.Primitives.Text.{max_username_length, max_chat_component_length}
use rustbound_server.Protocol.Login.{
  LoginError, LoginStart, LoginDisconnect, LoginPacket, LoginDecodeOutcome, login_start,
  login_disconnect, from_codec, decode_packet, send_packet, string_field, write_string,
}

abbrev pub login_start_packet_id : ℤ
login_start_packet_id = pos 0

abbrev pub login_disconnect_packet_id : ℤ
login_disconnect_packet_id = pos 0

unfoldable pub login_start_body : LoginStart → Action LoginError (Unit {0})
login_start_body packet = do
  write_string packet.username max_username_length
  write (encode_bool true)
  write (encode_uuid packet.uuid)

unfoldable pub encode_login_start : LoginStart → ℕ → Action LoginError (Unit {0})
unfolding login_start_body
encode_login_start packet max_frame_length =
    with_body (login_start_body packet) (send_packet login_start_packet_id max_frame_length)

abbrev pub nil_uuid : Uuid
nil_uuid = record { most_significant = pos 0; least_significant = pos 0 }

unfoldable pub optional_uuid : Bool → Action LoginError Uuid
optional_uuid true = map_err from_codec decode_uuid
optional_uuid false = done nil_uuid

unfoldable pub login_start_fields : Action LoginError LoginPacket
unfolding optional_uuid
login_start_fields = do
  username ← string_field max_username_length
  has_uuid ← map_err from_codec decode_bool
  uuid ← optional_uuid has_uuid
  done (login_start (record { username = username; uuid = uuid }))

unfoldable pub decode_login_start : ℕ → Action LoginError LoginDecodeOutcome
unfolding login_start_fields
decode_login_start = decode_packet login_start_packet_id login_start_fields

unfoldable pub encode_login_disconnect : LoginDisconnect → ℕ → Action LoginError (Unit {0})
encode_login_disconnect packet max_frame_length =
    with_body (write_string packet.reason max_chat_component_length)
      (send_packet login_disconnect_packet_id max_frame_length)

unfoldable pub login_disconnect_fields : Action LoginError LoginPacket
login_disconnect_fields = do
  reason ← string_field max_chat_component_length
  done (login_disconnect (record { reason = reason }))

unfoldable pub decode_login_disconnect : ℕ → Action LoginError LoginDecodeOutcome
unfolding login_disconnect_fields
decode_login_disconnect = decode_packet login_disconnect_packet_id login_disconnect_fields

pub data LoginDirection : Type 0 where
  serverbound clientbound : LoginDirection

unfoldable pub decode_login_packet : LoginDirection → ℕ → Action LoginError LoginDecodeOutcome
decode_login_packet serverbound = decode_login_start
decode_login_packet clientbound = decode_login_disconnect
