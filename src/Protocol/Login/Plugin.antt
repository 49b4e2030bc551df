-- ===== src/Protocol/Login/Plugin.antt =====
-- login.rs: Login Plugin Request and Response, whose payload is the rest of the body.
use rustbound_server.Prelude.{ℕ, [], ◌∷◌, ◌++◌, if◌then◌else◌}
use rustbound_server.Prelude.Int.{ℤ, pos}
use rustbound_server.Prelude.Buffer.{Action, ◌>>=◌, ◌>>◌, done, write, with_body}
use rustbound_server.Protocol.Primitives.VarInt.{encode_var_int}
use rustbound_server.Protocol.Login.{
  LoginError, LoginPluginRequest, LoginPluginResponse, LoginPacket, LoginDecodeOutcome,
  login_plugin_request, login_plugin_response, decode_packet, send_packet, string_field,
  write_string, var_int_field, flag_byte, remaining_bytes,
}

abbrev pub login_plugin_request_packet_id : ℤ
login_plugin_request_packet_id = pos 4

abbrev pub login_plugin_response_packet_id : ℤ
login_plugin_response_packet_id = pos 2

abbrev pub max_channel_identifier_length : ℕ
max_channel_identifier_length = 32767

unfoldable pub login_plugin_request_body : LoginPluginRequest → Action LoginError (Unit {0})
login_plugin_request_body packet = do
  write (encode_var_int packet.message_id)
  write_string packet.channel max_channel_identifier_length
  write (λ body. body ++ packet.payload)

unfoldable pub encode_login_plugin_request : LoginPluginRequest → ℕ → Action LoginError (Unit {0})
unfolding login_plugin_request_body
encode_login_plugin_request packet max_frame_length =
    with_body (login_plugin_request_body packet)
      (send_packet login_plugin_request_packet_id max_frame_length)

unfoldable pub login_plugin_request_fields : Action LoginError LoginPacket
login_plugin_request_fields = do
  message_id ← var_int_field
  channel ← string_field max_channel_identifier_length
  payload ← remaining_bytes
  done (
      login_plugin_request
        (record { message_id = message_id; channel = channel; payload = payload }))

unfoldable pub decode_login_plugin_request : ℕ → Action LoginError LoginDecodeOutcome
unfolding login_plugin_request_fields
decode_login_plugin_request =
    decode_packet login_plugin_request_packet_id login_plugin_request_fields

unfoldable pub login_plugin_response_body : LoginPluginResponse → Action LoginError (Unit {0})
login_plugin_response_body packet = do
  write (encode_var_int packet.message_id)
  write (λ body. body ++ ((if packet.understood then 1 else 0) ∷ []))
  write (λ body. body ++ packet.payload)

unfoldable pub encode_login_plugin_response : LoginPluginResponse → ℕ → Action LoginError (Unit {0})
unfolding login_plugin_response_body
encode_login_plugin_response packet max_frame_length =
    with_body (login_plugin_response_body packet)
      (send_packet login_plugin_response_packet_id max_frame_length)

unfoldable pub login_plugin_response_fields : Action LoginError LoginPacket
unfolding flag_byte
login_plugin_response_fields = do
  message_id ← var_int_field
  understood ← flag_byte
  payload ← remaining_bytes
  done (
      login_plugin_response
        (record { message_id = message_id; understood = understood; payload = payload }))

unfoldable pub decode_login_plugin_response : ℕ → Action LoginError LoginDecodeOutcome
unfolding login_plugin_response_fields
decode_login_plugin_response =
    decode_packet login_plugin_response_packet_id login_plugin_response_fields
