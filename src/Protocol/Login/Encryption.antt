-- ===== src/Protocol/Login/Encryption.antt =====
-- login.rs: Encryption Request and Encryption Response.
use rustbound_server.Prelude.{ℕ, List}
use rustbound_server.Prelude.Int.{ℤ, pos}
use rustbound_server.Prelude.Buffer.{Action, ◌>>=◌, ◌>>◌, done, map_err, with_body}
use rustbound_server.Protocol.Primitives.Text.{
  encode_byte_array, decode_byte_array, max_server_id_length, max_public_key_length,
  max_verify_token_length,
}
use rustbound_server.Protocol.Login.{
  LoginError, EncryptionRequest, EncryptionResponse, LoginPacket, LoginDecodeOutcome,
  encryption_request, encryption_response, from_codec, decode_packet, send_packet, string_field,
  write_string,
}

abbrev pub encryption_request_packet_id : ℤ
encryption_request_packet_id = pos 1

abbrev pub encryption_response_packet_id : ℤ
encryption_response_packet_id = pos 1

abbrev pub write_array : List ℕ → ℕ → Action LoginError (Unit {0})
write_array value max_length = map_err from_codec (encode_byte_array value max_length)

abbrev pub array_field : ℕ → Action LoginError (List ℕ)
array_field max_length = map_err from_codec (decode_byte_array max_length)

unfoldable pub encryption_request_body : EncryptionRequest → Action LoginError (Unit {0})
encryption_request_body packet = do
  write_string packet.server_id max_server_id_length
  write_array packet.public_key max_public_key_length
  write_array packet.verify_token max_verify_token_length

unfoldable pub encode_encryption_request : EncryptionRequest → ℕ → Action LoginError (Unit {0})
unfolding encryption_request_body
encode_encryption_request packet max_frame_length =
    with_body (encryption_request_body packet)
      (send_packet encryption_request_packet_id max_frame_length)

unfoldable pub encryption_request_fields : Action LoginError LoginPacket
encryption_request_fields = do
  server_id ← string_field max_server_id_length
  public_key ← array_field max_public_key_length
  verify_token ← array_field max_verify_token_length
  done (
      encryption_request
        (record { server_id = server_id; public_key = public_key; verify_token = verify_token }))

unfoldable pub decode_encryption_request : ℕ → Action LoginError LoginDecodeOutcome
unfolding encryption_request_fields
decode_encryption_request = decode_packet encryption_request_packet_id encryption_request_fields

unfoldable pub encryption_response_body : EncryptionResponse → Action LoginError (Unit {0})
encryption_response_body packet = do
  write_array packet.shared_secret max_public_key_length
  write_array packet.verify_token max_verify_token_length

unfoldable pub encode_encryption_response : EncryptionResponse → ℕ → Action LoginError (Unit {0})
unfolding encryption_response_body
encode_encryption_response packet max_frame_length =
    with_body (encryption_response_body packet)
      (send_packet encryption_response_packet_id max_frame_length)

unfoldable pub encryption_response_fields : Action LoginError LoginPacket
encryption_response_fields = do
  shared_secret ← array_field max_public_key_length
  verify_token ← array_field max_verify_token_length
  done (encryption_response (record { shared_secret = shared_secret; verify_token = verify_token }))

unfoldable pub decode_encryption_response : ℕ → Action LoginError LoginDecodeOutcome
unfolding encryption_response_fields
decode_encryption_response = decode_packet encryption_response_packet_id encryption_response_fields
