-- ===== src/Protocol/Tests/Login.antt =====
-- The login packets and the login machine, at concrete packets.
use rustbound_server.Prelude.{
  ℕ, ◌≡◌, refl, arith, List, [], ◌∷◌, ◌++◌, dec_lt, some, none, true, false,
}
use rustbound_server.Prelude.Order.{lt_wf}
use rustbound_server.Prelude.Buffer.{ok, success, failure, split_front}
use rustbound_server.Prelude.Int.{pos, negsuc}
use rustbound_server.Prelude.Words.{as_unsigned, as_signed, to_be_bytes}
use rustbound_server.Protocol.Primitives.VarInt.{
  encode_var_int, encode_groups, decode_var_int, decode_groups, signed_result,
}
use rustbound_server.Protocol.Primitives.Fixed.{
  Uuid, encode_uuid, encode_i64, encode_bool, decode_bool, decode_uuid, decode_uuid_low, decode_i64,
  signed_word, decode_be,
}
use rustbound_server.Protocol.Primitives.Fixed.RoundTrip.{IsUuid}
use rustbound_server.Protocol.Primitives.Text.{
  is_utf8, utf8_from, utf8_step, utf16_units, encode_string, encode_byte_array, decode_string,
  decode_string_after_length, decode_payload, decode_byte_array, decode_array_after_length,
}
use rustbound_server.Protocol.Framing.{
  encode_frame, var_int_length, validated_frame_length, decode_frame, decode_after_length,
  decode_body,
}
use rustbound_server.Protocol.State.{ProtocolState}
use rustbound_server.Protocol.Login.{
  LoginStart, LoginSuccess, Property, EncryptionRequest, EncryptionResponse, LoginDecodeOutcome,
  login_start, login_success, encryption_request, encryption_response, from_framing, from_codec,
  accept, decode_packet,
}
use rustbound_server.Protocol.Login.Start.{
  login_start_body, encode_login_start, decode_login_start, login_start_fields, optional_uuid,
}
use rustbound_server.Protocol.Login.Encryption.{
  encryption_request_body, encode_encryption_request, encryption_response_body,
  encode_encryption_response, decode_encryption_response, encryption_response_fields,
}
use rustbound_server.Protocol.Login.Success.{
  write_signature, write_property, write_properties, write_count, login_success_body,
  encode_login_success, decode_login_success,
}
use rustbound_server.Protocol.Login.RoundTrip.Start.{IsLoginStart}
use rustbound_server.Protocol.Login.RoundTrip.Success.{
  IsLoginSuccess, decode_login_success-encode_login_success,
}
use rustbound_server.Protocol.Login.Machine.{
  LoginConfig, LoginStateMachine, awaiting_login_start, login_complete, disconnected, new,
  handle_login_start, succeed, run, call, terminal, start_bytes, response_bytes, close, after_start,
  accept_start, request_encryption, complete_login, after_response, handle_encryption_response,
}
use rustbound_server.Protocol.Login.Machine.Invariant.{
  Inv, run-Inv, run_terminal, online_needs_response, Answered,
}
use rustbound_server.Protocol.Login.Machine.Flow.{offline_success, offline_login}

abbrev name : List ℕ
name = 0x41 ∷ 0x6c ∷ []

name_is_utf8 : is_utf8 name ≡ true
unfolding is_utf8 utf8_from utf8_step
name_is_utf8 = refl

abbrev id : Uuid
id = record { most_significant = pos 258; least_significant = negsuc 0 }

id-IsUuid : IsUuid id
id-IsUuid = record { most = omega arith; least = omega arith }

abbrev start : LoginStart
start = record { username = name; uuid = id }

abbrev start_wire : List ℕ
start_wire =
    21 ∷ 0 ∷ 2 ∷ 0x41 ∷ 0x6c ∷ 1 ∷ 0 ∷ 0 ∷ 0 ∷ 0 ∷ 0 ∷ 0 ∷ 1 ∷ 2 ∷ 0xff ∷ 0xff ∷ 0xff ∷ 0xff ∷ 0xff
    ∷ 0xff ∷ 0xff ∷ 0xff ∷ []

start_written : encode_login_start start 64 [] ≡ ok tt start_wire
unfolding encode_login_start login_start_body encode_frame encode_var_int encode_groups as_unsigned
    lt_wf dec_lt var_int_length validated_frame_length encode_string utf16_units encode_bool
    encode_uuid encode_i64 to_be_bytes from_framing from_codec
start_written = refl

start-IsLoginStart : IsLoginStart start
start-IsLoginStart = record { username = name_is_utf8; uuid = id-IsUuid }

abbrev request : EncryptionRequest
request = record { server_id = []; public_key = 1 ∷ 2 ∷ []; verify_token = 3 ∷ [] }

request_written :
    encode_encryption_request request 64 [] ≡ ok tt (7 ∷ 1 ∷ 0 ∷ 2 ∷ 1 ∷ 2 ∷ 1 ∷ 3 ∷ [])
unfolding encode_encryption_request encryption_request_body encode_frame encode_var_int
    encode_groups as_unsigned lt_wf dec_lt var_int_length validated_frame_length encode_string
    utf16_units encode_byte_array from_framing from_codec
request_written = refl

no_name_is_utf8 : is_utf8 [] ≡ true
unfolding is_utf8 utf8_from
no_name_is_utf8 = refl

abbrev response : EncryptionResponse
response = record { shared_secret = 4 ∷ []; verify_token = 5 ∷ 6 ∷ [] }

response_written :
    encode_encryption_response response 64 [] ≡ ok tt (6 ∷ 1 ∷ 1 ∷ 4 ∷ 2 ∷ 5 ∷ 6 ∷ [])
unfolding encode_encryption_response encryption_response_body encode_frame encode_var_int
    encode_groups as_unsigned lt_wf dec_lt var_int_length validated_frame_length encode_byte_array
    from_framing from_codec
response_written = refl

abbrev skin : Property
skin = record { name = name; value = []; signature = some name }

abbrev welcome : LoginSuccess
welcome = record { uuid = id; username = name; properties = skin ∷ [] }

abbrev welcome_wire : List ℕ
welcome_wire =
    29 ∷ 2 ∷ 0 ∷ 0 ∷ 0 ∷ 0 ∷ 0 ∷ 0 ∷ 1 ∷ 2 ∷ 0xff ∷ 0xff ∷ 0xff ∷ 0xff ∷ 0xff ∷ 0xff ∷ 0xff ∷ 0xff
    ∷ 2 ∷ 0x41 ∷ 0x6c ∷ 1 ∷ 2 ∷ 0x41 ∷ 0x6c ∷ 0 ∷ 1 ∷ 2 ∷ 0x41 ∷ 0x6c ∷ []

welcome_written : encode_login_success welcome 64 [] ≡ ok tt welcome_wire
unfolding encode_login_success login_success_body write_signature write_property write_properties
    write_count encode_frame encode_var_int encode_groups as_unsigned lt_wf dec_lt var_int_length
    validated_frame_length encode_string utf16_units encode_uuid encode_i64 to_be_bytes from_framing
    from_codec
welcome_written = refl

welcome-IsLoginSuccess : IsLoginSuccess welcome
welcome-IsLoginSuccess = record {
  uuid = id-IsUuid;
  username = name_is_utf8;
  properties =
      (record { name = name_is_utf8; value = no_name_is_utf8; signature = name_is_utf8 }, tt);
}

decode_login_success-encode_login_success_example :
    decode_login_success 64 (welcome_wire ++ (9 ∷ []))
    ≡ ok (LoginDecodeOutcome.complete (login_success welcome)) (9 ∷ [])
decode_login_success-encode_login_success_example =
    decode_login_success-encode_login_success welcome 64 welcome_wire (9 ∷ [])
      welcome-IsLoginSuccess welcome_written

abbrev offline : LoginConfig
offline = record {
  online_mode = false;
  compression_threshold = negsuc 0;
  max_frame_length = 64;
  offline_uuid = id;
}

run-Inv_example :
    Inv offline (run (new offline) (response_bytes [] ∷ start_bytes start_wire ∷ close [] ∷ []))
run-Inv_example = run-Inv offline (response_bytes [] ∷ start_bytes start_wire ∷ close [] ∷ [])

abbrev left : LoginStateMachine
left = record { phase = disconnected; config = offline; username = none }

run_terminal_example :
    ((call left (start_bytes start_wire)).result ≡ failure terminal)
    × (run left (start_bytes start_wire ∷ close [] ∷ []) ≡ left)
run_terminal_example = run_terminal left (start_bytes start_wire) (close [] ∷ []) refl

abbrev offline_machine : LoginStateMachine
offline_machine = record { phase = awaiting_login_start; config = offline; username = none }

abbrev answer_wire : List ℕ
answer_wire =
    21 ∷ 2 ∷ 0 ∷ 0 ∷ 0 ∷ 0 ∷ 0 ∷ 0 ∷ 1 ∷ 2 ∷ 0xff ∷ 0xff ∷ 0xff ∷ 0xff ∷ 0xff ∷ 0xff ∷ 0xff ∷ 0xff
    ∷ 2 ∷ 0x41 ∷ 0x6c ∷ 0 ∷ []

answer_written :
    encode_login_success (offline_success offline_machine name) 64 [] ≡ ok tt answer_wire
unfolding encode_login_success login_success_body write_signature write_property write_properties
    write_count encode_frame encode_var_int encode_groups as_unsigned lt_wf dec_lt var_int_length
    validated_frame_length encode_string utf16_units encode_uuid encode_i64 to_be_bytes from_framing
    from_codec
answer_written = refl

offline_login_example :
    (handle_login_start offline_machine (start_wire ++ (9 ∷ [])) ≡ record {
      result = success (succeed answer_wire ProtocolState.play);
      machine = record offline_machine { phase = login_complete; username = some name };
      input = 9 ∷ [];
    })
    × (decode_login_success 64 answer_wire
        ≡ ok
            (LoginDecodeOutcome.complete (login_success (offline_success offline_machine name)))
            [])
offline_login_example =
    offline_login offline_machine start start_wire answer_wire (9 ∷ []) refl refl start-IsLoginStart
      id-IsUuid start_written answer_written

abbrev online : LoginConfig
online = record offline { online_mode = true; max_frame_length = 256 }

abbrev response_wire : List ℕ
response_wire = 6 ∷ 1 ∷ 1 ∷ 4 ∷ 2 ∷ 5 ∷ 6 ∷ []

online_completes :
    (run (new online) (start_bytes start_wire ∷ response_bytes response_wire ∷ [])).phase
    ≡ login_complete
unfolding run call new handle_login_start handle_encryption_response after_start after_response
    accept_start request_encryption complete_login decode_login_start decode_encryption_response
    encode_encryption_request encode_login_success encryption_request_body login_success_body
    login_start_fields encryption_response_fields decode_packet
    rustbound_server.Protocol.Login.decode_framed accept optional_uuid decode_bool decode_uuid
    decode_uuid_low decode_i64 signed_word decode_be decode_frame decode_after_length decode_body
    decode_var_int decode_groups signed_result decode_string decode_string_after_length
    decode_payload split_front is_utf8 utf8_from utf8_step decode_byte_array
    decode_array_after_length as_signed write_properties write_count encode_frame encode_var_int
    encode_groups as_unsigned lt_wf dec_lt var_int_length validated_frame_length encode_string
    utf16_units encode_byte_array encode_uuid encode_i64 to_be_bytes from_framing from_codec
online_completes = refl

online_needs_response_example :
    Answered (new online) (start_bytes start_wire ∷ response_bytes response_wire ∷ []) 256
online_needs_response_example =
    online_needs_response online (start_bytes start_wire ∷ response_bytes response_wire ∷ []) refl
      online_completes
