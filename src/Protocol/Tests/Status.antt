-- ===== src/Protocol/Tests/Status.antt =====
-- A ping, and a status response under a JSON library that knows one response.
use rustbound_server.Prelude.{ℕ, ◌≡◌, refl, List, [], ◌∷◌, ◌++◌, dec_lt, some, none, true}
use rustbound_server.Prelude.Order.{lt_wf}
use rustbound_server.Prelude.Buffer.{ok, success}
use rustbound_server.Prelude.Int.{pos, negsuc}
use rustbound_server.Prelude.Words.{as_unsigned, to_be_bytes}
use rustbound_server.Protocol.Primitives.VarInt.{encode_var_int, encode_groups}
use rustbound_server.Protocol.Primitives.Fixed.{encode_i64}
use rustbound_server.Protocol.Primitives.Text.{
  is_utf8, utf8_from, utf8_step, utf16_units, encode_string,
}
use rustbound_server.Protocol.Framing.{encode_frame, var_int_length, validated_frame_length}
use rustbound_server.Protocol.Status.{
  StatusResponse, Json, encode_pong_response, encode_status_response, decode_status_response,
  json_error, from_codec,
}
use rustbound_server.Protocol.Status.RoundTrip.{decode_status_response-encode_status_response}

abbrev pong_wire : List ℕ
pong_wire = 9 ∷ 1 ∷ 0xff ∷ 0xff ∷ 0xff ∷ 0xff ∷ 0xff ∷ 0xff ∷ 0xff ∷ 0xfe ∷ []

pong_written : encode_pong_response (negsuc 1) 64 [] ≡ ok tt pong_wire
unfolding encode_pong_response encode_frame encode_var_int encode_groups as_unsigned lt_wf dec_lt
    var_int_length validated_frame_length encode_i64 to_be_bytes
pong_written = refl

abbrev response : StatusResponse
response = record {
  version = record { name = 0x31 ∷ []; protocol = pos 763 };
  players = record { max = pos 20; online = pos 0; sample = none };
  description = record { text = [] };
  favicon = none;
}

-- The texts stand for themselves: only this response is ever written.
abbrev one_response : Json
one_response = record {
  to_string = λ r. success (0x7b ∷ 0x7d ∷ []);
  from_str = λ t. success response;
}

abbrev status_wire : List ℕ
status_wire = 4 ∷ 0 ∷ 2 ∷ 0x7b ∷ 0x7d ∷ []

status_written : encode_status_response one_response response 64 [] ≡ ok tt status_wire
unfolding encode_status_response encode_frame encode_var_int encode_groups as_unsigned lt_wf dec_lt
    var_int_length validated_frame_length encode_string utf16_units json_error from_codec
status_written = refl

braces_are_utf8 : is_utf8 (0x7b ∷ 0x7d ∷ []) ≡ true
unfolding is_utf8 utf8_from utf8_step
braces_are_utf8 = refl

decode_status_response-encode_status_response_example :
    decode_status_response one_response 64 (status_wire ++ (9 ∷ [])) ≡ ok (some response) (9 ∷ [])
decode_status_response-encode_status_response_example =
    decode_status_response-encode_status_response one_response response (0x7b ∷ 0x7d ∷ []) 64
      status_wire (9 ∷ []) refl braces_are_utf8 refl status_written
