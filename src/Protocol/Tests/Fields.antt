-- ===== src/Protocol/Tests/Fields.antt =====
-- Positions, strings, byte arrays and the handshake, at concrete values.
use rustbound_server.Prelude.{ℕ, ◌≡◌, refl, arith, List, [], ◌∷◌, ◌++◌, dec_lt, true}
use rustbound_server.Prelude.Order.{lt_wf}
use rustbound_server.Prelude.Buffer.{ok, err, success}
use rustbound_server.Prelude.Int.{pos, negsuc}
use rustbound_server.Prelude.Words.{as_unsigned, to_be_bytes}
use rustbound_server.Protocol.Primitives.{var_int_too_long}
use rustbound_server.Protocol.Primitives.VarInt.{
  encode_var_int, encode_groups, decode_var_int, decode_groups, signed_result,
}
use rustbound_server.Protocol.Primitives.Fixed.{encode_u16}
use rustbound_server.Protocol.Primitives.Text.{
  is_utf8, utf8_from, utf8_step, utf16_units, encode_string, decode_string, encode_byte_array,
  decode_byte_array,
}
use rustbound_server.Protocol.Primitives.Text.RoundTrip.{decode_string-Bounded, Bounded}
use rustbound_server.Protocol.Primitives.Text.Arrays.{decode_byte_array_negative}
use rustbound_server.Protocol.Framing.{
  length_codec, encode_frame, decode_frame, decode_after_length, decode_body, var_int_length,
  validated_frame_length,
}
use rustbound_server.Protocol.Framing.Stable.{decode_frame_refused}
use rustbound_server.Protocol.State.{
  ProtocolState, NextState, wire_value, apply_handshake_transition, target_state,
}
use rustbound_server.Protocol.Handshake.{
  HandshakePacket, HandshakeError, encode_handshake, decode_handshake, handshake_body,
}
use rustbound_server.Protocol.Handshake.RoundTrip.{
  decode_handshake-encode_handshake, decode_handshake_malformed,
}

-- "é!": two code points in three bytes.
abbrev word : List ℕ
word = 0xc3 ∷ 0xa9 ∷ 0x21 ∷ []

word_is_utf8 : is_utf8 word ≡ true
unfolding is_utf8 utf8_from utf8_step
word_is_utf8 = refl

word_written : encode_string word 16 [] ≡ ok tt (3 ∷ word)
unfolding encode_string encode_var_int encode_groups as_unsigned lt_wf dec_lt utf16_units
word_written = refl

decode_string-Bounded_example : Bounded 16 (1 ∷ 0xff ∷ []) (decode_string 16 (1 ∷ 0xff ∷ []))
decode_string-Bounded_example = decode_string-Bounded 16 (1 ∷ 0xff ∷ [])

array_written : encode_byte_array (8 ∷ 7 ∷ []) 4 [] ≡ ok tt (2 ∷ 8 ∷ 7 ∷ [])
unfolding encode_byte_array encode_var_int encode_groups as_unsigned lt_wf dec_lt
array_written = refl

decode_byte_array_negative_example :
    decode_byte_array 4 (encode_var_int (negsuc 0) [] ++ (6 ∷ [])) ≡ err var_int_too_long (6 ∷ [])
decode_byte_array_negative_example = decode_byte_array_negative 4 0 (6 ∷ []) (omega arith)

to_login :
    apply_handshake_transition ProtocolState.handshaking NextState.login
    ≡ success ProtocolState.login
unfolding apply_handshake_transition target_state
to_login = refl

abbrev hello : HandshakePacket
hello = record {
  protocol_version = pos 763;
  server_address = word;
  port = 25565;
  next_state = NextState.login;
}

abbrev hello_wire : List ℕ
hello_wire = 10 ∷ 0 ∷ 0xfb ∷ 0x05 ∷ 3 ∷ 0xc3 ∷ 0xa9 ∷ 0x21 ∷ 0x63 ∷ 0xdd ∷ 2 ∷ []

hello_written : encode_handshake hello 64 [] ≡ ok tt hello_wire
unfolding encode_handshake handshake_body encode_frame encode_var_int encode_groups as_unsigned
    lt_wf dec_lt var_int_length validated_frame_length encode_string utf16_units encode_u16
    to_be_bytes wire_value
hello_written = refl

decode_handshake-encode_handshake_example :
    decode_handshake 64 (hello_wire ++ (9 ∷ [])) ≡ ok hello (9 ∷ [])
decode_handshake-encode_handshake_example =
    decode_handshake-encode_handshake hello 64 hello_wire (9 ∷ [])
      (record { version = omega arith; address = word_is_utf8; port_fits = omega arith })
      hello_written

abbrev overlong_length : List ℕ
overlong_length = 0x80 ∷ 0x80 ∷ 0x80 ∷ 0x80 ∷ 0x80 ∷ 1 ∷ []

overlong_refused :
    decode_frame 64 overlong_length ≡ err (length_codec var_int_too_long) overlong_length
unfolding decode_frame decode_after_length decode_body decode_var_int decode_groups signed_result
overlong_refused = refl

decode_handshake_malformed_example :
    decode_handshake 64 (overlong_length ++ (9 ∷ []))
    ≡ err HandshakeError.incomplete (overlong_length ++ (9 ∷ []))
decode_handshake_malformed_example =
    decode_handshake_malformed 64 overlong_length (9 ∷ []) overlong_length
      (length_codec var_int_too_long) overlong_refused

decode_frame_refused_example :
    decode_frame 64 (overlong_length ++ (9 ∷ []))
    ≡ err (length_codec var_int_too_long) (overlong_length ++ (9 ∷ []))
decode_frame_refused_example =
    decode_frame_refused 64 overlong_length (9 ∷ []) overlong_length (length_codec var_int_too_long)
      overlong_refused
