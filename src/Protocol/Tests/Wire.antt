-- ===== src/Protocol/Tests/Wire.antt =====
-- VarInt and frames, at the bytes that the protocol documents.
use rustbound_server.Prelude.{ℕ, ◌≡◌, refl, arith, List, [], ◌∷◌, ◌++◌, dec_lt}
use rustbound_server.Prelude.Buffer.{ok, err}
use rustbound_server.Prelude.Int.{pos, negsuc}
use rustbound_server.Prelude.Order.{lt_wf}
use rustbound_server.Prelude.Words.{as_unsigned}
use rustbound_server.Protocol.Primitives.{var_int_too_long}
use rustbound_server.Protocol.Primitives.VarInt.{
  encode_var_int, encode_groups, decode_var_int, decode_groups, signed_result,
}
use rustbound_server.Protocol.Primitives.VarInt.Encode.{var_int_bytes, groups}
use rustbound_server.Protocol.Primitives.VarInt.RoundTrip.{decode_var_int-encode_var_int}
use rustbound_server.Protocol.Primitives.VarInt.Reference.{
  var_int_reference, decode_var_int-var_int_reference,
}
use rustbound_server.Protocol.Framing.{
  DecodeOutcome, RawDecodeOutcome, encode_frame, decode_frame, decode_after_length, decode_body,
  encode_raw_frame, decode_raw_frame, var_int_length,
}
use rustbound_server.Protocol.Framing.Encode.{body_bytes, framed}
use rustbound_server.Protocol.Framing.Decode.{
  Frame, Unmoved, decode_frame-Unmoved, decode_frame-Frame, decode_frame-prefix,
  decode_frame-encode_frame,
}

minus_one : encode_var_int (negsuc 0) [] ≡ 0xff ∷ 0xff ∷ 0xff ∷ 0xff ∷ 0x0f ∷ []
unfolding encode_var_int encode_groups as_unsigned lt_wf dec_lt
minus_one = refl

overlong :
    decode_var_int (0x80 ∷ 0x80 ∷ 0x80 ∷ 0x80 ∷ 0x80 ∷ 1 ∷ [])
    ≡ err var_int_too_long (0x80 ∷ 0x80 ∷ 0x80 ∷ 0x80 ∷ 0x80 ∷ 1 ∷ [])
unfolding decode_var_int decode_groups signed_result
overlong = refl

decode_var_int-encode_var_int_example :
    decode_var_int (encode_var_int (negsuc 0) [] ++ (7 ∷ [])) ≡ ok (negsuc 0) (7 ∷ [])
decode_var_int-encode_var_int_example =
    decode_var_int-encode_var_int (negsuc 0) (7 ∷ []) (omega arith)

decode_var_int-var_int_reference_example :
    decode_var_int (0xff ∷ 0xff ∷ 0xff ∷ 0xff ∷ 0x1f ∷ 7 ∷ [])
    ≡ var_int_reference (0xff ∷ 0xff ∷ 0xff ∷ 0xff ∷ 0x1f ∷ 7 ∷ [])
decode_var_int-var_int_reference_example =
    decode_var_int-var_int_reference (0xff ∷ 0xff ∷ 0xff ∷ 0xff ∷ 0x1f ∷ 7 ∷ [])
      (omega arith, (omega arith, (omega arith, (omega arith, (omega arith, (omega arith, tt))))))

abbrev ping : List ℕ
ping = 3 ∷ 0xac ∷ 0x02 ∷ 0xaa ∷ []

ping_written : encode_frame (pos 300) (0xaa ∷ []) 3 [] ≡ ok tt ping
unfolding encode_frame encode_var_int encode_groups as_unsigned lt_wf dec_lt var_int_length
    rustbound_server.Protocol.Framing.validated_frame_length
ping_written = refl

decode_frame-encode_frame_example :
    decode_frame 3 (ping ++ (9 ∷ []))
    ≡ ok (DecodeOutcome.complete (record { packet_id = pos 300; payload = 0xaa ∷ [] })) (9 ∷ [])
decode_frame-encode_frame_example =
    decode_frame-encode_frame (pos 300) (0xaa ∷ []) 3 ping (9 ∷ []) (omega arith) ping_written

decode_frame-Unmoved_example : Unmoved (0 ∷ []) (decode_frame 3 (0 ∷ []))
decode_frame-Unmoved_example = decode_frame-Unmoved 3 (0 ∷ [])

decode_frame-Frame_example :
    Frame 3 (ping ++ (9 ∷ [])) (record { packet_id = pos 300; payload = 0xaa ∷ [] }) (9 ∷ [])
decode_frame-Frame_example =
    decode_frame-Frame 3 (ping ++ (9 ∷ [])) (record { packet_id = pos 300; payload = 0xaa ∷ [] })
      (9 ∷ []) decode_frame-encode_frame_example

decode_frame-prefix_example :
    decode_frame 3 (3 ∷ 0xac ∷ []) ≡ ok DecodeOutcome.incomplete (3 ∷ 0xac ∷ [])
unfolding body_bytes var_int_bytes groups as_unsigned framed
decode_frame-prefix_example =
    decode_frame-prefix (pos 300) (0xaa ∷ []) 3 (3 ∷ 0xac ∷ []) 0x02 (0xaa ∷ []) (omega arith) refl

empty_raw : encode_raw_frame [] 3 [] ≡ ok tt (0 ∷ [])
unfolding encode_raw_frame encode_var_int encode_groups as_unsigned lt_wf dec_lt
empty_raw = refl
