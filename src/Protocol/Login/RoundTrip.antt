-- ===== src/Protocol/Login/RoundTrip.antt =====
-- What the round trips of the Login packets share: the frame around the body, and one field of
-- each kind, read back by its decoder and inverted from a successful write.
pub mod Start
pub mod Encryption
pub mod Success
use rustbound_server.Prelude.{
  ℕ, ◌+◌, ◌^◌, ◌≤◌, ◌<◌, ◌≡◌, refl, ap, ◌∙◌, arith, true, List, [], ◌∷◌, ◌++◌, length, inl, inr,
}
use rustbound_server.Prelude.Int.{ℤ, eqb_ℤ, eqb_ℤ_refl}
use rustbound_server.Prelude.Words.{IsI32}
use rustbound_server.Prelude.Buffer.{
  Outcome, Action, ok, err, map_err, map_err-eq_ok, with_body, with_body-eq_ok,
}
use rustbound_server.Protocol.Primitives.Text.{is_utf8, encode_string, encode_byte_array}
use rustbound_server.Protocol.Primitives.Text.RoundTrip.{
  string_bytes, Fits, encode_string-Fits, encode_string-eq_ok, decode_string-bytes,
}
use rustbound_server.Protocol.Primitives.Text.Arrays.{
  encode_byte_array_fits, encode_byte_array-eq_ok, decode_byte_array-bytes,
}
use rustbound_server.Protocol.Login.Encryption.{write_array, array_field}
use rustbound_server.Protocol.Framing.{DecodeOutcome, encode_frame, decode_frame}
use rustbound_server.Protocol.Framing.Decode.{decode_frame-encode_frame}
use rustbound_server.Protocol.Login.{
  LoginError, LoginPacket, LoginDecodeOutcome, from_codec, from_framing, accept, decode_framed,
  decode_packet, send_packet, string_field, write_string,
}

pub decode_packet-encode_frame :
    (id : ℤ) (fields : Action LoginError LoginPacket) (body : List ℕ) (packet : LoginPacket)
    (maximum : ℕ) (wire rest : List ℕ)
    → IsI32 id
    → encode_frame id body maximum [] ≡ ok tt wire
    → fields body ≡ ok packet []
    → decode_packet id fields maximum (wire ++ rest) ≡ ok (LoginDecodeOutcome.complete packet) rest
unfolding decode_packet decode_framed accept
decode_packet-encode_frame id fields body packet maximum wire rest hi sent read =
    ground (arith, decode_frame-encode_frame id body maximum wire rest hi sent, eqb_ℤ_refl id, read)

-- A packet that was written went out as one frame around the body that was built.
pub sent_frame :
    (build : Action LoginError (Unit {0})) (id : ℤ) (maximum : ℕ) (wire : List ℕ)
    → with_body build (send_packet id maximum) [] ≡ ok tt wire
    → (body : List ℕ) × (build [] ≡ ok tt body) × (encode_frame id body maximum [] ≡ ok tt wire)
sent_frame build id maximum wire e =
    let (body, built, sent) = with_body-eq_ok build (send_packet id maximum) [] wire tt e in
    (body, built, map_err-eq_ok from_framing (encode_frame id body maximum) [] wire tt sent)

-- One string, written and read.
pub write_string-eq_ok :
    (value : List ℕ) (max_utf16_units : ℕ) (output wire : List ℕ)
    → write_string value max_utf16_units output ≡ ok tt wire
    → Fits value max_utf16_units × (wire ≡ output ++ string_bytes value)
write_string-eq_ok value max_utf16_units output wire e =
    let written = map_err-eq_ok from_codec (encode_string value max_utf16_units) output wire tt e in
    let fits = encode_string-eq_ok value max_utf16_units output wire written in
    (fits, cc (written, encode_string-Fits value max_utf16_units output fits))

pub string_field-bytes :
    (value : List ℕ) (max_utf16_units : ℕ) (rest : List ℕ)
    → is_utf8 value ≡ true
    → Fits value max_utf16_units
    → string_field max_utf16_units (string_bytes value ++ rest) ≡ ok value rest
string_field-bytes value max_utf16_units rest u h =
    rw (decode_string-bytes value max_utf16_units rest u h, map_err)

-- One byte array, written and read.
pub write_array-eq_ok :
    (value : List ℕ) (max_length : ℕ) (output wire : List ℕ)
    → write_array value max_length output ≡ ok tt wire
    → (length value ≤ max_length) × (length value < 2 ^ 31) × (wire ≡ output ++ string_bytes value)
write_array-eq_ok value max_length output wire e =
    let written = map_err-eq_ok from_codec (encode_byte_array value max_length) output wire tt e in
    let (fits, short) = encode_byte_array-eq_ok value max_length output wire written in
    (fits, short, cc (written, encode_byte_array_fits value max_length output fits short))

pub array_field-bytes :
    (value : List ℕ) (max_length : ℕ) (rest : List ℕ)
    → length value ≤ max_length
    → length value < 2 ^ 31
    → array_field max_length (string_bytes value ++ rest) ≡ ok value rest
array_field-bytes value max_length rest h g =
    rw (decode_byte_array-bytes value max_length rest h g, map_err)
