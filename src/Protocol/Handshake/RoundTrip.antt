-- ===== src/Protocol/Handshake/RoundTrip.antt =====
-- `decode_handshake` on what `encode_handshake` writes, and on malformed frames.
use rustbound_server.Prelude.{
  ℕ, ◌^◌, ◌<◌, ◌≡◌, refl, arith, true, List, [], ◌++◌, append_assoc, append-nil, inl, inr,
}
use rustbound_server.Prelude.Words.{IsI32, to_be_bytes}
use rustbound_server.Prelude.Buffer.{
  ok, err, success, Outcome-cases, map_err-eq_ok, with_body-eq_ok,
}
use rustbound_server.Protocol.Primitives.VarInt.{encode_var_int}
use rustbound_server.Protocol.Primitives.VarInt.Encode.{var_int_bytes, encode_var_int-append}
use rustbound_server.Protocol.Primitives.VarInt.RoundTrip.{decode_var_int-bytes}
use rustbound_server.Protocol.Primitives.Fixed.{encode_u16, decode_u16}
use rustbound_server.Protocol.Primitives.Fixed.RoundTrip.{decode_be-bytes}
use rustbound_server.Protocol.Primitives.Text.{encode_string, is_utf8}
use rustbound_server.Protocol.Primitives.Text.RoundTrip.{
  string_bytes, Fits, encode_string-Fits, encode_string-eq_ok, decode_string-bytes,
}
use rustbound_server.Protocol.Framing.{FramingError, decode_frame, encode_frame}
use rustbound_server.Protocol.Framing.Decode.{decode_frame-encode_frame}
use rustbound_server.Protocol.Framing.Stable.{decode_frame_refused}
use rustbound_server.Protocol.State.{NextState, wire_value, from_wire_iff}
use rustbound_server.Protocol.Handshake.{
  HandshakePacket, HandshakeError, handshake_fields, whole_body, parse_handshake_body,
  decode_framed, decode_handshake, handshake_body, encode_handshake, send_handshake,
  handshake_packet_id, max_server_address_utf16_units,
}

pub record IsHandshake (p : HandshakePacket) : Type 0 where
  pub version : IsI32 p.protocol_version
  pub address : is_utf8 p.server_address ≡ true
  pub port_fits : p.port < 2 ^ 16

-- The bytes of the four fields.
unfoldable pub field_bytes : HandshakePacket → List ℕ
field_bytes p =
    var_int_bytes p.protocol_version
    ++ (string_bytes p.server_address
        ++ (to_be_bytes 2 p.port ++ var_int_bytes (wire_value p.next_state)))

handshake_body_bytes :
    (p : HandshakePacket)
    → Fits p.server_address max_server_address_utf16_units
    → handshake_body p [] ≡ ok tt (field_bytes p)
unfolding handshake_body field_bytes encode_u16
handshake_body_bytes p h =
    let version = var_int_bytes p.protocol_version in
    let address = string_bytes p.server_address in
    let port = to_be_bytes 2 p.port in
    ground (
      arith,
      encode_var_int-append p.protocol_version [],
      encode_string-Fits p.server_address max_server_address_utf16_units version h,
      encode_var_int-append (wire_value p.next_state) ((version ++ address) ++ port),
      append_assoc (version ++ address) port (var_int_bytes (wire_value p.next_state)),
      append_assoc version address (port ++ var_int_bytes (wire_value p.next_state)),
    )

wire_value-IsI32 : (n : NextState) → IsI32 (wire_value n)
unfolding wire_value
wire_value-IsI32 NextState.status = omega arith
wire_value-IsI32 NextState.login = omega arith

fields_read :
    (p : HandshakePacket)
    → IsHandshake p
    → Fits p.server_address max_server_address_utf16_units
    → handshake_fields (field_bytes p) ≡ ok p []
unfolding handshake_fields field_bytes decode_u16
fields_read p v h =
    let next = var_int_bytes (wire_value p.next_state) in
    let port = to_be_bytes 2 p.port in
    let address = string_bytes p.server_address in
    ground (
      arith,
      decode_var_int-bytes p.protocol_version (address ++ (port ++ next)) v.version,
      decode_string-bytes p.server_address max_server_address_utf16_units (port ++ next) v.address
          h,
      decode_be-bytes 2 p.port next v.port_fits,
      decode_var_int-bytes (wire_value p.next_state) [] (wire_value-IsI32 p.next_state),
      append-nil next,
      (from_wire_iff (wire_value p.next_state) p.next_state).1 refl,
    )

body_parsed :
    (p : HandshakePacket)
    → IsHandshake p
    → Fits p.server_address max_server_address_utf16_units
    → parse_handshake_body (record { packet_id = handshake_packet_id; payload = field_bytes p })
      ≡ success p
unfolding parse_handshake_body whole_body
body_parsed p v h = rw (fields_read p v h)

handshake_body-eq_ok :
    (p : HandshakePacket) (body : List ℕ)
    → handshake_body p [] ≡ ok tt body
    → Fits p.server_address max_server_address_utf16_units
unfolding handshake_body
handshake_body-eq_ok p body e =
    let start : List ℕ = encode_var_int p.protocol_version [] in
    elim (Outcome-cases (encode_string p.server_address max_server_address_utf16_units start)) [
      | inl (u, w, q) ↦
          encode_string-eq_ok p.server_address max_server_address_utf16_units start w q
      | inr (x, w, q) ↦ absurd (ground (arith, q, e))
    ]

-- An encoded handshake goes out as one frame around the four fields.
encode_handshake-eq_ok :
    (p : HandshakePacket) (maximum : ℕ) (wire : List ℕ)
    → encode_handshake p maximum [] ≡ ok tt wire
    → Fits p.server_address max_server_address_utf16_units
      × (encode_frame handshake_packet_id (field_bytes p) maximum [] ≡ ok tt wire)
unfolding encode_handshake
encode_handshake-eq_ok p maximum wire e =
    let (body, built, sent) =
      with_body-eq_ok (handshake_body p) (send_handshake maximum) [] wire tt e in
    let fits = handshake_body-eq_ok p body built in
    let bytes : body ≡ field_bytes p = cc (built, handshake_body_bytes p fits) in
    (
      fits,
      rw (← bytes) (
          map_err-eq_ok (λ x. HandshakeError.incomplete)
            (encode_frame handshake_packet_id body maximum) [] wire tt sent),
    )

-- A handshake with an i32 version, a UTF-8 address and a u16 port that `encode_handshake` accepts decodes under the same maximum to the same packet, and
-- the input then stands at whatever follows the frame.
pub decode_handshake-encode_handshake :
    (p : HandshakePacket) (maximum : ℕ) (wire rest : List ℕ)
    → IsHandshake p
    → encode_handshake p maximum [] ≡ ok tt wire
    → decode_handshake maximum (wire ++ rest) ≡ ok p rest
unfolding decode_handshake decode_framed
decode_handshake-encode_handshake p maximum wire rest v e =
    let (fits, framed) = encode_handshake-eq_ok p maximum wire e in
    rw
      (decode_frame-encode_frame handshake_packet_id (field_bytes p) maximum wire rest (omega arith)
        framed)
      (rw (body_parsed p v fits, decode_framed))

-- An input that `decode_frame` refuses with a framing error, whichever it is, is answered with
-- `Incomplete`, as one that lacks bytes is, and stays `Incomplete` whatever bytes are added behind it.
pub decode_handshake_malformed :
    (maximum : ℕ) (input more rest : List ℕ) (e : FramingError)
    → decode_frame maximum input ≡ err e rest
    → decode_handshake maximum (input ++ more) ≡ err HandshakeError.incomplete (input ++ more)
unfolding decode_handshake decode_framed
decode_handshake_malformed maximum input more rest e h =
    rw (decode_frame_refused maximum input more rest e h)
