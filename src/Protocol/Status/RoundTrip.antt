-- ===== src/Protocol/Status/RoundTrip.antt =====
-- The ping and the status response, written and read.
use rustbound_server.Prelude.{ℕ, ◌^◌, ◌≡◌, arith, true, List, [], ◌++◌, append-nil, some}
use rustbound_server.Prelude.Int.{ℤ}
use rustbound_server.Prelude.Words.{IsI64, as_unsigned, to_be_bytes}
use rustbound_server.Prelude.Buffer.{ok, success, map_err, map_err-eq_ok, with_body-eq_ok}
use rustbound_server.Protocol.Primitives.Fixed.{encode_i64}
use rustbound_server.Protocol.Primitives.Fixed.RoundTrip.{decode_i64-bytes}
use rustbound_server.Protocol.Primitives.Text.{is_utf8, encode_string}
use rustbound_server.Protocol.Primitives.Text.RoundTrip.{decode_string-encode_string}
use rustbound_server.Protocol.Framing.{encode_frame}
use rustbound_server.Protocol.Framing.Decode.{decode_frame-encode_frame}
use rustbound_server.Protocol.Status.{
  StatusError, StatusResponse, Json, json_error, restore, decode_framed, encode_status_response,
  parse_json, parse_status_response_body, decode_status_response, ping_value, parse_ping_body,
  decode_ping_request, encode_pong_response, status_packet_id, ping_packet_id,
  max_status_json_utf16_units, send_packet,
}

ping_read :
    (v : ℤ)
    → IsI64 v
    → parse_ping_body (record { packet_id = ping_packet_id; payload = encode_i64 v [] }) ≡ success v
unfolding parse_ping_body ping_value encode_i64
ping_read v h =
    let bytes = to_be_bytes 8 (as_unsigned (2 ^ 64) v) in
    ground (arith, decode_i64-bytes v [] h, append-nil bytes)

-- The packet that answers a ping with an i64, and fits a frame, is itself a ping with that value: the
-- pong echoes the ping, and whatever follows the frame is left in the input.
pub decode_ping_request-encode_pong_response :
    (v : ℤ) (maximum : ℕ) (wire rest : List ℕ)
    → IsI64 v
    → encode_pong_response v maximum [] ≡ ok tt wire
    → decode_ping_request maximum (wire ++ rest) ≡ ok (some v) rest
unfolding decode_ping_request decode_framed restore encode_pong_response
decode_ping_request-encode_pong_response v maximum wire rest h e =
    let sent =
      map_err-eq_ok (λ x. StatusError.incomplete)
        (encode_frame ping_packet_id (encode_i64 v []) maximum) [] wire tt e in
    ground (
      arith,
      decode_frame-encode_frame ping_packet_id (encode_i64 v []) maximum wire rest (omega arith)
          sent,
      ping_read v h,
    )

module _ (json : Json) (response : StatusResponse) (text : List ℕ) where
  status_sent :
      (maximum : ℕ) (wire : List ℕ)
      → json.to_string response ≡ success text
      → encode_status_response json response maximum [] ≡ ok tt wire
      → (body : List ℕ) × (encode_string text max_status_json_utf16_units [] ≡ ok tt body)
        × (encode_frame status_packet_id body maximum [] ≡ ok tt wire)
  unfolding encode_status_response
  status_sent maximum wire written e =
      let (body, built, sent) =
        with_body-eq_ok (map_err json_error (encode_string text max_status_json_utf16_units))
          (send_packet status_packet_id maximum) [] wire tt
          (rw (written, encode_status_response) at e) in
      (
        body,
        map_err-eq_ok json_error (encode_string text max_status_json_utf16_units) [] body tt built,
        map_err-eq_ok (λ x. StatusError.incomplete) (encode_frame status_packet_id body maximum) []
            wire tt sent,
      )

  status_read :
      (body : List ℕ)
      → is_utf8 text ≡ true
      → json.from_str text ≡ success response
      → encode_string text max_status_json_utf16_units [] ≡ ok tt body
      → parse_status_response_body json (record { packet_id = status_packet_id; payload = body })
        ≡ success response
  unfolding parse_status_response_body parse_json
  status_read body u read built = ground (
    arith,
    decode_string-encode_string text max_status_json_utf16_units body [] u built,
    append-nil body,
    read,
  )

-- Where the JSON library writes a status response as a UTF-8 text and reads it back, the packet that
-- `encode_status_response` accepts decodes to the same response, and the input then stands at
-- whatever follows the frame.
pub decode_status_response-encode_status_response :
    (json : Json) (response : StatusResponse) (text : List ℕ) (maximum : ℕ) (wire rest : List ℕ)
    → json.to_string response ≡ success text
    → is_utf8 text ≡ true
    → json.from_str text ≡ success response
    → encode_status_response json response maximum [] ≡ ok tt wire
    → decode_status_response json maximum (wire ++ rest) ≡ ok (some response) rest
unfolding decode_status_response decode_framed restore
decode_status_response-encode_status_response json response text maximum wire rest written u read
      e =
    let (body, built, sent) = status_sent json response text maximum wire written e in
    ground (
      arith,
      decode_frame-encode_frame status_packet_id body maximum wire rest (omega arith) sent,
      status_read json response text body u read built,
    )
