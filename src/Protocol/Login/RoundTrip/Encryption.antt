-- ===== src/Protocol/Login/RoundTrip/Encryption.antt =====
-- Encryption Request and Encryption Response.
use rustbound_server.Prelude.{
  ℕ, ◌^◌, ◌≤◌, ◌<◌, ◌≡◌, arith, true, List, [], ◌++◌, append-nil, append_assoc, length,
}
use rustbound_server.Prelude.Buffer.{ok, >>=-eq_ok, ◌>>◌}
use rustbound_server.Protocol.Primitives.Text.{
  is_utf8, max_server_id_length, max_public_key_length, max_verify_token_length,
}
use rustbound_server.Protocol.Primitives.Text.RoundTrip.{string_bytes, Fits}
use rustbound_server.Protocol.Login.{
  EncryptionRequest, EncryptionResponse, encryption_request, encryption_response,
  LoginDecodeOutcome, write_string,
}
use rustbound_server.Protocol.Login.Encryption.{
  write_array, encryption_request_body, encode_encryption_request, encryption_request_fields,
  decode_encryption_request, encryption_request_packet_id, encryption_response_body,
  encode_encryption_response, encryption_response_fields, decode_encryption_response,
  encryption_response_packet_id,
}
use rustbound_server.Protocol.Login.RoundTrip.{
  decode_packet-encode_frame, sent_frame, write_string-eq_ok, string_field-bytes, write_array-eq_ok,
  array_field-bytes,
}

-- Two arrays, one behind the other.
two_arrays-eq_ok :
    (a b : List ℕ) (m n : ℕ) (output body : List ℕ)
    → (write_array a m >> write_array b n) output ≡ ok tt body
    → (length a ≤ m)
      × (length a < 2 ^ 31)
      × (length b ≤ n)
      × (length b < 2 ^ 31)
      × (body ≡ output ++ (string_bytes a ++ string_bytes b))
two_arrays-eq_ok a b m n output body e =
    let (u, start, first, second) = >>=-eq_ok (write_array a m) _ output body tt e in
    let (la, sa, pa) = write_array-eq_ok a m output start first in
    let (lb, sb, pb) = write_array-eq_ok b n start body second in
    (la, sa, lb, sb, ground (arith, pa, pb, append_assoc output (string_bytes a) (string_bytes b)))

response_fields-bytes :
    (p : EncryptionResponse)
    → length p.shared_secret ≤ max_public_key_length
    → length p.verify_token ≤ max_verify_token_length
    → encryption_response_fields (string_bytes p.shared_secret ++ string_bytes p.verify_token)
      ≡ ok (encryption_response p) []
unfolding encryption_response_fields
response_fields-bytes p h g =
    let token = string_bytes p.verify_token in
    ground (
      arith,
      array_field-bytes p.shared_secret max_public_key_length token h (omega arith),
      array_field-bytes p.verify_token max_verify_token_length [] g (omega arith),
      append-nil token,
    )

-- An Encryption Response that `encode_encryption_response` accepts decodes under the same maximum to
-- the same packet, and the input then stands at whatever follows the frame.
pub decode_encryption_response-encode :
    (p : EncryptionResponse) (maximum : ℕ) (wire rest : List ℕ)
    → encode_encryption_response p maximum [] ≡ ok tt wire
    → decode_encryption_response maximum (wire ++ rest)
      ≡ ok (LoginDecodeOutcome.complete (encryption_response p)) rest
unfolding decode_encryption_response encode_encryption_response encryption_response_body
decode_encryption_response-encode p maximum wire rest e =
    let (body, built, sent) =
      sent_frame (encryption_response_body p) encryption_response_packet_id maximum wire e in
    let (h, _, g, _, parts) =
      two_arrays-eq_ok p.shared_secret p.verify_token max_public_key_length max_verify_token_length
        [] body built in
    decode_packet-encode_frame encryption_response_packet_id encryption_response_fields body
      (encryption_response p) maximum wire rest (omega arith) sent
      (rw parts (response_fields-bytes p h g))

request_fields-bytes :
    (p : EncryptionRequest)
    → is_utf8 p.server_id ≡ true
    → Fits p.server_id max_server_id_length
    → length p.public_key ≤ max_public_key_length
    → length p.verify_token ≤ max_verify_token_length
    → encryption_request_fields
        (string_bytes p.server_id ++ (string_bytes p.public_key ++ string_bytes p.verify_token))
      ≡ ok (encryption_request p) []
unfolding encryption_request_fields
request_fields-bytes p u f h g =
    let token = string_bytes p.verify_token in
    let key = string_bytes p.public_key in
    ground (
      arith,
      string_field-bytes p.server_id max_server_id_length (key ++ token) u f,
      array_field-bytes p.public_key max_public_key_length token h (omega arith),
      array_field-bytes p.verify_token max_verify_token_length [] g (omega arith),
      append-nil token,
    )

-- An Encryption Request with a UTF-8 server id that `encode_encryption_request` accepts decodes
-- under the same maximum to the same packet, and the input then stands at whatever follows the frame.
pub decode_encryption_request-encode :
    (p : EncryptionRequest) (maximum : ℕ) (wire rest : List ℕ)
    → is_utf8 p.server_id ≡ true
    → encode_encryption_request p maximum [] ≡ ok tt wire
    → decode_encryption_request maximum (wire ++ rest)
      ≡ ok (LoginDecodeOutcome.complete (encryption_request p)) rest
unfolding decode_encryption_request encode_encryption_request encryption_request_body
decode_encryption_request-encode p maximum wire rest u e =
    let (body, built, sent) =
      sent_frame (encryption_request_body p) encryption_request_packet_id maximum wire e in
    let (_, start, named, arrays) =
      >>=-eq_ok (write_string p.server_id max_server_id_length) _ [] body tt built in
    let (f, first) = write_string-eq_ok p.server_id max_server_id_length [] start named in
    let (h, _, g, _, parts) =
      two_arrays-eq_ok p.public_key p.verify_token max_public_key_length max_verify_token_length
        start body arrays in
    decode_packet-encode_frame encryption_request_packet_id encryption_request_fields body
      (encryption_request p) maximum wire rest (omega arith) sent
      (rw (parts, first) (request_fields-bytes p u f h g))
