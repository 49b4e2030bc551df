-- ===== src/Protocol/Login/RoundTrip/Start.antt =====
-- Login Start and Login Disconnect.
use rustbound_server.Prelude.{ℕ, ◌≡◌, arith, true, List, [], ◌∷◌, ◌++◌, append-nil, append_assoc}
use rustbound_server.Prelude.Buffer.{ok, >>=-eq_ok}
use rustbound_server.Protocol.Primitives.Text.{is_utf8, max_username_length}
use rustbound_server.Protocol.Primitives.Text.RoundTrip.{string_bytes, Fits}
use rustbound_server.Protocol.Primitives.Fixed.{encode_bool, decode_bool}
use rustbound_server.Protocol.Primitives.Fixed.RoundTrip.{
  IsUuid, uuid_bytes, encode_uuid-append, decode_uuid-bytes,
}
use rustbound_server.Protocol.Login.{LoginStart, login_start, LoginDecodeOutcome, write_string}
use rustbound_server.Protocol.Login.Start.{
  login_start_body, encode_login_start, login_start_fields, decode_login_start, optional_uuid,
  login_start_packet_id,
}
use rustbound_server.Protocol.Login.RoundTrip.{
  decode_packet-encode_frame, sent_frame, write_string-eq_ok, string_field-bytes,
}

pub record IsLoginStart (p : LoginStart) : Type 0 where
  pub username : is_utf8 p.username ≡ true
  pub uuid : IsUuid p.uuid

unfoldable pub login_start_bytes : LoginStart → List ℕ
login_start_bytes p = string_bytes p.username ++ (1 ∷ uuid_bytes p.uuid)

login_start_body-eq_ok :
    (p : LoginStart) (body : List ℕ)
    → login_start_body p [] ≡ ok tt body
    → Fits p.username max_username_length × (body ≡ login_start_bytes p)
unfolding login_start_body login_start_bytes encode_bool
login_start_body-eq_ok p body e =
    let (u, start, named, later) =
      >>=-eq_ok (write_string p.username max_username_length) _ [] body tt e in
    let (fits, parts) = write_string-eq_ok p.username max_username_length [] start named in
    (
      fits,
      ground (
        arith,
        later,
        parts,
        encode_uuid-append p.uuid (start ++ (1 ∷ [])),
        append_assoc start (1 ∷ []) (uuid_bytes p.uuid),
        append_assoc (string_bytes p.username) (1 ∷ []) (uuid_bytes p.uuid),
      ),
    )

login_start_fields-bytes :
    (p : LoginStart)
    → IsLoginStart p
    → Fits p.username max_username_length
    → login_start_fields (login_start_bytes p) ≡ ok (login_start p) []
unfolding login_start_fields login_start_bytes optional_uuid decode_bool
login_start_fields-bytes p v h =
    let uuid = uuid_bytes p.uuid in
    ground (
      arith,
      string_field-bytes p.username max_username_length (1 ∷ uuid) v.username h,
      decode_uuid-bytes p.uuid [] v.uuid,
      append-nil uuid,
    )

-- A Login Start packet with a UTF-8 username and i64 halves of its UUID that `encode_login_start`
-- accepts decodes under the same maximum to the same
-- packet, and the input then stands at whatever follows the frame.
pub decode_login_start-encode_login_start :
    (p : LoginStart) (maximum : ℕ) (wire rest : List ℕ)
    → IsLoginStart p
    → encode_login_start p maximum [] ≡ ok tt wire
    → decode_login_start maximum (wire ++ rest)
      ≡ ok (LoginDecodeOutcome.complete (login_start p)) rest
unfolding decode_login_start encode_login_start
decode_login_start-encode_login_start p maximum wire rest v e =
    let (body, built, sent) =
      sent_frame (login_start_body p) login_start_packet_id maximum wire e in
    let (fits, parts) = login_start_body-eq_ok p body built in
    decode_packet-encode_frame login_start_packet_id login_start_fields body (login_start p) maximum
      wire rest (omega arith) sent (rw parts (login_start_fields-bytes p v fits))
