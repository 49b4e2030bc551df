-- ===== src/Protocol/Login/RoundTrip/Success.antt =====
-- Login Success: its properties, its count, and the packet.
use rustbound_server.Prelude.{
  ℕ, ◌≤◌, ◌≡◌, refl, arith, Bool, true, false, Option, none, some, List, [], ◌∷◌, ◌++◌, append-nil,
  append_assoc, length, All,
}
use rustbound_server.Prelude.Int.{pos}
use rustbound_server.Prelude.Buffer.{ok, >>=-eq_ok}
use rustbound_server.Protocol.Primitives.VarInt.Encode.{var_int_bytes, encode_var_int-append}
use rustbound_server.Protocol.Primitives.VarInt.RoundTrip.{decode_var_int-bytes}
use rustbound_server.Protocol.Primitives.Fixed.{encode_uuid}
use rustbound_server.Protocol.Primitives.Fixed.RoundTrip.{
  IsUuid, uuid_bytes, encode_uuid-append, decode_uuid-bytes,
}
use rustbound_server.Protocol.Primitives.Text.{is_utf8, max_username_length}
use rustbound_server.Protocol.Primitives.Text.RoundTrip.{string_bytes, Fits}
use rustbound_server.Protocol.Login.{
  Property, LoginSuccess, login_success, LoginDecodeOutcome, write_string, flag_byte,
}
use rustbound_server.Protocol.Login.Success.{
  max_properties_count, max_property_string_length, max_property_signature_length, write_signature,
  write_property, write_properties, write_count, login_success_body, encode_login_success,
  signature_field, property_field, property_fields, count_field, login_success_fields,
  decode_login_success, login_success_packet_id,
}
use rustbound_server.Protocol.Login.RoundTrip.{
  decode_packet-encode_frame, sent_frame, write_string-eq_ok, string_field-bytes,
}

unfoldable pub signature_bytes : Option (List ℕ) → List ℕ
signature_bytes none = 0 ∷ []
signature_bytes (some signature) = 1 ∷ string_bytes signature

unfoldable pub property_bytes : Property → List ℕ
property_bytes p = string_bytes p.name ++ (string_bytes p.value ++ signature_bytes p.signature)

unfoldable pub properties_bytes : List Property → List ℕ
properties_bytes [] = []
properties_bytes (p ∷ ps) = property_bytes p ++ properties_bytes ps

abbrev SignatureFits : Option (List ℕ) → Type 0
SignatureFits none = Unit {0}
SignatureFits (some signature) = Fits signature max_property_signature_length

record PropertyFits (p : Property) : Type 0 where
  name : Fits p.name max_property_string_length
  value : Fits p.value max_property_string_length
  signature : SignatureFits p.signature

abbrev pub SignatureIsUtf8 : Option (List ℕ) → Type 0
SignatureIsUtf8 none = Unit {0}
SignatureIsUtf8 (some signature) = is_utf8 signature ≡ true

-- The texts of a property are UTF-8.
pub record IsProperty (p : Property) : Type 0 where
  pub name : is_utf8 p.name ≡ true
  pub value : is_utf8 p.value ≡ true
  pub signature : SignatureIsUtf8 p.signature

write_signature-eq_ok :
    (s : Option (List ℕ)) (output wire : List ℕ)
    → write_signature s output ≡ ok tt wire
    → SignatureFits s × (wire ≡ output ++ signature_bytes s)
unfolding write_signature signature_bytes
write_signature-eq_ok none output wire e = (tt, cc)
write_signature-eq_ok (some s) output wire e =
    let (fits, parts) =
      write_string-eq_ok s max_property_signature_length (output ++ (1 ∷ [])) wire e in
    (fits, ground (arith, parts, append_assoc output (1 ∷ []) (string_bytes s)))

write_property-eq_ok :
    (p : Property) (output wire : List ℕ)
    → write_property p output ≡ ok tt wire
    → PropertyFits p × (wire ≡ output ++ property_bytes p)
unfolding write_property property_bytes
write_property-eq_ok p output wire e =
    let (_, a, named, e1) =
      >>=-eq_ok (write_string p.name max_property_string_length) _ output wire tt e in
    let (_, b, valued, signed) =
      >>=-eq_ok (write_string p.value max_property_string_length) _ a wire tt e1 in
    let (n, pa) = write_string-eq_ok p.name max_property_string_length output a named in
    let (v, pb) = write_string-eq_ok p.value max_property_string_length a b valued in
    let (s, pc) = write_signature-eq_ok p.signature b wire signed in
    let last = signature_bytes p.signature in
    (
      record { name = n; value = v; signature = s },
      ground (
        arith,
        pa,
        pb,
        pc,
        append_assoc output (string_bytes p.name) (string_bytes p.value),
        append_assoc output (string_bytes p.name ++ string_bytes p.value) last,
        append_assoc (string_bytes p.name) (string_bytes p.value) last,
      ),
    )

write_properties-eq_ok :
    (ps : List Property) (output wire : List ℕ)
    → write_properties ps output ≡ ok tt wire
    → All PropertyFits ps × (wire ≡ output ++ properties_bytes ps)
unfolding write_properties properties_bytes
write_properties-eq_ok [] output wire e = (tt, ground (arith, e, append-nil output))
write_properties-eq_ok (p ∷ ps) output wire e =
    let (_, a, one, others) = >>=-eq_ok (write_property p) _ output wire tt e in
    let (h, pa) = write_property-eq_ok p output a one in
    let (hs, pb) = write_properties-eq_ok ps a wire others in
    ((h, hs), ground (arith, pa, pb, append_assoc output (property_bytes p) (properties_bytes ps)))

write_count-eq_ok :
    (n : ℕ) (output wire : List ℕ)
    → write_count n output ≡ ok tt wire
    → (n ≤ max_properties_count) × (wire ≡ output ++ var_int_bytes (pos n))
unfolding write_count
write_count-eq_ok n output wire e =
    (ground arith, ground (arith, encode_var_int-append (pos n) output))

signature_read :
    (s : Option (List ℕ)) (rest : List ℕ)
    → SignatureIsUtf8 s
    → SignatureFits s
    → (has : Bool) × (tail : List ℕ) × (flag_byte (signature_bytes s ++ rest) ≡ ok has tail)
      × (signature_field has tail ≡ ok s rest)
unfolding signature_bytes flag_byte signature_field
signature_read none rest u h = (false, rest, refl, refl)
signature_read (some s) rest u h = (
  true,
  string_bytes s ++ rest,
  refl,
  ground (arith, string_field-bytes s max_property_signature_length rest u h),
)

property_field-bytes :
    (p : Property) (rest : List ℕ)
    → IsProperty p
    → PropertyFits p
    → property_field (property_bytes p ++ rest) ≡ ok p rest
unfolding property_field property_bytes
property_field-bytes p rest u h =
    let last = signature_bytes p.signature in
    let (has, tail, flagged, read) = signature_read p.signature rest u.signature h.signature in
    ground (
      arith,
      append_assoc (string_bytes p.name) (string_bytes p.value ++ last) rest,
      append_assoc (string_bytes p.value) last rest,
      string_field-bytes p.name max_property_string_length (string_bytes p.value ++ (last ++ rest))
          u.name h.name,
      string_field-bytes p.value max_property_string_length (last ++ rest) u.value h.value,
      flagged,
      read,
    )

property_fields-bytes :
    (ps : List Property) (rest : List ℕ)
    → All IsProperty ps
    → All PropertyFits ps
    → property_fields (length ps) (properties_bytes ps ++ rest) ≡ ok ps rest
unfolding property_fields properties_bytes
property_fields-bytes [] rest u h = refl
property_fields-bytes (p ∷ ps) rest (u, us) (h, hs) = ground (
  arith,
  append_assoc (property_bytes p) (properties_bytes ps) rest,
  property_field-bytes p (properties_bytes ps ++ rest) u h,
  property_fields-bytes ps rest us hs,
)

count_field-bytes :
    (n : ℕ) (rest : List ℕ)
    → n ≤ max_properties_count
    → count_field (var_int_bytes (pos n) ++ rest) ≡ ok n rest
unfolding count_field
count_field-bytes n rest h = ground (arith, decode_var_int-bytes (pos n) rest (omega arith))

pub record IsLoginSuccess (p : LoginSuccess) : Type 0 where
  pub uuid : IsUuid p.uuid
  pub username : is_utf8 p.username ≡ true
  pub properties : All IsProperty p.properties

unfoldable pub login_success_bytes : LoginSuccess → List ℕ
login_success_bytes p =
    uuid_bytes p.uuid
    ++ (string_bytes p.username
        ++ (var_int_bytes (pos (length p.properties)) ++ properties_bytes p.properties))

record BodyFits (p : LoginSuccess) : Type 0 where
  username : Fits p.username max_username_length
  count : length p.properties ≤ max_properties_count
  properties : All PropertyFits p.properties

login_success_body-eq_ok :
    (p : LoginSuccess) (body : List ℕ)
    → login_success_body p [] ≡ ok tt body
    → BodyFits p × (body ≡ login_success_bytes p)
unfolding login_success_body login_success_bytes
login_success_body-eq_ok p body e =
    let id = uuid_bytes p.uuid in
    let (_, a, named, e1) =
      >>=-eq_ok (write_string p.username max_username_length) _ (encode_uuid p.uuid []) body tt e in
    let (_, b, counted, listed) = >>=-eq_ok (write_count (length p.properties)) _ a body tt e1 in
    let (n, pa) =
      write_string-eq_ok p.username max_username_length (encode_uuid p.uuid []) a named in
    let (c, pb) = write_count-eq_ok (length p.properties) a b counted in
    let (l, pc) = write_properties-eq_ok p.properties b body listed in
    let count = var_int_bytes (pos (length p.properties)) in
    let last = properties_bytes p.properties in
    (
      record { username = n; count = c; properties = l },
      ground (
        arith,
        encode_uuid-append p.uuid [],
        pa,
        pb,
        pc,
        append_assoc (id ++ string_bytes p.username) count last,
        append_assoc id (string_bytes p.username) (count ++ last),
      ),
    )

login_success_fields-bytes :
    (p : LoginSuccess)
    → IsLoginSuccess p
    → BodyFits p
    → login_success_fields (login_success_bytes p) ≡ ok (login_success p) []
unfolding login_success_fields login_success_bytes
login_success_fields-bytes p v h =
    let count = var_int_bytes (pos (length p.properties)) in
    let last = properties_bytes p.properties in
    ground (
      arith,
      decode_uuid-bytes p.uuid (string_bytes p.username ++ (count ++ last)) v.uuid,
      string_field-bytes p.username max_username_length (count ++ last) v.username h.username,
      count_field-bytes (length p.properties) last h.count,
      property_fields-bytes p.properties [] v.properties h.properties,
      append-nil last,
    )

-- A Login Success packet of UTF-8 texts and a UUID of i64 halves, with any properties and signatures, that `encode_login_success`
-- accepts decodes under the same maximum to the same packet, and the input then stands at whatever
-- follows the frame.
pub decode_login_success-encode_login_success :
    (p : LoginSuccess) (maximum : ℕ) (wire rest : List ℕ)
    → IsLoginSuccess p
    → encode_login_success p maximum [] ≡ ok tt wire
    → decode_login_success maximum (wire ++ rest)
      ≡ ok (LoginDecodeOutcome.complete (login_success p)) rest
unfolding decode_login_success encode_login_success
decode_login_success-encode_login_success p maximum wire rest v e =
    let (body, built, sent) =
      sent_frame (login_success_body p) login_success_packet_id maximum wire e in
    let (fits, parts) = login_success_body-eq_ok p body built in
    decode_packet-encode_frame login_success_packet_id login_success_fields body (login_success p)
      maximum wire rest (omega arith) sent (rw parts (login_success_fields-bytes p v fits))
