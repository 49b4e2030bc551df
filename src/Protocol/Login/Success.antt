-- ===== src/Protocol/Login/Success.antt =====
-- login.rs: Login Success, with its list of properties.
use rustbound_server.Prelude.{
  ℕ, zero, suc, List, [], ◌∷◌, length, ltb, if◌then◌else◌, Bool, true, false, Option, none, some,
  ◌++◌,
}
use rustbound_server.Prelude.Int.{ℤ, pos}
use rustbound_server.Prelude.Words.{to_usize, to_i32}
use rustbound_server.Prelude.Buffer.{Action, ◌>>=◌, ◌>>◌, done, fail, write, map_err, with_body}
use rustbound_server.Protocol.Primitives.{string_too_long, var_int_too_long}
use rustbound_server.Protocol.Primitives.VarInt.{encode_var_int}
use rustbound_server.Protocol.Primitives.Fixed.{encode_uuid, decode_uuid}
use rustbound_server.Protocol.Primitives.Text.{max_username_length}
use rustbound_server.Protocol.Login.{
  LoginError, codec, Property, LoginSuccess, LoginPacket, LoginDecodeOutcome, login_success,
  from_codec, decode_packet, send_packet, string_field, write_string, var_int_field, flag_byte,
}

abbrev pub login_success_packet_id : ℤ
login_success_packet_id = pos 2

abbrev pub max_properties_count : ℕ
max_properties_count = 1024

abbrev pub max_property_string_length : ℕ
max_property_string_length = 32767

abbrev pub max_property_signature_length : ℕ
max_property_signature_length = 32767

-- The flag byte, and the signature behind it where there is one.
unfoldable pub write_signature : Option (List ℕ) → Action LoginError (Unit {0})
write_signature none = write (λ body. body ++ (0 ∷ []))
write_signature (some signature) = do
  write (λ body. body ++ (1 ∷ []))
  write_string signature max_property_signature_length

unfoldable pub write_property : Property → Action LoginError (Unit {0})
unfolding write_signature
write_property property = do
  write_string property.name max_property_string_length
  write_string property.value max_property_string_length
  write_signature property.signature

unfoldable pub write_properties : List Property → Action LoginError (Unit {0})
write_properties [] = done tt
write_properties (property ∷ rest) = write_property property >> write_properties rest

-- The count is checked before it is written; a length that is no `i32` is refused first.
unfoldable pub write_count : ℕ → Action LoginError (Unit {0})
unfolding to_i32
write_count n = elim (to_i32 n) [
  | none ↦ fail (codec var_int_too_long)
  | some count ↦
      if ltb max_properties_count n
      then fail (codec string_too_long)
      else write (encode_var_int count)
]

unfoldable pub login_success_body : LoginSuccess → Action LoginError (Unit {0})
unfolding write_count write_properties
login_success_body packet = do
  write (encode_uuid packet.uuid)
  write_string packet.username max_username_length
  write_count (length packet.properties)
  write_properties packet.properties

unfoldable pub encode_login_success : LoginSuccess → ℕ → Action LoginError (Unit {0})
unfolding login_success_body
encode_login_success packet max_frame_length =
    with_body (login_success_body packet) (send_packet login_success_packet_id max_frame_length)

unfoldable pub signature_field : Bool → Action LoginError (Option (List ℕ))
signature_field true = do
  signature ← string_field max_property_signature_length
  done (some signature)
signature_field false = done none

unfoldable pub property_field : Action LoginError Property
unfolding flag_byte signature_field
property_field = do
  name ← string_field max_property_string_length
  value ← string_field max_property_string_length
  has_signature ← flag_byte
  signature ← signature_field has_signature
  done (record { name = name; value = value; signature = signature })

-- `for _ in 0..count`.
unfoldable pub property_fields : ℕ → Action LoginError (List Property)
property_fields zero = done []
property_fields (suc n) = do
  property ← property_field
  properties ← property_fields n
  done (property ∷ properties)

unfoldable pub count_field : Action LoginError ℕ
unfolding to_usize
count_field = do
  encoded ← var_int_field
  elim (to_usize encoded) [
    | none ↦ fail (codec var_int_too_long)
    | some count ↦
        if ltb max_properties_count count then fail (codec string_too_long) else done count
  ]

unfoldable pub login_success_fields : Action LoginError LoginPacket
unfolding count_field property_fields
login_success_fields = do
  uuid ← map_err from_codec decode_uuid
  username ← string_field max_username_length
  count ← count_field
  properties ← property_fields count
  done (login_success (record { uuid = uuid; username = username; properties = properties }))

unfoldable pub decode_login_success : ℕ → Action LoginError LoginDecodeOutcome
unfolding login_success_fields
decode_login_success = decode_packet login_success_packet_id login_success_fields
