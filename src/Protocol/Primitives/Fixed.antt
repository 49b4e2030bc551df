-- ===== src/Protocol/Primitives/Fixed.antt =====
-- primitives.rs, the fixed-width codecs: big-endian words, booleans, packed positions and UUIDs.
-- A float is its bit pattern, which is all that its codec looks at.
pub mod RoundTrip
pub mod Position
use rustbound_server.Prelude.{
  ℕ, ◌+◌, ◌*◌, ◌%◌, ◌^◌, bit_and, bit_or, List, [], ◌∷◌, ◌++◌, ◌==◌, if◌then◌else◌, Bool, true,
  false, none, some,
}
use rustbound_server.Prelude.Int.{ℤ}
use rustbound_server.Prelude.Words.{
  as_unsigned, as_signed, to_be_bytes, from_be_bytes, shift_right, shift_left_i64, as_i32,
}
use rustbound_server.Prelude.Buffer.{Outcome, Action, ok, err, split_front}
use rustbound_server.Protocol.Primitives.{CodecError, incomplete_input, invalid_boolean}

-- `source.get(..n).ok_or(IncompleteInput)?`, `from_be_bytes` and the advance, which the decoders
-- of n-byte words share.
unfoldable pub decode_be : ℕ → Action CodecError ℕ
decode_be n source = elim (split_front n source) [
  | none ↦ err incomplete_input source
  | some (bytes, rest) ↦ ok (from_be_bytes bytes) rest
]

-- `word as iW`, for 2 * `half` that is 2 ^ W.
unfoldable pub signed_word : ℕ → Outcome CodecError ℕ → Outcome CodecError ℤ
signed_word half (ok word rest) = ok (as_signed half word) rest
signed_word half (err e rest) = err e rest

unfoldable pub encode_u16 : ℕ → List ℕ → List ℕ
encode_u16 value output = output ++ to_be_bytes 2 value

unfoldable pub encode_i16 : ℤ → List ℕ → List ℕ
encode_i16 value output = output ++ to_be_bytes 2 (as_unsigned (2 ^ 16) value)

unfoldable pub decode_u16 : Action CodecError ℕ
unfolding decode_be
decode_u16 source = decode_be 2 source

unfoldable pub decode_i16 : Action CodecError ℤ
unfolding decode_be signed_word
decode_i16 source = signed_word (2 ^ 15) (decode_be 2 source)

unfoldable pub encode_i32 : ℤ → List ℕ → List ℕ
encode_i32 value output = output ++ to_be_bytes 4 (as_unsigned (2 ^ 32) value)

unfoldable pub decode_i32 : Action CodecError ℤ
unfolding decode_be signed_word
decode_i32 source = signed_word (2 ^ 31) (decode_be 4 source)

unfoldable pub encode_i64 : ℤ → List ℕ → List ℕ
encode_i64 value output = output ++ to_be_bytes 8 (as_unsigned (2 ^ 64) value)

unfoldable pub decode_i64 : Action CodecError ℤ
unfolding decode_be signed_word
decode_i64 source = signed_word (2 ^ 63) (decode_be 8 source)

unfoldable pub encode_f32 : ℕ → List ℕ → List ℕ
encode_f32 bits output = output ++ to_be_bytes 4 bits

unfoldable pub decode_f32 : Action CodecError ℕ
unfolding decode_be
decode_f32 source = decode_be 4 source

unfoldable pub encode_f64 : ℕ → List ℕ → List ℕ
encode_f64 bits output = output ++ to_be_bytes 8 bits

unfoldable pub decode_f64 : Action CodecError ℕ
unfolding decode_be
decode_f64 source = decode_be 8 source

-- The packed word of a block position: x in 26 bits, z in 26 bits, y in 12 bits.
unfoldable pub position_word : ℤ → ℤ → ℤ → ℕ
position_word x y z =
    let x' = bit_and (as_unsigned (2 ^ 64) x) 0x3ff_ffff in
    let y' = bit_and (as_unsigned (2 ^ 64) y) 0xfff in
    let z' = bit_and (as_unsigned (2 ^ 64) z) 0x3ff_ffff in
    bit_or (bit_or (x' * 2 ^ 38 % 2 ^ 64) (z' * 2 ^ 12 % 2 ^ 64)) y'

unfoldable pub encode_position : ℤ → ℤ → ℤ → List ℕ → List ℕ
unfolding position_word
encode_position x y z output = encode_i64 (as_signed (2 ^ 63) (position_word x y z)) output

-- The three fields of a packed word, sign-extended by shifts.
unfoldable pub position_fields : ℤ → ℤ × ℤ × ℤ
position_fields value = (
  as_i32 (shift_right value 38),
  as_i32 (shift_right (shift_left_i64 value 52) 52),
  as_i32 (shift_right (shift_left_i64 value 26) 38),
)

unfoldable pub decode_position : Action CodecError (ℤ × ℤ × ℤ)
unfolding position_fields
decode_position source = elim (decode_i64 source) [
  | ok value rest ↦ ok (position_fields value) rest
  | err e rest ↦ err e rest
]

unfoldable pub encode_bool : Bool → List ℕ → List ℕ
encode_bool value output = output ++ ((if value then 1 else 0) ∷ [])

unfoldable pub decode_bool : Action CodecError Bool
decode_bool [] = err incomplete_input []
decode_bool (byte ∷ rest) =
    if byte == 0
    then ok false rest
    else if byte == 1
    then ok true rest
    else err invalid_boolean (byte ∷ rest)

unfoldable pub encode_i8 : ℤ → List ℕ → List ℕ
encode_i8 value output = output ++ (as_unsigned (2 ^ 8) value ∷ [])

unfoldable pub decode_i8 : Action CodecError ℤ
decode_i8 [] = err incomplete_input []
decode_i8 (byte ∷ rest) = ok (as_signed (2 ^ 7) byte) rest

unfoldable pub encode_u8 : ℕ → List ℕ → List ℕ
encode_u8 value output = output ++ (value ∷ [])

unfoldable pub decode_u8 : Action CodecError ℕ
decode_u8 [] = err incomplete_input []
decode_u8 (byte ∷ rest) = ok byte rest

pub record Uuid : Type 0 where
  pub most_significant : ℤ
  pub least_significant : ℤ

unfoldable pub encode_uuid : Uuid → List ℕ → List ℕ
encode_uuid value output =
    encode_i64 value.least_significant (encode_i64 value.most_significant output)

-- The second half's failure puts the input back, where it is `IncompleteInput`.
unfoldable pub decode_uuid_low : List ℕ → ℤ → Outcome CodecError ℤ → Outcome CodecError Uuid
decode_uuid_low source most (ok least rest) =
    ok (record { most_significant = most; least_significant = least }) rest
decode_uuid_low source most (err incomplete_input rest) = err incomplete_input source
decode_uuid_low source most (err e rest) = err e rest

unfoldable pub decode_uuid : Action CodecError Uuid
unfolding decode_uuid_low
decode_uuid source = elim (decode_i64 source) [
  | ok most rest ↦ decode_uuid_low source most (decode_i64 rest)
  | err e rest ↦ err e rest
]
