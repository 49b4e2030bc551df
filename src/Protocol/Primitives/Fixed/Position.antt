-- ===== src/Protocol/Primitives/Fixed/Position.antt =====
-- Packed block positions.
use rustbound_server.Prelude.{ℕ, ◌+◌, ◌*◌, ◌%◌, ◌^◌, ◌<◌, ◌≡◌, arith, List, [], ◌++◌}
use rustbound_server.Prelude.Bits.{bit_and_mask, bit_or-below}
use rustbound_server.Prelude.Buffer.{ok}
use rustbound_server.Prelude.Int.{ℤ, pos, negsuc}
use rustbound_server.Prelude.Words.{
  IsSigned, IsI64, as_unsigned, as_unsigned-lt, as_signed, as_signed-IsSigned,
  as_signed-as_unsigned, shift_right, shift_left_i64, as_i32,
}
use rustbound_server.Protocol.Primitives.Fixed.{
  encode_i64, position_word, encode_position, position_fields, decode_position,
}
use rustbound_server.Protocol.Primitives.Fixed.RoundTrip.{decode_i64-bytes}

-- The fields lie side by side.
position_word_sum :
    (x y z : ℤ)
    → position_word x y z
      ≡ as_unsigned (2 ^ 64) x % 2 ^ 26 * 2 ^ 38
        + as_unsigned (2 ^ 64) z % 2 ^ 26 * 2 ^ 12
        + as_unsigned (2 ^ 64) y % 2 ^ 12
unfolding position_word
position_word_sum x y z =
    let a = as_unsigned (2 ^ 64) x in
    let b = as_unsigned (2 ^ 64) y in
    let c = as_unsigned (2 ^ 64) z in
    ground (
      arith,
      bit_and_mask 26 a,
      bit_and_mask 12 b,
      bit_and_mask 26 c,
      bit_or-below 38 (a % 2 ^ 26) (c % 2 ^ 26 * 2 ^ 12) (omega arith),
      bit_or-below 12 (a % 2 ^ 26 * 2 ^ 26 + c % 2 ^ 26) (b % 2 ^ 12) (omega arith),
    )

-- The 26-bit residue of a signed 26-bit value.
residue26 : (v : ℤ) → IsSigned (2 ^ 25) v → as_unsigned (2 ^ 64) v % 2 ^ 26 ≡ as_unsigned (2 ^ 26) v
unfolding as_unsigned
residue26 (pos n) h = omega arith
residue26 (negsuc n) h = omega arith

residue12 : (v : ℤ) → IsSigned (2 ^ 11) v → as_unsigned (2 ^ 64) v % 2 ^ 12 ≡ as_unsigned (2 ^ 12) v
unfolding as_unsigned
residue12 (pos n) h = omega arith
residue12 (negsuc n) h = omega arith

-- Shifting a word of three fields down sign-extends each.
module _ (a c b : ℕ) (ha : a < 2 ^ 26) (hc : c < 2 ^ 26) (hb : b < 2 ^ 12) where
  field_x :
      as_i32 (shift_right (as_signed (2 ^ 63) (a * 2 ^ 38 + c * 2 ^ 12 + b)) 38)
      ≡ as_signed (2 ^ 25) a
  unfolding as_i32 shift_right as_signed as_unsigned
  field_x = ground arith

  field_y :
      as_i32 (shift_right (shift_left_i64 (as_signed (2 ^ 63) (a * 2 ^ 38 + c * 2 ^ 12 + b)) 52) 52)
      ≡ as_signed (2 ^ 11) b
  unfolding as_i32 shift_right shift_left_i64 as_signed as_unsigned
  field_y = ground arith

  field_z :
      as_i32 (shift_right (shift_left_i64 (as_signed (2 ^ 63) (a * 2 ^ 38 + c * 2 ^ 12 + b)) 26) 38)
      ≡ as_signed (2 ^ 25) c
  unfolding as_i32 shift_right shift_left_i64 as_signed as_unsigned
  field_z = ground arith

-- A position packs where x and z take 26 bits and y takes 12.
pub record IsPackable (x y z : ℤ) : Type 0 where
  pub x_fits : IsSigned (2 ^ 25) x
  pub y_fits : IsSigned (2 ^ 11) y
  pub z_fits : IsSigned (2 ^ 25) z

position_fields-word :
    (x y z : ℤ)
    → IsPackable x y z
    → position_fields (as_signed (2 ^ 63) (position_word x y z)) ≡ (x, y, z)
unfolding position_fields
position_fields-word x y z h =
    let a = as_unsigned (2 ^ 26) x in
    let b = as_unsigned (2 ^ 12) y in
    let c = as_unsigned (2 ^ 26) z in
    let ha = as_unsigned-lt (2 ^ 26) x (omega arith) in
    let hb = as_unsigned-lt (2 ^ 12) y (omega arith) in
    let hc = as_unsigned-lt (2 ^ 26) z (omega arith) in
    let word : position_word x y z ≡ a * 2 ^ 38 + c * 2 ^ 12 + b = omega (
      arith,
      position_word_sum x y z,
      residue26 x h.x_fits,
      residue26 z h.z_fits,
      residue12 y h.y_fits,
    ) in
    rw (
      word,
      field_x a c b ha hc hb,
      field_y a c b ha hc hb,
      field_z a c b ha hc hb,
      as_signed-as_unsigned (2 ^ 25) x h.x_fits,
      as_signed-as_unsigned (2 ^ 11) y h.y_fits,
      as_signed-as_unsigned (2 ^ 25) z h.z_fits,
    )

position_word-lt : (x y z : ℤ) → position_word x y z < 2 ^ 64
position_word-lt x y z = omega (arith, position_word_sum x y z)

-- A block position whose x and z lie in [-2^25, 2^25) and y in [-2^11, 2^11) decodes to the same
-- coordinates, whatever bytes follow it.
pub decode_position-encode_position :
    (x y z : ℤ) (rest : List ℕ)
    → IsPackable x y z
    → decode_position (encode_position x y z [] ++ rest) ≡ ok (x, y, z) rest
unfolding decode_position encode_position encode_i64
decode_position-encode_position x y z rest h =
    let value = as_signed (2 ^ 63) (position_word x y z) in
    let fits : IsI64 value =
      as_signed-IsSigned (2 ^ 63) (position_word x y z) (position_word-lt x y z) in
    rw (decode_i64-bytes value rest fits, decode_position) (rw (position_fields-word x y z h))
