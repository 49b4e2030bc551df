-- ===== src/Protocol/Framing/Lengths.antt =====
-- `var_int_length` against the encoder, and `validated_frame_length`.
use rustbound_server.Prelude.{
  ℕ, ◌+◌, ◌/◌, ◌%◌, ◌*◌, ◌^◌, ◌-◌, ap, ◌∙◌, ◌≤◌, ◌<◌, ◌≡◌, arith, bit_and, length, ltb,
  if◌then◌else◌,
}
use rustbound_server.Prelude.Bits.{bit_and-above, bit_and_mask}
use rustbound_server.Prelude.Buffer.{success, failure}
use rustbound_server.Prelude.Int.{ℤ, pos}
use rustbound_server.Prelude.Words.{as_unsigned, as_unsigned-lt}
use rustbound_server.Protocol.Primitives.VarInt.Encode.{groups, var_int_bytes}
use rustbound_server.Protocol.Framing.{
  var_int_length, validated_frame_length, effective_max_length, frame_too_long,
  protocol_max_frame_length,
}

-- The bits of `b` above the lowest k.
high_bits : (k j b : ℕ) → bit_and b ((2 ^ j - 1) * 2 ^ k) ≡ b / 2 ^ k % 2 ^ j * 2 ^ k
high_bits k j b =
    bit_and-above k b (2 ^ j - 1) ∙ ap (λ (t : ℕ). t * 2 ^ k) (bit_and_mask j (b / 2 ^ k))

length-groups_four :
    (b : ℕ)
    → b < 2 ^ 32
    → length (groups 4 b) ≡ (
        if ltb b (2 ^ 7)
        then 1
        else if ltb b (2 ^ 14)
        then 2
        else if ltb b (2 ^ 21)
        then 3
        else if ltb b (2 ^ 28)
        then 4
        else 5)
unfolding groups
length-groups_four b h = ground arith

-- `var_int_length` is the number of bytes that `encode_var_int` appends.
pub var_int_length-length : (v : ℤ) → var_int_length v ≡ length (var_int_bytes v)
unfolding var_int_length var_int_bytes
var_int_length-length v =
    let b = as_unsigned (2 ^ 32) v in
    let small = as_unsigned-lt (2 ^ 32) v (omega arith) in
    ground (
      arith,
      small,
      length-groups_four b,
      high_bits 7 25 b,
      high_bits 14 18 b,
      high_bits 21 11 b,
      high_bits 28 4 b,
    )

-- A frame that fits the effective maximum has its length as an `i32`.
pub validated_frame_length_fits :
    (id : ℤ) (n maximum : ℕ)
    → length (var_int_bytes id) + n ≤ effective_max_length maximum
    → validated_frame_length id n maximum ≡ success (pos (length (var_int_bytes id) + n))
unfolding validated_frame_length
validated_frame_length_fits id n maximum h = ground (arith, var_int_length-length id)

-- Any other is refused with its length, unless the sum overflows a `usize`.
pub validated_frame_length_too_long :
    (id : ℤ) (n maximum : ℕ)
    → effective_max_length maximum < length (var_int_bytes id) + n
    → length (var_int_bytes id) + n < 2 ^ 64
    → validated_frame_length id n maximum
      ≡ failure (frame_too_long (length (var_int_bytes id) + n) (effective_max_length maximum))
unfolding validated_frame_length
validated_frame_length_too_long id n maximum h g = ground (arith, var_int_length-length id)

-- A length up to the protocol's maximum takes three prefix bytes at most.
pub length_prefix_short :
    (n : ℕ) → n ≤ protocol_max_frame_length → length (var_int_bytes (pos n)) ≤ 3
unfolding var_int_bytes as_unsigned
length_prefix_short n h = ground (arith, length-groups_four (n % 2 ^ 32))

pub validated_frame_length-eq_success :
    (id : ℤ) (n maximum : ℕ) (l : ℤ)
    → validated_frame_length id n maximum ≡ success l
    → length (var_int_bytes id) + n ≤ effective_max_length maximum
unfolding validated_frame_length
validated_frame_length-eq_success id n maximum l h = ground (arith, var_int_length-length id)
