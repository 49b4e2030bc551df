-- ===== src/Protocol/Primitives/VarInt/RoundTrip.antt =====
-- The VarInt decoders on what the encoders write.
use native.Mathlib.Nat.{div-add-mod, mod-eq_of_lt, mul-le-mul_right}
use native.Mathlib.Numerals.{towards_suc}
use rustbound_server.Prelude.{
  ℕ, zero, suc, ◌+◌, ◌*◌, ◌/◌, ◌%◌, ◌^◌, ◌≤◌, ◌<◌, ◌≡◌, ap, ◌∙◌, arith, List, [], ◌∷◌, ◌++◌,
}
use rustbound_server.Prelude.Bits.{bit_and_mask, bit_and_top, bit_or-above}
use rustbound_server.Prelude.Buffer.{ok}
use rustbound_server.Prelude.Int.{ℤ}
use rustbound_server.Prelude.Words.{
  IsI32, IsI64, as_unsigned, as_unsigned-lt, as_signed-as_unsigned,
}
use rustbound_server.Protocol.Primitives.{CodecError, var_int_too_long, var_long_too_long}
use rustbound_server.Protocol.Primitives.VarInt.{
  encode_var_int, encode_var_long, decode_groups, decode_var_int, decode_var_long, signed_result,
}
use rustbound_server.Protocol.Primitives.VarInt.Encode.{
  groups, var_int_bytes, var_long_bytes, encode_var_int-append, encode_var_long-append,
}

pub next_shift : (i : ℕ) → 2 ^ ((i + 1) * 7) ≡ 128 * 2 ^ (i * 7)
next_shift i =
    let e : (i + 1) * 7 ≡ i * 7 + 7 = omega arith in
    ap (λ (t : ℕ). 2 ^ t) e ∙ simp towards_suc (omega arith)

-- The lowest group of `w` and the rest, both at shift `p`.
split_group : (w p : ℕ) → w * p ≡ w % 128 * p + w / 128 * (128 * p)
split_group w p = omega (arith, ap (λ (t : ℕ). t * p) (div-add-mod w 128))

pub group_fits : (w p acc : ℕ) → acc < p → acc + w % 128 * p < 128 * p
group_fits w p acc h = omega (arith, mul-le-mul_right {m = w % 128} {n = 127} p (omega arith))

module _ (too_long : CodecError) (modulus : ℕ) (source : List ℕ) where
  -- One round on a last byte, and on a byte with the continuation bit.
  last_round :
      (w i acc r : ℕ) (rest : List ℕ)
      → w < 128
      → acc < 2 ^ (i * 7)
      → acc + w * 2 ^ (i * 7) < modulus
      → decode_groups too_long modulus source (suc r) i acc (w ∷ rest)
        ≡ ok (acc + w * 2 ^ (i * 7)) rest
  unfolding decode_groups
  last_round w i acc r rest hw low fits = ground (
    arith,
    bit_and_mask 7 w,
    bit_and_top w,
    mod-eq_of_lt {n = w * 2 ^ (i * 7)} {m = modulus} (omega arith),
    bit_or-above (i * 7) acc w low,
  )

  inner_round :
      (g i acc r : ℕ) (rest : List ℕ)
      → g < 128
      → acc < 2 ^ (i * 7)
      → acc + g * 2 ^ (i * 7) < modulus
      → decode_groups too_long modulus source (suc r) i acc ((g + 128) ∷ rest)
        ≡ decode_groups too_long modulus source r (i + 1) (acc + g * 2 ^ (i * 7)) rest
  unfolding decode_groups
  inner_round g i acc r rest hg low fits = ground (
    arith,
    bit_and_mask 7 (g + 128),
    bit_and_top (g + 128),
    mod-eq_of_lt {n = g * 2 ^ (i * 7)} {m = modulus} (omega arith),
    bit_or-above (i * 7) acc g low,
  )

  -- `w` is what is still to be read, from bit `7 * i` on.
  pub decode_groups-groups :
      (k w i acc r : ℕ) (rest : List ℕ)
      → w < 128 ^ suc k
      → k ≤ r
      → acc < 2 ^ (i * 7)
      → acc + w * 2 ^ (i * 7) < modulus
      → decode_groups too_long modulus source (suc r) i acc (groups k w ++ rest)
        ≡ ok (acc + w * 2 ^ (i * 7)) rest
  unfolding groups
  decode_groups-groups zero w i acc r rest hw hr low fits =
      last_round w i acc r rest (omega arith) low fits
  decode_groups-groups (suc k) w i acc zero rest hw hr low fits = absurd (omega arith)
  decode_groups-groups (suc k) w i acc (suc r) rest hw hr low fits = ground (
    arith,
    last_round w i acc (suc r) rest,
    next_shift i,
    split_group w (2 ^ (i * 7)),
    group_fits w (2 ^ (i * 7)) acc low,
    inner_round (w % 128) i acc (suc r) (groups k (w / 128) ++ rest),
    decode_groups-groups k (w / 128) (i + 1) (acc + w % 128 * 2 ^ (i * 7)) r rest (omega arith),
  )

pub decode_var_int-bytes :
    (v : ℤ) (rest : List ℕ) → IsI32 v → decode_var_int (var_int_bytes v ++ rest) ≡ ok v rest
unfolding decode_var_int signed_result var_int_bytes
decode_var_int-bytes v rest h =
    let w = as_unsigned (2 ^ 32) v in
    let small = as_unsigned-lt (2 ^ 32) v (omega arith) in
    let bytes = groups 4 w ++ rest in
    let word : decode_groups var_int_too_long (2 ^ 32) bytes 5 0 0 bytes ≡ ok w rest =
      decode_groups-groups _ (2 ^ 32) bytes 4 w 0 0 4 rest (omega arith) (omega arith) (omega arith)
        (omega arith)
      ∙ ap (λ (t : ℕ). ok t rest) (omega arith) in
    rw word (rw (as_signed-as_unsigned (2 ^ 31) v h))

pub decode_var_long-bytes :
    (v : ℤ) (rest : List ℕ) → IsI64 v → decode_var_long (var_long_bytes v ++ rest) ≡ ok v rest
unfolding decode_var_long signed_result var_long_bytes
decode_var_long-bytes v rest h =
    let w = as_unsigned (2 ^ 64) v in
    let small = as_unsigned-lt (2 ^ 64) v (omega arith) in
    let bytes = groups 9 w ++ rest in
    let word : decode_groups var_long_too_long (2 ^ 64) bytes 10 0 0 bytes ≡ ok w rest =
      decode_groups-groups _ (2 ^ 64) bytes 9 w 0 0 9 rest (omega arith) (omega arith) (omega arith)
        (omega arith)
      ∙ ap (λ (t : ℕ). ok t rest) (omega arith) in
    rw word (rw (as_signed-as_unsigned (2 ^ 63) v h))

-- A VarInt that was encoded decodes to the same 32-bit value, whatever bytes follow it, and the
-- input then stands at those bytes.
pub decode_var_int-encode_var_int :
    (v : ℤ) (rest : List ℕ) → IsI32 v → decode_var_int (encode_var_int v [] ++ rest) ≡ ok v rest
decode_var_int-encode_var_int v rest h =
    rw (encode_var_int-append v []) (decode_var_int-bytes v rest h)

-- A VarLong that was encoded decodes to the same 64-bit value, whatever bytes follow it, and the
-- input then stands at those bytes.
pub decode_var_long-encode_var_long :
    (v : ℤ) (rest : List ℕ) → IsI64 v → decode_var_long (encode_var_long v [] ++ rest) ≡ ok v rest
decode_var_long-encode_var_long v rest h =
    rw (encode_var_long-append v []) (decode_var_long-bytes v rest h)
