-- ===== src/Protocol/Primitives/VarInt.antt =====
-- primitives.rs, VarInt and VarLong. The two encoders have one loop, over a word that is shifted
-- right until it is 0; the two decoders have one loop over the rounds that are left.
pub mod Encode
pub mod Decode
pub mod RoundTrip
pub mod Reference
use mathlib.Core.Logic.{dite}
use mathlib.Core.WellFounded.{Acc}
use rustbound_server.Prelude.{
  ℕ, zero, suc, ◌+◌, ◌*◌, ◌/◌, ◌%◌, ◌^◌, ◌<◌, arith, bit_and, bit_or, List, [], ◌∷◌, ◌++◌, ◌==◌,
  if◌then◌else◌, dec_lt,
}
use rustbound_server.Prelude.Int.{ℤ}
use rustbound_server.Prelude.Order.{lt_wf}
use rustbound_server.Prelude.Words.{as_unsigned, as_signed}
use rustbound_server.Prelude.Buffer.{Outcome, Action, ok, err}
use rustbound_server.Protocol.Primitives.{
  CodecError, incomplete_input, var_int_too_long, var_long_too_long,
}

shift_shrinks : (v : ℕ) → 0 < v / 128 → v / 128 < v
shift_shrinks v h = omega arith

-- `loop { byte = remaining & 0x7f; remaining >>= 7; … output.push(byte); … }`
unfoldable pub encode_groups : List ℕ → (remaining : ℕ) → Acc ◌<◌ remaining → List ℕ
unfolding shift_shrinks
encode_groups output remaining (Acc.intro _ smaller) =
    let byte = bit_and remaining 0x7f in
    dite (dec_lt 0 (remaining / 128))
      (λ more.
        encode_groups (output ++ (bit_or byte 0x80 ∷ [])) (remaining / 128)
          (smaller _ (shift_shrinks remaining more)))
      (λ _. output ++ (byte ∷ []))

unfoldable pub encode_var_int : ℤ → List ℕ → List ℕ
encode_var_int value output =
    encode_groups output (as_unsigned (2 ^ 32) value) (lt_wf.apply (as_unsigned (2 ^ 32) value))

unfoldable pub encode_var_long : ℤ → List ℕ → List ℕ
encode_var_long value output =
    encode_groups output (as_unsigned (2 ^ 64) value) (lt_wf.apply (as_unsigned (2 ^ 64) value))

-- `for index in …`: `rounds` are left, `tail` is `source[index..]`, and words wrap at `modulus`.
unfoldable pub decode_groups : CodecError → ℕ → List ℕ → ℕ → ℕ → ℕ → Action CodecError ℕ
decode_groups too_long modulus source zero index result tail = err too_long source
decode_groups too_long modulus source (suc rounds) index result [] = err incomplete_input source
decode_groups too_long modulus source (suc rounds) index result (byte ∷ tail) =
    let payload = bit_and byte 0x7f in
    let result' = bit_or result (payload * 2 ^ (index * 7) % modulus) in
    let more = decode_groups too_long modulus source rounds (index + 1) result' tail in
    if bit_and byte 0x80 == 0 then ok result' tail else more

-- `Ok(result as iW)`, for 2 * `half` that is 2 ^ W.
unfoldable pub signed_result : ℕ → Outcome CodecError ℕ → Outcome CodecError ℤ
signed_result half (ok word rest) = ok (as_signed half word) rest
signed_result half (err e rest) = err e rest

unfoldable pub decode_var_int : Action CodecError ℤ
decode_var_int input =
    signed_result (2 ^ 31) (decode_groups var_int_too_long (2 ^ 32) input 5 0 0 input)

unfoldable pub decode_var_long : Action CodecError ℤ
decode_var_long input =
    signed_result (2 ^ 63) (decode_groups var_long_too_long (2 ^ 64) input 10 0 0 input)
