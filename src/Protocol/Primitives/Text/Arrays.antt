-- ===== src/Protocol/Primitives/Text/Arrays.antt =====
-- Byte arrays: `decode_byte_array` on what `encode_byte_array` writes, and on negative lengths.
use rustbound_server.Prelude.{ℕ, ◌^◌, ◌≤◌, ◌<◌, ◌≡◌, arith, List, [], ◌++◌, length, append_assoc}
use rustbound_server.Prelude.Buffer.{ok, err, split_front-append}
use rustbound_server.Prelude.Int.{pos, negsuc}
use rustbound_server.Protocol.Primitives.{var_int_too_long}
use rustbound_server.Protocol.Primitives.VarInt.{encode_var_int}
use rustbound_server.Protocol.Primitives.VarInt.Encode.{var_int_bytes, encode_var_int-append}
use rustbound_server.Protocol.Primitives.VarInt.RoundTrip.{
  decode_var_int-bytes, decode_var_int-encode_var_int,
}
use rustbound_server.Protocol.Primitives.Text.{
  encode_byte_array, decode_array_after_length, decode_byte_array,
}
use rustbound_server.Protocol.Primitives.Text.RoundTrip.{string_bytes}

pub encode_byte_array_fits :
    (value : List ℕ) (max_length : ℕ) (output : List ℕ)
    → length value ≤ max_length
    → length value < 2 ^ 31
    → encode_byte_array value max_length output ≡ ok tt (output ++ string_bytes value)
unfolding encode_byte_array string_bytes
encode_byte_array_fits value max_length output h g = ground (
  arith,
  encode_var_int-append (pos (length value)) output,
  append_assoc output (var_int_bytes (pos (length value))) value,
)

pub encode_byte_array-eq_ok :
    (value : List ℕ) (max_length : ℕ) (output wire : List ℕ)
    → encode_byte_array value max_length output ≡ ok tt wire
    → (length value ≤ max_length) × (length value < 2 ^ 31)
unfolding encode_byte_array
encode_byte_array-eq_ok value max_length output wire e = ground arith

pub decode_byte_array-bytes :
    (value : List ℕ) (max_length : ℕ) (rest : List ℕ)
    → length value ≤ max_length
    → length value < 2 ^ 31
    → decode_byte_array max_length (string_bytes value ++ rest) ≡ ok value rest
unfolding decode_byte_array decode_array_after_length string_bytes
decode_byte_array-bytes value max_length rest h g =
    rw (append_assoc (var_int_bytes (pos (length value))) value rest) (
      rw (decode_var_int-bytes (pos (length value)) (value ++ rest) g)
        (ground (arith, split_front-append value rest)))

-- A byte array that `encode_byte_array` accepts decodes under the same limit to the same bytes, and
-- the input then stands at whatever follows it.
pub decode_byte_array-encode_byte_array :
    (value : List ℕ) (max_length : ℕ) (wire rest : List ℕ)
    → encode_byte_array value max_length [] ≡ ok tt wire
    → decode_byte_array max_length (wire ++ rest) ≡ ok value rest
decode_byte_array-encode_byte_array value max_length wire rest e =
    let (fits, short) = encode_byte_array-eq_ok value max_length [] wire e in
    let bytes : string_bytes value ≡ wire =
      cc (encode_byte_array_fits value max_length [] fits short, e) in
    rw (← bytes) (decode_byte_array-bytes value max_length rest fits short)

-- Whatever the limit, `decode_byte_array` on an encoded negative length fails and leaves the input
-- behind the length prefix, not where it was.
pub decode_byte_array_negative :
    (max_length n : ℕ) (rest : List ℕ)
    → n < 2 ^ 31
    → decode_byte_array max_length (encode_var_int (negsuc n) [] ++ rest)
      ≡ err var_int_too_long rest
unfolding decode_byte_array decode_array_after_length
decode_byte_array_negative max_length n rest h =
    rw (decode_var_int-encode_var_int (negsuc n) rest h)
