-- ===== src/Protocol/Primitives/Text/RoundTrip.antt =====
-- Strings: `decode_string` on what `encode_string` writes, and on any input.
use rustbound_server.Prelude.{
  ℕ, ◌^◌, ◌≤◌, ◌<◌, ◌≡◌, refl, arith, true, List, [], ◌++◌, length, append_assoc, Option-cases, inl,
  inr,
}
use rustbound_server.Prelude.Buffer.{Outcome, ok, err, split_front, split_front-append}
use rustbound_server.Prelude.Int.{ℤ, pos, negsuc}
use rustbound_server.Protocol.Primitives.{CodecError}
use rustbound_server.Protocol.Primitives.VarInt.{decode_var_int}
use rustbound_server.Protocol.Primitives.VarInt.Encode.{var_int_bytes, encode_var_int-append}
use rustbound_server.Protocol.Primitives.VarInt.RoundTrip.{decode_var_int-bytes}
use rustbound_server.Protocol.Primitives.Text.{
  is_utf8, utf16_units, max_string_bytes, encode_string, decode_payload, decode_string_after_length,
  decode_string,
}

-- What `encode_string` appends, and when.
unfoldable pub string_bytes : List ℕ → List ℕ
string_bytes value = var_int_bytes (pos (length value)) ++ value

pub record Fits (value : List ℕ) (max_utf16_units : ℕ) : Type 0 where
  pub few_bytes : length value ≤ max_string_bytes max_utf16_units
  pub short : length value < 2 ^ 31
  pub few_units : utf16_units value ≤ max_utf16_units

pub encode_string-Fits :
    (value : List ℕ) (max_utf16_units : ℕ) (output : List ℕ)
    → Fits value max_utf16_units
    → encode_string value max_utf16_units output ≡ ok tt (output ++ string_bytes value)
unfolding encode_string string_bytes
encode_string-Fits value max_utf16_units output h = ground (
  arith,
  encode_var_int-append (pos (length value)) output,
  append_assoc output (var_int_bytes (pos (length value))) value,
)

pub encode_string-eq_ok :
    (value : List ℕ) (max_utf16_units : ℕ) (output wire : List ℕ)
    → encode_string value max_utf16_units output ≡ ok tt wire
    → Fits value max_utf16_units
unfolding encode_string
encode_string-eq_ok value max_utf16_units output wire e = ground arith

pub decode_string-bytes :
    (value : List ℕ) (max_utf16_units : ℕ) (rest : List ℕ)
    → is_utf8 value ≡ true
    → Fits value max_utf16_units
    → decode_string max_utf16_units (string_bytes value ++ rest) ≡ ok value rest
unfolding decode_string decode_string_after_length decode_payload string_bytes
decode_string-bytes value max_utf16_units rest u h =
    rw (append_assoc (var_int_bytes (pos (length value))) value rest) (
      rw (decode_var_int-bytes (pos (length value)) (value ++ rest) h.short)
        (ground (arith, u, split_front-append value rest)))

-- A string that `encode_string` accepts decodes under the same limit to the same text, and the
-- input then stands at whatever follows it.
pub decode_string-encode_string :
    (value : List ℕ) (max_utf16_units : ℕ) (wire rest : List ℕ)
    → is_utf8 value ≡ true
    → encode_string value max_utf16_units [] ≡ ok tt wire
    → decode_string max_utf16_units (wire ++ rest) ≡ ok value rest
decode_string-encode_string value max_utf16_units wire rest u e =
    let fits = encode_string-eq_ok value max_utf16_units [] wire e in
    let bytes : string_bytes value ≡ wire =
      cc (encode_string-Fits value max_utf16_units [] fits, e) in
    rw (← bytes) (decode_string-bytes value max_utf16_units rest u fits)

-- A decoded text is UTF-8 and within the limit; a refusal leaves the input as it was.
abbrev pub Bounded : ℕ → List ℕ → Outcome CodecError (List ℕ) → Type 0
Bounded max_utf16_units source (ok value rest) =
    (is_utf8 value ≡ true) × (utf16_units value ≤ max_utf16_units)
Bounded max_utf16_units source (err e rest) = rest ≡ source

after_length-Bounded :
    (max_utf16_units : ℕ) (source : List ℕ) (o : Outcome CodecError ℤ)
    → Bounded max_utf16_units source (decode_string_after_length max_utf16_units source o)
unfolding decode_string_after_length decode_payload
after_length-Bounded max_utf16_units source (err e r) = refl
after_length-Bounded max_utf16_units source (ok (negsuc n) r) = refl
after_length-Bounded max_utf16_units source (ok (pos n) r) = elim (Option-cases (split_front n r)) [
  | inl short ↦ ground (arith, short)
  | inr ((bytes, rest), found) ↦ ground (arith, found)
]

-- On any bytes `decode_string` returns UTF-8 text within its limit, or fails and leaves the input
-- as it was.
pub decode_string-Bounded :
    (max_utf16_units : ℕ) (input : List ℕ)
    → Bounded max_utf16_units input (decode_string max_utf16_units input)
unfolding decode_string
decode_string-Bounded max_utf16_units input =
    after_length-Bounded max_utf16_units input (decode_var_int input)
