-- ===== src/Protocol/Primitives/Text.antt =====
-- primitives.rs, strings and byte arrays behind a VarInt length. A string is its UTF-8 bytes, which
-- `is_utf8` accepts; `str::from_utf8` is that test, and `encode_utf16().count()` is a count of bytes.
pub mod RoundTrip
pub mod Arrays
use rustbound_server.Prelude.{
  ℕ, ◌*◌, ◌-◌, ◌^◌, List, [], ◌∷◌, ◌++◌, length, min, ltb, leb, ◌==◌, ◌&&◌, ◌||◌, if◌then◌else◌,
  Bool, true, false, none, some, ◌≡◌, ◌+◌,
}
use rustbound_server.Prelude.Int.{ℤ, pos}
use rustbound_server.Prelude.Words.{to_usize, to_i32}
use rustbound_server.Prelude.Buffer.{Outcome, Action, ok, err, split_front}
use rustbound_server.Protocol.Primitives.{
  CodecError, incomplete_input, var_int_too_long, negative_string_length, string_too_long,
  invalid_utf8,
}
use rustbound_server.Protocol.Primitives.VarInt.{encode_var_int, decode_var_int}

-- Where a UTF-8 reader stands: between characters, or with continuation bytes to come, the first
-- of them in a narrower range after the lead bytes e0, ed, f0 and f4.
pub data Utf8State : Type 0 where
  start one_more two_more three_more after_e0 after_ed after_f0 after_f4 broken : Utf8State

in_range : ℕ → ℕ → ℕ → Bool
in_range lo hi b = leb lo b && leb b hi

lead_state : ℕ → Utf8State
unfolding in_range
lead_state b =
    if ltb b 0x80
    then start
    else if in_range 0xc2 0xdf b
    then one_more
    else if b == 0xe0
    then after_e0
    else if b == 0xed
    then after_ed
    else if in_range 0xe1 0xef b
    then two_more
    else if b == 0xf0
    then after_f0
    else if in_range 0xf1 0xf3 b
    then three_more
    else if b == 0xf4
    then after_f4
    else broken

unfoldable pub utf8_step : Utf8State → ℕ → Utf8State
unfolding lead_state in_range
utf8_step start b = lead_state b
utf8_step one_more b = if in_range 0x80 0xbf b then start else broken
utf8_step two_more b = if in_range 0x80 0xbf b then one_more else broken
utf8_step three_more b = if in_range 0x80 0xbf b then two_more else broken
utf8_step after_e0 b = if in_range 0xa0 0xbf b then one_more else broken
utf8_step after_ed b = if in_range 0x80 0x9f b then one_more else broken
utf8_step after_f0 b = if in_range 0x90 0xbf b then two_more else broken
utf8_step after_f4 b = if in_range 0x80 0x8f b then two_more else broken
utf8_step broken b = broken

unfoldable pub utf8_from : Utf8State → List ℕ → Bool
unfolding utf8_step
utf8_from start [] = true
utf8_from _ [] = false
utf8_from s (b ∷ bs) = utf8_from (utf8_step s b) bs

unfoldable pub is_utf8 : List ℕ → Bool
unfolding utf8_from
is_utf8 bytes = utf8_from start bytes

-- `encode_utf16().count()`: one unit for each lead byte, and a second for a lead of four bytes.
unfoldable pub utf16_units : List ℕ → ℕ
utf16_units [] = 0
utf16_units (b ∷ bs) =
    (if ltb b 0x80 then 1 else if ltb b 0xc0 then 0 else if ltb b 0xf0 then 1 else 2)
    + utf16_units bs

-- `max_utf16_units.saturating_mul(3)`.
abbrev pub max_string_bytes : ℕ → ℕ
max_string_bytes max_utf16_units = min (max_utf16_units * 3) (2 ^ 64 - 1)

-- `value.len() as i32` is reached with the length below 2 ^ 31 only.
unfoldable pub encode_string : List ℕ → ℕ → Action CodecError (Unit {0})
encode_string value max_utf16_units output =
    if ltb (max_string_bytes max_utf16_units) (length value)
      || ltb (2 ^ 31 - 1) (length value)
      || ltb max_utf16_units (utf16_units value)
    then err string_too_long output
    else ok tt (encode_var_int (pos (length value)) output ++ value)

-- `decode_string` behind the bytes of its payload.
unfoldable pub decode_payload : ℕ → List ℕ → List ℕ → List ℕ → Outcome CodecError (List ℕ)
decode_payload max_utf16_units source bytes rest =
    if is_utf8 bytes
    then if ltb max_utf16_units (utf16_units bytes)
      then err string_too_long source
      else ok bytes rest
    else err invalid_utf8 source

-- `decode_string` behind its length prefix.
unfoldable pub decode_string_after_length :
    ℕ → List ℕ → Outcome CodecError ℤ → Outcome CodecError (List ℕ)
unfolding to_usize
decode_string_after_length max_utf16_units source (err e _) = err e source
decode_string_after_length max_utf16_units source (ok encoded_len remaining) =
    elim (to_usize encoded_len) [
      | none ↦ err negative_string_length source
      | some byte_len ↦
          if ltb (max_string_bytes max_utf16_units) byte_len
          then err string_too_long source
          else elim (split_front byte_len remaining) [
            | none ↦ err incomplete_input source
            | some (bytes, rest) ↦ decode_payload max_utf16_units source bytes rest
          ]
    ]

unfoldable pub decode_string : ℕ → Action CodecError (List ℕ)
decode_string max_utf16_units source =
    decode_string_after_length max_utf16_units source (decode_var_int source)

abbrev pub max_username_length : ℕ
max_username_length = 16

abbrev pub max_chat_component_length : ℕ
max_chat_component_length = 32767

abbrev pub max_server_id_length : ℕ
max_server_id_length = 20

abbrev pub max_public_key_length : ℕ
max_public_key_length = 512

abbrev pub max_verify_token_length : ℕ
max_verify_token_length = 16

unfoldable pub encode_byte_array : List ℕ → ℕ → Action CodecError (Unit {0})
unfolding to_i32
encode_byte_array value max_length output =
    if ltb max_length (length value)
    then err string_too_long output
    else elim (to_i32 (length value)) [
      | none ↦ err var_int_too_long output
      | some length ↦ ok tt (encode_var_int length output ++ value)
    ]

-- `decode_byte_array` behind its length prefix. A negative length leaves the input behind the prefix.
unfoldable pub decode_array_after_length :
    ℕ → List ℕ → Outcome CodecError ℤ → Outcome CodecError (List ℕ)
unfolding to_usize
decode_array_after_length max_length source (err e input) = err e input
decode_array_after_length max_length source (ok encoded_length input) =
    elim (to_usize encoded_length) [
      | none ↦ err var_int_too_long input
      | some n ↦
          if ltb max_length n then err string_too_long source else elim (split_front n input) [
            | none ↦ err incomplete_input source
            | some (bytes, rest) ↦ ok bytes rest
          ]
    ]

unfoldable pub decode_byte_array : ℕ → Action CodecError (List ℕ)
decode_byte_array max_length source =
    decode_array_after_length max_length source (decode_var_int source)
