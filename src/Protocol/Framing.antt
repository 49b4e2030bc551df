-- ===== src/Protocol/Framing.antt =====
-- crates/rustbound-protocol/src/framing.rs: a frame is a VarInt length, a VarInt packet id and a
-- payload; a raw frame is a VarInt length and a body.
pub mod Lengths
pub mod Encode
pub mod Decode
pub mod Raw
pub mod Stable
use rustbound_server.Prelude.{
  ℕ, ◌+◌, ◌-◌, ◌^◌, bit_and, List, ◌++◌, length, min, ltb, ◌==◌, if◌then◌else◌, Bool, none, some,
}
use rustbound_server.Prelude.Int.{ℤ}
use rustbound_server.Prelude.Words.{as_unsigned, to_usize, to_i32, checked_add}
use rustbound_server.Prelude.Buffer.{
  Outcome, Action, ok, err, Result, success, failure, split_front,
}
use rustbound_server.Protocol.Primitives.{CodecError, incomplete_input}
use rustbound_server.Protocol.Primitives.VarInt.{encode_var_int, decode_var_int}

-- 2 ^ 21 - 1, the largest number of three VarInt bytes.
abbrev pub protocol_max_frame_length : ℕ
protocol_max_frame_length = 0x1f_ffff

abbrev pub max_length_prefix_bytes : ℕ
max_length_prefix_bytes = 3

pub record PacketFrame : Type 0 where
  pub packet_id : ℤ
  pub payload : List ℕ

pub data DecodeOutcome : Type 0 where
  complete : PacketFrame → DecodeOutcome
  incomplete : DecodeOutcome

pub data FramingError : Type 0 where
  length_codec : CodecError → FramingError
  length_prefix_too_long : ℕ → FramingError
  packet_id_codec : CodecError → FramingError
  negative_frame_length : FramingError
  zero_frame_length : FramingError
  frame_too_long : ℕ → ℕ → FramingError
  frame_length_overflow : FramingError

abbrev pub effective_max_length : ℕ → ℕ
effective_max_length caller_maximum = min caller_maximum protocol_max_frame_length

-- The packet id inside a whole body, with what follows the frame.
unfoldable pub decode_body :
    List ℕ → List ℕ → Outcome CodecError ℤ → Outcome FramingError DecodeOutcome
decode_body source rest (ok id payload) =
    ok (DecodeOutcome.complete (record { packet_id = id; payload = payload })) rest
decode_body source rest (err e _) = err (packet_id_codec e) source

-- `decode_frame` behind its length prefix.
unfoldable pub decode_after_length :
    ℕ → List ℕ → Outcome CodecError ℤ → Outcome FramingError DecodeOutcome
unfolding decode_body to_usize
decode_after_length max_frame_length source (err incomplete_input _) =
    ok DecodeOutcome.incomplete source
decode_after_length max_frame_length source (err e _) = err (length_codec e) source
decode_after_length max_frame_length source (ok encoded_length body_and_tail) =
    let prefix_bytes = length source - length body_and_tail in
    let maximum = effective_max_length max_frame_length in
    if ltb max_length_prefix_bytes prefix_bytes
    then err (length_prefix_too_long prefix_bytes) source
    else elim (to_usize encoded_length) [
      | none ↦ err negative_frame_length source
      | some frame_length ↦
          if frame_length == 0
          then err zero_frame_length source
          else if ltb maximum frame_length
          then err (frame_too_long frame_length maximum) source
          else elim (split_front frame_length body_and_tail) [
            | none ↦ ok DecodeOutcome.incomplete source
            | some (body, rest) ↦ decode_body source rest (decode_var_int body)
          ]
    ]

unfoldable pub decode_frame : ℕ → Action FramingError DecodeOutcome
decode_frame max_frame_length source =
    decode_after_length max_frame_length source (decode_var_int source)

-- `bits & !mask == 0`, for a mask of 32 bits.
abbrev pub fits_mask : ℕ → ℕ → Bool
fits_mask bits mask = bit_and bits (0xffff_ffff - mask) == 0

unfoldable pub var_int_length : ℤ → ℕ
var_int_length value =
    let bits = as_unsigned (2 ^ 32) value in
    if fits_mask bits 0x7f
    then 1
    else if fits_mask bits 0x3fff
    then 2
    else if fits_mask bits 0x1f_ffff
    then 3
    else if fits_mask bits 0xfff_ffff
    then 4
    else 5

unfoldable pub validated_frame_length : ℤ → ℕ → ℕ → Result FramingError ℤ
unfolding checked_add to_i32
validated_frame_length packet_id payload_length max_frame_length =
    let maximum = effective_max_length max_frame_length in
    elim (checked_add (var_int_length packet_id) payload_length) [
      | none ↦ failure frame_length_overflow
      | some frame_length ↦
          if ltb maximum frame_length
          then failure (frame_too_long frame_length maximum)
          else elim (to_i32 frame_length) [
            | none ↦ failure frame_length_overflow
            | some length ↦ success length
          ]
    ]

unfoldable pub encode_frame : ℤ → List ℕ → ℕ → Action FramingError (Unit {0})
encode_frame packet_id payload max_frame_length output =
    elim (validated_frame_length packet_id (length payload) max_frame_length) [
      | failure e ↦ err e output
      | success encoded_length ↦
          ok tt (encode_var_int packet_id (encode_var_int encoded_length output) ++ payload)
    ]

unfoldable pub encode_raw_frame : List ℕ → ℕ → Action FramingError (Unit {0})
unfolding to_i32
encode_raw_frame body max_frame_length output =
    let maximum = effective_max_length max_frame_length in
    let frame_length = length body in
    if ltb maximum frame_length
    then err (frame_too_long frame_length maximum) output
    else elim (to_i32 frame_length) [
      | none ↦ err frame_length_overflow output
      | some encoded_length ↦ ok tt (encode_var_int encoded_length output ++ body)
    ]

pub data RawDecodeOutcome : Type 0 where
  complete : List ℕ → RawDecodeOutcome
  incomplete : RawDecodeOutcome

-- `decode_raw_frame` behind its length prefix. The errors leave the input behind the prefix.
-- `split_front` is `none` exactly where `input.len() < length`.
unfoldable pub decode_raw_after_length :
    ℕ → List ℕ → Outcome CodecError ℤ → Outcome FramingError RawDecodeOutcome
unfolding to_usize
decode_raw_after_length max_frame_length source (err incomplete_input _) =
    ok RawDecodeOutcome.incomplete source
decode_raw_after_length max_frame_length source (err e rest) = err (length_codec e) rest
decode_raw_after_length max_frame_length source (ok encoded_length input) =
    let maximum = effective_max_length max_frame_length in
    elim (to_usize encoded_length) [
      | none ↦ err frame_length_overflow input
      | some frame_length ↦
          if ltb maximum frame_length
          then err (frame_too_long frame_length maximum) input
          else elim (split_front frame_length input) [
            | none ↦ ok RawDecodeOutcome.incomplete source
            | some (body, rest) ↦ ok (RawDecodeOutcome.complete body) rest
          ]
    ]

unfoldable pub decode_raw_frame : ℕ → Action FramingError RawDecodeOutcome
decode_raw_frame max_frame_length source =
    decode_raw_after_length max_frame_length source (decode_var_int source)
