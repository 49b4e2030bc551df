-- ===== src/Protocol/Compression.antt =====
-- crates/rustbound-protocol/src/compression.rs: frames whose body is a data length and a packet
-- that may be compressed. zlib (the flate2 crate) is a parameter. The io::Error that its failures
-- carry is left out of the error.
pub mod RoundTrip
pub mod Limits
use rustbound_server.Prelude.{
  ℕ, ◌<◌, List, [], ◌∷◌, ◌++◌, length, ltb, ◌==◌, if◌then◌else◌, Option, none, some,
}
use rustbound_server.Prelude.Int.{ℤ, pos, negsuc, eqb_ℤ}
use rustbound_server.Prelude.Words.{to_usize, as_i32}
use rustbound_server.Prelude.Buffer.{Outcome, Action, ok, err, map_err, Result, success, failure}
use rustbound_server.Protocol.Primitives.{CodecError, incomplete_input, var_int_too_long}
use rustbound_server.Protocol.Primitives.VarInt.{encode_var_int, decode_var_int}
use rustbound_server.Protocol.Framing.{
  PacketFrame, DecodeOutcome, RawDecodeOutcome, FramingError, length_codec,
  protocol_max_frame_length, encode_frame, decode_frame, encode_raw_frame, decode_raw_frame,
}

abbrev pub set_compression_packet_id : ℤ
set_compression_packet_id = pos 3

abbrev pub compression_disabled : ℤ
compression_disabled = negsuc 0

abbrev pub max_decompressed_size : ℕ
max_decompressed_size = protocol_max_frame_length

-- flate2: `ZlibEncoder` over a whole input, and `ZlibDecoder::read_to_end`; `none` is an io::Error.
pub record Zlib : Type 0 where
  pub deflate : List ℕ → Option (List ℕ)
  pub inflate : List ℕ → Option (List ℕ)

pub data CompressionError : Type 0 where
  framing : FramingError → CompressionError
  codec : CodecError → CompressionError
  zlib : CompressionError
  decompressed_too_large : ℕ → ℕ → CompressionError
  data_length_mismatch : ℕ → ℕ → CompressionError
  wrong_packet_id : ℤ → ℤ → CompressionError
  trailing_bytes : ℕ → CompressionError
  incomplete : CompressionError

-- `From<FramingError>` and `From<CodecError>`.
unfoldable pub from_framing : FramingError → CompressionError
from_framing (length_codec incomplete_input) = CompressionError.incomplete
from_framing other = framing other

unfoldable pub from_codec : CodecError → CompressionError
from_codec incomplete_input = CompressionError.incomplete
from_codec other = codec other

pub record DecompressedPacket : Type 0 where
  pub packet_id : ℤ
  pub payload : List ℕ

pub data CompressedDecodeOutcome : Type 0 where
  complete : DecompressedPacket → CompressedDecodeOutcome
  incomplete : CompressedDecodeOutcome

-- A packet id, and the rest as the payload.
unfoldable pub read_packet : Outcome CodecError ℤ → Result CompressionError DecompressedPacket
read_packet (ok id payload) = success (record { packet_id = id; payload = payload })
read_packet (err e _) = failure (from_codec e)

-- `read_to_end`, with the data length that was announced.
unfoldable pub check_decompressed : ℕ → Option (List ℕ) → Result CompressionError DecompressedPacket
unfolding read_packet
check_decompressed data_length none = failure CompressionError.zlib
check_decompressed data_length (some decompressed) =
    if length decompressed == data_length
    then read_packet (decode_var_int decompressed)
    else failure (data_length_mismatch data_length (length decompressed))

-- The raw body behind its data length.
unfoldable pub decompress_body :
    Zlib → Outcome CodecError ℤ → Result CompressionError DecompressedPacket
unfolding to_usize check_decompressed read_packet
decompress_body flate (err e _) = failure (from_codec e)
decompress_body flate (ok encoded body) = elim (to_usize encoded) [
  | none ↦ failure (codec var_int_too_long)
  | some data_length ↦
      if data_length == 0
      then read_packet (decode_var_int body)
      else if ltb max_decompressed_size data_length
      then failure (decompressed_too_large data_length max_decompressed_size)
      else check_decompressed data_length (flate.inflate body)
]

-- Whatever fails behind the frame puts the input back.
unfoldable pub settle :
    List ℕ
    → List ℕ
    → Result CompressionError DecompressedPacket
    → Outcome CompressionError CompressedDecodeOutcome
settle source rest (success packet) = ok (CompressedDecodeOutcome.complete packet) rest
settle source rest (failure e) = err e source

-- With compression off: an ordinary frame, whose payload is copied.
unfoldable pub decode_plain :
    List ℕ → Outcome FramingError DecodeOutcome → Outcome CompressionError CompressedDecodeOutcome
decode_plain source (ok (DecodeOutcome.complete frame) rest) =
    ok
      (CompressedDecodeOutcome.complete
        (record { packet_id = frame.packet_id; payload = frame.payload }))
      rest
decode_plain source (ok DecodeOutcome.incomplete _) = ok CompressedDecodeOutcome.incomplete source
decode_plain source (err e _) = err (from_framing e) source

-- With compression on: a raw frame, whose body begins with the data length.
unfoldable pub decode_compressed :
    Zlib
    → List ℕ
    → Outcome FramingError RawDecodeOutcome
    → Outcome CompressionError CompressedDecodeOutcome
unfolding settle decompress_body
decode_compressed flate source (ok (RawDecodeOutcome.complete body) rest) =
    settle source rest (decompress_body flate (decode_var_int body))
decode_compressed flate source (ok RawDecodeOutcome.incomplete _) =
    ok CompressedDecodeOutcome.incomplete source
decode_compressed flate source (err e _) = err (from_framing e) source

unfoldable pub decode_compressed_frame :
    Zlib → ℤ → ℕ → Action CompressionError CompressedDecodeOutcome
unfolding decode_plain decode_compressed
decode_compressed_frame flate (negsuc _) max_frame_length source =
    decode_plain source (decode_frame max_frame_length source)
decode_compressed_frame flate (pos _) max_frame_length source =
    decode_compressed flate source (decode_raw_frame max_frame_length source)

-- The body of a raw frame: `none` where zlib fails.
unfoldable pub compressed_body : Zlib → ℕ → List ℕ → Option (List ℕ)
compressed_body flate threshold uncompressed_body =
    if ltb threshold (length uncompressed_body)
    then elim (flate.deflate uncompressed_body) [
      | none ↦ none
      | some compressed ↦
          some (encode_var_int (as_i32 (pos (length uncompressed_body))) [] ++ compressed)
    ]
    else some (encode_var_int (pos 0) [] ++ uncompressed_body)

abbrev pub send_raw : ℕ → Option (List ℕ) → Action CompressionError (Unit {0})
send_raw max_frame_length none output = err CompressionError.zlib output
send_raw max_frame_length (some body) output =
    map_err from_framing (encode_raw_frame body max_frame_length) output

unfoldable pub encode_compressed_frame :
    Zlib → ℤ → List ℕ → ℤ → ℕ → Action CompressionError (Unit {0})
unfolding compressed_body
encode_compressed_frame flate packet_id payload (negsuc _) max_frame_length =
    map_err from_framing (encode_frame packet_id payload max_frame_length)
encode_compressed_frame flate packet_id payload (pos threshold) max_frame_length =
    send_raw max_frame_length
      (compressed_body flate threshold (encode_var_int packet_id [] ++ payload))

unfoldable pub encode_set_compression : ℤ → ℕ → Action CompressionError (Unit {0})
encode_set_compression threshold max_frame_length =
    map_err from_framing
      (encode_frame set_compression_packet_id (encode_var_int threshold []) max_frame_length)

-- The threshold, and nothing behind it.
unfoldable pub decode_threshold :
    List ℕ → List ℕ → Outcome CodecError ℤ → Outcome CompressionError (Option ℤ)
decode_threshold source rest (ok threshold []) = ok (some threshold) rest
decode_threshold source rest (ok threshold (b ∷ bs)) = err (trailing_bytes (length (b ∷ bs))) source
decode_threshold source rest (err e _) = err (from_codec e) source

unfoldable pub decode_set_compression_frame :
    List ℕ → Outcome FramingError DecodeOutcome → Outcome CompressionError (Option ℤ)
unfolding decode_threshold
decode_set_compression_frame source (err e _) = err (from_framing e) source
decode_set_compression_frame source (ok DecodeOutcome.incomplete _) = ok none source
decode_set_compression_frame source (ok (DecodeOutcome.complete frame) rest) =
    if eqb_ℤ frame.packet_id set_compression_packet_id
    then decode_threshold source rest (decode_var_int frame.payload)
    else err (wrong_packet_id frame.packet_id set_compression_packet_id) source

unfoldable pub decode_set_compression : ℕ → Action CompressionError (Option ℤ)
unfolding decode_set_compression_frame
decode_set_compression max_frame_length source =
    decode_set_compression_frame source (decode_frame max_frame_length source)
