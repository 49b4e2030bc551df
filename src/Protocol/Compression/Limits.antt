-- ===== src/Protocol/Compression/Limits.antt =====
-- The limits of the compression layer: what it refuses to read, and that a refusal keeps the input.
use rustbound_server.Prelude.{
  ℕ, ◌<◌, ◌≤◌, ◌^◌, ◌≡◌, refl, arith, List, [], ◌++◌, length, some, append-nil,
}
use rustbound_server.Prelude.Int.{ℤ, pos, negsuc}
use rustbound_server.Prelude.Buffer.{Outcome, Result, ok, err, success, failure}
use rustbound_server.Protocol.Primitives.VarInt.{encode_var_int}
use rustbound_server.Protocol.Primitives.VarInt.RoundTrip.{decode_var_int-encode_var_int}
use rustbound_server.Protocol.Framing.{
  DecodeOutcome, RawDecodeOutcome, FramingError, effective_max_length, decode_frame,
  decode_raw_frame,
}
use rustbound_server.Protocol.Framing.Encode.{framed, encode_raw_frame_fits}
use rustbound_server.Protocol.Framing.Raw.{decode_raw_frame-framed}
use rustbound_server.Protocol.Compression.{
  Zlib, CompressionError, CompressedDecodeOutcome, DecompressedPacket, decompressed_too_large,
  max_decompressed_size, settle, decompress_body, decode_plain, decode_compressed,
  decode_compressed_frame, compressed_body, encode_compressed_frame,
}
use rustbound_server.Protocol.Compression.RoundTrip.{packet_bytes, as_i32_small}

-- Only a complete packet moves the input.
abbrev pub Unmoved : List ℕ → Outcome CompressionError CompressedDecodeOutcome → Type 0
Unmoved source (ok (CompressedDecodeOutcome.complete packet) rest) = Unit {0}
Unmoved source (ok CompressedDecodeOutcome.incomplete rest) = rest ≡ source
Unmoved source (err e rest) = rest ≡ source

settle-Unmoved :
    (source rest : List ℕ) (r : Result CompressionError DecompressedPacket)
    → Unmoved source (settle source rest r)
unfolding settle
settle-Unmoved source rest (success packet) = tt
settle-Unmoved source rest (failure e) = refl

decode_plain-Unmoved :
    (source : List ℕ) (o : Outcome FramingError DecodeOutcome)
    → Unmoved source (decode_plain source o)
unfolding decode_plain
decode_plain-Unmoved source (ok (DecodeOutcome.complete frame) rest) = tt
decode_plain-Unmoved source (ok DecodeOutcome.incomplete rest) = refl
decode_plain-Unmoved source (err e rest) = refl

decode_compressed-Unmoved :
    (flate : Zlib) (source : List ℕ) (o : Outcome FramingError RawDecodeOutcome)
    → Unmoved source (decode_compressed flate source o)
unfolding decode_compressed
decode_compressed-Unmoved flate source (ok (RawDecodeOutcome.complete body) rest) =
    settle-Unmoved source rest _
decode_compressed-Unmoved flate source (ok RawDecodeOutcome.incomplete rest) = refl
decode_compressed-Unmoved flate source (err e rest) = refl

-- Whatever the bytes, the threshold, the maximum and the zlib, `decode_compressed_frame` moves its
-- input only past a complete packet.
pub decode_compressed_frame-Unmoved :
    (flate : Zlib) (threshold : ℤ) (maximum : ℕ) (input : List ℕ)
    → Unmoved input (decode_compressed_frame flate threshold maximum input)
unfolding decode_compressed_frame
decode_compressed_frame-Unmoved flate (negsuc n) maximum input =
    decode_plain-Unmoved input (decode_frame maximum input)
decode_compressed_frame-Unmoved flate (pos n) maximum input =
    decode_compressed-Unmoved flate input (decode_raw_frame maximum input)

-- A packet larger than `MAX_DECOMPRESSED_SIZE` that packs into a frame that fits is sent without an
-- error, and the decoder under the same threshold and maximum refuses what was sent and keeps it in
-- its input. The packet is above the threshold and shorter than 2 ^ 31 bytes.
pub oversized_packet_refused :
    (flate : Zlib) (id : ℤ) (payload packed : List ℕ) (threshold maximum : ℕ)
    → max_decompressed_size < length (packet_bytes id payload)
    → length (packet_bytes id payload) < 2 ^ 31
    → threshold < length (packet_bytes id payload)
    → flate.deflate (packet_bytes id payload) ≡ some packed
    → length (encode_var_int (pos (length (packet_bytes id payload))) [] ++ packed)
      ≤ effective_max_length maximum
    → (wire : List ℕ) × (encode_compressed_frame flate id payload (pos threshold) maximum []
        ≡ ok tt wire)
      × (decode_compressed_frame flate (pos threshold) maximum wire
          ≡ err
              (decompressed_too_large (length (packet_bytes id payload)) max_decompressed_size)
              wire)
unfolding encode_compressed_frame decode_compressed_frame compressed_body decode_compressed
    decompress_body settle
oversized_packet_refused flate id payload packed threshold maximum large small above found fits =
    let size = length (packet_bytes id payload) in
    let body = encode_var_int (pos size) [] ++ packed in
    (
      framed body,
      ground (arith, found, as_i32_small size small, encode_raw_frame_fits body maximum [] fits),
      ground (
        arith,
        append-nil (framed body),
        decode_raw_frame-framed body maximum [] fits,
        decode_var_int-encode_var_int (pos size) packed (omega arith),
      ),
    )
