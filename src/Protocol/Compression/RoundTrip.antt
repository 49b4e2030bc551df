-- ===== src/Protocol/Compression/RoundTrip.antt =====
-- What the compression layer sends it reads back, for a zlib that gives back what it packs.
use rustbound_server.Prelude.{
  ℕ, ◌<◌, ◌≤◌, ◌^◌, ◌≡◌, arith, List, [], ◌++◌, length, Option, none, some, append-nil,
  Option-cases, inl, inr, refl,
}
use rustbound_server.Prelude.Int.{ℤ, pos, negsuc, ltb_ℤ}
use rustbound_server.Prelude.Words.{IsI32, as_i32, as_signed, as_unsigned}
use rustbound_server.Prelude.Buffer.{ok, success, map_err-eq_ok}
use rustbound_server.Protocol.Primitives.VarInt.{encode_var_int, decode_var_int}
use rustbound_server.Protocol.Primitives.VarInt.RoundTrip.{decode_var_int-encode_var_int}
use rustbound_server.Protocol.Framing.{encode_frame, encode_raw_frame}
use rustbound_server.Protocol.Framing.Decode.{decode_frame-encode_frame}
use rustbound_server.Protocol.Framing.Raw.{decode_raw_frame-encode_raw_frame}
use rustbound_server.Protocol.Compression.{
  Zlib, CompressedDecodeOutcome, max_decompressed_size, from_framing, read_packet,
  check_decompressed, decompress_body, settle, decode_plain, decode_compressed,
  decode_compressed_frame, compressed_body, send_raw, encode_compressed_frame,
  encode_set_compression, decode_threshold, decode_set_compression_frame, decode_set_compression,
  set_compression_packet_id,
}

-- What zlib documents: a stream that the encoder finished decodes to what was written to it.
abbrev pub IsLossless : Zlib → Type 0
IsLossless flate =
    (bytes packed : List ℕ) → flate.deflate bytes ≡ some packed → flate.inflate packed ≡ some bytes

-- The uncompressed body of a packet.
abbrev pub packet_bytes : ℤ → List ℕ → List ℕ
packet_bytes id payload = encode_var_int id [] ++ payload

pub as_i32_small : (n : ℕ) → n < 2 ^ 31 → as_i32 (pos n) ≡ pos n
unfolding as_i32 as_unsigned as_signed
as_i32_small n h = ground arith

read_packet-bytes :
    (id : ℤ) (payload : List ℕ)
    → IsI32 id
    → read_packet (decode_var_int (packet_bytes id payload))
      ≡ success (record { packet_id = id; payload = payload })
unfolding read_packet
read_packet-bytes id payload h = rw (decode_var_int-encode_var_int id payload h)

decompress_body-stored :
    (flate : Zlib) (id : ℤ) (payload : List ℕ)
    → IsI32 id
    → decompress_body flate (decode_var_int (encode_var_int (pos 0) [] ++ packet_bytes id payload))
      ≡ success (record { packet_id = id; payload = payload })
unfolding decompress_body
decompress_body-stored flate id payload h =
    rw (decode_var_int-encode_var_int (pos 0) (packet_bytes id payload) (omega arith))
      (read_packet-bytes id payload h)

decompress_body-packed :
    (flate : Zlib) (id : ℤ) (payload packed : List ℕ)
    → IsI32 id
    → flate.inflate packed ≡ some (packet_bytes id payload)
    → 0 < length (packet_bytes id payload)
    → length (packet_bytes id payload) ≤ max_decompressed_size
    → decompress_body flate (
        decode_var_int
          (encode_var_int (as_i32 (pos (length (packet_bytes id payload)))) [] ++ packed))
      ≡ success (record { packet_id = id; payload = payload })
unfolding decompress_body check_decompressed
decompress_body-packed flate id payload packed h inflated some_bytes fits =
    let size = length (packet_bytes id payload) in
    rw (as_i32_small size (omega arith)) (
      rw (decode_var_int-encode_var_int (pos size) packed (omega arith))
        (ground (arith, inflated, read_packet-bytes id payload h)))

decompress_body-compressed_body :
    (flate : Zlib) (id : ℤ) (payload : List ℕ) (threshold : ℕ) (body : List ℕ)
    → IsLossless flate
    → IsI32 id
    → length (packet_bytes id payload) ≤ max_decompressed_size
    → compressed_body flate threshold (packet_bytes id payload) ≡ some body
    → decompress_body flate (decode_var_int body)
      ≡ success (record { packet_id = id; payload = payload })
unfolding compressed_body
decompress_body-compressed_body flate id payload threshold body lossless h fits e =
    elim (Option-cases (flate.deflate (packet_bytes id payload))) [
      | inl none_packed ↦ ground (arith, none_packed, decompress_body-stored flate id payload h)
      | inr (packed, found) ↦ ground (
        arith,
        found,
        lossless (packet_bytes id payload) packed found,
        decompress_body-stored flate id payload h,
        decompress_body-packed flate id payload packed h,
      )
    ]

send_raw-eq_ok :
    (maximum : ℕ) (body : Option (List ℕ)) (wire : List ℕ)
    → send_raw maximum body [] ≡ ok tt wire
    → (sent : List ℕ) × (body ≡ some sent) × (encode_raw_frame sent maximum [] ≡ ok tt wire)
send_raw-eq_ok maximum none wire e = absurd cc
send_raw-eq_ok maximum (some sent) wire e =
    (sent, refl, map_err-eq_ok from_framing (encode_raw_frame sent maximum) [] wire tt e)

-- A packet sent under one threshold is read back under any other of the same sign, its payload
-- copied and what follows the frame left in the input, where zlib is lossless, the packet id is an
-- `i32` and the packet fits `MAX_DECOMPRESSED_SIZE` uncompressed.
pub decode_compressed_frame-encode_compressed_frame :
    (flate : Zlib) (id : ℤ) (payload : List ℕ) (sent read : ℤ) (maximum : ℕ) (wire rest : List ℕ)
    → IsLossless flate
    → IsI32 id
    → length (packet_bytes id payload) ≤ max_decompressed_size
    → ltb_ℤ sent (pos 0) ≡ ltb_ℤ read (pos 0)
    → encode_compressed_frame flate id payload sent maximum [] ≡ ok tt wire
    → decode_compressed_frame flate read maximum (wire ++ rest)
      ≡ ok (CompressedDecodeOutcome.complete (record { packet_id = id; payload = payload })) rest
unfolding decode_compressed_frame encode_compressed_frame decode_plain decode_compressed settle
decode_compressed_frame-encode_compressed_frame flate id payload (negsuc a) (negsuc b) maximum wire
      rest lossless h fits signs e =
    let sent = map_err-eq_ok from_framing (encode_frame id payload maximum) [] wire tt e in
    rw (decode_frame-encode_frame id payload maximum wire rest h sent) refl
decode_compressed_frame-encode_compressed_frame flate id payload (pos a) (pos b) maximum wire rest
      lossless h fits signs e =
    let (body, built, sent) =
      send_raw-eq_ok maximum (compressed_body flate a (packet_bytes id payload)) wire e in
    rw (decode_raw_frame-encode_raw_frame body maximum wire rest sent)
      (rw (decompress_body-compressed_body flate id payload a body lossless h fits built) refl)
decode_compressed_frame-encode_compressed_frame flate id payload (negsuc a) (pos b) maximum wire
      rest lossless h fits signs e =
    absurd (ground arith)
decode_compressed_frame-encode_compressed_frame flate id payload (pos a) (negsuc b) maximum wire
      rest lossless h fits signs e =
    absurd (ground arith)

-- A threshold that is an `i32` comes back from the Set Compression packet, and what follows the
-- packet stays in the input.
pub decode_set_compression-encode_set_compression :
    (threshold : ℤ) (maximum : ℕ) (wire rest : List ℕ)
    → IsI32 threshold
    → encode_set_compression threshold maximum [] ≡ ok tt wire
    → decode_set_compression maximum (wire ++ rest) ≡ ok (some threshold) rest
unfolding encode_set_compression decode_set_compression decode_set_compression_frame
    decode_threshold
decode_set_compression-encode_set_compression threshold maximum wire rest h e =
    let body = encode_var_int threshold [] in
    let sent =
      map_err-eq_ok from_framing (encode_frame set_compression_packet_id body maximum) [] wire tt
        e in
    rw
      (decode_frame-encode_frame set_compression_packet_id body maximum wire rest (omega arith)
        sent)
      (ground (arith, append-nil body, decode_var_int-encode_var_int threshold [] h))
