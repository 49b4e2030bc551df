-- ===== src/Protocol/Framing/Raw.antt =====
-- Raw frames: `decode_raw_frame` on what `encode_raw_frame` writes, and on any input.
use rustbound_server.Prelude.{ℕ, ◌≤◌, ◌≡◌, arith, List, [], ◌++◌, length, append_assoc}
use rustbound_server.Prelude.Buffer.{ok, split_front-append}
use rustbound_server.Prelude.Int.{pos}
use rustbound_server.Protocol.Primitives.VarInt.Encode.{var_int_bytes}
use rustbound_server.Protocol.Primitives.VarInt.RoundTrip.{decode_var_int-bytes}
use rustbound_server.Protocol.Framing.{
  RawDecodeOutcome, effective_max_length, encode_raw_frame, decode_raw_after_length,
  decode_raw_frame,
}
use rustbound_server.Protocol.Framing.Encode.{framed, encode_raw_frame_fits, encode_raw_frame-eq_ok}

pub decode_raw_frame-framed :
    (body : List ℕ) (maximum : ℕ) (rest : List ℕ)
    → length body ≤ effective_max_length maximum
    → decode_raw_frame maximum (framed body ++ rest) ≡ ok (RawDecodeOutcome.complete body) rest
unfolding decode_raw_frame decode_raw_after_length framed
decode_raw_frame-framed body maximum rest h =
    let prefix = var_int_bytes (pos (length body)) in
    rw (append_assoc prefix body rest) (
      ground (
        arith,
        decode_var_int-bytes (pos (length body)) (body ++ rest) (omega arith),
        split_front-append body rest,
      ))

-- What `encode_raw_frame` writes, an empty body too, `decode_raw_frame` under the same maximum
-- reads back, and leaves whatever follows the frame.
pub decode_raw_frame-encode_raw_frame :
    (body : List ℕ) (maximum : ℕ) (wire rest : List ℕ)
    → encode_raw_frame body maximum [] ≡ ok tt wire
    → decode_raw_frame maximum (wire ++ rest) ≡ ok (RawDecodeOutcome.complete body) rest
decode_raw_frame-encode_raw_frame body maximum wire rest e =
    let fits = encode_raw_frame-eq_ok body maximum [] wire e in
    let bytes : framed body ≡ wire = cc (encode_raw_frame_fits body maximum [] fits, e) in
    rw (← bytes) (decode_raw_frame-framed body maximum rest fits)
