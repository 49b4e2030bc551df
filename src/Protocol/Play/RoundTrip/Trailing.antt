-- ===== src/Protocol/Play/RoundTrip/Trailing.antt =====
-- A Play packet with bytes behind its fields.
use rustbound_server.Prelude.{ℕ, ◌≡◌, ◌++◌, [], List, false, arith}
use rustbound_server.Prelude.Buffer.{Action, ok}
use rustbound_server.Protocol.Play.{PlayError}
use rustbound_server.Protocol.Play.Types.{PlayDecodeOutcome, PlayPacket}
use rustbound_server.Protocol.Play.RoundTrip.Codecs.{PacketCodec}
use rustbound_server.Protocol.Play.RoundTrip.Parts.{
  Parts, closed, open_ended, codec-Parts, takes_rest,
}
use rustbound_server.Prelude.{◌∷◌, length, append-nil, ap}
use rustbound_server.Prelude.Int.{ℤ, eqb_ℤ_refl}
use rustbound_server.Prelude.Words.{IsI32}
use rustbound_server.Prelude.Buffer.{err, with_body, with_body-eq_ok, map_err-eq_ok}
use rustbound_server.Protocol.Play.{trailing_bytes, from_framing}
use rustbound_server.Protocol.Play.Frame.{decode_play_with, decode_play_framed, finish, send_play}
use rustbound_server.Protocol.Framing.{PacketFrame, DecodeOutcome, encode_frame, decode_frame}
use rustbound_server.Protocol.Framing.Encode.{encode_frame-eq_ok, length-body_bytes}
use rustbound_server.Protocol.Framing.Decode.{decode_frame-encode_frame}
use rustbound_server.Protocol.Play.RoundTrip.{Sends}

-- The frame of a packet that was encoded has its packet id and the bytes that were written.
framed_parts :
    (id : ℤ) (built : List ℕ) (maximum : ℕ) (wire : List ℕ) (frame : PacketFrame)
    → IsI32 id
    → encode_frame id built maximum [] ≡ ok tt wire
    → decode_frame maximum wire ≡ ok (DecodeOutcome.complete frame) []
    → (frame.packet_id ≡ id) × (frame.payload ≡ built)
framed_parts id built maximum wire frame hi e whole =
    let back = decode_frame-encode_frame id built maximum wire [] hi e in
    let same : decode_frame maximum (wire ++ []) ≡ decode_frame maximum wire =
      ap (λ (w : List ℕ). decode_frame maximum w) (append-nil wire) in
    (cc (back, same, whole), cc (back, same, whole))

extended_refused :
    {body : Action PlayError (Unit {0})} {fields : Action PlayError PlayPacket}
    {packet : PlayPacket} (id : ℤ) (maximum limit : ℕ) (wire longer rest : List ℕ)
    (frame : PacketFrame) (b : ℕ) (bs : List ℕ)
    → IsI32 id
    → Sends body fields packet
    → with_body body (send_play id maximum) [] ≡ ok tt wire
    → decode_frame maximum wire ≡ ok (DecodeOutcome.complete frame) []
    → encode_frame frame.packet_id (frame.payload ++ (b ∷ bs)) limit [] ≡ ok tt longer
    → decode_play_with (λ (e : PlayError). e) id fields limit (longer ++ rest)
      ≡ err (trailing_bytes (length (b ∷ bs))) (longer ++ rest)
unfolding decode_play_with decode_play_framed finish
extended_refused {body} {fields} {packet} id maximum limit wire longer rest frame b bs hi h e whole
      again =
    let (built, written, sent) = with_body-eq_ok body (send_play id maximum) [] wire tt e in
    let framed = map_err-eq_ok from_framing (encode_frame id built maximum) [] wire tt sent in
    let (same_id, same_payload) = framed_parts id built maximum wire frame hi framed whole in
    let (bytes, parts, reads) = h.sent [] built written in
    let grown = built ++ (b ∷ bs) in
    let extended : encode_frame id grown limit [] ≡ ok tt longer =
      cc (again, same_id, same_payload) in
    let fits = encode_frame-eq_ok id grown limit [] longer extended in
    let read : fields grown ≡ ok packet (b ∷ bs) = rw parts (
      reads (b ∷ bs) (
        omega (
          arith,
          fits,
          length-body_bytes id grown,
          ap (λ (l : List ℕ). length (l ++ (b ∷ bs))) parts,
        ))) in
    ground
      (arith, decode_frame-encode_frame id grown limit longer rest hi extended, eqb_ℤ_refl id, read)

Parts-trailing_bytes :
    {packet : PlayPacket} {encode : ℕ → Action PlayError (Unit {0})}
    {decode : ℕ → Action PlayError PlayDecodeOutcome}
    → Parts packet encode decode
    → (maximum limit : ℕ) (wire longer rest : List ℕ) (frame : PacketFrame) (b : ℕ) (bs : List ℕ)
    → takes_rest packet ≡ false
    → encode maximum [] ≡ ok tt wire
    → decode_frame maximum wire ≡ ok (DecodeOutcome.complete frame) []
    → encode_frame frame.packet_id (frame.payload ++ (b ∷ bs)) limit [] ≡ ok tt longer
    → decode limit (longer ++ rest) ≡ err (trailing_bytes (length (b ∷ bs))) (longer ++ rest)
Parts-trailing_bytes (closed id h sends) maximum limit wire longer rest frame b bs exact e whole
      again =
    extended_refused id maximum limit wire longer rest frame b bs h sends e whole again
Parts-trailing_bytes (open_ended id h all sends) maximum limit wire longer rest frame b bs exact e
      whole again =
    absurd cc

-- For each of the 33 packets of the Play state that have an encoder and a decoder, carry no NBT and do
-- not end in a field that takes what is left: the frame of a packet that its encoder sends, sent again
-- with at least one more byte behind its payload, is refused by its decoder, which counts those bytes,
-- and the frame and what follows it stay in the input. The fields are in the ranges that the round trip
-- asks for.
pub decode-trailing_bytes :
    {packet : PlayPacket} {encode : ℕ → Action PlayError (Unit {0})}
    {decode : ℕ → Action PlayError PlayDecodeOutcome}
    → PacketCodec packet encode decode
    → (maximum limit : ℕ) (wire longer rest : List ℕ) (frame : PacketFrame) (b : ℕ) (bs : List ℕ)
    → takes_rest packet ≡ false
    → encode maximum [] ≡ ok tt wire
    → decode_frame maximum wire ≡ ok (DecodeOutcome.complete frame) []
    → encode_frame frame.packet_id (frame.payload ++ (b ∷ bs)) limit [] ≡ ok tt longer
    → decode limit (longer ++ rest) ≡ err (trailing_bytes (length (b ∷ bs))) (longer ++ rest)
decode-trailing_bytes codec maximum limit wire longer rest frame b bs exact e whole again =
    Parts-trailing_bytes (codec-Parts codec) maximum limit wire longer rest frame b bs exact e whole
      again
