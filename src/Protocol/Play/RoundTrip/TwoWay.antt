-- ===== src/Protocol/Play/RoundTrip/TwoWay.antt =====
-- The round trip of the Play packets that have an encoder and a decoder.
use rustbound_server.Prelude.{ℕ, ◌≡◌, ◌++◌, [], List}
use rustbound_server.Prelude.Buffer.{Action, ok}
use rustbound_server.Protocol.Play.{PlayError}
use rustbound_server.Protocol.Play.Types.{PlayDecodeOutcome, PlayPacket}
use rustbound_server.Protocol.Play.RoundTrip.Codecs.{PacketCodec}
use rustbound_server.Protocol.Play.RoundTrip.Parts.{Parts, closed, open_ended, codec-Parts}
use rustbound_server.Protocol.Play.RoundTrip.{Sends-SendsAll, decode_play-send_play}

Parts-decode :
    {packet : PlayPacket} {encode : ℕ → Action PlayError (Unit {0})}
    {decode : ℕ → Action PlayError PlayDecodeOutcome}
    → Parts packet encode decode
    → (maximum : ℕ) (wire rest : List ℕ) → encode maximum [] ≡ ok tt wire
    → decode maximum (wire ++ rest) ≡ ok (PlayDecodeOutcome.complete packet) rest
Parts-decode (closed id h sends) maximum wire rest e =
    decode_play-send_play (λ e. e) id maximum wire rest h (Sends-SendsAll sends) e
Parts-decode (open_ended id h all sends) maximum wire rest e =
    decode_play-send_play (λ e. e) id maximum wire rest h sends e

-- For each of the 34 packets of the Play state that have an encoder and a decoder and carry no NBT: a
-- packet that its encoder sends, its decoder under the same maximum reads back whole, with what follows
-- it left in the input. Each field is in the range of its Rust type, a text is UTF-8, a block position
-- fits the 26, 12 and 26 bits that the wire has for it, and in a packet that says that it has no death
-- location the dimension of that location is empty and its coordinates are 0.
pub decode-encode :
    {packet : PlayPacket} {encode : ℕ → Action PlayError (Unit {0})}
    {decode : ℕ → Action PlayError PlayDecodeOutcome}
    → PacketCodec packet encode decode
    → (maximum : ℕ) (wire rest : List ℕ) → encode maximum [] ≡ ok tt wire
    → decode maximum (wire ++ rest) ≡ ok (PlayDecodeOutcome.complete packet) rest
decode-encode codec maximum wire rest e = Parts-decode (codec-Parts codec) maximum wire rest e
