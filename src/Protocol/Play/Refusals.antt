-- ===== src/Protocol/Play/Refusals.antt =====
-- What the decoders of the Play packets refuse, and what they leave in the input then.
use rustbound_server.Prelude.{ℕ, ◌≡◌, ◌≢◌, refl, inl, inr, Bool-cases, List, [], ◌∷◌, ◌++◌}
use rustbound_server.Prelude.Int.{ℤ, eqb_ℤ, eqb_ℤ→eq}
use rustbound_server.Prelude.Words.{IsI32}
use rustbound_server.Prelude.Buffer.{Outcome, Action, ok, err}
use rustbound_server.Protocol.Framing.{DecodeOutcome, FramingError, encode_frame, decode_frame}
use rustbound_server.Protocol.Framing.Decode.{decode_frame-encode_frame}
use rustbound_server.Protocol.Play.{PlayError, wrong_packet_id}
use rustbound_server.Protocol.Play.Types.{PlayPacket, PlayDecodeOutcome}
use rustbound_server.Protocol.Play.Frame.{finish, decode_play_framed, decode_play_with}

-- Only a complete packet moves the input.
abbrev pub Unmoved : {E : Type 0} → List ℕ → Outcome E PlayDecodeOutcome → Type 0
Unmoved source (ok (PlayDecodeOutcome.complete packet) rest) = Unit {0}
Unmoved source (ok PlayDecodeOutcome.incomplete rest) = rest ≡ source
Unmoved source (err e rest) = rest ≡ source

finish-Unmoved :
    {E : Type 0} (lift : PlayError → E) (source rest : List ℕ) (o : Outcome E PlayPacket)
    → Unmoved source (finish lift source rest o)
unfolding finish
finish-Unmoved lift source rest (ok packet []) = tt
finish-Unmoved lift source rest (ok packet (b ∷ bs)) = refl
finish-Unmoved lift source rest (err e r) = refl

framed-Unmoved :
    {E : Type 0} (lift : PlayError → E) (id : ℤ) (fields : Action E PlayPacket) (source : List ℕ)
    (o : Outcome FramingError DecodeOutcome)
    → Unmoved source (decode_play_framed lift id fields source o)
unfolding decode_play_framed
framed-Unmoved lift id fields source (err e r) = refl
framed-Unmoved lift id fields source (ok DecodeOutcome.incomplete r) = refl
framed-Unmoved lift id fields source (ok (DecodeOutcome.complete frame) rest) =
    elim (Bool-cases (eqb_ℤ frame.packet_id id)) [
      | inl e ↦ rw e (finish-Unmoved lift source rest (fields frame.payload))
      | inr e ↦ rw e refl
    ]

-- Every decoder of a Play packet, whatever its packet id, its fields, the maximum and the bytes,
-- moves its input only past a complete packet.
pub decode_play_with-Unmoved :
    {E : Type 0} (lift : PlayError → E) (id : ℤ) (fields : Action E PlayPacket) (maximum : ℕ)
    (input : List ℕ)
    → Unmoved input (decode_play_with lift id fields maximum input)
unfolding decode_play_with
decode_play_with-Unmoved lift id fields maximum input =
    framed-Unmoved lift id fields input (decode_frame maximum input)

-- A decoder refuses the whole frame of another packet with the two ids, and the frame stays in the
-- input.
pub decode_play_with_other_packet :
    {E : Type 0} (lift : PlayError → E) (sent id : ℤ) (fields : Action E PlayPacket) (body : List ℕ)
    (maximum : ℕ) (wire rest : List ℕ)
    → IsI32 sent
    → sent ≢ id
    → encode_frame sent body maximum [] ≡ ok tt wire
    → decode_play_with lift id fields maximum (wire ++ rest)
      ≡ err (lift (wrong_packet_id sent id)) (wire ++ rest)
unfolding decode_play_with decode_play_framed
decode_play_with_other_packet lift sent id fields body maximum wire rest hi other e =
    elim (Bool-cases (eqb_ℤ sent id)) [
      | inl same ↦ absurd (other (eqb_ℤ→eq sent id same))
      | inr differ ↦
          rw (decode_frame-encode_frame sent body maximum wire rest hi e) (rw differ refl)
    ]
