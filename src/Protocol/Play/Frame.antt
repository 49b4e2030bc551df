-- ===== src/Protocol/Play/Frame.antt =====
-- play.rs: what its codecs share. A packet is one frame with its id around the fields; a decoder puts
-- the input back whenever it does not complete a packet.
use rustbound_server.Prelude.{
  ℕ, ◌∷◌, [], List, length, Bool, true, false, Option, none, some, if◌then◌else◌,
}
use rustbound_server.Prelude.Int.{ℤ, pos, eqb_ℤ}
use rustbound_server.Prelude.Words.{to_i32}
use rustbound_server.Prelude.Buffer.{
  Outcome, Action, ok, err, write, done, fail, map_err, ◌>>=◌, ◌>>◌,
}
use rustbound_server.Protocol.Primitives.{CodecError, invalid_boolean, var_int_too_long}
use rustbound_server.Protocol.Primitives.VarInt.{encode_var_int, decode_var_int}
use rustbound_server.Protocol.Primitives.Fixed.{encode_position, decode_position}
use rustbound_server.Protocol.Primitives.Text.{encode_string, decode_string}
use rustbound_server.Protocol.Play.{
  PlayError, codec, trailing_bytes, from_codec, from_framing, wrong_packet_id,
}
use rustbound_server.Protocol.Play.Types.{
  PlayDecodeOutcome, ChatMode, PlayerDiggingAction, MainHand, PlayPacket, chat_mode_from_wire,
  main_hand_from_wire, player_digging_action_from_wire,
}
use rustbound_server.Protocol.Framing.{DecodeOutcome, FramingError, encode_frame, decode_frame}

-- The errors of a decoder: those of the code, or these and the end of a fuel, into which `lift` puts
-- those of the code.
module _ {E : Type 0} where
  -- `if !body.is_empty()`: whatever fails, the input is put back.
  unfoldable pub finish :
      (PlayError → E) → List ℕ → List ℕ → Outcome E PlayPacket → Outcome E PlayDecodeOutcome
  finish lift source rest (ok packet []) = ok (PlayDecodeOutcome.complete packet) rest
  finish lift source rest (ok packet (b ∷ bs)) =
      err (lift (trailing_bytes (length (b ∷ bs)))) source
  finish lift source rest (err e _) = err e source

  -- A decoder behind `decode_frame`, for the packet id and the fields of one packet.
  unfoldable pub decode_play_framed :
      (PlayError → E)
      → ℤ
      → Action E PlayPacket
      → List ℕ
      → Outcome FramingError DecodeOutcome
      → Outcome E PlayDecodeOutcome
  unfolding finish
  decode_play_framed lift expected fields source (err e _) = err (lift (from_framing e)) source
  decode_play_framed lift expected fields source (ok DecodeOutcome.incomplete _) =
      ok PlayDecodeOutcome.incomplete source
  decode_play_framed lift expected fields source (ok (DecodeOutcome.complete frame) rest) =
      if eqb_ℤ frame.packet_id expected
      then finish lift source rest (fields frame.payload)
      else err (lift (wrong_packet_id frame.packet_id expected)) source

  unfoldable pub decode_play_with :
      (PlayError → E) → ℤ → Action E PlayPacket → ℕ → Action E PlayDecodeOutcome
  decode_play_with lift expected fields max_frame_length source =
      decode_play_framed lift expected fields source (decode_frame max_frame_length source)

abbrev pub decode_play : ℤ → Action PlayError PlayPacket → ℕ → Action PlayError PlayDecodeOutcome
decode_play = decode_play_with (λ e. e)

-- The frame around an encoded body.
abbrev pub send_play : ℤ → ℕ → List ℕ → Action PlayError (Unit {0})
send_play id max_frame_length body = map_err from_framing (encode_frame id body max_frame_length)

-- The codecs under the Play error.
abbrev pub get {ℓ} : {A : Type ℓ} → Action CodecError A → Action PlayError A
get = map_err from_codec

abbrev pub put_string : List ℕ → ℕ → Action PlayError (Unit {0})
put_string value max_utf16_units = map_err from_codec (encode_string value max_utf16_units)

-- `map_err(PlayError::Codec)`, which does not go through `From`.
abbrev pub put_string_codec : List ℕ → ℕ → Action PlayError (Unit {0})
put_string_codec value max_utf16_units = map_err codec (encode_string value max_utf16_units)

abbrev pub put_position : ℤ × ℤ × ℤ → Action PlayError (Unit {0})
put_position (x, y, z) = write (encode_position x y z)

abbrev pub rest_of_body : Action PlayError (List ℕ)
rest_of_body body = ok body []

-- `ok_or_else(|| PlayError::Codec(CodecError::InvalidBoolean))`.
abbrev pub required {ℓ} : {A : Type ℓ} → Option A → Action PlayError A
required none = fail (codec invalid_boolean)
required (some value) = done value

unfoldable pub chat_mode_field : Action PlayError ChatMode
chat_mode_field = do raw ← get decode_var_int; required (chat_mode_from_wire raw)

unfoldable pub main_hand_field : Action PlayError MainHand
main_hand_field = do raw ← get decode_var_int; required (main_hand_from_wire raw)

unfoldable pub player_digging_action_field : Action PlayError PlayerDiggingAction
player_digging_action_field = do
  raw ← get decode_var_int
  required (player_digging_action_from_wire raw)

abbrev pub max_identifier_length : ℕ
max_identifier_length = 32767

-- The optional death location, behind its flag.
unfoldable pub put_death_location : Bool → List ℕ → ℤ × ℤ × ℤ → ℕ → Action PlayError (Unit {0})
put_death_location true name location max_utf16_units = do
  put_string name max_utf16_units
  put_position location
put_death_location false name location max_utf16_units = done tt

unfoldable pub death_location_fields : Bool → ℕ → Action PlayError (List ℕ × (ℤ × ℤ × ℤ))
death_location_fields true max_utf16_units = do
  name ← get (decode_string max_utf16_units)
  location ← get decode_position
  done (name, location)
death_location_fields false max_utf16_units = done ([], (pos 0, pos 0, pos 0))

-- `i32::try_from(n)`, written as a VarInt.
unfoldable pub put_count : ℕ → Action PlayError (Unit {0})
unfolding to_i32
put_count n = elim (to_i32 n) [
  | none ↦ fail (codec var_int_too_long)
  | some count ↦ write (encode_var_int count)
]

-- `for x in xs`.
unfoldable pub put_each {ℓ} :
    {A : Type ℓ} → (A → Action PlayError (Unit {0})) → List A → Action PlayError (Unit {0})
put_each put [] = done tt
put_each put (x ∷ xs) = put x >> put_each put xs
