-- ===== src/Protocol/Play/RoundTrip/Fields.antt =====
-- One field of each kind, written and read.
use rustbound_server.Prelude.{
  ℕ, ◌<◌, ◌≡◌, ◌∙◌, ◌^◌, ◌∷◌, [], List, Bool, true, Option, some, refl, arith,
}
use rustbound_server.Prelude.Int.{ℤ}
use rustbound_server.Prelude.Words.{
  IsI8, IsI16, IsI32, IsI64, as_unsigned, to_be_bytes, as_signed-as_unsigned,
}
use rustbound_server.Prelude.Buffer.{>>=-ok, write, map_err, ◌>>=◌, map_err-eq_ok}
use rustbound_server.Protocol.Primitives.{CodecError}
use rustbound_server.Protocol.Primitives.VarInt.{encode_var_int, decode_var_int}
use rustbound_server.Protocol.Primitives.Fixed.{
  encode_i16, decode_i16, encode_i32, decode_i32, encode_i64, decode_i64, encode_f32, decode_f32,
  encode_f64, decode_f64, encode_position, decode_position, encode_bool, decode_bool, encode_i8,
  decode_i8, encode_u8, decode_u8,
}
use rustbound_server.Protocol.Primitives.Text.{is_utf8, encode_string, decode_string}
use rustbound_server.Protocol.Play.{PlayError, codec, from_codec}
use rustbound_server.Protocol.Play.Frame.{
  get, put_string, put_string_codec, put_position, required, chat_mode_field, main_hand_field,
  player_digging_action_field,
}
use rustbound_server.Protocol.Play.RoundTrip.{Sends, write-Sends}
use rustbound_server.Protocol.Play.Types.{
  ChatMode, PlayerDiggingAction, MainHand, chat_mode_to_wire, chat_mode_from_wire,
  chat_mode_from_wire-to_wire, main_hand_to_wire, main_hand_from_wire, main_hand_from_wire-to_wire,
  player_digging_action_to_wire, player_digging_action_from_wire,
  player_digging_action_from_wire-to_wire, full, system, hidden, left, right, start_destroy,
  abort_destroy, stop_destroy, drop_all_items, drop_item, shoot_arrow_or_finish_eating,
  swap_item_in_hand,
}
use rustbound_server.Protocol.Primitives.Fixed.RoundTrip.{
  decode_be-bytes, decode_bool-bytes, decode_i16-bytes, decode_i32-bytes, decode_i64-bytes,
}
use rustbound_server.Protocol.Primitives.Fixed.Position.{
  IsPackable, decode_position-encode_position,
}
use rustbound_server.Protocol.Primitives.VarInt.Encode.{var_int_bytes, encode_var_int-append}
use rustbound_server.Protocol.Primitives.VarInt.RoundTrip.{decode_var_int-bytes}
use rustbound_server.Protocol.Primitives.Text.RoundTrip.{
  string_bytes, encode_string-Fits, encode_string-eq_ok, decode_string-bytes,
}

pub f64-Sends : (v : ℕ) → v < 2 ^ 64 → Sends (write (encode_f64 v)) (get decode_f64) v
unfolding encode_f64 decode_f64
f64-Sends v h =
    write-Sends (encode_f64 v) (to_be_bytes 8 v) (λ output. refl)
      (λ rest. rw (decode_be-bytes 8 v rest h, map_err))

pub f32-Sends : (v : ℕ) → v < 2 ^ 32 → Sends (write (encode_f32 v)) (get decode_f32) v
unfolding encode_f32 decode_f32
f32-Sends v h =
    write-Sends (encode_f32 v) (to_be_bytes 4 v) (λ output. refl)
      (λ rest. rw (decode_be-bytes 4 v rest h, map_err))

pub bool-Sends : (v : Bool) → Sends (write (encode_bool v)) (get decode_bool) v
unfolding encode_bool
bool-Sends v =
    write-Sends (encode_bool v) (encode_bool v []) (λ output. refl)
      (λ rest. rw (decode_bool-bytes v rest, map_err))

pub u8-Sends : (v : ℕ) → Sends (write (encode_u8 v)) (get decode_u8) v
unfolding encode_u8 decode_u8
u8-Sends v = write-Sends (encode_u8 v) (v ∷ []) (λ output. refl) (λ rest. refl)

pub i8-Sends : (v : ℤ) → IsI8 v → Sends (write (encode_i8 v)) (get decode_i8) v
unfolding encode_i8 decode_i8
i8-Sends v h =
    write-Sends (encode_i8 v) (as_unsigned (2 ^ 8) v ∷ []) (λ output. refl)
      (λ rest. rw (as_signed-as_unsigned (2 ^ 7) v h) refl)

pub i16-Sends : (v : ℤ) → IsI16 v → Sends (write (encode_i16 v)) (get decode_i16) v
unfolding encode_i16
i16-Sends v h =
    write-Sends (encode_i16 v) (to_be_bytes 2 (as_unsigned (2 ^ 16) v)) (λ output. refl)
      (λ rest. rw (decode_i16-bytes v rest h, map_err))

pub i32-Sends : (v : ℤ) → IsI32 v → Sends (write (encode_i32 v)) (get decode_i32) v
unfolding encode_i32
i32-Sends v h =
    write-Sends (encode_i32 v) (to_be_bytes 4 (as_unsigned (2 ^ 32) v)) (λ output. refl)
      (λ rest. rw (decode_i32-bytes v rest h, map_err))

pub i64-Sends : (v : ℤ) → IsI64 v → Sends (write (encode_i64 v)) (get decode_i64) v
unfolding encode_i64
i64-Sends v h =
    write-Sends (encode_i64 v) (to_be_bytes 8 (as_unsigned (2 ^ 64) v)) (λ output. refl)
      (λ rest. rw (decode_i64-bytes v rest h, map_err))

pub var_int-Sends : (v : ℤ) → IsI32 v → Sends (write (encode_var_int v)) (get decode_var_int) v
var_int-Sends v h =
    write-Sends (encode_var_int v) (var_int_bytes v) (encode_var_int-append v)
      (λ rest. rw (decode_var_int-bytes v rest h, map_err))

abbrev pub IsPosition : ℤ × ℤ × ℤ → Type 0
IsPosition (x, y, z) = IsPackable x y z

pub position-Sends : (p : ℤ × ℤ × ℤ) → IsPosition p → Sends (put_position p) (get decode_position) p
unfolding encode_position encode_i64
position-Sends (x, y, z) h =
    write-Sends (encode_position x y z) (encode_position x y z []) (λ output. refl)
      (λ rest. rw (decode_position-encode_position x y z rest h, map_err))

string_sent :
    (f : CodecError → PlayError) (value : List ℕ) (max_utf16_units : ℕ)
    → is_utf8 value ≡ true
    → Sends
        (map_err f (encode_string value max_utf16_units))
        (get (decode_string max_utf16_units))
        value
string_sent f value max_utf16_units u = record {
  sent = λ output output' e.
      let written = map_err-eq_ok f (encode_string value max_utf16_units) output output' tt e in
      let fits = encode_string-eq_ok value max_utf16_units output output' written in
      (
        string_bytes value,
        cc (written, encode_string-Fits value max_utf16_units output fits),
        λ rest h. rw (decode_string-bytes value max_utf16_units rest u fits, map_err),
      );
}

pub string-Sends :
    (value : List ℕ) (max_utf16_units : ℕ)
    → is_utf8 value ≡ true
    → Sends (put_string value max_utf16_units) (get (decode_string max_utf16_units)) value
string-Sends = string_sent from_codec

pub string_codec-Sends :
    (value : List ℕ) (max_utf16_units : ℕ)
    → is_utf8 value ≡ true
    → Sends (put_string_codec value max_utf16_units) (get (decode_string max_utf16_units)) value
string_codec-Sends = string_sent codec

-- A number on the wire that stands for an enumerated value.
wire_value-Sends :
    {A : Type 0} (from_wire : ℤ → Option A) (raw : ℤ) (value : A)
    → IsI32 raw
    → from_wire raw ≡ some value
    → Sends (write (encode_var_int raw)) (get decode_var_int >>= λ v. required (from_wire v)) value
wire_value-Sends from_wire raw value h known =
    write-Sends (encode_var_int raw) (var_int_bytes raw) (encode_var_int-append raw) (λ rest.
      >>=-ok (get decode_var_int) (λ v. required (from_wire v)) {rest = rest} {a = raw}
        (rw (decode_var_int-bytes raw rest h, map_err))
      ∙ rw known refl)

chat_mode_to_wire-IsI32 : (m : ChatMode) → IsI32 (chat_mode_to_wire m)
unfolding chat_mode_to_wire
chat_mode_to_wire-IsI32 full = omega arith
chat_mode_to_wire-IsI32 system = omega arith
chat_mode_to_wire-IsI32 hidden = omega arith

pub chat_mode-Sends :
    (m : ChatMode) → Sends (write (encode_var_int (chat_mode_to_wire m))) chat_mode_field m
unfolding chat_mode_field
chat_mode-Sends m =
    wire_value-Sends chat_mode_from_wire (chat_mode_to_wire m) m (chat_mode_to_wire-IsI32 m)
      (chat_mode_from_wire-to_wire m)

main_hand_to_wire-IsI32 : (m : MainHand) → IsI32 (main_hand_to_wire m)
unfolding main_hand_to_wire
main_hand_to_wire-IsI32 left = omega arith
main_hand_to_wire-IsI32 right = omega arith

pub main_hand-Sends :
    (m : MainHand) → Sends (write (encode_var_int (main_hand_to_wire m))) main_hand_field m
unfolding main_hand_field
main_hand-Sends m =
    wire_value-Sends main_hand_from_wire (main_hand_to_wire m) m (main_hand_to_wire-IsI32 m)
      (main_hand_from_wire-to_wire m)

player_digging_action_to_wire-IsI32 :
    (m : PlayerDiggingAction) → IsI32 (player_digging_action_to_wire m)
unfolding player_digging_action_to_wire
player_digging_action_to_wire-IsI32 start_destroy = omega arith
player_digging_action_to_wire-IsI32 abort_destroy = omega arith
player_digging_action_to_wire-IsI32 stop_destroy = omega arith
player_digging_action_to_wire-IsI32 drop_all_items = omega arith
player_digging_action_to_wire-IsI32 drop_item = omega arith
player_digging_action_to_wire-IsI32 shoot_arrow_or_finish_eating = omega arith
player_digging_action_to_wire-IsI32 swap_item_in_hand = omega arith

pub player_digging_action-Sends :
    (m : PlayerDiggingAction)
    → Sends (write (encode_var_int (player_digging_action_to_wire m))) player_digging_action_field m
unfolding player_digging_action_field
player_digging_action-Sends m =
    wire_value-Sends player_digging_action_from_wire (player_digging_action_to_wire m) m
      (player_digging_action_to_wire-IsI32 m) (player_digging_action_from_wire-to_wire m)
