-- ===== src/Protocol/Play/Codec/Window.antt =====
-- play.rs: the window packets without slots.
use rustbound_server.Prelude.{ℕ}
use rustbound_server.Prelude.Int.{ℤ, pos}
use rustbound_server.Prelude.Buffer.{Action, write, done, with_body, ◌>>=◌, ◌>>◌}
use rustbound_server.Protocol.Primitives.VarInt.{encode_var_int, decode_var_int}
use rustbound_server.Protocol.Primitives.Fixed.{decode_i16, encode_u8, decode_u8}
use rustbound_server.Protocol.Primitives.Text.{decode_string, max_chat_component_length}
use rustbound_server.Protocol.Play.{PlayError}
use rustbound_server.Protocol.Play.Frame.{decode_play, send_play, get, put_string_codec}
use rustbound_server.Protocol.Play.Types.{
  OpenScreen, PlayDecodeOutcome, CloseContainer, PlayPacket, open_screen,
  close_container_serverbound, set_held_item_serverbound,
}

abbrev pub open_screen_packet_id : ℤ
open_screen_packet_id = pos 0x30

unfoldable pub open_screen_body : OpenScreen → Action PlayError (Unit {0})
open_screen_body packet = do
  write (encode_var_int packet.window_id)
  write (encode_var_int packet.window_type)
  put_string_codec packet.title max_chat_component_length

unfoldable pub encode_open_screen : OpenScreen → ℕ → Action PlayError (Unit {0})
unfolding open_screen_body
encode_open_screen packet max_frame_length =
    with_body (open_screen_body packet) (send_play open_screen_packet_id max_frame_length)

unfoldable pub open_screen_fields : Action PlayError PlayPacket
open_screen_fields = do
  window_id ← get decode_var_int
  window_type ← get decode_var_int
  title ← get (decode_string max_chat_component_length)
  done (open_screen (record { window_id = window_id; window_type = window_type; title = title }))

unfoldable pub decode_open_screen : ℕ → Action PlayError PlayDecodeOutcome
unfolding open_screen_fields
decode_open_screen = decode_play open_screen_packet_id open_screen_fields

abbrev pub close_container_serverbound_packet_id : ℤ
close_container_serverbound_packet_id = pos 0x0C

unfoldable pub close_container_serverbound_body : CloseContainer → Action PlayError (Unit {0})
close_container_serverbound_body packet = write (encode_u8 packet.window_id)

unfoldable pub encode_close_container_serverbound : CloseContainer → ℕ → Action PlayError (Unit {0})
unfolding close_container_serverbound_body
encode_close_container_serverbound packet max_frame_length =
    with_body (close_container_serverbound_body packet)
      (send_play close_container_serverbound_packet_id max_frame_length)

unfoldable pub close_container_serverbound_fields : Action PlayError PlayPacket
close_container_serverbound_fields = do
  window_id ← get decode_u8
  done (close_container_serverbound (record { window_id = window_id }))

unfoldable pub decode_close_container_serverbound : ℕ → Action PlayError PlayDecodeOutcome
unfolding close_container_serverbound_fields
decode_close_container_serverbound =
    decode_play close_container_serverbound_packet_id close_container_serverbound_fields

abbrev pub close_container_clientbound_packet_id : ℤ
close_container_clientbound_packet_id = pos 0x11

unfoldable pub close_container_clientbound_body : CloseContainer → Action PlayError (Unit {0})
close_container_clientbound_body packet = write (encode_u8 packet.window_id)

unfoldable pub encode_close_container_clientbound : CloseContainer → ℕ → Action PlayError (Unit {0})
unfolding close_container_clientbound_body
encode_close_container_clientbound packet max_frame_length =
    with_body (close_container_clientbound_body packet)
      (send_play close_container_clientbound_packet_id max_frame_length)

abbrev pub set_held_item_serverbound_packet_id : ℤ
set_held_item_serverbound_packet_id = pos 0x28

unfoldable pub set_held_item_serverbound_fields : Action PlayError PlayPacket
set_held_item_serverbound_fields = do
  slot ← get decode_i16
  done (set_held_item_serverbound (record { slot = slot }))

unfoldable pub decode_set_held_item_serverbound : ℕ → Action PlayError PlayDecodeOutcome
unfolding set_held_item_serverbound_fields
decode_set_held_item_serverbound =
    decode_play set_held_item_serverbound_packet_id set_held_item_serverbound_fields
