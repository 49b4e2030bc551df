-- ===== src/Protocol/Play/RoundTrip/Window.antt =====
-- What each packet of Codec.Window writes, its decoder reads back.
use rustbound_server.Prelude.{◌≡◌, true}
use rustbound_server.Prelude.Words.{IsI32}
use rustbound_server.Protocol.Primitives.Text.{is_utf8, max_chat_component_length}
use rustbound_server.Protocol.Play.RoundTrip.{Sends, then-Sends, last-Sends}
use rustbound_server.Protocol.Play.RoundTrip.Fields.{u8-Sends, var_int-Sends, string_codec-Sends}
use rustbound_server.Protocol.Play.Types.{
  OpenScreen, CloseContainer, open_screen, close_container_serverbound,
}
use rustbound_server.Protocol.Play.Codec.Window.{
  open_screen_body, open_screen_fields, close_container_serverbound_body,
  close_container_serverbound_fields,
}

pub record IsOpenScreen (packet : OpenScreen) : Type 0 where
  pub window_id : IsI32 packet.window_id
  pub window_type : IsI32 packet.window_type
  pub title : is_utf8 packet.title ≡ true

pub open_screen-Sends :
    (packet : OpenScreen)
    → IsOpenScreen packet
    → Sends (open_screen_body packet) open_screen_fields (open_screen packet)
unfolding open_screen_body open_screen_fields
open_screen-Sends packet h = then-Sends _ (var_int-Sends packet.window_id h.window_id) (
    then-Sends _ (var_int-Sends packet.window_type h.window_type)
      (last-Sends _ (string_codec-Sends packet.title max_chat_component_length h.title)))

pub close_container_serverbound-Sends :
    (packet : CloseContainer)
    → Sends
        (close_container_serverbound_body packet)
        close_container_serverbound_fields
        (close_container_serverbound packet)
unfolding close_container_serverbound_body close_container_serverbound_fields
close_container_serverbound-Sends packet = last-Sends _ (u8-Sends packet.window_id)
