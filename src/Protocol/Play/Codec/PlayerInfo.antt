-- ===== src/Protocol/Play/Codec/PlayerInfo.antt =====
-- play.rs: the player list, whose entries carry the fields that the action bits name.
use rustbound_server.Prelude.{
  ℕ, ◌==◌, List, length, Bool, true, false, Option, none, some, bit_and, not,
}
use rustbound_server.Prelude.Int.{ℤ, pos}
use rustbound_server.Prelude.Buffer.{Action, write, done, with_body, ◌>>◌}
use rustbound_server.Protocol.Primitives.VarInt.{encode_var_int}
use rustbound_server.Protocol.Primitives.Fixed.{encode_bool, encode_u8, encode_uuid}
use rustbound_server.Protocol.Primitives.Text.{max_chat_component_length}
use rustbound_server.Protocol.Play.{PlayError}
use rustbound_server.Protocol.Play.Frame.{send_play, put_string, put_count, put_each}
use rustbound_server.Protocol.Play.Types.{PlayerInfoEntry, PlayerInfoUpdate}

abbrev pub add_player : ℕ
add_player = 0x1

abbrev pub initialize_chat : ℕ
initialize_chat = 0x2

abbrev pub update_gamemode : ℕ
update_gamemode = 0x4

abbrev pub update_listed : ℕ
update_listed = 0x8

abbrev pub update_latency : ℕ
update_latency = 0x10

abbrev pub update_display_name : ℕ
update_display_name = 0x20

-- `self.0 & bit != 0`.
unfoldable pub has : ℕ → ℕ → Bool
has actions bit = not (bit_and actions bit == 0)

abbrev pub when : Bool → Action PlayError (Unit {0}) → Action PlayError (Unit {0})
when true put = put
when false put = done tt

unfoldable pub put_optional_string : Option (List ℕ) → Action PlayError (Unit {0})
put_optional_string (some value) = do
  write (encode_bool true)
  put_string value max_chat_component_length
put_optional_string none = write (encode_bool false)

unfoldable pub put_property : List ℕ × List ℕ × Option (List ℕ) → Action PlayError (Unit {0})
unfolding put_optional_string
put_property (name, value, signature) = do
  put_string name max_chat_component_length
  put_string value max_chat_component_length
  put_optional_string signature

unfoldable pub put_added_player : PlayerInfoEntry → Action PlayError (Unit {0})
unfolding put_count put_each put_property
put_added_player entry = do
  put_string entry.name max_chat_component_length
  put_count (length entry.properties)
  put_each put_property entry.properties

unfoldable pub put_entry : ℕ → PlayerInfoEntry → Action PlayError (Unit {0})
unfolding has put_added_player put_optional_string
put_entry actions entry = do
  write (encode_uuid entry.uuid)
  when (has actions add_player) (put_added_player entry)
  when (has actions initialize_chat) (write (encode_bool false))
  when (has actions update_gamemode) (write (encode_var_int entry.gamemode))
  when (has actions update_listed) (write (encode_bool entry.listed))
  when (has actions update_latency) (write (encode_var_int entry.latency))
  when (has actions update_display_name) (put_optional_string entry.display_name)

abbrev pub player_info_update_packet_id : ℤ
player_info_update_packet_id = pos 0x3A

unfoldable pub player_info_update_body : PlayerInfoUpdate → Action PlayError (Unit {0})
player_info_update_body packet = do
  write (encode_u8 packet.actions)
  put_count (length packet.entries)
  put_each (put_entry packet.actions) packet.entries

unfoldable pub encode_player_info_update : PlayerInfoUpdate → ℕ → Action PlayError (Unit {0})
unfolding player_info_update_body
encode_player_info_update packet max_frame_length =
    with_body (player_info_update_body packet)
      (send_play player_info_update_packet_id max_frame_length)
