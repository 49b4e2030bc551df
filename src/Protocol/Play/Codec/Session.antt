-- ===== src/Protocol/Play/Codec/Session.antt =====
-- play.rs: keep alive, plugin messages, respawn and chat.
use rustbound_server.Prelude.{ℕ, ◌++◌, Bool, true, false}
use rustbound_server.Prelude.Int.{ℤ, pos}
use rustbound_server.Prelude.Buffer.{Action, write, done, map_err, with_body, ◌>>=◌, ◌>>◌}
use rustbound_server.Protocol.Primitives.VarInt.{encode_var_int, decode_var_int}
use rustbound_server.Protocol.Primitives.Fixed.{
  encode_i64, decode_i64, encode_bool, decode_bool, encode_i8, decode_i8, encode_u8, decode_u8,
}
use rustbound_server.Protocol.Primitives.Text.{decode_string, max_chat_component_length}
use rustbound_server.Protocol.Play.{PlayError, codec}
use rustbound_server.Protocol.Play.Frame.{
  decode_play, send_play, get, put_string, put_string_codec, rest_of_body, death_location_fields,
  put_death_location,
}
use rustbound_server.Protocol.Play.Types.{
  KeepAlive, PlayDecodeOutcome, PluginMessageClientbound, Respawn, SystemChatMessage, PlayPacket,
  keep_alive_clientbound, keep_alive_serverbound, plugin_message_clientbound,
  chat_message_serverbound, respawn, client_status,
}

unfoldable pub wrap_keep_alive : Bool → KeepAlive → PlayPacket
wrap_keep_alive true = keep_alive_clientbound
wrap_keep_alive false = keep_alive_serverbound

unfoldable pub keep_alive_fields : Bool → Action PlayError PlayPacket
unfolding wrap_keep_alive
keep_alive_fields clientbound = do
  payload ← get decode_i64
  done (wrap_keep_alive clientbound (record { payload = payload }))

unfoldable pub decode_keep_alive : ℤ → Bool → ℕ → Action PlayError PlayDecodeOutcome
unfolding keep_alive_fields
decode_keep_alive expected_id clientbound = decode_play expected_id (keep_alive_fields clientbound)

abbrev pub keep_alive_clientbound_packet_id : ℤ
keep_alive_clientbound_packet_id = pos 0x23

unfoldable pub keep_alive_clientbound_body : KeepAlive → Action PlayError (Unit {0})
keep_alive_clientbound_body packet = write (encode_i64 packet.payload)

unfoldable pub encode_keep_alive_clientbound : KeepAlive → ℕ → Action PlayError (Unit {0})
unfolding keep_alive_clientbound_body
encode_keep_alive_clientbound packet max_frame_length =
    with_body (keep_alive_clientbound_body packet)
      (send_play keep_alive_clientbound_packet_id max_frame_length)

unfoldable pub decode_keep_alive_clientbound : ℕ → Action PlayError PlayDecodeOutcome
unfolding decode_keep_alive
decode_keep_alive_clientbound = decode_keep_alive keep_alive_clientbound_packet_id true

abbrev pub keep_alive_serverbound_packet_id : ℤ
keep_alive_serverbound_packet_id = pos 0x12

unfoldable pub keep_alive_serverbound_body : KeepAlive → Action PlayError (Unit {0})
keep_alive_serverbound_body packet = write (encode_i64 packet.payload)

unfoldable pub encode_keep_alive_serverbound : KeepAlive → ℕ → Action PlayError (Unit {0})
unfolding keep_alive_serverbound_body
encode_keep_alive_serverbound packet max_frame_length =
    with_body (keep_alive_serverbound_body packet)
      (send_play keep_alive_serverbound_packet_id max_frame_length)

unfoldable pub decode_keep_alive_serverbound : ℕ → Action PlayError PlayDecodeOutcome
unfolding decode_keep_alive
decode_keep_alive_serverbound = decode_keep_alive keep_alive_serverbound_packet_id false

abbrev pub plugin_message_clientbound_packet_id : ℤ
plugin_message_clientbound_packet_id = pos 0x17

unfoldable pub plugin_message_clientbound_body :
    PluginMessageClientbound → Action PlayError (Unit {0})
plugin_message_clientbound_body packet = do
  put_string packet.channel max_chat_component_length
  write (λ body. body ++ packet.payload)

unfoldable pub encode_plugin_message_clientbound :
    PluginMessageClientbound → ℕ → Action PlayError (Unit {0})
unfolding plugin_message_clientbound_body
encode_plugin_message_clientbound packet max_frame_length =
    with_body (plugin_message_clientbound_body packet)
      (send_play plugin_message_clientbound_packet_id max_frame_length)

unfoldable pub plugin_message_clientbound_fields : Action PlayError PlayPacket
plugin_message_clientbound_fields = do
  channel ← get (decode_string max_chat_component_length)
  payload ← rest_of_body
  done (plugin_message_clientbound (record { channel = channel; payload = payload }))

unfoldable pub decode_plugin_message_clientbound : ℕ → Action PlayError PlayDecodeOutcome
unfolding plugin_message_clientbound_fields
decode_plugin_message_clientbound =
    decode_play plugin_message_clientbound_packet_id plugin_message_clientbound_fields

abbrev pub respawn_packet_id : ℤ
respawn_packet_id = pos 0x41

unfoldable pub respawn_body : Respawn → Action PlayError (Unit {0})
respawn_body packet = do
  put_string packet.dimension_type max_chat_component_length
  put_string packet.dimension_name max_chat_component_length
  write (encode_i64 packet.hashed_seed)
  write (encode_u8 packet.gamemode)
  write (encode_i8 packet.previous_gamemode)
  write (encode_bool packet.is_debug)
  write (encode_bool packet.is_flat)
  write (encode_bool packet.has_death_location)
  put_death_location packet.has_death_location packet.death_dimension_name packet.death_location
      max_chat_component_length
  write (encode_var_int packet.portal_cooldown)
  write (encode_u8 packet.data_kept)

unfoldable pub encode_respawn : Respawn → ℕ → Action PlayError (Unit {0})
unfolding respawn_body
encode_respawn packet max_frame_length =
    with_body (respawn_body packet) (send_play respawn_packet_id max_frame_length)

unfoldable pub respawn_fields : Action PlayError PlayPacket
respawn_fields = do
  dimension_type ← get (decode_string max_chat_component_length)
  dimension_name ← get (decode_string max_chat_component_length)
  hashed_seed ← get decode_i64
  gamemode ← get decode_u8
  previous_gamemode ← get decode_i8
  is_debug ← get decode_bool
  is_flat ← get decode_bool
  has_death_location ← get decode_bool
  death ← death_location_fields has_death_location max_chat_component_length
  portal_cooldown ← get decode_var_int
  data_kept ← get decode_u8
  done (
      respawn (record {
        dimension_type = dimension_type;
        dimension_name = dimension_name;
        hashed_seed = hashed_seed;
        gamemode = gamemode;
        previous_gamemode = previous_gamemode;
        is_debug = is_debug;
        is_flat = is_flat;
        has_death_location = has_death_location;
        death_dimension_name = death.0;
        death_location = death.1;
        portal_cooldown = portal_cooldown;
        data_kept = data_kept;
      }))

unfoldable pub decode_respawn : ℕ → Action PlayError PlayDecodeOutcome
unfolding respawn_fields
decode_respawn = decode_play respawn_packet_id respawn_fields

abbrev pub client_status_packet_id : ℤ
client_status_packet_id = pos 0x07

unfoldable pub client_status_fields : Action PlayError PlayPacket
client_status_fields = do
  action ← get decode_var_int
  done (client_status (record { action = action }))

unfoldable pub decode_client_status : ℕ → Action PlayError PlayDecodeOutcome
unfolding client_status_fields
decode_client_status = decode_play client_status_packet_id client_status_fields

abbrev pub chat_message_serverbound_packet_id : ℤ
chat_message_serverbound_packet_id = pos 0x05

-- The rest of the frame is not read.
unfoldable pub chat_message_serverbound_fields : Action PlayError PlayPacket
chat_message_serverbound_fields = do
  message ← map_err codec (decode_string 256)
  ignored ← rest_of_body
  done (chat_message_serverbound (record { message = message }))

unfoldable pub decode_chat_message_serverbound : ℕ → Action PlayError PlayDecodeOutcome
unfolding chat_message_serverbound_fields
decode_chat_message_serverbound =
    decode_play chat_message_serverbound_packet_id chat_message_serverbound_fields

abbrev pub system_chat_message_packet_id : ℤ
system_chat_message_packet_id = pos 0x64

unfoldable pub system_chat_message_body : SystemChatMessage → Action PlayError (Unit {0})
system_chat_message_body packet = do
  put_string_codec packet.content 32767
  write (encode_bool packet.overlay)

unfoldable pub encode_system_chat_message : SystemChatMessage → ℕ → Action PlayError (Unit {0})
unfolding system_chat_message_body
encode_system_chat_message packet max_frame_length =
    with_body (system_chat_message_body packet)
      (send_play system_chat_message_packet_id max_frame_length)
