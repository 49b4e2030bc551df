-- ===== src/Protocol/Play/RoundTrip/Parts.antt =====
-- What the Play packets with an encoder and a decoder and no NBT have in common: a packet id, the write
-- of the body and the read of the fields.
use rustbound_server.Prelude.{ℕ, ◌≡◌, true, false, arith}
use rustbound_server.Prelude.Buffer.{Action}
use rustbound_server.Protocol.Play.{PlayError}
use rustbound_server.Protocol.Play.Types.{PlayDecodeOutcome, PlayPacket}
use rustbound_server.Protocol.Play.Codec.Movement.{
  encode_set_player_position, decode_set_player_position, set_player_position_packet_id,
  encode_set_player_position_and_rotation, decode_set_player_position_and_rotation,
  set_player_position_and_rotation_packet_id, encode_set_player_rotation,
  decode_set_player_rotation, set_player_rotation_packet_id, encode_synchronize_player_position,
  decode_synchronize_player_position, synchronize_player_position_packet_id,
  encode_confirm_teleportation, decode_confirm_teleportation, confirm_teleportation_packet_id,
}
use rustbound_server.Protocol.Play.RoundTrip.Movement.{
  set_player_position-Sends, set_player_position_and_rotation-Sends, set_player_rotation-Sends,
  synchronize_player_position-Sends, confirm_teleportation-Sends,
}
use rustbound_server.Protocol.Play.Codec.Player.{
  encode_disconnect_play, decode_disconnect_play, disconnect_play_packet_id,
  encode_client_information, decode_client_information, client_information_packet_id,
  encode_change_difficulty, decode_change_difficulty, change_difficulty_packet_id,
  encode_player_abilities, decode_player_abilities, player_abilities_packet_id,
  encode_set_held_item, decode_set_held_item, set_held_item_packet_id, encode_game_event,
  decode_game_event, game_event_packet_id, encode_set_health, decode_set_health,
  set_health_packet_id, encode_combat_death, decode_combat_death, combat_death_packet_id,
}
use rustbound_server.Protocol.Play.RoundTrip.Player.{
  disconnect_play-Sends, client_information-Sends, change_difficulty-Sends, player_abilities-Sends,
  set_held_item-Sends, game_event-Sends, set_health-Sends, combat_death-Sends,
}
use rustbound_server.Protocol.Play.Codec.World.{
  encode_set_default_spawn_position, decode_set_default_spawn_position,
  set_default_spawn_position_packet_id, encode_set_center_chunk, decode_set_center_chunk,
  set_center_chunk_packet_id, encode_set_render_distance, decode_set_render_distance,
  set_render_distance_packet_id, encode_set_simulation_distance, decode_set_simulation_distance,
  set_simulation_distance_packet_id, encode_set_block_destroy_stage, decode_set_block_destroy_stage,
  set_block_destroy_stage_packet_id,
}
use rustbound_server.Protocol.Play.RoundTrip.World.{
  set_default_spawn_position-Sends, set_center_chunk-Sends, set_render_distance-Sends,
  set_simulation_distance-Sends, set_block_destroy_stage-Sends,
}
use rustbound_server.Protocol.Play.Codec.Block.{
  encode_player_digging, decode_player_digging, player_digging_packet_id, encode_use_item_on,
  decode_use_item_on, use_item_on_packet_id, encode_block_update, decode_block_update,
  block_update_packet_id, encode_acknowledge_block_change, decode_acknowledge_block_change,
  acknowledge_block_change_packet_id,
}
use rustbound_server.Protocol.Play.RoundTrip.Block.{
  player_digging-Sends, use_item_on-Sends, block_update-Sends, acknowledge_block_change-Sends,
}
use rustbound_server.Protocol.Play.Codec.Entity.{
  encode_entity_event, decode_entity_event, entity_event_packet_id, encode_move_entity_pos,
  decode_move_entity_pos, move_entity_pos_packet_id, encode_move_entity_pos_rot,
  decode_move_entity_pos_rot, move_entity_pos_rot_packet_id, encode_move_entity_rot,
  decode_move_entity_rot, move_entity_rot_packet_id, encode_entity_teleport, decode_entity_teleport,
  entity_teleport_packet_id,
}
use rustbound_server.Protocol.Play.RoundTrip.Entity.{
  entity_event-Sends, move_entity_pos-Sends, move_entity_pos_rot-Sends, move_entity_rot-Sends,
  entity_teleport-Sends,
}
use rustbound_server.Protocol.Play.Codec.Window.{
  encode_open_screen, decode_open_screen, open_screen_packet_id, encode_close_container_serverbound,
  decode_close_container_serverbound, close_container_serverbound_packet_id,
}
use rustbound_server.Protocol.Play.RoundTrip.Window.{
  open_screen-Sends, close_container_serverbound-Sends,
}
use rustbound_server.Protocol.Play.Codec.Registry.{
  encode_unload_chunk, decode_unload_chunk, unload_chunk_packet_id,
}
use rustbound_server.Protocol.Play.RoundTrip.Registry.{unload_chunk-Sends}
use rustbound_server.Protocol.Play.Codec.Session.{
  encode_respawn, decode_respawn, respawn_packet_id, encode_keep_alive_clientbound,
  decode_keep_alive_clientbound, keep_alive_clientbound_packet_id, keep_alive_clientbound_body,
  encode_keep_alive_serverbound, decode_keep_alive_serverbound, keep_alive_serverbound_packet_id,
  keep_alive_serverbound_body, decode_keep_alive, wrap_keep_alive,
  encode_plugin_message_clientbound, decode_plugin_message_clientbound,
  plugin_message_clientbound_packet_id,
}
use rustbound_server.Protocol.Play.RoundTrip.Session.{
  respawn-Sends, keep_alive-Sends, plugin_message_clientbound-SendsAll,
}
use rustbound_server.Protocol.Play.RoundTrip.Codecs.{
  PacketCodec, set_player_position_codec, set_player_position_and_rotation_codec,
  set_player_rotation_codec, synchronize_player_position_codec, confirm_teleportation_codec,
  disconnect_play_codec, client_information_codec, change_difficulty_codec, player_abilities_codec,
  set_held_item_codec, game_event_codec, set_health_codec, combat_death_codec,
  set_default_spawn_position_codec, set_center_chunk_codec, set_render_distance_codec,
  set_simulation_distance_codec, set_block_destroy_stage_codec, player_digging_codec,
  use_item_on_codec, block_update_codec, acknowledge_block_change_codec, entity_event_codec,
  move_entity_pos_codec, move_entity_pos_rot_codec, move_entity_rot_codec, entity_teleport_codec,
  open_screen_codec, close_container_serverbound_codec, unload_chunk_codec, respawn_codec,
  keep_alive_clientbound_codec, keep_alive_serverbound_codec, plugin_message_clientbound_codec,
}
use rustbound_server.Prelude.{Bool, refl}
use rustbound_server.Prelude.Int.{ℤ}
use rustbound_server.Prelude.Words.{IsI32}
use rustbound_server.Prelude.Buffer.{with_body}
use rustbound_server.Protocol.Play.Types.{plugin_message_clientbound}
use rustbound_server.Protocol.Play.Frame.{decode_play_with, send_play}
use rustbound_server.Protocol.Play.RoundTrip.{Sends, SendsAll}

-- The packet whose last field is all that is left of its frame.
abbrev pub takes_rest : PlayPacket → Bool
takes_rest (plugin_message_clientbound packet) = true
takes_rest _ = false

pub data Parts
    : PlayPacket
      → (ℕ → Action PlayError (Unit {0}))
      → (ℕ → Action PlayError PlayDecodeOutcome)
      → Type 0 where
  closed :
      {body : Action PlayError (Unit {0})} {fields : Action PlayError PlayPacket}
      {packet : PlayPacket} (id : ℤ)
      → IsI32 id
      → Sends body fields packet
      → Parts packet
          (λ maximum. with_body body (send_play id maximum))
          (decode_play_with (λ (e : PlayError). e) id fields)
  open_ended :
      {body : Action PlayError (Unit {0})} {fields : Action PlayError PlayPacket}
      {packet : PlayPacket} (id : ℤ)
      → IsI32 id
      → takes_rest packet ≡ true
      → SendsAll body fields packet
      → Parts packet
          (λ maximum. with_body body (send_play id maximum))
          (decode_play_with (λ (e : PlayError). e) id fields)

pub codec-Parts :
    {packet : PlayPacket} {encode : ℕ → Action PlayError (Unit {0})}
    {decode : ℕ → Action PlayError PlayDecodeOutcome}
    → PacketCodec packet encode decode
    → Parts packet encode decode
unfolding encode_set_player_position decode_set_player_position
    encode_set_player_position_and_rotation decode_set_player_position_and_rotation
    encode_set_player_rotation decode_set_player_rotation encode_synchronize_player_position
    decode_synchronize_player_position encode_confirm_teleportation decode_confirm_teleportation
    encode_disconnect_play decode_disconnect_play encode_client_information
    decode_client_information encode_change_difficulty decode_change_difficulty
    encode_player_abilities decode_player_abilities encode_set_held_item decode_set_held_item
    encode_game_event decode_game_event encode_set_health decode_set_health encode_combat_death
    decode_combat_death encode_set_default_spawn_position decode_set_default_spawn_position
    encode_set_center_chunk decode_set_center_chunk encode_set_render_distance
    decode_set_render_distance encode_set_simulation_distance decode_set_simulation_distance
    encode_set_block_destroy_stage decode_set_block_destroy_stage encode_player_digging
    decode_player_digging encode_use_item_on decode_use_item_on encode_block_update
    decode_block_update encode_acknowledge_block_change decode_acknowledge_block_change
    encode_entity_event decode_entity_event encode_move_entity_pos decode_move_entity_pos
    encode_move_entity_pos_rot decode_move_entity_pos_rot encode_move_entity_rot
    decode_move_entity_rot encode_entity_teleport decode_entity_teleport encode_open_screen
    decode_open_screen encode_close_container_serverbound decode_close_container_serverbound
    encode_unload_chunk decode_unload_chunk encode_respawn decode_respawn
    encode_keep_alive_clientbound decode_keep_alive_clientbound keep_alive_clientbound_body
    encode_keep_alive_serverbound decode_keep_alive_serverbound keep_alive_serverbound_body
    decode_keep_alive wrap_keep_alive encode_plugin_message_clientbound
    decode_plugin_message_clientbound
codec-Parts (set_player_position_codec packet h) =
    closed set_player_position_packet_id (omega arith) (set_player_position-Sends packet h)
codec-Parts (set_player_position_and_rotation_codec packet h) =
    closed set_player_position_and_rotation_packet_id (omega arith)
      (set_player_position_and_rotation-Sends packet h)
codec-Parts (set_player_rotation_codec packet h) =
    closed set_player_rotation_packet_id (omega arith) (set_player_rotation-Sends packet h)
codec-Parts (synchronize_player_position_codec packet h) =
    closed synchronize_player_position_packet_id (omega arith)
      (synchronize_player_position-Sends packet h)
codec-Parts (confirm_teleportation_codec packet h) =
    closed confirm_teleportation_packet_id (omega arith) (confirm_teleportation-Sends packet h)
codec-Parts (disconnect_play_codec packet h) =
    closed disconnect_play_packet_id (omega arith) (disconnect_play-Sends packet h)
codec-Parts (client_information_codec packet h) =
    closed client_information_packet_id (omega arith) (client_information-Sends packet h)
codec-Parts (change_difficulty_codec packet) =
    closed change_difficulty_packet_id (omega arith) (change_difficulty-Sends packet)
codec-Parts (player_abilities_codec packet h) =
    closed player_abilities_packet_id (omega arith) (player_abilities-Sends packet h)
codec-Parts (set_held_item_codec packet) =
    closed set_held_item_packet_id (omega arith) (set_held_item-Sends packet)
codec-Parts (game_event_codec packet h) =
    closed game_event_packet_id (omega arith) (game_event-Sends packet h)
codec-Parts (set_health_codec packet h) =
    closed set_health_packet_id (omega arith) (set_health-Sends packet h)
codec-Parts (combat_death_codec packet h) =
    closed combat_death_packet_id (omega arith) (combat_death-Sends packet h)
codec-Parts (set_default_spawn_position_codec packet h) =
    closed set_default_spawn_position_packet_id (omega arith)
      (set_default_spawn_position-Sends packet h)
codec-Parts (set_center_chunk_codec packet h) =
    closed set_center_chunk_packet_id (omega arith) (set_center_chunk-Sends packet h)
codec-Parts (set_render_distance_codec packet h) =
    closed set_render_distance_packet_id (omega arith) (set_render_distance-Sends packet h)
codec-Parts (set_simulation_distance_codec packet h) =
    closed set_simulation_distance_packet_id (omega arith) (set_simulation_distance-Sends packet h)
codec-Parts (set_block_destroy_stage_codec packet h) =
    closed set_block_destroy_stage_packet_id (omega arith) (set_block_destroy_stage-Sends packet h)
codec-Parts (player_digging_codec packet h) =
    closed player_digging_packet_id (omega arith) (player_digging-Sends packet h)
codec-Parts (use_item_on_codec packet h) =
    closed use_item_on_packet_id (omega arith) (use_item_on-Sends packet h)
codec-Parts (block_update_codec packet h) =
    closed block_update_packet_id (omega arith) (block_update-Sends packet h)
codec-Parts (acknowledge_block_change_codec packet h) =
    closed acknowledge_block_change_packet_id (omega arith)
      (acknowledge_block_change-Sends packet h)
codec-Parts (entity_event_codec packet h) =
    closed entity_event_packet_id (omega arith) (entity_event-Sends packet h)
codec-Parts (move_entity_pos_codec packet h) =
    closed move_entity_pos_packet_id (omega arith) (move_entity_pos-Sends packet h)
codec-Parts (move_entity_pos_rot_codec packet h) =
    closed move_entity_pos_rot_packet_id (omega arith) (move_entity_pos_rot-Sends packet h)
codec-Parts (move_entity_rot_codec packet h) =
    closed move_entity_rot_packet_id (omega arith) (move_entity_rot-Sends packet h)
codec-Parts (entity_teleport_codec packet h) =
    closed entity_teleport_packet_id (omega arith) (entity_teleport-Sends packet h)
codec-Parts (open_screen_codec packet h) =
    closed open_screen_packet_id (omega arith) (open_screen-Sends packet h)
codec-Parts (close_container_serverbound_codec packet) =
    closed close_container_serverbound_packet_id (omega arith)
      (close_container_serverbound-Sends packet)
codec-Parts (unload_chunk_codec packet h) =
    closed unload_chunk_packet_id (omega arith) (unload_chunk-Sends packet h)
codec-Parts (respawn_codec packet h) =
    closed respawn_packet_id (omega arith) (respawn-Sends packet h)
codec-Parts (keep_alive_clientbound_codec packet h) =
    closed keep_alive_clientbound_packet_id (omega arith) (keep_alive-Sends true packet h)
codec-Parts (keep_alive_serverbound_codec packet h) =
    closed keep_alive_serverbound_packet_id (omega arith) (keep_alive-Sends false packet h)
codec-Parts (plugin_message_clientbound_codec packet h) =
    open_ended plugin_message_clientbound_packet_id (omega arith) refl
      (plugin_message_clientbound-SendsAll packet h)
