-- ===== src/Protocol/Play/RoundTrip/Codecs.antt =====
-- The Play packets that have an encoder and a decoder and carry no NBT.
use rustbound_server.Prelude.{ℕ, ◌≡◌, true}
use rustbound_server.Prelude.Words.{IsI64}
use rustbound_server.Prelude.Buffer.{Action}
use rustbound_server.Protocol.Primitives.Text.{is_utf8}
use rustbound_server.Protocol.Play.{PlayError}
use rustbound_server.Protocol.Play.Types.{
  KeepAlive, SynchronizePlayerPosition, MoveEntityPosRot, PlayDecodeOutcome, CloseContainer,
  UnloadChunk, PlayPacket, SetPlayerRotation, SetPlayerPosition, EntityTeleport, OpenScreen,
  SetHeldItem, ClientInformation, SetRenderDistance, MoveEntityPos, BlockUpdate, DisconnectPlay,
  PluginMessageClientbound, PlayerDigging, AcknowledgeBlockChange, CombatDeath, SetHealth,
  SetPlayerPositionAndRotation, PlayerAbilities, MoveEntityRot, EntityEvent, Respawn,
  ChangeDifficulty, UseItemOn, SetDefaultSpawnPosition, GameEvent, SetBlockDestroyStage,
  SetCenterChunk, ConfirmTeleportation, SetSimulationDistance, keep_alive_clientbound,
  keep_alive_serverbound, set_player_position, set_player_position_and_rotation,
  set_player_rotation, synchronize_player_position, disconnect_play, confirm_teleportation,
  client_information, plugin_message_clientbound, change_difficulty, player_abilities,
  set_held_item, entity_event, game_event, set_default_spawn_position, set_center_chunk,
  unload_chunk, combat_death, set_block_destroy_stage, set_render_distance, set_simulation_distance,
  player_digging, use_item_on, block_update, acknowledge_block_change, move_entity_pos,
  move_entity_pos_rot, move_entity_rot, entity_teleport, open_screen, close_container_serverbound,
  set_health, respawn,
}
use rustbound_server.Protocol.Play.Codec.Movement.{
  encode_set_player_position, decode_set_player_position, encode_set_player_position_and_rotation,
  decode_set_player_position_and_rotation, encode_set_player_rotation, decode_set_player_rotation,
  encode_synchronize_player_position, decode_synchronize_player_position,
  encode_confirm_teleportation, decode_confirm_teleportation,
}
use rustbound_server.Protocol.Play.RoundTrip.Movement.{
  IsSetPlayerPosition, IsSetPlayerPositionAndRotation, IsSetPlayerRotation,
  IsSynchronizePlayerPosition, IsConfirmTeleportation,
}
use rustbound_server.Protocol.Play.Codec.Player.{
  encode_disconnect_play, decode_disconnect_play, encode_client_information,
  decode_client_information, encode_change_difficulty, decode_change_difficulty,
  encode_player_abilities, decode_player_abilities, encode_set_held_item, decode_set_held_item,
  encode_game_event, decode_game_event, encode_set_health, decode_set_health, encode_combat_death,
  decode_combat_death,
}
use rustbound_server.Protocol.Play.RoundTrip.Player.{
  IsDisconnectPlay, IsClientInformation, IsPlayerAbilities, IsGameEvent, IsSetHealth, IsCombatDeath,
}
use rustbound_server.Protocol.Play.Codec.World.{
  encode_set_default_spawn_position, decode_set_default_spawn_position, encode_set_center_chunk,
  decode_set_center_chunk, encode_set_render_distance, decode_set_render_distance,
  encode_set_simulation_distance, decode_set_simulation_distance, encode_set_block_destroy_stage,
  decode_set_block_destroy_stage,
}
use rustbound_server.Protocol.Play.RoundTrip.World.{
  IsSetDefaultSpawnPosition, IsSetCenterChunk, IsSetRenderDistance, IsSetSimulationDistance,
  IsSetBlockDestroyStage,
}
use rustbound_server.Protocol.Play.Codec.Block.{
  encode_player_digging, decode_player_digging, encode_use_item_on, decode_use_item_on,
  encode_block_update, decode_block_update, encode_acknowledge_block_change,
  decode_acknowledge_block_change,
}
use rustbound_server.Protocol.Play.RoundTrip.Block.{
  IsPlayerDigging, IsUseItemOn, IsBlockUpdate, IsAcknowledgeBlockChange,
}
use rustbound_server.Protocol.Play.Codec.Entity.{
  encode_entity_event, decode_entity_event, encode_move_entity_pos, decode_move_entity_pos,
  encode_move_entity_pos_rot, decode_move_entity_pos_rot, encode_move_entity_rot,
  decode_move_entity_rot, encode_entity_teleport, decode_entity_teleport,
}
use rustbound_server.Protocol.Play.RoundTrip.Entity.{
  IsEntityEvent, IsMoveEntityPos, IsMoveEntityPosRot, IsMoveEntityRot, IsEntityTeleport,
}
use rustbound_server.Protocol.Play.Codec.Window.{
  encode_open_screen, decode_open_screen, encode_close_container_serverbound,
  decode_close_container_serverbound,
}
use rustbound_server.Protocol.Play.RoundTrip.Window.{IsOpenScreen}
use rustbound_server.Protocol.Play.Codec.Registry.{encode_unload_chunk, decode_unload_chunk}
use rustbound_server.Protocol.Play.RoundTrip.Registry.{IsUnloadChunk}
use rustbound_server.Protocol.Play.Codec.Session.{
  encode_respawn, decode_respawn, encode_keep_alive_clientbound, decode_keep_alive_clientbound,
  encode_keep_alive_serverbound, decode_keep_alive_serverbound, encode_plugin_message_clientbound,
  decode_plugin_message_clientbound,
}
use rustbound_server.Protocol.Play.RoundTrip.Session.{IsRespawn}

-- The encoder and the decoder that the source has for one packet, where the packet's fields are in the
-- range of their Rust types, its texts are UTF-8, its block positions fit 26, 12 and 26 bits, and an
-- absent death location is empty.
pub data PacketCodec
    : PlayPacket
      → (ℕ → Action PlayError (Unit {0}))
      → (ℕ → Action PlayError PlayDecodeOutcome)
      → Type 0 where
  set_player_position_codec :
      (packet : SetPlayerPosition)
      → IsSetPlayerPosition packet
      → PacketCodec
          (set_player_position packet)
          (encode_set_player_position packet)
          decode_set_player_position
  set_player_position_and_rotation_codec :
      (packet : SetPlayerPositionAndRotation)
      → IsSetPlayerPositionAndRotation packet
      → PacketCodec
          (set_player_position_and_rotation packet)
          (encode_set_player_position_and_rotation packet)
          decode_set_player_position_and_rotation
  set_player_rotation_codec :
      (packet : SetPlayerRotation)
      → IsSetPlayerRotation packet
      → PacketCodec
          (set_player_rotation packet)
          (encode_set_player_rotation packet)
          decode_set_player_rotation
  synchronize_player_position_codec :
      (packet : SynchronizePlayerPosition)
      → IsSynchronizePlayerPosition packet
      → PacketCodec
          (synchronize_player_position packet)
          (encode_synchronize_player_position packet)
          decode_synchronize_player_position
  confirm_teleportation_codec :
      (packet : ConfirmTeleportation)
      → IsConfirmTeleportation packet
      → PacketCodec
          (confirm_teleportation packet)
          (encode_confirm_teleportation packet)
          decode_confirm_teleportation
  disconnect_play_codec :
      (packet : DisconnectPlay)
      → IsDisconnectPlay packet
      → PacketCodec (disconnect_play packet) (encode_disconnect_play packet) decode_disconnect_play
  client_information_codec :
      (packet : ClientInformation)
      → IsClientInformation packet
      → PacketCodec
          (client_information packet)
          (encode_client_information packet)
          decode_client_information
  change_difficulty_codec :
      (packet : ChangeDifficulty)
      → PacketCodec
          (change_difficulty packet)
          (encode_change_difficulty packet)
          decode_change_difficulty
  player_abilities_codec :
      (packet : PlayerAbilities)
      → IsPlayerAbilities packet
      → PacketCodec
          (player_abilities packet)
          (encode_player_abilities packet)
          decode_player_abilities
  set_held_item_codec :
      (packet : SetHeldItem)
      → PacketCodec (set_held_item packet) (encode_set_held_item packet) decode_set_held_item
  game_event_codec :
      (packet : GameEvent)
      → IsGameEvent packet
      → PacketCodec (game_event packet) (encode_game_event packet) decode_game_event
  set_health_codec :
      (packet : SetHealth)
      → IsSetHealth packet
      → PacketCodec (set_health packet) (encode_set_health packet) decode_set_health
  combat_death_codec :
      (packet : CombatDeath)
      → IsCombatDeath packet
      → PacketCodec (combat_death packet) (encode_combat_death packet) decode_combat_death
  set_default_spawn_position_codec :
      (packet : SetDefaultSpawnPosition)
      → IsSetDefaultSpawnPosition packet
      → PacketCodec
          (set_default_spawn_position packet)
          (encode_set_default_spawn_position packet)
          decode_set_default_spawn_position
  set_center_chunk_codec :
      (packet : SetCenterChunk)
      → IsSetCenterChunk packet
      → PacketCodec
          (set_center_chunk packet)
          (encode_set_center_chunk packet)
          decode_set_center_chunk
  set_render_distance_codec :
      (packet : SetRenderDistance)
      → IsSetRenderDistance packet
      → PacketCodec
          (set_render_distance packet)
          (encode_set_render_distance packet)
          decode_set_render_distance
  set_simulation_distance_codec :
      (packet : SetSimulationDistance)
      → IsSetSimulationDistance packet
      → PacketCodec
          (set_simulation_distance packet)
          (encode_set_simulation_distance packet)
          decode_set_simulation_distance
  set_block_destroy_stage_codec :
      (packet : SetBlockDestroyStage)
      → IsSetBlockDestroyStage packet
      → PacketCodec
          (set_block_destroy_stage packet)
          (encode_set_block_destroy_stage packet)
          decode_set_block_destroy_stage
  player_digging_codec :
      (packet : PlayerDigging)
      → IsPlayerDigging packet
      → PacketCodec (player_digging packet) (encode_player_digging packet) decode_player_digging
  use_item_on_codec :
      (packet : UseItemOn)
      → IsUseItemOn packet
      → PacketCodec (use_item_on packet) (encode_use_item_on packet) decode_use_item_on
  block_update_codec :
      (packet : BlockUpdate)
      → IsBlockUpdate packet
      → PacketCodec (block_update packet) (encode_block_update packet) decode_block_update
  acknowledge_block_change_codec :
      (packet : AcknowledgeBlockChange)
      → IsAcknowledgeBlockChange packet
      → PacketCodec
          (acknowledge_block_change packet)
          (encode_acknowledge_block_change packet)
          decode_acknowledge_block_change
  entity_event_codec :
      (packet : EntityEvent)
      → IsEntityEvent packet
      → PacketCodec (entity_event packet) (encode_entity_event packet) decode_entity_event
  move_entity_pos_codec :
      (packet : MoveEntityPos)
      → IsMoveEntityPos packet
      → PacketCodec (move_entity_pos packet) (encode_move_entity_pos packet) decode_move_entity_pos
  move_entity_pos_rot_codec :
      (packet : MoveEntityPosRot)
      → IsMoveEntityPosRot packet
      → PacketCodec
          (move_entity_pos_rot packet)
          (encode_move_entity_pos_rot packet)
          decode_move_entity_pos_rot
  move_entity_rot_codec :
      (packet : MoveEntityRot)
      → IsMoveEntityRot packet
      → PacketCodec (move_entity_rot packet) (encode_move_entity_rot packet) decode_move_entity_rot
  entity_teleport_codec :
      (packet : EntityTeleport)
      → IsEntityTeleport packet
      → PacketCodec (entity_teleport packet) (encode_entity_teleport packet) decode_entity_teleport
  open_screen_codec :
      (packet : OpenScreen)
      → IsOpenScreen packet
      → PacketCodec (open_screen packet) (encode_open_screen packet) decode_open_screen
  close_container_serverbound_codec :
      (packet : CloseContainer)
      → PacketCodec
          (close_container_serverbound packet)
          (encode_close_container_serverbound packet)
          decode_close_container_serverbound
  unload_chunk_codec :
      (packet : UnloadChunk)
      → IsUnloadChunk packet
      → PacketCodec (unload_chunk packet) (encode_unload_chunk packet) decode_unload_chunk
  respawn_codec :
      (packet : Respawn)
      → IsRespawn packet
      → PacketCodec (respawn packet) (encode_respawn packet) decode_respawn
  keep_alive_clientbound_codec :
      (packet : KeepAlive)
      → IsI64 packet.payload
      → PacketCodec
          (keep_alive_clientbound packet)
          (encode_keep_alive_clientbound packet)
          decode_keep_alive_clientbound
  keep_alive_serverbound_codec :
      (packet : KeepAlive)
      → IsI64 packet.payload
      → PacketCodec
          (keep_alive_serverbound packet)
          (encode_keep_alive_serverbound packet)
          decode_keep_alive_serverbound
  plugin_message_clientbound_codec :
      (packet : PluginMessageClientbound)
      → is_utf8 packet.channel ≡ true
      → PacketCodec
          (plugin_message_clientbound packet)
          (encode_plugin_message_clientbound packet)
          decode_plugin_message_clientbound
