-- ===== src/Protocol/Play/Types/Packet.antt =====
-- play.rs: a packet of the Play state, and what a decoder returns.
use rustbound_server.Protocol.Play.Types.Player.{
  JoinGame, KeepAlive, SetPlayerPosition, SetPlayerPositionAndRotation, SetPlayerRotation,
  SynchronizePlayerPosition, DisconnectPlay, ConfirmTeleportation, ClientInformation,
  PluginMessageClientbound, ChangeDifficulty, PlayerAbilities, SetHeldItem, GameEvent, CombatDeath,
  SetHealth, Respawn, ClientStatus, ChatMessageServerbound, SystemChatMessage,
}
use rustbound_server.Protocol.Play.Types.World.{
  ChunkData, SetDefaultSpawnPosition, SetCenterChunk, UnloadChunk, SetBlockDestroyStage,
  SetRenderDistance, SetSimulationDistance, PlayerDigging, UseItemOn, BlockUpdate,
  AcknowledgeBlockChange,
}
use rustbound_server.Protocol.Play.Types.Entity.{
  EntityEvent, PlayerInfoUpdate, PlayerInfoRemove, SpawnPlayer, SpawnEntity, InteractEntity,
  RemoveEntities, MoveEntityPos, MoveEntityPosRot, MoveEntityRot, EntityTeleport,
}
use rustbound_server.Protocol.Play.Types.Window.{
  SetContainerContent, SetContainerSlot, OpenScreen, CloseContainer, ClickContainer,
  SetHeldItemServerbound, SetCreativeModeSlot,
}

pub data PlayPacket : Type 0 where
  join_game : JoinGame → PlayPacket
  keep_alive_clientbound : KeepAlive → PlayPacket
  keep_alive_serverbound : KeepAlive → PlayPacket
  set_player_position : SetPlayerPosition → PlayPacket
  set_player_position_and_rotation : SetPlayerPositionAndRotation → PlayPacket
  set_player_rotation : SetPlayerRotation → PlayPacket
  synchronize_player_position : SynchronizePlayerPosition → PlayPacket
  disconnect_play : DisconnectPlay → PlayPacket
  chunk_data : ChunkData → PlayPacket
  confirm_teleportation : ConfirmTeleportation → PlayPacket
  client_information : ClientInformation → PlayPacket
  plugin_message_clientbound : PluginMessageClientbound → PlayPacket
  change_difficulty : ChangeDifficulty → PlayPacket
  player_abilities : PlayerAbilities → PlayPacket
  set_held_item : SetHeldItem → PlayPacket
  entity_event : EntityEvent → PlayPacket
  game_event : GameEvent → PlayPacket
  set_default_spawn_position : SetDefaultSpawnPosition → PlayPacket
  set_center_chunk : SetCenterChunk → PlayPacket
  unload_chunk : UnloadChunk → PlayPacket
  combat_death : CombatDeath → PlayPacket
  set_block_destroy_stage : SetBlockDestroyStage → PlayPacket
  set_render_distance : SetRenderDistance → PlayPacket
  set_simulation_distance : SetSimulationDistance → PlayPacket
  player_info_update : PlayerInfoUpdate → PlayPacket
  player_info_remove : PlayerInfoRemove → PlayPacket
  spawn_player : SpawnPlayer → PlayPacket
  spawn_entity : SpawnEntity → PlayPacket
  remove_entities : RemoveEntities → PlayPacket
  interact_entity : InteractEntity → PlayPacket
  player_digging : PlayerDigging → PlayPacket
  use_item_on : UseItemOn → PlayPacket
  block_update : BlockUpdate → PlayPacket
  acknowledge_block_change : AcknowledgeBlockChange → PlayPacket
  move_entity_pos : MoveEntityPos → PlayPacket
  move_entity_pos_rot : MoveEntityPosRot → PlayPacket
  move_entity_rot : MoveEntityRot → PlayPacket
  entity_teleport : EntityTeleport → PlayPacket
  set_container_content : SetContainerContent → PlayPacket
  set_container_slot : SetContainerSlot → PlayPacket
  open_screen : OpenScreen → PlayPacket
  close_container_clientbound : CloseContainer → PlayPacket
  click_container : ClickContainer → PlayPacket
  close_container_serverbound : CloseContainer → PlayPacket
  set_held_item_serverbound : SetHeldItemServerbound → PlayPacket
  set_creative_mode_slot : SetCreativeModeSlot → PlayPacket
  chat_message_serverbound : ChatMessageServerbound → PlayPacket
  system_chat_message : SystemChatMessage → PlayPacket
  set_health : SetHealth → PlayPacket
  respawn : Respawn → PlayPacket
  client_status : ClientStatus → PlayPacket

pub data PlayDecodeOutcome : Type 0 where
  complete : PlayPacket → PlayDecodeOutcome
  incomplete : PlayDecodeOutcome
