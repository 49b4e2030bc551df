-- ===== src/Protocol/Play/RoundTrip/World.antt =====
-- What each packet of Codec.World writes, its decoder reads back.
use rustbound_server.Prelude.{◌<◌, ◌^◌}
use rustbound_server.Prelude.Words.{IsI8, IsI32}
use rustbound_server.Protocol.Play.RoundTrip.{Sends, then-Sends, last-Sends}
use rustbound_server.Protocol.Play.RoundTrip.Fields.{
  IsPosition, f32-Sends, i8-Sends, var_int-Sends, position-Sends,
}
use rustbound_server.Protocol.Play.Types.{
  SetBlockDestroyStage, SetRenderDistance, SetCenterChunk, SetDefaultSpawnPosition,
  SetSimulationDistance, set_default_spawn_position, set_center_chunk, set_block_destroy_stage,
  set_render_distance, set_simulation_distance,
}
use rustbound_server.Protocol.Play.Codec.World.{
  set_default_spawn_position_body, set_default_spawn_position_fields, set_center_chunk_body,
  set_center_chunk_fields, set_render_distance_body, set_render_distance_fields,
  set_simulation_distance_body, set_simulation_distance_fields, set_block_destroy_stage_body,
  set_block_destroy_stage_fields,
}

pub record IsSetDefaultSpawnPosition (packet : SetDefaultSpawnPosition) : Type 0 where
  pub location : IsPosition packet.location
  pub angle : packet.angle < 2 ^ 32

pub set_default_spawn_position-Sends :
    (packet : SetDefaultSpawnPosition)
    → IsSetDefaultSpawnPosition packet
    → Sends
        (set_default_spawn_position_body packet)
        set_default_spawn_position_fields
        (set_default_spawn_position packet)
unfolding set_default_spawn_position_body set_default_spawn_position_fields
set_default_spawn_position-Sends packet h =
    then-Sends _ (position-Sends packet.location h.location)
      (last-Sends _ (f32-Sends packet.angle h.angle))

pub record IsSetCenterChunk (packet : SetCenterChunk) : Type 0 where
  pub chunk_x : IsI32 packet.chunk_x
  pub chunk_z : IsI32 packet.chunk_z

pub set_center_chunk-Sends :
    (packet : SetCenterChunk)
    → IsSetCenterChunk packet
    → Sends (set_center_chunk_body packet) set_center_chunk_fields (set_center_chunk packet)
unfolding set_center_chunk_body set_center_chunk_fields
set_center_chunk-Sends packet h =
    then-Sends _ (var_int-Sends packet.chunk_x h.chunk_x)
      (last-Sends _ (var_int-Sends packet.chunk_z h.chunk_z))

pub record IsSetRenderDistance (packet : SetRenderDistance) : Type 0 where
  pub view_distance : IsI32 packet.view_distance

pub set_render_distance-Sends :
    (packet : SetRenderDistance)
    → IsSetRenderDistance packet
    → Sends
        (set_render_distance_body packet)
        set_render_distance_fields
        (set_render_distance packet)
unfolding set_render_distance_body set_render_distance_fields
set_render_distance-Sends packet h =
    last-Sends _ (var_int-Sends packet.view_distance h.view_distance)

pub record IsSetSimulationDistance (packet : SetSimulationDistance) : Type 0 where
  pub simulation_distance : IsI32 packet.simulation_distance

pub set_simulation_distance-Sends :
    (packet : SetSimulationDistance)
    → IsSetSimulationDistance packet
    → Sends
        (set_simulation_distance_body packet)
        set_simulation_distance_fields
        (set_simulation_distance packet)
unfolding set_simulation_distance_body set_simulation_distance_fields
set_simulation_distance-Sends packet h =
    last-Sends _ (var_int-Sends packet.simulation_distance h.simulation_distance)

pub record IsSetBlockDestroyStage (packet : SetBlockDestroyStage) : Type 0 where
  pub entity_id : IsI32 packet.entity_id
  pub position : IsPosition packet.position
  pub destroy_stage : IsI8 packet.destroy_stage

pub set_block_destroy_stage-Sends :
    (packet : SetBlockDestroyStage)
    → IsSetBlockDestroyStage packet
    → Sends
        (set_block_destroy_stage_body packet)
        set_block_destroy_stage_fields
        (set_block_destroy_stage packet)
unfolding set_block_destroy_stage_body set_block_destroy_stage_fields
set_block_destroy_stage-Sends packet h = then-Sends _ (var_int-Sends packet.entity_id h.entity_id) (
    then-Sends _ (position-Sends packet.position h.position)
      (last-Sends _ (i8-Sends packet.destroy_stage h.destroy_stage)))
