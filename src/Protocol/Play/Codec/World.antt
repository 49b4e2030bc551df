-- ===== src/Protocol/Play/Codec/World.antt =====
-- play.rs: the spawn, the view and the stages of breaking a block.
use rustbound_server.Prelude.{ℕ}
use rustbound_server.Prelude.Int.{ℤ, pos}
use rustbound_server.Prelude.Buffer.{Action, write, done, with_body, ◌>>=◌, ◌>>◌}
use rustbound_server.Protocol.Primitives.VarInt.{encode_var_int, decode_var_int}
use rustbound_server.Protocol.Primitives.Fixed.{
  encode_f32, decode_f32, decode_position, encode_i8, decode_i8,
}
use rustbound_server.Protocol.Play.{PlayError}
use rustbound_server.Protocol.Play.Frame.{decode_play, send_play, get, put_position}
use rustbound_server.Protocol.Play.Types.{
  SetBlockDestroyStage, SetRenderDistance, PlayDecodeOutcome, SetCenterChunk,
  SetDefaultSpawnPosition, SetSimulationDistance, PlayPacket, set_default_spawn_position,
  set_center_chunk, set_block_destroy_stage, set_render_distance, set_simulation_distance,
}

abbrev pub set_default_spawn_position_packet_id : ℤ
set_default_spawn_position_packet_id = pos 0x50

unfoldable pub set_default_spawn_position_body :
    SetDefaultSpawnPosition → Action PlayError (Unit {0})
set_default_spawn_position_body packet = do
  put_position packet.location
  write (encode_f32 packet.angle)

unfoldable pub encode_set_default_spawn_position :
    SetDefaultSpawnPosition → ℕ → Action PlayError (Unit {0})
unfolding set_default_spawn_position_body
encode_set_default_spawn_position packet max_frame_length =
    with_body (set_default_spawn_position_body packet)
      (send_play set_default_spawn_position_packet_id max_frame_length)

unfoldable pub set_default_spawn_position_fields : Action PlayError PlayPacket
set_default_spawn_position_fields = do
  location ← get decode_position
  angle ← get decode_f32
  done (set_default_spawn_position (record { location = location; angle = angle }))

unfoldable pub decode_set_default_spawn_position : ℕ → Action PlayError PlayDecodeOutcome
unfolding set_default_spawn_position_fields
decode_set_default_spawn_position =
    decode_play set_default_spawn_position_packet_id set_default_spawn_position_fields

abbrev pub set_center_chunk_packet_id : ℤ
set_center_chunk_packet_id = pos 0x4E

unfoldable pub set_center_chunk_body : SetCenterChunk → Action PlayError (Unit {0})
set_center_chunk_body packet = do
  write (encode_var_int packet.chunk_x)
  write (encode_var_int packet.chunk_z)

unfoldable pub encode_set_center_chunk : SetCenterChunk → ℕ → Action PlayError (Unit {0})
unfolding set_center_chunk_body
encode_set_center_chunk packet max_frame_length =
    with_body (set_center_chunk_body packet) (send_play set_center_chunk_packet_id max_frame_length)

unfoldable pub set_center_chunk_fields : Action PlayError PlayPacket
set_center_chunk_fields = do
  chunk_x ← get decode_var_int
  chunk_z ← get decode_var_int
  done (set_center_chunk (record { chunk_x = chunk_x; chunk_z = chunk_z }))

unfoldable pub decode_set_center_chunk : ℕ → Action PlayError PlayDecodeOutcome
unfolding set_center_chunk_fields
decode_set_center_chunk = decode_play set_center_chunk_packet_id set_center_chunk_fields

abbrev pub set_render_distance_packet_id : ℤ
set_render_distance_packet_id = pos 0x4F

unfoldable pub set_render_distance_body : SetRenderDistance → Action PlayError (Unit {0})
set_render_distance_body packet = write (encode_var_int packet.view_distance)

unfoldable pub encode_set_render_distance : SetRenderDistance → ℕ → Action PlayError (Unit {0})
unfolding set_render_distance_body
encode_set_render_distance packet max_frame_length =
    with_body (set_render_distance_body packet)
      (send_play set_render_distance_packet_id max_frame_length)

unfoldable pub set_render_distance_fields : Action PlayError PlayPacket
set_render_distance_fields = do
  view_distance ← get decode_var_int
  done (set_render_distance (record { view_distance = view_distance }))

unfoldable pub decode_set_render_distance : ℕ → Action PlayError PlayDecodeOutcome
unfolding set_render_distance_fields
decode_set_render_distance = decode_play set_render_distance_packet_id set_render_distance_fields

abbrev pub set_simulation_distance_packet_id : ℤ
set_simulation_distance_packet_id = pos 0x5C

unfoldable pub set_simulation_distance_body : SetSimulationDistance → Action PlayError (Unit {0})
set_simulation_distance_body packet = write (encode_var_int packet.simulation_distance)

unfoldable pub encode_set_simulation_distance :
    SetSimulationDistance → ℕ → Action PlayError (Unit {0})
unfolding set_simulation_distance_body
encode_set_simulation_distance packet max_frame_length =
    with_body (set_simulation_distance_body packet)
      (send_play set_simulation_distance_packet_id max_frame_length)

unfoldable pub set_simulation_distance_fields : Action PlayError PlayPacket
set_simulation_distance_fields = do
  simulation_distance ← get decode_var_int
  done (set_simulation_distance (record { simulation_distance = simulation_distance }))

unfoldable pub decode_set_simulation_distance : ℕ → Action PlayError PlayDecodeOutcome
unfolding set_simulation_distance_fields
decode_set_simulation_distance =
    decode_play set_simulation_distance_packet_id set_simulation_distance_fields

abbrev pub set_block_destroy_stage_packet_id : ℤ
set_block_destroy_stage_packet_id = pos 0x07

unfoldable pub set_block_destroy_stage_body : SetBlockDestroyStage → Action PlayError (Unit {0})
set_block_destroy_stage_body packet = do
  write (encode_var_int packet.entity_id)
  put_position packet.position
  write (encode_i8 packet.destroy_stage)

unfoldable pub encode_set_block_destroy_stage :
    SetBlockDestroyStage → ℕ → Action PlayError (Unit {0})
unfolding set_block_destroy_stage_body
encode_set_block_destroy_stage packet max_frame_length =
    with_body (set_block_destroy_stage_body packet)
      (send_play set_block_destroy_stage_packet_id max_frame_length)

unfoldable pub set_block_destroy_stage_fields : Action PlayError PlayPacket
set_block_destroy_stage_fields = do
  entity_id ← get decode_var_int
  position ← get decode_position
  destroy_stage ← get decode_i8
  done (
      set_block_destroy_stage
        (record { entity_id = entity_id; position = position; destroy_stage = destroy_stage }))

unfoldable pub decode_set_block_destroy_stage : ℕ → Action PlayError PlayDecodeOutcome
unfolding set_block_destroy_stage_fields
decode_set_block_destroy_stage =
    decode_play set_block_destroy_stage_packet_id set_block_destroy_stage_fields
