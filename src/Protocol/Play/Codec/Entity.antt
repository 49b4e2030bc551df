-- ===== src/Protocol/Play/Codec/Entity.antt =====
-- play.rs: what an entity does, and how it moves.
use rustbound_server.Prelude.{ℕ}
use rustbound_server.Prelude.Int.{ℤ, pos}
use rustbound_server.Prelude.Buffer.{Action, write, done, with_body, ◌>>=◌, ◌>>◌}
use rustbound_server.Protocol.Primitives.VarInt.{encode_var_int, decode_var_int}
use rustbound_server.Protocol.Primitives.Fixed.{
  encode_i16, decode_i16, encode_i32, decode_i32, encode_f64, decode_f64, encode_bool, decode_bool,
  encode_u8, decode_u8,
}
use rustbound_server.Protocol.Play.{PlayError}
use rustbound_server.Protocol.Play.Frame.{decode_play, send_play, get}
use rustbound_server.Protocol.Play.Types.{
  PlayDecodeOutcome, EntityEvent, MoveEntityRot, MoveEntityPos, MoveEntityPosRot, PlayPacket,
  EntityTeleport, entity_event, move_entity_pos, move_entity_pos_rot, move_entity_rot,
  entity_teleport,
}

abbrev pub entity_event_packet_id : ℤ
entity_event_packet_id = pos 0x1C

unfoldable pub entity_event_body : EntityEvent → Action PlayError (Unit {0})
entity_event_body packet = do
  write (encode_i32 packet.entity_id)
  write (encode_u8 packet.entity_status)

unfoldable pub encode_entity_event : EntityEvent → ℕ → Action PlayError (Unit {0})
unfolding entity_event_body
encode_entity_event packet max_frame_length =
    with_body (entity_event_body packet) (send_play entity_event_packet_id max_frame_length)

unfoldable pub entity_event_fields : Action PlayError PlayPacket
entity_event_fields = do
  entity_id ← get decode_i32
  entity_status ← get decode_u8
  done (entity_event (record { entity_id = entity_id; entity_status = entity_status }))

unfoldable pub decode_entity_event : ℕ → Action PlayError PlayDecodeOutcome
unfolding entity_event_fields
decode_entity_event = decode_play entity_event_packet_id entity_event_fields

abbrev pub move_entity_pos_packet_id : ℤ
move_entity_pos_packet_id = pos 0x2B

unfoldable pub move_entity_pos_body : MoveEntityPos → Action PlayError (Unit {0})
move_entity_pos_body packet = do
  write (encode_var_int packet.entity_id)
  write (encode_i16 packet.delta_x)
  write (encode_i16 packet.delta_y)
  write (encode_i16 packet.delta_z)
  write (encode_bool packet.on_ground)

unfoldable pub encode_move_entity_pos : MoveEntityPos → ℕ → Action PlayError (Unit {0})
unfolding move_entity_pos_body
encode_move_entity_pos packet max_frame_length =
    with_body (move_entity_pos_body packet) (send_play move_entity_pos_packet_id max_frame_length)

unfoldable pub move_entity_pos_fields : Action PlayError PlayPacket
move_entity_pos_fields = do
  entity_id ← get decode_var_int
  delta_x ← get decode_i16
  delta_y ← get decode_i16
  delta_z ← get decode_i16
  on_ground ← get decode_bool
  done (
      move_entity_pos (record {
        entity_id = entity_id;
        delta_x = delta_x;
        delta_y = delta_y;
        delta_z = delta_z;
        on_ground = on_ground;
      }))

unfoldable pub decode_move_entity_pos : ℕ → Action PlayError PlayDecodeOutcome
unfolding move_entity_pos_fields
decode_move_entity_pos = decode_play move_entity_pos_packet_id move_entity_pos_fields

abbrev pub move_entity_pos_rot_packet_id : ℤ
move_entity_pos_rot_packet_id = pos 0x2C

unfoldable pub move_entity_pos_rot_body : MoveEntityPosRot → Action PlayError (Unit {0})
move_entity_pos_rot_body packet = do
  write (encode_var_int packet.entity_id)
  write (encode_i16 packet.delta_x)
  write (encode_i16 packet.delta_y)
  write (encode_i16 packet.delta_z)
  write (encode_u8 packet.yaw)
  write (encode_u8 packet.pitch)
  write (encode_bool packet.on_ground)

unfoldable pub encode_move_entity_pos_rot : MoveEntityPosRot → ℕ → Action PlayError (Unit {0})
unfolding move_entity_pos_rot_body
encode_move_entity_pos_rot packet max_frame_length =
    with_body (move_entity_pos_rot_body packet)
      (send_play move_entity_pos_rot_packet_id max_frame_length)

unfoldable pub move_entity_pos_rot_fields : Action PlayError PlayPacket
move_entity_pos_rot_fields = do
  entity_id ← get decode_var_int
  delta_x ← get decode_i16
  delta_y ← get decode_i16
  delta_z ← get decode_i16
  yaw ← get decode_u8
  pitch ← get decode_u8
  on_ground ← get decode_bool
  done (
      move_entity_pos_rot (record {
        entity_id = entity_id;
        delta_x = delta_x;
        delta_y = delta_y;
        delta_z = delta_z;
        yaw = yaw;
        pitch = pitch;
        on_ground = on_ground;
      }))

unfoldable pub decode_move_entity_pos_rot : ℕ → Action PlayError PlayDecodeOutcome
unfolding move_entity_pos_rot_fields
decode_move_entity_pos_rot = decode_play move_entity_pos_rot_packet_id move_entity_pos_rot_fields

abbrev pub move_entity_rot_packet_id : ℤ
move_entity_rot_packet_id = pos 0x2D

unfoldable pub move_entity_rot_body : MoveEntityRot → Action PlayError (Unit {0})
move_entity_rot_body packet = do
  write (encode_var_int packet.entity_id)
  write (encode_u8 packet.yaw)
  write (encode_u8 packet.pitch)
  write (encode_bool packet.on_ground)

unfoldable pub encode_move_entity_rot : MoveEntityRot → ℕ → Action PlayError (Unit {0})
unfolding move_entity_rot_body
encode_move_entity_rot packet max_frame_length =
    with_body (move_entity_rot_body packet) (send_play move_entity_rot_packet_id max_frame_length)

unfoldable pub move_entity_rot_fields : Action PlayError PlayPacket
move_entity_rot_fields = do
  entity_id ← get decode_var_int
  yaw ← get decode_u8
  pitch ← get decode_u8
  on_ground ← get decode_bool
  done (
      move_entity_rot
        (record { entity_id = entity_id; yaw = yaw; pitch = pitch; on_ground = on_ground }))

unfoldable pub decode_move_entity_rot : ℕ → Action PlayError PlayDecodeOutcome
unfolding move_entity_rot_fields
decode_move_entity_rot = decode_play move_entity_rot_packet_id move_entity_rot_fields

abbrev pub entity_teleport_packet_id : ℤ
entity_teleport_packet_id = pos 0x68

unfoldable pub entity_teleport_body : EntityTeleport → Action PlayError (Unit {0})
entity_teleport_body packet = do
  write (encode_var_int packet.entity_id)
  write (encode_f64 packet.x)
  write (encode_f64 packet.y)
  write (encode_f64 packet.z)
  write (encode_u8 packet.yaw)
  write (encode_u8 packet.pitch)
  write (encode_bool packet.on_ground)

unfoldable pub encode_entity_teleport : EntityTeleport → ℕ → Action PlayError (Unit {0})
unfolding entity_teleport_body
encode_entity_teleport packet max_frame_length =
    with_body (entity_teleport_body packet) (send_play entity_teleport_packet_id max_frame_length)

unfoldable pub entity_teleport_fields : Action PlayError PlayPacket
entity_teleport_fields = do
  entity_id ← get decode_var_int
  x ← get decode_f64
  y ← get decode_f64
  z ← get decode_f64
  yaw ← get decode_u8
  pitch ← get decode_u8
  on_ground ← get decode_bool
  done (
      entity_teleport (record {
        entity_id = entity_id;
        x = x;
        y = y;
        z = z;
        yaw = yaw;
        pitch = pitch;
        on_ground = on_ground;
      }))

unfoldable pub decode_entity_teleport : ℕ → Action PlayError PlayDecodeOutcome
unfolding entity_teleport_fields
decode_entity_teleport = decode_play entity_teleport_packet_id entity_teleport_fields
