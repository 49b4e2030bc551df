-- ===== src/Protocol/Play/RoundTrip/Entity.antt =====
-- What each packet of Codec.Entity writes, its decoder reads back.
use rustbound_server.Prelude.{◌<◌, ◌^◌}
use rustbound_server.Prelude.Words.{IsI16, IsI32}
use rustbound_server.Protocol.Play.RoundTrip.{Sends, then-Sends, last-Sends}
use rustbound_server.Protocol.Play.RoundTrip.Fields.{
  f64-Sends, bool-Sends, u8-Sends, i16-Sends, i32-Sends, var_int-Sends,
}
use rustbound_server.Protocol.Play.Types.{
  EntityEvent, MoveEntityRot, MoveEntityPos, MoveEntityPosRot, EntityTeleport, entity_event,
  move_entity_pos, move_entity_pos_rot, move_entity_rot, entity_teleport,
}
use rustbound_server.Protocol.Play.Codec.Entity.{
  entity_event_body, entity_event_fields, move_entity_pos_body, move_entity_pos_fields,
  move_entity_pos_rot_body, move_entity_pos_rot_fields, move_entity_rot_body,
  move_entity_rot_fields, entity_teleport_body, entity_teleport_fields,
}

pub record IsEntityEvent (packet : EntityEvent) : Type 0 where
  pub entity_id : IsI32 packet.entity_id

pub entity_event-Sends :
    (packet : EntityEvent)
    → IsEntityEvent packet
    → Sends (entity_event_body packet) entity_event_fields (entity_event packet)
unfolding entity_event_body entity_event_fields
entity_event-Sends packet h =
    then-Sends _ (i32-Sends packet.entity_id h.entity_id)
      (last-Sends _ (u8-Sends packet.entity_status))

pub record IsMoveEntityPos (packet : MoveEntityPos) : Type 0 where
  pub entity_id : IsI32 packet.entity_id
  pub delta_x : IsI16 packet.delta_x
  pub delta_y : IsI16 packet.delta_y
  pub delta_z : IsI16 packet.delta_z

pub move_entity_pos-Sends :
    (packet : MoveEntityPos)
    → IsMoveEntityPos packet
    → Sends (move_entity_pos_body packet) move_entity_pos_fields (move_entity_pos packet)
unfolding move_entity_pos_body move_entity_pos_fields
move_entity_pos-Sends packet h = then-Sends _ (var_int-Sends packet.entity_id h.entity_id) (
    then-Sends _ (i16-Sends packet.delta_x h.delta_x) (
      then-Sends _ (i16-Sends packet.delta_y h.delta_y) (
        then-Sends _ (i16-Sends packet.delta_z h.delta_z)
          (last-Sends _ (bool-Sends packet.on_ground)))))

pub record IsMoveEntityPosRot (packet : MoveEntityPosRot) : Type 0 where
  pub entity_id : IsI32 packet.entity_id
  pub delta_x : IsI16 packet.delta_x
  pub delta_y : IsI16 packet.delta_y
  pub delta_z : IsI16 packet.delta_z

pub move_entity_pos_rot-Sends :
    (packet : MoveEntityPosRot)
    → IsMoveEntityPosRot packet
    → Sends
        (move_entity_pos_rot_body packet)
        move_entity_pos_rot_fields
        (move_entity_pos_rot packet)
unfolding move_entity_pos_rot_body move_entity_pos_rot_fields
move_entity_pos_rot-Sends packet h = then-Sends _ (var_int-Sends packet.entity_id h.entity_id) (
    then-Sends _ (i16-Sends packet.delta_x h.delta_x) (
      then-Sends _ (i16-Sends packet.delta_y h.delta_y) (
        then-Sends _ (i16-Sends packet.delta_z h.delta_z) (
          then-Sends _ (u8-Sends packet.yaw)
            (then-Sends _ (u8-Sends packet.pitch) (last-Sends _ (bool-Sends packet.on_ground)))))))

pub record IsMoveEntityRot (packet : MoveEntityRot) : Type 0 where
  pub entity_id : IsI32 packet.entity_id

pub move_entity_rot-Sends :
    (packet : MoveEntityRot)
    → IsMoveEntityRot packet
    → Sends (move_entity_rot_body packet) move_entity_rot_fields (move_entity_rot packet)
unfolding move_entity_rot_body move_entity_rot_fields
move_entity_rot-Sends packet h = then-Sends _ (var_int-Sends packet.entity_id h.entity_id) (
    then-Sends _ (u8-Sends packet.yaw)
      (then-Sends _ (u8-Sends packet.pitch) (last-Sends _ (bool-Sends packet.on_ground))))

pub record IsEntityTeleport (packet : EntityTeleport) : Type 0 where
  pub entity_id : IsI32 packet.entity_id
  pub x : packet.x < 2 ^ 64
  pub y : packet.y < 2 ^ 64
  pub z : packet.z < 2 ^ 64

pub entity_teleport-Sends :
    (packet : EntityTeleport)
    → IsEntityTeleport packet
    → Sends (entity_teleport_body packet) entity_teleport_fields (entity_teleport packet)
unfolding entity_teleport_body entity_teleport_fields
entity_teleport-Sends packet h = then-Sends _ (var_int-Sends packet.entity_id h.entity_id) (
    then-Sends _ (f64-Sends packet.x h.x) (
      then-Sends _ (f64-Sends packet.y h.y) (
        then-Sends _ (f64-Sends packet.z h.z) (
          then-Sends _ (u8-Sends packet.yaw)
            (then-Sends _ (u8-Sends packet.pitch) (last-Sends _ (bool-Sends packet.on_ground)))))))
