-- ===== src/Protocol/Play/RoundTrip/Movement.antt =====
-- What each packet of Codec.Movement writes, its decoder reads back.
use rustbound_server.Prelude.{◌<◌, ◌^◌}
use rustbound_server.Prelude.Words.{IsI8, IsI32}
use rustbound_server.Protocol.Play.RoundTrip.{Sends, then-Sends, last-Sends}
use rustbound_server.Protocol.Play.RoundTrip.Fields.{
  f64-Sends, f32-Sends, bool-Sends, i8-Sends, var_int-Sends,
}
use rustbound_server.Protocol.Play.Types.{
  SynchronizePlayerPosition, SetPlayerPosition, ConfirmTeleportation, SetPlayerRotation,
  SetPlayerPositionAndRotation, set_player_position, set_player_position_and_rotation,
  set_player_rotation, synchronize_player_position, confirm_teleportation,
}
use rustbound_server.Protocol.Play.Codec.Movement.{
  set_player_position_body, set_player_position_fields, set_player_position_and_rotation_body,
  set_player_position_and_rotation_fields, set_player_rotation_body, set_player_rotation_fields,
  synchronize_player_position_body, synchronize_player_position_fields, confirm_teleportation_body,
  confirm_teleportation_fields,
}

pub record IsSetPlayerPosition (packet : SetPlayerPosition) : Type 0 where
  pub x : packet.x < 2 ^ 64
  pub y : packet.y < 2 ^ 64
  pub z : packet.z < 2 ^ 64

pub set_player_position-Sends :
    (packet : SetPlayerPosition)
    → IsSetPlayerPosition packet
    → Sends
        (set_player_position_body packet)
        set_player_position_fields
        (set_player_position packet)
unfolding set_player_position_body set_player_position_fields
set_player_position-Sends packet h = then-Sends _ (f64-Sends packet.x h.x) (
    then-Sends _ (f64-Sends packet.y h.y)
      (then-Sends _ (f64-Sends packet.z h.z) (last-Sends _ (bool-Sends packet.on_ground))))

pub record IsSetPlayerPositionAndRotation (packet : SetPlayerPositionAndRotation) : Type 0 where
  pub x : packet.x < 2 ^ 64
  pub y : packet.y < 2 ^ 64
  pub z : packet.z < 2 ^ 64
  pub yaw : packet.yaw < 2 ^ 32
  pub pitch : packet.pitch < 2 ^ 32

pub set_player_position_and_rotation-Sends :
    (packet : SetPlayerPositionAndRotation)
    → IsSetPlayerPositionAndRotation packet
    → Sends
        (set_player_position_and_rotation_body packet)
        set_player_position_and_rotation_fields
        (set_player_position_and_rotation packet)
unfolding set_player_position_and_rotation_body set_player_position_and_rotation_fields
set_player_position_and_rotation-Sends packet h = then-Sends _ (f64-Sends packet.x h.x) (
    then-Sends _ (f64-Sends packet.y h.y) (
      then-Sends _ (f64-Sends packet.z h.z) (
        then-Sends _ (f32-Sends packet.yaw h.yaw) (
          then-Sends _ (f32-Sends packet.pitch h.pitch)
            (last-Sends _ (bool-Sends packet.on_ground))))))

pub record IsSetPlayerRotation (packet : SetPlayerRotation) : Type 0 where
  pub yaw : packet.yaw < 2 ^ 32
  pub pitch : packet.pitch < 2 ^ 32

pub set_player_rotation-Sends :
    (packet : SetPlayerRotation)
    → IsSetPlayerRotation packet
    → Sends
        (set_player_rotation_body packet)
        set_player_rotation_fields
        (set_player_rotation packet)
unfolding set_player_rotation_body set_player_rotation_fields
set_player_rotation-Sends packet h =
    then-Sends _ (f32-Sends packet.yaw h.yaw)
      (then-Sends _ (f32-Sends packet.pitch h.pitch) (last-Sends _ (bool-Sends packet.on_ground)))

pub record IsSynchronizePlayerPosition (packet : SynchronizePlayerPosition) : Type 0 where
  pub x : packet.x < 2 ^ 64
  pub y : packet.y < 2 ^ 64
  pub z : packet.z < 2 ^ 64
  pub yaw : packet.yaw < 2 ^ 32
  pub pitch : packet.pitch < 2 ^ 32
  pub flags : IsI8 packet.flags
  pub teleport_id : IsI32 packet.teleport_id

pub synchronize_player_position-Sends :
    (packet : SynchronizePlayerPosition)
    → IsSynchronizePlayerPosition packet
    → Sends
        (synchronize_player_position_body packet)
        synchronize_player_position_fields
        (synchronize_player_position packet)
unfolding synchronize_player_position_body synchronize_player_position_fields
synchronize_player_position-Sends packet h = then-Sends _ (f64-Sends packet.x h.x) (
    then-Sends _ (f64-Sends packet.y h.y) (
      then-Sends _ (f64-Sends packet.z h.z) (
        then-Sends _ (f32-Sends packet.yaw h.yaw) (
          then-Sends _ (f32-Sends packet.pitch h.pitch) (
            then-Sends _ (i8-Sends packet.flags h.flags)
              (last-Sends _ (var_int-Sends packet.teleport_id h.teleport_id)))))))

pub record IsConfirmTeleportation (packet : ConfirmTeleportation) : Type 0 where
  pub teleport_id : IsI32 packet.teleport_id

pub confirm_teleportation-Sends :
    (packet : ConfirmTeleportation)
    → IsConfirmTeleportation packet
    → Sends
        (confirm_teleportation_body packet)
        confirm_teleportation_fields
        (confirm_teleportation packet)
unfolding confirm_teleportation_body confirm_teleportation_fields
confirm_teleportation-Sends packet h = last-Sends _ (var_int-Sends packet.teleport_id h.teleport_id)
