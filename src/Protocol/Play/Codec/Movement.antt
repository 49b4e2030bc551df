-- ===== src/Protocol/Play/Codec/Movement.antt =====
-- play.rs: where the player is, as the client reports it and the server sets it.
use rustbound_server.Prelude.{ℕ}
use rustbound_server.Prelude.Int.{ℤ, pos}
use rustbound_server.Prelude.Buffer.{Action, write, done, with_body, ◌>>=◌, ◌>>◌}
use rustbound_server.Protocol.Primitives.VarInt.{encode_var_int, decode_var_int}
use rustbound_server.Protocol.Primitives.Fixed.{
  encode_f32, decode_f32, encode_f64, decode_f64, encode_bool, decode_bool, encode_i8, decode_i8,
}
use rustbound_server.Protocol.Play.{PlayError}
use rustbound_server.Protocol.Play.Frame.{decode_play, send_play, get}
use rustbound_server.Protocol.Play.Types.{
  PlayDecodeOutcome, SynchronizePlayerPosition, SetPlayerPosition, ConfirmTeleportation,
  SetPlayerRotation, SetPlayerPositionAndRotation, PlayPacket, set_player_position,
  set_player_position_and_rotation, set_player_rotation, synchronize_player_position,
  confirm_teleportation,
}

abbrev pub set_player_position_packet_id : ℤ
set_player_position_packet_id = pos 0x14

unfoldable pub set_player_position_body : SetPlayerPosition → Action PlayError (Unit {0})
set_player_position_body packet = do
  write (encode_f64 packet.x)
  write (encode_f64 packet.y)
  write (encode_f64 packet.z)
  write (encode_bool packet.on_ground)

unfoldable pub encode_set_player_position : SetPlayerPosition → ℕ → Action PlayError (Unit {0})
unfolding set_player_position_body
encode_set_player_position packet max_frame_length =
    with_body (set_player_position_body packet)
      (send_play set_player_position_packet_id max_frame_length)

unfoldable pub set_player_position_fields : Action PlayError PlayPacket
set_player_position_fields = do
  x ← get decode_f64
  y ← get decode_f64
  z ← get decode_f64
  on_ground ← get decode_bool
  done (set_player_position (record { x = x; y = y; z = z; on_ground = on_ground }))

unfoldable pub decode_set_player_position : ℕ → Action PlayError PlayDecodeOutcome
unfolding set_player_position_fields
decode_set_player_position = decode_play set_player_position_packet_id set_player_position_fields

abbrev pub set_player_position_and_rotation_packet_id : ℤ
set_player_position_and_rotation_packet_id = pos 0x15

unfoldable pub set_player_position_and_rotation_body :
    SetPlayerPositionAndRotation → Action PlayError (Unit {0})
set_player_position_and_rotation_body packet = do
  write (encode_f64 packet.x)
  write (encode_f64 packet.y)
  write (encode_f64 packet.z)
  write (encode_f32 packet.yaw)
  write (encode_f32 packet.pitch)
  write (encode_bool packet.on_ground)

unfoldable pub encode_set_player_position_and_rotation :
    SetPlayerPositionAndRotation → ℕ → Action PlayError (Unit {0})
unfolding set_player_position_and_rotation_body
encode_set_player_position_and_rotation packet max_frame_length =
    with_body (set_player_position_and_rotation_body packet)
      (send_play set_player_position_and_rotation_packet_id max_frame_length)

unfoldable pub set_player_position_and_rotation_fields : Action PlayError PlayPacket
set_player_position_and_rotation_fields = do
  x ← get decode_f64
  y ← get decode_f64
  z ← get decode_f64
  yaw ← get decode_f32
  pitch ← get decode_f32
  on_ground ← get decode_bool
  done (
      set_player_position_and_rotation
        (record { x = x; y = y; z = z; yaw = yaw; pitch = pitch; on_ground = on_ground }))

unfoldable pub decode_set_player_position_and_rotation : ℕ → Action PlayError PlayDecodeOutcome
unfolding set_player_position_and_rotation_fields
decode_set_player_position_and_rotation =
    decode_play set_player_position_and_rotation_packet_id set_player_position_and_rotation_fields

abbrev pub set_player_rotation_packet_id : ℤ
set_player_rotation_packet_id = pos 0x16

unfoldable pub set_player_rotation_body : SetPlayerRotation → Action PlayError (Unit {0})
set_player_rotation_body packet = do
  write (encode_f32 packet.yaw)
  write (encode_f32 packet.pitch)
  write (encode_bool packet.on_ground)

unfoldable pub encode_set_player_rotation : SetPlayerRotation → ℕ → Action PlayError (Unit {0})
unfolding set_player_rotation_body
encode_set_player_rotation packet max_frame_length =
    with_body (set_player_rotation_body packet)
      (send_play set_player_rotation_packet_id max_frame_length)

unfoldable pub set_player_rotation_fields : Action PlayError PlayPacket
set_player_rotation_fields = do
  yaw ← get decode_f32
  pitch ← get decode_f32
  on_ground ← get decode_bool
  done (set_player_rotation (record { yaw = yaw; pitch = pitch; on_ground = on_ground }))

unfoldable pub decode_set_player_rotation : ℕ → Action PlayError PlayDecodeOutcome
unfolding set_player_rotation_fields
decode_set_player_rotation = decode_play set_player_rotation_packet_id set_player_rotation_fields

abbrev pub synchronize_player_position_packet_id : ℤ
synchronize_player_position_packet_id = pos 0x3c

unfoldable pub synchronize_player_position_body :
    SynchronizePlayerPosition → Action PlayError (Unit {0})
synchronize_player_position_body packet = do
  write (encode_f64 packet.x)
  write (encode_f64 packet.y)
  write (encode_f64 packet.z)
  write (encode_f32 packet.yaw)
  write (encode_f32 packet.pitch)
  write (encode_i8 packet.flags)
  write (encode_var_int packet.teleport_id)

unfoldable pub encode_synchronize_player_position :
    SynchronizePlayerPosition → ℕ → Action PlayError (Unit {0})
unfolding synchronize_player_position_body
encode_synchronize_player_position packet max_frame_length =
    with_body (synchronize_player_position_body packet)
      (send_play synchronize_player_position_packet_id max_frame_length)

unfoldable pub synchronize_player_position_fields : Action PlayError PlayPacket
synchronize_player_position_fields = do
  x ← get decode_f64
  y ← get decode_f64
  z ← get decode_f64
  yaw ← get decode_f32
  pitch ← get decode_f32
  flags ← get decode_i8
  teleport_id ← get decode_var_int
  done (
      synchronize_player_position (record {
        x = x;
        y = y;
        z = z;
        yaw = yaw;
        pitch = pitch;
        flags = flags;
        teleport_id = teleport_id;
      }))

unfoldable pub decode_synchronize_player_position : ℕ → Action PlayError PlayDecodeOutcome
unfolding synchronize_player_position_fields
decode_synchronize_player_position =
    decode_play synchronize_player_position_packet_id synchronize_player_position_fields

abbrev pub confirm_teleportation_packet_id : ℤ
confirm_teleportation_packet_id = pos 0x00

unfoldable pub confirm_teleportation_body : ConfirmTeleportation → Action PlayError (Unit {0})
confirm_teleportation_body packet = write (encode_var_int packet.teleport_id)

unfoldable pub encode_confirm_teleportation : ConfirmTeleportation → ℕ → Action PlayError (Unit {0})
unfolding confirm_teleportation_body
encode_confirm_teleportation packet max_frame_length =
    with_body (confirm_teleportation_body packet)
      (send_play confirm_teleportation_packet_id max_frame_length)

unfoldable pub confirm_teleportation_fields : Action PlayError PlayPacket
confirm_teleportation_fields = do
  teleport_id ← get decode_var_int
  done (confirm_teleportation (record { teleport_id = teleport_id }))

unfoldable pub decode_confirm_teleportation : ℕ → Action PlayError PlayDecodeOutcome
unfolding confirm_teleportation_fields
decode_confirm_teleportation =
    decode_play confirm_teleportation_packet_id confirm_teleportation_fields
