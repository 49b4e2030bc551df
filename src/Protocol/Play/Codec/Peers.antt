-- ===== src/Protocol/Play/Codec/Peers.antt =====
-- play.rs: other players and entities as they appear, leave and are touched.
use rustbound_server.Prelude.{ℕ, ◌||◌, length, if◌then◌else◌}
use rustbound_server.Prelude.Int.{ℤ, pos, eqb_ℤ}
use rustbound_server.Prelude.Buffer.{Action, write, done, with_body, ◌>>=◌, ◌>>◌}
use rustbound_server.Protocol.Primitives.VarInt.{encode_var_int, decode_var_int}
use rustbound_server.Protocol.Primitives.Fixed.{
  encode_i16, decode_f32, encode_f64, decode_bool, encode_u8, encode_uuid,
}
use rustbound_server.Protocol.Play.{PlayError}
use rustbound_server.Protocol.Play.Frame.{decode_play, send_play, get, put_count, put_each}
use rustbound_server.Protocol.Play.Types.{
  PlayDecodeOutcome, SpawnPlayer, PlayerInfoRemove, RemoveEntities, SpawnEntity, PlayPacket,
  interact_entity,
}

abbrev pub spawn_player_packet_id : ℤ
spawn_player_packet_id = pos 0x03

unfoldable pub spawn_player_body : SpawnPlayer → Action PlayError (Unit {0})
spawn_player_body packet = do
  write (encode_var_int packet.entity_id)
  write (encode_uuid packet.uuid)
  write (encode_f64 packet.x)
  write (encode_f64 packet.y)
  write (encode_f64 packet.z)
  write (encode_u8 packet.yaw)
  write (encode_u8 packet.pitch)
  write (encode_u8 0xff)

unfoldable pub encode_spawn_player : SpawnPlayer → ℕ → Action PlayError (Unit {0})
unfolding spawn_player_body
encode_spawn_player packet max_frame_length =
    with_body (spawn_player_body packet) (send_play spawn_player_packet_id max_frame_length)

abbrev pub spawn_entity_packet_id : ℤ
spawn_entity_packet_id = pos 0x01

unfoldable pub spawn_entity_body : SpawnEntity → Action PlayError (Unit {0})
spawn_entity_body packet = do
  write (encode_var_int packet.entity_id)
  write (encode_uuid packet.uuid)
  write (encode_var_int packet.entity_type)
  write (encode_f64 packet.x)
  write (encode_f64 packet.y)
  write (encode_f64 packet.z)
  write (encode_u8 packet.pitch)
  write (encode_u8 packet.yaw)
  write (encode_u8 packet.head_yaw)
  write (encode_var_int packet.payload)
  write (encode_i16 packet.velocity_x)
  write (encode_i16 packet.velocity_y)
  write (encode_i16 packet.velocity_z)

unfoldable pub encode_spawn_entity : SpawnEntity → ℕ → Action PlayError (Unit {0})
unfolding spawn_entity_body
encode_spawn_entity packet max_frame_length =
    with_body (spawn_entity_body packet) (send_play spawn_entity_packet_id max_frame_length)

abbrev pub remove_entities_packet_id : ℤ
remove_entities_packet_id = pos 0x3E

unfoldable pub remove_entities_body : RemoveEntities → Action PlayError (Unit {0})
remove_entities_body packet = do
  put_count (length packet.entity_ids)
  put_each (λ id. write (encode_var_int id)) packet.entity_ids

unfoldable pub encode_remove_entities : RemoveEntities → ℕ → Action PlayError (Unit {0})
unfolding remove_entities_body
encode_remove_entities packet max_frame_length =
    with_body (remove_entities_body packet) (send_play remove_entities_packet_id max_frame_length)

abbrev pub player_info_remove_packet_id : ℤ
player_info_remove_packet_id = pos 0x39

unfoldable pub player_info_remove_body : PlayerInfoRemove → Action PlayError (Unit {0})
player_info_remove_body packet = do
  put_count (length packet.uuids)
  put_each (λ uuid. write (encode_uuid uuid)) packet.uuids

unfoldable pub encode_player_info_remove : PlayerInfoRemove → ℕ → Action PlayError (Unit {0})
unfolding player_info_remove_body
encode_player_info_remove packet max_frame_length =
    with_body (player_info_remove_body packet)
      (send_play player_info_remove_packet_id max_frame_length)

abbrev pub interact_entity_packet_id : ℤ
interact_entity_packet_id = pos 0x10

-- Interacting at a point: the three coordinates are read and dropped.
unfoldable pub skip_target : ℤ → Action PlayError (Unit {0})
skip_target action =
    if eqb_ℤ action (pos 2)
    then (do x ← get decode_f32; y ← get decode_f32; z ← get decode_f32; done tt)
    else done tt

unfoldable pub hand_field : ℤ → Action PlayError ℤ
hand_field action =
    if eqb_ℤ action (pos 0) || eqb_ℤ action (pos 2) then get decode_var_int else done (pos 0)

unfoldable pub interact_entity_fields : Action PlayError PlayPacket
unfolding skip_target hand_field
interact_entity_fields = do
  entity_id ← get decode_var_int
  action ← get decode_var_int
  skipped ← skip_target action
  hand ← hand_field action
  sneaking ← get decode_bool
  done (
      interact_entity
        (record { entity_id = entity_id; action = action; hand = hand; sneaking = sneaking }))

unfoldable pub decode_interact_entity : ℕ → Action PlayError PlayDecodeOutcome
unfolding interact_entity_fields
decode_interact_entity = decode_play interact_entity_packet_id interact_entity_fields
