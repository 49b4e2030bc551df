-- ===== src/Protocol/Play/Codec/Block.antt =====
-- play.rs: digging, placing, and what the server answers.
use rustbound_server.Prelude.{ℕ}
use rustbound_server.Prelude.Int.{ℤ, pos}
use rustbound_server.Prelude.Buffer.{Action, write, done, with_body, ◌>>=◌, ◌>>◌}
use rustbound_server.Protocol.Primitives.VarInt.{encode_var_int, decode_var_int}
use rustbound_server.Protocol.Primitives.Fixed.{
  encode_f32, decode_f32, decode_position, encode_bool, decode_bool, encode_u8, decode_u8,
}
use rustbound_server.Protocol.Play.{PlayError}
use rustbound_server.Protocol.Play.Frame.{
  decode_play, send_play, get, put_position, player_digging_action_field,
}
use rustbound_server.Protocol.Play.Types.{
  AcknowledgeBlockChange, PlayDecodeOutcome, PlayerDigging, UseItemOn, BlockUpdate, PlayPacket,
  player_digging, use_item_on, block_update, acknowledge_block_change,
  player_digging_action_to_wire,
}

abbrev pub player_digging_packet_id : ℤ
player_digging_packet_id = pos 0x1D

unfoldable pub player_digging_body : PlayerDigging → Action PlayError (Unit {0})
player_digging_body packet = do
  write (encode_var_int (player_digging_action_to_wire packet.action))
  put_position packet.position
  write (encode_u8 packet.face)
  write (encode_var_int packet.sequence)

unfoldable pub encode_player_digging : PlayerDigging → ℕ → Action PlayError (Unit {0})
unfolding player_digging_body
encode_player_digging packet max_frame_length =
    with_body (player_digging_body packet) (send_play player_digging_packet_id max_frame_length)

unfoldable pub player_digging_fields : Action PlayError PlayPacket
player_digging_fields = do
  action ← player_digging_action_field
  position ← get decode_position
  face ← get decode_u8
  sequence ← get decode_var_int
  done (
      player_digging
        (record { action = action; position = position; face = face; sequence = sequence }))

unfoldable pub decode_player_digging : ℕ → Action PlayError PlayDecodeOutcome
unfolding player_digging_fields
decode_player_digging = decode_play player_digging_packet_id player_digging_fields

abbrev pub use_item_on_packet_id : ℤ
use_item_on_packet_id = pos 0x31

unfoldable pub use_item_on_body : UseItemOn → Action PlayError (Unit {0})
use_item_on_body packet = do
  put_position packet.position
  write (encode_u8 packet.face)
  write (encode_var_int packet.hand)
  write (encode_f32 packet.cursor_x)
  write (encode_f32 packet.cursor_y)
  write (encode_f32 packet.cursor_z)
  write (encode_bool packet.inside_block)
  write (encode_var_int packet.sequence)

unfoldable pub encode_use_item_on : UseItemOn → ℕ → Action PlayError (Unit {0})
unfolding use_item_on_body
encode_use_item_on packet max_frame_length =
    with_body (use_item_on_body packet) (send_play use_item_on_packet_id max_frame_length)

unfoldable pub use_item_on_fields : Action PlayError PlayPacket
use_item_on_fields = do
  position ← get decode_position
  face ← get decode_u8
  hand ← get decode_var_int
  cursor_x ← get decode_f32
  cursor_y ← get decode_f32
  cursor_z ← get decode_f32
  inside_block ← get decode_bool
  sequence ← get decode_var_int
  done (
      use_item_on (record {
        position = position;
        face = face;
        hand = hand;
        cursor_x = cursor_x;
        cursor_y = cursor_y;
        cursor_z = cursor_z;
        inside_block = inside_block;
        sequence = sequence;
      }))

unfoldable pub decode_use_item_on : ℕ → Action PlayError PlayDecodeOutcome
unfolding use_item_on_fields
decode_use_item_on = decode_play use_item_on_packet_id use_item_on_fields

abbrev pub block_update_packet_id : ℤ
block_update_packet_id = pos 0x0A

unfoldable pub block_update_body : BlockUpdate → Action PlayError (Unit {0})
block_update_body packet = do
  put_position packet.position
  write (encode_var_int packet.block_state)

unfoldable pub encode_block_update : BlockUpdate → ℕ → Action PlayError (Unit {0})
unfolding block_update_body
encode_block_update packet max_frame_length =
    with_body (block_update_body packet) (send_play block_update_packet_id max_frame_length)

unfoldable pub block_update_fields : Action PlayError PlayPacket
block_update_fields = do
  position ← get decode_position
  block_state ← get decode_var_int
  done (block_update (record { position = position; block_state = block_state }))

unfoldable pub decode_block_update : ℕ → Action PlayError PlayDecodeOutcome
unfolding block_update_fields
decode_block_update = decode_play block_update_packet_id block_update_fields

abbrev pub acknowledge_block_change_packet_id : ℤ
acknowledge_block_change_packet_id = pos 0x06

unfoldable pub acknowledge_block_change_body : AcknowledgeBlockChange → Action PlayError (Unit {0})
acknowledge_block_change_body packet = write (encode_var_int packet.sequence)

unfoldable pub encode_acknowledge_block_change :
    AcknowledgeBlockChange → ℕ → Action PlayError (Unit {0})
unfolding acknowledge_block_change_body
encode_acknowledge_block_change packet max_frame_length =
    with_body (acknowledge_block_change_body packet)
      (send_play acknowledge_block_change_packet_id max_frame_length)

unfoldable pub acknowledge_block_change_fields : Action PlayError PlayPacket
acknowledge_block_change_fields = do
  sequence ← get decode_var_int
  done (acknowledge_block_change (record { sequence = sequence }))

unfoldable pub decode_acknowledge_block_change : ℕ → Action PlayError PlayDecodeOutcome
unfolding acknowledge_block_change_fields
decode_acknowledge_block_change =
    decode_play acknowledge_block_change_packet_id acknowledge_block_change_fields
