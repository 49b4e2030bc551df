-- ===== src/Protocol/Play/RoundTrip/Block.antt =====
-- What each packet of Codec.Block writes, its decoder reads back.
use rustbound_server.Prelude.{◌<◌, ◌^◌}
use rustbound_server.Prelude.Words.{IsI32}
use rustbound_server.Protocol.Play.RoundTrip.{Sends, then-Sends, last-Sends}
use rustbound_server.Protocol.Play.RoundTrip.Fields.{
  IsPosition, f32-Sends, bool-Sends, u8-Sends, var_int-Sends, position-Sends,
  player_digging_action-Sends,
}
use rustbound_server.Protocol.Play.Types.{
  AcknowledgeBlockChange, PlayerDigging, UseItemOn, BlockUpdate, player_digging, use_item_on,
  block_update, acknowledge_block_change,
}
use rustbound_server.Protocol.Play.Codec.Block.{
  player_digging_body, player_digging_fields, use_item_on_body, use_item_on_fields,
  block_update_body, block_update_fields, acknowledge_block_change_body,
  acknowledge_block_change_fields,
}

pub record IsPlayerDigging (packet : PlayerDigging) : Type 0 where
  pub position : IsPosition packet.position
  pub sequence : IsI32 packet.sequence

pub player_digging-Sends :
    (packet : PlayerDigging)
    → IsPlayerDigging packet
    → Sends (player_digging_body packet) player_digging_fields (player_digging packet)
unfolding player_digging_body player_digging_fields
player_digging-Sends packet h = then-Sends _ (player_digging_action-Sends packet.action) (
    then-Sends _ (position-Sends packet.position h.position) (
      then-Sends _ (u8-Sends packet.face)
        (last-Sends _ (var_int-Sends packet.sequence h.sequence))))

pub record IsUseItemOn (packet : UseItemOn) : Type 0 where
  pub position : IsPosition packet.position
  pub hand : IsI32 packet.hand
  pub cursor_x : packet.cursor_x < 2 ^ 32
  pub cursor_y : packet.cursor_y < 2 ^ 32
  pub cursor_z : packet.cursor_z < 2 ^ 32
  pub sequence : IsI32 packet.sequence

pub use_item_on-Sends :
    (packet : UseItemOn)
    → IsUseItemOn packet
    → Sends (use_item_on_body packet) use_item_on_fields (use_item_on packet)
unfolding use_item_on_body use_item_on_fields
use_item_on-Sends packet h = then-Sends _ (position-Sends packet.position h.position) (
    then-Sends _ (u8-Sends packet.face) (
      then-Sends _ (var_int-Sends packet.hand h.hand) (
        then-Sends _ (f32-Sends packet.cursor_x h.cursor_x) (
          then-Sends _ (f32-Sends packet.cursor_y h.cursor_y) (
            then-Sends _ (f32-Sends packet.cursor_z h.cursor_z) (
              then-Sends _ (bool-Sends packet.inside_block)
                (last-Sends _ (var_int-Sends packet.sequence h.sequence))))))))

pub record IsBlockUpdate (packet : BlockUpdate) : Type 0 where
  pub position : IsPosition packet.position
  pub block_state : IsI32 packet.block_state

pub block_update-Sends :
    (packet : BlockUpdate)
    → IsBlockUpdate packet
    → Sends (block_update_body packet) block_update_fields (block_update packet)
unfolding block_update_body block_update_fields
block_update-Sends packet h =
    then-Sends _ (position-Sends packet.position h.position)
      (last-Sends _ (var_int-Sends packet.block_state h.block_state))

pub record IsAcknowledgeBlockChange (packet : AcknowledgeBlockChange) : Type 0 where
  pub sequence : IsI32 packet.sequence

pub acknowledge_block_change-Sends :
    (packet : AcknowledgeBlockChange)
    → IsAcknowledgeBlockChange packet
    → Sends
        (acknowledge_block_change_body packet)
        acknowledge_block_change_fields
        (acknowledge_block_change packet)
unfolding acknowledge_block_change_body acknowledge_block_change_fields
acknowledge_block_change-Sends packet h = last-Sends _ (var_int-Sends packet.sequence h.sequence)
