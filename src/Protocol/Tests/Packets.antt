-- ===== src/Protocol/Tests/Packets.antt =====
-- Play packets, compression and the play state machine on concrete bytes.
use rustbound_server.Prelude.{ℕ, ◌≡◌, ◌≢◌, refl, arith, List, [], ◌∷◌, ◌++◌, true, sym}
use rustbound_server.Prelude.Int.{pos}
use rustbound_server.Prelude.Words.{as_unsigned, to_be_bytes, to_le_bytes}
use rustbound_server.Prelude.Buffer.{ok, err}
use rustbound_server.Prelude.Order.{lt_wf}
use rustbound_server.Prelude.{dec_lt}
use rustbound_server.Protocol.Play.{PlayError, wrong_packet_id, trailing_bytes}
use rustbound_server.Protocol.Play.Types.{
  PlayDecodeOutcome, SetPlayerPosition, set_player_position, SetContainerSlot, set_container_slot,
}
use rustbound_server.Protocol.Play.Frame.{decode_play_with}
use rustbound_server.Protocol.Play.RoundTrip.Slots.{IsCompound}
use rustbound_server.Protocol.Play.RoundTrip.TwoWay.{decode-encode}
use rustbound_server.Protocol.Play.RoundTrip.Codecs.{set_player_position_codec, set_held_item_codec}
use rustbound_server.Protocol.Play.RoundTrip.Trailing.{decode-trailing_bytes}
use rustbound_server.Protocol.Play.Types.{SetHeldItem}
use rustbound_server.Protocol.Play.Codec.Player.{
  encode_set_held_item, decode_set_held_item, set_held_item_body,
}
use rustbound_server.Protocol.Framing.{
  PacketFrame, DecodeOutcome, decode_frame, decode_after_length, decode_body,
}
use rustbound_server.Protocol.Primitives.VarInt.{decode_var_int, decode_groups, signed_result}
use rustbound_server.Prelude.Buffer.{split_front}
use rustbound_server.Prelude.Words.{as_signed}
use rustbound_server.Protocol.Primitives.Fixed.{encode_u8}
use rustbound_server.Protocol.Play.RoundTrip.WithNbt.{
  decode_fuelled-encode, set_container_slot_codec,
}
use rustbound_server.Protocol.Play.Codec.Movement.{
  encode_set_player_position, decode_set_player_position,
}
use rustbound_server.Protocol.Play.Codec.Containers.{
  encode_set_container_slot, decode_set_container_slot,
}
use rustbound_server.Protocol.Play.Codec.Player.{set_held_item_fields}
use rustbound_server.Protocol.Play.Codec.Slots.{decode_slot}
use rustbound_server.Protocol.Play.Nbt.{unfinished, read_nbt_compound}
use rustbound_server.Protocol.Play.Nbt.Tree.{
  NbtEntries, number, byte, done, entry, compound_bytes, IsNbt, payload_bytes, size,
}
use rustbound_server.Protocol.Play.Nbt.Read.{read_nbt_compound-compound_bytes}
use rustbound_server.Protocol.Play.Nbt.Loop.{endless}
use rustbound_server.Protocol.Play.Nbt.Slot.{decode_slot-endless}
use rustbound_server.Protocol.Play.Refusals.{
  Unmoved, decode_play_with-Unmoved, decode_play_with_other_packet,
}
use rustbound_server.Container.{with_nbt}
use rustbound_server.Protocol.Framing.{encode_frame, validated_frame_length, var_int_length}
use rustbound_server.Protocol.Primitives.VarInt.{encode_var_int, encode_groups}
use rustbound_server.Protocol.Primitives.Fixed.{encode_f64, encode_bool, encode_i8, encode_i16}
use rustbound_server.Prelude.Words.{checked_add, to_i32}
use rustbound_server.Protocol.Play.Nbt.Cursor.{sized_bytes}
use rustbound_server.Protocol.Play.Codec.Movement.{set_player_position_body}
use rustbound_server.Protocol.Play.Codec.Containers.{set_container_slot_body}
use rustbound_server.Protocol.Play.Codec.Slots.{encode_slot, put_present, put_nbt}

abbrev still : SetPlayerPosition
still = record { x = 0; y = 0x4050_0000_0000_0000; z = 1; on_ground = true }

abbrev still_wire : List ℕ
still_wire =
    26 ∷ 0x14 ∷ 0 ∷ 0 ∷ 0 ∷ 0 ∷ 0 ∷ 0 ∷ 0 ∷ 0 ∷ 0x40 ∷ 0x50 ∷ 0 ∷ 0 ∷ 0 ∷ 0 ∷ 0 ∷ 0 ∷ 0 ∷ 0 ∷ 0 ∷ 0
    ∷ 0 ∷ 0 ∷ 0 ∷ 1 ∷ 1 ∷ []

still_sent : encode_set_player_position still 100 [] ≡ ok tt still_wire
unfolding encode_set_player_position set_player_position_body encode_f64 encode_bool to_be_bytes
    to_le_bytes encode_frame validated_frame_length var_int_length checked_add to_i32 encode_var_int
    encode_groups as_unsigned lt_wf dec_lt
still_sent = refl

decode-encode_example :
    decode_set_player_position 100 (still_wire ++ (9 ∷ []))
    ≡ ok (PlayDecodeOutcome.complete (set_player_position still)) (9 ∷ [])
decode-encode_example =
    decode-encode
      (set_player_position_codec still
        (record { x = omega arith; y = omega arith; z = omega arith }))
      100 still_wire (9 ∷ []) still_sent

-- An item with one byte of NBT under the name "a".
abbrev small_tree : NbtEntries
small_tree = entry (0x61 ∷ []) (number byte (5 ∷ [])) done

small_tree_bytes : compound_bytes [] small_tree ≡ 10 ∷ 0 ∷ 0 ∷ 1 ∷ 0 ∷ 1 ∷ 0x61 ∷ 5 ∷ 0 ∷ []
unfolding compound_bytes payload_bytes sized_bytes to_be_bytes to_le_bytes
small_tree_bytes = refl

read_nbt_compound-compound_bytes_example :
    read_nbt_compound 4 (compound_bytes [] small_tree ++ (7 ∷ []))
    ≡ ok (compound_bytes [] small_tree) (7 ∷ [])
read_nbt_compound-compound_bytes_example =
    read_nbt_compound-compound_bytes [] small_tree (7 ∷ []) 4 (omega arith)
      (unfold IsNbt in (omega arith, refl, tt)) (rw small_tree_bytes (omega arith))
      (unfold size in omega arith)

decode_slot-endless_example :
    decode_slot 1000 (1 ∷ 1 ∷ 1 ∷ (endless ++ [])) ≡ err unfinished (endless ++ [])
decode_slot-endless_example = decode_slot-endless [] 1000

decode_play_with-Unmoved_example :
    Unmoved
      (1 ∷ 0x80 ∷ [])
      (decode_play_with (λ (e : PlayError). e) (pos 0x4d) set_held_item_fields 100 (1 ∷ 0x80 ∷ []))
decode_play_with-Unmoved_example =
    decode_play_with-Unmoved (λ (e : PlayError). e) (pos 0x4d) set_held_item_fields 100
      (1 ∷ 0x80 ∷ [])

-- A slot of a container with an item and the NBT above.
abbrev named_slot : SetContainerSlot
named_slot = record {
  window_id = pos 1;
  state_id = pos 2;
  slot = pos 3;
  item = with_nbt (pos 4) (pos 5) (10 ∷ 0 ∷ 0 ∷ 1 ∷ 0 ∷ 1 ∷ 0x61 ∷ 5 ∷ 0 ∷ []);
}

abbrev named_slot_wire : List ℕ
named_slot_wire = 17 ∷ 0x14 ∷ 1 ∷ 2 ∷ 0 ∷ 3 ∷ 1 ∷ 4 ∷ 5 ∷ 10 ∷ 0 ∷ 0 ∷ 1 ∷ 0 ∷ 1 ∷ 0x61 ∷ 5 ∷ 0 ∷ []

named_slot_sent : encode_set_container_slot named_slot 100 [] ≡ ok tt named_slot_wire
unfolding encode_set_container_slot set_container_slot_body encode_i8 encode_i16 encode_slot
    put_present put_nbt encode_bool to_be_bytes to_le_bytes encode_frame validated_frame_length
    var_int_length checked_add to_i32 encode_var_int encode_groups as_unsigned lt_wf dec_lt
named_slot_sent = refl

pub small_tree-IsCompound : IsCompound 4 (10 ∷ 0 ∷ 0 ∷ 1 ∷ 0 ∷ 1 ∷ 0x61 ∷ 5 ∷ 0 ∷ [])
small_tree-IsCompound = record {
  name = [];
  entries = small_tree;
  short_name = omega arith;
  well_formed = unfold IsNbt in (omega arith, refl, tt);
  enough = unfold size in omega arith;
  parts = sym small_tree_bytes;
}

decode_fuelled-encode_example :
    decode_set_container_slot 4 100 (named_slot_wire ++ (9 ∷ []))
    ≡ ok (PlayDecodeOutcome.complete (set_container_slot named_slot)) (9 ∷ [])
decode_fuelled-encode_example =
    decode_fuelled-encode
      (set_container_slot_codec named_slot (record {
        window_id = omega arith;
        state_id = omega arith;
        slot = omega arith;
        item = (omega arith, omega arith, small_tree-IsCompound);
      }))
      100 named_slot_wire (9 ∷ []) named_slot_sent

short_frame : encode_frame (pos 0x4d) (3 ∷ 4 ∷ []) 100 [] ≡ ok tt (3 ∷ 0x4d ∷ 3 ∷ 4 ∷ [])
unfolding encode_frame validated_frame_length var_int_length checked_add to_i32 encode_var_int
    encode_groups as_unsigned lt_wf dec_lt
short_frame = refl

differs : pos 0x4d ≢ pos 0x1c
differs e = ground arith

decode_play_with_other_packet_example :
    decode_play_with
      (λ (e : PlayError). e)
      (pos 0x1c)
      set_held_item_fields
      100
      ((3 ∷ 0x4d ∷ 3 ∷ 4 ∷ []) ++ [])
    ≡ err (wrong_packet_id (pos 0x4d) (pos 0x1c)) ((3 ∷ 0x4d ∷ 3 ∷ 4 ∷ []) ++ [])
decode_play_with_other_packet_example =
    decode_play_with_other_packet (λ (e : PlayError). e) (pos 0x4d) (pos 0x1c) set_held_item_fields
      (3 ∷ 4 ∷ []) 100 (3 ∷ 0x4d ∷ 3 ∷ 4 ∷ []) [] (omega arith) differs short_frame

abbrev held : SetHeldItem
held = record { slot = 3 }

held_sent : encode_set_held_item held 100 [] ≡ ok tt (2 ∷ 0x4d ∷ 3 ∷ [])
unfolding encode_set_held_item set_held_item_body encode_u8 encode_frame validated_frame_length
    var_int_length checked_add to_i32 encode_var_int encode_groups as_unsigned lt_wf dec_lt
held_sent = refl

abbrev held_frame : PacketFrame
held_frame = record { packet_id = pos 0x4d; payload = 3 ∷ [] }

held_framed : decode_frame 100 (2 ∷ 0x4d ∷ 3 ∷ []) ≡ ok (DecodeOutcome.complete held_frame) []
unfolding decode_frame decode_after_length decode_body decode_var_int decode_groups signed_result
    split_front as_signed
held_framed = refl

decode-trailing_bytes_example :
    decode_set_held_item 100 ((3 ∷ 0x4d ∷ 3 ∷ 4 ∷ []) ++ (9 ∷ []))
    ≡ err (trailing_bytes 1) ((3 ∷ 0x4d ∷ 3 ∷ 4 ∷ []) ++ (9 ∷ []))
decode-trailing_bytes_example =
    decode-trailing_bytes (set_held_item_codec held) 100 100 (2 ∷ 0x4d ∷ 3 ∷ [])
      (3 ∷ 0x4d ∷ 3 ∷ 4 ∷ []) (9 ∷ []) held_frame 4 [] refl held_sent held_framed short_frame
