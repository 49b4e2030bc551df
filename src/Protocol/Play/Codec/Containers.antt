-- ===== src/Protocol/Play/Codec/Containers.antt =====
-- play.rs: the windows with slots. Their decoders take the fuel of the NBT reader.
use rustbound_server.Prelude.{ℕ, ◌^◌, length, ltb, if◌then◌else◌}
use rustbound_server.Prelude.Int.{ℤ, pos, negsuc}
use rustbound_server.Prelude.Buffer.{Action, write, done, fail, with_body, ◌>>=◌, ◌>>◌}
use rustbound_server.Protocol.Primitives.{CodecError, invalid_boolean, var_int_too_long}
use rustbound_server.Protocol.Primitives.VarInt.{encode_var_int, decode_var_int}
use rustbound_server.Protocol.Primitives.Fixed.{
  encode_i16, decode_i16, encode_i8, decode_i8, encode_u8, decode_u8,
}
use rustbound_server.Protocol.Play.{PlayError, codec}
use rustbound_server.Protocol.Play.Frame.{send_play, get, decode_play_with, put_each}
use rustbound_server.Protocol.Play.Types.{
  ClickContainer, SetContainerSlot, SetContainerContent, ClickContainerChangedSlot,
  PlayDecodeOutcome, PlayPacket, set_container_content, set_container_slot, click_container,
  set_creative_mode_slot,
}
use rustbound_server.Protocol.Play.Nbt.{Fuelled, failed}
use rustbound_server.Protocol.Play.Codec.Slots.{
  encode_slot, decode_slot, plain, nbt, get_each, max_container_slots,
}
use rustbound_server.Prelude.Words.{as_i32}

-- The number of slots, which both directions bound by MAX_CONTAINER_SLOTS with one error.
unfoldable pub put_slot_count : ℕ → Action PlayError (Unit {0})
put_slot_count n =
    if ltb max_container_slots n
    then fail (codec var_int_too_long)
    else write (encode_var_int (as_i32 (pos n)))

-- A count of slots: negative or above the bound, it is refused with the caller's error.
unfoldable pub slot_count : CodecError → ℤ → Action PlayError ℕ
slot_count e (negsuc _) = fail (codec e)
slot_count e (pos n) = if ltb max_container_slots n then fail (codec e) else done n

abbrev pub set_container_content_packet_id : ℤ
set_container_content_packet_id = pos 0x12

unfoldable pub set_container_content_body : SetContainerContent → Action PlayError (Unit {0})
set_container_content_body packet = do
  write (encode_u8 packet.window_id)
  write (encode_var_int packet.state_id)
  put_slot_count (length packet.slots)
  put_each encode_slot packet.slots
  encode_slot packet.carried_item

unfoldable pub encode_set_container_content : SetContainerContent → ℕ → Action PlayError (Unit {0})
unfolding set_container_content_body
encode_set_container_content packet max_frame_length =
    with_body (set_container_content_body packet)
      (send_play set_container_content_packet_id max_frame_length)

unfoldable pub slot_count_field : CodecError → Action PlayError ℕ
unfolding slot_count
slot_count_field e = do raw ← get decode_var_int; slot_count e raw

unfoldable pub set_container_content_fields : ℕ → Action (Fuelled PlayError) PlayPacket
set_container_content_fields fuel = do
  window_id ← plain (get decode_u8)
  state_id ← plain (get decode_var_int)
  n ← plain (slot_count_field var_int_too_long)
  slots ← get_each n (nbt (decode_slot fuel))
  carried_item ← nbt (decode_slot fuel)
  done (
      set_container_content (record {
        window_id = window_id;
        state_id = state_id;
        slots = slots;
        carried_item = carried_item;
      }))

unfoldable pub decode_set_container_content : ℕ → ℕ → Action (Fuelled PlayError) PlayDecodeOutcome
unfolding set_container_content_fields
decode_set_container_content fuel =
    decode_play_with failed set_container_content_packet_id (set_container_content_fields fuel)

abbrev pub set_container_slot_packet_id : ℤ
set_container_slot_packet_id = pos 0x14

unfoldable pub set_container_slot_body : SetContainerSlot → Action PlayError (Unit {0})
set_container_slot_body packet = do
  write (encode_i8 packet.window_id)
  write (encode_var_int packet.state_id)
  write (encode_i16 packet.slot)
  encode_slot packet.item

unfoldable pub encode_set_container_slot : SetContainerSlot → ℕ → Action PlayError (Unit {0})
unfolding set_container_slot_body
encode_set_container_slot packet max_frame_length =
    with_body (set_container_slot_body packet)
      (send_play set_container_slot_packet_id max_frame_length)

unfoldable pub set_container_slot_fields : ℕ → Action (Fuelled PlayError) PlayPacket
set_container_slot_fields fuel = do
  window_id ← plain (get decode_i8)
  state_id ← plain (get decode_var_int)
  slot ← plain (get decode_i16)
  item ← nbt (decode_slot fuel)
  done (
      set_container_slot
        (record { window_id = window_id; state_id = state_id; slot = slot; item = item }))

unfoldable pub decode_set_container_slot : ℕ → ℕ → Action (Fuelled PlayError) PlayDecodeOutcome
unfolding set_container_slot_fields
decode_set_container_slot fuel =
    decode_play_with failed set_container_slot_packet_id (set_container_slot_fields fuel)

unfoldable pub put_change : ClickContainerChangedSlot → Action PlayError (Unit {0})
put_change change = do write (encode_i16 change.slot); encode_slot change.item

unfoldable pub change_field : ℕ → Action (Fuelled PlayError) ClickContainerChangedSlot
change_field fuel = do
  slot ← plain (get decode_i16)
  item ← nbt (decode_slot fuel)
  done (record { slot = slot; item = item })

-- `i32::try_from(n).unwrap_or(i32::MAX)`.
abbrev pub saturated_i32 : ℕ → ℤ
saturated_i32 n = if ltb n (2 ^ 31) then pos n else pos 2147483647

abbrev pub click_container_packet_id : ℤ
click_container_packet_id = pos 0x0B

unfoldable pub click_container_body : ClickContainer → Action PlayError (Unit {0})
click_container_body packet = do
  write (encode_u8 packet.window_id)
  write (encode_var_int packet.state_id)
  write (encode_i16 packet.slot)
  write (encode_i8 packet.button)
  write (encode_var_int packet.mode)
  write (encode_var_int (saturated_i32 (length packet.changed_slots)))
  put_each put_change packet.changed_slots
  encode_slot packet.cursor

unfoldable pub encode_click_container : ClickContainer → ℕ → Action PlayError (Unit {0})
unfolding click_container_body
encode_click_container packet max_frame_length =
    with_body (click_container_body packet) (send_play click_container_packet_id max_frame_length)

unfoldable pub click_container_fields : ℕ → Action (Fuelled PlayError) PlayPacket
click_container_fields fuel = do
  window_id ← plain (get decode_u8)
  state_id ← plain (get decode_var_int)
  slot ← plain (get decode_i16)
  button ← plain (get decode_i8)
  mode ← plain (get decode_var_int)
  n ← plain (slot_count_field invalid_boolean)
  changed_slots ← get_each n (change_field fuel)
  cursor ← nbt (decode_slot fuel)
  done (
      click_container (record {
        window_id = window_id;
        state_id = state_id;
        slot = slot;
        button = button;
        mode = mode;
        changed_slots = changed_slots;
        cursor = cursor;
      }))

unfoldable pub decode_click_container : ℕ → ℕ → Action (Fuelled PlayError) PlayDecodeOutcome
unfolding click_container_fields
decode_click_container fuel =
    decode_play_with failed click_container_packet_id (click_container_fields fuel)

abbrev pub set_creative_mode_slot_packet_id : ℤ
set_creative_mode_slot_packet_id = pos 0x2B

unfoldable pub set_creative_mode_slot_fields : ℕ → Action (Fuelled PlayError) PlayPacket
set_creative_mode_slot_fields fuel = do
  slot ← plain (get decode_i16)
  item ← nbt (decode_slot fuel)
  done (set_creative_mode_slot (record { slot = slot; item = item }))

unfoldable pub decode_set_creative_mode_slot : ℕ → ℕ → Action (Fuelled PlayError) PlayDecodeOutcome
unfolding set_creative_mode_slot_fields
decode_set_creative_mode_slot fuel =
    decode_play_with failed set_creative_mode_slot_packet_id (set_creative_mode_slot_fields fuel)
