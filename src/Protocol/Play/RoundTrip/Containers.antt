-- ===== src/Protocol/Play/RoundTrip/Containers.antt =====
-- What each packet of Codec.Containers writes, its decoder reads back.
use rustbound_server.Prelude.{ℕ, ◌≤◌, ◌≡◌, length, false, arith, ltb, ◌∙◌, All}
use rustbound_server.Prelude.Int.{ℤ, pos}
use rustbound_server.Prelude.Words.{IsI8, IsI16, IsI32, as_i32}
use rustbound_server.Prelude.Buffer.{write, map_err, >>=-ok}
use rustbound_server.Protocol.Primitives.{CodecError, invalid_boolean, var_int_too_long}
use rustbound_server.Protocol.Primitives.VarInt.{encode_var_int, decode_var_int}
use rustbound_server.Protocol.Play.Frame.{get}
use rustbound_server.Protocol.Play.RoundTrip.{
  Sends, write-Sends, then-Sends, last-Sends, lift-Sends,
}
use rustbound_server.Protocol.Play.RoundTrip.Fields.{u8-Sends, i8-Sends, i16-Sends, var_int-Sends}
use rustbound_server.Protocol.Play.Types.{
  ClickContainer, SetContainerSlot, SetContainerContent, ClickContainerChangedSlot,
  set_container_content, set_container_slot, click_container,
}
use rustbound_server.Protocol.Play.Nbt.{failed}
use rustbound_server.Protocol.Play.Codec.Slots.{encode_slot, decode_slot, nbt, max_container_slots}
use rustbound_server.Protocol.Play.RoundTrip.Slots.{slot-Sends, each-Sends, IsPresent}
use rustbound_server.Protocol.Play.Codec.Containers.{
  put_slot_count, slot_count, set_container_content_body, slot_count_field,
  set_container_content_fields, set_container_slot_body, set_container_slot_fields, put_change,
  change_field, saturated_i32, click_container_body, click_container_fields,
}
use rustbound_server.Protocol.Compression.RoundTrip.{as_i32_small}
use rustbound_server.Protocol.Primitives.VarInt.Encode.{var_int_bytes, encode_var_int-append}
use rustbound_server.Protocol.Primitives.VarInt.RoundTrip.{decode_var_int-bytes}

slot_count-Sends :
    (e : CodecError) (n : ℕ) (raw : ℤ)
    → n ≤ max_container_slots
    → raw ≡ pos n
    → Sends (write (encode_var_int raw)) (slot_count_field e) n
unfolding slot_count_field slot_count
slot_count-Sends e n raw small same =
    write-Sends (encode_var_int raw) (var_int_bytes raw) (encode_var_int-append raw) (λ rest.
      >>=-ok (get decode_var_int) (slot_count e) {rest = rest} {a = pos n}
        (rw same (rw (decode_var_int-bytes (pos n) rest (omega arith), map_err)))
      ∙ ground arith)

put_slot_count-Sends :
    (e : CodecError) (n : ℕ)
    → n ≤ max_container_slots
    → Sends (put_slot_count n) (slot_count_field e) n
unfolding put_slot_count
put_slot_count-Sends e n small =
    let same : ltb max_container_slots n ≡ false = ground arith in
    rw same (slot_count-Sends e n (as_i32 (pos n)) small (as_i32_small n (omega arith)))

pub record IsSetContainerContent (fuel : ℕ) (packet : SetContainerContent) : Type 0 where
  pub state_id : IsI32 packet.state_id
  pub few : length packet.slots ≤ max_container_slots
  pub slots : All (λ slot. IsPresent fuel slot.present slot) packet.slots
  pub carried_item : IsPresent fuel packet.carried_item.present packet.carried_item

pub set_container_content-Sends :
    (fuel : ℕ) (packet : SetContainerContent)
    → IsSetContainerContent fuel packet
    → Sends
        (set_container_content_body packet)
        (set_container_content_fields fuel)
        (set_container_content packet)
unfolding set_container_content_body set_container_content_fields
set_container_content-Sends fuel packet h =
    then-Sends _ (lift-Sends failed (u8-Sends packet.window_id)) (
      then-Sends _ (lift-Sends failed (var_int-Sends packet.state_id h.state_id)) (
        then-Sends _
          (lift-Sends failed (put_slot_count-Sends var_int_too_long (length packet.slots) h.few))
          (then-Sends _
            (each-Sends {P = λ slot. IsPresent fuel slot.present slot} encode_slot
              (nbt (decode_slot fuel)) (slot-Sends fuel) packet.slots h.slots)
            (last-Sends _ (slot-Sends fuel packet.carried_item h.carried_item)))))

pub record IsSetContainerSlot (fuel : ℕ) (packet : SetContainerSlot) : Type 0 where
  pub window_id : IsI8 packet.window_id
  pub state_id : IsI32 packet.state_id
  pub slot : IsI16 packet.slot
  pub item : IsPresent fuel packet.item.present packet.item

pub set_container_slot-Sends :
    (fuel : ℕ) (packet : SetContainerSlot)
    → IsSetContainerSlot fuel packet
    → Sends
        (set_container_slot_body packet)
        (set_container_slot_fields fuel)
        (set_container_slot packet)
unfolding set_container_slot_body set_container_slot_fields
set_container_slot-Sends fuel packet h =
    then-Sends _ (lift-Sends failed (i8-Sends packet.window_id h.window_id)) (
      then-Sends _ (lift-Sends failed (var_int-Sends packet.state_id h.state_id)) (
        then-Sends _ (lift-Sends failed (i16-Sends packet.slot h.slot))
          (last-Sends _ (slot-Sends fuel packet.item h.item))))

pub record IsChange (fuel : ℕ) (change : ClickContainerChangedSlot) : Type 0 where
  pub slot : IsI16 change.slot
  pub item : IsPresent fuel change.item.present change.item

change-Sends :
    (fuel : ℕ) (change : ClickContainerChangedSlot)
    → IsChange fuel change
    → Sends (put_change change) (change_field fuel) change
unfolding put_change change_field
change-Sends fuel change h =
    then-Sends _ (lift-Sends failed (i16-Sends change.slot h.slot))
      (last-Sends _ (slot-Sends fuel change.item h.item))

pub record IsClickContainer (fuel : ℕ) (packet : ClickContainer) : Type 0 where
  pub state_id : IsI32 packet.state_id
  pub slot : IsI16 packet.slot
  pub button : IsI8 packet.button
  pub mode : IsI32 packet.mode
  pub few : length packet.changed_slots ≤ max_container_slots
  pub changed_slots : All (IsChange fuel) packet.changed_slots
  pub cursor : IsPresent fuel packet.cursor.present packet.cursor

pub click_container-Sends :
    (fuel : ℕ) (packet : ClickContainer)
    → IsClickContainer fuel packet
    → Sends (click_container_body packet) (click_container_fields fuel) (click_container packet)
unfolding click_container_body click_container_fields
click_container-Sends fuel packet h =
    let n = length packet.changed_slots in
    let few : saturated_i32 n ≡ pos n = ground (arith, h.few) in
    then-Sends _ (lift-Sends failed (u8-Sends packet.window_id)) (
      then-Sends _ (lift-Sends failed (var_int-Sends packet.state_id h.state_id)) (
        then-Sends _ (lift-Sends failed (i16-Sends packet.slot h.slot)) (
          then-Sends _ (lift-Sends failed (i8-Sends packet.button h.button)) (
            then-Sends _ (lift-Sends failed (var_int-Sends packet.mode h.mode)) (
              then-Sends _
                (lift-Sends failed (slot_count-Sends invalid_boolean n (saturated_i32 n) h.few few))
                (then-Sends _
                  (each-Sends {P = IsChange fuel} put_change (change_field fuel) (change-Sends fuel)
                    packet.changed_slots h.changed_slots)
                  (last-Sends _ (slot-Sends fuel packet.cursor h.cursor))))))))
