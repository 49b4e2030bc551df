-- ===== src/Protocol/Play/RoundTrip/WithNbt.antt =====
-- The round trip of the Play packets that carry NBT.
use rustbound_server.Prelude.{ℕ, ◌≡◌, ◌++◌, [], List, arith}
use rustbound_server.Prelude.Buffer.{Action, ok}
use rustbound_server.Protocol.Play.{PlayError}
use rustbound_server.Protocol.Play.Types.{
  ClickContainer, ChunkData, SetContainerSlot, SetContainerContent, JoinGame, PlayDecodeOutcome,
  PlayPacket, join_game, chunk_data, set_container_content, set_container_slot, click_container,
}
use rustbound_server.Protocol.Play.Nbt.{Fuelled, failed}
use rustbound_server.Protocol.Play.RoundTrip.{Sends-SendsAll, decode_play-send_play}
use rustbound_server.Protocol.Play.Codec.Containers.{
  encode_set_container_content, decode_set_container_content, set_container_content_packet_id,
  encode_set_container_slot, decode_set_container_slot, set_container_slot_packet_id,
  encode_click_container, decode_click_container, click_container_packet_id,
}
use rustbound_server.Protocol.Play.RoundTrip.Containers.{
  IsSetContainerContent, set_container_content-Sends, IsSetContainerSlot, set_container_slot-Sends,
  IsClickContainer, click_container-Sends,
}
use rustbound_server.Protocol.Play.Codec.Join.{
  encode_join_game, decode_join_game, join_game_packet_id,
}
use rustbound_server.Protocol.Play.RoundTrip.Join.{IsJoinGame, join_game-Sends}
use rustbound_server.Protocol.Play.Codec.Chunk.{
  encode_chunk_data, decode_chunk_data, chunk_data_packet_id,
}
use rustbound_server.Protocol.Play.RoundTrip.Chunk.{IsChunkData, chunk_data-SendsAll}

-- The encoder and the decoder of one packet that carries NBT, where its fields are values of their
-- Rust types, its NBT is well formed, and the fuel is enough for that.
pub data NbtPacketCodec (fuel : ℕ)
    : PlayPacket
      → (ℕ → Action PlayError (Unit {0}))
      → (ℕ → Action (Fuelled PlayError) PlayDecodeOutcome)
      → Type 0 where
  set_container_content_codec :
      (packet : SetContainerContent)
      → IsSetContainerContent fuel packet
      → NbtPacketCodec fuel
          (set_container_content packet)
          (encode_set_container_content packet)
          (decode_set_container_content fuel)
  set_container_slot_codec :
      (packet : SetContainerSlot)
      → IsSetContainerSlot fuel packet
      → NbtPacketCodec fuel
          (set_container_slot packet)
          (encode_set_container_slot packet)
          (decode_set_container_slot fuel)
  click_container_codec :
      (packet : ClickContainer)
      → IsClickContainer fuel packet
      → NbtPacketCodec fuel
          (click_container packet)
          (encode_click_container packet)
          (decode_click_container fuel)
  join_game_codec :
      (packet : JoinGame)
      → IsJoinGame fuel packet
      → NbtPacketCodec fuel (join_game packet) (encode_join_game packet) (decode_join_game fuel)
  chunk_data_codec :
      (packet : ChunkData)
      → IsChunkData fuel packet
      → NbtPacketCodec fuel (chunk_data packet) (encode_chunk_data packet) (decode_chunk_data fuel)

-- Join Game, Chunk Data, the contents of a container, one of its slots and a click that its encoder
-- sends, its decoder under the same maximum reads back whole, with what follows it left in the input.
-- Each NBT in the packet is one compound without a byte array, whose parts the fuel is enough for; the
-- other fields are in the range of their types, with at most 256 changed slots in a click; and what a
-- packet says that it does not have (a slot's item, a death location) is empty.
pub decode_fuelled-encode :
    {fuel : ℕ} {packet : PlayPacket} {encode : ℕ → Action PlayError (Unit {0})}
    {decode : ℕ → Action (Fuelled PlayError) PlayDecodeOutcome}
    → NbtPacketCodec fuel packet encode decode
    → (maximum : ℕ) (wire rest : List ℕ) → encode maximum [] ≡ ok tt wire
    → decode maximum (wire ++ rest) ≡ ok (PlayDecodeOutcome.complete packet) rest
unfolding encode_set_container_content decode_set_container_content encode_set_container_slot
    decode_set_container_slot encode_click_container decode_click_container encode_join_game
    decode_join_game encode_chunk_data decode_chunk_data
decode_fuelled-encode {fuel} (set_container_content_codec packet h) maximum wire rest e =
    decode_play-send_play failed set_container_content_packet_id maximum wire rest (omega arith)
      (Sends-SendsAll (set_container_content-Sends fuel packet h)) e
decode_fuelled-encode {fuel} (set_container_slot_codec packet h) maximum wire rest e =
    decode_play-send_play failed set_container_slot_packet_id maximum wire rest (omega arith)
      (Sends-SendsAll (set_container_slot-Sends fuel packet h)) e
decode_fuelled-encode {fuel} (click_container_codec packet h) maximum wire rest e =
    decode_play-send_play failed click_container_packet_id maximum wire rest (omega arith)
      (Sends-SendsAll (click_container-Sends fuel packet h)) e
decode_fuelled-encode {fuel} (join_game_codec packet h) maximum wire rest e =
    decode_play-send_play failed join_game_packet_id maximum wire rest (omega arith)
      (Sends-SendsAll (join_game-Sends fuel packet h)) e
decode_fuelled-encode {fuel} (chunk_data_codec packet h) maximum wire rest e =
    decode_play-send_play failed chunk_data_packet_id maximum wire rest (omega arith)
      (chunk_data-SendsAll fuel packet h) e
