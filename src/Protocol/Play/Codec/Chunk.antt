-- ===== src/Protocol/Play/Codec/Chunk.antt =====
-- play.rs: Chunk Data and Update Light.
use rustbound_server.Prelude.{ℕ, [], List, length, ltb, if◌then◌else◌}
use rustbound_server.Prelude.Int.{ℤ, pos}
use rustbound_server.Prelude.Buffer.{Action, ok, err, write, done, map_err, with_body, ◌>>=◌, ◌>>◌}
use rustbound_server.Protocol.Primitives.{string_too_long}
use rustbound_server.Protocol.Primitives.Fixed.{encode_i32, decode_i32}
use rustbound_server.Protocol.Primitives.Text.{encode_byte_array, decode_byte_array}
use rustbound_server.Protocol.Play.{PlayError, codec, from_codec}
use rustbound_server.Protocol.Play.Frame.{send_play, get, decode_play_with, put_each}
use rustbound_server.Protocol.Play.Types.{ChunkData, PlayDecodeOutcome, PlayPacket, chunk_data}
use rustbound_server.Protocol.Play.Nbt.{Fuelled, failed}
use rustbound_server.Protocol.Play.Codec.Slots.{plain, get_each}
use rustbound_server.Protocol.Play.Codec.Join.{
  put_bounded_count, bounded_count_field, put_bounded, nbt_bounded,
}

abbrev pub max_chunk_data_size : ℕ
max_chunk_data_size = 1048576

abbrev pub max_block_entities : ℕ
max_block_entities = 1024

abbrev pub put_array : List ℕ → Action PlayError (Unit {0})
put_array bytes = map_err from_codec (encode_byte_array bytes max_chunk_data_size)

abbrev pub chunk_data_packet_id : ℤ
chunk_data_packet_id = pos 0x24

unfoldable pub chunk_data_body : ChunkData → Action PlayError (Unit {0})
chunk_data_body packet = do
  write (encode_i32 packet.chunk_x)
  write (encode_i32 packet.chunk_z)
  put_bounded max_chunk_data_size packet.heightmaps
  put_array packet.payload
  put_bounded_count max_block_entities (length packet.block_entities)
  put_each put_array packet.block_entities
  put_bounded max_chunk_data_size packet.light_data

unfoldable pub encode_chunk_data : ChunkData → ℕ → Action PlayError (Unit {0})
unfolding chunk_data_body
encode_chunk_data packet max_frame_length =
    with_body (chunk_data_body packet) (send_play chunk_data_packet_id max_frame_length)

-- The light data is all that is left of the body.
unfoldable pub light_field : Action PlayError (List ℕ)
light_field body =
    if ltb max_chunk_data_size (length body) then err (codec string_too_long) body else ok body []

unfoldable pub chunk_data_fields : ℕ → Action (Fuelled PlayError) PlayPacket
chunk_data_fields fuel = do
  chunk_x ← plain (get decode_i32)
  chunk_z ← plain (get decode_i32)
  heightmaps ← nbt_bounded fuel max_chunk_data_size
  payload ← plain (get (decode_byte_array max_chunk_data_size))
  n ← plain (bounded_count_field max_block_entities)
  block_entities ← get_each n (plain (get (decode_byte_array max_chunk_data_size)))
  light_data ← plain light_field
  done (
      chunk_data (record {
        chunk_x = chunk_x;
        chunk_z = chunk_z;
        heightmaps = heightmaps;
        payload = payload;
        block_entities = block_entities;
        light_data = light_data;
      }))

unfoldable pub decode_chunk_data : ℕ → ℕ → Action (Fuelled PlayError) PlayDecodeOutcome
unfolding chunk_data_fields
decode_chunk_data fuel = decode_play_with failed chunk_data_packet_id (chunk_data_fields fuel)
