-- ===== src/Protocol/Play/RoundTrip/Chunk.antt =====
-- What Chunk Data writes, its decoder reads back.
use rustbound_server.Prelude.{ℕ, ◌≡◌, ◌∷◌, [], List, length, false, arith, ltb, All}
use rustbound_server.Prelude.Words.{IsI32}
use rustbound_server.Prelude.Buffer.{ok, done, map_err, ◌>>=◌, >>=-ok, map_err-eq_ok}
use rustbound_server.Protocol.Primitives.Text.{encode_byte_array, decode_byte_array}
use rustbound_server.Protocol.Play.{from_codec}
use rustbound_server.Protocol.Play.Frame.{get}
use rustbound_server.Protocol.Play.RoundTrip.{Sends, SendsAll, then-SendsAll, lift-Sends}
use rustbound_server.Protocol.Play.RoundTrip.Fields.{i32-Sends}
use rustbound_server.Protocol.Play.Types.{ChunkData, chunk_data}
use rustbound_server.Protocol.Play.Nbt.{failed}
use rustbound_server.Protocol.Play.Codec.Slots.{plain}
use rustbound_server.Protocol.Play.RoundTrip.Slots.{IsCompound, each-Sends}
use rustbound_server.Protocol.Play.Codec.Chunk.{
  max_chunk_data_size, max_block_entities, put_array, chunk_data_body, light_field,
  chunk_data_fields,
}
use rustbound_server.Protocol.Play.Codec.Join.{put_bounded}
use rustbound_server.Protocol.Play.RoundTrip.Join.{bounded_count-Sends, nbt_bounded-Sends}
use rustbound_server.Protocol.Primitives.Text.RoundTrip.{string_bytes}
use rustbound_server.Protocol.Primitives.Text.Arrays.{
  encode_byte_array-eq_ok, encode_byte_array_fits, decode_byte_array-bytes,
}

array-Sends :
    (bytes : List ℕ)
    → Sends (put_array bytes) (plain (get (decode_byte_array max_chunk_data_size))) bytes
array-Sends bytes = lift-Sends failed (record {
  sent = λ output output' e.
      let written =
        map_err-eq_ok from_codec (encode_byte_array bytes max_chunk_data_size) output output' tt
          e in
      let (few, small) = encode_byte_array-eq_ok bytes max_chunk_data_size output output' written in
      (
        string_bytes bytes,
        cc (written, encode_byte_array_fits bytes max_chunk_data_size output few small),
        λ rest h. rw (decode_byte_array-bytes bytes max_chunk_data_size rest few small, map_err),
      );
})

light-SendsAll :
    {B : Type 0} (c : List ℕ → B) (bytes : List ℕ)
    → SendsAll
        (put_bounded max_chunk_data_size bytes)
        (plain light_field >>= λ light. done (c light))
        (c bytes)
unfolding put_bounded light_field
light-SendsAll c bytes = record {
  sent = λ output output' e.
      let few : ltb max_chunk_data_size (length bytes) ≡ false = ground arith in
      let read : light_field bytes ≡ ok bytes [] = ground (arith, few) in
      (
        bytes,
        ground arith,
        λ h. >>=-ok (plain light_field) (λ light. done (c light)) (rw (read, map_err)),
      );
}

All-trivial : (xs : List (List ℕ)) → All (λ bytes. Unit {0}) xs
All-trivial [] = tt
All-trivial (x ∷ xs) = (tt, All-trivial xs)

pub record IsChunkData (fuel : ℕ) (packet : ChunkData) : Type 0 where
  pub chunk_x : IsI32 packet.chunk_x
  pub chunk_z : IsI32 packet.chunk_z
  pub heightmaps : IsCompound fuel packet.heightmaps

pub chunk_data-SendsAll :
    (fuel : ℕ) (packet : ChunkData)
    → IsChunkData fuel packet
    → SendsAll (chunk_data_body packet) (chunk_data_fields fuel) (chunk_data packet)
unfolding chunk_data_body chunk_data_fields
chunk_data-SendsAll fuel packet h =
    then-SendsAll _ (lift-Sends failed (i32-Sends packet.chunk_x h.chunk_x)) (
      then-SendsAll _ (lift-Sends failed (i32-Sends packet.chunk_z h.chunk_z)) (
        then-SendsAll _ (nbt_bounded-Sends fuel max_chunk_data_size packet.heightmaps h.heightmaps)
          (then-SendsAll _ (array-Sends packet.payload) (
            then-SendsAll _
              (lift-Sends failed
                (bounded_count-Sends max_block_entities (length packet.block_entities)))
              (then-SendsAll _
                (each-Sends {P = λ bytes. Unit {0}} put_array
                  (plain (get (decode_byte_array max_chunk_data_size)))
                  (λ bytes u. array-Sends bytes) packet.block_entities
                  (All-trivial packet.block_entities))
                (light-SendsAll _ packet.light_data))))))
