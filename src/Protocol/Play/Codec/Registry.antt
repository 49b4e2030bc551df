-- ===== src/Protocol/Play/Codec/Registry.antt =====
-- play.rs: unloading a chunk, and the empty tags and recipes of the login.
use rustbound_server.Prelude.{ℕ, ◌^◌, ◌∷◌, [], List, length, none, some}
use rustbound_server.Prelude.Int.{ℤ, pos}
use rustbound_server.Prelude.Words.{as_signed, from_be_bytes}
use rustbound_server.Prelude.Buffer.{Action, ok, err, write, done, with_body, split_front, ◌>>◌}
use rustbound_server.Protocol.Primitives.VarInt.{encode_var_int}
use rustbound_server.Protocol.Primitives.Fixed.{encode_i32}
use rustbound_server.Protocol.Play.{PlayError, trailing_bytes}
use rustbound_server.Protocol.Play.Frame.{decode_play, send_play, put_string, max_identifier_length}
use rustbound_server.Protocol.Play.Types.{PlayDecodeOutcome, UnloadChunk, PlayPacket, unload_chunk}

abbrev pub unload_chunk_packet_id : ℤ
unload_chunk_packet_id = pos 0x1E

unfoldable pub unload_chunk_body : UnloadChunk → Action PlayError (Unit {0})
unload_chunk_body packet = do write (encode_i32 packet.chunk_x); write (encode_i32 packet.chunk_z)

unfoldable pub encode_unload_chunk : UnloadChunk → ℕ → Action PlayError (Unit {0})
unfolding unload_chunk_body
encode_unload_chunk packet max_frame_length =
    with_body (unload_chunk_body packet) (send_play unload_chunk_packet_id max_frame_length)

-- `i32::from_be_bytes`.
abbrev pub be_i32 : List ℕ → ℤ
be_i32 bytes = as_signed (2 ^ 31) (from_be_bytes bytes)

-- Two groups of four bytes; a body shorter than 8 bytes is refused with a count of 0.
unfoldable pub unload_chunk_fields : Action PlayError PlayPacket
unload_chunk_fields body = elim (split_front 4 body) [
  | none ↦ err (trailing_bytes 0) body
  | some (x, tail) ↦ elim (split_front 4 tail) [
    | none ↦ err (trailing_bytes 0) body
    | some (z, trailing) ↦
        ok (unload_chunk (record { chunk_x = be_i32 x; chunk_z = be_i32 z })) trailing
  ]
]

unfoldable pub decode_unload_chunk : ℕ → Action PlayError PlayDecodeOutcome
unfolding unload_chunk_fields
decode_unload_chunk = decode_play unload_chunk_packet_id unload_chunk_fields

abbrev pub update_tags_packet_id : ℤ
update_tags_packet_id = pos 0x6E

abbrev pub declare_commands_packet_id : ℤ
declare_commands_packet_id = pos 0x10

abbrev pub update_recipes_packet_id : ℤ
update_recipes_packet_id = pos 0x6D

-- "minecraft:block", "minecraft:item", "minecraft:fluid", "minecraft:entity_type" and
-- "minecraft:game_event".
abbrev pub tag_registries : List (List ℕ)
tag_registries =
    (109 ∷ 105 ∷ 110 ∷ 101 ∷ 99 ∷ 114 ∷ 97 ∷ 102 ∷ 116 ∷ 58 ∷ 98 ∷ 108 ∷ 111 ∷ 99 ∷ 107 ∷ [])
    ∷ (109 ∷ 105 ∷ 110 ∷ 101 ∷ 99 ∷ 114 ∷ 97 ∷ 102 ∷ 116 ∷ 58 ∷ 105 ∷ 116 ∷ 101 ∷ 109 ∷ [])
    ∷ (109 ∷ 105 ∷ 110 ∷ 101 ∷ 99 ∷ 114 ∷ 97 ∷ 102 ∷ 116 ∷ 58 ∷ 102 ∷ 108 ∷ 117 ∷ 105 ∷ 100 ∷ [])
    ∷ (109 ∷ 105 ∷ 110 ∷ 101 ∷ 99 ∷ 114 ∷ 97 ∷ 102 ∷ 116 ∷ 58 ∷ 101 ∷ 110 ∷ 116 ∷ 105 ∷ 116 ∷ 121
        ∷ 95 ∷ 116 ∷ 121 ∷ 112 ∷ 101 ∷ [])
    ∷ (109 ∷ 105 ∷ 110 ∷ 101 ∷ 99 ∷ 114 ∷ 97 ∷ 102 ∷ 116 ∷ 58 ∷ 103 ∷ 97 ∷ 109 ∷ 101 ∷ 95 ∷ 101
        ∷ 118 ∷ 101 ∷ 110 ∷ 116 ∷ [])
    ∷ []

unfoldable pub put_tag_registries : List (List ℕ) → Action PlayError (Unit {0})
put_tag_registries [] = done tt
put_tag_registries (registry ∷ registries) = do
  put_string registry max_identifier_length
  write (encode_var_int (pos 0))
  put_tag_registries registries

unfoldable pub encode_update_tags_empty : ℕ → Action PlayError (Unit {0})
unfolding put_tag_registries
encode_update_tags_empty max_frame_length =
    with_body
      (write (encode_var_int (pos (length tag_registries))) >> put_tag_registries tag_registries)
      (send_play update_tags_packet_id max_frame_length)

unfoldable pub encode_update_recipes_empty : ℕ → Action PlayError (Unit {0})
encode_update_recipes_empty max_frame_length =
    with_body (write (encode_var_int (pos 0))) (send_play update_recipes_packet_id max_frame_length)
