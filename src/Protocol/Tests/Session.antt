-- ===== src/Protocol/Tests/Session.antt =====
-- Compression and the play state machine on concrete bytes.
use rustbound_server.Prelude.{
  ℕ, ◌≡◌, ◌≢◌, refl, sym, arith, List, [], ◌∷◌, ◌++◌, none, some, length, dec_lt, ◌≤◌, replicate,
  length-replicate,
}
use rustbound_server.Prelude.Int.{pos, negsuc}
use rustbound_server.Prelude.Order.{lt_wf}
use rustbound_server.Prelude.Words.{as_unsigned, as_signed, as_i32, checked_add, to_i32}
use rustbound_server.Prelude.Buffer.{ok, err}
use rustbound_server.Protocol.Primitives.VarInt.{encode_var_int, encode_groups}
use rustbound_server.Protocol.Framing.{
  effective_max_length, encode_frame, encode_raw_frame, validated_frame_length, var_int_length,
}
use rustbound_server.Protocol.Compression.{
  Zlib, CompressedDecodeOutcome, encode_compressed_frame, decode_compressed_frame, compressed_body,
  encode_set_compression, max_decompressed_size, decompressed_too_large,
}
use rustbound_server.Protocol.Compression.RoundTrip.{
  IsLossless, packet_bytes, decode_compressed_frame-encode_compressed_frame,
}
use rustbound_server.Protocol.Compression.Limits.{
  Unmoved, decode_compressed_frame-Unmoved, oversized_packet_refused,
}
use rustbound_server.Protocol.Play.Types.{survival}
use rustbound_server.Protocol.Play.Machine.{PlayConfig, PlayStateMachine, active, disconnected}
use rustbound_server.Protocol.Play.Machine.Runs.{
  moved, turned, keep_alive_sent, kicked, run, IsRefused, IsLater, run-disconnected, run-IsLater,
}
use rustbound_server.Protocol.Play.Machine.Answers.{AnsweredOnce, keep_alive-AnsweredOnce}

-- The zlib that packs nothing.
abbrev stored : Zlib
stored = record { deflate = λ bytes. some bytes; inflate = λ bytes. some bytes }

stored-IsLossless : IsLossless stored
stored-IsLossless bytes packed e = sym e

abbrev packed_wire : List ℕ
packed_wire = 4 ∷ 3 ∷ 5 ∷ 6 ∷ 7 ∷ []

packed_sent : encode_compressed_frame stored (pos 5) (6 ∷ 7 ∷ []) (pos 2) 100 [] ≡ ok tt packed_wire
unfolding encode_compressed_frame compressed_body as_i32 as_unsigned as_signed encode_raw_frame
    encode_var_int encode_groups lt_wf dec_lt to_i32
packed_sent = refl

small_packet : length (packet_bytes (pos 5) (6 ∷ 7 ∷ [])) ≤ max_decompressed_size
unfolding encode_var_int encode_groups as_unsigned lt_wf dec_lt
small_packet = omega arith

decode_compressed_frame-encode_compressed_frame_example :
    decode_compressed_frame stored (pos 64) 100 (packed_wire ++ (9 ∷ []))
    ≡ ok
        (CompressedDecodeOutcome.complete (record { packet_id = pos 5; payload = 6 ∷ 7 ∷ [] }))
        (9 ∷ [])
decode_compressed_frame-encode_compressed_frame_example =
    decode_compressed_frame-encode_compressed_frame stored (pos 5) (6 ∷ 7 ∷ []) (pos 2) (pos 64) 100
      packed_wire (9 ∷ []) stored-IsLossless (omega arith) small_packet refl packed_sent

threshold_sent :
    encode_set_compression (negsuc 0) 100 [] ≡ ok tt (6 ∷ 3 ∷ 255 ∷ 255 ∷ 255 ∷ 255 ∷ 15 ∷ [])
unfolding encode_set_compression encode_frame validated_frame_length var_int_length checked_add
    to_i32 encode_var_int encode_groups as_unsigned lt_wf dec_lt
threshold_sent = refl

decode_compressed_frame-Unmoved_example :
    Unmoved (2 ∷ 0 ∷ []) (decode_compressed_frame stored (pos 0) 100 (2 ∷ 0 ∷ []))
decode_compressed_frame-Unmoved_example =
    decode_compressed_frame-Unmoved stored (pos 0) 100 (2 ∷ 0 ∷ [])

abbrev server_config : PlayConfig
server_config = record {
  max_frame_length = 100;
  entity_id = pos 1;
  gamemode = survival;
  username = 0x61 ∷ [];
  uuid = record { most_significant = pos 0; least_significant = pos 0 };
  dimension_name = 0x61 ∷ [];
  hashed_seed = pos 0;
  max_players = pos 20;
  view_distance = pos 10;
  simulation_distance = pos 10;
}

abbrev playing : PlayStateMachine
playing = record {
  phase = active;
  config = server_config;
  last_keep_alive_payload = none;
  player_x = 0;
  player_y = 0;
  player_z = 0;
  player_yaw = 0;
  player_pitch = 0;
}

abbrev gone : PlayStateMachine
gone = record playing { phase = disconnected }

run-disconnected_example :
    IsRefused (run gone (turned 1 2 ∷ [])) (moved 1 2 3) × (run gone (turned 1 2 ∷ []) ≡ gone)
run-disconnected_example = run-disconnected gone (turned 1 2 ∷ []) (moved 1 2 3) refl

run-IsLater_example : IsLater playing (run playing (keep_alive_sent (pos 7) ∷ kicked [] ∷ []))
run-IsLater_example = run-IsLater playing (keep_alive_sent (pos 7) ∷ kicked [] ∷ [])

other_payload : pos 7 ≢ pos 8
other_payload e = ground arith

keep_alive-AnsweredOnce_example :
    AnsweredOnce (pos 7) (pos 8) (run playing (keep_alive_sent (pos 7) ∷ moved 1 2 3 ∷ []))
keep_alive-AnsweredOnce_example =
    keep_alive-AnsweredOnce (pos 7) (pos 8) playing (moved 1 2 3 ∷ []) other_payload refl (refl, tt)

-- A zlib that packs everything into one byte, and a packet above the limit.
abbrev tiny : Zlib
tiny = record { deflate = λ bytes. some (1 ∷ []); inflate = λ bytes. none }

sized_payload : (n : ℕ) → (payload : List ℕ) × (length payload ≡ n)
sized_payload n = (replicate n 0, length-replicate n 0)

abbrev large_payload : List ℕ
large_payload = (sized_payload 2097151).0

length-large_payload : length large_payload ≡ 2097151
length-large_payload = (sized_payload 2097151).1

length-large_packet : length (packet_bytes (pos 5) large_payload) ≡ 2097152
unfolding encode_var_int encode_groups as_unsigned lt_wf dec_lt
length-large_packet = omega (arith, length-large_payload)

tiny_body :
    length (encode_var_int (pos (length (packet_bytes (pos 5) large_payload))) [] ++ (1 ∷ []))
    ≤ effective_max_length 100
tiny_body =
    rw length-large_packet
      (unfold encode_var_int encode_groups as_unsigned lt_wf dec_lt in omega arith)

oversized_packet_refused_example :
    (wire : List ℕ) × (encode_compressed_frame tiny (pos 5) large_payload (pos 256) 100 []
      ≡ ok tt wire)
    × (decode_compressed_frame tiny (pos 256) 100 wire
        ≡ err
            (decompressed_too_large
              (length (packet_bytes (pos 5) large_payload))
              max_decompressed_size)
            wire)
oversized_packet_refused_example =
    oversized_packet_refused tiny (pos 5) large_payload (1 ∷ []) 256 100
      (omega (arith, length-large_packet)) (omega (arith, length-large_packet))
      (omega (arith, length-large_packet)) refl tiny_body
