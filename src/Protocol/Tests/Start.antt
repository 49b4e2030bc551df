-- ===== src/Protocol/Tests/Start.antt =====
-- The packets of a new play state machine, written out.
use rustbound_server.Prelude.{none, false, true, ℕ, ◌≡◌, ◌++◌, refl, arith, List, [], ◌∷◌, dec_lt}
use rustbound_server.Prelude.Int.{pos}
use rustbound_server.Prelude.Order.{lt_wf}
use rustbound_server.Prelude.Words.{as_unsigned, checked_add, to_i32, to_be_bytes, to_le_bytes}
use rustbound_server.Prelude.Buffer.{ok, success}
use rustbound_server.Protocol.Primitives.Fixed.{
  encode_bool, encode_f32, encode_f64, encode_i32, encode_i64, encode_i8, encode_u8,
}
use rustbound_server.Protocol.Primitives.VarInt.{encode_var_int, encode_groups}
use rustbound_server.Protocol.Primitives.Text.{encode_string, utf16_units, is_utf8}
use rustbound_server.Protocol.Framing.{encode_frame, validated_frame_length, var_int_length}
use rustbound_server.Protocol.Play.Types.{
  PlayDecodeOutcome, survival, game_mode_to_wire, join_game, synchronize_player_position,
}
use rustbound_server.Protocol.Play.Frame.{put_each, put_death_location}
use rustbound_server.Protocol.Play.Codec.Join.{
  encode_join_game, join_game_body, previous_to_wire, put_bounded, put_bounded_count,
  decode_join_game,
}
use rustbound_server.Protocol.Play.Codec.Movement.{
  encode_synchronize_player_position, synchronize_player_position_body,
  decode_synchronize_player_position,
}
use rustbound_server.Protocol.Play.Machine.{
  PlayConfig, active, awaiting_teleport_confirm, confirm_teleport, first_join_game, first_position,
  spawned, new,
}
use rustbound_server.Protocol.Play.Machine.Start.{IsPlayConfig, new_session}
use rustbound_server.Protocol.Tests.Packets.{small_tree-IsCompound}

abbrev codec_bytes : List ℕ
codec_bytes = 10 ∷ 0 ∷ 0 ∷ 1 ∷ 0 ∷ 1 ∷ 0x61 ∷ 5 ∷ 0 ∷ []

abbrev server_config : PlayConfig
server_config = record {
  max_frame_length = 100;
  entity_id = pos 1;
  gamemode = survival;
  username = 0x61 ∷ [];
  uuid = record { most_significant = pos 0; least_significant = pos 0 };
  dimension_name = 0x61 ∷ [];
  hashed_seed = pos 0;
  max_players = pos 20;
  view_distance = pos 10;
  simulation_distance = pos 10;
}

server_config-IsPlayConfig : IsPlayConfig server_config
unfolding is_utf8
server_config-IsPlayConfig = record {
  entity_id = omega arith;
  dimension_name = refl;
  hashed_seed = omega arith;
  max_players = omega arith;
  view_distance = omega arith;
  simulation_distance = omega arith;
}

abbrev join_wire : List ℕ
join_wire =
    41 ∷ 40 ∷ 0 ∷ 0 ∷ 0 ∷ 1 ∷ 0 ∷ 0 ∷ 255 ∷ 1 ∷ 1 ∷ 97 ∷ 10 ∷ 0 ∷ 0 ∷ 1 ∷ 0 ∷ 1 ∷ 97 ∷ 5 ∷ 0 ∷ 1
    ∷ 97 ∷ 1 ∷ 97 ∷ 0 ∷ 0 ∷ 0 ∷ 0 ∷ 0 ∷ 0 ∷ 0 ∷ 0 ∷ 20 ∷ 10 ∷ 10 ∷ 0 ∷ 1 ∷ 0 ∷ 0 ∷ 0 ∷ 0 ∷ []

abbrev position_wire : List ℕ
position_wire =
    35 ∷ 60 ∷ 0 ∷ 0 ∷ 0 ∷ 0 ∷ 0 ∷ 0 ∷ 0 ∷ 0 ∷ 64 ∷ 80 ∷ 0 ∷ 0 ∷ 0 ∷ 0 ∷ 0 ∷ 0 ∷ 0 ∷ 0 ∷ 0 ∷ 0 ∷ 0
    ∷ 0 ∷ 0 ∷ 0 ∷ 0 ∷ 0 ∷ 0 ∷ 0 ∷ 0 ∷ 0 ∷ 0 ∷ 0 ∷ 0 ∷ 0 ∷ []

join_sent : encode_join_game (first_join_game codec_bytes server_config) 100 [] ≡ ok tt join_wire
unfolding encode_join_game join_game_body first_join_game encode_bool encode_i32 encode_i64
    encode_i8 encode_u8 encode_var_int encode_groups encode_string utf16_units encode_frame
    validated_frame_length var_int_length put_each put_death_location previous_to_wire put_bounded
    put_bounded_count checked_add to_i32 to_be_bytes to_le_bytes as_unsigned lt_wf dec_lt
    game_mode_to_wire
join_sent = refl

position_sent : encode_synchronize_player_position first_position 100 [] ≡ ok tt position_wire
unfolding encode_synchronize_player_position synchronize_player_position_body first_position
    encode_f64 encode_f32 encode_var_int encode_groups encode_frame validated_frame_length
    var_int_length checked_add to_i32 to_be_bytes to_le_bytes as_unsigned lt_wf dec_lt encode_i8
position_sent = refl

started :
    new codec_bytes server_config ≡ success (spawned server_config, join_wire ∷ position_wire ∷ [])
unfolding new
started = rw (new, join_sent, position_sent) refl

new_session_example :
    (joining : List ℕ) × (placing : List ℕ) × (join_wire ∷ position_wire ∷ []
      ≡ joining ∷ placing ∷ [])
    × (spawned server_config ≡ record {
      phase = awaiting_teleport_confirm;
      config = server_config;
      last_keep_alive_payload = none;
      player_x = 0;
      player_y = 0x4050_0000_0000_0000;
      player_z = 0;
      player_yaw = 0;
      player_pitch = 0;
    })
    × (confirm_teleport (spawned server_config)
        ≡ (success tt, record (spawned server_config) { phase = active }))
    × (decode_join_game 4 server_config.max_frame_length (joining ++ (placing ++ (9 ∷ [])))
        ≡ ok
            (PlayDecodeOutcome.complete (
              join_game (record {
                entity_id = server_config.entity_id;
                is_hardcore = false;
                gamemode = server_config.gamemode;
                previous_gamemode = none;
                dimension_names = server_config.dimension_name ∷ [];
                registry_codec = codec_bytes;
                dimension_type = server_config.dimension_name;
                dimension_name = server_config.dimension_name;
                hashed_seed = server_config.hashed_seed;
                max_players = server_config.max_players;
                view_distance = server_config.view_distance;
                simulation_distance = server_config.simulation_distance;
                reduce_debug_info = false;
                enable_respawn_screen = true;
                is_debug = false;
                is_flat = false;
                has_death_location = false;
                death_dimension_name = [];
                death_location = (pos 0, pos 0, pos 0);
                portal_cooldown = pos 0;
              })))
            (placing ++ (9 ∷ [])))
    × (decode_synchronize_player_position server_config.max_frame_length (placing ++ (9 ∷ []))
        ≡ ok
            (PlayDecodeOutcome.complete (
              synchronize_player_position (record {
                x = (spawned server_config).player_x;
                y = (spawned server_config).player_y;
                z = (spawned server_config).player_z;
                yaw = (spawned server_config).player_yaw;
                pitch = (spawned server_config).player_pitch;
                flags = pos 0;
                teleport_id = pos 0;
              })))
            (9 ∷ []))
new_session_example =
    new_session codec_bytes server_config (spawned server_config) (join_wire ∷ position_wire ∷ []) 4
      (9 ∷ []) small_tree-IsCompound server_config-IsPlayConfig started
