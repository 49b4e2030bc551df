-- ===== src/Protocol/Play/Codec/Join.antt =====
-- play.rs: Join Game, with its dimension names and its registry codec.
use rustbound_server.Prelude.{ℕ, ◌^◌, ◌++◌, List, length, Option, none, some, ltb, if◌then◌else◌}
use rustbound_server.Prelude.Int.{ℤ, pos, negsuc, eqb_ℤ}
use rustbound_server.Prelude.Words.{to_usize, to_i32, as_unsigned}
use rustbound_server.Prelude.Buffer.{Action, write, done, fail, with_body, ◌>>=◌, ◌>>◌}
use rustbound_server.Protocol.Primitives.{invalid_boolean, var_int_too_long, string_too_long}
use rustbound_server.Protocol.Primitives.VarInt.{encode_var_int, decode_var_int}
use rustbound_server.Protocol.Primitives.Fixed.{
  encode_i32, decode_i32, encode_i64, decode_i64, encode_bool, decode_bool, encode_i8, decode_i8,
  encode_u8, decode_u8,
}
use rustbound_server.Protocol.Primitives.Text.{decode_string}
use rustbound_server.Protocol.Play.{PlayError, codec}
use rustbound_server.Protocol.Play.Frame.{
  send_play, get, put_string, required, max_identifier_length, death_location_fields,
  put_death_location, decode_play_with, put_each,
}
use rustbound_server.Protocol.Play.Types.{
  GameMode, JoinGame, PlayDecodeOutcome, PlayPacket, join_game, game_mode_to_wire,
  game_mode_from_wire,
}
use rustbound_server.Protocol.Play.Nbt.{Fuelled, failed, read_nbt_compound}
use rustbound_server.Protocol.Play.Codec.Slots.{plain, nbt, get_each}

-- `map(|g| g.to_wire() as i8).unwrap_or(-1)`.
unfoldable pub previous_to_wire : Option GameMode → ℤ
previous_to_wire none = negsuc 0
previous_to_wire (some mode) = pos (game_mode_to_wire mode)

-- -1 is no game mode; any other byte goes through `as u8`.
unfoldable pub previous_from_wire : ℤ → Action PlayError (Option GameMode)
unfolding as_unsigned
previous_from_wire value =
    if eqb_ℤ value (negsuc 0)
    then done none
    else elim (game_mode_from_wire (as_unsigned (2 ^ 8) value)) [
      | none ↦ fail (codec invalid_boolean)
      | some mode ↦ done (some mode)
    ]

unfoldable pub game_mode_field : Action PlayError GameMode
game_mode_field = do byte ← get decode_u8; required (game_mode_from_wire byte)

unfoldable pub previous_game_mode_field : Action PlayError (Option GameMode)
unfolding previous_from_wire
previous_game_mode_field = do byte ← get decode_i8; previous_from_wire byte

abbrev pub max_dimension_names : ℕ
max_dimension_names = 256

abbrev pub max_registry_codec_size : ℕ
max_registry_codec_size = 1048576

-- The count goes through `i32::try_from` before it is compared with the maximum.
unfoldable pub put_bounded_count : ℕ → ℕ → Action PlayError (Unit {0})
unfolding to_i32
put_bounded_count maximum n = elim (to_i32 n) [
  | none ↦ fail (codec var_int_too_long)
  | some count ↦
      if ltb maximum n then fail (codec string_too_long) else write (encode_var_int count)
]

unfoldable pub bounded_count : ℕ → ℤ → Action PlayError ℕ
unfolding to_usize
bounded_count maximum raw = elim (to_usize raw) [
  | none ↦ fail (codec var_int_too_long)
  | some n ↦ if ltb maximum n then fail (codec string_too_long) else done n
]

unfoldable pub bounded_count_field : ℕ → Action PlayError ℕ
unfolding bounded_count
bounded_count_field maximum = do raw ← get decode_var_int; bounded_count maximum raw

-- Raw bytes up to a size.
unfoldable pub put_bounded : ℕ → List ℕ → Action PlayError (Unit {0})
put_bounded maximum bytes =
    if ltb maximum (length bytes)
    then fail (codec string_too_long)
    else write (λ output. output ++ bytes)

unfoldable pub bounded : ℕ → List ℕ → Action PlayError (List ℕ)
bounded maximum bytes =
    if ltb maximum (length bytes) then fail (codec string_too_long) else done bytes

unfoldable pub nbt_bounded : ℕ → ℕ → Action (Fuelled PlayError) (List ℕ)
unfolding bounded
nbt_bounded fuel maximum = do bytes ← nbt (read_nbt_compound fuel); plain (bounded maximum bytes)

abbrev pub join_game_packet_id : ℤ
join_game_packet_id = pos 0x28

unfoldable pub join_game_body : JoinGame → Action PlayError (Unit {0})
join_game_body packet = do
  write (encode_i32 packet.entity_id)
  write (encode_bool packet.is_hardcore)
  write (encode_u8 (game_mode_to_wire packet.gamemode))
  write (encode_i8 (previous_to_wire packet.previous_gamemode))
  put_bounded_count max_dimension_names (length packet.dimension_names)
  put_each (λ name. put_string name max_identifier_length) packet.dimension_names
  put_bounded max_registry_codec_size packet.registry_codec
  put_string packet.dimension_type max_identifier_length
  put_string packet.dimension_name max_identifier_length
  write (encode_i64 packet.hashed_seed)
  write (encode_var_int packet.max_players)
  write (encode_var_int packet.view_distance)
  write (encode_var_int packet.simulation_distance)
  write (encode_bool packet.reduce_debug_info)
  write (encode_bool packet.enable_respawn_screen)
  write (encode_bool packet.is_debug)
  write (encode_bool packet.is_flat)
  write (encode_bool packet.has_death_location)
  put_death_location packet.has_death_location packet.death_dimension_name packet.death_location
      max_identifier_length
  write (encode_var_int packet.portal_cooldown)

unfoldable pub encode_join_game : JoinGame → ℕ → Action PlayError (Unit {0})
unfolding join_game_body
encode_join_game packet max_frame_length =
    with_body (join_game_body packet) (send_play join_game_packet_id max_frame_length)

unfoldable pub join_game_fields : ℕ → Action (Fuelled PlayError) PlayPacket
join_game_fields fuel = do
  entity_id ← plain (get decode_i32)
  is_hardcore ← plain (get decode_bool)
  gamemode ← plain game_mode_field
  previous_gamemode ← plain previous_game_mode_field
  n ← plain (bounded_count_field max_dimension_names)
  dimension_names ← get_each n (plain (get (decode_string max_identifier_length)))
  registry_codec ← nbt_bounded fuel max_registry_codec_size
  dimension_type ← plain (get (decode_string max_identifier_length))
  dimension_name ← plain (get (decode_string max_identifier_length))
  hashed_seed ← plain (get decode_i64)
  max_players ← plain (get decode_var_int)
  view_distance ← plain (get decode_var_int)
  simulation_distance ← plain (get decode_var_int)
  reduce_debug_info ← plain (get decode_bool)
  enable_respawn_screen ← plain (get decode_bool)
  is_debug ← plain (get decode_bool)
  is_flat ← plain (get decode_bool)
  has_death_location ← plain (get decode_bool)
  death ← plain (death_location_fields has_death_location max_identifier_length)
  portal_cooldown ← plain (get decode_var_int)
  done (
      join_game (record {
        entity_id = entity_id;
        is_hardcore = is_hardcore;
        gamemode = gamemode;
        previous_gamemode = previous_gamemode;
        dimension_names = dimension_names;
        registry_codec = registry_codec;
        dimension_type = dimension_type;
        dimension_name = dimension_name;
        hashed_seed = hashed_seed;
        max_players = max_players;
        view_distance = view_distance;
        simulation_distance = simulation_distance;
        reduce_debug_info = reduce_debug_info;
        enable_respawn_screen = enable_respawn_screen;
        is_debug = is_debug;
        is_flat = is_flat;
        has_death_location = has_death_location;
        death_dimension_name = death.0;
        death_location = death.1;
        portal_cooldown = portal_cooldown;
      }))

unfoldable pub decode_join_game : ℕ → ℕ → Action (Fuelled PlayError) PlayDecodeOutcome
unfolding join_game_fields
decode_join_game fuel = decode_play_with failed join_game_packet_id (join_game_fields fuel)
