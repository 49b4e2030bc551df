-- ===== src/Protocol/Play/Codec/Player.antt =====
-- play.rs: the session of one player: settings, abilities, health, and the end of a session.
use rustbound_server.Prelude.{ℕ}
use rustbound_server.Prelude.Int.{ℤ, pos}
use rustbound_server.Prelude.Buffer.{Action, write, done, with_body, ◌>>=◌, ◌>>◌}
use rustbound_server.Protocol.Primitives.VarInt.{encode_var_int, decode_var_int}
use rustbound_server.Protocol.Primitives.Fixed.{
  encode_f32, decode_f32, encode_bool, decode_bool, encode_u8, decode_u8,
}
use rustbound_server.Protocol.Primitives.Text.{decode_string, max_chat_component_length}
use rustbound_server.Protocol.Play.{PlayError}
use rustbound_server.Protocol.Play.Frame.{
  decode_play, send_play, get, put_string, put_string_codec, chat_mode_field, main_hand_field,
}
use rustbound_server.Protocol.Play.Types.{
  PlayDecodeOutcome, PlayerAbilities, GameEvent, CombatDeath, SetHealth, DisconnectPlay,
  ChangeDifficulty, ClientInformation, PlayPacket, SetHeldItem, disconnect_play, client_information,
  change_difficulty, player_abilities, set_held_item, game_event, combat_death, set_health,
  chat_mode_to_wire, main_hand_to_wire,
}

abbrev pub disconnect_play_packet_id : ℤ
disconnect_play_packet_id = pos 0x1a

unfoldable pub disconnect_play_body : DisconnectPlay → Action PlayError (Unit {0})
disconnect_play_body packet = put_string packet.reason max_chat_component_length

unfoldable pub encode_disconnect_play : DisconnectPlay → ℕ → Action PlayError (Unit {0})
unfolding disconnect_play_body
encode_disconnect_play packet max_frame_length =
    with_body (disconnect_play_body packet) (send_play disconnect_play_packet_id max_frame_length)

unfoldable pub disconnect_play_fields : Action PlayError PlayPacket
disconnect_play_fields = do
  reason ← get (decode_string max_chat_component_length)
  done (disconnect_play (record { reason = reason }))

unfoldable pub decode_disconnect_play : ℕ → Action PlayError PlayDecodeOutcome
unfolding disconnect_play_fields
decode_disconnect_play = decode_play disconnect_play_packet_id disconnect_play_fields

abbrev pub client_information_packet_id : ℤ
client_information_packet_id = pos 0x08

unfoldable pub client_information_body : ClientInformation → Action PlayError (Unit {0})
client_information_body packet = do
  put_string packet.locale max_chat_component_length
  write (encode_u8 packet.view_distance)
  write (encode_var_int (chat_mode_to_wire packet.chat_mode))
  write (encode_bool packet.chat_colors)
  write (encode_u8 packet.displayed_skin_parts)
  write (encode_var_int (main_hand_to_wire packet.main_hand))
  write (encode_bool packet.enable_text_filtering)
  write (encode_bool packet.allow_server_listings)

unfoldable pub encode_client_information : ClientInformation → ℕ → Action PlayError (Unit {0})
unfolding client_information_body
encode_client_information packet max_frame_length =
    with_body (client_information_body packet)
      (send_play client_information_packet_id max_frame_length)

unfoldable pub client_information_fields : Action PlayError PlayPacket
client_information_fields = do
  locale ← get (decode_string max_chat_component_length)
  view_distance ← get decode_u8
  chat_mode ← chat_mode_field
  chat_colors ← get decode_bool
  displayed_skin_parts ← get decode_u8
  main_hand ← main_hand_field
  enable_text_filtering ← get decode_bool
  allow_server_listings ← get decode_bool
  done (
      client_information (record {
        locale = locale;
        view_distance = view_distance;
        chat_mode = chat_mode;
        chat_colors = chat_colors;
        displayed_skin_parts = displayed_skin_parts;
        main_hand = main_hand;
        enable_text_filtering = enable_text_filtering;
        allow_server_listings = allow_server_listings;
      }))

unfoldable pub decode_client_information : ℕ → Action PlayError PlayDecodeOutcome
unfolding client_information_fields
decode_client_information = decode_play client_information_packet_id client_information_fields

abbrev pub change_difficulty_packet_id : ℤ
change_difficulty_packet_id = pos 0x0C

unfoldable pub change_difficulty_body : ChangeDifficulty → Action PlayError (Unit {0})
change_difficulty_body packet = do
  write (encode_u8 packet.difficulty)
  write (encode_bool packet.locked)

unfoldable pub encode_change_difficulty : ChangeDifficulty → ℕ → Action PlayError (Unit {0})
unfolding change_difficulty_body
encode_change_difficulty packet max_frame_length =
    with_body (change_difficulty_body packet)
      (send_play change_difficulty_packet_id max_frame_length)

unfoldable pub change_difficulty_fields : Action PlayError PlayPacket
change_difficulty_fields = do
  difficulty ← get decode_u8
  locked ← get decode_bool
  done (change_difficulty (record { difficulty = difficulty; locked = locked }))

unfoldable pub decode_change_difficulty : ℕ → Action PlayError PlayDecodeOutcome
unfolding change_difficulty_fields
decode_change_difficulty = decode_play change_difficulty_packet_id change_difficulty_fields

abbrev pub player_abilities_packet_id : ℤ
player_abilities_packet_id = pos 0x34

unfoldable pub player_abilities_body : PlayerAbilities → Action PlayError (Unit {0})
player_abilities_body packet = do
  write (encode_u8 packet.flags)
  write (encode_f32 packet.flying_speed)
  write (encode_f32 packet.fov_modifier)

unfoldable pub encode_player_abilities : PlayerAbilities → ℕ → Action PlayError (Unit {0})
unfolding player_abilities_body
encode_player_abilities packet max_frame_length =
    with_body (player_abilities_body packet) (send_play player_abilities_packet_id max_frame_length)

unfoldable pub player_abilities_fields : Action PlayError PlayPacket
player_abilities_fields = do
  flags ← get decode_u8
  flying_speed ← get decode_f32
  fov_modifier ← get decode_f32
  done (
      player_abilities
        (record { flags = flags; flying_speed = flying_speed; fov_modifier = fov_modifier }))

unfoldable pub decode_player_abilities : ℕ → Action PlayError PlayDecodeOutcome
unfolding player_abilities_fields
decode_player_abilities = decode_play player_abilities_packet_id player_abilities_fields

abbrev pub set_held_item_packet_id : ℤ
set_held_item_packet_id = pos 0x4D

unfoldable pub set_held_item_body : SetHeldItem → Action PlayError (Unit {0})
set_held_item_body packet = write (encode_u8 packet.slot)

unfoldable pub encode_set_held_item : SetHeldItem → ℕ → Action PlayError (Unit {0})
unfolding set_held_item_body
encode_set_held_item packet max_frame_length =
    with_body (set_held_item_body packet) (send_play set_held_item_packet_id max_frame_length)

unfoldable pub set_held_item_fields : Action PlayError PlayPacket
set_held_item_fields = do slot ← get decode_u8; done (set_held_item (record { slot = slot }))

unfoldable pub decode_set_held_item : ℕ → Action PlayError PlayDecodeOutcome
unfolding set_held_item_fields
decode_set_held_item = decode_play set_held_item_packet_id set_held_item_fields

abbrev pub game_event_packet_id : ℤ
game_event_packet_id = pos 0x1F

unfoldable pub game_event_body : GameEvent → Action PlayError (Unit {0})
game_event_body packet = do write (encode_u8 packet.event_type); write (encode_f32 packet.value)

unfoldable pub encode_game_event : GameEvent → ℕ → Action PlayError (Unit {0})
unfolding game_event_body
encode_game_event packet max_frame_length =
    with_body (game_event_body packet) (send_play game_event_packet_id max_frame_length)

unfoldable pub game_event_fields : Action PlayError PlayPacket
game_event_fields = do
  event_type ← get decode_u8
  value ← get decode_f32
  done (game_event (record { event_type = event_type; value = value }))

unfoldable pub decode_game_event : ℕ → Action PlayError PlayDecodeOutcome
unfolding game_event_fields
decode_game_event = decode_play game_event_packet_id game_event_fields

abbrev pub set_health_packet_id : ℤ
set_health_packet_id = pos 0x57

unfoldable pub set_health_body : SetHealth → Action PlayError (Unit {0})
set_health_body packet = do
  write (encode_f32 packet.health)
  write (encode_var_int packet.food)
  write (encode_f32 packet.food_saturation)

unfoldable pub encode_set_health : SetHealth → ℕ → Action PlayError (Unit {0})
unfolding set_health_body
encode_set_health packet max_frame_length =
    with_body (set_health_body packet) (send_play set_health_packet_id max_frame_length)

unfoldable pub set_health_fields : Action PlayError PlayPacket
set_health_fields = do
  health ← get decode_f32
  food ← get decode_var_int
  food_saturation ← get decode_f32
  done (set_health (record { health = health; food = food; food_saturation = food_saturation }))

unfoldable pub decode_set_health : ℕ → Action PlayError PlayDecodeOutcome
unfolding set_health_fields
decode_set_health = decode_play set_health_packet_id set_health_fields

abbrev pub combat_death_packet_id : ℤ
combat_death_packet_id = pos 0x38

unfoldable pub combat_death_body : CombatDeath → Action PlayError (Unit {0})
combat_death_body packet = do
  write (encode_var_int packet.player_id)
  put_string_codec packet.message 32767

unfoldable pub encode_combat_death : CombatDeath → ℕ → Action PlayError (Unit {0})
unfolding combat_death_body
encode_combat_death packet max_frame_length =
    with_body (combat_death_body packet) (send_play combat_death_packet_id max_frame_length)

unfoldable pub combat_death_fields : Action PlayError PlayPacket
combat_death_fields = do
  player_id ← get decode_var_int
  message ← get (decode_string 32767)
  done (combat_death (record { player_id = player_id; message = message }))

unfoldable pub decode_combat_death : ℕ → Action PlayError PlayDecodeOutcome
unfolding combat_death_fields
decode_combat_death = decode_play combat_death_packet_id combat_death_fields
