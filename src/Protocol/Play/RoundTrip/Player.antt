-- ===== src/Protocol/Play/RoundTrip/Player.antt =====
-- What each packet of Codec.Player writes, its decoder reads back.
use rustbound_server.Prelude.{◌<◌, ◌≡◌, ◌^◌, true}
use rustbound_server.Prelude.Words.{IsI32}
use rustbound_server.Protocol.Primitives.Text.{is_utf8, max_chat_component_length}
use rustbound_server.Protocol.Play.RoundTrip.{Sends, then-Sends, last-Sends}
use rustbound_server.Protocol.Play.RoundTrip.Fields.{
  f32-Sends, bool-Sends, u8-Sends, var_int-Sends, string-Sends, string_codec-Sends, chat_mode-Sends,
  main_hand-Sends,
}
use rustbound_server.Protocol.Play.Types.{
  PlayerAbilities, GameEvent, CombatDeath, SetHealth, DisconnectPlay, ChangeDifficulty,
  ClientInformation, SetHeldItem, disconnect_play, client_information, change_difficulty,
  player_abilities, set_held_item, game_event, combat_death, set_health,
}
use rustbound_server.Protocol.Play.Codec.Player.{
  disconnect_play_body, disconnect_play_fields, client_information_body, client_information_fields,
  change_difficulty_body, change_difficulty_fields, player_abilities_body, player_abilities_fields,
  set_held_item_body, set_held_item_fields, game_event_body, game_event_fields, set_health_body,
  set_health_fields, combat_death_body, combat_death_fields,
}

pub record IsDisconnectPlay (packet : DisconnectPlay) : Type 0 where
  pub reason : is_utf8 packet.reason ≡ true

pub disconnect_play-Sends :
    (packet : DisconnectPlay)
    → IsDisconnectPlay packet
    → Sends (disconnect_play_body packet) disconnect_play_fields (disconnect_play packet)
unfolding disconnect_play_body disconnect_play_fields
disconnect_play-Sends packet h =
    last-Sends _ (string-Sends packet.reason max_chat_component_length h.reason)

pub record IsClientInformation (packet : ClientInformation) : Type 0 where
  pub locale : is_utf8 packet.locale ≡ true

pub client_information-Sends :
    (packet : ClientInformation)
    → IsClientInformation packet
    → Sends (client_information_body packet) client_information_fields (client_information packet)
unfolding client_information_body client_information_fields
client_information-Sends packet h =
    then-Sends _ (string-Sends packet.locale max_chat_component_length h.locale) (
      then-Sends _ (u8-Sends packet.view_distance) (
        then-Sends _ (chat_mode-Sends packet.chat_mode) (
          then-Sends _ (bool-Sends packet.chat_colors) (
            then-Sends _ (u8-Sends packet.displayed_skin_parts) (
              then-Sends _ (main_hand-Sends packet.main_hand) (
                then-Sends _ (bool-Sends packet.enable_text_filtering)
                  (last-Sends _ (bool-Sends packet.allow_server_listings))))))))

pub change_difficulty-Sends :
    (packet : ChangeDifficulty)
    → Sends (change_difficulty_body packet) change_difficulty_fields (change_difficulty packet)
unfolding change_difficulty_body change_difficulty_fields
change_difficulty-Sends packet =
    then-Sends _ (u8-Sends packet.difficulty) (last-Sends _ (bool-Sends packet.locked))

pub record IsPlayerAbilities (packet : PlayerAbilities) : Type 0 where
  pub flying_speed : packet.flying_speed < 2 ^ 32
  pub fov_modifier : packet.fov_modifier < 2 ^ 32

pub player_abilities-Sends :
    (packet : PlayerAbilities)
    → IsPlayerAbilities packet
    → Sends (player_abilities_body packet) player_abilities_fields (player_abilities packet)
unfolding player_abilities_body player_abilities_fields
player_abilities-Sends packet h = then-Sends _ (u8-Sends packet.flags) (
    then-Sends _ (f32-Sends packet.flying_speed h.flying_speed)
      (last-Sends _ (f32-Sends packet.fov_modifier h.fov_modifier)))

pub set_held_item-Sends :
    (packet : SetHeldItem)
    → Sends (set_held_item_body packet) set_held_item_fields (set_held_item packet)
unfolding set_held_item_body set_held_item_fields
set_held_item-Sends packet = last-Sends _ (u8-Sends packet.slot)

pub record IsGameEvent (packet : GameEvent) : Type 0 where
  pub value : packet.value < 2 ^ 32

pub game_event-Sends :
    (packet : GameEvent)
    → IsGameEvent packet
    → Sends (game_event_body packet) game_event_fields (game_event packet)
unfolding game_event_body game_event_fields
game_event-Sends packet h =
    then-Sends _ (u8-Sends packet.event_type) (last-Sends _ (f32-Sends packet.value h.value))

pub record IsSetHealth (packet : SetHealth) : Type 0 where
  pub health : packet.health < 2 ^ 32
  pub food : IsI32 packet.food
  pub food_saturation : packet.food_saturation < 2 ^ 32

pub set_health-Sends :
    (packet : SetHealth)
    → IsSetHealth packet
    → Sends (set_health_body packet) set_health_fields (set_health packet)
unfolding set_health_body set_health_fields
set_health-Sends packet h = then-Sends _ (f32-Sends packet.health h.health) (
    then-Sends _ (var_int-Sends packet.food h.food)
      (last-Sends _ (f32-Sends packet.food_saturation h.food_saturation)))

pub record IsCombatDeath (packet : CombatDeath) : Type 0 where
  pub player_id : IsI32 packet.player_id
  pub message : is_utf8 packet.message ≡ true

pub combat_death-Sends :
    (packet : CombatDeath)
    → IsCombatDeath packet
    → Sends (combat_death_body packet) combat_death_fields (combat_death packet)
unfolding combat_death_body combat_death_fields
combat_death-Sends packet h =
    then-Sends _ (var_int-Sends packet.player_id h.player_id)
      (last-Sends _ (string_codec-Sends packet.message 32767 h.message))
