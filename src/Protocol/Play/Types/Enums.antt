-- ===== src/Protocol/Play/Types/Enums.antt =====
-- play.rs: the enumerations of the packets, and their numbers on the wire.
use rustbound_server.Prelude.{ℕ, ◌≡◌, refl, ◌==◌, if◌then◌else◌, Option, none, some}
use rustbound_server.Prelude.Int.{ℤ, pos, eqb_ℤ}

pub data GameMode : Type 0 where
  survival creative adventure spectator : GameMode

unfoldable pub game_mode_to_wire : GameMode → ℕ
game_mode_to_wire survival = 0
game_mode_to_wire creative = 1
game_mode_to_wire adventure = 2
game_mode_to_wire spectator = 3

unfoldable pub game_mode_from_wire : ℕ → Option GameMode
game_mode_from_wire value =
    if value == 0
    then some survival
    else if value == 1
    then some creative
    else if value == 2
    then some adventure
    else if value == 3
    then some spectator
    else none

pub game_mode_from_wire-to_wire :
    (value : GameMode) → game_mode_from_wire (game_mode_to_wire value) ≡ some value
unfolding game_mode_from_wire game_mode_to_wire
game_mode_from_wire-to_wire survival = refl
game_mode_from_wire-to_wire creative = refl
game_mode_from_wire-to_wire adventure = refl
game_mode_from_wire-to_wire spectator = refl

pub data ChatMode : Type 0 where
  full system hidden : ChatMode

unfoldable pub chat_mode_to_wire : ChatMode → ℤ
chat_mode_to_wire full = pos 0
chat_mode_to_wire system = pos 1
chat_mode_to_wire hidden = pos 2

unfoldable pub chat_mode_from_wire : ℤ → Option ChatMode
chat_mode_from_wire value =
    if eqb_ℤ value (pos 0)
    then some full
    else if eqb_ℤ value (pos 1)
    then some system
    else if eqb_ℤ value (pos 2)
    then some hidden
    else none

pub chat_mode_from_wire-to_wire :
    (value : ChatMode) → chat_mode_from_wire (chat_mode_to_wire value) ≡ some value
unfolding chat_mode_from_wire chat_mode_to_wire
chat_mode_from_wire-to_wire full = refl
chat_mode_from_wire-to_wire system = refl
chat_mode_from_wire-to_wire hidden = refl

pub data MainHand : Type 0 where
  left right : MainHand

unfoldable pub main_hand_to_wire : MainHand → ℤ
main_hand_to_wire left = pos 0
main_hand_to_wire right = pos 1

unfoldable pub main_hand_from_wire : ℤ → Option MainHand
main_hand_from_wire value =
    if eqb_ℤ value (pos 0) then some left else if eqb_ℤ value (pos 1) then some right else none

pub main_hand_from_wire-to_wire :
    (value : MainHand) → main_hand_from_wire (main_hand_to_wire value) ≡ some value
unfolding main_hand_from_wire main_hand_to_wire
main_hand_from_wire-to_wire left = refl
main_hand_from_wire-to_wire right = refl

pub data PlayerDiggingAction : Type 0 where
  start_destroy abort_destroy stop_destroy drop_all_items drop_item shoot_arrow_or_finish_eating
        swap_item_in_hand :
      PlayerDiggingAction

unfoldable pub player_digging_action_to_wire : PlayerDiggingAction → ℤ
player_digging_action_to_wire start_destroy = pos 0
player_digging_action_to_wire abort_destroy = pos 1
player_digging_action_to_wire stop_destroy = pos 2
player_digging_action_to_wire drop_all_items = pos 3
player_digging_action_to_wire drop_item = pos 4
player_digging_action_to_wire shoot_arrow_or_finish_eating = pos 5
player_digging_action_to_wire swap_item_in_hand = pos 6

unfoldable pub player_digging_action_from_wire : ℤ → Option PlayerDiggingAction
player_digging_action_from_wire value =
    if eqb_ℤ value (pos 0)
    then some start_destroy
    else if eqb_ℤ value (pos 1)
    then some abort_destroy
    else if eqb_ℤ value (pos 2)
    then some stop_destroy
    else if eqb_ℤ value (pos 3)
    then some drop_all_items
    else if eqb_ℤ value (pos 4)
    then some drop_item
    else if eqb_ℤ value (pos 5)
    then some shoot_arrow_or_finish_eating
    else if eqb_ℤ value (pos 6)
    then some swap_item_in_hand
    else none

pub player_digging_action_from_wire-to_wire :
    (value : PlayerDiggingAction)
    → player_digging_action_from_wire (player_digging_action_to_wire value) ≡ some value
unfolding player_digging_action_from_wire player_digging_action_to_wire
player_digging_action_from_wire-to_wire start_destroy = refl
player_digging_action_from_wire-to_wire abort_destroy = refl
player_digging_action_from_wire-to_wire stop_destroy = refl
player_digging_action_from_wire-to_wire drop_all_items = refl
player_digging_action_from_wire-to_wire drop_item = refl
player_digging_action_from_wire-to_wire shoot_arrow_or_finish_eating = refl
player_digging_action_from_wire-to_wire swap_item_in_hand = refl
