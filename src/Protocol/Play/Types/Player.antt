-- ===== src/Protocol/Play/Types/Player.antt =====
-- play.rs: the packets about one player. A float is its bit pattern, a string its UTF-8 bytes.
use rustbound_server.Prelude.{ℕ, Bool, List, Option}
use rustbound_server.Prelude.Int.{ℤ}
use rustbound_server.Protocol.Play.Types.Enums.{GameMode, ChatMode, MainHand}

pub record JoinGame : Type 0 where
  pub entity_id : ℤ
  pub is_hardcore : Bool
  pub gamemode : GameMode
  pub previous_gamemode : Option GameMode
  pub dimension_names : List (List ℕ)
  pub registry_codec : List ℕ
  pub dimension_type : List ℕ
  pub dimension_name : List ℕ
  pub hashed_seed : ℤ
  pub max_players : ℤ
  pub view_distance : ℤ
  pub simulation_distance : ℤ
  pub reduce_debug_info : Bool
  pub enable_respawn_screen : Bool
  pub is_debug : Bool
  pub is_flat : Bool
  pub has_death_location : Bool
  pub death_dimension_name : List ℕ
  pub death_location : ℤ × ℤ × ℤ
  pub portal_cooldown : ℤ

pub record KeepAlive : Type 0 where
  pub payload : ℤ

pub record SetPlayerPosition : Type 0 where
  pub x : ℕ
  pub y : ℕ
  pub z : ℕ
  pub on_ground : Bool

pub record SetPlayerPositionAndRotation : Type 0 where
  pub x : ℕ
  pub y : ℕ
  pub z : ℕ
  pub yaw : ℕ
  pub pitch : ℕ
  pub on_ground : Bool

pub record SetPlayerRotation : Type 0 where
  pub yaw : ℕ
  pub pitch : ℕ
  pub on_ground : Bool

pub record SynchronizePlayerPosition : Type 0 where
  pub x : ℕ
  pub y : ℕ
  pub z : ℕ
  pub yaw : ℕ
  pub pitch : ℕ
  pub flags : ℤ
  pub teleport_id : ℤ

pub record DisconnectPlay : Type 0 where
  pub reason : List ℕ

pub record ConfirmTeleportation : Type 0 where
  pub teleport_id : ℤ

pub record ClientInformation : Type 0 where
  pub locale : List ℕ
  pub view_distance : ℕ
  pub chat_mode : ChatMode
  pub chat_colors : Bool
  pub displayed_skin_parts : ℕ
  pub main_hand : MainHand
  pub enable_text_filtering : Bool
  pub allow_server_listings : Bool

pub record PluginMessageClientbound : Type 0 where
  pub channel : List ℕ
  pub payload : List ℕ

pub record ChangeDifficulty : Type 0 where
  pub difficulty : ℕ
  pub locked : Bool

pub record PlayerAbilities : Type 0 where
  pub flags : ℕ
  pub flying_speed : ℕ
  pub fov_modifier : ℕ

pub record SetHeldItem : Type 0 where
  pub slot : ℕ

pub record GameEvent : Type 0 where
  pub event_type : ℕ
  pub value : ℕ

pub record CombatDeath : Type 0 where
  pub player_id : ℤ
  pub message : List ℕ

pub record SetHealth : Type 0 where
  pub health : ℕ
  pub food : ℤ
  pub food_saturation : ℕ

pub record Respawn : Type 0 where
  pub dimension_type : List ℕ
  pub dimension_name : List ℕ
  pub hashed_seed : ℤ
  pub gamemode : ℕ
  pub previous_gamemode : ℤ
  pub is_debug : Bool
  pub is_flat : Bool
  pub has_death_location : Bool
  pub death_dimension_name : List ℕ
  pub death_location : ℤ × ℤ × ℤ
  pub portal_cooldown : ℤ
  pub data_kept : ℕ

pub record ClientStatus : Type 0 where
  pub action : ℤ

pub record ChatMessageServerbound : Type 0 where
  pub message : List ℕ

pub record SystemChatMessage : Type 0 where
  pub content : List ℕ
  pub overlay : Bool
