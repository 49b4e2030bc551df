-- ===== src/Protocol/Play/Machine.antt =====
-- crates/rustbound-protocol/src/play_state_machine.rs: the play flow over buffers. A call returns its
-- result and the machine as it leaves it. The registry codec, the bytes of registry_codec.rs, is a
-- parameter of `new`; a float is its bit pattern.
pub mod Runs
pub mod Answers
pub mod Start
use Prim.Native.String.{String}
use rustbound_server.Prelude.{
  ℕ, List, [], ◌∷◌, Bool, true, false, Option, none, some, if◌then◌else◌,
}
use rustbound_server.Prelude.Int.{ℤ, pos, eqb_ℤ}
use rustbound_server.Prelude.Buffer.{Outcome, ok, err, Result, success, failure}
use rustbound_server.Protocol.Primitives.Fixed.{Uuid}
use rustbound_server.Protocol.State.{ProtocolState}
use rustbound_server.Protocol.Play.{PlayError}
use rustbound_server.Protocol.Play.Types.{
  GameMode, JoinGame, SynchronizePlayerPosition, KeepAlive, DisconnectPlay,
}
use rustbound_server.Protocol.Play.Codec.Join.{encode_join_game}
use rustbound_server.Protocol.Play.Codec.Movement.{encode_synchronize_player_position}
use rustbound_server.Protocol.Play.Codec.Session.{encode_keep_alive_clientbound}
use rustbound_server.Protocol.Play.Codec.Player.{encode_disconnect_play}

pub data PlayPhase : Type 0 where
  awaiting_teleport_confirm active disconnected : PlayPhase

pub data PlayStepResult : Type 0 where
  continue : List (List ℕ) → PlayPhase → PlayStepResult
  disconnect_with : List ℕ → ProtocolState → PlayStepResult

-- `custom` carries the two numbers that the text of the error shows.
pub data PlayStateMachineError : Type 0 where
  play : PlayError → PlayStateMachineError
  terminal : PlayStateMachineError
  unexpected_event : PlayPhase → String → PlayStateMachineError
  custom : ℤ → ℤ → PlayStateMachineError

pub record PlayConfig : Type 0 where
  pub max_frame_length : ℕ
  pub entity_id : ℤ
  pub gamemode : GameMode
  pub username : List ℕ
  pub uuid : Uuid
  pub dimension_name : List ℕ
  pub hashed_seed : ℤ
  pub max_players : ℤ
  pub view_distance : ℤ
  pub simulation_distance : ℤ

pub record PlayStateMachine : Type 0 where
  pub phase : PlayPhase
  pub config : PlayConfig
  pub last_keep_alive_payload : Option ℤ
  pub player_x : ℕ
  pub player_y : ℕ
  pub player_z : ℕ
  pub player_yaw : ℕ
  pub player_pitch : ℕ

-- The result of a call, and the machine behind it.
abbrev pub Call : Type 0 → Type 0
Call A = Result PlayStateMachineError A × PlayStateMachine

-- 64.0 as a double.
abbrev pub spawn_height : ℕ
spawn_height = 0x4050_0000_0000_0000

unfoldable pub first_join_game : List ℕ → PlayConfig → JoinGame
first_join_game registry_codec config = record {
  entity_id = config.entity_id;
  is_hardcore = false;
  gamemode = config.gamemode;
  previous_gamemode = none;
  dimension_names = config.dimension_name ∷ [];
  registry_codec = registry_codec;
  dimension_type = config.dimension_name;
  dimension_name = config.dimension_name;
  hashed_seed = config.hashed_seed;
  max_players = config.max_players;
  view_distance = config.view_distance;
  simulation_distance = config.simulation_distance;
  reduce_debug_info = false;
  enable_respawn_screen = true;
  is_debug = false;
  is_flat = false;
  has_death_location = false;
  death_dimension_name = [];
  death_location = (pos 0, pos 0, pos 0);
  portal_cooldown = pos 0;
}

unfoldable pub first_position : SynchronizePlayerPosition
first_position = record {
  x = 0;
  y = spawn_height;
  z = 0;
  yaw = 0;
  pitch = 0;
  flags = pos 0;
  teleport_id = pos 0;
}

unfoldable pub spawned : PlayConfig → PlayStateMachine
spawned config = record {
  phase = awaiting_teleport_confirm;
  config = config;
  last_keep_alive_payload = none;
  player_x = 0;
  player_y = spawn_height;
  player_z = 0;
  player_yaw = 0;
  player_pitch = 0;
}

-- The machine and the two packets that go out with it.
unfoldable pub new :
    List ℕ → PlayConfig → Result PlayStateMachineError (PlayStateMachine × List (List ℕ))
unfolding first_join_game first_position spawned
new registry_codec config =
    elim (encode_join_game (first_join_game registry_codec config) config.max_frame_length []) [
      | err e _ ↦ failure (play e)
      | ok _ join_wire ↦
          elim (encode_synchronize_player_position first_position config.max_frame_length []) [
            | err e _ ↦ failure (play e)
            | ok _ sync_wire ↦ success (spawned config, join_wire ∷ sync_wire ∷ [])
          ]
    ]

abbrev pub is_disconnected : PlayPhase → Bool
is_disconnected disconnected = true
is_disconnected _ = false

-- `if self.phase == PlayPhase::Disconnected { return Err(Terminal) }`.
abbrev pub unless_terminal : {A : Type 0} → PlayStateMachine → Call A → Call A
unless_terminal self call = if is_disconnected self.phase then (failure terminal, self) else call

-- The wire of an encoder, whose failure is the call's.
abbrev pub sent :
    {A : Type 0} → (List ℕ → A) → Outcome PlayError (Unit {0}) → Result PlayStateMachineError A
sent f (ok _ wire) = success (f wire)
sent f (err e _) = failure (play e)

-- The payload is stored before the packet is encoded.
unfoldable pub send_keep_alive : ℤ → PlayStateMachine → Call (List ℕ)
send_keep_alive payload self = unless_terminal self (
  sent (λ wire. wire)
      (encode_keep_alive_clientbound (record { payload = payload }) self.config.max_frame_length
        []),
  record self { last_keep_alive_payload = some payload },
)

unfoldable pub answer : Option ℤ → ℤ → PlayStateMachine → Call (Unit {0})
answer (some expected) payload self =
    if eqb_ℤ expected payload
    then (success tt, record self { last_keep_alive_payload = none })
    else (failure (custom expected payload), self)
answer none payload self = (failure (unexpected_event self.phase "no pending keep alive"), self)

unfoldable pub handle_keep_alive_response : ℤ → PlayStateMachine → Call (Unit {0})
unfolding answer
handle_keep_alive_response payload self =
    unless_terminal self (answer self.last_keep_alive_payload payload self)

unfoldable pub handle_player_position : ℕ → ℕ → ℕ → PlayStateMachine → Call (Unit {0})
handle_player_position x y z self =
    unless_terminal self (success tt, record self { player_x = x; player_y = y; player_z = z })

unfoldable pub handle_player_position_and_rotation :
    ℕ → ℕ → ℕ → ℕ → ℕ → PlayStateMachine → Call (Unit {0})
handle_player_position_and_rotation x y z yaw pitch self = unless_terminal self (
  success tt,
  record self { player_x = x; player_y = y; player_z = z; player_yaw = yaw; player_pitch = pitch },
)

unfoldable pub handle_player_rotation : ℕ → ℕ → PlayStateMachine → Call (Unit {0})
handle_player_rotation yaw pitch self =
    unless_terminal self (success tt, record self { player_yaw = yaw; player_pitch = pitch })

unfoldable pub confirmed : PlayPhase → PlayStateMachine → Call (Unit {0})
confirmed awaiting_teleport_confirm self = (success tt, record self { phase = active })
confirmed active self = (failure (unexpected_event active "teleport confirmation"), self)
confirmed disconnected self = (failure terminal, self)

unfoldable pub confirm_teleport : PlayStateMachine → Call (Unit {0})
unfolding confirmed
confirm_teleport self = confirmed self.phase self

unfoldable pub disconnected_by :
    PlayStateMachine → Outcome PlayError (Unit {0}) → Call PlayStepResult
disconnected_by self (ok _ wire) =
    (success (disconnect_with wire ProtocolState.closed), record self { phase = disconnected })
disconnected_by self (err e _) = (failure (play e), self)

unfoldable pub disconnect : List ℕ → PlayStateMachine → Call PlayStepResult
unfolding disconnected_by
disconnect reason self = unless_terminal self (
    disconnected_by self
      (encode_disconnect_play (record { reason = reason }) self.config.max_frame_length []))
