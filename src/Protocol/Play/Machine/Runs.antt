-- ===== src/Protocol/Play/Machine/Runs.antt =====
-- Any sequence of calls on the play state machine.
use rustbound_server.Prelude.{
  ℕ, ◌≤◌, ◌≡◌, refl, ◌∙◌, inl, inr, arith, Bool-cases, List, [], ◌∷◌, Option, none, some,
}
use rustbound_server.Prelude.Int.{ℤ, eqb_ℤ}
use rustbound_server.Prelude.Buffer.{Outcome, ok, err, failure}
use rustbound_server.Protocol.Play.{PlayError}
use rustbound_server.Protocol.Play.Codec.Player.{encode_disconnect_play}
use rustbound_server.Protocol.Play.Machine.{
  PlayPhase, awaiting_teleport_confirm, active, disconnected, PlayStateMachine, terminal,
  send_keep_alive, answer, handle_keep_alive_response, handle_player_position,
  handle_player_position_and_rotation, handle_player_rotation, confirmed, confirm_teleport,
  disconnected_by, disconnect,
}

-- One call of the public interface.
pub data Event : Type 0 where
  keep_alive_sent keep_alive_answered : ℤ → Event
  moved : ℕ → ℕ → ℕ → Event
  moved_and_turned : ℕ → ℕ → ℕ → ℕ → ℕ → Event
  turned : ℕ → ℕ → Event
  teleport_confirmed : Event
  kicked : List ℕ → Event

-- The machine behind a call, and behind a sequence of them.
unfoldable pub step : PlayStateMachine → Event → PlayStateMachine
step self (keep_alive_sent payload) = (send_keep_alive payload self).1
step self (keep_alive_answered payload) = (handle_keep_alive_response payload self).1
step self (moved x y z) = (handle_player_position x y z self).1
step self (moved_and_turned x y z yaw pitch) =
    (handle_player_position_and_rotation x y z yaw pitch self).1
step self (turned yaw pitch) = (handle_player_rotation yaw pitch self).1
step self teleport_confirmed = (confirm_teleport self).1
step self (kicked reason) = (disconnect reason self).1

unfoldable pub run : PlayStateMachine → List Event → PlayStateMachine
run self [] = self
run self (event ∷ events) = run (step self event) events

-- The call that an event stands for fails with `Terminal`.
abbrev pub IsRefused : PlayStateMachine → Event → Type 0
IsRefused self (keep_alive_sent payload) = (send_keep_alive payload self).0 ≡ failure terminal
IsRefused self (keep_alive_answered payload) =
    (handle_keep_alive_response payload self).0 ≡ failure terminal
IsRefused self (moved x y z) = (handle_player_position x y z self).0 ≡ failure terminal
IsRefused self (moved_and_turned x y z yaw pitch) =
    (handle_player_position_and_rotation x y z yaw pitch self).0 ≡ failure terminal
IsRefused self (turned yaw pitch) = (handle_player_rotation yaw pitch self).0 ≡ failure terminal
IsRefused self teleport_confirmed = (confirm_teleport self).0 ≡ failure terminal
IsRefused self (kicked reason) = (disconnect reason self).0 ≡ failure terminal

step-IsRefused :
    (self : PlayStateMachine) (event : Event)
    → self.phase ≡ disconnected
    → IsRefused self event × (step self event ≡ self)
unfolding step send_keep_alive handle_keep_alive_response handle_player_position
    handle_player_position_and_rotation handle_player_rotation confirm_teleport confirmed disconnect
step-IsRefused self (keep_alive_sent payload) p = (rw p refl, rw p refl)
step-IsRefused self (keep_alive_answered payload) p = (rw p refl, rw p refl)
step-IsRefused self (moved x y z) p = (rw p refl, rw p refl)
step-IsRefused self (moved_and_turned x y z yaw pitch) p = (rw p refl, rw p refl)
step-IsRefused self (turned yaw pitch) p = (rw p refl, rw p refl)
step-IsRefused self teleport_confirmed p = (rw p refl, rw p refl)
step-IsRefused self (kicked reason) p = (rw p refl, rw p refl)

stays :
    (self : PlayStateMachine) (events : List Event)
    → self.phase ≡ disconnected
    → run self events ≡ self
unfolding run
stays self [] p = refl
stays self (event ∷ events) p =
    let (refused, same) = step-IsRefused self event p in rw same (stays self events p)

-- A machine that is disconnected refuses every later call as terminal, and no call changes it.
pub run-disconnected :
    (self : PlayStateMachine) (events : List Event) (event : Event)
    → self.phase ≡ disconnected
    → IsRefused (run self events) event × (run self events ≡ self)
run-disconnected self events event p =
    let same = stays self events p in
    let (refused, unchanged) = step-IsRefused self event p in (rw same refused, same)

-- How far the session is.
abbrev pub rank : PlayPhase → ℕ
rank awaiting_teleport_confirm = 0
rank active = 1
rank disconnected = 2

abbrev pub IsLater : PlayStateMachine → PlayStateMachine → Type 0
IsLater before after = (rank before.phase ≤ rank after.phase) × (after.config ≡ before.config)

kicked-IsLater :
    (self : PlayStateMachine) (o : Outcome PlayError (Unit {0}))
    → IsLater self (disconnected_by self o).1
unfolding disconnected_by
kicked-IsLater self (ok u wire) = ground arith
kicked-IsLater self (err e rest) = ground arith

confirmed-IsLater :
    (self : PlayStateMachine) (phase : PlayPhase)
    → self.phase ≡ phase
    → IsLater self (confirmed phase self).1
unfolding confirmed
confirmed-IsLater self awaiting_teleport_confirm p = ground arith
confirmed-IsLater self active p = ground arith
confirmed-IsLater self disconnected p = ground arith

answer-IsLater :
    (self : PlayStateMachine) (pending : Option ℤ) (payload : ℤ)
    → IsLater self (answer pending payload self).1
unfolding answer
answer-IsLater self none payload = ground arith
answer-IsLater self (some expected) payload = elim (Bool-cases (eqb_ℤ expected payload)) [
  | inl e ↦ rw e (ground arith)
  | inr e ↦ rw e (ground arith)
]

step-IsLater : (self : PlayStateMachine) (event : Event) → IsLater self (step self event)
unfolding step send_keep_alive handle_keep_alive_response handle_player_position
    handle_player_position_and_rotation handle_player_rotation confirm_teleport disconnect
step-IsLater self (keep_alive_sent payload) = ground arith
step-IsLater self (keep_alive_answered payload) =
    ground (arith, answer-IsLater self self.last_keep_alive_payload payload)
step-IsLater self (moved x y z) = ground arith
step-IsLater self (moved_and_turned x y z yaw pitch) = ground arith
step-IsLater self (turned yaw pitch) = ground arith
step-IsLater self teleport_confirmed = confirmed-IsLater self self.phase refl
step-IsLater self (kicked reason) = ground (
  arith,
  kicked-IsLater self
      (encode_disconnect_play (record { reason = reason }) self.config.max_frame_length []),
)

-- Whatever the calls, the session only moves on, from the wait for the teleport to play and to the
-- disconnection, and the configuration stays what it was.
pub run-IsLater : (self : PlayStateMachine) (events : List Event) → IsLater self (run self events)
unfolding run
run-IsLater self [] = (omega arith, refl)
run-IsLater self (event ∷ events) =
    let (order, config) = step-IsLater self event in
    let (order', config') = run-IsLater (step self event) events in
    (omega (arith, order, order'), config' ∙ config)
