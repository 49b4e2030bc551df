-- ===== src/Protocol/Play/Machine/Answers.antt =====
-- A keep alive and its answer.
use rustbound_server.Prelude.{
  ◌≡◌, ◌≢◌, refl, inl, inr, arith, Bool-cases, List, [], ◌∷◌, Bool, true, false, none, some, All,
}
use rustbound_server.Prelude.Int.{ℤ, eqb_ℤ, eqb_ℤ_refl, eqb_ℤ→eq}
use rustbound_server.Prelude.Buffer.{success, failure}
use rustbound_server.Protocol.Play.Machine.{
  PlayPhase, awaiting_teleport_confirm, active, disconnected, PlayStateMachine, custom,
  unexpected_event, is_disconnected, send_keep_alive, answer, handle_keep_alive_response,
  handle_player_position, handle_player_position_and_rotation, handle_player_rotation, confirmed,
  confirm_teleport,
}
use rustbound_server.Protocol.Play.Machine.Runs.{
  Event, keep_alive_sent, keep_alive_answered, moved, moved_and_turned, turned, teleport_confirmed,
  kicked, step, run,
}

-- The calls that concern neither keep alive nor the end of the session.
abbrev pub is_quiet : Event → Bool
is_quiet (keep_alive_sent payload) = false
is_quiet (keep_alive_answered payload) = false
is_quiet (kicked reason) = false
is_quiet _ = true

-- The session is open and waits for the answer to one payload.
pub record Awaits (payload : ℤ) (self : PlayStateMachine) : Type 0 where
  pub open_session : is_disconnected self.phase ≡ false
  pub pending : self.last_keep_alive_payload ≡ some payload

confirmed-Awaits :
    (payload : ℤ) (self : PlayStateMachine) (phase : PlayPhase)
    → self.phase ≡ phase
    → Awaits payload self
    → Awaits payload (confirmed phase self).1
unfolding confirmed
confirmed-Awaits payload self awaiting_teleport_confirm p w = record {
  open_session = refl;
  pending = w.pending;
}
confirmed-Awaits payload self active p w = w
confirmed-Awaits payload self disconnected p w = w

step-Awaits :
    (payload : ℤ) (self : PlayStateMachine) (event : Event)
    → is_quiet event ≡ true
    → Awaits payload self
    → Awaits payload (step self event)
unfolding step handle_player_position handle_player_position_and_rotation handle_player_rotation
    confirm_teleport
step-Awaits payload self (keep_alive_sent other) q w = absurd (ground arith)
step-Awaits payload self (keep_alive_answered other) q w = absurd (ground arith)
step-Awaits payload self (kicked reason) q w = absurd (ground arith)
step-Awaits payload self (moved x y z) q w = record {
  open_session = ground (arith, w.open_session);
  pending = ground (arith, w.open_session, w.pending);
}
step-Awaits payload self (moved_and_turned x y z yaw pitch) q w = record {
  open_session = ground (arith, w.open_session);
  pending = ground (arith, w.open_session, w.pending);
}
step-Awaits payload self (turned yaw pitch) q w = record {
  open_session = ground (arith, w.open_session);
  pending = ground (arith, w.open_session, w.pending);
}
step-Awaits payload self teleport_confirmed q w = confirmed-Awaits payload self self.phase refl w

run-Awaits :
    (payload : ℤ) (self : PlayStateMachine) (events : List Event)
    → All (λ event. is_quiet event ≡ true) events
    → Awaits payload self
    → Awaits payload (run self events)
unfolding run
run-Awaits payload self [] q w = w
run-Awaits payload self (event ∷ events) (q, qs) w =
    run-Awaits payload (step self event) events qs (step-Awaits payload self event q w)

sent-Awaits :
    (payload : ℤ) (self : PlayStateMachine)
    → is_disconnected self.phase ≡ false
    → Awaits payload (step self (keep_alive_sent payload))
unfolding step send_keep_alive
sent-Awaits payload self h = record {
  open_session = ground (arith, h);
  pending = ground (arith, h);
}

-- What a machine that awaits a payload does with its answer, with anything after that, and with an
-- answer of another payload instead.
abbrev pub AnsweredOnce : ℤ → ℤ → PlayStateMachine → Type 0
AnsweredOnce payload other self =
    (handle_keep_alive_response payload self
      ≡ (success tt, record self { last_keep_alive_payload = none }))
    × ((again : ℤ)
        → handle_keep_alive_response again (record self { last_keep_alive_payload = none }) ≡ (
          failure (unexpected_event self.phase "no pending keep alive"),
          record self { last_keep_alive_payload = none },
        ))
    × (handle_keep_alive_response other self ≡ (failure (custom payload other), self))

Awaits-AnsweredOnce :
    (payload other : ℤ) (self : PlayStateMachine)
    → payload ≢ other
    → Awaits payload self
    → AnsweredOnce payload other self
unfolding handle_keep_alive_response answer
Awaits-AnsweredOnce payload other self differ w = (
  rw (w.open_session) (rw (w.pending) (rw (eqb_ℤ_refl payload) refl)),
  λ again. rw (w.open_session) refl,
  elim (Bool-cases (eqb_ℤ payload other)) [
    | inl same ↦ absurd (differ (eqb_ℤ→eq payload other same))
    | inr e ↦ rw (w.open_session) (rw (w.pending) (rw e refl))
  ],
)

-- After a keep alive on an open session, and any number of moves, turns and teleport confirmations in
-- any order, its payload is accepted as the answer and clears what is pending; then any further
-- answer is unexpected; and an answer with another payload instead is a mismatch that shows both and
-- changes nothing.
pub keep_alive-AnsweredOnce :
    (payload other : ℤ) (self : PlayStateMachine) (events : List Event)
    → payload ≢ other
    → is_disconnected self.phase ≡ false
    → All (λ event. is_quiet event ≡ true) events
    → AnsweredOnce payload other (run self (keep_alive_sent payload ∷ events))
unfolding run
keep_alive-AnsweredOnce payload other self events differ h quiet =
    Awaits-AnsweredOnce payload other _ differ (
      run-Awaits payload (step self (keep_alive_sent payload)) events quiet
        (sent-Awaits payload self h))
