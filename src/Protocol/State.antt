-- ===== src/Protocol/State.antt =====
-- crates/rustbound-protocol/src/state.rs: the connection states and the handshake's transition.
use rustbound_server.Prelude.{zero, suc, ◌≡◌, ◌⊎◌, arith, Option, none, some}
use rustbound_server.Prelude.Int.{ℤ, pos, negsuc}
use rustbound_server.Prelude.Buffer.{Result, success, failure}

pub data ProtocolState : Type 0 where
  handshaking status login play closed : ProtocolState

pub data NextState : Type 0 where
  status login : NextState

unfoldable pub wire_value : NextState → ℤ
wire_value NextState.status = pos 1
wire_value NextState.login = pos 2

unfoldable pub from_wire : ℤ → Option NextState
from_wire (pos (suc zero)) = some NextState.status
from_wire (pos (suc (suc zero))) = some NextState.login
from_wire _ = none

unfoldable pub target_state : NextState → ProtocolState
target_state NextState.status = ProtocolState.status
target_state NextState.login = ProtocolState.login

pub data StateError : Type 0 where
  wrong_state : ProtocolState → ProtocolState → StateError
  connection_closed : StateError

unfoldable pub apply_handshake_transition :
    ProtocolState → NextState → Result StateError ProtocolState
unfolding target_state
apply_handshake_transition ProtocolState.handshaking next = success (target_state next)
apply_handshake_transition ProtocolState.closed next = failure connection_closed
apply_handshake_transition other next = failure (wrong_state other ProtocolState.handshaking)

-- The wire values are exactly 1 and 2: `from_wire` returns a next state exactly on its wire value.
pub from_wire_iff :
    (v : ℤ) (next : NextState)
    → (from_wire v ≡ some next → v ≡ wire_value next)
      × (v ≡ wire_value next → from_wire v ≡ some next)
unfolding from_wire wire_value
from_wire_iff (pos zero) next = ground arith
from_wire_iff (pos (suc zero)) next = ground arith
from_wire_iff (pos (suc (suc zero))) next = ground arith
from_wire_iff (pos (suc (suc (suc n)))) next = ground arith
from_wire_iff (negsuc n) next = ground arith

-- The handshake moves a connection only out of Handshaking, and only to Status or Login.
pub apply_handshake_transition_succeeds :
    (current new : ProtocolState) (next : NextState)
    → apply_handshake_transition current next ≡ success new
    → (current ≡ ProtocolState.handshaking)
      × ((new ≡ ProtocolState.status) ⊎ (new ≡ ProtocolState.login))
unfolding apply_handshake_transition
apply_handshake_transition_succeeds current new next e = ground arith
