-- ===== src/Protocol/Login/Machine.antt =====
-- crates/rustbound-protocol/src/login_state_machine.rs: the login flow over buffers. A call returns
-- its result, the machine and the input as it leaves them.
pub mod Invariant
pub mod Flow
use Prim.Native.String.{String}
use rustbound_server.Prelude.{
  ℕ, List, [], ◌∷◌, replicate, Bool, true, false, ◌||◌, if◌then◌else◌, Option, none, some,
}
use rustbound_server.Prelude.Int.{ℤ}
use rustbound_server.Prelude.Buffer.{Outcome, ok, err, Result, success, failure}
use rustbound_server.Protocol.Primitives.Fixed.{Uuid}
use rustbound_server.Protocol.State.{ProtocolState}
use rustbound_server.Protocol.Login.{
  LoginError, LoginStart, LoginSuccess, LoginDisconnect, EncryptionRequest, LoginDecodeOutcome,
  login_start, encryption_response,
}
use rustbound_server.Protocol.Login.Start.{decode_login_start, encode_login_disconnect}
use rustbound_server.Protocol.Login.Encryption.{
  encode_encryption_request, decode_encryption_response,
}
use rustbound_server.Protocol.Login.Success.{encode_login_success}

pub data LoginPhase : Type 0 where
  awaiting_login_start awaiting_encryption_response login_complete disconnected : LoginPhase

pub data LoginStepResult : Type 0 where
  continue : List (List ℕ) → LoginPhase → LoginStepResult
  succeed : List ℕ → ProtocolState → LoginStepResult
  disconnect_with : List ℕ → ProtocolState → LoginStepResult

pub data LoginStateMachineError : Type 0 where
  login : LoginError → LoginStateMachineError
  unexpected_packet : LoginPhase → String → LoginStateMachineError
  terminal : LoginStateMachineError

pub record LoginConfig : Type 0 where
  pub online_mode : Bool
  pub compression_threshold : ℤ
  pub max_frame_length : ℕ
  pub offline_uuid : Uuid

pub record LoginStateMachine : Type 0 where
  pub phase : LoginPhase
  pub config : LoginConfig
  pub username : Option (List ℕ)

pub record Stepped : Type 0 where
  pub result : Result LoginStateMachineError LoginStepResult
  pub machine : LoginStateMachine
  pub input : List ℕ

unfoldable pub new : LoginConfig → LoginStateMachine
new config = record { phase = awaiting_login_start; config = config; username = none }

-- `self.phase == Disconnected || self.phase == LoginComplete`.
abbrev pub is_terminal : LoginPhase → Bool
is_terminal disconnected = true
is_terminal login_complete = true
is_terminal _ = false

abbrev pub is_awaiting_start : LoginPhase → Bool
is_awaiting_start awaiting_login_start = true
is_awaiting_start _ = false

abbrev pub is_awaiting_response : LoginPhase → Bool
is_awaiting_response awaiting_encryption_response = true
is_awaiting_response _ = false

abbrev pub stop : LoginStateMachineError → LoginStateMachine → List ℕ → Stepped
stop e sm input = record { result = failure e; machine = sm; input = input }

abbrev pub placeholder_request : EncryptionRequest
placeholder_request = record {
  server_id = [];
  public_key = replicate 128 0;
  verify_token = replicate 4 0;
}

-- Online: the Encryption Request goes out.
unfoldable pub request_encryption : LoginStateMachine → List ℕ → Stepped
request_encryption sm rest =
    elim (encode_encryption_request placeholder_request sm.config.max_frame_length []) [
      | err e _ ↦ stop (login e) sm rest
      | ok _ wire ↦ record {
        result = success (continue (wire ∷ []) awaiting_encryption_response);
        machine = record sm { phase = awaiting_encryption_response };
        input = rest;
      }
    ]

-- Login Success goes out and the connection moves to Play.
unfoldable pub complete_login : LoginStateMachine → List ℕ → List ℕ → Stepped
complete_login sm username rest =
    let packet : LoginSuccess = record {
      uuid = sm.config.offline_uuid;
      username = username;
      properties = [];
    } in
    elim (encode_login_success packet sm.config.max_frame_length []) [
      | err e _ ↦ stop (login e) sm rest
      | ok _ wire ↦ record {
        result = success (succeed wire ProtocolState.play);
        machine = record sm { phase = login_complete };
        input = rest;
      }
    ]

unfoldable pub accept_start : LoginStateMachine → LoginStart → List ℕ → Stepped
unfolding request_encryption complete_login
accept_start sm packet rest =
    let named = record sm { username = some packet.username } in
    if sm.config.online_mode
    then request_encryption named rest
    else complete_login named packet.username rest

unfoldable pub after_start : LoginStateMachine → Outcome LoginError LoginDecodeOutcome → Stepped
unfolding accept_start
after_start sm (err e rest) = stop (login e) sm rest
after_start sm (ok LoginDecodeOutcome.incomplete rest) = record {
  result = success (continue [] sm.phase);
  machine = sm;
  input = rest;
}
after_start sm (ok (LoginDecodeOutcome.complete (login_start packet)) rest) =
    accept_start sm packet rest
after_start sm (ok (LoginDecodeOutcome.complete other) rest) =
    stop (unexpected_packet sm.phase "Login Start") sm rest

unfoldable pub handle_login_start : LoginStateMachine → List ℕ → Stepped
unfolding after_start
handle_login_start sm input =
    if is_terminal sm.phase
    then stop terminal sm input
    else if is_awaiting_start sm.phase
    then after_start sm (decode_login_start sm.config.max_frame_length input)
    else stop (unexpected_packet sm.phase "Login Start") sm input

-- `self.username.clone().unwrap_or_default()`.
abbrev pub name_or_default : Option (List ℕ) → List ℕ
name_or_default none = []
name_or_default (some name) = name

unfoldable pub after_response : LoginStateMachine → Outcome LoginError LoginDecodeOutcome → Stepped
unfolding complete_login
after_response sm (err e rest) = stop (login e) sm rest
after_response sm (ok LoginDecodeOutcome.incomplete rest) = record {
  result = success (continue [] sm.phase);
  machine = sm;
  input = rest;
}
after_response sm (ok (LoginDecodeOutcome.complete (encryption_response packet)) rest) =
    complete_login sm (name_or_default sm.username) rest
after_response sm (ok (LoginDecodeOutcome.complete other) rest) =
    stop (unexpected_packet sm.phase "Encryption Response") sm rest

unfoldable pub handle_encryption_response : LoginStateMachine → List ℕ → Stepped
unfolding after_response
handle_encryption_response sm input =
    if is_terminal sm.phase
    then stop terminal sm input
    else if is_awaiting_response sm.phase
    then after_response sm (decode_encryption_response sm.config.max_frame_length input)
    else stop (unexpected_packet sm.phase "Encryption Response") sm input

-- `disconnect` reads no input.
unfoldable pub disconnect : LoginStateMachine → List ℕ → Stepped
disconnect sm reason =
    if is_terminal sm.phase
    then stop terminal sm []
    else elim (encode_login_disconnect (record { reason = reason }) sm.config.max_frame_length []) [
      | err e _ ↦ stop (login e) sm []
      | ok _ wire ↦ record {
        result = success (disconnect_with wire ProtocolState.closed);
        machine = record sm { phase = disconnected };
        input = [];
      }
    ]

-- The calls that a connection may make, in any order.
pub data LoginCall : Type 0 where
  start_bytes : List ℕ → LoginCall
  response_bytes : List ℕ → LoginCall
  close : List ℕ → LoginCall

unfoldable pub call : LoginStateMachine → LoginCall → Stepped
call sm (start_bytes input) = handle_login_start sm input
call sm (response_bytes input) = handle_encryption_response sm input
call sm (close reason) = disconnect sm reason

unfoldable pub run : LoginStateMachine → List LoginCall → LoginStateMachine
run sm [] = sm
run sm (c ∷ cs) = run (call sm c).machine cs
