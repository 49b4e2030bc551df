-- ===== src/Protocol/Login/Machine/Flow.antt =====
-- The offline login from the client's bytes to the packet that the client reads.
use rustbound_server.Prelude.{ℕ, ◌≡◌, arith, false, List, [], ◌++◌, some, append-nil}
use rustbound_server.Prelude.Buffer.{ok, success}
use rustbound_server.Protocol.Primitives.Fixed.RoundTrip.{IsUuid}
use rustbound_server.Protocol.State.{ProtocolState}
use rustbound_server.Protocol.Login.{LoginStart, LoginSuccess, LoginDecodeOutcome, login_success}
use rustbound_server.Protocol.Login.Start.{encode_login_start}
use rustbound_server.Protocol.Login.Success.{encode_login_success, decode_login_success}
use rustbound_server.Protocol.Login.RoundTrip.Start.{
  IsLoginStart, decode_login_start-encode_login_start,
}
use rustbound_server.Protocol.Login.RoundTrip.Success.{decode_login_success-encode_login_success}
use rustbound_server.Protocol.Login.Machine.{
  awaiting_login_start, login_complete, LoginStateMachine, handle_login_start, succeed,
}

-- The Login Success packet that an offline machine owes a player.
abbrev pub offline_success : LoginStateMachine → List ℕ → LoginSuccess
offline_success sm name = record { uuid = sm.config.offline_uuid; username = name; properties = [] }

-- An offline machine at the start that is handed an encoded Login Start with bytes behind it, and
-- whose answer fits a frame, completes, remembers the username, leaves the bytes behind, moves the
-- connection to Play, and sends bytes that decode to a Login Success with its offline UUID and that
-- username.
pub offline_login :
    (sm : LoginStateMachine) (p : LoginStart) (wire answer rest : List ℕ)
    → sm.phase ≡ awaiting_login_start
    → sm.config.online_mode ≡ false
    → IsLoginStart p
    → IsUuid sm.config.offline_uuid
    → encode_login_start p sm.config.max_frame_length [] ≡ ok tt wire
    → encode_login_success (offline_success sm p.username) sm.config.max_frame_length []
      ≡ ok tt answer
    → (handle_login_start sm (wire ++ rest) ≡ record {
      result = success (succeed answer ProtocolState.play);
      machine = record sm { phase = login_complete; username = some p.username };
      input = rest;
    })
      × (decode_login_success sm.config.max_frame_length answer
          ≡ ok (LoginDecodeOutcome.complete (login_success (offline_success sm p.username))) [])
unfolding handle_login_start
offline_login sm p wire answer rest hp ho v u sent answered = (
  ground
      (arith, decode_login_start-encode_login_start p sm.config.max_frame_length wire rest v sent),
  rw (append-nil answer) at (
      decode_login_success-encode_login_success (offline_success sm p.username)
        sm.config.max_frame_length answer []
        (record { uuid = u; username = v.username; properties = tt }) answered),
)
