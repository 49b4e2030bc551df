-- ===== src/Protocol/Login/Machine/Invariant.antt =====
-- What holds of a login machine after any calls.
use rustbound_server.Prelude.{
  ℕ, ◌≡◌, ◌++◌, refl, ap, sym, ◌∙◌, inl, inr, arith, Bool, true, false, ◌≢◌, Bool-cases, List, [],
  ◌∷◌, Option, none, some,
}
use rustbound_server.Prelude.Buffer.{Outcome, ok, err, failure}
use rustbound_server.Protocol.Login.{
  LoginError, LoginDecodeOutcome, EncryptionResponse, encryption_response,
}
use rustbound_server.Protocol.Login.Start.{decode_login_start}
use rustbound_server.Protocol.Login.Encryption.{decode_encryption_response}
use rustbound_server.Protocol.Login.Machine.{
  LoginPhase, awaiting_login_start, disconnected, awaiting_encryption_response, login_complete,
  LoginConfig, LoginStateMachine, new, is_terminal, is_awaiting_response, after_start,
  handle_login_start, after_response, handle_encryption_response, disconnect, LoginCall,
  start_bytes, response_bytes, close, call, run, terminal,
}

abbrev pub is_named : Option (List ℕ) → Bool
is_named none = false
is_named (some name) = true

-- The machine has a username where it waits for an encryption response or is complete; it waits for
-- that response only where it is online; it keeps its configuration.
pub record Inv (config : LoginConfig) (sm : LoginStateMachine) : Type 0 where
  pub same_config : sm.config ≡ config
  pub named_waiting : sm.phase ≡ awaiting_encryption_response → is_named sm.username ≡ true
  pub named_complete : sm.phase ≡ login_complete → is_named sm.username ≡ true
  pub online_waiting : sm.phase ≡ awaiting_encryption_response → config.online_mode ≡ true

new-Inv : (config : LoginConfig) → Inv config (new config)
unfolding new
new-Inv config = ground arith

after_start-Inv :
    (config : LoginConfig) (sm : LoginStateMachine) (o : Outcome LoginError LoginDecodeOutcome)
    → Inv config sm
    → Inv config (after_start sm o).machine
unfolding after_start
after_start-Inv config sm o h = ground arith

after_response-Inv :
    (config : LoginConfig) (sm : LoginStateMachine) (o : Outcome LoginError LoginDecodeOutcome)
    → Inv config sm
    → sm.phase ≡ awaiting_encryption_response
    → Inv config (after_response sm o).machine
unfolding after_response
after_response-Inv config sm o h p = ground arith

handle_login_start-Inv :
    (config : LoginConfig) (sm : LoginStateMachine) (input : List ℕ)
    → Inv config sm
    → Inv config (handle_login_start sm input).machine
unfolding handle_login_start
handle_login_start-Inv config sm input h =
    ground
      (arith, after_start-Inv config sm (decode_login_start sm.config.max_frame_length input) h)

handle_encryption_response-Inv :
    (config : LoginConfig) (sm : LoginStateMachine) (input : List ℕ)
    → Inv config sm
    → Inv config (handle_encryption_response sm input).machine
unfolding handle_encryption_response
handle_encryption_response-Inv config sm input h = ground (
  arith,
  after_response-Inv config sm (decode_encryption_response sm.config.max_frame_length input) h,
)

disconnect-Inv :
    (config : LoginConfig) (sm : LoginStateMachine) (reason : List ℕ)
    → Inv config sm
    → Inv config (disconnect sm reason).machine
unfolding disconnect
disconnect-Inv config sm reason h = ground arith

call-Inv :
    (config : LoginConfig) (sm : LoginStateMachine) (c : LoginCall)
    → Inv config sm
    → Inv config (call sm c).machine
unfolding call
call-Inv config sm (start_bytes input) h = handle_login_start-Inv config sm input h
call-Inv config sm (response_bytes input) h = handle_encryption_response-Inv config sm input h
call-Inv config sm (close reason) h = disconnect-Inv config sm reason h

run_from-Inv :
    (config : LoginConfig) (sm : LoginStateMachine) (cs : List LoginCall)
    → Inv config sm
    → Inv config (run sm cs)
unfolding run
run_from-Inv config sm [] h = h
run_from-Inv config sm (c ∷ cs) h =
    run_from-Inv config (call sm c).machine cs (call-Inv config sm c h)

-- After any calls on any bytes, a new machine keeps its configuration, has a username where it waits
-- for an encryption response or is complete, and waits for that response only in online mode.
pub run-Inv : (config : LoginConfig) (cs : List LoginCall) → Inv config (run (new config) cs)
run-Inv config cs = run_from-Inv config (new config) cs (new-Inv config)

call_terminal :
    (sm : LoginStateMachine) (c : LoginCall)
    → is_terminal sm.phase ≡ true
    → ((call sm c).result ≡ failure terminal) × ((call sm c).machine ≡ sm)
unfolding call handle_login_start handle_encryption_response disconnect
call_terminal sm (start_bytes input) h = (rw h, rw h)
call_terminal sm (response_bytes input) h = (rw h, rw h)
call_terminal sm (close reason) h = (rw h, rw h)

-- A complete or disconnected machine is never left: every call fails with `Terminal`, and no calls
-- change the machine.
pub run_terminal :
    (sm : LoginStateMachine) (c : LoginCall) (cs : List LoginCall)
    → is_terminal sm.phase ≡ true
    → ((call sm c).result ≡ failure terminal) × (run sm (c ∷ cs) ≡ sm)
unfolding run
run_terminal sm c [] h = call_terminal sm c h
run_terminal sm c (d ∷ cs) h =
    let (failed, same) = call_terminal sm c h in (failed, rw same (run_terminal sm d cs h).1)

-- The call among `cs` by which a login completed: the machine waited for an encryption response, and
-- the bytes it was handed hold a complete one.
pub record Answered (sm : LoginStateMachine) (cs : List LoginCall) (maximum : ℕ) : Type 0 where
  pub before : List LoginCall
  pub input : List ℕ
  pub after : List LoginCall
  pub packet : EncryptionResponse
  pub rest : List ℕ
  pub parts : cs ≡ before ++ (response_bytes input ∷ after)
  pub waiting : (run sm before).phase ≡ awaiting_encryption_response
  pub read :
      decode_encryption_response maximum input
      ≡ ok (LoginDecodeOutcome.complete (encryption_response packet)) rest
  pub completed : (run sm (before ++ (response_bytes input ∷ []))).phase ≡ login_complete

abbrev is_complete : LoginPhase → Bool
is_complete login_complete = true
is_complete _ = false

not_complete : (phase : LoginPhase) → is_complete phase ≡ false → phase ≢ login_complete
not_complete phase h e = ground (arith, h, e)

complete-eq : (phase : LoginPhase) → is_complete phase ≡ true → phase ≡ login_complete
complete-eq awaiting_login_start h = cc
complete-eq awaiting_encryption_response h = cc
complete-eq login_complete h = refl
complete-eq disconnected h = cc

-- Only a whole response completes a login.
after_response_completes :
    (sm : LoginStateMachine) (o : Outcome LoginError LoginDecodeOutcome)
    → sm.phase ≢ login_complete
    → (after_response sm o).machine.phase ≡ login_complete
    → (packet : EncryptionResponse) × (rest : List ℕ) × (o
        ≡ ok (LoginDecodeOutcome.complete (encryption_response packet)) rest)
unfolding after_response
after_response_completes sm (err x rest) h e = absurd (h e)
after_response_completes sm (ok LoginDecodeOutcome.incomplete rest) h e = absurd (h e)
after_response_completes sm (ok (LoginDecodeOutcome.complete (encryption_response packet)) rest) h
      e =
    (packet, rest, refl)
after_response_completes sm (ok (LoginDecodeOutcome.complete other) rest) h e = absurd (h e)

-- A call that completes an online login is a response that the machine waited for.
call_completes :
    (config : LoginConfig) (sm : LoginStateMachine) (c : LoginCall)
    → config.online_mode ≡ true
    → Inv config sm
    → sm.phase ≢ login_complete
    → (call sm c).machine.phase ≡ login_complete
    → (input : List ℕ) × (packet : EncryptionResponse) × (rest : List ℕ) × (c
        ≡ response_bytes input)
      × (sm.phase ≡ awaiting_encryption_response)
      × (decode_encryption_response config.max_frame_length input
          ≡ ok (LoginDecodeOutcome.complete (encryption_response packet)) rest)
unfolding call handle_login_start handle_encryption_response disconnect
call_completes config sm (start_bytes input) o v h e = absurd (ground arith)
call_completes config sm (response_bytes input) o v h e =
    elim (Bool-cases (is_awaiting_response sm.phase)) [
      | inl waits ↦
          let (packet, rest, whole) =
            after_response_completes sm
              (decode_encryption_response sm.config.max_frame_length input) h
              (ground (arith, waits)) in
          (
            input,
            packet,
            rest,
            refl,
            ground (arith, waits),
            ap (λ (g : LoginConfig). decode_encryption_response g.max_frame_length input)
                  (sym v.same_config)
                ∙ whole,
          )
      | inr other ↦ absurd (ground (arith, other))
    ]
call_completes config sm (close reason) o v h e = absurd (ground arith)

run_completes :
    (config : LoginConfig) (sm : LoginStateMachine) (cs : List LoginCall)
    → config.online_mode ≡ true
    → Inv config sm
    → sm.phase ≢ login_complete
    → (run sm cs).phase ≡ login_complete
    → Answered sm cs config.max_frame_length
unfolding run
run_completes config sm [] o v h e = absurd (h e)
run_completes config sm (c ∷ cs) o v h e =
    let next = (call sm c).machine in
    elim (Bool-cases (is_complete next.phase)) [
      | inl completed ↦
          let done = complete-eq next.phase completed in
          let (input, packet, rest, same, waits, whole) = call_completes config sm c o v h done in
          record {
            before = [];
            input = input;
            after = cs;
            packet = packet;
            rest = rest;
            parts = ap (λ (d : LoginCall). d ∷ cs) same;
            waiting = waits;
            read = whole;
            completed = rw (sym same) done;
          }
      | inr continues ↦
          let later =
            run_completes config next cs o (call-Inv config sm c v)
              (not_complete next.phase continues) e in
          record {
            before = c ∷ later.before;
            input = later.input;
            after = later.after;
            packet = later.packet;
            rest = later.rest;
            parts = ap (λ (ds : List LoginCall). c ∷ ds) later.parts;
            waiting = later.waiting;
            read = later.read;
            completed = later.completed;
          }
    ]

-- An online login that is complete was completed by a call that handed it an encryption response: until
-- that call the machine waited for one, the bytes of the call hold a whole one, and the login is
-- complete behind that call.
pub online_needs_response :
    (config : LoginConfig) (cs : List LoginCall)
    → config.online_mode ≡ true
    → (run (new config) cs).phase ≡ login_complete
    → Answered (new config) cs config.max_frame_length
online_needs_response config cs o e =
    run_completes config (new config) cs o (new-Inv config) (unfold new in λ p. cc) e
