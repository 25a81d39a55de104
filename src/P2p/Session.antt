-- ===== src/P2p/Session.antt =====
-- `_Session` of uniconn-py/uniconn/p2p/node.py, and what the tasks of a node do to it. Each function is
-- what runs between two awaits. A connection is known by its identity, a number; a secure channel by
-- the connection under it, which it closes. The asyncio tasks are left to the caller of the functions.
pub mod Life
use uniconn.Prelude.{
  ℕ, String, Bool, true, false, not, Option, none, some, List, [], ◌∷◌, ◌++◌, ◌==◌, if◌then◌else◌,
}
use uniconn.Outcome.{
  Outcome, ok, raised, pending, Exn, exn, connection_error, cancelled_error, text, is_cancelled,
}
use uniconn.Action.{Action}
use uniconn.Struct.{Bytes}

-- `held` are the connections that the tasks of calls of `accept` have got from the queue and that their
-- calls have not looked at, and `shut` those whose `close` the node called.
pub record Session : Type 0 where
  pub addr : String
  pub fp : Bytes
  pub control : Option ℕ
  pub error : Option Exn
  pub ended : Bool
  pub pending_set : List ℕ
  pub incoming : List ℕ
  pub held : List ℕ
  pub shut : List ℕ

-- `_Session(addr, fp)`
unfoldable pub new_session : String → Bytes → Session
new_session addr fp = record {
  addr = addr;
  fp = fp;
  control = none;
  error = none;
  ended = false;
  pending_set = [];
  incoming = [];
  held = [];
  shut = [];
}

-- `pending.discard(raw)`
unfoldable pub discard : ℕ → List ℕ → List ℕ
discard raw [] = []
discard raw (x ∷ xs) = let others = discard raw xs in if x == raw then others else x ∷ others

-- `ConnectionError(str(session.error))`
unfoldable pub session_error : Option Exn → Exn
session_error none = exn connection_error (text "None")
session_error (some (exn kind message)) = exn connection_error message

abbrev pub set_error : Option Exn → Bool
set_error none = false
set_error (some e) = true

-- `_stop_session` up to its first wait: the tasks are cancelled, and the pending connections closed.
unfoldable pub stop_begins : Exn → Session → Session
stop_begins reason s = if set_error s.error then s else record s {
  error = some reason;
  ended = true;
  pending_set = [];
  shut = s.shut ++ s.pending_set;
}

-- `_stop_session` behind its waits.
unfoldable pub stop_ends : Session → Session
stop_ends s = record s { incoming = [] }

-- `run` up to `dial`.
unfoldable pub setup_starts : Session → Outcome (Unit {0})
setup_starts s = if s.ended then raised (session_error s.error) else ok tt

-- The handler of `run`, with a connection: it is closed, and the exception goes on.
unfoldable pub setup_fails : ℕ → Exn → Action Session (Unit {0})
setup_fails raw e s =
    (raised e, record s { pending_set = discard raw s.pending_set; shut = s.shut ++ (raw ∷ []) })

-- `run` behind `dial`, up to the operation.
unfoldable pub setup_dialed : ℕ → Action Session (Unit {0})
unfolding setup_fails
setup_dialed raw s =
    let s' : Session = record s { pending_set = raw ∷ s.pending_set } in
    if s.ended then setup_fails raw (session_error s.error) s' else (ok tt, s')

-- `run` behind the operation, which returned or raised an exception; CancelledError is one.
unfoldable pub setup_operated : ℕ → Option Exn → Action Session (Unit {0})
unfolding setup_fails
setup_operated raw (some e) s = setup_fails raw e s
setup_operated raw none s =
    if s.ended then setup_fails raw (session_error s.error) s else (ok tt, s)

-- `_setup` behind `wait_for`: a CancelledError becomes a ConnectionError if the session has ended.
unfoldable pub setup_returns {ℓ} : {A : Type ℓ} → Outcome A → Session → Outcome A
setup_returns (ok a) s = ok a
setup_returns pending s = pending
setup_returns (raised e) s =
    if is_cancelled e
    then (if set_error s.error then raised (session_error s.error) else raised e)
    else raised e

-- `session.control = sc`
unfoldable pub controlled_by : ℕ → Session → Session
controlled_by raw s = record s { control = some raw }

-- `session.incoming.put_nowait((raw, conn))`
unfoldable pub queue_incoming : ℕ → Session → Session
queue_incoming raw s = record s { incoming = s.incoming ++ (raw ∷ []) }

-- The end of `dial_peer`.
unfoldable pub dial_returns : ℕ → Action Session ℕ
dial_returns raw s =
    if set_error s.error
    then (raised (session_error s.error), record s { shut = s.shut ++ (raw ∷ []) })
    else (ok raw, record s { pending_set = discard raw s.pending_set })

-- The task `incoming` of a waiting `accept` gets the first of the queue.
pub take_incoming : List ℕ → Session → Session
take_incoming [] s = s
take_incoming (raw ∷ others) s = record s { incoming = others; held = s.held ++ (raw ∷ []) }

unfoldable pub incoming_done : Session → Session
unfolding take_incoming
incoming_done s = take_incoming s.incoming s

-- `accept` behind its wait: what the task `incoming` of this call has got from the queue, and whether
-- the call was cancelled meanwhile. With nothing got, the call raises the session's error, or waits.
unfoldable pub accept_resumes : Option ℕ → Bool → Action Session ℕ
accept_resumes none cancelled s =
    if cancelled
    then (raised (exn cancelled_error (text "")), s)
    else if set_error s.error
    then (raised (session_error s.error), s)
    else (pending, s)
accept_resumes (some raw) cancelled s =
    let s' : Session = record s {
      held = discard raw s.held;
      pending_set = discard raw s.pending_set;
    } in
    if cancelled
    then (raised (exn cancelled_error (text "")), record s' { shut = s.shut ++ (raw ∷ []) })
    else if set_error s.error
    then (raised (session_error s.error), record s' { shut = s.shut ++ (raw ∷ []) })
    else (ok raw, s')
