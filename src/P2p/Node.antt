-- ===== src/P2p/Node.antt =====
-- `Node` of uniconn-py/uniconn/p2p/node.py: the session with the relay, and what replaces and ends it.
-- Each function is what runs between two awaits.
pub mod Lifecycle
pub mod Closing
pub mod Others
use uniconn.Prelude.{
  ℕ, String, Bool, true, false, not, Option, none, some, List, [], ◌∷◌, ◌==◌, length, if◌then◌else◌,
}
use uniconn.Outcome.{Outcome, ok, raised, pending, Exn, exn, connection_error, value_error, text}
use uniconn.Action.{Action}
use uniconn.Struct.{Bytes}
use uniconn.P2p.Session.{
  Session, new_session, set_error, session_error, stop_begins, stop_ends, controlled_by,
}

-- `connecting` is what a `connect_relay` that waits for the stop of the old session will connect to;
-- the lock lets in one at a time. `replaced` are the sessions that were the node's before.
pub record Node : Type 0 where
  pub session : Option Session
  pub closed : Bool
  pub relay_addr : String
  pub relay_fp : Bytes
  pub control_conn : Option ℕ
  pub connecting : Option (String × Bytes)
  pub replaced : List Session

-- `Node(config, identity, dialer, verify_fn)`
unfoldable pub new_node : Node
new_node = record {
  session = none;
  closed = false;
  relay_addr = "";
  relay_fp = [];
  control_conn = none;
  connecting = none;
  replaced = [];
}

abbrev pub node_closed : Exn
node_closed = exn connection_error (text "node closed")

-- `_current_session` behind its first check.
unfoldable pub usable_session : Option Session → Outcome Session
usable_session none =
    raised (exn connection_error (text "must connect to relay before using peers"))
usable_session (some s) =
    if set_error s.error then raised (session_error s.error) else (elim s.control [
      | none ↦ raised (exn connection_error (text "must connect to relay before using peers"))
      | some raw ↦ ok s
    ])

unfoldable pub current_session : Node → Outcome Session
unfolding usable_session
current_session n = if n.closed then raised node_closed else usable_session n.session

-- `dial_peer` up to `_setup`.
unfoldable pub dial_begins : Bytes → Node → Outcome Session
unfolding current_session
dial_begins peer_fp n =
    if not (length peer_fp == 64)
    then raised (exn value_error (text "peer fingerprint must be 64 bytes"))
    else current_session n

abbrev pub relay_replaced : Exn
relay_replaced = exn connection_error (text "relay session replaced")

abbrev pub stop_current : Exn → Option Session → Option Session
stop_current reason none = none
stop_current reason (some s) = some (stop_begins reason s)

-- `_stop_session` of the node's session behind its waits.
abbrev pub drain_current : Option Session → Option Session
drain_current none = none
drain_current (some s) = some (stop_ends s)

abbrev pub is_running : Option Session → Bool
is_running none = false
is_running (some s) = not (set_error s.error)

abbrev pub with_old : Option Session → List Session → List Session
with_old none sessions = sessions
with_old (some s) sessions = s ∷ sessions

-- `session = _Session(relay_addr, relay_fp); self._session = session`
unfoldable pub create_session : String → Bytes → Node → Node
create_session addr fp n = record n {
  session = some (new_session addr fp);
  connecting = none;
  replaced = with_old n.session n.replaced;
}

-- `connect_relay` up to the wait in `_stop_session`, if the old session is running, and up to `_setup`
-- if not.
unfoldable pub connect_begins : String → Bytes → Action Node (Unit {0})
connect_begins addr fp n =
    if not (length fp == 64)
    then (raised (exn value_error (text "relay fingerprint must be 64 bytes")), n)
    else if n.closed
    then (raised node_closed, n)
    else if is_running n.session
    then (
      ok tt,
      record n { session = stop_current relay_replaced n.session; connecting = some (addr, fp) },
    )
    else (ok tt, create_session addr fp n)

-- `connect_relay` from the end of that wait to `_setup`.
unfoldable pub connect_continues : String → Bytes → Node → Node
connect_continues addr fp n =
    create_session addr fp (record n { session = drain_current n.session; control_conn = none })

-- `connect_relay` behind `_setup`, when it raised.
unfoldable pub connect_fails : Node → Node
connect_fails n = record n {
  session = stop_current (exn connection_error (text "relay setup failed")) n.session;
}

-- `connect_relay`, when it is cancelled in the wait in `_stop_session` of the old session.
unfoldable pub connect_cancelled : Node → Node
connect_cancelled n = record n { connecting = none }

abbrev pub control_current : ℕ → Option Session → Option Session
control_current raw none = none
control_current raw (some s) = some (controlled_by raw s)

-- The end of `connect_relay`.
unfoldable pub connect_returns : String → Bytes → ℕ → Node → Node
connect_returns addr fp raw n = record n {
  session = control_current raw n.session;
  relay_addr = addr;
  relay_fp = fp;
  control_conn = some raw;
}

-- The end of `_read_control_loop`, by an exception.
unfoldable pub control_lost : Exn → Node → Node
control_lost reason n = record n { session = stop_current reason n.session }

-- `close` up to its wait, and behind it.
unfoldable pub close : Node → Node
close n = record n { closed = true; session = stop_current node_closed n.session }

unfoldable pub close_ends : Node → Node
close_ends n = record n { session = drain_current n.session; control_conn = none }
