-- ===== src/P2p/Connect.antt =====
-- `connect_relay` of p2p/node.py as a whole, put together out of the pieces of P2p/Node and of
-- `setup` of P2p/Handlers. The state is the node and the rest of the world; what is awaited is a
-- parameter, which acts on the node too, since other tasks run meanwhile. The lock holds: the call
-- starts with no other `connect_relay` under way.
pub mod Steps
pub mod Ends
pub mod Lawful
use uniconn.Prelude.{ℕ, String, Bool, true, false, Option, none, some, if◌then◌else◌}
use uniconn.Outcome.{Outcome, ok, raised, pending, Exn}
use uniconn.Action.{Action, continue}
use uniconn.Struct.{Bytes}
use uniconn.P2p.Session.{Session, new_session}
use uniconn.P2p.Node.{
  Node, is_running, connect_begins, connect_continues, connect_fails, connect_cancelled,
  connect_returns, close_ends,
}
use uniconn.P2p.Handlers.{Waited, setup}

-- The node with its session, where a call works on the session.
abbrev pub whole {ℓ} : {W : Type ℓ} → Session × (Node × W) → Node × W
whole (s, (n, w)) = (record n { session = some s }, w)

-- `wait` is the wait in `_stop_session` for the tasks and the connections.
module _ {ℓ} {W : Type ℓ} (wait : Action (Node × W) (Unit {0}))
    (dial : String → Action (Session × (Node × W)) ℕ)
    (meanwhile : Session × (Node × W) → Session × (Node × W)) {A : Type 0}
    (operation : ℕ → Action (Session × (Node × W)) A) (waited : Waited) where
  -- `_stop_session` behind its wait, and `raise`.
  unfoldable pub fail_stopped : Exn → Outcome (Unit {0}) → Action (Node × W) (Unit {0})
  fail_stopped e (ok _) (n, w) = (raised e, (close_ends n, w))
  fail_stopped e (raised x) y = (raised x, y)
  fail_stopped e pending y = (pending, y)

  -- The handler of `connect_relay`.
  unfoldable pub fail : Exn → Action (Node × W) (Unit {0})
  unfolding fail_stopped
  fail e (n, w) =
      let (r, y) = wait (connect_fails n, w) in
      if is_running n.session then fail_stopped e r y else (raised e, (n, w))

  -- `connect_relay` behind `_setup`.
  unfoldable pub set_up : String → Bytes → Outcome (ℕ × A) → Action (Node × W) (Unit {0})
  unfolding fail
  set_up addr fp (ok (raw, _)) (n, w) = (ok tt, (connect_returns addr fp raw n, w))
  set_up addr fp (raised e) y = fail e y
  set_up addr fp pending y = (pending, y)

  -- `connect_relay` from `_setup` on.
  unfoldable pub begin : String → Bytes → Action (Node × W) (Unit {0})
  unfolding set_up
  begin addr fp y =
      let (r, x) = setup dial meanwhile operation waited (new_session addr fp, y) in
      set_up addr fp r (whole x)

  -- `connect_relay` from the end of the wait in `_stop_session` of the old session.
  unfoldable pub go_on : String → Bytes → Outcome (Unit {0}) → Action (Node × W) (Unit {0})
  unfolding begin
  go_on addr fp (ok _) (n, w) = begin addr fp (connect_continues addr fp n, w)
  go_on addr fp (raised e) (n, w) = (raised e, (connect_cancelled n, w))
  go_on addr fp pending y = (pending, y)

  unfoldable pub replace : String → Bytes → Option (String × Bytes) → Action (Node × W) (Unit {0})
  unfolding go_on
  replace addr fp none y = begin addr fp y
  replace addr fp (some _) y = let (r, y') = wait y in go_on addr fp r y'

  unfoldable pub connect_relay : String → Bytes → Action (Node × W) (Unit {0})
  unfolding replace
  connect_relay addr fp (n, w) =
      let (r, n') = connect_begins addr fp n in
      continue r (λ _. replace addr fp n'.connecting) (n', w)
