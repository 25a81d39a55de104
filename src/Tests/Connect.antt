-- ===== src/Tests/Connect.antt =====
-- A `connect_relay` of p2p/node.py during which the node is closed.
use uniconn.Prelude.{ℕ, suc, ◌≡◌, refl, String, true, none}
use uniconn.Outcome.{ok}
use uniconn.Action.{Action}
use uniconn.P2p.Handlers.{timely}
use uniconn.P2p.Session.{Session, stop_begins}
use uniconn.P2p.Node.{Node, new_node, node_closed, close}
use uniconn.P2p.Node.Lifecycle.{HasOneLive, closes, here}
use uniconn.P2p.Node.Others.{none_yet, another}
use uniconn.P2p.Connect.{connect_relay}
use uniconn.P2p.Connect.Ends.{IsNodeWorld, Connects}
use uniconn.P2p.Connect.Lawful.{connect_relay-Connects}
use uniconn.Tests.Sessions.{relay_fp}

abbrev all_stopped : Action (Node × ℕ) (Unit {0})
all_stopped y = (ok tt, y)

abbrev numbered : String → Action (Session × (Node × ℕ)) ℕ
numbered addr (s, (n, w)) = (ok w, (s, (n, suc w)))

abbrev nothing_else : Session × (Node × ℕ) → Session × (Node × ℕ)
nothing_else x = x

-- `close` is called while the handshake runs.
abbrev closed_by_user : ℕ → Action (Session × (Node × ℕ)) String
closed_by_user raw (s, (n, w)) =
    (ok "channel", (stop_begins node_closed s, (record n { closed = true }, w)))

world : IsNodeWorld all_stopped numbered nothing_else closed_by_user
unfolding close
world = record {
  waiting = λ n w. none_yet;
  dialling = λ addr x. none_yet;
  operating = λ raw x. another none_yet (closes refl) tt;
  resuming = λ x. none_yet;
}

nobody_connects : new_node.connecting ≡ none
unfolding new_node
nobody_connects = refl

connect_relay-Connects_example :
    HasOneLive
      (connect_relay all_stopped numbered nothing_else closed_by_user timely "relay:1" relay_fp
        (new_node, 4)).1.0
    × Connects "relay:1" relay_fp new_node
        (connect_relay all_stopped numbered nothing_else closed_by_user timely "relay:1" relay_fp
          (new_node, 4)).0
        (connect_relay all_stopped numbered nothing_else closed_by_user timely "relay:1" relay_fp
          (new_node, 4)).1.0
connect_relay-Connects_example =
    connect_relay-Connects all_stopped numbered nothing_else closed_by_user timely "relay:1"
      relay_fp new_node 4 world here nobody_connects
