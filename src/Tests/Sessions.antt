-- ===== src/Tests/Sessions.antt =====
-- A node and a session of p2p/node.py over a few steps.
use uniconn.Prelude.{◌≡◌, refl, true, none, some, [], ◌∷◌, replicate}
use uniconn.Outcome.{ok, raised, exn, connection_error, text}
use uniconn.Struct.{Bytes}
use uniconn.P2p.Session.{
  Session, new_session, discard, setup_starts, setup_dialed, setup_operated, dial_returns,
  stop_begins, controlled_by,
}
use uniconn.P2p.Session.Life.{
  Life, moved, opening, ready, returned, phase_by, Reach, here, later, dials, operates, hands_over,
  stops,
}
use uniconn.P2p.Session.Life.Ownership.{IsOwned, opened, Reach-IsOwned}
use uniconn.P2p.Node.{
  Node, new_node, node_closed, current_session, connect_begins, connect_continues, connect_returns,
  close, create_session,
}
use uniconn.P2p.Node.Lifecycle.{
  NodeReach, HasOneLive, connect_starts, connect_goes_on, connect_done, Reach-HasOneLive,
}
use uniconn.P2p.Node.Closing.{IsShut, closed_node-IsShut, close_overtaken, overtaken}
use uniconn.P2p.Node.Lifecycle

abbrev pub relay_fp : Bytes
relay_fp = replicate 64 7

-- Connection 1 is dialled, set up and returned to a caller, connection 2 is dialled, and the session
-- stops.
abbrev first_dialed : Life
first_dialed =
    moved (opened "relay:1" relay_fp) (setup_dialed 1 (new_session "relay:1" relay_fp)).1 1
      (phase_by opening (setup_dialed 1 (new_session "relay:1" relay_fp)).0)

abbrev pub first_ready : Life
first_ready =
    moved first_dialed (setup_operated 1 none first_dialed.session).1 1
      (phase_by ready (setup_operated 1 none first_dialed.session).0)

abbrev first_returned : Life
first_returned =
    moved first_ready (dial_returns 1 first_ready.session).1 1
      (phase_by returned (dial_returns 1 first_ready.session).0)

abbrev second_dialed : Life
second_dialed =
    moved first_returned (setup_dialed 2 first_returned.session).1 2
      (phase_by opening (setup_dialed 2 first_returned.session).0)

abbrev stopped : Life
stopped = record second_dialed {
  session = stop_begins (exn connection_error (text "gone")) second_dialed.session;
}

life : Reach (opened "relay:1" relay_fp) stopped
unfolding new_session setup_dialed setup_operated dial_returns stop_begins
life =
    later
      (later
        (later (later (later here (dials 1 refl refl)) (operates 1 none refl refl))
          (hands_over 1 refl refl))
        (dials 2 refl refl))
      (stops (exn connection_error (text "gone")) refl)

what_stopped :
    (stopped.session.shut ≡ 2 ∷ [])
    × (stopped.phase 1 ≡ returned)
    × (stopped.session.pending_set ≡ [])
unfolding new_session setup_dialed setup_operated dial_returns stop_begins discard
what_stopped = (refl, refl, refl)

Reach-IsOwned_example : IsOwned stopped
Reach-IsOwned_example = Reach-IsOwned "relay:1" relay_fp life

-- A node that connects to one relay, and, with that session running, to another.
abbrev connected_node : Node
connected_node = connect_returns "relay:1" relay_fp 1 (connect_begins "relay:1" relay_fp new_node).1

abbrev replacing : Node
replacing = (connect_begins "relay:2" relay_fp connected_node).1

abbrev reconnected : Node
reconnected = connect_continues "relay:2" relay_fp replacing

replacing_waits : replacing.connecting ≡ some ("relay:2", relay_fp)
unfolding connect_begins connect_returns new_node new_session create_session controlled_by
replacing_waits = refl

node_life : NodeReach new_node reconnected
node_life =
    Lifecycle.later
      (Lifecycle.later
        (Lifecycle.later (Lifecycle.later Lifecycle.here (connect_starts "relay:1" relay_fp refl))
          (connect_done "relay:1" relay_fp 1 refl))
        (connect_starts "relay:2" relay_fp refl))
      (connect_goes_on "relay:2" relay_fp replacing_waits refl)

Reach-HasOneLive_example : HasOneLive reconnected
Reach-HasOneLive_example = Reach-HasOneLive node_life

alone : connected_node.connecting ≡ none
unfolding connect_begins connect_returns new_node create_session
alone = refl

closed_node-IsShut_example :
    IsShut (connect_begins "relay:3" relay_fp (close connected_node)).1
    × (current_session (connect_begins "relay:3" relay_fp (close connected_node)).1
        ≡ raised node_closed)
closed_node-IsShut_example =
    closed_node-IsShut connected_node alone
      (Lifecycle.later Lifecycle.here (connect_starts "relay:3" relay_fp refl))

abbrev first_session : Session
unfolding controlled_by
first_session = controlled_by 1 (new_session "relay:1" relay_fp)

connected_session : connected_node.session ≡ some first_session
unfolding connect_begins connect_returns new_node create_session new_session controlled_by
connected_session = refl

close_overtaken_example :
    ((connect_begins "relay:2" relay_fp connected_node).1.connecting ≡ some ("relay:2", relay_fp))
    × ((overtaken "relay:2" relay_fp connected_node).closed ≡ true)
    × ((overtaken "relay:2" relay_fp connected_node).session
        ≡ some (new_session "relay:2" relay_fp))
    × (setup_starts (new_session "relay:2" relay_fp) ≡ ok tt)
unfolding connect_begins connect_returns new_node create_session new_session controlled_by
close_overtaken_example =
    close_overtaken connected_node first_session "relay:2" relay_fp connected_session refl refl refl
