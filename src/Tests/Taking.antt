-- ===== src/Tests/Taking.antt =====
-- An `accept` of p2p/node.py that gets a connection from the queue and is then cancelled.
use uniconn.Prelude.{ℕ, refl, true, Option, none, some, arith, []}
use uniconn.P2p.Session.{
  Session, new_session, setup_dialed, setup_operated, queue_incoming, incoming_done,
}
use uniconn.P2p.Session.Life.{
  Life, moved, queued, taken, Reach, here, later, dials, operates, queues, takes,
}
use uniconn.P2p.Session.Life.Ownership.{opened}
use uniconn.P2p.Handlers.Accepting.{accept_peer, IsHandedOver, Awaits, accept_peer-IsHandedOver}
use uniconn.Tests.Sessions.{relay_fp, first_ready}

abbrev first_queued : Life
first_queued = moved first_ready (queue_incoming 1 first_ready.session) 1 queued

queueing : Reach (opened "relay:1" relay_fp) first_queued
unfolding new_session setup_dialed setup_operated
queueing =
    later (later (later here (dials 1 refl refl)) (operates 1 none refl refl)) (queues 1 refl refl)

-- The task of this call gets the connection 1.
abbrev wait_for_one : Session × ℕ → Option ℕ × (Session × ℕ)
wait_for_one (s, n) = (some 1, (incoming_done s, n))

first_taken :
    Awaits first_queued
      (wait_for_one (first_queued.session, 0)).0
      (wait_for_one (first_queued.session, 0)).1.0
unfolding new_session setup_dialed setup_operated queue_incoming incoming_done
first_taken = record {
  after = moved first_queued (incoming_done first_queued.session) 1 taken;
  reach = later here (takes 1 [] refl refl);
  session_is = refl;
  got_is = λ raw e. ground arith;
}

accept_peer-IsHandedOver_example :
    IsHandedOver
      (wait_for_one (first_queued.session, 0)).0
      (accept_peer wait_for_one true (first_queued.session, 0)).0
      (accept_peer wait_for_one true (first_queued.session, 0)).1.0
accept_peer-IsHandedOver_example =
    accept_peer-IsHandedOver wait_for_one true "relay:1" relay_fp first_queued 0 queueing
      first_taken
