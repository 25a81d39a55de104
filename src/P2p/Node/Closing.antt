-- ===== src/P2p/Node/Closing.antt =====
-- What `close` of a node of p2p/node.py does to its session, and what may come after it.
use uniconn.Prelude.{◌≡◌, refl, sym, subst, String, true, false, none, some, arith, length}
use uniconn.Outcome.{ok, raised}
use uniconn.Struct.{Bytes}
use uniconn.P2p.Session.{Session, new_session, set_error, setup_starts}
use uniconn.P2p.Node.{
  Node, node_closed, current_session, create_session, connect_begins, connect_continues,
  connect_fails, connect_cancelled, connect_returns, control_lost, close, close_ends,
}
use uniconn.P2p.Node.Lifecycle.{
  IsOver, NodeStep, connect_starts, connect_goes_on, connect_gives_up, connect_raises, connect_done,
  control_fails, works, closes, close_done, NodeReach, here, later, stop-IsOver, drain-IsOver,
  control-IsOver, work-IsOver,
}

-- A node that is closed and has no session running, where no `connect_relay` waits for an old
-- session to stop.
pub record IsShut (n : Node) : Type 0 where
  pub is_closed : n.closed ≡ true
  pub alone : n.connecting ≡ none
  pub session_over : IsOver n.session

Step-IsShut : (n m : Node) → NodeStep n m → IsShut n → IsShut m
unfolding connect_begins connect_continues create_session connect_fails connect_cancelled
    connect_returns control_lost close close_ends
Step-IsShut n m (connect_starts addr fp e) h = subst IsShut (sym e) (ground arith)
Step-IsShut n m (connect_goes_on addr fp p e) h = absurd (cc (p, h.alone))
Step-IsShut n m (connect_gives_up e) h =
    subst IsShut (sym e)
      (record { is_closed = h.is_closed; alone = refl; session_over = h.session_over })
Step-IsShut n m (connect_raises e) h =
    subst IsShut (sym e)
      (record { is_closed = h.is_closed; alone = h.alone; session_over = stop-IsOver _ n.session })
Step-IsShut n m (connect_done addr fp raw e) h = subst IsShut (sym e) (record {
  is_closed = h.is_closed;
  alone = h.alone;
  session_over = control-IsOver raw n.session h.session_over;
})
Step-IsShut n m (control_fails reason e) h = subst IsShut (sym e) (record {
  is_closed = h.is_closed;
  alone = h.alone;
  session_over = stop-IsOver reason n.session;
})
Step-IsShut n m (works l k p st e) h = subst IsShut (sym e) (record {
  is_closed = h.is_closed;
  alone = h.alone;
  session_over = work-IsOver n.session l k p st h.session_over;
})
Step-IsShut n m (closes e) h =
    subst IsShut (sym e)
      (record { is_closed = refl; alone = h.alone; session_over = stop-IsOver _ n.session })
Step-IsShut n m (close_done e) h = subst IsShut (sym e) (record {
  is_closed = h.is_closed;
  alone = h.alone;
  session_over = drain-IsOver n.session h.session_over;
})

close-IsShut : (n : Node) {m : Node} → n.connecting ≡ none → NodeReach (close n) m → IsShut m
unfolding close
close-IsShut n alone here = record {
  is_closed = refl;
  alone = alone;
  session_over = stop-IsOver _ n.session;
}
close-IsShut n alone (later {m} {k} r st) = Step-IsShut m k st (close-IsShut n alone r)

-- After `close` of a node in which no `connect_relay` waits for an old session to stop, whatever
-- comes: the node stays closed, its session has ended, and `dial_peer` and `accept` raise
-- ConnectionError.
pub closed_node-IsShut :
    (n : Node) {m : Node}
    → n.connecting ≡ none
    → NodeReach (close n) m
    → IsShut m × (current_session m ≡ raised node_closed)
unfolding current_session
closed_node-IsShut n alone r = let h = close-IsShut n alone r in (h, rw h.is_closed refl)

-- `connect_relay` of a node whose `close` is called while it waits for the old session to stop.
abbrev pub overtaken : String → Bytes → Node → Node
overtaken addr fp n = connect_continues addr fp (close (connect_begins addr fp n).1)

-- If `close` is called while `connect_relay` waits for the old session to stop, `connect_relay` does
-- not notice: it gives the closed node a new session that has not ended, and whose setup goes on to
-- dial.
pub close_overtaken :
    (n : Node) (s : Session) (addr : String) (fp : Bytes)
    → n.session ≡ some s
    → set_error s.error ≡ false
    → n.closed ≡ false
    → length fp ≡ 64
    → ((connect_begins addr fp n).1.connecting ≡ some (addr, fp))
      × ((overtaken addr fp n).closed ≡ true)
      × ((overtaken addr fp n).session ≡ some (new_session addr fp))
      × (setup_starts (new_session addr fp) ≡ ok tt)
unfolding connect_begins connect_continues create_session close setup_starts new_session
close_overtaken n s addr fp has running is_open sized = ground arith
