-- ===== src/Multi/Listener/Ledger.antt =====
-- Where the connections of a `MultiListener` go, over any sequence of events.
use uniconn.Prelude.{ℕ, ◌+◌, ◌≡◌, Bool, true, false, List, [], ◌∷◌, ◌++◌, if◌then◌else◌}
use uniconn.Outcome.{Outcome, ok, raised, pending, Exn}
use uniconn.Multi.Dialer.{Protocol}
use uniconn.Multi.Listener.{
  AcceptResult, MultiListener, loop_accepted, loop_failed, incoming_done, accept_resumes, conns,
  close_begins, close_drains, start, accept_begins,
}

-- What can happen between two awaits of the listener's tasks and of its callers. `closes` and `drains`
-- are the two pieces of `close`, of which the second may be missing, if the call is cancelled between.
pub data Event (C : Type 0) : Type 0 where
  starts begins closes drains : Event C
  takes : ℕ → Event C
  arrives : Protocol → C → Event C
  fails : Exn → Event C
  resumes : ℕ → Bool → Event C

-- The listener, the connections that arrived, those that calls of `accept_with` returned, and whether
-- a `close` has come to its second piece.
pub record Ledger (C : Type 0) : Type 0 where
  pub listener : MultiListener C
  pub arrived : List C
  pub returned : List C
  pub drained : Bool

module _ {C : Type 0} where
  -- The connection in what a call returned.
  abbrev pub given : Outcome (AcceptResult C) → List C
  given (ok r) = r.conn ∷ []
  given (raised e) = []
  given pending = []

module _ {C : Type 0} where
  -- The second piece of a `close` comes behind its first.
  unfoldable pub drain : Ledger C → Ledger C
  drain b =
      if b.listener.closed
      then record b { listener = close_drains b.listener; drained = true }
      else b

  -- A `close` of a closed listener returns at once.
  unfoldable pub begin_close : Ledger C → Ledger C
  begin_close b = if b.listener.closed then b else record b { listener = close_begins b.listener }

  unfoldable pub step : Event C → Ledger C → Ledger C
  unfolding drain begin_close
  step starts b = record b { listener = (start b.listener).1 }
  step begins b = record b { listener = (accept_begins b.listener).1 }
  step (takes call) b = record b { listener = incoming_done call b.listener }
  step closes b = begin_close b
  step drains b = drain b
  step (arrives protocol conn) b = record b {
    listener = loop_accepted protocol conn b.listener;
    arrived = conn ∷ b.arrived;
  }
  step (fails error) b = record b { listener = loop_failed error b.listener }
  step (resumes call cancelled) b =
      let (r, l) = accept_resumes call cancelled b.listener in
      record b { listener = l; returned = given r ++ b.returned }

  unfoldable pub run : List (Event C) → Ledger C → Ledger C
  unfolding step
  run [] b = b
  run (event ∷ events) b = run events (step event b)

  -- The connections that waiting calls have got.
  abbrev pub taken_conns : List (ℕ × AcceptResult C) → List C
  taken_conns [] = []
  taken_conns ((call, r) ∷ taken) = r.conn ∷ taken_conns taken

module _ {C : Type 0} where
  -- How many connections of a list are of a kind.
  abbrev pub count : (C → Bool) → List C → ℕ
  count p [] = 0
  count p (c ∷ cs) = (if p c then 1 else 0) + count p cs

  -- Each connection that arrived is in exactly one place: it was returned, is in the queue, is with a
  -- call that waits, or was closed; and a listener that has emptied its queue in `close` is closed and
  -- has none in it.
  pub record IsBalanced (b : Ledger C) : Type 0 where
    pub accounts :
        (p : C → Bool)
        → count p b.arrived
          ≡ count p b.returned
            + (count p (conns b.listener.queue)
                + (count p (taken_conns b.listener.taken) + count p b.listener.shut))
    pub emptied : b.drained ≡ true → (b.listener.closed ≡ true) × (b.listener.queue ≡ [])
    pub stays_ended : b.listener.closed ≡ true → b.listener.ended ≡ true

  -- A listener to which nothing has happened.
  abbrev pub opened : MultiListener C → Ledger C
  opened l = record { listener = l; arrived = []; returned = []; drained = false }
