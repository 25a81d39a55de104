-- ===== src/Multi/Listener.antt =====
-- `MultiListener` of uniconn-py/uniconn/multi/__init__.py: connections from several listeners in one
-- queue. Each function is what runs between two awaits.
pub mod Ledger
pub mod Balance
use uniconn.Prelude.{
  ℕ, ◌-◌, String, Bool, true, false, Option, none, some, List, [], ◌∷◌, ◌++◌, ◌==◌, length, map,
  if◌then◌else◌,
}
use uniconn.Outcome.{
  Outcome, ok, raised, pending, Exn, exn, runtime_error, value_error, cancelled_error, text,
  is_cancelled, ◌>>=◌,
}
use uniconn.Action.{Action, continue}
use uniconn.Multi.Dialer.{Protocol, ProtocolEntry, NegotiateResponse}

-- The listener itself is a parameter, where it is used.
pub record TransportConfig : Type 0 where
  pub protocol : Protocol
  pub address : String

pub record AcceptResult (C : Type 0) : Type 0 where
  pub conn : C
  pub protocol : Protocol

-- `started` is whether there are tasks. `taken` are the results that the tasks `incoming` of calls of
-- `accept_with` have got from the queue and that their calls, which are numbered, have not looked at,
-- and `shut` the connections whose `close` was called here.
pub record MultiListener (C : Type 0) : Type 0 where
  pub transports : List TransportConfig
  pub queue : List (AcceptResult C)
  pub closed : Bool
  pub started : Bool
  pub ended : Bool
  pub accept_error : Option Exn
  pub active_loops : ℕ
  pub taken : List (ℕ × AcceptResult C)
  pub shut : List C

abbrev pub listener_closed : Exn
listener_closed = exn runtime_error (text "listener closed")

-- `self._accept_error or RuntimeError("listener closed")`
unfoldable pub end_error : Option Exn → Exn
end_error none = listener_closed
end_error (some error) = error

-- The first of the results that `gather` collects that is an `Exception`; CancelledError is none.
unfoldable pub first_error : List (Option Exn) → Outcome (Unit {0})
first_error [] = ok tt
first_error (none ∷ results) = first_error results
first_error (some error ∷ results) =
    let others = first_error results in if is_cancelled error then others else raised error

module _ {C : Type 0} where
  -- `MultiListener(transports)`
  unfoldable pub new : List TransportConfig → Outcome (MultiListener C)
  new [] = raised (exn value_error (text "multi: at least one transport is required"))
  new (t ∷ ts) = ok (record {
    transports = t ∷ ts;
    queue = [];
    closed = false;
    started = false;
    ended = false;
    accept_error = none;
    active_loops = 0;
    taken = [];
    shut = [];
  })

  unfoldable pub start : Action (MultiListener C) (Unit {0})
  start l =
      if l.closed
      then (raised listener_closed, l)
      else if l.started
      then (ok tt, l)
      else (ok tt, record l { active_loops = length l.transports; started = true })

  unfoldable pub get_negotiate_response : Option String → MultiListener C → NegotiateResponse
  get_negotiate_response fingerprint l = record {
    protocols =
        map (λ (t : TransportConfig). record { name = t.protocol; address = t.address })
          l.transports;
    fingerprint = fingerprint;
  }

  -- `_accept_loop` behind `listener.accept()`, when it returned a connection.
  unfoldable pub loop_accepted : Protocol → C → MultiListener C → MultiListener C
  loop_accepted protocol conn l =
      if l.closed
      then record l { shut = l.shut ++ (conn ∷ []) }
      else record l { queue = l.queue ++ (record { conn = conn; protocol = protocol } ∷ []) }

  -- The same when it raised: the count of loops becomes 0 where it was 1.
  unfoldable pub loop_failed : Exn → MultiListener C → MultiListener C
  loop_failed error l =
      if l.closed
      then l
      else if l.active_loops == 1
      then record l { active_loops = 0; accept_error = some error; ended = true }
      else record l { active_loops = l.active_loops - 1 }

  -- `accept_with` up to its wait.
  unfoldable pub accept_begins : Action (MultiListener C) (Unit {0})
  accept_begins l = if l.ended then (raised (end_error l.accept_error), l) else (ok tt, l)

  -- The task `incoming` of the call `call`, which waits, gets the first result of the queue.
  take_first : ℕ → List (AcceptResult C) → MultiListener C → MultiListener C
  take_first call [] l = l
  take_first call (r ∷ queue) l = record l { queue = queue; taken = l.taken ++ ((call, r) ∷ []) }

  unfoldable pub incoming_done : ℕ → MultiListener C → MultiListener C
  unfolding take_first
  incoming_done call l = take_first call l.queue l

  -- What the task of the call `call` has got, and what those of the other calls have.
  unfoldable pub taken_by :
      ℕ → List (ℕ × AcceptResult C) → Option (AcceptResult C) × List (ℕ × AcceptResult C)
  taken_by call [] = (none, [])
  taken_by call ((k, r) ∷ taken) =
      let (found, others) = taken_by call taken in
      if k == call then (some r, taken) else (found, (k, r) ∷ others)

  -- `accept_with` behind its wait: `cancelled` is whether the call was cancelled meanwhile. With nothing
  -- got from the queue, it raises, or waits.
  resume_with :
      Option (AcceptResult C)
      → List (ℕ × AcceptResult C)
      → Bool
      → Action (MultiListener C) (AcceptResult C)
  resume_with none others cancelled l =
      if cancelled
      then (raised (exn cancelled_error (text "")), l)
      else if l.ended
      then (raised (end_error l.accept_error), l)
      else (pending, l)
  resume_with (some r) others cancelled l =
      if cancelled
      then (
        raised (exn cancelled_error (text "")),
        record l { taken = others; shut = l.shut ++ (r.conn ∷ []) },
      )
      else if l.ended
      then (
        raised (end_error l.accept_error),
        record l { taken = others; shut = l.shut ++ (r.conn ∷ []) },
      )
      else (ok r, record l { taken = others })

  unfoldable pub accept_resumes : ℕ → Bool → Action (MultiListener C) (AcceptResult C)
  unfolding resume_with
  accept_resumes call cancelled l =
      let (found, others) = taken_by call l.taken in resume_with found others cancelled l

  -- `accept`, behind the wait of `accept_with`.
  unfoldable pub accept : ℕ → Bool → Action (MultiListener C) C
  accept call cancelled l =
      let (r, l') = accept_resumes call cancelled l in (r >>= λ result. ok result.conn, l')

  unfoldable pub conns : List (AcceptResult C) → List C
  conns [] = []
  conns (r ∷ rs) = r.conn ∷ conns rs

  -- `close` up to the wait for its tasks.
  unfoldable pub close_begins : MultiListener C → MultiListener C
  close_begins l = record l { closed = true; ended = true }

  -- `close` behind that wait, up to its second: it calls the `close` of the listeners and of the
  -- connections that were in the queue.
  unfoldable pub close_drains : MultiListener C → MultiListener C
  unfolding conns
  close_drains l = record l { queue = []; shut = l.shut ++ conns l.queue }

  -- `close`. `wait_tasks` is its first wait and `wait_closes` its second, which has the results of the
  -- listeners and the connections; other tasks run in them, and a cancel makes them raise.
  unfoldable pub close :
      Action (MultiListener C) (Unit {0})
      → Action (MultiListener C) (List (Option Exn))
      → Action (MultiListener C) (Unit {0})
  unfolding first_error close_begins close_drains
  close wait_tasks wait_closes l =
      if l.closed
      then (ok tt, l)
      else (let (waited, l') = wait_tasks (close_begins l) in
          continue waited
            (λ _ m.
              let (closes, m') = wait_closes (close_drains m) in
              (closes >>= λ results. first_error results, m'))
            l')
