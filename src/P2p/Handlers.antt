-- ===== src/P2p/Handlers.antt =====
-- The handlers of p2p/node.py that work on one session, put together out of the pieces of P2p/Session:
-- `_setup`, `dial_peer` behind its first checks, and `_accept_relay_proxy`. What is awaited is a
-- parameter, which acts on the session too, since other tasks run meanwhile.
pub mod Goes
pub mod Steps
pub mod Waits
pub mod Ownership
pub mod Settled
pub mod Proxy
pub mod Accepting
use uniconn.Prelude.{ℕ, String, Option, none, some, if◌then◌else◌}
use uniconn.Outcome.{
  is_cancelled, Outcome, ok, raised, pending, Exn, exn, timeout_error, cancelled_error, text,
}
use uniconn.Action.{Action, continue, pure, raise, lift, ◌>>=◌, ◌>>◌}
use uniconn.Struct.{Bytes}
use uniconn.Json.{Json}
use uniconn.P2p.Session.{
  Session, setup_starts, setup_dialed, setup_operated, setup_returns, queue_incoming, dial_returns,
}
use uniconn.P2p.Operations.{requester_fingerprint}

-- A piece between two awaits.
abbrev pub on_session {ℓ} : {W : Type ℓ} {A : Type 0} → Action Session A → Action (Session × W) A
on_session m (s, w) = let (r, s') = m s in (r, (s', w))

-- How the `wait_for` of `_setup` goes: undisturbed; its time was up before the task `run` ended; or a
-- cancel of the call, or the end of its time, came between the end of `run` and the resumption of the
-- call, which `wait_for` raises as of Python 3.12, whatever `run` came to.
pub data Waited : Type 0 where
  timely time_up gap_cancelled gap_timed_out : Waited

-- A run that raised: if it was cancelled since its time was up, a TimeoutError.
unfoldable pub in_time_raised : Waited → Exn → Exn
in_time_raised timely e = e
in_time_raised time_up e = if is_cancelled e then exn timeout_error (text "") else e
in_time_raised gap_cancelled e = exn cancelled_error (text "")
in_time_raised gap_timed_out e = exn timeout_error (text "")

-- `wait_for`
unfoldable pub in_time {ℓ} : {A : Type ℓ} → Waited → Outcome A → Outcome A
unfolding in_time_raised
in_time waited pending = pending
in_time waited (raised e) = raised (in_time_raised waited e)
in_time timely (ok a) = ok a
in_time time_up (ok a) = ok a
in_time gap_cancelled (ok a) = raised (exn cancelled_error (text ""))
in_time gap_timed_out (ok a) = raised (exn timeout_error (text ""))

-- An exception other than CancelledError is logged.
unfoldable pub logged : Outcome (Unit {0}) → Outcome (Unit {0})
logged (raised e) = if is_cancelled e then raised e else ok tt
logged r = r

module _ {ℓ} {W : Type ℓ} {A : Type 0} where
  -- `run` behind `await operation(raw)`.
  unfoldable pub run_operated : ℕ → Outcome A → Action (Session × W) (ℕ × A)
  run_operated raw (ok result) = on_session (setup_operated raw none) >>= λ _. pure (raw, result)
  run_operated raw (raised e) = on_session (setup_operated raw (some e)) >>= λ _. raise e
  run_operated raw pending = lift pending

module _ {ℓ} {W : Type ℓ} (dial : String → Action (Session × W) ℕ) {A : Type 0} where
  module _ (operation : ℕ → Action (Session × W) A) where
    -- `run` behind `await self.dialer.dial(session.addr)`.
    unfoldable pub run_dialed : ℕ → Action (Session × W) (ℕ × A)
    unfolding run_operated
    run_dialed raw = on_session (setup_dialed raw) >>= λ _ x.
        let (r, x') = operation raw x in run_operated raw r x'

    unfoldable pub run : Action (Session × W) (ℕ × A)
    unfolding run_dialed
    run (s, w) = (lift (setup_starts s) >>= λ _. dial s.addr >>= run_dialed) (s, w)

-- `meanwhile` is what other tasks do between the end of the task `run` and the resumption of the call
-- that waits for it.
module _ {ℓ} {W : Type ℓ} (dial : String → Action (Session × W) ℕ)
    (meanwhile : Session × W → Session × W) {A : Type 0} where
  abbrev pub resumed : Outcome (ℕ × A) → Session × W → Session × W
  resumed pending x = x
  resumed _ x = meanwhile x

  module _ (operation : ℕ → Action (Session × W) A) where
    -- `_setup`; `waited` is how its `wait_for` goes.
    unfoldable pub setup : Waited → Action (Session × W) (ℕ × A)
    setup waited x =
        let (r, x') = run dial operation x in
        let y = resumed r x' in (setup_returns (in_time waited r) y.0, y)

    -- `dial_peer` behind `_current_session`.
    unfoldable pub dial_peer : Waited → Action (Session × W) (ℕ × A)
    dial_peer waited =
        setup waited >>= λ (raw, conn). on_session (dial_returns raw) >>= λ _. pure (raw, conn)

  -- `_accept_relay_proxy`, with the operation `accept` for a payload and a fingerprint.
  unfoldable pub accept_relay_proxy :
      (Json → Bytes → ℕ → Action (Session × W) A) → Waited → Json → Action (Session × W) (Unit {0})
  unfolding logged
  accept_relay_proxy operation waited payload x =
      let (r, x') =
        (lift (requester_fingerprint payload) >>= λ fp.
        setup (operation payload fp) waited >>= λ (raw, conn).
        on_session (λ s. (ok tt, queue_incoming raw s)))
          x in
      (logged r, x')
