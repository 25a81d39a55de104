-- ===== src/P2p/Control.antt =====
-- `_read_control_loop` of p2p/node.py: the messages that the relay sends on the control connection.
pub mod Dispatch
use uniconn.Prelude.{ℕ, zero, suc, Option, none, some, List, [], ◌∷◌, ◌++◌, if◌then◌else◌}
use uniconn.Outcome.{Outcome, ok, raised, pending, Exn, exn, connection_error, caused}
use uniconn.Action.{Action, continue, lift, ◌>>=◌}
use uniconn.Conn.{Conn}
use uniconn.Json.{Json}
use uniconn.Json.Access.{JsonCodec}
use uniconn.P2p.Envelope.{read_envelope}
use uniconn.P2p.Operations.{incoming_payload}
use uniconn.Outcome.{is_cancelled}

-- The task that a message starts, by its payload.
abbrev pub started : Outcome (Option Json) → List Json
started (ok (some payload)) = payload ∷ []
started _ = []

-- `ConnectionError(f"relay control connection lost: {error}")`
abbrev pub control_lost_error : Exn → Exn
control_lost_error e = exn connection_error (caused "relay control connection lost" "" e)

module _ {ℓ} {S : Type ℓ} (conn : Conn S) (codec : JsonCodec) where
  -- The loop, with the payloads of the tasks of `_accept_relay_proxy` that it has started. It ends
  -- by an exception only; out of fuel, it is still running.
  unfoldable pub control_loop : ℕ → Action (List Json × S) (Unit {0})
  control_loop zero x = (pending, x)
  control_loop (suc rounds) (tasks, s) =
      let (r, s') = (read_envelope conn codec >>= λ env. lift (incoming_payload env)) s in
      continue r (λ _. control_loop rounds) (tasks ++ started r, s')

  -- The reason with which `_stop_session` is called, if the loop has ended by an exception other than
  -- CancelledError, which goes on.
  stop_reason : Outcome (Unit {0}) → Option Exn
  stop_reason (raised e) = if is_cancelled e then none else some (control_lost_error e)
  stop_reason _ = none

  unfoldable pub read_control_loop : ℕ → List Json × S → Option Exn × (List Json × S)
  unfolding stop_reason
  read_control_loop rounds x = let (r, x') = control_loop rounds x in (stop_reason r, x')
