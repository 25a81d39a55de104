-- ===== src/Accepting.antt =====
-- What `TcpListener`, `WsListener`, `QuicListener` and `WebTransportListener` under uniconn-py/uniconn
-- have in common: a queue of connections that the server's callback fills, and a server to close.
pub mod Order
pub mod Promise
use uniconn.Prelude.{
  ℕ, ◌+◌, Bool, true, false, Option, none, some, List, [], ◌∷◌, ◌++◌, if◌then◌else◌,
}
use uniconn.Outcome.{Outcome, ok, pending}
use uniconn.Action.{Action}
use uniconn.Conn.{Addr}

-- `server_closes` is how often `close` was called on the server.
pub record Listener {ℓ} (C : Type ℓ) : Type ℓ where
  pub conn_queue : List C
  pub closed : Bool
  pub server_closes : ℕ
  pub addr : Option Addr

module _ {ℓ} {C : Type ℓ} where
  -- `cls.__new__(cls)` with an empty queue
  unfoldable pub new_listener : Listener C
  new_listener = record { conn_queue = []; closed = false; server_closes = 0; addr = none }

  -- `listener._conn_queue.put(conn)`
  unfoldable pub put : C → Listener C → Listener C
  put c l = record l { conn_queue = l.conn_queue ++ (c ∷ []) }

  unfoldable pub first_of : List C → Action (Listener C) C
  first_of [] l = (pending, l)
  first_of (c ∷ others) l = (ok c, record l { conn_queue = others })

  -- `return await self._conn_queue.get()`
  unfoldable pub accept : Action (Listener C) C
  unfolding first_of
  accept l = first_of l.conn_queue l

  -- `close`; `server_wait` is what the wait for the server to end comes to, which the listeners of
  -- QUIC and WebTransport do not have.
  unfoldable pub close : Outcome (Unit {0}) → Action (Listener C) (Unit {0})
  close server_wait l =
      if l.closed
      then (ok tt, l)
      else (server_wait, record l { closed = true; server_closes = l.server_closes + 1 })

  -- `listener._addr = ...`
  unfoldable pub bound_to : Option Addr → Listener C → Listener C
  bound_to addr l = record l { addr = addr }
