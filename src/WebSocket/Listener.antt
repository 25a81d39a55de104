-- ===== src/WebSocket/Listener.antt =====
-- uniconn-py/uniconn/websocket/listener.py and websocket/dialer.py: `WsListener` and `WsDialer`.
use uniconn.Prelude.{String, false, Option, none, some, []}
use uniconn.Outcome.{Outcome, ok, raised, pending}
use uniconn.Action.{Action, continue}
use uniconn.Asyncio.{to_addr}
use uniconn.Conn.{Addr}
use uniconn.Accepting.{Listener, new_listener, put, bound_to}
use uniconn.WebSocket.{WsConn}

module _ {ℓ} {W : Type ℓ} where
  -- `WsConn(ws, local=local, remote=remote)`
  unfoldable pub new_conn : W → Option Addr → Option Addr → WsConn W
  new_conn ws local remote = record {
    ws = ws;
    read_buf = [];
    closed = false;
    local = local;
    remote = remote;
  }

  -- `handler` up to its wait for the connection's end; `remote_address` is the socket's, if it has one.
  unfoldable pub handler :
      String → String → W → Option (String × String) → Listener (WsConn W) → Listener (WsConn W)
  unfolding new_conn
  handler host port ws remote_address l =
      put
        (new_conn ws (to_addr "websocket" (some (host, port))) (to_addr "websocket" remote_address))
        l

  -- The end of `bind`, at the name of the server's first socket.
  started : Outcome (String × String) → Outcome (Listener (WsConn W))
  started (ok bound) = ok (bound_to (to_addr "websocket" (some bound)) new_listener)
  started (raised e) = raised e
  started pending = pending

  -- `bind`, over `websockets.asyncio.server.serve`, which returns the name of its first socket.
  unfoldable pub bind {κ} :
      {E : Type κ}
      → (String → String → Action E (String × String))
      → String
      → String
      → Action E (Listener (WsConn W))
  unfolding started new_listener bound_to
  bind serve host port e = let (r, e') = serve host port e in (started r, e')

  -- `WsDialer.dial`, over `websockets.connect`, which returns the socket and its remote address.
  unfoldable pub dial {κ} :
      {E : Type κ}
      → (String → Action E (W × Option (String × String)))
      → String
      → Action E (WsConn W)
  unfolding new_conn
  dial connect address e =
      let (r, e') = connect address e in
      continue r
        (λ (ws, remote_address) e''.
          (ok (new_conn ws none (to_addr "websocket" remote_address)), e''))
        e'
