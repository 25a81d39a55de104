-- ===== src/Tcp/Listener.antt =====
-- uniconn-py/uniconn/tcp/listener.py and tcp/dialer.py: `TcpListener` and `TcpDialer`.
pub mod Dialing
use uniconn.Prelude.{ℕ, String, Bool, false, Option, none, some}
use uniconn.Outcome.{Outcome, ok, raised, Exn, exn, value_error, text, ◌>>=◌}
use uniconn.Action.{Action, continue}
use uniconn.Asyncio.{StreamReader, StreamWriter, to_addr}
use uniconn.Conn.{Addr}
use uniconn.Address.{rsplit_colon}
use uniconn.Accepting.{Listener, new_listener, put, bound_to}
use uniconn.Tcp.{TcpConn}

-- `TcpConn(reader, writer)`
unfoldable pub new_conn : StreamReader → StreamWriter → TcpConn
new_conn reader writer = record { reader = reader; writer = writer; closed = false }

-- `on_connect`
unfoldable pub on_connect : StreamReader → StreamWriter → Listener TcpConn → Listener TcpConn
unfolding new_conn
on_connect reader writer l = put (new_conn reader writer) l

-- `bind`, over `asyncio.start_server`, which returns the name of its first socket.
unfoldable pub bind {ℓ} :
    {E : Type ℓ}
    → (String → String → Action E (String × String))
    → String
    → String
    → Action E (Listener TcpConn)
unfolding new_listener bound_to
bind start_server host port e =
    let (r, e') = start_server host port e in
    continue r (λ bound e''. (ok (bound_to (to_addr "tcp" (some bound)) new_listener), e'')) e'

-- `host, port_str = address.rsplit(":", 1)` and `port = int(port_str)`; `int` is Python's.
abbrev pub parts_or_error : Option (String × String) → Outcome (String × String)
parts_or_error none = raised (exn value_error (text "not enough values to unpack"))
parts_or_error (some parts) = ok parts

unfoldable pub host_and_port : (String → Outcome ℕ) → String → Outcome (String × ℕ)
host_and_port int address = do
  (host, port_str) ← parts_or_error (rsplit_colon address)
  port ← int port_str
  ok (host, port)

-- `TcpDialer.dial`, over `asyncio.open_connection`.
unfoldable pub dial {ℓ} :
    {E : Type ℓ}
    → (String → Outcome ℕ)
    → (String → ℕ → Action E (StreamReader × StreamWriter))
    → String
    → Action E TcpConn
dial int open_connection address e =
    continue (host_and_port int address)
      (λ (host, port) e'.
        let (r, e'') = open_connection host port e' in
        continue r (λ (reader, writer) e'''. (ok (new_conn reader writer), e''')) e'')
      e
