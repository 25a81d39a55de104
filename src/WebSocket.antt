-- ===== src/WebSocket.antt =====
-- uniconn-py/uniconn/websocket/conn.py: a stream over a message-oriented WebSocket.
pub mod Duplex
pub mod Listener
use uniconn.Prelude.{ℕ, Bool, true, false, Option, List, [], ◌∷◌, length, if◌then◌else◌}
use uniconn.Outcome.{Outcome, ok, raised, pending, Exn, is_cancelled, quietly}
use uniconn.Action.{Action, ◌>>=◌}
use uniconn.Struct.{Bytes}
use uniconn.Conn.{Conn, Addr}
use uniconn.Conn.Buffer.{put_front, left_over, keep_rest}
use uniconn.Tcp.{connection_closed}

-- What the `websockets` package provides: `recv`, `send` and `close` of a connection object with the
-- state `W`. A text message is given by its UTF-8 bytes, which is what `data.encode()` makes of it.
pub record WebSocket {ℓ} (W : Type ℓ) : Type ℓ where
  pub recv : Action W Bytes
  pub send : Bytes → Action W (Unit {0})
  pub close : Action W (Unit {0})

pub record WsConn {ℓ} (W : Type ℓ) : Type ℓ where
  pub ws : W
  pub read_buf : Bytes
  pub closed : Bool
  pub local : Option Addr
  pub remote : Option Addr

module _ {ℓ} {W : Type ℓ} (socket : WebSocket W) where
  -- `read` behind `recv`: an exception other than CancelledError and an empty message read as the end of the stream.
  unfoldable pub received : Bytes → Outcome Bytes → Action (WsConn W) (ℕ × Bytes)
  received buf (raised e) c = (if is_cancelled e then raised e else ok (0, buf), c)
  received buf pending c = (pending, c)
  received buf (ok []) c = (ok (0, buf), c)
  received buf (ok (b ∷ bs)) c =
      (ok (put_front buf (b ∷ bs)), record c { read_buf = keep_rest buf (b ∷ bs) c.read_buf })

  read_more : Bytes → Bytes → Action (WsConn W) (ℕ × Bytes)
  unfolding received
  read_more buf [] c = let (r, ws') = socket.recv c.ws in received buf r (record c { ws = ws' })
  read_more buf (b ∷ bs) c =
      (ok (put_front buf (b ∷ bs)), record c { read_buf = left_over buf (b ∷ bs) })

  unfoldable pub read : Bytes → Action (WsConn W) (ℕ × Bytes)
  unfolding read_more
  read buf c = if c.closed then (raised connection_closed, c) else read_more buf c.read_buf c

  -- `return len(data)` behind `send`.
  unfoldable pub sent_all : ℕ → Outcome (Unit {0}) → Outcome ℕ
  sent_all n (ok _) = ok n
  sent_all n (raised e) = raised e
  sent_all n pending = pending

  unfoldable pub write : Bytes → Action (WsConn W) ℕ
  unfolding sent_all
  write message c =
      if c.closed
      then (raised connection_closed, c)
      else let (r, ws') = socket.send message c.ws in
        (sent_all (length message) r, record c { ws = ws' })

  -- An exception of the socket's `close` other than CancelledError is dropped.
  unfoldable pub close : Action (WsConn W) (Unit {0})
  close c =
      if c.closed
      then (ok tt, c)
      else let (r, ws') = socket.close c.ws in (quietly r, record c { ws = ws'; closed = true })

  unfoldable pub websocket : Conn (WsConn W)
  unfolding read write close
  websocket = record {
    read = read;
    write = write;
    close = close;
    local_addr = λ c. c.local;
    remote_addr = λ c. c.remote;
  }
