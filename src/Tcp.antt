-- ===== src/Tcp.antt =====
-- uniconn-py/uniconn/tcp/conn.py: the connection over asyncio's streams.
pub mod Duplex
pub mod Listener
pub mod Ended
use uniconn.Prelude.{ℕ, Bool, true, false, Option, some, [], ◌∷◌, length, if◌then◌else◌}
use uniconn.Outcome.{Outcome, ok, raised, pending, Exn, exn, connection_closed_error, text, quietly}
use uniconn.Action.{Action}
use uniconn.Struct.{Bytes, set_slice}
use uniconn.Asyncio.{StreamReader, StreamWriter, reader_read, writer_write, drain, to_addr}
use uniconn.Conn.{Conn, Addr}

-- The message of `ConnectionClosedError` (errors.py).
abbrev pub connection_closed : Exn
connection_closed = exn connection_closed_error (text "connection is closed")

pub record TcpConn : Type 0 where
  pub reader : StreamReader
  pub writer : StreamWriter
  pub closed : Bool

-- `if not data: return 0`, and otherwise the bytes at the front of the buffer.
unfoldable pub fill_front : Bytes → Bytes → ℕ × Bytes
fill_front buf [] = (0, buf)
fill_front buf (b ∷ bs) = let n = length (b ∷ bs) in (n, set_slice 0 n (b ∷ bs) buf)

-- What `read` makes of the reader's answer.
unfoldable pub answer : Bytes → Outcome Bytes → Outcome (ℕ × Bytes)
unfolding fill_front
answer buf (ok bytes) = ok (fill_front buf bytes)
answer buf (raised e) = raised e
answer buf pending = pending

unfoldable pub read : Bytes → Action TcpConn (ℕ × Bytes)
unfolding answer
read buf c =
    if c.closed
    then (raised connection_closed, c)
    else let (r, reader') = reader_read (length buf) c.reader in
      (answer buf r, record c { reader = reader' })

-- `return len(data)` behind `drain`.
unfoldable pub counted : ℕ → Outcome (Unit {0}) → Outcome ℕ
counted n (ok _) = ok n
counted n (raised e) = raised e
counted n pending = pending

unfoldable pub write : Bytes → Action TcpConn ℕ
unfolding counted
write message c =
    if c.closed
    then (raised connection_closed, c)
    else let writer' = writer_write message c.writer in
      (counted (length message) (drain c.reader.failure writer'), record c { writer = writer' })

-- An exception of `wait_closed` other than CancelledError is dropped.
unfoldable pub close : Action TcpConn (Unit {0})
close c = if c.closed then (ok tt, c) else (
  quietly c.writer.wait_closed,
  record c { closed = true; writer = record c.writer { closing = true } },
)

unfoldable pub tcp : Conn TcpConn
unfolding read write close
tcp = record {
  read = read;
  write = write;
  close = close;
  local_addr = λ c. to_addr "tcp" c.writer.sockname;
  remote_addr = λ c. to_addr "tcp" c.writer.peername;
}
