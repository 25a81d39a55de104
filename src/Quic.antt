-- ===== src/Quic.antt =====
-- uniconn-py/uniconn/quic/conn.py: the connection over the stream reader and writer of aioquic.
pub mod Duplex
pub mod Setup
pub mod Listener
pub mod Dialer
use uniconn.Prelude.{ℕ, String, Bool, true, false, Option, none, some, length, if◌then◌else◌}
use uniconn.Outcome.{ok, raised}
use uniconn.Action.{Action}
use uniconn.Struct.{Bytes}
use uniconn.Asyncio.{StreamReader, StreamWriter, reader_read, writer_write, drain}
use uniconn.Conn.{Conn, given_addr}
use uniconn.Tcp.{connection_closed, answer, counted}

-- `protocol` is the protocol object of aioquic, kept to be closed: whether `close` was called on it.
pub record QuicConn : Type 0 where
  pub reader : StreamReader
  pub writer : StreamWriter
  pub protocol : Option Bool
  pub local : Option String
  pub remote : Option String
  pub closed : Bool

unfoldable pub read : Bytes → Action QuicConn (ℕ × Bytes)
read buf c =
    if c.closed
    then (raised connection_closed, c)
    else let (r, reader') = reader_read (length buf) c.reader in
      (answer buf r, record c { reader = reader' })

unfoldable pub write : Bytes → Action QuicConn ℕ
write message c =
    if c.closed
    then (raised connection_closed, c)
    else let writer' = writer_write message c.writer in
      (counted (length message) (drain c.reader.failure writer'), record c { writer = writer' })

-- `if self._protocol is not None: self._protocol.close()`
abbrev close_protocol : Option Bool → Option Bool
close_protocol none = none
close_protocol (some is_closed) = some true

unfoldable pub close : Action QuicConn (Unit {0})
close c = if c.closed then (ok tt, c) else (
  ok tt,
  record c {
    closed = true;
    writer = record c.writer { closing = true };
    protocol = close_protocol c.protocol;
  },
)

unfoldable pub quic : Conn QuicConn
unfolding read write close
quic = record {
  read = read;
  write = write;
  close = close;
  local_addr = λ c. given_addr "quic" c.local;
  remote_addr = λ c. given_addr "quic" c.remote;
}
