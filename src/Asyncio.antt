-- ===== src/Asyncio.antt =====
-- The parts of Python's asyncio that the adapters stand on: stream readers and writers, and queues.
use Prim.Native.String.{◌++◌ as str_append}
use uniconn.Prelude.{
  ℕ, String, Bool, Option, none, some, [], ◌∷◌, ◌++◌, ◌==◌, take, drop, if◌then◌else◌,
}
use uniconn.Outcome.{Outcome, ok, raised, pending, Exn, exn, connection_error, text}
use uniconn.Action.{Action}
use uniconn.Struct.{Bytes}
use uniconn.Conn.{Addr}

-- `StreamReader`: what has arrived and was not read, whether the peer has ended the stream, and the
-- exception that the transport has reported.
pub record StreamReader : Type 0 where
  pub arrived : Bytes
  pub at_eof : Bool
  pub failure : Option Exn

read_arrived : ℕ → Bytes → Action StreamReader Bytes
read_arrived n [] r = if r.at_eof then (ok [], r) else (pending, r)
read_arrived n (b ∷ bs) r = (ok (take n (b ∷ bs)), record r { arrived = drop n (b ∷ bs) })

read_unless : Option Exn → ℕ → Action StreamReader Bytes
unfolding read_arrived
read_unless (some e) n r = (raised e, r)
read_unless none n r = if n == 0 then (ok [], r) else read_arrived n r.arrived r

-- `await reader.read(n)`: at most n bytes; none at the end of the stream; and it waits while there is
-- nothing to return.
unfoldable pub reader_read : ℕ → Action StreamReader Bytes
unfolding read_unless
reader_read n r = read_unless r.failure n r

-- `StreamWriter`: what was written, whether `close` was called, whether the connection was lost,
-- whether the transport has paused writing, what `wait_closed` comes to, and the host and port of either end.
pub record StreamWriter : Type 0 where
  pub written : Bytes
  pub closing : Bool
  pub lost : Bool
  pub paused : Bool
  pub wait_closed : Outcome (Unit {0})
  pub sockname : Option (String × String)
  pub peername : Option (String × String)

-- `writer.write(chunk)`; a lost connection drops it.
unfoldable pub writer_write : Bytes → StreamWriter → StreamWriter
writer_write chunk w = if w.lost then w else record w { written = w.written ++ chunk }

-- `await writer.drain()`; it passes on the exception of the reader, if there is one.
unfoldable pub drain : Option Exn → StreamWriter → Outcome (Unit {0})
drain (some e) w = raised e
drain none w =
    if w.lost
    then raised (exn connection_error (text "Connection lost"))
    else if w.paused
    then pending
    else ok tt

-- `Addr(network=network, address=f"{host}:{port}")`
unfoldable pub to_addr : String → Option (String × String) → Option Addr
to_addr network none = none
to_addr network (some (host, port)) =
    some (record { network = network; address = str_append host (str_append ":" port) })
