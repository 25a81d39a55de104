-- ===== src/WebTransport.antt =====
-- uniconn-py/uniconn/webtransport/conn.py: the connection over one stream of a WebTransport session.
pub mod Duplex
pub mod H3
pub mod Server
pub mod Client
pub mod Listener
use Prim.Native.String.{◌++◌ as str_append}
use uniconn.Prelude.{
  ℕ, String, Bool, true, false, ◌||◌, Option, none, some, [], ◌∷◌, ◌++◌, length, if◌then◌else◌,
}
use uniconn.Outcome.{Outcome, ok, raised, pending}
use uniconn.Action.{Action, ◌>>=◌, ◌>>◌}
use uniconn.Struct.{Bytes}
use uniconn.Conn.{Conn, Addr}
use uniconn.Conn.Buffer.{put_front, left_over}
use uniconn.Tcp.{connection_closed}

-- What aioquic's protocol object, of state `W`, provides: `_quic.send_stream_data`, of a stream, some
-- data and whether the stream ends with them, and `transmit`.
pub record Protocol {ℓ} (W : Type ℓ) : Type ℓ where
  pub send_stream_data : ℕ → Bytes → Bool → Action W (Unit {0})
  pub transmit : Action W (Unit {0})

-- `data_event` is whether the event is set.
pub record WebTransportConn {ℓ} (W : Type ℓ) : Type ℓ where
  pub protocol : W
  pub stream_id : ℕ
  pub session_id : ℕ
  pub remote : Option (String × String)
  pub closed : Bool
  pub buf : Bytes
  pub data_event : Bool
  pub eof : Bool

module _ {ℓ} {W : Type ℓ} where
  unfoldable pub feed_data : Bytes → Bool → WebTransportConn W → WebTransportConn W
  feed_data message stream_ended c = record c {
    buf = c.buf ++ message;
    eof = c.eof || stream_ended;
    data_event = true;
  }

  -- `read` behind the first check, by the bytes that have come: with none, it is at the end of the
  -- stream, or it clears the event and waits for the next call of `feed_data`.
  unfoldable pub served : Bytes → Bytes → Action (WebTransportConn W) (ℕ × Bytes)
  served out_buf [] c =
      if c.eof then (ok (0, out_buf), c) else (pending, record c { data_event = false })
  served out_buf (b ∷ bs) c =
      (ok (put_front out_buf (b ∷ bs)), record c { buf = left_over out_buf (b ∷ bs) })

  unfoldable pub read : Bytes → Action (WebTransportConn W) (ℕ × Bytes)
  unfolding served
  read out_buf c = if c.closed then (raised connection_closed, c) else served out_buf c.buf c

module _ {ℓ} {W : Type ℓ} (p : Protocol W) where
  -- `send_stream_data` and `transmit`, one behind the other.
  unfoldable pub send : ℕ → Bytes → Bool → Action W (Unit {0})
  send stream_id message end_stream = p.send_stream_data stream_id message end_stream >> p.transmit

  unfoldable pub return_size : ℕ → Outcome (Unit {0}) → Outcome ℕ
  return_size n (ok _) = ok n
  return_size n (raised e) = raised e
  return_size n pending = pending

  unfoldable pub write : Bytes → Action (WebTransportConn W) ℕ
  unfolding send return_size
  write message c =
      if c.closed
      then (raised connection_closed, c)
      else let (r, protocol') = send c.stream_id message false c.protocol in
        (return_size (length message) r, record c { protocol = protocol' })

  -- An exception of the last two calls is dropped.
  unfoldable pub dropped : Outcome (Unit {0}) → Outcome (Unit {0})
  dropped pending = pending
  dropped _ = ok tt

  unfoldable pub close : Action (WebTransportConn W) (Unit {0})
  unfolding send dropped
  close c =
      if c.closed
      then (ok tt, c)
      else let (r, protocol') = send c.stream_id [] true c.protocol in
        (dropped r, record c { protocol = protocol'; closed = true })

  -- `remote_addr`
  unfoldable pub peer : Option (String × String) → Addr
  peer none = record { network = "webtransport"; address = "unknown" }
  peer (some (host, port)) = record {
    network = "webtransport";
    address = str_append host (str_append ":" port);
  }

  unfoldable pub webtransport : Conn (WebTransportConn W)
  unfolding read write close peer
  webtransport = record {
    read = read;
    write = write;
    close = close;
    local_addr = λ c. some (record { network = "webtransport"; address = "local" });
    remote_addr = λ c. some (peer c.remote);
  }
