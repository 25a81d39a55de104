-- ===== src/Kcp.antt =====
-- uniconn-py/uniconn/kcp/__init__.py: `KcpConn`, a stream over the messages that KCP delivers.
pub mod Duplex
pub mod Listener
pub mod Dialer
use uniconn.Prelude.{
  ℕ, String, Bool, true, false, Option, none, some, List, [], ◌∷◌, ◌++◌, length, if◌then◌else◌,
}
use uniconn.Outcome.{Outcome, ok, raised, pending}
use uniconn.Action.{Action}
use uniconn.Struct.{Bytes}
use uniconn.Conn.{Conn, given_addr}
use uniconn.Conn.Buffer.{put_front, left_over, keep_rest}
use uniconn.Tcp.{connection_closed}

-- What the `kcp` package provides to a connection: the `send` of a client, where there is one, and
-- the `enqueue` of a server's connection object, of state `W`.
pub record KcpLink {ℓ} (W : Type ℓ) : Type ℓ where
  pub send_fn : Option (Bytes → Action W (Unit {0}))
  pub enqueue : Bytes → Action W (Unit {0})

pub record KcpConn {ℓ} (W : Type ℓ) : Type ℓ where
  pub link : W
  pub recv_queue : List Bytes
  pub recv_buf : Bytes
  pub closed : Bool
  pub local : Option String
  pub remote : Option String

module _ {ℓ} {W : Type ℓ} where
  unfoldable pub on_data : Bytes → KcpConn W → KcpConn W
  on_data message c =
      if c.closed then c else record c { recv_queue = c.recv_queue ++ (message ∷ []) }

  -- `read` with nothing buffered. The queue is what is there at the end of the wait: if it is empty,
  -- nothing came for ten seconds.
  unfoldable pub next : Bytes → List Bytes → Action (KcpConn W) (ℕ × Bytes)
  next buf [] c = (ok (0, buf), c)
  next buf (message ∷ queue) c = (
    ok (put_front buf message),
    record c { recv_queue = queue; recv_buf = keep_rest buf message c.recv_buf },
  )

  read_more : Bytes → Bytes → Action (KcpConn W) (ℕ × Bytes)
  unfolding next
  read_more buf [] c = next buf c.recv_queue c
  read_more buf (b ∷ bs) c =
      (ok (put_front buf (b ∷ bs)), record c { recv_buf = left_over buf (b ∷ bs) })

  unfoldable pub read : Bytes → Action (KcpConn W) (ℕ × Bytes)
  unfolding read_more
  read buf c = if c.closed then (raised connection_closed, c) else read_more buf c.recv_buf c

  unfoldable pub close : Action (KcpConn W) (Unit {0})
  close c = (ok tt, record c { closed = true })

module _ {ℓ} {W : Type ℓ} (kcp_link : KcpLink W) where
  -- `if self._send_fn: self._send_fn(data)`, and otherwise `self._conn.enqueue(data)`.
  unfoldable pub hand_over : Option (Bytes → Action W (Unit {0})) → Bytes → Action W (Unit {0})
  hand_over none = kcp_link.enqueue
  hand_over (some send) = send

  -- `return len(data)` behind it.
  unfoldable pub all_of : ℕ → Outcome (Unit {0}) → Outcome ℕ
  all_of n (ok _) = ok n
  all_of n (raised e) = raised e
  all_of n pending = pending

  unfoldable pub write : Bytes → Action (KcpConn W) ℕ
  unfolding hand_over all_of
  write message c =
      if c.closed
      then (raised connection_closed, c)
      else let (r, link') = hand_over kcp_link.send_fn message c.link in
        (all_of (length message) r, record c { link = link' })

  unfoldable pub kcp : Conn (KcpConn W)
  unfolding read write close
  kcp = record {
    read = read;
    write = write;
    close = close;
    local_addr = λ c. given_addr "kcp" c.local;
    remote_addr = λ c. given_addr "kcp" c.remote;
  }
