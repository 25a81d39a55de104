-- ===== src/Secure/Channel.antt =====
-- uniconn-py/uniconn/secure/conn.py: `SecureConn`, the encrypted connection over any connection.
-- One call runs from its start to its end, as the two locks ensure for calls of one direction.
pub mod Wire
pub mod Reading
pub mod Writing
pub mod Transfer
pub mod Replay
pub mod Nonces
pub mod Given
pub mod History
pub mod Sides
pub mod Link
use uniconn.Prelude.{
  ℕ, suc, ◌+◌, ◌-◌, ◌%◌, ◌^◌, Bool, true, false, not, ◌||◌, Option, none, some, List, [], ◌∷◌, ◌++◌,
  ltb, leb, ◌==◌, length, take, drop, replicate, if◌then◌else◌,
}
use uniconn.Outcome.{
  Outcome, ok, raised, pending, Exn, exn, connection_error, value_error, assertion_error, text,
  text_number, text_bytes,
}
use uniconn.Outcome
use uniconn.Action.{Action, pure, raise, lift, reject, ◌>>=◌, ◌>>◌}
use uniconn.Struct.{Bytes, from_be, pack, unpack, pack_into, slice, set_slice}
use uniconn.Conn.{Conn, Addr}
use uniconn.Conn.Buffer.{put_front, left_over, keep_rest}
use uniconn.Secure.Message.{
  msg_data, msg_error, nonce_size, nonce_prefix_size, timestamp_size, marshal_data,
}
use uniconn.Secure.Frame.{read_frame_from_conn, write_frame_to_conn}
use uniconn.Secure.Crypto.{Aead}
use uniconn.Secure.Data.{peer_error, open_data, seal_data}

-- `SessionKeys` of secure/handshake.py.
pub record SessionKeys : Type 0 where
  pub initiator_key : Bytes
  pub responder_key : Bytes
  pub initiator_nonce_pfx : Bytes
  pub responder_nonce_pfx : Bytes

pub record SecureConn {ℓ} (S : Type ℓ) : Type ℓ where
  pub send_key : Bytes
  pub recv_key : Bytes
  pub send_pfx : Bytes
  pub recv_pfx : Bytes
  pub send_counter : ℕ
  pub recv_counter : ℕ
  pub closed : Bool
  pub recv_buf : Bytes
  pub inner_conn : Option S

module _ {ℓ} {S : Type ℓ} where
  -- The end of `_handle_data`: the counter moves on, and what does not fit is kept.
  abbrev accept_data : Outcome Bytes → Bytes → Action (SecureConn S) (ℕ × Bytes)
  accept_data (ok plain) buf c = (
    ok (put_front buf plain),
    record c { recv_counter = c.recv_counter + 1; recv_buf = keep_rest buf plain c.recv_buf },
  )
  accept_data (raised e) buf c = (raised e, c)
  accept_data pending buf c = (pending, c)

  -- `SecureConn(keys, is_initiator)`
  unfoldable pub new : SessionKeys → Bool → SecureConn S
  new keys is_initiator = record {
    send_key = if is_initiator then keys.initiator_key else keys.responder_key;
    recv_key = if is_initiator then keys.responder_key else keys.initiator_key;
    send_pfx = if is_initiator then keys.initiator_nonce_pfx else keys.responder_nonce_pfx;
    recv_pfx = if is_initiator then keys.responder_nonce_pfx else keys.initiator_nonce_pfx;
    send_counter = 0;
    recv_counter = 0;
    closed = false;
    recv_buf = [];
    inner_conn = none;
  }

  unfoldable pub bind : S → SecureConn S → SecureConn S
  bind conn c = record c { inner_conn = some conn }

  -- `assert self._inner_conn is not None`
  abbrev assert_inner : Option S → Action (SecureConn S) (Unit {0})
  assert_inner none = raise (exn assertion_error (text ""))
  assert_inner (some s) = pure tt

  abbrev run_inner : {A : Type 0} → Action S A → Option S → Action (SecureConn S) A
  run_inner m none c = (raised (exn assertion_error (text "")), c)
  run_inner m (some s) c = let (r, s') = m s in (r, record c { inner_conn = some s' })

  -- A call of the underlying connection.
  abbrev pub on_inner : {A : Type 0} → Action S A → Action (SecureConn S) A
  on_inner m c = run_inner m c.inner_conn c

  module _ (conn : Conn S) (aead : Aead) where
    unfoldable pub handle_data : Bytes → Bytes → Action (SecureConn S) (ℕ × Bytes)
    handle_data body buf c =
        accept_data (open_data aead c.recv_key c.recv_pfx c.recv_counter body) buf c

    -- `_read` behind the buffered bytes: the next frame.
    unfoldable pub dispatch : Bytes → Bytes → Action (SecureConn S) (ℕ × Bytes)
    dispatch [] buf = raise (exn connection_error (text "empty frame"))
    dispatch (msg_type ∷ tail) buf =
        if msg_type == msg_data
        then handle_data (msg_type ∷ tail) buf
        else if msg_type == msg_error
        then raise (peer_error (msg_type ∷ tail))
        else raise (exn value_error (text_number "unexpected message type" msg_type))

    read_more : Bytes → Bytes → Action (SecureConn S) (ℕ × Bytes)
    read_more buf [] c = (do body ← on_inner (read_frame_from_conn conn); dispatch body buf) c
    read_more buf (b ∷ bs) c =
        (ok (put_front buf (b ∷ bs)), record c { recv_buf = left_over buf (b ∷ bs) })

    unfoldable pub read : Bytes → Action (SecureConn S) (ℕ × Bytes)
    unfolding read_more
    read buf c =
        if c.closed
        then (raised (exn connection_error (text "connection closed")), c)
        else if length buf == 0
        then (ok (0, buf), c)
        else (assert_inner c.inner_conn >> read_more buf c.recv_buf) c

    -- `_write` of some bytes, after `counter = self._send_counter; self._send_counter += 1`.
    -- `now` is `int(time.time())`, by the counter of the call that reads it.
    unfoldable pub send : (ℕ → ℕ) → ℕ → Bytes → Action (SecureConn S) ℕ
    send now counter message c =
        (do
          body ← lift (seal_data aead c.send_key c.send_pfx (now counter % 2 ^ 32) counter message)
          _ ← on_inner (write_frame_to_conn conn body)
          pure (length message))
          (record c { send_counter = counter + 1 })

    unfoldable pub write : (ℕ → ℕ) → Bytes → Action (SecureConn S) ℕ
    unfolding send
    write now message c =
        if c.closed
        then (raised (exn connection_error (text "connection closed")), c)
        else (assert_inner c.inner_conn
              >> (if length message == 0 then pure 0 else send now c.send_counter message))
            c

    -- `self._closed = True` and the inner `close`.
    abbrev close_inner : Option S → Action (SecureConn S) (Unit {0})
    close_inner none c = (ok tt, c)
    close_inner (some s) c =
        let (r, s') = conn.close s in (r, record c { closed = true; inner_conn = some s' })

    unfoldable pub close : Action (SecureConn S) (Unit {0})
    close c = if c.closed then (ok tt, c) else close_inner c.inner_conn c

    unfoldable pub channel : (ℕ → ℕ) → Conn (SecureConn S)
    unfolding read write close
    channel now = record {
      read = read;
      write = write now;
      close = close;
      local_addr = λ c. elim c.inner_conn [ none ↦ none | some s ↦ conn.local_addr s ];
      remote_addr = λ c. elim c.inner_conn [ none ↦ none | some s ↦ conn.remote_addr s ];
    }
