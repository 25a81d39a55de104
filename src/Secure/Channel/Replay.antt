-- ===== src/Secure/Channel/Replay.antt =====
-- What a DATA frame that is received can do to a `SecureConn` of secure/conn.py.
use uniconn.Prelude.{ℕ, ◌+◌, ◌-◌, ◌≤◌, ◌≡◌, ◌≢◌, arith, sym, length, some, take, drop}
use uniconn.Outcome.{ok, raised, Exn, exn, value_error, text}
use uniconn.Struct.{Bytes, unpack, slice}
use uniconn.Secure.Crypto.{Aead}
use uniconn.Secure.Data.{open_data, make_nonce}
use uniconn.Conn.{Conn}
use uniconn.Conn.Buffer.{put_front, keep_rest}
use uniconn.Secure.Channel.{SecureConn, handle_data}

abbrev pub wrong_counter : Exn
wrong_counter = exn value_error (text "unexpected DATA counter")

module _ (aead : Aead) (key pfx : Bytes) (expected : ℕ) (body plain : Bytes)
    (opened : open_data aead key pfx expected body ≡ ok plain) where
  open_data-long : 13 ≤ length body
  unfolding open_data
  open_data-long = ground arith

  open_data-counter : unpack 8 (slice 5 13 body) ≡ ok expected
  unfolding open_data
  open_data-counter = ground arith

  open_data-ts : (ts : ℕ) × (unpack 4 (slice 1 5 body) ≡ ok ts)
  unfolding open_data
  open_data-ts = ground arith

  open_data-nonce : (nonce : Bytes) × (make_nonce pfx open_data-ts.0 expected ≡ ok nonce)
  unfolding open_data
  open_data-nonce = ground (arith, open_data-ts.1, open_data-counter)

  open_data-decrypts :
      let ciphertext = drop 13 body in
      let cut = length ciphertext - 16 in
      aead.decrypt_and_verify key open_data-nonce.0 (take cut ciphertext) (drop cut ciphertext)
      ≡ some plain
  unfolding open_data
  open_data-decrypts = ground (arith, open_data-ts.1, open_data-counter, open_data-nonce.1)

-- A body that carries another counter than the expected one is refused, if it is long enough to
-- carry one and its numbers can be read.
open_data-stale :
    (aead : Aead) (key pfx : Bytes) (expected counter ts : ℕ) (body : Bytes)
    → 13 ≤ length body
    → unpack 4 (slice 1 5 body) ≡ ok ts
    → unpack 8 (slice 5 13 body) ≡ ok counter
    → counter ≢ expected
    → open_data aead key pfx expected body ≡ raised wrong_counter
unfolding open_data
open_data-stale aead key pfx expected counter ts body long ts_here counter_here other = ground arith

module _ {ℓ} {S : Type ℓ} (conn : Conn S) (aead : Aead) (body buf : Bytes) (c c' : SecureConn S)
    {r : ℕ × Bytes} (handled : handle_data conn aead body buf c ≡ (ok r, c')) where
  accepted-open :
      (plain : Bytes) × (open_data aead c.recv_key c.recv_pfx c.recv_counter body ≡ ok plain)
  unfolding handle_data
  accepted-open = ground arith

  -- A DATA body that is accepted carries the counter that the channel expected, and a ciphertext and
  -- tag that `decrypt_and_verify` passes under the channel's key and a nonce made of its prefix, the
  -- time stamp in the body and that counter. The caller gets the front of the plaintext, the counter
  -- moves on by one, what did not fit is buffered, and nothing else of the channel changes.
  pub handle_data-accepts :
      (plain nonce : Bytes) × (ts : ℕ) × (unpack 8 (slice 5 13 body) ≡ ok c.recv_counter)
      × (unpack 4 (slice 1 5 body) ≡ ok ts)
      × (make_nonce c.recv_pfx ts c.recv_counter ≡ ok nonce)
      × (aead.decrypt_and_verify c.recv_key nonce
            (take (length (drop 13 body) - 16) (drop 13 body))
            (drop (length (drop 13 body) - 16) (drop 13 body))
          ≡ some plain)
      × (r ≡ put_front buf plain)
      × (c' ≡ record c {
        recv_counter = c.recv_counter + 1;
        recv_buf = keep_rest buf plain c.recv_buf;
      })
  handle_data-accepts =
      let (plain, opened) = accepted-open in
      let (nonce, nonce_is) =
        open_data-nonce aead c.recv_key c.recv_pfx c.recv_counter body plain opened in
      let (ts, ts_is) = open_data-ts aead c.recv_key c.recv_pfx c.recv_counter body plain opened in
      (
        plain,
        nonce,
        ts,
        open_data-counter aead c.recv_key c.recv_pfx c.recv_counter body plain opened,
        ts_is,
        nonce_is,
        open_data-decrypts aead c.recv_key c.recv_pfx c.recv_counter body plain opened,
        unfold handle_data in ground arith,
        unfold handle_data in ground arith,
      )

  -- A DATA body that was accepted once is refused, with a ValueError and no change, by every channel
  -- that expects another counter: by this one after the body was accepted, whatever came since.
  pub handle_data-replayed :
      (buf' : Bytes) (d : SecureConn S)
      → d.recv_counter ≢ c.recv_counter
      → handle_data conn aead body buf' d ≡ (raised wrong_counter, d)
  handle_data-replayed buf' d later =
      let (plain, opened) = accepted-open in
      let (ts, ts_is) = open_data-ts aead c.recv_key c.recv_pfx c.recv_counter body plain opened in
      unfold handle_data in
      rw (
        open_data-stale aead d.recv_key d.recv_pfx d.recv_counter c.recv_counter ts body
          (open_data-long aead c.recv_key c.recv_pfx c.recv_counter body plain opened) ts_is
          (open_data-counter aead c.recv_key c.recv_pfx c.recv_counter body plain opened)
          (λ e. later (sym e)))
