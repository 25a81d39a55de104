-- ===== src/WebTransport/Duplex.antt =====
-- `WebTransportConn` of uniconn-py/uniconn/webtransport/conn.py and the contract of a connection.
use uniconn.Prelude.{
  ℕ, ◌<◌, ◌≡◌, refl, sym, ap, ◌∙◌, Bool, false, [], ◌∷◌, ◌++◌, append-nil, arith, length,
  if◌then◌else◌,
}
use uniconn.Outcome.{ok, pending}
use uniconn.Struct.{Bytes}
use uniconn.Conn.Buffer.{put_front, left_over}
use uniconn.Conn.Serve.{serve-Delivers}
use uniconn.Conn.Stream.{Delivers, IsDuplex}
use uniconn.WebTransport.{
  Protocol, WebTransportConn, feed_data, served, read, send, write, webtransport,
}

-- Of a protocol object that works: `Sent w id out` says that `out` went out on the stream `id`.
pub record IsProtocol {ℓ κ} {W : Type ℓ} (p : Protocol W) (Sent : W → ℕ → Bytes → Type κ)
    : Type (ℓ ⊔ κ) where
  pub sends :
      (w : W) (id : ℕ) (out m : Bytes)
      → Sent w id out
      → (w' : W) × (send p id m false w ≡ (ok tt, w')) × Sent w' id (out ++ m)

module _ {ℓ κ} {W : Type ℓ} (p : Protocol W) (Sent : W → ℕ → Bytes → Type κ) where
  -- The connection is open; what has come and was not read is `todo`.
  pub record Live (c : WebTransportConn W) (out todo : Bytes) : Type κ where
    pub is_open : c.closed ≡ false
    pub sent : Sent c.protocol c.stream_id out
    pub todo_is : todo ≡ c.buf

  read-buffered :
      (c : WebTransportConn W) (out_buf : Bytes) (b : ℕ) (bs : Bytes)
      → c.closed ≡ false
      → c.buf ≡ b ∷ bs
      → read out_buf c ≡ (ok (put_front out_buf c.buf), record c { buf = left_over out_buf c.buf })
  unfolding read
  read-buffered c out_buf b bs is_open e = ground arith

  wt-reads :
      (c : WebTransportConn W) (out_buf out todo kept : Bytes)
      → 0 < length out_buf
      → 0 < length todo
      → c.buf ≡ kept
      → Live c out todo
      → Delivers (webtransport p) (λ t rest. Live t out rest) c out_buf todo
  wt-reads c out_buf out todo [] room more e h = absurd (omega (arith, ap length (h.todo_is ∙ e)))
  wt-reads c out_buf out todo (b ∷ bs) room more e h =
      serve-Delivers (webtransport p) (λ t rest. Live t out rest) c
        (record c { buf = left_over out_buf c.buf }) out_buf c.buf [] todo room (rw e (omega arith))
        (unfold webtransport in read-buffered c out_buf b bs h.is_open e)
        (h.todo_is ∙ sym (append-nil c.buf))
        (record { is_open = h.is_open; sent = h.sent; todo_is = append-nil _ })

  write_runs :
      (c : WebTransportConn W) (m : Bytes) (w : W)
      → c.closed ≡ false
      → send p c.stream_id m false c.protocol ≡ (ok tt, w)
      → write p m c ≡ (ok (length m), record c { protocol = w })
  unfolding write
  write_runs c m w is_open run = ground arith

  -- Over a protocol object that works, an open WebTransport connection is a duplex connection.
  pub webtransport-IsDuplex : IsProtocol p Sent → IsDuplex (webtransport p) Live
  webtransport-IsDuplex works = record {
    stream = λ out. record {
      reads = λ c out_buf todo room more h. wt-reads c out_buf out todo c.buf room more refl h;
    };
    sink = λ todo. record {
      writes = λ c m out h.
          let (w, run, sent) = works.sends c.protocol c.stream_id out m h.sent in
          record {
            after = record c { protocol = w };
            runs = unfold webtransport in write_runs c m w h.is_open run;
            sent = record { is_open = h.is_open; sent = sent; todo_is = h.todo_is };
          };
    };
  }

  -- What `feed_data` brings to an open connection is to be read behind what was to be read before;
  -- and once all of it was read, `read` returns 0 if the stream has ended by then, and waits if not.
  pub feed_data-Live :
      (c : WebTransportConn W) (out todo m out_buf : Bytes) (stream_ended : Bool)
      → Live c out todo
      → c.eof ≡ false
      → Live (feed_data m stream_ended c) out (todo ++ m)
        × (read out_buf (record (feed_data m stream_ended c) { buf = [] }) ≡ (
            if stream_ended
            then (ok (0, out_buf), record (feed_data m stream_ended c) { buf = [] })
            else (pending, record (feed_data m stream_ended c) { buf = []; data_event = false })))
  unfolding feed_data read served
  feed_data-Live c out todo m out_buf stream_ended h going =
      let is_open = h.is_open in
      (
        record { is_open = h.is_open; sent = h.sent; todo_is = ap (λ t. t ++ m) h.todo_is },
        ground arith,
      )
