-- ===== src/Kcp/Duplex.antt =====
-- `KcpConn` of uniconn-py/uniconn/kcp/__init__.py and the contract of a connection.
use uniconn.Prelude.{
  ℕ, ◌<◌, ◌≡◌, refl, sym, ap, ◌∙◌, subst, false, List, [], ◌∷◌, ◌++◌, append_assoc, append-nil,
  arith, length,
}
use uniconn.Outcome.{ok}
use uniconn.Struct.{Bytes}
use uniconn.Conn.Buffer.{put_front, left_over, keep_rest-nil}
use uniconn.Conn.Serve.{serve-Delivers}
use uniconn.Conn.Stream.{Delivers, IsDuplex}
use uniconn.WebSocket.Duplex.{join, AreNonempty}
use uniconn.Kcp.{KcpLink, KcpConn, on_data, next, hand_over, read, write, kcp}

-- Of a link that takes what it is given: `Sent w out` says that `out` was handed over.
pub record IsLink {ℓ κ} {W : Type ℓ} (kcp_link : KcpLink W) (Sent : W → Bytes → Type κ)
    : Type (ℓ ⊔ κ) where
  pub takes :
      (w : W) (out m : Bytes)
      → Sent w out
      → (w' : W) × (hand_over kcp_link kcp_link.send_fn m w ≡ (ok tt, w')) × Sent w' (out ++ m)

join-append : (ms ns : List Bytes) → join (ms ++ ns) ≡ join ms ++ join ns
join-append [] ns = refl
join-append (m ∷ ms) ns =
    ap (λ t. m ++ t) (join-append ms ns) ∙ sym (append_assoc m (join ms) (join ns))

AreNonempty-append :
    (ms : List Bytes) (m : Bytes) → AreNonempty ms → 0 < length m → AreNonempty (ms ++ (m ∷ []))
AreNonempty-append [] m all h = (h, tt)
AreNonempty-append (k ∷ ms) m all h = (all.0, AreNonempty-append ms m all.1 h)

module _ {ℓ κ} {W : Type ℓ} (kcp_link : KcpLink W) (Sent : W → Bytes → Type κ) where
  -- The connection is open; the buffered bytes and the queued messages make up `todo`.
  pub record Live (c : KcpConn W) (out todo : Bytes) : Type κ where
    pub is_open : c.closed ≡ false
    pub sent : Sent c.link out
    pub nonempty : AreNonempty c.recv_queue
    pub todo_is : todo ≡ c.recv_buf ++ join c.recv_queue

  read-buffered :
      (c : KcpConn W) (buf : Bytes) (b : ℕ) (bs : Bytes)
      → c.closed ≡ false
      → c.recv_buf ≡ b ∷ bs
      → read buf c
        ≡ (ok (put_front buf c.recv_buf), record c { recv_buf = left_over buf c.recv_buf })
  unfolding read
  read-buffered c buf b bs is_open e = ground arith

  read-next :
      (c : KcpConn W) (buf m : Bytes) (ms : List Bytes)
      → c.closed ≡ false
      → c.recv_buf ≡ []
      → c.recv_queue ≡ m ∷ ms
      → read buf c
        ≡ (ok (put_front buf m), record c { recv_queue = ms; recv_buf = left_over buf m })
  unfolding read next
  read-next c buf m ms is_open e f = ground (arith, keep_rest-nil buf m)

  kcp-reads :
      (c : KcpConn W) (buf out todo kept : Bytes) (ms : List Bytes)
      → 0 < length buf
      → 0 < length todo
      → c.recv_buf ≡ kept
      → c.recv_queue ≡ ms
      → Live c out todo
      → Delivers (kcp kcp_link) (λ t rest. Live t out rest) c buf todo
  kcp-reads c buf out todo (b ∷ bs) ms room more e f h =
      serve-Delivers (kcp kcp_link) (λ t rest. Live t out rest) c
        (record c { recv_buf = left_over buf c.recv_buf }) buf c.recv_buf (join c.recv_queue) todo
        room (rw e (omega arith)) (unfold kcp in read-buffered c buf b bs h.is_open e) h.todo_is
        (record { is_open = h.is_open; sent = h.sent; nonempty = h.nonempty; todo_is = refl })
  kcp-reads c buf out todo [] [] room more e f h =
      absurd
        (omega (arith, ap length (h.todo_is ∙ (ap (λ t. t ++ join c.recv_queue) e ∙ ap join f))))
  kcp-reads c buf out todo [] (m ∷ ms) room more e f h =
      let all : AreNonempty (m ∷ ms) = subst AreNonempty f h.nonempty in
      serve-Delivers (kcp kcp_link) (λ t rest. Live t out rest) c
        (record c { recv_queue = ms; recv_buf = left_over buf m }) buf m (join ms) todo room all.0
        (unfold kcp in read-next c buf m ms h.is_open e f)
        (h.todo_is ∙ (ap (λ t. t ++ join c.recv_queue) e ∙ ap join f))
        (record { is_open = h.is_open; sent = h.sent; nonempty = all.1; todo_is = refl })

  write_runs :
      (c : KcpConn W) (m : Bytes) (w : W)
      → c.closed ≡ false
      → hand_over kcp_link kcp_link.send_fn m c.link ≡ (ok tt, w)
      → write kcp_link m c ≡ (ok (length m), record c { link = w })
  unfolding write
  write_runs c m w is_open run = ground arith

  -- Over a link that takes what it is given, an open KCP connection whose messages are not empty is a
  -- duplex connection: the messages are read as one sequence of bytes, in order, and what is written
  -- is handed over in order.
  pub kcp-IsDuplex : IsLink kcp_link Sent → IsDuplex (kcp kcp_link) Live
  kcp-IsDuplex works = record {
    stream = λ out. record {
      reads = λ c buf todo room more h.
          kcp-reads c buf out todo c.recv_buf c.recv_queue room more refl refl h;
    };
    sink = λ todo. record {
      writes = λ c m out h.
          let (w, run, sent) = works.takes c.link out m h.sent in
          record {
            after = record c { link = w };
            runs = unfold kcp in write_runs c m w h.is_open run;
            sent = record {
              is_open = h.is_open;
              sent = sent;
              nonempty = h.nonempty;
              todo_is = h.todo_is;
            };
          };
    };
  }

  -- A message of at least one byte that arrives at an open connection is to be read behind what was
  -- to be read before.
  pub on_data-Live :
      (c : KcpConn W) (out todo m : Bytes)
      → 0 < length m
      → Live c out todo
      → Live (on_data m c) out (todo ++ m)
  unfolding on_data
  on_data-Live c out todo m some_bytes h = rw h.is_open (record {
    is_open = refl;
    sent = h.sent;
    nonempty = AreNonempty-append c.recv_queue m h.nonempty some_bytes;
    todo_is =
        ap (λ t. t ++ m) h.todo_is
        ∙ (append_assoc c.recv_buf (join c.recv_queue) m
            ∙ ap (λ t. c.recv_buf ++ t)
                (sym (
                  join-append c.recv_queue (m ∷ [])
                  ∙ ap (λ t. join c.recv_queue ++ t) (append-nil m))));
  })
