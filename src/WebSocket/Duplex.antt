-- ===== src/WebSocket/Duplex.antt =====
-- `WsConn` of uniconn-py/uniconn/websocket/conn.py and the contract of a connection.
use uniconn.Prelude.{
  ℕ, ◌<◌, ◌≡◌, refl, sym, ap, ◌∙◌, subst, false, List, [], ◌∷◌, ◌++◌, arith, length,
}
use uniconn.Outcome.{ok}
use uniconn.Struct.{Bytes}
use uniconn.Conn.Buffer.{put_front, left_over, keep_rest-nil}
use uniconn.Conn.Serve.{serve-Delivers}
use uniconn.Conn.Stream.{Delivers, IsDuplex}
use uniconn.WebSocket.{WebSocket, WsConn, read, write, websocket}

abbrev pub join {ℓ} : {A : Type ℓ} → List (List A) → List A
join [] = []
join (m ∷ ms) = m ++ join ms

-- Of a socket that works: `Inbox w out ms` says that `out` was sent, as one sequence of bytes, and that
-- `recv` returns the messages `ms` next.
pub record IsSocket {ℓ κ} {W : Type ℓ} (socket : WebSocket W)
    (Inbox : W → Bytes → List Bytes → Type κ) : Type (ℓ ⊔ κ) where
  pub recvs :
      (w : W) (out m : Bytes) (ms : List Bytes)
      → Inbox w out (m ∷ ms)
      → (w' : W) × (socket.recv w ≡ (ok m, w')) × Inbox w' out ms
  pub sends :
      (w : W) (out m : Bytes) (ms : List Bytes)
      → Inbox w out ms
      → (w' : W) × (socket.send m w ≡ (ok tt, w')) × Inbox w' (out ++ m) ms

abbrev pub AreNonempty : List Bytes → Type 0
AreNonempty [] = Unit
AreNonempty (m ∷ ms) = (0 < length m) × AreNonempty ms

module _ {ℓ κ} {W : Type ℓ} (socket : WebSocket W) (Inbox : W → Bytes → List Bytes → Type κ) where
  -- The connection is open; the buffered bytes and the messages to come make up `todo`.
  pub record Live (c : WsConn W) (out todo : Bytes) : Type κ where
    pub is_open : c.closed ≡ false
    pub messages : List Bytes
    pub inbox : Inbox c.ws out messages
    pub nonempty : AreNonempty messages
    pub todo_is : todo ≡ c.read_buf ++ join messages

  read-buffered :
      (c : WsConn W) (buf : Bytes) (b : ℕ) (bs : Bytes)
      → c.closed ≡ false
      → c.read_buf ≡ b ∷ bs
      → read socket buf c
        ≡ (ok (put_front buf c.read_buf), record c { read_buf = left_over buf c.read_buf })
  unfolding read
  read-buffered c buf b bs is_open e = ground arith

  read-next :
      (c : WsConn W) (buf : Bytes) (w : W) (b : ℕ) (bs : Bytes)
      → c.closed ≡ false
      → c.read_buf ≡ []
      → socket.recv c.ws ≡ (ok (b ∷ bs), w)
      → read socket buf c
        ≡ (ok (put_front buf (b ∷ bs)), record c { ws = w; read_buf = left_over buf (b ∷ bs) })
  unfolding read
  read-next c buf w b bs is_open e run = ground (arith, keep_rest-nil buf (b ∷ bs))

  next-Delivers :
      (c : WsConn W) (buf out m : Bytes) (ms : List Bytes)
      → IsSocket socket Inbox
      → 0 < length buf
      → 0 < length m
      → c.closed ≡ false
      → c.read_buf ≡ []
      → AreNonempty ms
      → Inbox c.ws out (m ∷ ms)
      → Delivers (websocket socket) (λ t rest. Live t out rest) c buf (m ++ join ms)
  next-Delivers c buf out [] ms works room some_bytes is_open e nonempty inbox =
      absurd (omega arith)
  next-Delivers c buf out (b ∷ bs) ms works room some_bytes is_open e nonempty inbox =
      let (w, run, inbox') = works.recvs c.ws out (b ∷ bs) ms inbox in
      serve-Delivers (websocket socket) (λ t rest. Live t out rest) c
        (record c { ws = w; read_buf = left_over buf (b ∷ bs) }) buf (b ∷ bs) (join ms) _ room
        some_bytes (unfold websocket in read-next c buf w b bs is_open e run) refl
        (record {
          is_open = is_open;
          messages = ms;
          inbox = inbox';
          nonempty = nonempty;
          todo_is = refl;
        })

  ws-reads :
      (c : WsConn W) (buf out todo kept : Bytes) (ms : List Bytes)
      → IsSocket socket Inbox
      → 0 < length buf
      → 0 < length todo
      → c.read_buf ≡ kept
      → c.closed ≡ false
      → AreNonempty ms
      → Inbox c.ws out ms
      → todo ≡ c.read_buf ++ join ms
      → Delivers (websocket socket) (λ t rest. Live t out rest) c buf todo
  ws-reads c buf out todo (b ∷ bs) ms works room more e is_open nonempty inbox todo_is =
      serve-Delivers (websocket socket) (λ t rest. Live t out rest) c
        (record c { read_buf = left_over buf c.read_buf }) buf c.read_buf (join ms) todo room
        (rw e (omega arith)) (unfold websocket in read-buffered c buf b bs is_open e) todo_is
        (record {
          is_open = is_open;
          messages = ms;
          inbox = inbox;
          nonempty = nonempty;
          todo_is = refl;
        })
  ws-reads c buf out todo [] [] works room more e is_open nonempty inbox todo_is =
      absurd (omega (arith, ap length (todo_is ∙ ap (λ t. t ++ []) e)))
  ws-reads c buf out todo [] (m ∷ ms) works room more e is_open nonempty inbox todo_is =
      subst (Delivers (websocket socket) (λ t rest. Live t out rest) c buf)
        (sym (todo_is ∙ ap (λ t. t ++ join (m ∷ ms)) e))
        (next-Delivers c buf out m ms works room nonempty.0 is_open e nonempty.1 inbox)

  write_runs :
      (c : WsConn W) (m : Bytes) (w : W)
      → c.closed ≡ false
      → socket.send m c.ws ≡ (ok tt, w)
      → write socket m c ≡ (ok (length m), record c { ws = w })
  unfolding write
  write_runs c m w is_open run = ground arith

  -- Over a socket that works and whose messages are not empty, an open WebSocket connection is a
  -- duplex connection: the messages are read as one sequence of bytes, in order, with none lost where a
  -- message is longer than the buffer; and what is written is sent in order.
  pub websocket-IsDuplex : IsSocket socket Inbox → IsDuplex (websocket socket) Live
  websocket-IsDuplex works = record {
    stream = λ out. record {
      reads = λ c buf todo room more h.
          ws-reads c buf out todo c.read_buf h.messages works room more refl h.is_open h.nonempty
            h.inbox h.todo_is;
    };
    sink = λ todo. record {
      writes = λ c m out h.
          let (w, run, inbox) = works.sends c.ws out m h.messages h.inbox in
          record {
            after = record c { ws = w };
            runs = unfold websocket in write_runs c m w h.is_open run;
            sent = record {
              is_open = h.is_open;
              messages = h.messages;
              inbox = inbox;
              nonempty = h.nonempty;
              todo_is = h.todo_is;
            };
          };
    };
  }

  -- An empty message reads as the end of the stream: with nothing buffered, `read` returns 0 on it,
  -- though the messages behind it are still to come.
  pub empty_message_reads_as_end :
      (c : WsConn W) (buf out : Bytes) (ms : List Bytes)
      → IsSocket socket Inbox
      → c.closed ≡ false
      → c.read_buf ≡ []
      → Inbox c.ws out ([] ∷ ms)
      → (w : W) × (read socket buf c ≡ (ok (0, buf), record c { ws = w })) × Inbox w out ms
  empty_message_reads_as_end c buf out ms works is_open e inbox =
      let (w, run, inbox') = works.recvs c.ws out [] ms inbox in
      (w, unfold read in ground arith, inbox')
