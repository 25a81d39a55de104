-- ===== src/Secure/Channel/Reading.antt =====
-- `SecureConn.read` of secure/conn.py over any connection that keeps the contract of a stream.
use uniconn.Prelude.{
  ℕ, ◌+◌, ◌<◌, ◌≡◌, refl, sym, ap, ◌∙◌, subst, false, some, List, [], ◌∷◌, ◌++◌, append_assoc,
  arith, length,
}
use uniconn.Outcome.{ok}
use uniconn.Struct.{Bytes}
use uniconn.Conn.{Conn}
use uniconn.Conn.Buffer.{
  put_front, left_over, keep_rest, delivered, put_front-delivered, delivered-left_over,
  keep_rest-nil, length-delivered,
}
use uniconn.Conn.Stream.{Delivers, IsStream}
use uniconn.Secure.Crypto.{Aead, AeadLaws}
use uniconn.Secure.Data.RoundTrip.{open_data-sealed, sealed, length-sealed}
use uniconn.Secure.Data.{open_data}
use uniconn.Secure.Message.{msg_data}
use uniconn.Secure.Frame.{read_frame_from_conn}
use uniconn.Secure.Frame.Reading.{read_frame-IsStream}
use uniconn.Secure.Channel.{SecureConn, handle_data, dispatch, read, channel}
use uniconn.Secure.Channel.Wire.{Chunk, wire, plain_of, AreSendable}

module _ {ℓ} {S : Type ℓ} (conn : Conn S) (aead : Aead) (buf : Bytes) (some_room : 0 < length buf)
    (c : SecureConn S) (s : S) (is_open : c.closed ≡ false) (bound : c.inner_conn ≡ some s) where
  read-buffered :
      (b : ℕ) (bs : Bytes)
      → c.recv_buf ≡ b ∷ bs
      → read conn aead buf c
        ≡ (ok (put_front buf c.recv_buf), record c { recv_buf = left_over buf c.recv_buf })
  unfolding read
  read-buffered b bs e = ground arith

  read-next :
      (body : Bytes) (s' : S)
      → c.recv_buf ≡ []
      → read_frame_from_conn conn s ≡ (ok body, s')
      → read conn aead buf c ≡ dispatch conn aead body buf (record c { inner_conn = some s' })
  unfolding read
  read-next body s' e run = ground arith

module _ {ℓ} {S : Type ℓ} (conn : Conn S) (aead : Aead) where
  -- A DATA body that opens is handed on, and the counter moves on.
  dispatch-data :
      (tail buf plain : Bytes) (c : SecureConn S)
      → open_data aead c.recv_key c.recv_pfx c.recv_counter (msg_data ∷ tail) ≡ ok plain
      → dispatch conn aead (msg_data ∷ tail) buf c ≡ (
        ok (put_front buf plain),
        record c { recv_counter = c.recv_counter + 1; recv_buf = keep_rest buf plain c.recv_buf },
      )
  unfolding dispatch handle_data
  dispatch-data tail buf plain c e = rw e

-- The plaintext that can be read at `c`: what is buffered, then that of the frames to come.
pub record Carries {ℓ κ} {S : Type ℓ} (Holds : S → Bytes → Type κ) (aead : Aead) (c : SecureConn S)
    (todo : Bytes) : Type (ℓ ⊔ κ) where
  pub is_open : c.closed ≡ false
  pub inner : S
  pub bound : c.inner_conn ≡ some inner
  pub key_sized : length c.recv_key ≡ 32
  pub pfx_sized : length c.recv_pfx ≡ 12
  pub chunks : List Chunk
  pub sendable : AreSendable c.recv_counter chunks
  pub incoming : Holds inner (wire aead c.recv_key c.recv_pfx c.recv_counter chunks)
  pub todo_is : todo ≡ c.recv_buf ++ plain_of chunks

length-pos→cons : (xs : Bytes) → 0 < length xs → (x : ℕ) × (r : Bytes) × (xs ≡ x ∷ r)
length-pos→cons [] h = absurd (omega arith)
length-pos→cons (x ∷ r) h = (x, r, refl)

module _ {ℓ κ} {S : Type ℓ} (conn : Conn S) (Holds : S → Bytes → Type κ)
    (stream : IsStream conn Holds) (aead : Aead) (laws : AeadLaws aead) (now : ℕ → ℕ) where
  -- Some bytes are buffered: they are served, and nothing else changes.
  buffered-Delivers :
      (c : SecureConn S) (buf todo : Bytes)
      → 0 < length buf
      → 0 < length c.recv_buf
      → Carries Holds aead c todo
      → Delivers (channel conn aead now) (Carries Holds aead) c buf todo
  buffered-Delivers c buf todo room more h =
      let (b, bs, e) = length-pos→cons c.recv_buf more in
      record {
        got = delivered buf c.recv_buf;
        rest = left_over buf c.recv_buf ++ plain_of h.chunks;
        after = record c { recv_buf = left_over buf c.recv_buf };
        runs =
            unfold channel in
            read-buffered conn aead buf room c h.inner h.is_open h.bound b bs e
            ∙ ap (λ t. (ok t, record c { recv_buf = left_over buf c.recv_buf }))
                (put_front-delivered buf c.recv_buf);
        some_bytes = omega (arith, length-delivered buf c.recv_buf);
        fits = omega (arith, length-delivered buf c.recv_buf);
        splits =
            h.todo_is
            ∙ (ap (λ t. t ++ plain_of h.chunks) (sym (delivered-left_over buf c.recv_buf))
                ∙ append_assoc (delivered buf c.recv_buf) (left_over buf c.recv_buf)
                    (plain_of h.chunks));
        holds = record {
          is_open = h.is_open;
          inner = h.inner;
          bound = h.bound;
          key_sized = h.key_sized;
          pfx_sized = h.pfx_sized;
          chunks = h.chunks;
          sendable = h.sendable;
          incoming = h.incoming;
          todo_is = refl;
        };
      }

  -- Nothing is buffered: one frame is read from below and opened, and its plaintext is served.
  next-Delivers :
      (c : SecureConn S) (buf : Bytes) (inner : S) (ts : ℕ) (plain : Bytes) (chunks : List Chunk)
      → 0 < length buf
      → c.recv_buf ≡ []
      → c.closed ≡ false
      → c.inner_conn ≡ some inner
      → length c.recv_key ≡ 32
      → length c.recv_pfx ≡ 12
      → AreSendable c.recv_counter ((ts, plain) ∷ chunks)
      → Holds inner (wire aead c.recv_key c.recv_pfx c.recv_counter ((ts, plain) ∷ chunks))
      → Delivers (channel conn aead now) (Carries Holds aead) c buf (plain ++ plain_of chunks)
  next-Delivers c buf inner ts plain chunks room e is_open bound key_sized pfx_sized fit h =
      let key : Bytes = c.recv_key in
      let pfx : Bytes = c.recv_pfx in
      let n : ℕ = c.recv_counter in
      let body : Bytes = sealed aead key pfx ts n plain in
      let (s', run, h') =
        read_frame-IsStream conn Holds stream body (wire aead key pfx (n + 1) chunks) inner
          (omega (
            arith,
            length-sealed aead laws key pfx ts n key_sized pfx_sized fit.2 fit.3 plain,
            fit.1,
          ))
          h in
      let c' : SecureConn S = record c { inner_conn = some s' } in
      let after : SecureConn S = record c {
        inner_conn = some s';
        recv_counter = n + 1;
        recv_buf = left_over buf plain;
      } in
      record {
        got = delivered buf plain;
        rest = left_over buf plain ++ plain_of chunks;
        after = after;
        runs =
            unfold channel in
            read-next conn aead buf room c inner is_open bound body s' e run
            ∙ (dispatch-data conn aead _ buf plain c'
                  (open_data-sealed aead laws key pfx ts n key_sized pfx_sized fit.2 fit.3 plain)
                ∙ (ap (λ t. (ok (put_front buf plain), record after { recv_buf = t }))
                      (ap (keep_rest buf plain) e ∙ keep_rest-nil buf plain)
                    ∙ ap (λ t. (ok t, after)) (put_front-delivered buf plain)));
        some_bytes = omega (arith, length-delivered buf plain);
        fits = omega (arith, length-delivered buf plain);
        splits =
            ap (λ t. t ++ plain_of chunks) (sym (delivered-left_over buf plain))
            ∙ append_assoc (delivered buf plain) (left_over buf plain) (plain_of chunks);
        holds = record {
          is_open = is_open;
          inner = s';
          bound = refl;
          key_sized = key_sized;
          pfx_sized = pfx_sized;
          chunks = chunks;
          sendable = fit.4;
          incoming = h';
          todo_is = refl;
        };
      }

  carried-Delivers :
      (c : SecureConn S) (buf todo : Bytes) (kept : Bytes) (chunks : List Chunk)
      → 0 < length buf
      → 0 < length todo
      → c.recv_buf ≡ kept
      → (h : Carries Holds aead c todo) → h.chunks ≡ chunks
      → Delivers (channel conn aead now) (Carries Holds aead) c buf todo
  carried-Delivers c buf todo (b ∷ bs) chunks room more e h e' =
      buffered-Delivers c buf todo room (rw e (omega arith)) h
  carried-Delivers c buf todo [] [] room more e h e' =
      let empty : todo ≡ [] = h.todo_is ∙ (ap (λ t. t ++ plain_of h.chunks) e ∙ ap plain_of e') in
      absurd (omega (arith, ap length empty))
  carried-Delivers c buf todo [] ((ts, plain) ∷ chunks) room more e h e' =
      let only : todo ≡ plain ++ plain_of chunks =
        h.todo_is ∙ (ap (λ t. t ++ plain_of h.chunks) e ∙ ap plain_of e') in
      subst (Delivers (channel conn aead now) (Carries Holds aead) c buf) (sym only) (
        next-Delivers c buf h.inner ts plain chunks room e h.is_open h.bound h.key_sized h.pfx_sized
          (subst (AreSendable c.recv_counter) e' h.sendable)
          (subst (λ l. Holds h.inner (wire aead c.recv_key c.recv_pfx c.recv_counter l)) e'
            h.incoming))

  -- Over a stream, the channel is a stream of the plaintexts.
  pub channel-IsStream : IsStream (channel conn aead now) (Carries Holds aead)
  channel-IsStream = record {
    reads = λ c buf todo room more h.
        carried-Delivers c buf todo c.recv_buf h.chunks room more refl h refl;
  }
