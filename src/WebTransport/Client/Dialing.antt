-- ===== src/WebTransport/Client/Dialing.antt =====
-- `WebTransportDialer.dial` of uniconn-py/uniconn/webtransport/dialer.py, from the connected
-- protocol on: the request for a session, its one stream, and the connection over that.
use uniconn.Prelude.{
  ℕ, zero, suc, ◌≡◌, refl, String, Bool, true, false, Option, none, some, [], ◌∷◌, ==_refl,
  if◌then◌else◌,
}
use uniconn.Outcome.{
  Outcome, ok, raised, pending, Exn, exn, connection_error, timeout_error, type_error, text,
}
use uniconn.Action.{Action, continue, raise, ◌>>=◌, ◌>>◌}
use uniconn.Struct.{Bytes}
use uniconn.WebTransport.{feed_data}
use uniconn.WebTransport.H3.{
  Headers, H3, stream_received, method_name, protocol_name, scheme_name, authority_name, path_name,
  connect_method, webtransport_protocol, https_scheme,
}
use uniconn.WebTransport.Server.{StreamConn, new_stream}
use uniconn.WebTransport.Client.{WtClient, stream_event, quic_event_received}

-- `headers`, of the bytes of `f"{host}:{port}"` and of the path.
abbrev pub connect_headers : Bytes → Bytes → Headers
connect_headers authority path =
    (method_name, connect_method)
    ∷ (protocol_name, webtransport_protocol)
    ∷ (scheme_name, https_scheme)
    ∷ (authority_name, authority)
    ∷ (path_name, path)
    ∷ []

-- The exception of the handler of `asyncio.TimeoutError`; others go on.
abbrev pub is_timeout : Exn → Bool
is_timeout (exn timeout_error message) = true
is_timeout e = false

module _ {ℓ} {W : Type ℓ} (h3 : H3 W) where
  -- A call of the HTTP/3 connection or of the protocol.
  unfoldable pub on_connection {κ} : {A : Type κ} → Action W A → Action (WtClient W) A
  on_connection m c = let (r, w) = m c.connection in (r, record c { connection = w })

  -- The CONNECT request.
  unfoldable pub request_session : Bytes → Bytes → Action (WtClient W) (Unit {0})
  unfolding on_connection
  request_session authority path = do
    stream_id ← on_connection h3.next_stream_id
    on_connection (h3.send_headers stream_id (connect_headers authority path))
    on_connection h3.transmit

  -- `protocol._wt_stream_id = wt_stream_id` and `protocol._wt_conn = wt_conn`, with the call between.
  unfoldable pub own_stream : ℕ → ℕ → Option (String × String) → Action (WtClient W) StreamConn
  unfolding on_connection
  own_stream session_id wt_stream_id remote c =
      let (r, c') = on_connection h3.transmit (record c { wt_stream_id = some wt_stream_id }) in
      let wt_conn = new_stream wt_stream_id session_id remote in
      continue r (λ _ c''. (ok wt_conn, record c'' { wt_conn = some wt_conn })) c'

  -- `_session_id` is `None` only before the session is ready, and aioquic has no stream of no session.
  unfoldable pub open_on : Option ℕ → Option (String × String) → Action (WtClient W) StreamConn
  unfolding own_stream
  open_on none remote c = (raised (exn type_error (text "no session")), c)
  open_on (some session_id) remote c =
      (on_connection (h3.create_stream session_id) >>= λ wt_stream_id.
      own_stream session_id wt_stream_id remote)
        c

  -- The stream of the session and the connection over it.
  unfoldable pub open_stream : Option (String × String) → Action (WtClient W) StreamConn
  unfolding open_on
  open_stream remote c = open_on c.session_id remote c

  -- `sleep` is `asyncio.sleep`, of milliseconds, `wait_ready` the wait for `_session_ready`, of ten
  -- seconds, during which events come in, and `close` is `transport.close`.
  module _ (sleep : ℕ → Action (WtClient W) (Unit {0}))
      (wait_ready close : Action (WtClient W) (Unit {0})) where
    -- The loop `for _ in range(n)`
    unfoldable pub wait_h3 : ℕ → Action (WtClient W) (Unit {0})
    wait_h3 zero c = (ok tt, c)
    wait_h3 (suc n) c = elim c.h3_ready [ true ↦ (ok tt, c) | false ↦ (sleep 10 >> wait_h3 n) c ]

    unfoldable pub require_h3 : Action (WtClient W) (Unit {0})
    require_h3 c =
        if c.h3_ready
        then (ok tt, c)
        else (close >> raise (exn connection_error (text "H3 connection not established"))) c

    session_or_error : Outcome (Unit {0}) → Action (WtClient W) (Unit {0})
    session_or_error (raised e) c =
        if is_timeout e
        then (close >> raise (exn connection_error (text "WebTransport session timed out"))) c
        else (raised e, c)
    session_or_error r c = (r, c)

    -- The wait for the session, within its `try`.
    unfoldable pub await_session : Action (WtClient W) (Unit {0})
    unfolding session_or_error
    await_session c = let (r, c') = wait_ready c in session_or_error r c'

    unfoldable pub dial_session :
        Bytes → Bytes → Option (String × String) → Action (WtClient W) StreamConn
    unfolding wait_h3 require_h3
    dial_session authority path remote = do
      wait_h3 50
      require_h3
      sleep 100
      request_session authority path
      await_session
      open_stream remote

own_stream-owns {ℓ} :
    {W : Type ℓ} (r : Outcome (Unit {0})) (wt_conn d : StreamConn) (c c' : WtClient W)
    → continue r (λ _ c''. (ok wt_conn, record c'' { wt_conn = some wt_conn })) c ≡ (ok d, c')
    → (c'.wt_conn ≡ some d) × (c'.wt_stream_id ≡ c.wt_stream_id)
own_stream-owns (ok _) wt_conn d c c' h = (cc, cc)
own_stream-owns (raised e) wt_conn d c c' h = cc
own_stream-owns pending wt_conn d c c' h = cc

-- Once a stream was opened, its data reach the connection that was returned, and no HTTP/3.
pub own_stream-feeds {ℓ} :
    {W : Type ℓ} (h3 : H3 W) (session_id i : ℕ) (remote : Option (String × String))
    (c c' : WtClient W) (wt_conn : StreamConn) (m : Bytes) (e : Bool)
    → own_stream h3 session_id i remote c ≡ (ok wt_conn, c')
    → c'.h3_ready ≡ true
    → quic_event_received h3 (stream_received i m e) c'
      ≡ (ok tt, record c' { wt_conn = some (feed_data m e wt_conn) })
unfolding own_stream quic_event_received stream_event
own_stream-feeds h3 session_id i remote c c' wt_conn m e returned is_ready =
    let (owned, same) =
      own_stream-owns (h3.transmit c.connection).0 (new_stream i session_id remote) wt_conn _ c'
        returned in
    rw (is_ready, owned, same, ==_refl i) refl
