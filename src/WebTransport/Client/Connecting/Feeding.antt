-- ===== src/WebTransport/Client/Connecting/Feeding.antt =====
-- What reaches the connection that `dial` of webtransport/dialer.py returned.
use uniconn.Prelude.{ℕ, ◌≡◌, sym, subst, ap, String, Bool, true, none, some, Option}
use uniconn.Outcome.{Outcome, ok, raised, pending}
use uniconn.Action.{Action, continue, ◌>>=◌}
use uniconn.Struct.{Bytes}
use uniconn.WebTransport.{feed_data}
use uniconn.WebTransport.H3.{H3, stream_received}
use uniconn.WebTransport.Server.{StreamConn, new_stream}
use uniconn.WebTransport.Client.{WtClient, quic_event_received}
use uniconn.WebTransport.Client.Dialing.{
  on_connection, own_stream, own_stream-feeds, open_on, open_stream, request_session, wait_h3,
  require_h3, await_session, dial_session,
}
use uniconn.WebTransport.Client.Connecting.{ParsedUrl, beside, on_client, dial_port, dial}
use uniconn.Quic.Setup.{QuicCalls, connect_to}

-- A call that returned behind another: the other returned too.
continued {ℓ} :
    {S : Type ℓ} {A B : Type 0} (r : Outcome A) (k : A → Action S B) (s s' : S) (b : B)
    → continue r k s ≡ (ok b, s')
    → (a : A) × (k a s ≡ (ok b, s'))
continued (ok a) k s s' b h = (a, h)
continued (raised e) k s s' b h = cc
continued pending k s s' b h = cc

-- Of a call that returns, the result and the state are so.
abbrev pub Ends {ℓ} : {S : Type ℓ} {B : Type 0} → (B → S → Type 0) → Action S B → Type ℓ
Ends {S = S} {B = B} Q m = (s s' : S) (b : B) → m s ≡ (ok b, s') → Q b s'

then-Ends {ℓ} :
    {S : Type ℓ} {A B : Type 0} (Q : B → S → Type 0) (m : Action S A) (k : A → Action S B)
    → ((a : A) → Ends Q (k a))
    → Ends Q (m >>= k)
then-Ends Q m k rest s s' b h =
    let (a, h') = continued (m s).0 k (m s).1 s' b h in rest a (m s).1 s' b h'

-- The data of the stream of `wt_conn` reach it, at the client `c`.
abbrev pub Feeds : {W : Type 0} → H3 W → StreamConn → WtClient W → Type 0
Feeds {W = W} h3 wt_conn c =
    (m : Bytes) (ended : Bool)
    → quic_event_received h3 (stream_received wt_conn.stream_id m ended) c
      ≡ (ok tt, record c { wt_conn = some (feed_data m ended wt_conn) })

module _ {W : Type 0} (h3 : H3 W) where
  own_stream-id :
      (r : Outcome (Unit {0})) (wt_conn d : StreamConn) (c c' : WtClient W)
      → continue r (λ _ c''. (ok wt_conn, record c'' { wt_conn = some wt_conn })) c ≡ (ok d, c')
      → d ≡ wt_conn
  own_stream-id (ok _) wt_conn d c c' h = cc
  own_stream-id (raised e) wt_conn d c c' h = cc
  own_stream-id pending wt_conn d c c' h = cc

  own_stream-Feeds :
      (session_id i : ℕ) (remote : Option (String × String)) (c c' : WtClient W)
      (wt_conn : StreamConn)
      → own_stream h3 session_id i remote c ≡ (ok wt_conn, c')
      → c'.h3_ready ≡ true
      → Feeds h3 wt_conn c'
  own_stream-Feeds session_id i remote c c' wt_conn h is_ready m ended =
      let same : wt_conn.stream_id ≡ i =
        unfold own_stream in
        unfold new_stream in
        ap (λ (d : StreamConn). d.stream_id)
          (own_stream-id (h3.transmit c.connection).0 (new_stream i session_id remote) wt_conn _ c'
            h) in
      subst
        (λ j.
          quic_event_received h3 (stream_received j m ended) c'
          ≡ (ok tt, record c' { wt_conn = some (feed_data m ended wt_conn) }))
        (sym same) (own_stream-feeds h3 session_id i remote c c' wt_conn m ended h is_ready)

  open_on-Feeds :
      (session_id : Option ℕ) (remote : Option (String × String)) (c c' : WtClient W)
      (wt_conn : StreamConn)
      → open_on h3 session_id remote c ≡ (ok wt_conn, c')
      → c'.h3_ready ≡ true
      → Feeds h3 wt_conn c'
  unfolding open_on
  open_on-Feeds none remote c c' wt_conn h is_ready = cc
  open_on-Feeds (some session_id) remote c c' wt_conn h is_ready =
      let (i, opened) = continued _ (λ i. own_stream h3 session_id i remote) _ c' wt_conn h in
      own_stream-Feeds session_id i remote ((on_connection h3 (h3.create_stream session_id) c).1) c'
        wt_conn opened is_ready

  module _ (sleep : ℕ → Action (WtClient W) (Unit {0}))
      (wait_ready close : Action (WtClient W) (Unit {0})) where
    abbrev Fed : StreamConn → WtClient W → Type 0
    Fed wt_conn c = c.h3_ready ≡ true → Feeds h3 wt_conn c

    dial_session-Feeds :
        (authority path : Bytes) (remote : Option (String × String))
        → Ends Fed (dial_session h3 sleep wait_ready close authority path remote)
    unfolding dial_session open_stream
    dial_session-Feeds authority path remote =
        then-Ends Fed (wait_h3 h3 sleep wait_ready close 50) _ (λ _.
          then-Ends Fed (require_h3 h3 sleep wait_ready close) _ (λ _.
            then-Ends Fed (sleep 100) _ (λ _.
              then-Ends Fed (request_session h3 authority path) _ (λ _.
                then-Ends Fed (await_session h3 sleep wait_ready close) (λ _. open_stream h3 remote)
                  (λ _ c c' wt_conn h. open_on-Feeds c.session_id remote c c' wt_conn h)))))

beside-ok :
    {W : Type 0} (y : Outcome StreamConn × WtClient W) (d : StreamConn × WtClient W)
    → beside y.1 y.0 ≡ ok d
    → y ≡ (ok d.0, d.1)
beside-ok (ok a, c) d h = cc
beside-ok (raised e, c) d h = cc
beside-ok (pending, c) d h = cc

-- A connection that `dial` returned gets what then comes in on its stream, where the protocol object has
-- its HTTP/3 connection: the data go to it, past HTTP/3, and nothing else of the protocol object changes.
pub dial-Feeds {ℓ} :
    {E : Type ℓ} {W : Type 0} (h3 : H3 W) (urlparse : String → ParsedUrl) (str : ℕ → String)
    (encode : String → Bytes) (calls : QuicCalls E) (client : E → WtClient W)
    (sleep : ℕ → Action (WtClient W) (Unit {0})) (wait_ready close : Action (WtClient W) (Unit {0}))
    (verify_ssl : Bool) (address : String) (e e' : E) (wt_conn : StreamConn) (c : WtClient W)
    → dial h3 urlparse str encode calls client sleep wait_ready close verify_ssl address e
      ≡ (ok (wt_conn, c), e')
    → c.h3_ready ≡ true
    → Feeds h3 wt_conn c
unfolding dial dial_port on_client
dial-Feeds h3 urlparse str encode calls client sleep wait_ready close verify_ssl address e e'
      wt_conn c h is_ready =
    let (port, h₁) = continued (urlparse address).port _ e e' (wt_conn, c) h in
    let (_, h₂) = continued (connect_to calls _ _ _ e).0 _ _ e' (wt_conn, c) h₁ in
    dial_session-Feeds h3 sleep wait_ready close _ _ _ _ c wt_conn
      (beside-ok _ (wt_conn, c) (ap (λ p. p.0) h₂)) is_ready
