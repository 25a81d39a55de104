-- ===== src/WebTransport/Server.antt =====
-- `_WTServerProtocol` of uniconn-py/uniconn/webtransport/listener.py: the events of one QUIC
-- connection, and the connections that its streams become. The queue of the listener holds stream
-- numbers, since each stands for the object in `wt_conns`; the connections share the protocol
-- object, so that it is a field of the server, and theirs is empty.
pub mod Routing
pub mod Arrivals
use uniconn.Prelude.{
  ℕ, String, Bool, true, false, ◌&&◌, Option, none, some, List, [], ◌∷◌, ◌++◌, ◌==◌, bytes_eq,
  if◌then◌else◌,
}
use uniconn.Outcome.{Outcome, ok, raised, pending}
use uniconn.Action.{Action, continue}
use uniconn.Struct.{Bytes}
use uniconn.WebTransport.{WebTransportConn, feed_data}
use uniconn.WebTransport.H3.{
  QuicEvent, handshake_completed, other_event, stream_received, H3Event, other_h3_event,
  headers_received, stream_data, Headers, H3, header, method_name, protocol_name, status_name,
  connect_method, webtransport_protocol, status_ok,
}

abbrev pub StreamConn : Type 0
StreamConn = WebTransportConn (Unit {0})

-- `h3_ready` is whether `_h3` is not `None`, and `peer` the address that `_network_paths` shows.
pub record WtServer {ℓ} (W : Type ℓ) : Type ℓ where
  pub connection : W
  pub h3_ready : Bool
  pub wt_conns : List (ℕ × StreamConn)
  pub session_ids : List ℕ
  pub conn_queue : List ℕ
  pub peer : Option (String × String)

unfoldable pub conn_of : List (ℕ × StreamConn) → ℕ → Option StreamConn
conn_of [] stream_id = none
conn_of ((k, c) ∷ conns) stream_id =
    let others = conn_of conns stream_id in if k == stream_id then some c else others

-- `self._wt_conns[stream_id].feed_data(data, ended)`
unfoldable pub feed_stream : ℕ → Bytes → Bool → List (ℕ × StreamConn) → List (ℕ × StreamConn)
feed_stream stream_id message ended [] = []
feed_stream stream_id message ended ((k, c) ∷ conns) =
    let others = feed_stream stream_id message ended conns in
    if k == stream_id then (k, feed_data message ended c) ∷ conns else (k, c) ∷ others

-- `WebTransportConn(...)` of a new stream
unfoldable pub new_stream : ℕ → ℕ → Option (String × String) → StreamConn
new_stream stream_id session_id peer = record {
  protocol = tt;
  stream_id = stream_id;
  session_id = session_id;
  remote = peer;
  closed = false;
  buf = [];
  data_event = false;
  eof = false;
}

module _ {ℓ} {W : Type ℓ} where
  -- `if event.stream_id not in self._wt_conns`
  unfoldable pub register_stream : Option StreamConn → ℕ → ℕ → WtServer W → WtServer W
  register_stream (some c) stream_id session_id s = s
  register_stream none stream_id session_id s = record s {
    wt_conns = (stream_id, new_stream stream_id session_id s.peer) ∷ s.wt_conns;
    conn_queue = s.conn_queue ++ (stream_id ∷ []);
  }

  -- A `WebTransportStreamDataReceived`.
  unfoldable pub stream_data_received : ℕ → ℕ → Bytes → Bool → WtServer W → WtServer W
  stream_data_received stream_id session_id message ended s =
      let s' = register_stream (conn_of s.wt_conns stream_id) stream_id session_id s in
      record s' { wt_conns = feed_stream stream_id message ended s'.wt_conns }

  -- A call of the HTTP/3 connection or of the protocol.
  unfoldable pub on_connection {κ} : {A : Type κ} → Action W A → Action (WtServer W) A
  on_connection m s = let (r, w) = m s.connection in (r, record s { connection = w })

  module _ (h3 : H3 W) where
    -- The answer to a CONNECT: the session is accepted.
    unfoldable pub accept_session : ℕ → Action (WtServer W) (Unit {0})
    unfolding on_connection
    accept_session stream_id s =
        let s' : WtServer W = record s { session_ids = stream_id ∷ s.session_ids } in
        let (r, s'') =
          on_connection (h3.send_headers stream_id ((status_name, status_ok) ∷ [])) s' in
        continue r (λ _. on_connection h3.transmit) s''

    unfoldable pub h3_event_received : H3Event → Action (WtServer W) (Unit {0})
    h3_event_received other_h3_event s = (ok tt, s)
    h3_event_received (headers_received stream_id headers) s =
        if bytes_eq (header method_name [] headers) connect_method
          && bytes_eq (header protocol_name [] headers) webtransport_protocol
        then accept_session stream_id s
        else (ok tt, s)
    h3_event_received (stream_data stream_id session_id message ended) s =
        (ok tt, stream_data_received stream_id session_id message ended s)

    unfoldable pub h3_events_received : List H3Event → Action (WtServer W) (Unit {0})
    h3_events_received [] s = (ok tt, s)
    h3_events_received (event ∷ events) s =
        let (r, s') = h3_event_received event s in continue r (λ _. h3_events_received events) s'

    -- `StreamDataReceived`, by the connection of its stream, if it has one.
    unfoldable pub stream_event :
        Option StreamConn → ℕ → Bytes → Bool → Action (WtServer W) (Unit {0})
    unfolding on_connection
    stream_event (some c) stream_id message ended s =
        (ok tt, record s { wt_conns = feed_stream stream_id message ended s.wt_conns })
    stream_event none stream_id message ended s =
        let (r, s') = on_connection (h3.handle_event stream_id message ended) s in
        continue r h3_events_received s'

    unfoldable pub quic_event_received : QuicEvent → Action (WtServer W) (Unit {0})
    quic_event_received handshake_completed s = (ok tt, record s { h3_ready = true })
    quic_event_received other_event s = (ok tt, s)
    quic_event_received (stream_received stream_id message ended) s =
        if s.h3_ready
        then stream_event (conn_of s.wt_conns stream_id) stream_id message ended s
        else (ok tt, s)
