-- ===== src/WebTransport/Client.antt =====
-- `_WTClientProtocol` of uniconn-py/uniconn/webtransport/dialer.py: the events of the dialer's QUIC
-- connection, and the one stream of its session.
pub mod Dialing
pub mod Connecting
use uniconn.Prelude.{
  ℕ, Bool, true, false, Option, none, some, List, [], ◌∷◌, ◌==◌, bytes_eq, if◌then◌else◌,
}
use uniconn.Outcome.{ok}
use uniconn.Action.{Action, continue}
use uniconn.Struct.{Bytes}
use uniconn.WebTransport.{feed_data}
use uniconn.WebTransport.H3.{
  QuicEvent, handshake_completed, other_event, stream_received, H3Event, other_h3_event,
  headers_received, stream_data, H3, header, status_name, status_ok,
}
use uniconn.WebTransport.Server.{StreamConn}

pub record WtClient {ℓ} (W : Type ℓ) : Type ℓ where
  pub connection : W
  pub h3_ready : Bool
  pub wt_conn : Option StreamConn
  pub session_ready : Bool
  pub session_id : Option ℕ
  pub wt_stream_id : Option ℕ

abbrev pub is_stream : ℕ → Option ℕ → Bool
is_stream stream_id none = false
is_stream stream_id (some k) = stream_id == k

-- `_h3_event_received` of stream data; the first argument is `_wt_conn`.
unfoldable pub fed : Option StreamConn → ℕ → Bytes → Bool → Option StreamConn
fed none stream_id message ended = none
fed (some c) stream_id message ended =
    if stream_id == c.stream_id then some (feed_data message ended c) else some c

module _ {ℓ} {W : Type ℓ} where
  unfoldable pub h3_event_received : H3Event → WtClient W → WtClient W
  h3_event_received other_h3_event c = c
  h3_event_received (headers_received stream_id headers) c =
      if bytes_eq (header status_name [] headers) status_ok
      then record c { session_id = some stream_id; session_ready = true }
      else c
  h3_event_received (stream_data stream_id session_id message ended) c = record c {
    wt_conn = fed c.wt_conn stream_id message ended;
  }

  unfoldable pub h3_events_received : List H3Event → WtClient W → WtClient W
  h3_events_received [] c = c
  h3_events_received (event ∷ events) c = h3_events_received events (h3_event_received event c)

  module _ (h3 : H3 W) where
    -- `for h3_event in self._h3.handle_event(event)`
    unfoldable pub through_h3 : ℕ → Bytes → Bool → Action (WtClient W) (Unit {0})
    through_h3 stream_id message ended c =
        let (r, w) = h3.handle_event stream_id message ended c.connection in
        continue r (λ events c'. (ok tt, h3_events_received events c'))
          (record c { connection = w })

    -- `StreamDataReceived`; the first argument is `_wt_conn`.
    unfoldable pub stream_event :
        Option StreamConn → ℕ → Bytes → Bool → Action (WtClient W) (Unit {0})
    stream_event none stream_id message ended c = through_h3 stream_id message ended c
    stream_event (some k) stream_id message ended c =
        if is_stream stream_id c.wt_stream_id
        then (ok tt, record c { wt_conn = some (feed_data message ended k) })
        else through_h3 stream_id message ended c

    unfoldable pub quic_event_received : QuicEvent → Action (WtClient W) (Unit {0})
    quic_event_received handshake_completed c = (ok tt, record c { h3_ready = true })
    quic_event_received other_event c = (ok tt, c)
    quic_event_received (stream_received stream_id message ended) c =
        if c.h3_ready then stream_event c.wt_conn stream_id message ended c else (ok tt, c)
