-- ===== src/WebTransport/H3.antt =====
-- What uniconn-py/uniconn/webtransport takes from aioquic: the events of a QUIC connection and of the
-- HTTP/3 connection on it, and the operations of the latter.
use uniconn.Prelude.{ℕ, Bool, List, [], ◌∷◌, bytes_eq, if◌then◌else◌}
use uniconn.Action.{Action}
use uniconn.Struct.{Bytes}

-- `HandshakeCompleted`, `StreamDataReceived` and any other event.
pub data QuicEvent : Type 0 where
  handshake_completed other_event : QuicEvent
  stream_received : (stream_id : ℕ) (message : Bytes) (end_stream : Bool) → QuicEvent

abbrev pub Headers : Type 0
Headers = List (Bytes × Bytes)

-- `HeadersReceived`, `WebTransportStreamDataReceived` and any other event.
pub data H3Event : Type 0 where
  other_h3_event : H3Event
  headers_received : (stream_id : ℕ) (headers : Headers) → H3Event
  stream_data : (stream_id session_id : ℕ) (message : Bytes) (stream_ended : Bool) → H3Event

-- `H3Connection` on a QUIC connection, of state `W` together, and the `transmit` of the protocol.
-- `next_stream_id` is `_quic.get_next_available_stream_id`, and `create_stream` is
-- `create_webtransport_stream` of a session, for both directions.
pub record H3 {ℓ} (W : Type ℓ) : Type ℓ where
  pub handle_event : ℕ → Bytes → Bool → Action W (List H3Event)
  pub send_headers : ℕ → Headers → Action W (Unit {0})
  pub transmit : Action W (Unit {0})
  pub next_stream_id : Action W ℕ
  pub create_stream : ℕ → Action W ℕ

-- `dict(headers).get(name, b"")`: of two headers of one name the later counts.
unfoldable pub header : Bytes → Bytes → Headers → Bytes
header name found [] = found
header name found ((k, v) ∷ headers) = header name (if bytes_eq k name then v else found) headers

-- b":method", b":protocol", b":status", b"CONNECT", b"webtransport" and b"200"
abbrev pub method_name : Bytes
method_name = b':' ∷ b'm' ∷ b'e' ∷ b't' ∷ b'h' ∷ b'o' ∷ b'd' ∷ []

abbrev pub protocol_name : Bytes
protocol_name = b':' ∷ b'p' ∷ b'r' ∷ b'o' ∷ b't' ∷ b'o' ∷ b'c' ∷ b'o' ∷ b'l' ∷ []

abbrev pub status_name : Bytes
status_name = b':' ∷ b's' ∷ b't' ∷ b'a' ∷ b't' ∷ b'u' ∷ b's' ∷ []

abbrev pub connect_method : Bytes
connect_method = b'C' ∷ b'O' ∷ b'N' ∷ b'N' ∷ b'E' ∷ b'C' ∷ b'T' ∷ []

abbrev pub webtransport_protocol : Bytes
webtransport_protocol =
    b'w' ∷ b'e' ∷ b'b' ∷ b't' ∷ b'r' ∷ b'a' ∷ b'n' ∷ b's' ∷ b'p' ∷ b'o' ∷ b'r' ∷ b't' ∷ []

-- b":scheme", b":authority", b":path" and b"https"
abbrev pub scheme_name : Bytes
scheme_name = b':' ∷ b's' ∷ b'c' ∷ b'h' ∷ b'e' ∷ b'm' ∷ b'e' ∷ []

abbrev pub authority_name : Bytes
authority_name = b':' ∷ b'a' ∷ b'u' ∷ b't' ∷ b'h' ∷ b'o' ∷ b'r' ∷ b'i' ∷ b't' ∷ b'y' ∷ []

abbrev pub path_name : Bytes
path_name = b':' ∷ b'p' ∷ b'a' ∷ b't' ∷ b'h' ∷ []

abbrev pub https_scheme : Bytes
https_scheme = b'h' ∷ b't' ∷ b't' ∷ b'p' ∷ b's' ∷ []

abbrev pub status_ok : Bytes
status_ok = b'2' ∷ b'0' ∷ b'0' ∷ []
