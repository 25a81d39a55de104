-- ===== src/WebTransport/Client/Connecting.antt =====
-- `WebTransportDialer` of uniconn-py/uniconn/webtransport/dialer.py, from the URL to the connection.
pub mod Feeding
use Prim.Native.String.{◌++◌ as str_append}
use package.text.Mathlib.Text.{◌==◌ as str_eq}
use uniconn.Prelude.{
  ℕ, ◌≡◌, refl, sym, ap, ◌∙◌, subst, String, Bool, true, false, Option, none, some, List, [], ◌∷◌,
  ◌==◌, if◌then◌else◌,
}
use uniconn.Outcome.{Outcome, ok, raised, pending}
use uniconn.Action.{Action, continue, lift, ◌>>=◌, ◌>>◌}
use uniconn.Struct.{Bytes}
use uniconn.WebTransport.{feed_data}
use uniconn.WebTransport.H3.{H3, stream_received}
use uniconn.WebTransport.Server.{StreamConn, new_stream}
use uniconn.WebTransport.Client.{WtClient, stream_event, quic_event_received}
use uniconn.WebTransport.Client.Dialing.{
  on_connection, own_stream, own_stream-feeds, open_stream, request_session, wait_h3, require_h3,
  await_session, dial_session,
}
use uniconn.Quic.Setup.{QuicConfiguration, QuicCalls, connect_to}

-- What `urlparse` finds in a URL; to ask for the port raises ValueError where it is no number in range.
pub record ParsedUrl : Type 0 where
  pub hostname : Option String
  pub port : Outcome (Option ℕ)
  pub path : String

-- `parsed.hostname or "127.0.0.1"`
unfoldable pub host_or_default : Option String → String
host_or_default none = "127.0.0.1"
host_or_default (some host) = if str_eq host "" then "127.0.0.1" else host

-- `parsed.port or 443`
unfoldable pub port_or_default : Option ℕ → ℕ
port_or_default none = 443
port_or_default (some port) = if port == 0 then 443 else port

-- `parsed.path or "/"`
unfoldable pub path_or_default : String → String
path_or_default path = if str_eq path "" then "/" else path

-- `config`
unfoldable pub wt_config : Bool → String → QuicConfiguration
wt_config verify_ssl host = record {
  is_client = true;
  alpn_protocols = "h3" ∷ [];
  max_datagram_frame_size = some 65536;
  server_name = some host;
  verify_mode = if verify_ssl then none else some 0;
}

-- The result beside the protocol object.
abbrev pub beside :
    {W : Type 0} → WtClient W → Outcome StreamConn → Outcome (StreamConn × WtClient W)
beside c (ok wt_conn) = ok (wt_conn, c)
beside c (raised e) = raised e
beside c pending = pending

-- `str` and `encode` are Python's. `client` is the protocol object as it is when `wait_connected`
-- returns; the other parameters are those of `dial_session`.
module _ {ℓ} {E : Type ℓ} {W : Type 0} (h3 : H3 W) (urlparse : String → ParsedUrl)
    (str : ℕ → String) (encode : String → Bytes) (calls : QuicCalls E) (client : E → WtClient W)
    (sleep : ℕ → Action (WtClient W) (Unit {0}))
    (wait_ready close : Action (WtClient W) (Unit {0})) where
  -- The session with a server that is connected.
  unfoldable pub on_client : String → ℕ → String → E → Outcome (StreamConn × WtClient W) × E
  on_client host port path e =
      let authority = encode (str_append host (str_append ":" (str port))) in
      let (r, c) =
        dial_session h3 sleep wait_ready close authority (encode path) (some (host, str port))
          (client e) in
      (beside c r, e)

  unfoldable pub dial_port : Bool → ParsedUrl → ℕ → E → Outcome (StreamConn × WtClient W) × E
  unfolding on_client host_or_default path_or_default wt_config
  dial_port verify_ssl parsed port e =
      let host = host_or_default parsed.hostname in
      let (r, e') = connect_to calls (wt_config verify_ssl host) host port e in
      continue r (λ _. on_client host port (path_or_default parsed.path)) e'

  -- `dial`, with the protocol object as it is then.
  unfoldable pub dial : Bool → String → E → Outcome (StreamConn × WtClient W) × E
  unfolding dial_port port_or_default
  dial verify_ssl address e =
      let parsed = urlparse address in
      continue parsed.port (λ port. dial_port verify_ssl parsed (port_or_default port)) e
