-- ===== src/Quic/Dialer.antt =====
-- `QuicDialer` of uniconn-py/uniconn/quic/dialer.py, over the calls of aioquic and of the socket
-- module.
use uniconn.Prelude.{ℕ, String, Bool, true, false, Option, none, some, List, if◌then◌else◌}
use uniconn.Outcome.{Outcome, ok, raised, pending}
use uniconn.Action.{Action, continue, ◌>>◌}
use uniconn.Asyncio.{StreamReader, StreamWriter}
use uniconn.Quic.{QuicConn}
use uniconn.Quic.Setup.{QuicConfiguration, QuicCalls, alpn_or_default, connect_to}
use uniconn.Quic.Listener.{new_conn, peer_text}
use uniconn.Tcp.Listener.{host_and_port}

-- `local`: `get_extra_info` returned the socket's name, if any, or raised an exception.
abbrev pub local_text : Outcome (Option (String × String)) → Option String
local_text (ok sockname) = peer_text sockname
local_text (raised e) = none
local_text pending = none

-- What the packages return: the reader and the writer of a new stream, and what the transport says of
-- its socket.
abbrev pub Opened : Type 0
Opened = StreamReader × StreamWriter × Outcome (Option (String × String))

-- The connection over the new stream.
unfoldable pub dialed_conn : String → Opened → QuicConn
dialed_conn address (reader, writer, sockname) =
    new_conn reader writer (some false) (local_text sockname) (some address)

-- `QuicDialer(alpn_protocols, verify_mode)`
pub record QuicDialer : Type 0 where
  pub alpn : List String
  pub verify_mode : Bool

unfoldable pub new_dialer : Option (List String) → Bool → QuicDialer
unfolding alpn_or_default
new_dialer alpn_protocols verify_mode = record {
  alpn = alpn_or_default alpn_protocols;
  verify_mode = verify_mode;
}

-- `config` for a host
unfoldable pub client_config : QuicDialer → String → QuicConfiguration
client_config d host = record {
  is_client = true;
  alpn_protocols = d.alpn;
  max_datagram_frame_size = none;
  server_name = some host;
  verify_mode = if d.verify_mode then none else some 0;
}

-- The connection to the server and its one stream; `create_stream` also gets the socket's name.
unfoldable pub open_quic {ℓ} :
    {E : Type ℓ} → QuicCalls E → Action E Opened → QuicDialer → String → ℕ → Action E Opened
unfolding client_config
open_quic calls create_stream d host port =
    connect_to calls (client_config d host) host port >> create_stream

-- `dial`; `open_stream` is what resolves the host, connects and creates a stream.
unfoldable pub dial {ℓ} :
    {E : Type ℓ}
    → (String → Outcome ℕ)
    → (String → ℕ → Action E Opened)
    → String
    → Action E QuicConn
unfolding dialed_conn
dial int open_stream address e =
    continue (host_and_port int address)
      (λ (host, port) e'.
        let (r, e'') = open_stream host port e' in
        continue r (λ opened e'''. (ok (dialed_conn address opened), e''')) e'')
      e

unfoldable pub quic_dial {ℓ} :
    {E : Type ℓ}
    → (String → Outcome ℕ)
    → QuicCalls E
    → Action E Opened
    → QuicDialer
    → String
    → Action E QuicConn
unfolding open_quic
quic_dial int calls create_stream d = dial int (open_quic calls create_stream d)
