-- ===== src/Quic/Listener.antt =====
-- `QuicListener` of uniconn-py/uniconn/quic/listener.py. `accept`, `close` and `addr` are those of
-- Accepting.
use Prim.Native.String.{◌++◌ as str_append}
use uniconn.Prelude.{String, Bool, false, Option, none, some, List}
use uniconn.Outcome.{Outcome, ok}
use uniconn.Action.{Action, continue, ◌>>=◌}
use uniconn.Asyncio.{StreamReader, StreamWriter, to_addr}
use uniconn.Conn.{Addr}
use uniconn.Address.{last_part}
use uniconn.Accepting.{Listener, new_listener, put, bound_to}
use uniconn.Quic.{QuicConn}
use uniconn.Quic.Setup.{QuicConfiguration, alpn_or_default}

abbrev pub peer_text : Option (String × String) → Option String
peer_text none = none
peer_text (some (host, port)) = some (str_append host (str_append ":" port))

-- `QuicConn(reader, writer, protocol=..., local_address=..., remote_address=...)`
unfoldable pub new_conn :
    StreamReader → StreamWriter → Option Bool → Option String → Option String → QuicConn
new_conn reader writer protocol local remote = record {
  reader = reader;
  writer = writer;
  protocol = protocol;
  local = local;
  remote = remote;
  closed = false;
}

-- The connection of a new stream. Without an address of the listener, as while `bind` waits for the
-- server, the `try` ends in an exception, and nothing is known of the stream but its reader and writer.
unfoldable pub stream_conn : String → Option Addr → StreamReader → StreamWriter → QuicConn
unfolding new_conn
stream_conn host none reader writer = new_conn reader writer none none none
stream_conn host (some addr) reader writer =
    new_conn reader writer (some false)
      (some (str_append host (str_append ":" (last_part addr.address)))) (peer_text writer.peername)

-- `stream_handler`
unfoldable pub stream_handler :
    String → StreamReader → StreamWriter → Listener QuicConn → Listener QuicConn
stream_handler host reader writer l = put (stream_conn host l.addr reader writer) l

-- The end of `bind`: `get_extra_info` returned the socket's name, if any, or raised an exception.
abbrev pub resolved :
    String → String → Outcome (Option (String × String)) → Option Addr → Option Addr
resolved host port (ok none) addr = addr
resolved host port (ok (some bound)) addr = to_addr "quic" (some bound)
resolved host port _ addr = to_addr "quic" (some (host, port))

unfoldable pub bind_ends :
    String → String → Outcome (Option (String × String)) → Listener QuicConn → Listener QuicConn
unfolding bound_to
bind_ends host port sockname l = bound_to (resolved host port sockname l.addr) l

-- `config` of `bind`
unfoldable pub server_config : Option (List String) → QuicConfiguration
unfolding alpn_or_default
server_config alpn_protocols = record {
  is_client = false;
  alpn_protocols = alpn_or_default alpn_protocols;
  max_datagram_frame_size = none;
  server_name = none;
  verify_mode = none;
}

-- `bind`: `load_cert_chain` takes the two paths, and `serve` returns what `get_extra_info` then says
-- of the socket; while it is awaited, streams may come in.
unfoldable pub bind {ℓ} :
    {E : Type ℓ}
    → (String → String → Action E (Unit {0}))
    → (QuicConfiguration
        → String
        → String
        → Action (Listener QuicConn × E) (Outcome (Option (String × String))))
    → String
    → String
    → String
    → String
    → Option (List String)
    → Action E (Listener QuicConn)
unfolding bind_ends server_config new_listener
bind load_cert_chain serve host port certificate_chain private_key alpn_protocols =
    load_cert_chain certificate_chain private_key >>= λ _ e.
    let (r, (l, e')) = serve (server_config alpn_protocols) host port (new_listener, e) in
    continue r (λ sockname e''. (ok (bind_ends host port sockname l), e'')) e'
