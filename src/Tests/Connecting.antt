-- ===== src/Tests/Connecting.antt =====
-- A WebTransport dial to a server that answers at once.
use uniconn.Prelude.{ℕ, ◌≡◌, refl, String, true, false, none, some, List, [], ◌∷◌, ◌+◌}
use uniconn.Outcome.{ok}
use uniconn.Action.{Action}
use uniconn.Struct.{Bytes}
use uniconn.WebTransport.H3.{H3}
use uniconn.WebTransport.Server.{StreamConn, new_stream}
use uniconn.WebTransport.Client.{WtClient}
use uniconn.WebTransport.Client.Dialing.{
  dial_session, wait_h3, require_h3, request_session, await_session, open_stream,
}
use uniconn.WebTransport.Client.Connecting.{
  ParsedUrl, host_or_default, port_or_default, path_or_default, dial, dial_port, on_client,
}
use uniconn.WebTransport.Client.Connecting.Feeding.{Feeds, dial-Feeds}
use uniconn.Quic.Setup.{SockAddr, inet, inet6, QuicCalls, connect_to}

-- The streams are numbered in steps of four.
abbrev numbering : H3 ℕ
numbering = record {
  handle_event = λ i m e n. (ok [], n);
  send_headers = λ i headers n. (ok tt, n);
  transmit = λ n. (ok tt, n);
  next_stream_id = λ n. (ok n, n + 4);
  create_stream = λ session n. (ok n, n + 4);
}

abbrev parsed : String → ParsedUrl
parsed address = record { hostname = some "h"; port = ok none; path = "" }

abbrev no_text : ℕ → String
no_text n = "443"

abbrev no_bytes : String → Bytes
no_bytes s = []

-- The addresses that were connected to.
abbrev calls : QuicCalls (List SockAddr)
calls = record {
  getaddrinfo = λ host port e. (ok (inet "10.0.0.1" port ∷ []), e);
  bind_socket = λ only6 addr e. (ok tt, e);
  open_endpoint = λ config e. (ok tt, e);
  connect = λ addr e. (ok tt, addr ∷ e);
  wait_connected = λ e. (ok tt, e);
}

abbrev protocol : List SockAddr → WtClient ℕ
protocol e = record {
  connection = 0;
  h3_ready = true;
  wt_conn = none;
  session_ready = false;
  session_id = none;
  wt_stream_id = none;
}

abbrev slept : ℕ → Action (WtClient ℕ) (Unit {0})
slept n c = (ok tt, c)

abbrev answered : Action (WtClient ℕ) (Unit {0})
answered c = (ok tt, record c { session_ready = true; session_id = some 0 })

abbrev shut : Action (WtClient ℕ) (Unit {0})
shut c = (ok tt, c)

abbrev opened : StreamConn
opened = new_stream 4 0 (some ("h", "443"))

abbrev dialled : WtClient ℕ
dialled = record {
  connection = 8;
  h3_ready = true;
  wt_conn = some opened;
  session_ready = true;
  session_id = some 0;
  wt_stream_id = some 4;
}

dial_runs :
    dial numbering parsed no_text no_bytes calls protocol slept answered shut false "https://h" []
    ≡ (ok (opened, dialled), inet6 "::ffff:10.0.0.1" 443 0 0 ∷ [])
unfolding dial dial_port on_client port_or_default host_or_default path_or_default connect_to
    dial_session wait_h3 require_h3 request_session await_session open_stream
dial_runs = refl

dial-Feeds_example : Feeds numbering opened dialled
dial-Feeds_example =
    dial-Feeds numbering parsed no_text no_bytes calls protocol slept answered shut false
      "https://h" [] _ opened dialled dial_runs refl
