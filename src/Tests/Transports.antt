-- ===== src/Tests/Transports.antt =====
-- The transports and the choice of one, at concrete inputs.
use uniconn.Prelude.{
  ℕ, ◌+◌, ◌≡◌, refl, String, Bool, true, false, none, List, [], ◌∷◌, ◌++◌, if◌then◌else◌,
}
use uniconn.Outcome.{Outcome, ok, raised, pending, exn, connection_error, text}
use uniconn.Action.{Action}
use uniconn.Struct.{Bytes}
use uniconn.Conn.Stream.{IsDuplex}
use uniconn.WebSocket.{WebSocket, websocket}
use uniconn.WebSocket.Duplex.{IsSocket, Live, websocket-IsDuplex}
use uniconn.Multi.Dialer.{Protocol, get}
use uniconn.Multi.Dialer.Choice.{Verdict, try_all-Verdict}

-- A socket that keeps what was sent, and returns the messages of a list in turn.
abbrev Mailbox : Type 0
Mailbox = Bytes × List Bytes

take_one : Bytes → List Bytes → Outcome Bytes × Mailbox
take_one out [] = (pending, (out, []))
take_one out (m ∷ ms) = (ok m, (out, ms))

abbrev list_socket : WebSocket Mailbox
unfolding take_one
list_socket = record {
  recv = λ w. take_one w.0 w.1;
  send = λ m w. (ok tt, (w.0 ++ m, w.1));
  close = λ w. (ok tt, w);
}

abbrev Holding : Mailbox → Bytes → List Bytes → Type 0
Holding w out ms = w ≡ (out, ms)

list_socket-IsSocket : IsSocket list_socket Holding
unfolding list_socket take_one
list_socket-IsSocket = record {
  recvs = λ w out m ms h. ((out, ms), rw h, refl);
  sends = λ w out m ms h. ((out ++ m, ms), rw h, refl);
}

websocket-IsDuplex_example : IsDuplex (websocket list_socket) (Live list_socket Holding)
websocket-IsDuplex_example = websocket-IsDuplex list_socket Holding list_socket-IsSocket

-- A dialer connects or not; the world counts the attempts.
abbrev toy_dial : Bool → String → Action ℕ ℕ
toy_dial up address e =
    if up then (ok 3, e + 1) else (raised (exn connection_error (text "refused")), e + 1)

abbrev dialers : List (Protocol × Bool)
dialers = ("quic", false) ∷ ("tcp", true) ∷ []

abbrev servers : List (String × String)
servers = ("tcp", "host:1") ∷ ("quic", "host:2") ∷ []

try_all-Verdict_example :
    Verdict toy_dial dialers (get servers) ("quic" ∷ "kcp" ∷ "tcp" ∷ []) none 0
try_all-Verdict_example =
    try_all-Verdict toy_dial dialers (get servers) ("quic" ∷ "kcp" ∷ "tcp" ∷ []) none 0
