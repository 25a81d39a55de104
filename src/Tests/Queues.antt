-- ===== src/Tests/Queues.antt =====
-- The listeners of the transports, and the answer to a negotiation, at concrete inputs.
use uniconn.Prelude.{ℕ, ◌≡◌, ◌≤◌, ◌++◌, refl, true, false, none, some, List, [], ◌∷◌, length}
use uniconn.Outcome.{ok, pending}
use uniconn.Struct.{Bytes}
use uniconn.Tcp.{TcpConn, tcp}
use uniconn.Tcp.Ended.{IsAtEnd, tcp-IsPrompt}
use uniconn.Secure.Message.{max_message_size}
use uniconn.Secure.Frame.{read_frame_from_conn}
use uniconn.Secure.Frame.Ending.{Settled, read_frame-Settled}
use uniconn.Tests.Toys.{peer_sent}
use uniconn.Json.{Json}
use uniconn.Json.Access.{JsonCodec, CodecLaws}
use uniconn.Accepting.{Listener, put}
use uniconn.Accepting.Promise.{queue_listener, wt_listener, wt_arrives, kcp_listener}
use uniconn.Accepting.Order.{accept-in_order}
use uniconn.Kcp.Listener.{KcpListener, AddressTuple, register}
use uniconn.WebTransport.Listener.{new}
use uniconn.Conn.Listening.Order.{Event, connects, accepts, closes, run, connected}
use uniconn.Multi.Dialer.{NegotiateResponse}
use uniconn.Multi.Negotiate.{response_json}

abbrev events : List (Event ℕ)
events = connects 1 ∷ accepts ∷ accepts ∷ connects 2 ∷ closes ∷ connects 3 ∷ accepts ∷ []

abbrev kcp_events : List (Event AddressTuple)
kcp_events = connects ("a", "1") ∷ accepts ∷ connects ("b", "2") ∷ closes ∷ []

abbrev queue_of_two : Listener ℕ
queue_of_two = record { conn_queue = 7 ∷ 8 ∷ []; addr = none; closed = false; server_closes = 0 }

abbrev kcp_queue : KcpListener ℕ
kcp_queue = record {
  host = "h";
  port = "1";
  conn_queue = ("c", "3") ∷ [];
  connections = [];
  closed = false;
}

accept-in_order_example :
    ((run (queue_listener pending) (λ t. t.conn_queue) put events queue_of_two).0
        ++ (run (queue_listener pending) (λ t. t.conn_queue) put events queue_of_two).1.conn_queue
      ≡ queue_of_two.conn_queue ++ connected events)
    × ((run wt_listener (λ t. t.queue.conn_queue) wt_arrives events new).0
          ++ (run wt_listener (λ t. t.queue.conn_queue) wt_arrives events new).1.queue.conn_queue
        ≡ new.queue.conn_queue ++ connected events)
    × (let r = run kcp_listener (λ t. t.conn_queue) (λ a. register none a 0) kcp_events kcp_queue in
        r.0 ++ r.1.conn_queue ≡ kcp_queue.conn_queue ++ connected kcp_events)
accept-in_order_example =
    accept-in_order pending events queue_of_two new kcp_events (λ a. 0) kcp_queue

abbrev pub answer : NegotiateResponse
answer = record {
  protocols =
      record { name = "tcp"; address = "h:1" } ∷ record { name = "kcp"; address = "h:2" } ∷ [];
  fingerprint = some "0f";
}

-- A codec that knows one text, `{}`, and one value.
abbrev pub one_text : Json → JsonCodec
one_text v = record { loads = λ line. ok v; dumps = λ w. 123 ∷ 125 ∷ [] }

pub one_text-CodecLaws : CodecLaws (one_text (response_json answer)) (response_json answer)
one_text-CodecLaws = record { loads_dumps = refl; one_line = (refl, (refl, tt)) }

-- What has come at a connection whose peer has then ended the stream.
abbrev ended_after : Bytes → TcpConn
ended_after todo = record (peer_sent todo) {
  reader = record { arrived = todo; at_eof = true; failure = none };
}

read_frame-Settled_example :
    Settled IsAtEnd
      (λ body. length body ≤ max_message_size)
      (read_frame_from_conn tcp (ended_after (0 ∷ 0 ∷ 0 ∷ 3 ∷ 1 ∷ 2 ∷ [])))
read_frame-Settled_example =
    read_frame-Settled tcp IsAtEnd tcp-IsPrompt (ended_after (0 ∷ 0 ∷ 0 ∷ 3 ∷ 1 ∷ 2 ∷ [])) refl
