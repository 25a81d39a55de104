-- ===== src/Tests/Streams.antt =====
-- The streams of a WebTransport server at concrete inputs.
use uniconn.Prelude.{ℕ, ◌≡◌, ◌++◌, refl, true, false, none, List, [], ◌∷◌, drop}
use uniconn.Outcome.{ok}
use uniconn.Struct.{Bytes}
use uniconn.WebTransport.H3.{H3, stream_data}
use uniconn.WebTransport.Server.{WtServer, conn_of}
use uniconn.WebTransport.Server.Routing.{buffered}
use uniconn.WebTransport.Server.Arrivals.{Arrival, receive_all, is_known, carried, events-in_order}

-- A server on which nothing has arrived.
abbrev fresh : WtServer {0} Unit
fresh = record {
  connection = tt;
  h3_ready = true;
  wt_conns = [];
  session_ids = [];
  conn_queue = [];
  peer = none;
}

-- The header of a stream has two bytes.
abbrev payload : ℕ → Bytes → Bytes
payload i m = drop 2 m

abbrev two_byte_header : H3 {0} Unit
two_byte_header = record {
  handle_event = λ i m e w. (ok (stream_data i 0 (payload i m) e ∷ []), w);
  send_headers = λ i headers w. (ok tt, w);
  transmit = λ w. (ok tt, w);
  next_stream_id = λ w. (ok 0, w);
  create_stream = λ i w. (ok 0, w);
}

abbrev two_streams : List Arrival
two_streams = (4, 84 ∷ 0 ∷ 1 ∷ 2 ∷ [], false) ∷ (8, 84 ∷ 0 ∷ 9 ∷ [], false) ∷ (4, 3 ∷ [], true) ∷ []

events-in_order_example :
    buffered (conn_of (receive_all two_byte_header two_streams fresh).wt_conns 4)
    ≡ buffered (conn_of fresh.wt_conns 4)
      ++ carried payload (λ k. is_known (conn_of fresh.wt_conns k)) 4 two_streams
events-in_order_example =
    events-in_order two_byte_header (λ i m. 0) payload two_streams fresh 4 refl
      ((λ new w. (w, refl)), ((λ new w. (w, refl)), ((λ new w. (w, refl)), tt)))

what_was_carried :
    carried payload (λ k. is_known (conn_of fresh.wt_conns k)) 4 two_streams ≡ 1 ∷ 2 ∷ 3 ∷ []
unfolding conn_of
what_was_carried = refl
