-- ===== src/Tests/Adapters.antt =====
-- The adapters over KCP and WebTransport, at concrete inputs.
use uniconn.Prelude.{ℕ, ◌≡◌, refl, true, false, none, some, [], ◌∷◌, ◌++◌}
use uniconn.Outcome.{ok}
use uniconn.Struct.{Bytes}
use uniconn.Conn.Stream.{IsDuplex}
use uniconn.Kcp.{KcpLink, KcpConn, on_data, hand_over, kcp}
use uniconn.Kcp
use uniconn.Kcp.Duplex.{IsLink, kcp-IsDuplex, on_data-Live}
use uniconn.WebTransport.{Protocol, WebTransportConn, feed_data, send, webtransport}
use uniconn.WebTransport
use uniconn.WebTransport.Duplex.{IsProtocol, webtransport-IsDuplex, feed_data-Live}

-- A link that keeps what it is given.
abbrev log : KcpLink Bytes
log = record { send_fn = none; enqueue = λ m w. (ok tt, w ++ m) }

abbrev Logged : Bytes → Bytes → Type 0
Logged w out = w ≡ out

log-IsLink : IsLink log Logged
unfolding hand_over
log-IsLink = record { takes = λ w out m h. (out ++ m, rw h, refl) }

kcp-IsDuplex_example : IsDuplex (kcp log) (Kcp.Duplex.Live log Logged)
kcp-IsDuplex_example = kcp-IsDuplex log Logged log-IsLink

abbrev idle : KcpConn Bytes
idle = record {
  link = 5 ∷ [];
  recv_queue = [];
  recv_buf = [];
  closed = false;
  local = none;
  remote = some "host:7";
}

idle-Live : Kcp.Duplex.Live log Logged idle (5 ∷ []) []
idle-Live = record { is_open = refl; sent = refl; nonempty = tt; todo_is = refl }

-- A protocol object that keeps what was sent on any stream.
abbrev recorder : Protocol Bytes
recorder = record {
  send_stream_data = λ id m end_stream w. (ok tt, w ++ m);
  transmit = λ w. (ok tt, w);
}

abbrev Recorded : Bytes → ℕ → Bytes → Type 0
Recorded w id out = w ≡ out

recorder-IsProtocol : IsProtocol recorder Recorded
unfolding send
recorder-IsProtocol = record { sends = λ w id out m h. (out ++ m, rw h, refl) }

webtransport-IsDuplex_example :
    IsDuplex (webtransport recorder) (WebTransport.Duplex.Live recorder Recorded)
webtransport-IsDuplex_example = webtransport-IsDuplex recorder Recorded recorder-IsProtocol

abbrev session : WebTransportConn Bytes
session = record {
  protocol = [];
  stream_id = 4;
  session_id = 0;
  remote = none;
  closed = false;
  buf = 1 ∷ [];
  data_event = true;
  eof = false;
}
