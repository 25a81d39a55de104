-- ===== src/WebTransport/Server/Routing.antt =====
-- Which connection the data of a stream reaches at `_WTServerProtocol` of webtransport/listener.py.
use uniconn.Prelude.{
  ℕ, ◌≡◌, refl, sym, ap, Bool, true, Option, none, some, List, [], ◌∷◌, ◌++◌, append-nil, ◌==◌,
  arith, if◌then◌else◌, Bool-cases, Option-cases, inl, inr, ==_iff,
}
use uniconn.Struct.{Bytes}
use uniconn.WebTransport.{feed_data}
use uniconn.WebTransport.H3.{stream_received, stream_data, H3}
use uniconn.WebTransport.Server.{
  StreamConn, WtServer, conn_of, feed_stream, new_stream, register_stream, stream_data_received,
  h3_event_received, stream_event, quic_event_received,
}

abbrev pub map_conn : (StreamConn → StreamConn) → Option StreamConn → Option StreamConn
map_conn f none = none
map_conn f (some c) = some (f c)

conn_of-feed :
    (i j : ℕ) (m : Bytes) (e : Bool) (conns : List (ℕ × StreamConn))
    → conn_of (feed_stream i m e conns) j
      ≡ (if i == j then map_conn (feed_data m e) (conn_of conns j) else conn_of conns j)
unfolding conn_of feed_stream
conn_of-feed i j m e [] = ground arith
conn_of-feed i j m e ((k, c) ∷ conns) = ground (arith, conn_of-feed i j m e conns)

abbrev pub found_or : StreamConn → Option StreamConn → StreamConn
found_or c none = c
found_or c (some d) = d

module _ {ℓ} {W : Type ℓ} (s : WtServer W) (i sid : ℕ) (m : Bytes) (e : Bool) where
  pub stream_data-routes :
      (j : ℕ)
      → conn_of (stream_data_received i sid m e s).wt_conns j ≡ (
          if i == j
          then some (feed_data m e (found_or (new_stream i sid s.peer) (conn_of s.wt_conns i)))
          else conn_of s.wt_conns j)
  unfolding stream_data_received register_stream
  stream_data-routes j = elim (Option-cases (conn_of s.wt_conns i)) [
    | inl h ↦ rw h (
        rw (conn_of-feed i j m e ((i, new_stream i sid s.peer) ∷ s.wt_conns))
          (unfold conn_of in ground arith))
    | inr (c, h) ↦ rw h (rw (conn_of-feed i j m e s.wt_conns) (ground arith))
  ]

  stream_data-queue :
      (stream_data_received i sid m e s).conn_queue
      ≡ elim (conn_of s.wt_conns i) [ none ↦ s.conn_queue ++ (i ∷ []) | some c ↦ s.conn_queue ]
  unfolding stream_data_received register_stream
  stream_data-queue = elim (Option-cases (conn_of s.wt_conns i)) [
    | inl h ↦ rw h refl
    | inr (c, h) ↦ rw h refl
  ]

-- WebTransport data of a stream reach its connection, a new one if it has none, and no other; and the
-- listener's queue gets the stream exactly if its connection is new.
pub stream_data_received-routes {ℓ} :
    {W : Type ℓ} (s : WtServer W) (i sid j : ℕ) (m : Bytes) (e : Bool)
    → (conn_of (stream_data_received i sid m e s).wt_conns j ≡ (
        if i == j
        then some (feed_data m e (found_or (new_stream i sid s.peer) (conn_of s.wt_conns i)))
        else conn_of s.wt_conns j))
      × ((stream_data_received i sid m e s).conn_queue
          ≡ elim (conn_of s.wt_conns i) [ none ↦ s.conn_queue ++ (i ∷ []) | some c ↦ s.conn_queue ])
stream_data_received-routes s i sid j m e =
    (stream_data-routes s i sid m e j, stream_data-queue s i sid m e)

-- What is to be read at a stream's connection.
abbrev pub buffered : Option StreamConn → Bytes
buffered none = []
buffered (some c) = c.buf

found-buffered :
    (m : Bytes) (e : Bool) (fresh : StreamConn) (found : Option StreamConn)
    → fresh.buf ≡ []
    → (feed_data m e (found_or fresh found)).buf ≡ buffered found ++ m
unfolding feed_data
found-buffered m e fresh none empty = ap (λ t. t ++ m) empty
found-buffered m e fresh (some c) empty = refl

pub stream_data-buffered {ℓ} :
    {W : Type ℓ} (s : WtServer W) (i sid : ℕ) (m : Bytes) (e : Bool) (j : ℕ)
    → buffered (conn_of (stream_data_received i sid m e s).wt_conns j)
      ≡ buffered (conn_of s.wt_conns j) ++ (if i == j then m else [])
unfolding feed_data new_stream
stream_data-buffered s i sid m e j = elim (Bool-cases (i == j)) [
  | inr other ↦ rw (stream_data-routes s i sid m e j, other) (sym (append-nil _))
  | inl same ↦
      let eq : i ≡ j = (==_iff i j).0 same in
      rw (stream_data-routes s i sid m e j, same, ← eq)
        (found-buffered m e _ (conn_of s.wt_conns i) refl)
]

-- Once a stream has a connection, its data take the same effect whether they come as data of the QUIC
-- stream, past HTTP/3, or as WebTransport data through it.
pub known_stream-same_event {ℓ} :
    {W : Type ℓ} (h3 : H3 W) (s : WtServer W) (c : StreamConn) (i sid : ℕ) (m : Bytes) (e : Bool)
    → s.h3_ready ≡ true
    → conn_of s.wt_conns i ≡ some c
    → quic_event_received h3 (stream_received i m e) s
      ≡ h3_event_received h3 (stream_data i sid m e) s
unfolding quic_event_received h3_event_received stream_event stream_data_received register_stream
known_stream-same_event h3 s c i sid m e is_ready known = rw (is_ready, known) refl
