-- ===== src/WebTransport/Server/Arrivals.antt =====
-- The data of the streams of one QUIC connection at `_WTServerProtocol` of webtransport/listener.py:
-- the first of a stream come through HTTP/3, and the rest past it.
use uniconn.Prelude.{
  ℕ, ◌≡◌, refl, sym, ap, ◌∙◌, Bool, true, false, Option, none, some, List, [], ◌∷◌, ◌++◌,
  append_assoc, append-nil, ◌==◌, if◌then◌else◌, Bool-cases, Option-cases, inl, inr,
}
use uniconn.Outcome.{ok}
use uniconn.Struct.{Bytes}
use uniconn.WebTransport.H3.{stream_received, stream_data, H3}
use uniconn.WebTransport.Server.{
  StreamConn, WtServer, conn_of, register_stream, stream_data_received, on_connection,
  h3_event_received, h3_events_received, stream_event, quic_event_received,
}
use uniconn.WebTransport.Server.Routing.{
  stream_data-routes, buffered, stream_data-buffered, known_stream-same_event,
}

-- Data of a QUIC stream: the stream, the bytes, and whether the stream ends.
abbrev pub Arrival : Type 0
Arrival = ℕ × Bytes × Bool

abbrev pub is_known : Option StreamConn → Bool
is_known none = false
is_known (some c) = true

-- The streams that are known once data of stream `i` have come.
abbrev pub and_known : ℕ → (ℕ → Bool) → ℕ → Bool
and_known i known k = if i == k then true else known k

module _ {ℓ} {W : Type ℓ} (h3 : H3 W) where
  pub receive_all : List Arrival → WtServer W → WtServer W
  receive_all [] s = s
  receive_all ((i, m, e) ∷ arrivals) s =
      receive_all arrivals (quic_event_received h3 (stream_received i m e) s).1

  module _ (session_of : ℕ → Bytes → ℕ) (payload : ℕ → Bytes → Bytes) where
    -- The HTTP/3 connection makes of the first data of each stream one event of a WebTransport stream,
    -- with a session and the bytes behind the header of the stream.
    abbrev pub Opens : (ℕ → Bool) → List Arrival → Type ℓ
    Opens known [] = Unit
    Opens known ((i, m, e) ∷ arrivals) =
        (known i ≡ false
          → (w : W)
          → (w' : W) × (h3.handle_event i m e w
              ≡ (ok (stream_data i (session_of i m) (payload i m) e ∷ []), w')))
        × Opens (and_known i known) arrivals

-- The bytes that a stream carries: of its first data those behind the header, and all of the rest.
abbrev pub carried : (ℕ → Bytes → Bytes) → (ℕ → Bool) → ℕ → List Arrival → Bytes
carried payload known j [] = []
carried payload known j ((i, m, e) ∷ arrivals) =
    (if i == j then (if known i then m else payload i m) else [])
    ++ carried payload (and_known i known) j arrivals

stream_data-ready {ℓ} :
    {W : Type ℓ} (s : WtServer W) (i sid : ℕ) (m : Bytes) (e : Bool)
    → (stream_data_received i sid m e s).h3_ready ≡ s.h3_ready
unfolding stream_data_received register_stream
stream_data-ready s i sid m e = elim (Option-cases (conn_of s.wt_conns i)) [
  | inl h ↦ rw h refl
  | inr (c, h) ↦ rw h refl
]

stream_data-known {ℓ} :
    {W : Type ℓ} (s : WtServer W) (i sid : ℕ) (m : Bytes) (e : Bool) (k : ℕ)
    → is_known (conn_of (stream_data_received i sid m e s).wt_conns k)
      ≡ and_known i (λ t. is_known (conn_of s.wt_conns t)) k
stream_data-known s i sid m e k = elim (Bool-cases (i == k)) [
  | inl h ↦ rw (stream_data-routes s i sid m e k, h) refl
  | inr h ↦ rw (stream_data-routes s i sid m e k, h) refl
]

-- The first data of a stream, whose connection they make.
first_data {ℓ} :
    {W : Type ℓ} (h3 : H3 W) (s : WtServer W) (i sid : ℕ) (m m' : Bytes) (e : Bool) (w' : W)
    → s.h3_ready ≡ true
    → conn_of s.wt_conns i ≡ none
    → h3.handle_event i m e s.connection ≡ (ok (stream_data i sid m' e ∷ []), w')
    → quic_event_received h3 (stream_received i m e) s
      ≡ (ok tt, stream_data_received i sid m' e (record s { connection = w' }))
unfolding quic_event_received stream_event on_connection h3_events_received h3_event_received
first_data h3 s i sid m m' e w' is_ready new handled = rw (is_ready, new, handled) refl

-- Later data.
later_data {ℓ} :
    {W : Type ℓ} (h3 : H3 W) (s : WtServer W) (c : StreamConn) (i : ℕ) (m : Bytes) (e : Bool)
    → s.h3_ready ≡ true
    → conn_of s.wt_conns i ≡ some c
    → quic_event_received h3 (stream_received i m e) s ≡ (ok tt, stream_data_received i 0 m e s)
unfolding h3_event_received
later_data h3 s c i m e is_ready known = known_stream-same_event h3 s c i 0 m e is_ready known

-- The server `s'` behind data `m` of the stream `i`, which `s` passed on as `m'`.
record Received {ℓ} {W : Type ℓ} (s s' : WtServer W) (i : ℕ) (m' : Bytes) : Type 0 where
  in_buffer :
      (j : ℕ)
      → buffered (conn_of s'.wt_conns j)
        ≡ buffered (conn_of s.wt_conns j) ++ (if i == j then m' else [])
  stays_ready : s'.h3_ready ≡ s.h3_ready
  knows :
      (k : ℕ)
      → is_known (conn_of s'.wt_conns k) ≡ and_known i (λ t. is_known (conn_of s.wt_conns t)) k

stream_data-Received {ℓ} :
    {W : Type ℓ} (s : WtServer W) (w : W) (i sid : ℕ) (m' : Bytes) (e : Bool)
    → Received s (stream_data_received i sid m' e (record s { connection = w })) i m'
stream_data-Received s w i sid m' e = record {
  in_buffer = λ j. stream_data-buffered (record s { connection = w }) i sid m' e j;
  stays_ready = stream_data-ready (record s { connection = w }) i sid m' e;
  knows = λ k. stream_data-known (record s { connection = w }) i sid m' e k;
}

module _ {ℓ} {W : Type ℓ} (h3 : H3 W) (session_of : ℕ → Bytes → ℕ)
    (payload : ℕ → Bytes → Bytes) where
  one-Received :
      (s : WtServer W) (i : ℕ) (m : Bytes) (e : Bool)
      → s.h3_ready ≡ true
      → (is_known (conn_of s.wt_conns i) ≡ false
          → (w : W)
          → (w' : W) × (h3.handle_event i m e w
              ≡ (ok (stream_data i (session_of i m) (payload i m) e ∷ []), w')))
      → Received s
          (quic_event_received h3 (stream_received i m e) s).1
          i
          (if is_known (conn_of s.wt_conns i) then m else payload i m)
  one-Received s i m e is_ready opens = elim (Option-cases (conn_of s.wt_conns i)) [
    | inl h ↦
        let (w', handled) = opens (ap is_known h) s.connection in
        rw (first_data h3 s i _ m _ e w' is_ready h handled, ap is_known h)
          (stream_data-Received s w' i (session_of i m) (payload i m) e)
    | inr (c, h) ↦
        rw (later_data h3 s c i m e is_ready h, ap is_known h)
          (stream_data-Received s s.connection i 0 m e)
  ]

  all-in_order :
      (arrivals : List Arrival) (known : ℕ → Bool) (s : WtServer W) (j : ℕ)
      → ((k : ℕ) → is_known (conn_of s.wt_conns k) ≡ known k)
      → s.h3_ready ≡ true
      → Opens h3 session_of payload known arrivals
      → buffered (conn_of (receive_all h3 arrivals s).wt_conns j)
        ≡ buffered (conn_of s.wt_conns j) ++ carried payload known j arrivals
  unfolding receive_all
  all-in_order [] known s j same is_ready opens = sym (append-nil _)
  all-in_order ((i, m, e) ∷ arrivals) known s j same is_ready opens =
      let s' = (quic_event_received h3 (stream_received i m e) s).1 in
      let got = one-Received s i m e is_ready (λ new. opens.0 (sym (same i) ∙ new)) in
      all-in_order arrivals (and_known i known) s' j
        (λ k. got.knows k ∙ ap (λ b. if i == k then true else b) (same k))
        (got.stays_ready ∙ is_ready) opens.1
      ∙ (ap (λ t. t ++ carried payload (and_known i known) j arrivals)
            (got.in_buffer j
              ∙ ap
                  (λ (b : Bool).
                    buffered (conn_of s.wt_conns j)
                    ++ (if i == j then (if b then m else payload i m) else []))
                  (same i))
          ∙ append_assoc (buffered (conn_of s.wt_conns j)) _ _)

  -- Data of any QUIC streams, in any order, that come to a server whose handshake is over and whose
  -- HTTP/3 connection makes of the first data of each stream one event with its session and the bytes
  -- behind the header: at the connection of each stream are, behind what was there, the bytes behind
  -- the header of its first data, if these made the connection, and all later data of the stream, in
  -- the order in which they came; none of another stream.
  pub events-in_order :
      (arrivals : List Arrival) (s : WtServer W) (j : ℕ)
      → s.h3_ready ≡ true
      → Opens h3 session_of payload (λ k. is_known (conn_of s.wt_conns k)) arrivals
      → buffered (conn_of (receive_all h3 arrivals s).wt_conns j)
        ≡ buffered (conn_of s.wt_conns j)
          ++ carried payload (λ k. is_known (conn_of s.wt_conns k)) j arrivals
  events-in_order arrivals s j is_ready opens =
      all-in_order arrivals _ s j (λ k. refl) is_ready opens
