-- ===== src/Accepting/Order.antt =====
-- The order in which the `accept` of the listeners of Accepting returns connections.
use uniconn.Prelude.{ℕ, zero, suc, ◌≡◌, refl, ap, none, List, [], ◌∷◌, ◌++◌, length}
use uniconn.Outcome.{Outcome, ok}
use uniconn.Accepting.{Listener, put, first_of, accept}
use uniconn.Accepting.Promise.{
  queue_listener, queue_listener-IsListener, wt_listener, wt_arrives, wt_listener-IsListener,
  kcp_listener, kcp_listener-IsListener,
}
use uniconn.WebTransport.Listener.{WtListener}
use uniconn.Kcp.Listener.{KcpListener, AddressTuple, register}
use uniconn.Conn.Listening.Order.{Event, accepts, connected, run, listener-in_order}

-- Over any sequence of connections, calls of `accept` and calls of `close`, at the listener of TCP,
-- WebSocket and QUIC, whatever the wait of its `close` comes to, at that of WebTransport, and at that
-- of KCP, whose `connection_of` is the object for an address: what the calls of `accept` returned,
-- followed by what is still in the queue, is what was in the queue before, followed by the
-- connections in the order in which they came. So none is lost, doubled or overtaken, also when the
-- listener is closed.
pub accept-in_order {ℓ} :
    {C W : Type ℓ} (server_wait : Outcome (Unit {0})) (events : List (Event C)) (l : Listener C)
    (wt : WtListener C) (kcp_events : List (Event AddressTuple)) (connection_of : AddressTuple → W)
    (k : KcpListener W)
    → ((run (queue_listener server_wait) (λ t. t.conn_queue) put events l).0
          ++ (run (queue_listener server_wait) (λ t. t.conn_queue) put events l).1.conn_queue
        ≡ l.conn_queue ++ connected events)
      × ((run wt_listener (λ t. t.queue.conn_queue) wt_arrives events wt).0
            ++ (run wt_listener (λ t. t.queue.conn_queue) wt_arrives events wt).1.queue.conn_queue
          ≡ wt.queue.conn_queue ++ connected events)
      × (let r =
            run kcp_listener
              (λ t. t.conn_queue)
              (λ a. register none a (connection_of a))
              kcp_events
              k in
          r.0 ++ r.1.conn_queue ≡ k.conn_queue ++ connected kcp_events)
accept-in_order server_wait events l wt kcp_events connection_of k = (
  listener-in_order (queue_listener server_wait) _ _ (queue_listener-IsListener server_wait) events
      l,
  listener-in_order wt_listener _ _ wt_listener-IsListener events wt,
  listener-in_order kcp_listener _ _ (kcp_listener-IsListener connection_of) kcp_events k,
)

module _ {ℓ} {C : Type ℓ} where
  abbrev pub repeated : ℕ → List (Event C)
  repeated zero = []
  repeated (suc n) = accepts ∷ repeated n

  with_queue : Listener C → List C → Listener C
  with_queue l cs = record l { conn_queue = cs }

  accept-returns_from :
      (cs : List C) (l : Listener C)
      → run
          (queue_listener (ok tt))
          (λ t. t.conn_queue)
          put
          (repeated (length cs))
          (with_queue l cs)
        ≡ (cs, with_queue l [])
  unfolding run accept first_of with_queue
  accept-returns_from [] l = refl
  accept-returns_from (c ∷ cs) l = ap (λ t. (c ∷ t.0, t.1)) (accept-returns_from cs l)

  -- As many calls of `accept` as there are connections in the queue return all of them, in order, and
  -- leave the queue empty: none of these calls waits.
  pub accept-returns :
      (l : Listener C)
      → run (queue_listener (ok tt)) (λ t. t.conn_queue) put (repeated (length l.conn_queue)) l
        ≡ (l.conn_queue, record l { conn_queue = [] })
  unfolding with_queue
  accept-returns l = accept-returns_from l.conn_queue l
