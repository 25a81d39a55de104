-- ===== src/Accepting/Promise.antt =====
-- The listeners under uniconn-py/uniconn keep to the interface of Conn/Listening.
use uniconn.Prelude.{◌≡◌, refl, List, [], ◌∷◌, ap, none, some, Bool-cases, inl, inr}
use uniconn.Outcome.{Outcome, ok}
use uniconn.Conn.Listening.{Listener, Takes, IsListener}
use uniconn.Accepting as Queue
use uniconn.Accepting.{put}
use uniconn.WebTransport.Listener as Wt
use uniconn.WebTransport.Listener.{WtListener}
use uniconn.Kcp.Listener as Kcp
use uniconn.Kcp.Listener.{KcpListener, AddressTuple}
use uniconn.Kcp.Dialer as KcpDialer

-- `TcpListener`, `WsListener` and `QuicListener`
abbrev pub queue_listener {ℓ} : {C : Type ℓ} → Outcome (Unit {0}) → Listener (Queue.Listener C) C
queue_listener server_wait = record {
  accept = Queue.accept;
  close = Queue.close server_wait;
  addr = λ s. s.addr;
}

queue_listener-Takes {ℓ} :
    {C : Type ℓ} (server_wait : Outcome (Unit {0})) (s : Queue.Listener C) (cs : List C)
    → s.conn_queue ≡ cs
    → Takes (queue_listener server_wait) (λ t. t.conn_queue) s cs
unfolding Queue.accept Queue.first_of
queue_listener-Takes server_wait s [] e = ap (λ q. Queue.first_of q s) e
queue_listener-Takes server_wait s (c ∷ others) e =
    (record s { conn_queue = others }, ap (λ q. Queue.first_of q s) e, refl)

queue_listener-closes {ℓ} :
    {C : Type ℓ} (server_wait : Outcome (Unit {0})) (s : Queue.Listener C)
    → (Queue.close server_wait s).1.conn_queue ≡ s.conn_queue
unfolding Queue.close
queue_listener-closes server_wait s = elim (Bool-cases s.closed) [
  | inl shut ↦ rw shut refl
  | inr open_yet ↦ rw open_yet refl
]

pub queue_listener-IsListener {ℓ} :
    {C : Type ℓ} (server_wait : Outcome (Unit {0}))
    → IsListener (queue_listener {C = C} server_wait) (λ t. t.conn_queue) put
unfolding put
queue_listener-IsListener server_wait = record {
  takes = λ s. queue_listener-Takes server_wait s s.conn_queue refl;
  closes = queue_listener-closes server_wait;
  queues = λ c s. refl;
}

abbrev pub wt_listener {ℓ} : {C : Type ℓ} → Listener (WtListener C) C
wt_listener = record { accept = Wt.accept; close = Wt.close; addr = λ s. s.queue.addr }

wt_listener-Takes {ℓ} :
    {C : Type ℓ} (s : WtListener C) (cs : List C)
    → s.queue.conn_queue ≡ cs
    → Takes wt_listener (λ t. t.queue.conn_queue) s cs
unfolding Wt.accept Queue.accept Queue.first_of
wt_listener-Takes s [] e =
    ap (λ q. let (r, q') = Queue.first_of q s.queue in (r, record s { queue = q' })) e
wt_listener-Takes s (c ∷ others) e = (
  record s { queue = record s.queue { conn_queue = others } },
  ap (λ q. let (r, q') = Queue.first_of q s.queue in (r, record s { queue = q' })) e,
  refl,
)

wt_listener-closes {ℓ} :
    {C : Type ℓ} (s : WtListener C) → (Wt.close s).1.queue.conn_queue ≡ s.queue.conn_queue
unfolding Wt.close
wt_listener-closes s = elim (Bool-cases s.has_server) [
  | inl has ↦ rw has (queue_listener-closes (ok tt) s.queue)
  | inr has ↦ rw has refl
]

-- What a protocol object puts in the queue.
abbrev pub wt_arrives {ℓ} : {C : Type ℓ} → C → WtListener C → WtListener C
wt_arrives c l = record l { queue = put c l.queue }

pub wt_listener-IsListener {ℓ} :
    {C : Type ℓ} → IsListener (wt_listener {C = C}) (λ t. t.queue.conn_queue) wt_arrives
unfolding put
wt_listener-IsListener = record {
  takes = λ s. wt_listener-Takes s s.queue.conn_queue refl;
  closes = wt_listener-closes;
  queues = λ c s. refl;
}

abbrev pub kcp_listener {ℓ} : {W : Type ℓ} → Listener (KcpListener W) AddressTuple
kcp_listener = record {
  accept = Kcp.accept;
  close = Kcp.close;
  addr = λ s. some (KcpDialer.addr s);
}

kcp_listener-Takes {ℓ} :
    {W : Type ℓ} (s : KcpListener W) (cs : List AddressTuple)
    → s.conn_queue ≡ cs
    → Takes kcp_listener (λ t. t.conn_queue) s cs
unfolding Kcp.accept Kcp.first_conn
kcp_listener-Takes s [] e = ap (λ q. Kcp.first_conn q s) e
kcp_listener-Takes s (c ∷ others) e =
    (record s { conn_queue = others }, ap (λ q. Kcp.first_conn q s) e, refl)

-- `connection_of` is the object of the kcp package for a new address.
pub kcp_listener-IsListener {ℓ} :
    {W : Type ℓ} (connection_of : AddressTuple → W)
    → IsListener
        (kcp_listener {W = W})
        (λ t. t.conn_queue)
        (λ a. Kcp.register none a (connection_of a))
unfolding Kcp.close Kcp.register
kcp_listener-IsListener connection_of = record {
  takes = λ s. kcp_listener-Takes s s.conn_queue refl;
  closes = λ s. refl;
  queues = λ a s. refl;
}
