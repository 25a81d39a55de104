-- ===== src/Tests/Datagrams.antt =====
-- Two datagrams of one address at a KCP listener.
use uniconn.Prelude.{ℕ, ◌≡◌, some, [], ◌∷◌}
use uniconn.Kcp.{on_data}
use uniconn.Kcp.Listener.{AddressTuple, KcpListener, connection_at, new_conn, handle_data}
use uniconn.Kcp.Listener.Routing.{handle_data-routes}
use uniconn.Prelude.{false}

abbrev sender : AddressTuple
sender = ("host", "7")

abbrev opened : KcpListener ℕ
opened = record { host = "any"; port = "1"; conn_queue = []; connections = []; closed = false }

handle_data-routes_example :
    (connection_at (handle_data sender 0 (5 ∷ []) opened).connections sender
      ≡ some (on_data (5 ∷ []) (new_conn opened sender 0)))
    × ((handle_data sender 0 (5 ∷ []) opened).conn_queue ≡ sender ∷ [])
unfolding connection_at
handle_data-routes_example = handle_data-routes opened sender 0 (5 ∷ [])
