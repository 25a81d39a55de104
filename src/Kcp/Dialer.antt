-- ===== src/Kcp/Dialer.antt =====
-- `KcpDialer` of uniconn-py/uniconn/kcp/__init__.py, and the `bind` of its listener, over the kcp
-- package.
use Prim.Native.String.{◌++◌ as str_append}
use uniconn.Prelude.{ℕ, String, Bool, true, false, none, some, []}
use uniconn.Outcome.{Outcome}
use uniconn.Action.{Action, continue, ◌>>=◌}
use uniconn.Conn.{Addr}
use uniconn.Kcp.{KcpConn}
use uniconn.Kcp.Listener.{KcpListener}
use uniconn.Tcp.Listener.{host_and_port}

-- The arguments of `KCPClientSync`.
pub record KcpClientOptions : Type 0 where
  pub host : String
  pub port : ℕ
  pub conv_id : ℕ
  pub no_delay : Bool
  pub update_interval : ℕ
  pub resend_count : ℕ
  pub no_congestion_control : Bool
  pub receive_window_size : ℕ
  pub send_window_size : ℕ

unfoldable pub client_options : ℕ → String → ℕ → KcpClientOptions
client_options conv_id host port = record {
  host = host;
  port = port;
  conv_id = conv_id;
  no_delay = true;
  update_interval = 10;
  resend_count = 2;
  no_congestion_control = true;
  receive_window_size = 128;
  send_window_size = 128;
}

-- `kcp_conn`, over the client
unfoldable pub client_conn {ℓ} : {W : Type ℓ} → String → W → KcpConn W
client_conn address client = record {
  link = client;
  recv_queue = [];
  recv_buf = [];
  closed = false;
  local = none;
  remote = some address;
}

-- `dial`; `new_client` makes the client, and `start` starts its thread and sleeps for 0.05 seconds,
-- in which messages may come in.
unfoldable pub dial {ℓ} :
    {E : Type ℓ} {W : Type 0}
    → (String → Outcome ℕ)
    → (KcpClientOptions → Action E W)
    → (KcpConn W → Action E (KcpConn W))
    → ℕ
    → String
    → Action E (KcpConn W)
unfolding client_options client_conn
dial int new_client start conv_id address e =
    continue (host_and_port int address)
      (λ (host, port). new_client (client_options conv_id host port) >>= λ client.
        start (client_conn address client))
      e

-- `bind`; `start` makes the server, starts its task and sleeps for 0.15 seconds, in which messages may
-- come in.
unfoldable pub bind {ℓ} :
    {E : Type ℓ} {W : Type 0}
    → (String → String → ℕ → KcpListener W → Action E (KcpListener W))
    → String
    → String
    → ℕ
    → Action E (KcpListener W)
bind start host port conv_id =
    start host port conv_id
      (record { host = host; port = port; conn_queue = []; connections = []; closed = false })

-- `addr`: what `bind` was given, also where the port was 0.
unfoldable pub addr {ℓ} : {W : Type ℓ} → KcpListener W → Addr
addr l = record { network = "kcp"; address = str_append l.host (str_append ":" l.port) }
