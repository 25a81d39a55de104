-- ===== src/Tcp/Listener/Dialing.antt =====
-- The address that a TCP listener shows, in the hands of the dialer.
use Prim.Native.String.{◌++◌ as str_append}
use uniconn.Prelude.{ℕ, ◌≡◌, refl, String, some}
use uniconn.Outcome.{Outcome, ok}
use uniconn.Action.{Action}
use uniconn.Asyncio.{StreamReader, StreamWriter, to_addr}
use uniconn.Conn.{Addr}
use uniconn.Address.RoundTrip.{NoColon, rsplit_colon-append}
use uniconn.Tcp.Listener.{new_conn, host_and_port, dial}

-- `TcpDialer.dial` of the address that a listener at `host` and `port` shows opens a connection to
-- that host and to the number of that port, and wraps its reader and writer; the host may have colons,
-- as an IPv6 address has, and the port has none.
pub dial-to_addr {ℓ} :
    {E : Type ℓ} (int : String → Outcome ℕ)
    (open_connection : String → ℕ → Action E (StreamReader × StreamWriter)) (host port : String)
    (n : ℕ) (addr : Addr) (reader : StreamReader) (writer : StreamWriter) (e e' : E)
    → to_addr "tcp" (some (host, port)) ≡ some addr
    → NoColon port
    → int port ≡ ok n
    → open_connection host n e ≡ (ok (reader, writer), e')
    → dial int open_connection addr.address e ≡ (ok (new_conn reader writer), e')
unfolding to_addr dial host_and_port
dial-to_addr int open_connection host port n addr reader writer e e' shows plain number opens =
    let address : str_append host (str_append ":" port) ≡ addr.address = cc shows in
    rw (← address, rsplit_colon-append host port plain, number, opens) refl
