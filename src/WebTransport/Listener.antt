-- ===== src/WebTransport/Listener.antt =====
-- `WebTransportListener` of uniconn-py/uniconn/webtransport/listener.py. What its queue holds is
-- `C`; the protocol objects of its QUIC connections, which fill it, are those of
-- WebTransport/Server.
use uniconn.Prelude.{String, Bool, true, false, Option, none, some, [], ◌∷◌, if◌then◌else◌}
use uniconn.Outcome.{Outcome, ok}
use uniconn.Action.{Action, continue, ◌>>=◌}
use uniconn.Asyncio.{to_addr}
use uniconn.Conn.{Addr}
use uniconn.Accepting
use uniconn.Accepting.{Listener, new_listener, bound_to}
use uniconn.Quic.Setup.{QuicConfiguration}

-- `has_server` is whether `_server` is not `None`.
pub record WtListener {ℓ} (C : Type ℓ) : Type ℓ where
  pub queue : Listener C
  pub has_server : Bool

-- `config` of `bind`
unfoldable pub server_config : QuicConfiguration
server_config = record {
  is_client = false;
  alpn_protocols = "h3" ∷ [];
  max_datagram_frame_size = some 65536;
  server_name = none;
  verify_mode = none;
}

abbrev pub unknown_addr : Addr
unknown_addr = record { network = "webtransport"; address = "unknown" }

-- The address at the end of `bind`: `get_extra_info` returned the socket's name, if any, or raised an
-- exception.
abbrev pub resolved :
    String → String → Outcome (Option (String × String)) → Option Addr → Option Addr
resolved host port (ok none) addr = addr
resolved host port (ok (some bound)) addr = to_addr "webtransport" (some bound)
resolved host port _ addr = to_addr "webtransport" (some (host, port))

module _ {ℓ} {C : Type ℓ} where
  -- `WebTransportListener()`
  unfoldable pub new : WtListener C
  unfolding bound_to new_listener
  new = record { queue = bound_to (some unknown_addr) new_listener; has_server = false }

  unfoldable pub bind_ends :
      String → String → Outcome (Option (String × String)) → WtListener C → WtListener C
  unfolding bound_to
  bind_ends host port sockname l = record {
    queue = bound_to (resolved host port sockname l.queue.addr) l.queue;
    has_server = true;
  }

  -- `accept`
  unfoldable pub accept : Action (WtListener C) C
  accept l = let (r, q) = Accepting.accept l.queue in (r, record l { queue = q })

  -- `close`
  unfoldable pub close : Action (WtListener C) (Unit {0})
  close l =
      let (r, q) = Accepting.close (ok tt) l.queue in
      (ok tt, record l { queue = if l.has_server then q else record l.queue { closed = true } })

-- `bind`: `load_cert_chain` takes the two paths, and `serve` returns what `get_extra_info` then says
-- of the socket; while it is awaited, sessions may come in.
unfoldable pub bind {ℓ} :
    {E : Type ℓ} {C : Type 0}
    → (String → String → Action E (Unit {0}))
    → (QuicConfiguration
        → String
        → String
        → Action (WtListener C × E) (Outcome (Option (String × String))))
    → String
    → String
    → String
    → String
    → Action E (WtListener C)
unfolding bind_ends server_config new
bind load_cert_chain serve host port certificate_chain private_key =
    load_cert_chain certificate_chain private_key >>= λ _ e.
    let (r, (l, e')) = serve server_config host port (new, e) in
    continue r (λ sockname e''. (ok (bind_ends host port sockname l), e'')) e'
