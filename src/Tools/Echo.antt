-- ===== src/Tools/Echo.antt =====
-- The echo servers uniconn-tests/tools_py/echo_server.py and
-- uniconn-tests/tools_py/py_wt_echo_server.py, on a connection and on a listener of the library.
pub mod Served
use uniconn.Prelude.{
  ℕ, zero, suc, Bool, true, false, Option, none, some, List, [], ◌∷◌, ◌++◌, ◌==◌, take, replicate,
  if◌then◌else◌,
}
use uniconn.Outcome.{Outcome, ok, raised, pending, Exn, ◌>>=◌ as ◌>>>◌}
use uniconn.Action.{Action, continue, ◌>>=◌, ◌>>◌}
use uniconn.Struct.{Bytes}
use uniconn.Conn.{Conn}
use uniconn.Conn.Listening.{Listener}
use uniconn.Outcome.{is_cancelled}

module _ {ℓ} {S : Type ℓ} (conn : Conn S) where
  -- `while True`. Out of fuel, it is still running.
  unfoldable pub echo_loop : ℕ → Bytes → Action S (Unit {0})
  echo_loop zero buf s = (pending, s)
  echo_loop (suc rounds) buf s =
      let again : Bytes → Action S (Unit {0}) = echo_loop rounds in
      (conn.read buf >>= λ (n, buf') s'.
      if n == 0 then (ok tt, s') else (conn.write (take n buf') >>= λ _. again buf') s')
        s

  -- `except Exception: pass` and `finally: await conn.close()`. CancelledError goes on.
  unfoldable pub close_after : Outcome (Unit {0}) → Action S (Unit {0})
  close_after (ok _) s = conn.close s
  close_after (raised e) s =
      let (r, s') = conn.close s in (if is_cancelled e then (r >>> λ _. raised e) else r, s')
  close_after pending s = (pending, s)

  -- `echo_handler`, with a buffer of `size`
  unfoldable pub echo_handler : ℕ → ℕ → Action S (Unit {0})
  unfolding close_after
  echo_handler size rounds s =
      let (r, s') = echo_loop rounds (replicate size 0) s in close_after r s'

-- The buffers of the two programs
abbrev pub buffer_size : ℕ
buffer_size = 262144

abbrev pub wt_buffer_size : ℕ
wt_buffer_size = 65536

-- The accept loop of `main`, with the connections for which it has started a handler.
unfoldable pub accept_loop {ℓ} :
    {S : Type ℓ} {C : Type 0} → Listener S C → ℕ → Action (List C × S) (Unit {0})
accept_loop l zero x = (pending, x)
accept_loop l (suc rounds) (served, s) =
    let (r, s') = l.accept s in
    continue r (λ conn (others, s''). accept_loop l rounds (others ++ (conn ∷ []), s''))
      (served, s')
