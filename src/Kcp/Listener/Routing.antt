-- ===== src/Kcp/Listener/Routing.antt =====
-- Which connection a datagram reaches.
use package.text.Mathlib.TextPositions.{eq_refl}
use uniconn.Prelude.{
  ◌≡◌, refl, true, Option, none, some, [], ◌∷◌, ◌++◌, arith, Bool-cases, Option-cases, inl, inr,
}
use uniconn.Struct.{Bytes}
use uniconn.Kcp.{KcpConn, on_data}
use uniconn.Kcp.Listener.{
  AddressTuple, same_address, Connections, KcpListener, connection_at, new_conn, register, feed,
  handle_data,
}

same_refl : (a : AddressTuple) → same_address a a ≡ true
same_refl a = rw (eq_refl a.0, eq_refl a.1) refl

module _ {ℓ} {W : Type ℓ} where
  feed-here :
      (a : AddressTuple) (m : Bytes) (cs : Connections W) (c : KcpConn W)
      → connection_at cs a ≡ some c
      → connection_at (feed a m cs) a ≡ some (on_data m c)
  unfolding connection_at feed
  feed-here a m [] c h = cc
  feed-here a m ((b, d) ∷ cs) c h =
      let rest = feed-here a m cs c in
      elim (Bool-cases (same_address b a)) [ inl e ↦ ground arith | inr e ↦ ground arith ]

  -- The connection that a datagram goes to, by what its address has.
  abbrev pub found_or : KcpConn W → Option (KcpConn W) → KcpConn W
  found_or c none = c
  found_or c (some d) = d

  -- A datagram reaches the connection of its address, a new one if the address has none, and appends
  -- to its queue as `_on_data` does; a new connection, and no other, is queued for `accept`, once.
  pub handle_data-routes :
      (l : KcpListener W) (a : AddressTuple) (connection : W) (m : Bytes)
      → (connection_at (handle_data a connection m l).connections a
          ≡ some (on_data m (found_or (new_conn l a connection) (connection_at l.connections a))))
        × ((handle_data a connection m l).conn_queue ≡ elim (connection_at l.connections a) [
          | none ↦ l.conn_queue ++ (a ∷ [])
          | some c ↦ l.conn_queue
        ])
  unfolding handle_data register
  handle_data-routes l a connection m = elim (Option-cases (connection_at l.connections a)) [
    | inl h ↦
        let new : connection_at ((a, new_conn l a connection) ∷ l.connections) a
            ≡ some (new_conn l a connection) =
          unfold connection_at in rw (same_refl a) refl in
        rw h (feed-here a m _ _ new, refl)
    | inr (c, h) ↦ rw h (feed-here a m l.connections c h, refl)
  ]
