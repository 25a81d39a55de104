-- ===== src/Secure/Channel/Sides.antt =====
-- The two directions of a `SecureConn` of secure/conn.py: what a read leaves alone.
use uniconn.Prelude.{◌≡◌, refl, [], ◌∷◌, arith, Option, none, some}
use uniconn.Outcome.{Outcome, ok, raised, pending}
use uniconn.Struct.{Bytes}
use uniconn.Action.{continue}
use uniconn.Conn.{Conn}
use uniconn.Secure.Frame.{read_frame_from_conn}
use uniconn.Secure.Crypto.{Aead}
use uniconn.Secure.Channel.{SecureConn, run_inner, handle_data, dispatch, read_more, read}

-- What `d` sends under is what `c` sends under.
pub record SameSending {ℓ} {S : Type ℓ} (c d : SecureConn S) : Type 0 where
  pub same_key : d.send_key ≡ c.send_key
  pub same_pfx : d.send_pfx ≡ c.send_pfx
  pub same_counter : d.send_counter ≡ c.send_counter

module _ {ℓ} {S : Type ℓ} (conn : Conn S) (aead : Aead) where
  handle_data-SameSending :
      (body buf : Bytes) (c : SecureConn S) → SameSending c (handle_data conn aead body buf c).1
  unfolding handle_data
  handle_data-SameSending body buf c = ground arith

  dispatch-SameSending :
      (body buf : Bytes) (c : SecureConn S) → SameSending c (dispatch conn aead body buf c).1
  unfolding dispatch
  dispatch-SameSending [] buf c = ground arith
  dispatch-SameSending (b ∷ bs) buf c = ground (arith, handle_data-SameSending (b ∷ bs) buf c)

  read_next-SameSending :
      (buf : Bytes) (c : SecureConn S) (inner : Option S)
      → SameSending c
          (continue
            (run_inner (read_frame_from_conn conn) inner c).0
            (λ body. dispatch conn aead body buf)
            (run_inner (read_frame_from_conn conn) inner c).1).1
  read_next-SameSending buf c none = ground arith
  read_next-SameSending buf c (some s) =
      framed (read_frame_from_conn conn s).0
        (record c { inner_conn = some (read_frame_from_conn conn s).1 })
        (record { same_key = refl; same_pfx = refl; same_counter = refl })
    where
      framed :
          (r : Outcome Bytes) (d : SecureConn S)
          → SameSending c d
          → SameSending c (continue r (λ body. dispatch conn aead body buf) d).1
      framed (ok body) d h = ground (arith, dispatch-SameSending body buf d)
      framed (raised e) d h = h
      framed pending d h = h

  read_more-SameSending :
      (buf kept : Bytes) (c : SecureConn S) → SameSending c (read_more conn aead buf kept c).1
  unfolding read_more
  read_more-SameSending buf [] c = read_next-SameSending buf c c.inner_conn
  read_more-SameSending buf (b ∷ bs) c = ground arith

  -- A read leaves the key, the prefix and the counter of the other direction alone.
  pub read-SameSending : (buf : Bytes) (c : SecureConn S) → SameSending c (read conn aead buf c).1
  read-SameSending buf c = unfold read in ground (arith, read_more-SameSending buf c.recv_buf c)
