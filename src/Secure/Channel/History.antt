-- ===== src/Secure/Channel/History.antt =====
-- Sequences of calls on one `SecureConn` of secure/conn.py.
use uniconn.Prelude.{
  ℕ, ◌+◌, ◌%◌, ◌≤◌, ◌<◌, ◌^◌, ◌≡◌, ◌≢◌, ap, subst, ◌∙◌, List, [], ◌∷◌, arith, length, Option, none,
  some, false,
}
use uniconn.Outcome.{Outcome, ok, raised, pending}
use uniconn.Struct.{Bytes}
use uniconn.Action.{Action, continue}
use uniconn.Conn.{Conn}
use uniconn.Secure.Frame.{read_frame_from_conn, write_frame_to_conn}
use uniconn.Secure.Crypto.{Aead}
use uniconn.Secure.Data.{make_nonce, seal_data}
use uniconn.Secure.Channel.Nonces.{nonce_counter}
use uniconn.Secure.Channel.Given.{SameAt, write-SameAt}
use uniconn.Secure.Channel.{
  SecureConn, run_inner, handle_data, dispatch, read_more, read, send, write, close,
}
use uniconn.Secure.Channel.Replay.{handle_data-accepts, handle_data-replayed, wrong_counter}

-- The calls that a user can make, with their arguments.
pub data Op : Type 0 where
  do_read do_write : Bytes → Op
  do_close : Op

module _ {ℓ} {S : Type ℓ} where
  -- `d` can come after `c`.
  pub record Later (c d : SecureConn S) : Type 0 where
    pub same_send_key : d.send_key ≡ c.send_key
    pub same_recv_key : d.recv_key ≡ c.recv_key
    pub same_send_pfx : d.send_pfx ≡ c.send_pfx
    pub same_recv_pfx : d.recv_pfx ≡ c.recv_pfx
    pub send_counter_grows : c.send_counter ≤ d.send_counter
    pub recv_counter_grows : c.recv_counter ≤ d.recv_counter

  Later-refl : (c : SecureConn S) → Later c c
  Later-refl c = ground arith

  Later-trans : (c d e : SecureConn S) → Later c d → Later d e → Later c e
  Later-trans c d e p q = ground arith

module _ {ℓ} {S : Type ℓ} (conn : Conn S) (aead : Aead) (now : ℕ → ℕ) where
  handle_data-Later :
      (body buf : Bytes) (c : SecureConn S) → Later c (handle_data conn aead body buf c).1
  unfolding handle_data
  handle_data-Later body buf c = ground arith

  dispatch-Later : (body buf : Bytes) (c : SecureConn S) → Later c (dispatch conn aead body buf c).1
  unfolding dispatch
  dispatch-Later [] buf c = ground arith
  dispatch-Later (b ∷ bs) buf c = ground (arith, handle_data-Later (b ∷ bs) buf c)

  continue-Later :
      {A B : Type 0} (r : Outcome A) (k : A → Action (SecureConn S) B) (c : SecureConn S)
      → ((a : A) → Later c (k a c).1)
      → Later c (continue r k c).1
  continue-Later (ok a) k c later = later a
  continue-Later (raised e) k c later = Later-refl c
  continue-Later pending k c later = Later-refl c

  -- A call of the connection below, and what is done with its result.
  on_inner-Later :
      {A B : Type 0} (m : Action S A) (k : A → Action (SecureConn S) B) (c : SecureConn S)
      (o : Option S)
      → ((a : A) (d : SecureConn S) → Later d (k a d).1)
      → Later c (continue (run_inner m o c).0 k (run_inner m o c).1).1
  on_inner-Later m k c none later = Later-refl c
  on_inner-Later m k c (some s) later =
      let c' : SecureConn S = record c { inner_conn = some (m s).1 } in
      Later-trans c c' _ (ground arith) (continue-Later (m s).0 k c' (λ a. later a c'))

  read_more-Later :
      (buf kept : Bytes) (c : SecureConn S) → Later c (read_more conn aead buf kept c).1
  unfolding read_more
  read_more-Later buf [] c =
      on_inner-Later (read_frame_from_conn conn) (λ body. dispatch conn aead body buf) c
        c.inner_conn (λ body d. dispatch-Later body buf d)
  read_more-Later buf (b ∷ bs) c = ground arith

  read-Later : (buf : Bytes) (c : SecureConn S) → Later c (read conn aead buf c).1
  read-Later buf c = unfold read in ground (arith, read_more-Later buf c.recv_buf c)

  -- `send` has moved the counter on before anything can fail.
  send-Later :
      (m : Bytes) (c : SecureConn S)
      → Later
          (record c { send_counter = c.send_counter + 1 })
          (send conn aead now c.send_counter m c).1
  unfolding send
  send-Later m c =
      let c' : SecureConn S = record c { send_counter = c.send_counter + 1 } in
      continue-Later
        (seal_data aead c.send_key c.send_pfx (now c.send_counter % 2 ^ 32) c.send_counter m) _ c'
        (λ body.
          on_inner-Later (write_frame_to_conn conn body) _ c' c.inner_conn (λ _ d. Later-refl d))

  write-Later : (m : Bytes) (c : SecureConn S) → Later c (write conn aead now m c).1
  write-Later m c = unfold write in ground (arith, send-Later m c)

  close-Later : (c : SecureConn S) → Later c (close conn aead c).1
  unfolding close
  close-Later c = ground arith

  -- One call; what it returns is dropped.
  unfoldable pub apply : Op → SecureConn S → SecureConn S
  apply (do_read buf) c = (read conn aead buf c).1
  apply (do_write m) c = (write conn aead now m c).1
  apply do_close c = (close conn aead c).1

  -- Several calls in turn, whether they fail or not.
  unfoldable pub run : List Op → SecureConn S → SecureConn S
  unfolding apply
  run [] c = c
  run (op ∷ ops) c = run ops (apply op c)

  apply-Later : (op : Op) (c : SecureConn S) → Later c (apply op c)
  unfolding apply
  apply-Later (do_read buf) c = read-Later buf c
  apply-Later (do_write m) c = write-Later m c
  apply-Later do_close c = close-Later c

  -- Whatever is called on a channel, and whether it fails or not, the keys and prefixes stay as they
  -- are, and neither counter goes back.
  pub run-Later : (ops : List Op) (c : SecureConn S) → Later c (run ops c)
  unfolding run
  run-Later [] c = Later-refl c
  run-Later (op ∷ ops) c =
      Later-trans c (apply op c) _ (apply-Later op c) (run-Later ops (apply op c))

  -- A DATA body that a channel accepted is refused if it comes again, whatever was called on the
  -- channel in between: with a ValueError, and the channel unchanged.
  pub handle_data-once :
      (body buf buf' : Bytes) (c c' : SecureConn S) (r : ℕ × Bytes) (ops : List Op)
      → handle_data conn aead body buf c ≡ (ok r, c')
      → handle_data conn aead body buf' (run ops c') ≡ (raised wrong_counter, run ops c')
  handle_data-once body buf buf' c c' r ops handled =
      let moved : c'.recv_counter ≡ c.recv_counter + 1 =
        ap (λ d. d.recv_counter) (handle_data-accepts conn aead body buf c c' handled).8 in
      let later = run-Later ops c' in
      handle_data-replayed conn aead body buf c c' handled buf' (run ops c')
        (omega (arith, moved, later.recv_counter_grows))

  write_counts :
      (m : Bytes) (c : SecureConn S) (s : S)
      → c.closed ≡ false
      → c.inner_conn ≡ some s
      → 0 < length m
      → c.send_counter + 1 ≤ (write conn aead now m c).1.send_counter
  unfolding write
  write_counts m c s is_open bound some_bytes = ground (arith, send-Later m c)

  -- A nonce that `_write` gives to the cipher is never given to it again: if a channel is open and
  -- bound, its prefix has 12 bytes, and a message of at least one byte is written, by a call that may
  -- fail, with the nonce `nonce` made for it, then this write does what it does with any cipher that
  -- agrees on `nonce`; and after any further calls, a write of any message does what it does with any
  -- cipher that agrees on every nonce but `nonce`.
  pub nonce_fresh :
      (c : SecureConn S) (s : S) (m m' nonce : Bytes) (ops : List Op) (at but : Aead)
      → c.closed ≡ false
      → c.inner_conn ≡ some s
      → length c.send_pfx ≡ 12
      → 0 < length m
      → make_nonce c.send_pfx (now c.send_counter % 2 ^ 32) c.send_counter ≡ ok nonce
      → SameAt aead at nonce
      → ((nonce' : Bytes) → nonce' ≢ nonce → SameAt aead but nonce')
      → (write conn at now m c ≡ write conn aead now m c)
        × (write conn but now m' (run ops (write conn aead now m c).1)
            ≡ write conn aead now m' (run ops (write conn aead now m c).1))
  nonce_fresh c s m m' nonce ops at but is_open bound sized some_bytes made same others =
      let d : SecureConn S = run ops (write conn aead now m c).1 in
      let later = run-Later ops (write conn aead now m c).1 in
      let first = write-Later m c in
      let counted = write_counts m c s is_open bound some_bytes in
      let pfx' : d.send_pfx ≡ c.send_pfx = later.same_send_pfx ∙ first.same_send_pfx in
      (
        write-SameAt aead at conn now m c
            (λ nonce' made'. subst (SameAt aead at) (cc (made, made')) same),
        write-SameAt aead but conn now m' d (λ nonce' made'. others nonce' (λ e.
            let again : d.send_counter ≡ c.send_counter =
              nonce_counter d.send_pfx c.send_pfx (now d.send_counter % 2 ^ 32)
                (now c.send_counter % 2 ^ 32) d.send_counter c.send_counter nonce' nonce
                (ap length pfx' ∙ sized) sized made' made e in
            omega (arith, again, counted, later.send_counter_grows))),
      )
