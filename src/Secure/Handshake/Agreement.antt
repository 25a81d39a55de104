-- ===== src/Secure/Handshake/Agreement.antt =====
-- The two sides of secure/handshake.py, run with one another.
use uniconn.Prelude.{
  ℕ, ◌≡◌, refl, subst, true, Option, some, [], ◌++◌, append-nil, bytes_eq_refl, String, ==_refl,
}
use uniconn.Outcome.{ok}
use uniconn.Struct.{Bytes}
use uniconn.Conn.{Conn}
use uniconn.Conn.Stream.{IsStream, IsDuplex}
use uniconn.Secure.Message.{Hello, msg_hello, msg_hello_reply, marshal_hello, unmarshal_hello}
use uniconn.Secure.Message.RoundTrip.{
  IsSendable, wire_hello, marshal_hello-ok, unmarshal_hello-wire, length-wire_hello_small,
}
use uniconn.Secure.Crypto.{Suite}
use uniconn.Secure.Identity.{Identity, sign, compute_fingerprint}
use uniconn.Secure.Frame.{read_frame_from_conn}
use uniconn.Secure.Frame.Reading.{read_frame-IsStream}
use uniconn.Secure.Channel.Wire.{frame}
use uniconn.Secure.Handshake.{
  VerifyFn, or_default, import_mlkem, check_peer, initiator_secret, responder_secret,
}

unmarshal_hello-exact : (h : Hello) → IsSendable h → unmarshal_hello (wire_hello h) ≡ ok h
unmarshal_hello-exact h fits =
    subst (λ b. unmarshal_hello b ≡ ok h) (append-nil (wire_hello h))
      (unmarshal_hello-wire h [] fits)

check_peer-ok :
    (p : Suite) (verify_fn : VerifyFn) (expected : ℕ) (complaint : String) (peer_fp : Bytes)
    (h : Hello)
    → h.msg_type ≡ expected
    → compute_fingerprint p h.public_key ≡ peer_fp
    → verify_fn h.public_key h.payload h.signature ≡ true
    → check_peer p verify_fn expected complaint peer_fp h ≡ ok tt
unfolding check_peer
check_peer-ok p verify_fn expected complaint peer_fp h same_type same_fp verified =
    rw (same_type, ==_refl expected, same_fp, bytes_eq_refl peer_fp, verified)

module _ {ℓ} {S : Type ℓ} (conn : Conn S) (p : Suite) (identity : Identity) (peer_fp : Bytes)
    (verify_fn : Option VerifyFn) where
  initiator_steps :
      (seed n : ℕ) (s s₁ s₂ : S) (sig sent body secret : Bytes) (reply : Hello)
      → import_mlkem p ≡ ok tt
      → sign p identity (p.mlkem_keypair seed).0 ≡ ok sig
      → marshal_hello msg_hello identity.public_key (p.mlkem_keypair seed).0 sig ≡ ok sent
      → conn.write sent s ≡ (ok n, s₁)
      → read_frame_from_conn conn s₁ ≡ (ok body, s₂)
      → unmarshal_hello body ≡ ok reply
      → check_peer p
          (or_default p verify_fn)
          msg_hello_reply
          "expected HELLO_REPLY, got"
          peer_fp
          reply
        ≡ ok tt
      → p.mlkem_decrypt (p.mlkem_keypair seed).1 reply.payload ≡ some secret
      → initiator_secret conn p identity peer_fp verify_fn seed s ≡ (ok secret, s₂)
  unfolding initiator_secret
  initiator_steps seed n s s₁ s₂ sig sent body secret reply e₁ e₂ e₃ e₄ e₅ e₆ e₇ e₈ =
      rw (e₁, e₂, e₃, e₄, e₅, e₆, e₇, e₈)

  responder_steps :
      (seed n : ℕ) (s s₁ s₂ : S) (sig sent body ciphertext secret : Bytes) (hello : Hello)
      → read_frame_from_conn conn s ≡ (ok body, s₁)
      → unmarshal_hello body ≡ ok hello
      → check_peer p (or_default p verify_fn) msg_hello "expected HELLO, got" peer_fp hello ≡ ok tt
      → import_mlkem p ≡ ok tt
      → p.mlkem_encrypt seed hello.payload ≡ some (ciphertext, secret)
      → sign p identity ciphertext ≡ ok sig
      → marshal_hello msg_hello_reply identity.public_key ciphertext sig ≡ ok sent
      → conn.write sent s₁ ≡ (ok n, s₂)
      → responder_secret conn p identity peer_fp verify_fn seed s ≡ (ok secret, s₂)
  unfolding responder_secret
  responder_steps seed n s s₁ s₂ sig sent body ciphertext secret hello e₁ e₂ e₃ e₄ e₅ e₆ e₇ e₈ =
      rw (e₁, e₂, e₃, e₄, e₅, e₆, e₇, e₈)

-- What an honest side sends, and what the other side asks of it.
pub record IsHonest (p : Suite) (identity : Identity) (verify_fn : Option VerifyFn) (fp : Bytes)
    (msg_type : ℕ) (payload sig : Bytes) : Type 0 where
  pub signs : sign p identity payload ≡ ok sig
  pub sendable : IsSendable (record {
    msg_type = msg_type;
    public_key = identity.public_key;
    payload = payload;
    signature = sig;
  })
  pub known : compute_fingerprint p identity.public_key ≡ fp
  pub verifies : or_default p verify_fn identity.public_key payload sig ≡ true

abbrev pub message : ℕ → Identity → Bytes → Bytes → Hello
message msg_type identity payload sig = record {
  msg_type = msg_type;
  public_key = identity.public_key;
  payload = payload;
  signature = sig;
}

-- What the two sides do over a connection that reads what comes in, whatever it writes to.
module _ {ℓ κ} {S : Type ℓ} (conn : Conn S) (Holds : S → Bytes → Type κ)
    (stream : IsStream conn Holds) (p : Suite) (me peer : Identity) (my_fp peer_fp : Bytes)
    (verify_fn verify_fn' : Option VerifyFn) (imported : import_mlkem p ≡ ok tt) where
  pub initiator_reads :
      (seed n : ℕ) (s s₁ : S) (more sig ciphertext sig' secret : Bytes)
      → IsHonest p me verify_fn' my_fp msg_hello (p.mlkem_keypair seed).0 sig
      → IsHonest p peer verify_fn peer_fp msg_hello_reply ciphertext sig'
      → p.mlkem_decrypt (p.mlkem_keypair seed).1 ciphertext ≡ some secret
      → conn.write (frame (wire_hello (message msg_hello me (p.mlkem_keypair seed).0 sig))) s
        ≡ (ok n, s₁)
      → Holds s₁ (frame (wire_hello (message msg_hello_reply peer ciphertext sig')) ++ more)
      → (s₂ : S) × (initiator_secret conn p me peer_fp verify_fn seed s ≡ (ok secret, s₂))
        × Holds s₂ more
  initiator_reads seed n s s₁ more sig ciphertext sig' secret mine theirs opens written holds =
      let hello : Hello = message msg_hello me (p.mlkem_keypair seed).0 sig in
      let reply : Hello = message msg_hello_reply peer ciphertext sig' in
      let (s₂, run, holds₂) =
        read_frame-IsStream conn Holds stream (wire_hello reply) more s₁
          (length-wire_hello_small reply theirs.sendable) holds in
      (
        s₂,
        initiator_steps conn p me peer_fp verify_fn seed n s s₁ s₂ sig (frame (wire_hello hello))
            (wire_hello reply) secret reply imported mine.signs
            (marshal_hello-ok hello mine.sendable) written run
            (unmarshal_hello-exact reply theirs.sendable)
            (check_peer-ok p (or_default p verify_fn) msg_hello_reply "expected HELLO_REPLY, got"
              peer_fp reply refl theirs.known theirs.verifies)
            opens,
        holds₂,
      )

  -- The reply is written behind the HELLO, wherever the reading of that has led.
  pub responder_reads :
      (After : S → Type κ) (seed : ℕ) (s : S) (more ek sig ciphertext sig' secret : Bytes)
      → IsHonest p peer verify_fn peer_fp msg_hello ek sig
      → IsHonest p me verify_fn' my_fp msg_hello_reply ciphertext sig'
      → p.mlkem_encrypt seed ek ≡ some (ciphertext, secret)
      → Holds s (frame (wire_hello (message msg_hello peer ek sig)) ++ more)
      → ((t : S)
          → Holds t more
          → (n : ℕ) × (t' : S) × (conn.write
                (frame (wire_hello (message msg_hello_reply me ciphertext sig')))
                t
              ≡ (ok n, t'))
            × After t')
      → (s' : S) × (responder_secret conn p me peer_fp verify_fn seed s ≡ (ok secret, s'))
        × After s'
  responder_reads After seed s more ek sig ciphertext sig' secret theirs mine encapsulates holds
        writes =
      let hello : Hello = message msg_hello peer ek sig in
      let reply : Hello = message msg_hello_reply me ciphertext sig' in
      let (s₁, run, holds₁) =
        read_frame-IsStream conn Holds stream (wire_hello hello) more s
          (length-wire_hello_small hello theirs.sendable) holds in
      let (n, s₂, written, after) = writes s₁ holds₁ in
      (
        s₂,
        responder_steps conn p me peer_fp verify_fn seed n s s₁ s₂ sig' (frame (wire_hello reply))
            (wire_hello hello) ciphertext secret hello run
            (unmarshal_hello-exact hello theirs.sendable)
            (check_peer-ok p (or_default p verify_fn) msg_hello "expected HELLO, got" peer_fp hello
              refl theirs.known theirs.verifies)
            imported encapsulates mine.signs (marshal_hello-ok reply mine.sendable) written,
        after,
      )

module _ {ℓ κ} {S : Type ℓ} (conn : Conn S) (Live : S → Bytes → Bytes → Type κ)
    (duplex : IsDuplex conn Live) (p : Suite) (me peer : Identity) (my_fp peer_fp : Bytes)
    (verify_fn verify_fn' : Option VerifyFn) (imported : import_mlkem p ≡ ok tt) where
  -- The initiator writes its HELLO, reads the peer's reply and gets the secret out of it.
  pub initiator_runs :
      (seed : ℕ) (s : S) (out more sig ciphertext sig' secret : Bytes)
      → IsHonest p me verify_fn' my_fp msg_hello (p.mlkem_keypair seed).0 sig
      → IsHonest p peer verify_fn peer_fp msg_hello_reply ciphertext sig'
      → p.mlkem_decrypt (p.mlkem_keypair seed).1 ciphertext ≡ some secret
      → Live s out (frame (wire_hello (message msg_hello_reply peer ciphertext sig')) ++ more)
      → (s' : S) × (initiator_secret conn p me peer_fp verify_fn seed s ≡ (ok secret, s'))
        × Live s'
            (out ++ frame (wire_hello (message msg_hello me (p.mlkem_keypair seed).0 sig)))
            more
  initiator_runs seed s out more sig ciphertext sig' secret mine theirs opens live =
      let hello : Hello = message msg_hello me (p.mlkem_keypair seed).0 sig in
      let reply : Hello = message msg_hello_reply peer ciphertext sig' in
      let out' : Bytes = out ++ frame (wire_hello hello) in
      let w =
        (duplex.sink (frame (wire_hello reply) ++ more)).writes s (frame (wire_hello hello)) out
          live in
      initiator_reads conn (λ t rest. Live t out' rest) (duplex.stream out') p me peer my_fp peer_fp
        verify_fn verify_fn' imported seed _ s w.after more sig ciphertext sig' secret mine theirs
        opens w.runs w.sent

  -- The responder reads the peer's HELLO, makes a secret, and writes its reply.
  pub responder_runs :
      (seed : ℕ) (s : S) (out more ek sig ciphertext sig' secret : Bytes)
      → IsHonest p peer verify_fn peer_fp msg_hello ek sig
      → IsHonest p me verify_fn' my_fp msg_hello_reply ciphertext sig'
      → p.mlkem_encrypt seed ek ≡ some (ciphertext, secret)
      → Live s out (frame (wire_hello (message msg_hello peer ek sig)) ++ more)
      → (s' : S) × (responder_secret conn p me peer_fp verify_fn seed s ≡ (ok secret, s'))
        × Live s' (out ++ frame (wire_hello (message msg_hello_reply me ciphertext sig'))) more
  responder_runs seed s out more ek sig ciphertext sig' secret theirs mine encapsulates live =
      let reply : Hello = message msg_hello_reply me ciphertext sig' in
      responder_reads conn (λ t rest. Live t out rest) (duplex.stream out) p me peer my_fp peer_fp
        verify_fn verify_fn' imported (λ t. Live t (out ++ frame (wire_hello reply)) more) seed s
        more ek sig ciphertext sig' secret theirs mine encapsulates live
        (λ t live'.
          let w = (duplex.sink more).writes t (frame (wire_hello reply)) out live' in
          (_, w.after, w.runs, w.sent))
