-- ===== src/Secure/Handshake/Authentication.antt =====
-- What a handshake that succeeds has checked of the peer.
use uniconn.Prelude.{
  ℕ, ◌≡◌, refl, sym, ap, ◌∙◌, Bool, true, false, Option, none, some, String, arith, bytes_eq,
  bytes_eq→eq,
}
use uniconn.Outcome.{Outcome, ok, raised, pending}
use uniconn.Action.{Action, continue, ◌>>=◌}
use uniconn.Struct.{Bytes}
use uniconn.Conn.{Conn}
use uniconn.Secure.Message.{Hello, msg_hello, msg_hello_reply, marshal_hello, unmarshal_hello}
use uniconn.Secure.Crypto.{Suite}
use uniconn.Secure.Identity.{Identity, compute_fingerprint, sign}
use uniconn.Secure.Frame.{read_frame_from_conn}
use uniconn.Secure.Channel.{SecureConn, new, bind}
use uniconn.Secure.Handshake.{
  VerifyFn, or_default, or_raise, establish, import_mlkem, check_peer, derive_keys,
  initiator_secret, responder_secret, handshake_initiator, handshake_responder,
}

-- The message `h` is of the type expected, its key has the fingerprint expected, and its signature
-- passes the check.
pub record IsChecked (p : Suite) (verify_fn : VerifyFn) (expected : ℕ) (peer_fp : Bytes) (h : Hello)
    : Type 0 where
  pub same_type : h.msg_type ≡ expected
  pub same_fingerprint : compute_fingerprint p h.public_key ≡ peer_fp
  pub verified : verify_fn h.public_key h.payload h.signature ≡ true

check_peer-IsChecked :
    (p : Suite) (verify_fn : VerifyFn) (expected : ℕ) (complaint : String) (peer_fp : Bytes)
    (h : Hello)
    → check_peer p verify_fn expected complaint peer_fp h ≡ ok tt
    → IsChecked p verify_fn expected peer_fp h
unfolding check_peer
check_peer-IsChecked p verify_fn expected complaint peer_fp h checked =
    let same : bytes_eq (compute_fingerprint p h.public_key) peer_fp ≡ true = ground arith in
    record {
      same_type = ground arith;
      same_fingerprint = bytes_eq→eq (compute_fingerprint p h.public_key) peer_fp same;
      verified = ground arith;
    }

-- Inversion of an action that is followed by another.
continue-ok {ℓ κ} :
    {S : Type ℓ} {A B : Type κ} (r : Outcome A) (k : A → Action S B) (s s' : S) {b : B}
    → continue r k s ≡ (ok b, s')
    → (a : A) × (r ≡ ok a) × (k a s ≡ (ok b, s'))
continue-ok (ok a) k s s' h = (a, refl, h)
continue-ok (raised e) k s s' h = cc
continue-ok pending k s s' h = cc

or_raise-ok {ℓ} : {A : Type ℓ} (o : Option A) {a : A} → or_raise o ≡ ok a → o ≡ some a
or_raise-ok none h = cc
or_raise-ok (some b) h = cc

ok-injective {ℓ} : {A : Type ℓ} {a b : A} → ◌≡◌ {A = Outcome A} (ok a) (ok b) → a ≡ b
ok-injective h = cc

-- An action that ends in a frame's body, in two steps.
read-ok {ℓ κ} :
    {S : Type ℓ} {A B : Type κ} (m : Action S A) (k : A → Action S B) (s s' : S) {b : B}
    → (m >>= k) s ≡ (ok b, s')
    → (a : A) × (t : S) × (m s ≡ (ok a, t)) × (k a t ≡ (ok b, s'))
read-ok m k s s' h =
    let (a, e, rest) = continue-ok (m s).0 k (m s).1 s' h in
    (a, (m s).1, ap (λ r. (r, (m s).1)) e, rest)

module _ {ℓ} {S : Type ℓ} (conn : Conn S) (p : Suite) (identity : Identity) (peer_fp : Bytes)
    (verify_fn : Option VerifyFn) where
  -- The secret of an initiator comes out of a reply that it read and that passed the checks.
  pub record InitiatorChecked (seed : ℕ) (s s' : S) (secret : Bytes) : Type ℓ where
    pub sig : Bytes
    pub hello : Bytes
    pub count : ℕ
    pub s₁ : S
    pub body : Bytes
    pub reply : Hello
    pub signed : sign p identity (p.mlkem_keypair seed).0 ≡ ok sig
    pub marshalled :
        marshal_hello msg_hello identity.public_key (p.mlkem_keypair seed).0 sig ≡ ok hello
    pub written : conn.write hello s ≡ (ok count, s₁)
    pub arrived : read_frame_from_conn conn s₁ ≡ (ok body, s')
    pub parsed : unmarshal_hello body ≡ ok reply
    pub checked : IsChecked p (or_default p verify_fn) msg_hello_reply peer_fp reply
    pub opened : p.mlkem_decrypt (p.mlkem_keypair seed).1 reply.payload ≡ some secret

  initiator_secret-checked :
      (seed : ℕ) (s s' : S) (secret : Bytes)
      → initiator_secret conn p identity peer_fp verify_fn seed s ≡ (ok secret, s')
      → InitiatorChecked seed s s' secret
  unfolding initiator_secret
  initiator_secret-checked seed s s' secret h =
      let (_, _, h₁) = continue-ok (import_mlkem p) _ s s' h in
      let (sig, signed, h₂) = continue-ok (sign p identity (p.mlkem_keypair seed).0) _ s s' h₁ in
      let (hello, marshalled, h₃) =
        continue-ok (marshal_hello msg_hello identity.public_key (p.mlkem_keypair seed).0 sig) _ s
          s' h₂ in
      let (count, s₁, written, h₄) = read-ok (conn.write hello) _ s s' h₃ in
      let (body, s₂, arrived, h₅) = read-ok (read_frame_from_conn conn) _ s₁ s' h₄ in
      let (reply, parsed, h₆) = continue-ok (unmarshal_hello body) _ s₂ s' h₅ in
      let (_, checked, h₇) =
        continue-ok
          (check_peer p (or_default p verify_fn) msg_hello_reply "expected HELLO_REPLY, got" peer_fp
            reply)
          _ s₂ s' h₆ in
      let ended : s₂ ≡ s' = ap (λ t. t.1) h₇ in
      record {
        sig = sig;
        hello = hello;
        count = count;
        s₁ = s₁;
        body = body;
        reply = reply;
        signed = signed;
        marshalled = marshalled;
        written = written;
        arrived = arrived ∙ ap (λ t. (ok body, t)) ended;
        parsed = parsed;
        checked = check_peer-IsChecked p _ msg_hello_reply _ peer_fp reply checked;
        opened = or_raise-ok _ (ap (λ t. t.0) h₇);
      }

  -- The secret of a responder was made for a HELLO that it read and that passed the checks.
  pub record ResponderChecked (seed : ℕ) (s s' : S) (secret : Bytes) : Type ℓ where
    pub body : Bytes
    pub s₁ : S
    pub hello : Hello
    pub ciphertext : Bytes
    pub sig : Bytes
    pub reply : Bytes
    pub count : ℕ
    pub arrived : read_frame_from_conn conn s ≡ (ok body, s₁)
    pub parsed : unmarshal_hello body ≡ ok hello
    pub checked : IsChecked p (or_default p verify_fn) msg_hello peer_fp hello
    pub encapsulated : p.mlkem_encrypt seed hello.payload ≡ some (ciphertext, secret)
    pub signed : sign p identity ciphertext ≡ ok sig
    pub marshalled : marshal_hello msg_hello_reply identity.public_key ciphertext sig ≡ ok reply
    pub written : conn.write reply s₁ ≡ (ok count, s')

  responder_secret-checked :
      (seed : ℕ) (s s' : S) (secret : Bytes)
      → responder_secret conn p identity peer_fp verify_fn seed s ≡ (ok secret, s')
      → ResponderChecked seed s s' secret
  unfolding responder_secret
  responder_secret-checked seed s s' secret h =
      let (body, s₁, arrived, h₁) = read-ok (read_frame_from_conn conn) _ s s' h in
      let (hello, parsed, h₂) = continue-ok (unmarshal_hello body) _ s₁ s' h₁ in
      let (_, checked, h₃) =
        continue-ok
          (check_peer p (or_default p verify_fn) msg_hello "expected HELLO, got" peer_fp hello) _ s₁
          s' h₂ in
      let (_, _, h₄) = continue-ok (import_mlkem p) _ s₁ s' h₃ in
      let (made, encapsulated, h₅) =
        continue-ok (or_raise (p.mlkem_encrypt seed hello.payload)) _ s₁ s' h₄ in
      let (sig, signed, h₆) = continue-ok (sign p identity made.0) _ s₁ s' h₅ in
      let (reply, marshalled, h₇) =
        continue-ok (marshal_hello msg_hello_reply identity.public_key made.0 sig) _ s₁ s' h₆ in
      let (count, s₂, written, h₈) = read-ok (conn.write reply) _ s₁ s' h₇ in
      record {
        body = body;
        s₁ = s₁;
        hello = hello;
        ciphertext = made.0;
        sig = sig;
        reply = reply;
        count = count;
        arrived = arrived;
        parsed = parsed;
        checked = check_peer-IsChecked p _ msg_hello _ peer_fp hello checked;
        encapsulated =
            or_raise-ok _ encapsulated
            ∙ ap (λ t. some (made.0, t)) (ok-injective (ap (λ t. t.0) h₈));
        signed = signed;
        marshalled = marshalled;
        written = written ∙ ap (λ t. (ok count, t)) (ap (λ t. t.1) h₈);
      }

  establish-ok :
      (is_initiator : Bool) (r : Outcome Bytes) (t s' : S) (c : SecureConn S)
      → establish conn p identity peer_fp verify_fn is_initiator r t ≡ (ok c, s')
      → (secret : Bytes) × (◌≡◌ {A = Outcome Bytes × S} (r, t) (ok secret, s'))
        × (c ≡ bind s' (new (derive_keys p secret) is_initiator))
  establish-ok is_initiator (ok secret) t s' c h =
      let same : t ≡ s' = ap (λ x. x.1) h in
      (
        secret,
        ap (λ x. (ok secret, x)) same,
        ok-injective (ap (λ x. x.0) (sym h))
            ∙ ap (λ x. bind x (new (derive_keys p secret) is_initiator)) same,
      )
  establish-ok is_initiator (raised e) t s' c h = cc
  establish-ok is_initiator pending t s' c h = cc

  -- If `handshake_initiator` returns a channel, it signed its encapsulation key and wrote the HELLO
  -- with it; then a frame arrived that parses as a HELLO_REPLY whose key has the fingerprint that the
  -- caller gave and whose signature passes the check; and the channel is a new initiator's, bound to
  -- the connection, with the keys derived from the secret that the reply's payload decrypts to.
  pub initiator_authenticates :
      (seed : ℕ) (s s' : S) (c : SecureConn S)
      → handshake_initiator conn p identity peer_fp verify_fn seed s ≡ (ok c, s')
      → (secret : Bytes) × InitiatorChecked seed s s' secret
        × (c ≡ bind s' (new (derive_keys p secret) true))
  unfolding handshake_initiator
  initiator_authenticates seed s s' c h =
      let (r, t) = initiator_secret conn p identity peer_fp verify_fn seed s in
      let (secret, run, is_new) = establish-ok true r t s' c h in
      (secret, initiator_secret-checked seed s s' secret run, is_new)

  -- If `handshake_responder` returns a channel, a frame arrived that parses as a HELLO whose key has
  -- the fingerprint that the caller gave and whose signature passes the check; a secret was
  -- encapsulated for its payload, and the reply with the signed ciphertext was written; and the
  -- channel is a new responder's, bound to the connection, with the keys derived from that secret.
  pub responder_authenticates :
      (seed : ℕ) (s s' : S) (c : SecureConn S)
      → handshake_responder conn p identity peer_fp verify_fn seed s ≡ (ok c, s')
      → (secret : Bytes) × ResponderChecked seed s s' secret
        × (c ≡ bind s' (new (derive_keys p secret) false))
  unfolding handshake_responder
  responder_authenticates seed s s' c h =
      let (r, t) = responder_secret conn p identity peer_fp verify_fn seed s in
      let (secret, run, is_new) = establish-ok false r t s' c h in
      (secret, responder_secret-checked seed s s' secret run, is_new)
