-- ===== src/P2p/Operations/Authentication.antt =====
-- What the node has checked when an operation of P2p/Operations returns a channel to a peer.
use uniconn.Prelude.{ℕ, ◌≡◌, ap, true, false, Option}
use uniconn.Outcome.{Outcome, ok, raised, pending, both_returned}
use uniconn.Struct.{Bytes}
use uniconn.Conn.{Conn}
use uniconn.Json.{Json, string, object, entry, no_fields}
use uniconn.Json.Access.{JsonCodec, subscript}
use uniconn.Secure.Crypto.{Aead, Suite}
use uniconn.Secure.Identity.{Identity}
use uniconn.Secure.Channel.{SecureConn, new, bind, channel}
use uniconn.Secure.Handshake.{VerifyFn, derive_keys}
use uniconn.Secure.Handshake.Authentication.{
  InitiatorChecked, ResponderChecked, initiator_authenticates, responder_authenticates,
}
use uniconn.P2p.Hex.{hex}
use uniconn.P2p.Envelope.{relay_req, accept_relay, read_envelope, write_envelope}
use uniconn.P2p.Operations.{paired, check_ack, relay_channel, accept_operation, dial_operation}
use uniconn.P2p.Operations.Granted.{IsGranted, check_ack-IsGranted}

paired-ok {ℓ} :
    {T : Type ℓ} {A : Type 0} (m : Outcome A × T) {b : A × T} → paired m ≡ ok b → m ≡ (ok b.0, b.1)
paired-ok (ok a, t) h = cc
paired-ok (raised e, t) h = cc
paired-ok (pending, t) h = cc

first-ok {ℓ κ} :
    {A : Type ℓ} {T : Type κ} (m : Outcome A × T) {a : A} → m.0 ≡ ok a → m ≡ (ok a, m.1)
first-ok (r, t) h = ap (λ x. (x, t)) h

module _ {ℓ} {S : Type ℓ} (conn : Conn S) (p : Suite) (aead : Aead) (now : ℕ → ℕ)
    (codec : JsonCodec) (identity : Identity) (verify_fn : Option VerifyFn) (relay_fp : Bytes) where
  -- A new channel to the relay, whose handshake passed the checks.
  pub record RelayChecked (seed : ℕ) (raw : S) (sc : SecureConn S) : Type ℓ where
    pub raw' : S
    pub secret : Bytes
    pub relay_checked : InitiatorChecked conn p identity relay_fp verify_fn seed raw raw' secret
    pub is_new : sc ≡ bind raw' (new (derive_keys p secret) true)

  relay_channel-RelayChecked :
      (seed : ℕ) (raw : S) (sc : SecureConn S)
      → relay_channel conn p aead now codec identity verify_fn relay_fp seed raw ≡ ok sc
      → RelayChecked seed raw sc
  unfolding relay_channel
  relay_channel-RelayChecked seed raw sc h =
      let (secret, checked, is_new) =
        initiator_authenticates conn p identity relay_fp verify_fn seed raw _ sc (first-ok _ h) in
      record { raw' = _; secret = secret; relay_checked = checked; is_new = is_new }

  -- The steps of a dialled peer: the relay's channel, the request, the answer, and the handshake with
  -- the peer through the relay.
  pub record DialChecked (peer_fp : Bytes) (seed seed' : ℕ) (raw : S)
      (peer : SecureConn (SecureConn S)) : Type ℓ where
    pub sc : SecureConn S
    pub sc₁ : SecureConn S
    pub sc₂ : SecureConn S
    pub sc₃ : SecureConn S
    pub n : ℕ
    pub ack : Json
    pub secret : Bytes
    pub relay : RelayChecked seed raw sc
    pub asked :
        write_envelope
          (channel conn aead now)
          codec
          relay_req
          (object (entry "target_fingerprint" (string (hex peer_fp)) no_fields))
          sc
        ≡ (ok n, sc₁)
    pub answered : read_envelope (channel conn aead now) codec sc₁ ≡ (ok ack, sc₂)
    pub grants : IsGranted ack
    pub peer_checked :
        InitiatorChecked (channel conn aead now) p identity peer_fp verify_fn seed' sc₂ sc₃ secret
    pub is_new : peer ≡ bind sc₃ (new (derive_keys p secret) true)

  -- If the operation of `dial_peer` returns a channel, the handshake with the relay passed the checks
  -- on the relay's fingerprint, the relay answered the request with a RELAY_ACK that reports success,
  -- and the handshake through the relay passed the checks on the fingerprint of the peer that the
  -- caller gave; and the channel is the new one of that handshake.
  pub dial_authenticates :
      (peer_fp : Bytes) (seed seed' : ℕ) (raw : S) (peer : SecureConn (SecureConn S))
      → dial_operation conn p aead now codec identity verify_fn relay_fp peer_fp seed seed' raw
        ≡ ok peer
      → DialChecked peer_fp seed seed' raw peer
  unfolding dial_operation
  dial_authenticates peer_fp seed seed' raw peer h =
      let (sc, relayed, h₁) =
        both_returned (relay_channel conn p aead now codec identity verify_fn relay_fp seed raw) _
          h in
      let (req, asked, h₂) =
        both_returned
          (paired (
            write_envelope (channel conn aead now) codec relay_req
              (object (entry "target_fingerprint" (string (hex peer_fp)) no_fields)) sc))
          _ h₁ in
      let (res, answered, h₃) =
        both_returned (paired (read_envelope (channel conn aead now) codec req.1)) _ h₂ in
      let (_, granted, h₄) = both_returned (check_ack res.0) _ h₃ in
      let (secret, checked, is_new) =
        initiator_authenticates (channel conn aead now) p identity peer_fp verify_fn seed' res.1 _
          peer (first-ok _ h₄) in
      record {
        sc = sc;
        sc₁ = req.1;
        sc₂ = res.1;
        sc₃ = _;
        n = req.0;
        ack = res.0;
        secret = secret;
        relay = relay_channel-RelayChecked seed raw sc relayed;
        asked = paired-ok _ asked;
        answered = paired-ok _ answered;
        grants = check_ack-IsGranted res.0 granted;
        peer_checked = checked;
        is_new = is_new;
      }

  pub record AcceptChecked (payload : Json) (requester_fp : Bytes) (seed seed' : ℕ) (raw : S)
      (peer : SecureConn (SecureConn S)) : Type ℓ where
    pub sc : SecureConn S
    pub sc₁ : SecureConn S
    pub sc₂ : SecureConn S
    pub n : ℕ
    pub session_token : Json
    pub secret : Bytes
    pub relay : RelayChecked seed raw sc
    pub token_is : subscript "session_token" payload ≡ ok session_token
    pub accepted :
        write_envelope
          (channel conn aead now)
          codec
          accept_relay
          (object (entry "session_token" session_token no_fields))
          sc
        ≡ (ok n, sc₁)
    pub requester_checked :
        ResponderChecked
          (channel conn aead now)
          p
          identity
          requester_fp
          verify_fn
          seed'
          sc₁
          sc₂
          secret
    pub is_new : peer ≡ bind sc₂ (new (derive_keys p secret) false)

  -- If the operation of `_accept_relay_proxy` returns a channel, the handshake with the relay passed
  -- the checks on the relay's fingerprint, the token of the relay's message was sent back to it, and
  -- the handshake through the relay passed the checks on the requester's fingerprint; and the
  -- channel is the new one of that handshake.
  pub accept_authenticates :
      (payload : Json) (requester_fp : Bytes) (seed seed' : ℕ) (raw : S)
      (peer : SecureConn (SecureConn S))
      → accept_operation conn p aead now codec identity verify_fn relay_fp payload requester_fp seed
          seed' raw
        ≡ ok peer
      → AcceptChecked payload requester_fp seed seed' raw peer
  unfolding accept_operation
  accept_authenticates payload requester_fp seed seed' raw peer h =
      let (sc, relayed, h₁) =
        both_returned (relay_channel conn p aead now codec identity verify_fn relay_fp seed raw) _
          h in
      let (token, token_is, h₂) = both_returned (subscript "session_token" payload) _ h₁ in
      let (req, accepted, h₃) =
        both_returned
          (paired (
            write_envelope (channel conn aead now) codec accept_relay
              (object (entry "session_token" token no_fields)) sc))
          _ h₂ in
      let (secret, checked, is_new) =
        responder_authenticates (channel conn aead now) p identity requester_fp verify_fn seed'
          req.1 _ peer (first-ok _ h₃) in
      record {
        sc = sc;
        sc₁ = req.1;
        sc₂ = _;
        n = req.0;
        session_token = token;
        secret = secret;
        relay = relay_channel-RelayChecked seed raw sc relayed;
        token_is = token_is;
        accepted = paired-ok _ accepted;
        requester_checked = checked;
        is_new = is_new;
      }
