-- ===== src/Secure/Handshake/Session.antt =====
-- The session that a handshake between two honest sides sets up.
use uniconn.Prelude.{
  ℕ, ◌+◌, ◌-◌, ◌≡◌, refl, Bool, true, false, Option, some, ◌++◌, arith, length, drop, ◌≤◌,
  length-take, length-drop,
}
use uniconn.Outcome.{ok}
use uniconn.Struct.{Bytes, slice}
use uniconn.Conn.{Conn}
use uniconn.Conn.Stream.{IsDuplex}
use uniconn.Secure.Message.{msg_hello, msg_hello_reply}
use uniconn.Secure.Message.RoundTrip.{wire_hello}
use uniconn.Secure.Crypto.{Suite, SuiteLaws}
use uniconn.Secure.Identity.{Identity}
use uniconn.Secure.Channel.{SecureConn, SessionKeys, new, bind}
use uniconn.Secure.Channel.Wire.{frame}
use uniconn.Secure.Channel.Writing.{CanSend}
use uniconn.Secure.Channel.Transfer.{Agree}
use uniconn.Secure.Handshake.{
  VerifyFn, import_mlkem, derive_keys, kdf_context, handshake_initiator, handshake_responder,
}
use uniconn.Secure.Handshake.Agreement.{IsHonest, message, initiator_runs, responder_runs}

length-slice :
    (lo hi : ℕ) (bytes : Bytes)
    → hi - lo + lo ≡ hi
    → hi ≤ length bytes
    → length (slice lo hi bytes) ≡ hi - lo
length-slice lo hi bytes order fits =
    omega (arith, length-take (hi - lo) (drop lo bytes), length-drop lo bytes)

-- The sizes of derived keys.
record AreSized (k : SessionKeys) : Type 0 where
  ik : length k.initiator_key ≡ 32
  rk : length k.responder_key ≡ 32
  ip : length k.initiator_nonce_pfx ≡ 12
  rp : length k.responder_nonce_pfx ≡ 12

derive_keys-AreSized :
    (p : Suite) → SuiteLaws p → (secret : Bytes) → AreSized (derive_keys p secret)
unfolding derive_keys
derive_keys-AreSized p laws secret =
    let out : Bytes = p.blake3 (kdf_context ++ secret) 88 in
    let size : length out ≡ 88 = laws.digest_size (kdf_context ++ secret) 88 in
    record {
      ik = length-slice 0 32 out refl (omega arith);
      rk = length-slice 32 64 out refl (omega arith);
      ip = length-slice 64 76 out refl (omega arith);
      rp = length-slice 76 88 out refl (omega arith);
    }

module _ {ℓ κ} {S : Type ℓ} (Sent : S → Bytes → Type κ) (k : SessionKeys) (sized : AreSized k) where
  -- A channel that was just set up can send, on either side.
  new-CanSend :
      (is_initiator : Bool) (s : S) (out : Bytes)
      → Sent s out
      → CanSend Sent (bind s (new k is_initiator)) out
  unfolding bind new
  new-CanSend true s out sent = record {
    is_open = refl;
    inner = s;
    bound = refl;
    key_sized = sized.ik;
    pfx_sized = sized.ip;
    sent = sent;
  }
  new-CanSend false s out sent = record {
    is_open = refl;
    inner = s;
    bound = refl;
    key_sized = sized.rk;
    pfx_sized = sized.rp;
    sent = sent;
  }

pub new-Agree {ℓ κ} :
    {S : Type ℓ} {R : Type κ} (k : SessionKeys) (s : S) (r : R)
    → Agree (bind s (new k true)) (bind r (new k false))
      × Agree (bind r (new k false)) (bind s (new k true))
unfolding bind new
new-Agree k s r = (
  record { is_open = refl; empty = refl; same_key = refl; same_pfx = refl; same_counter = refl },
  record { is_open = refl; empty = refl; same_key = refl; same_pfx = refl; same_counter = refl },
)

module _ {ℓ κ μ ν} {S : Type ℓ} {R : Type κ} (conn : Conn S) (LiveS : S → Bytes → Bytes → Type μ)
    (duplexS : IsDuplex conn LiveS) (conn' : Conn R) (LiveR : R → Bytes → Bytes → Type ν)
    (duplexR : IsDuplex conn' LiveR) (p : Suite) (laws : SuiteLaws p)
    (imported : import_mlkem p ≡ ok tt) (a b : Identity) (fp_a fp_b : Bytes)
    (verify_a verify_b : Option VerifyFn) where
  -- Two honest sides, each of which knows the fingerprint of the other and accepts its signature,
  -- run the handshake: the initiator `a` over a connection on which the reply of `b` comes in, the
  -- responder `b` over one on which the HELLO of `a` comes in. Both calls succeed, each having written
  -- its message; the two channels hold the same keys crosswise, so that what one sends under the
  -- other expects; and both can send.
  pub handshake_agrees :
      (seed seed' : ℕ) (s : S) (r : R)
      (out_s more_s out_r more_r sig ciphertext sig' secret : Bytes)
      → IsHonest p a verify_b fp_a msg_hello (p.mlkem_keypair seed).0 sig
      → IsHonest p b verify_a fp_b msg_hello_reply ciphertext sig'
      → p.mlkem_encrypt seed' (p.mlkem_keypair seed).0 ≡ some (ciphertext, secret)
      → LiveS s out_s (frame (wire_hello (message msg_hello_reply b ciphertext sig')) ++ more_s)
      → LiveR r out_r
          (frame (wire_hello (message msg_hello a (p.mlkem_keypair seed).0 sig)) ++ more_r)
      → (i : SecureConn S) × (j : SecureConn R) × (s' : S) × (r' : R) × (handshake_initiator conn p
            a fp_b verify_a seed s
          ≡ (ok i, s'))
        × (handshake_responder conn' p b fp_a verify_b seed' r ≡ (ok j, r'))
        × Agree i j
        × Agree j i
        × CanSend
            (λ t out. LiveS t out more_s)
            i
            (out_s ++ frame (wire_hello (message msg_hello a (p.mlkem_keypair seed).0 sig)))
        × CanSend
            (λ t out. LiveR t out more_r)
            j
            (out_r ++ frame (wire_hello (message msg_hello_reply b ciphertext sig')))
  unfolding handshake_initiator handshake_responder
  handshake_agrees seed seed' s r out_s more_s out_r more_r sig ciphertext sig' secret honest_a
        honest_b encapsulates live_s live_r =
      let k : SessionKeys = derive_keys p secret in
      let sized = derive_keys-AreSized p laws secret in
      let opens = laws.decapsulates seed seed' ciphertext secret encapsulates in
      let (s', run_s, sent_s) =
        initiator_runs conn LiveS duplexS p a b fp_a fp_b verify_a verify_b imported seed s out_s
          more_s sig ciphertext sig' secret honest_a honest_b opens live_s in
      let (r', run_r, sent_r) =
        responder_runs conn' LiveR duplexR p b a fp_b fp_a verify_b verify_a imported seed' r out_r
          more_r (p.mlkem_keypair seed).0 sig ciphertext sig' secret honest_a honest_b encapsulates
          live_r in
      let (there, back) = new-Agree k s' r' in
      (
        bind s' (new k true),
        bind r' (new k false),
        s',
        r',
        rw run_s,
        rw run_r,
        there,
        back,
        new-CanSend (λ t out. LiveS t out more_s) k sized true s' _ sent_s,
        new-CanSend (λ t out. LiveR t out more_r) k sized false r' _ sent_r,
      )
