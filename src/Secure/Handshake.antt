-- ===== src/Secure/Handshake.antt =====
-- uniconn-py/uniconn/secure/handshake.py: the two sides of the USCP handshake, over a connection.
pub mod Agreement
pub mod Session
pub mod Authentication
use uniconn.Prelude.{
  ℕ, String, Bool, true, false, not, Option, none, some, List, [], ◌∷◌, ◌++◌, ◌==◌, take, drop,
  bytes_eq, if◌then◌else◌,
}
use uniconn.Outcome.{
  Outcome, ok, raised, pending, Exn, exn, runtime_error, value_error, text, text_number,
}
use uniconn.Action.{Action, pure, raise, lift, reject, ◌>>=◌, ◌>>◌}
use uniconn.Struct.{Bytes, slice}
use uniconn.Conn.{Conn}
use uniconn.Secure.Message.{
  Hello, msg_hello, msg_hello_reply, kdf_output_size, marshal_hello, unmarshal_hello,
}
use uniconn.Secure.Frame.{read_frame_from_conn}
use uniconn.Secure.Crypto.{Suite}
use uniconn.Secure.Identity.{Identity, compute_fingerprint, sign, verify}
use uniconn.Secure.Channel.{SessionKeys, SecureConn, new, bind}

-- b"uniconn-e2ee-v1"
abbrev pub kdf_context : Bytes
kdf_context =
    b'u' ∷ b'n' ∷ b'i' ∷ b'c' ∷ b'o' ∷ b'n' ∷ b'n' ∷ b'-' ∷ b'e' ∷ b'2' ∷ b'e' ∷ b'e' ∷ b'-' ∷ b'v'
    ∷ b'1' ∷ []

abbrev pub VerifyFn : Type 0
VerifyFn = Bytes → Bytes → Bytes → Bool

-- `if verify_fn is None: verify_fn = _default_verify`
abbrev pub or_default : Suite → Option VerifyFn → VerifyFn
or_default p none = verify p
or_default p (some f) = f

unfoldable pub derive_keys : Suite → Bytes → SessionKeys
derive_keys p shared_secret =
    let out = p.blake3 (kdf_context ++ shared_secret) kdf_output_size in
    record {
      initiator_key = slice 0 32 out;
      responder_key = slice 32 64 out;
      initiator_nonce_pfx = slice 64 76 out;
      responder_nonce_pfx = slice 76 88 out;
    }

-- The checks that both sides make on the message of the other.
unfoldable pub check_peer : Suite → VerifyFn → ℕ → String → Bytes → Hello → Outcome (Unit {0})
check_peer p verify_fn expected complaint peer_fp h =
    if not (h.msg_type == expected)
    then raised (exn value_error (text_number complaint h.msg_type))
    else if not (bytes_eq (compute_fingerprint p h.public_key) peer_fp)
    then raised (exn value_error (text "fingerprint mismatch"))
    else if not (verify_fn h.public_key h.payload h.signature)
    then raised (exn value_error (text "signature verification failed"))
    else ok tt

-- A result of pqcrypto, or its exception.
abbrev pub or_raise {ℓ} : {A : Type ℓ} → Option A → Outcome A
or_raise none = raised (exn value_error (text "pqcrypto"))
or_raise (some a) = ok a

-- `from pqcrypto.kem.ml_kem_1024 import ...`
unfoldable pub import_mlkem : Suite → Outcome (Unit {0})
import_mlkem p =
    if p.has_mlkem
    then ok tt
    else raised (exn runtime_error (text "pqcrypto package required for ML-KEM-1024"))

module _ {ℓ} {S : Type ℓ} (conn : Conn S) (p : Suite) (identity : Identity) (peer_fp : Bytes)
    (verify_fn : Option VerifyFn) where
  -- `handshake_initiator` up to the shared secret; `seed` is the randomness of `generate_keypair`.
  unfoldable pub initiator_secret : ℕ → Action S Bytes
  initiator_secret seed = do
    lift (import_mlkem p)
    let (ek_bytes, sk_kem) = p.mlkem_keypair seed
    sig ← lift (sign p identity ek_bytes)
    hello ← lift (marshal_hello msg_hello identity.public_key ek_bytes sig)
    _ ← conn.write hello
    reply_body ← read_frame_from_conn conn
    reply ← lift (unmarshal_hello reply_body)
    lift (
        check_peer p (or_default p verify_fn) msg_hello_reply "expected HELLO_REPLY, got" peer_fp
          reply)
    lift (or_raise (p.mlkem_decrypt sk_kem reply.payload))

  -- `handshake_responder` up to the shared secret; `seed` is the randomness of `encrypt`.
  unfoldable pub responder_secret : ℕ → Action S Bytes
  responder_secret seed = do
    hello_body ← read_frame_from_conn conn
    hello ← lift (unmarshal_hello hello_body)
    lift (check_peer p (or_default p verify_fn) msg_hello "expected HELLO, got" peer_fp hello)
    lift (import_mlkem p)
    (ct_bytes, shared_secret) ← lift (or_raise (p.mlkem_encrypt seed hello.payload))
    sig ← lift (sign p identity ct_bytes)
    reply ← lift (marshal_hello msg_hello_reply identity.public_key ct_bytes sig)
    _ ← conn.write reply
    pure shared_secret

  -- `SecureConn(_derive_keys(shared_secret), is_initiator).bind(conn)`; the connection, as it is
  -- then, is the channel's from there on.
  abbrev pub establish : Bool → Outcome Bytes → S → Outcome (SecureConn S) × S
  establish is_initiator (ok shared_secret) s =
      (ok (bind s (new (derive_keys p shared_secret) is_initiator)), s)
  establish is_initiator (raised e) s = (raised e, s)
  establish is_initiator pending s = (pending, s)

  unfoldable pub handshake_initiator : ℕ → S → Outcome (SecureConn S) × S
  handshake_initiator seed s = let (r, s') = initiator_secret seed s in establish true r s'

  unfoldable pub handshake_responder : ℕ → S → Outcome (SecureConn S) × S
  handshake_responder seed s = let (r, s') = responder_secret seed s in establish false r s'
