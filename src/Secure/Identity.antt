-- ===== src/Secure/Identity.antt =====
-- uniconn-py/uniconn/secure/identity.py: identities, fingerprints and signatures.
use uniconn.Prelude.{ℕ, Bool, false, Option, none, some, if◌then◌else◌}
use uniconn.Outcome.{Outcome, ok, raised, exn, runtime_error, text}
use uniconn.Struct.{Bytes}
use uniconn.Secure.Message.{fingerprint_size}
use uniconn.Secure.Crypto.{Suite}

pub record Identity : Type 0 where
  pub public_key : Bytes
  pub secret_key : Bytes

module _ (p : Suite) where
  unfoldable pub compute_fingerprint : Bytes → Bytes
  compute_fingerprint pub_bytes = p.blake3 pub_bytes fingerprint_size

  -- `Identity.generate`; `seed` is the randomness of `keygen`.
  unfoldable pub generate : ℕ → Outcome Identity
  generate seed =
      if p.has_mldsa
      then ok
          (record { public_key = (p.mldsa_keygen seed).0; secret_key = (p.mldsa_keygen seed).1 })
      else raised (
          exn runtime_error (
            text
              "No ML-DSA-87 backend available. Install `dilithium-py` package: pip install dilithium-py"))

  unfoldable pub fingerprint : Identity → Bytes
  unfolding compute_fingerprint
  fingerprint identity = compute_fingerprint identity.public_key

  unfoldable pub sign : Identity → Bytes → Outcome Bytes
  sign identity message =
      if p.has_mldsa
      then ok (p.mldsa_sign identity.secret_key message)
      else raised (exn runtime_error (text "No ML-DSA-87 backend available"))

  -- An exception of the package counts as a failed check.
  abbrev true_or_false : Option Bool → Bool
  true_or_false none = false
  true_or_false (some b) = b

  unfoldable pub verify : Bytes → Bytes → Bytes → Bool
  verify pub_bytes message sig_bytes =
      if p.has_mldsa then true_or_false (p.mldsa_verify pub_bytes message sig_bytes) else false
