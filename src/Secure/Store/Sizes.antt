-- ===== src/Secure/Store/Sizes.antt =====
-- The sizes of the keys that `load_identity` of secure/store.py returns.
use uniconn.Prelude.{
  ℕ, ◌+◌, ◌≡◌, refl, sym, ap, ◌∙◌, Bool, true, false, not, ◌==◌, arith, String, length, take, drop,
  length-take, length-drop,
}
use uniconn.Outcome.{Outcome, ok, Exn, exn, value_error, text_number, reject, both_returned}
use uniconn.Struct.{Bytes}
use uniconn.Secure.Crypto.{Aead}
use uniconn.Secure.Identity.{Identity}
use uniconn.Secure.Store.{
  Argon, Files, mldsa87_sk_size, mldsa87_pk_size, read_bytes, split_keys, open_file, open_identity,
  load_identity,
}

abbrev IsSized : Identity → Type 0
IsSized identity =
    (length identity.secret_key ≡ mldsa87_sk_size) × (length identity.public_key ≡ mldsa87_pk_size)

reject-false : (b : Bool) (e : Exn) → reject b e ≡ ok tt → b ≡ false
reject-false true e h = cc
reject-false false e h = refl

not-false : (a b : ℕ) → not (a == b) ≡ false → a ≡ b
not-false a b h = ground arith

cut_IsSized :
    (plain : Bytes) (identity : Identity)
    → length plain ≡ mldsa87_sk_size + mldsa87_pk_size
    → ◌≡◌ {A = Identity}
        (record {
          public_key = drop mldsa87_sk_size plain;
          secret_key = take mldsa87_sk_size plain;
        })
        identity
    → IsSized identity
cut_IsSized plain identity sized e = (
  ap (λ (i : Identity). length i.secret_key) (sym e)
      ∙ omega (arith, length-take mldsa87_sk_size plain),
  ap (λ (i : Identity). length i.public_key) (sym e)
      ∙ omega (arith, length-drop mldsa87_sk_size plain),
)

ok-injective {ℓ} : {A : Type ℓ} {a b : A} → ◌≡◌ {A = Outcome A} (ok a) (ok b) → a ≡ b
ok-injective h = cc

module _ (argon : Argon) (aead : Aead) where
  split_keys-size :
      (plain : Bytes) (identity : Identity)
      → split_keys argon aead plain ≡ ok identity
      → IsSized identity
  unfolding split_keys
  split_keys-size plain identity h =
      let complaint : Exn =
        exn value_error (text_number "unexpected plaintext size" (length plain)) in
      let (_, passed, rest) = both_returned (reject (not (length plain == 7488)) complaint) _ h in
      cut_IsSized plain identity (not-false _ _ (reject-false _ complaint passed))
        (ok-injective rest)

  -- If `load_identity` returns an identity, its keys have the sizes of ML-DSA-87, whatever the file
  -- and the password are.
  pub load_identity-IsSized :
      (path : String) (password : Bytes) (files : Files) (identity : Identity)
      → load_identity argon aead path password files ≡ ok identity
      → (length identity.secret_key ≡ mldsa87_sk_size)
        × (length identity.public_key ≡ mldsa87_pk_size)
  unfolding load_identity open_identity
  load_identity-IsSized path password files identity h =
      let (content, _, opened) = both_returned (read_bytes path files) _ h in
      let (plain, _, cut) = both_returned (open_file argon aead content password) _ opened in
      split_keys-size plain identity cut
