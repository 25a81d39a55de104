-- ===== src/Tests/Toys.antt =====
-- Stand-ins for the packages: they compute, and meet the laws that the theorems ask for.
use uniconn.Prelude.{
  ℕ, ◌+◌, ◌≡◌, refl, true, false, ◌&&◌, none, some, [], ◌∷◌, ◌++◌, ◌==◌, arith, length, take,
  replicate, length-take, length-append, length-replicate, bytes_eq, bytes_eq_refl, if◌then◌else◌,
}
use uniconn.Outcome.{ok}
use uniconn.Struct.{Bytes}
use uniconn.Tcp.{TcpConn}
use uniconn.Tcp.Duplex.{Live}
use uniconn.Secure.Crypto.{Aead, AeadLaws, Suite, SuiteLaws}

abbrev pub nonce_tag : Bytes → Bytes
nonce_tag nonce = take 16 (nonce ++ replicate 16 0)

-- The text is left as it is, and the tag is the front of the nonce.
abbrev pub plain_aead : Aead
plain_aead = record {
  accepts = λ key nonce. (length key == 32) && (length nonce == 24);
  encrypt_and_digest = λ key nonce plain. (plain, nonce_tag nonce);
  decrypt_and_verify =
      λ key nonce ciphertext tag. if bytes_eq tag (nonce_tag nonce) then some ciphertext else none;
}

accepts_lem :
    (key nonce : Bytes) → length key ≡ 32 → length nonce ≡ 24 → plain_aead.accepts key nonce ≡ true
accepts_lem key nonce e f = rw (e, f)

length-nonce_tag : (nonce : Bytes) → length (nonce_tag nonce) ≡ 16
length-nonce_tag nonce = omega (
  arith,
  length-take 16 (nonce ++ replicate 16 0),
  length-append nonce (replicate 16 0),
  length-replicate 16 (◌+◌ 0 0),
)

pub plain_aead-AeadLaws : AeadLaws plain_aead
plain_aead-AeadLaws = record {
  accepts_sizes = accepts_lem;
  ciphertext_size = λ key nonce plain. refl;
  tag_size = λ key nonce plain. length-nonce_tag nonce;
  opens = λ key nonce plain. rw (bytes_eq_refl (nonce_tag nonce));
}

-- Keys of one byte; a signature is the secret key and a 9.
abbrev pub toy_suite : Suite
toy_suite = record {
  blake3 = λ bytes n. take n (bytes ++ replicate n 7);
  has_mldsa = true;
  has_mlkem = true;
  mldsa_keygen = λ seed. (seed ∷ [], seed ∷ []);
  mldsa_sign = λ sk message. sk ++ 9 ∷ [];
  mldsa_verify = λ pk message sig. some (bytes_eq sig (pk ++ 9 ∷ []));
  mlkem_keypair = λ seed. (seed ∷ [], seed ∷ []);
  mlkem_encrypt = λ seed pk. some (seed ∷ [], seed ∷ pk);
  mlkem_decrypt = λ sk ciphertext. some (ciphertext ++ sk);
}

pub toy_suite-SuiteLaws : SuiteLaws toy_suite
toy_suite-SuiteLaws = record {
  digest_size = λ bytes n. omega (
    arith,
    length-take n (bytes ++ replicate n 7),
    length-append bytes (replicate n 7),
    length-replicate {A = ℕ} n 7,
  );
  decapsulates = λ seed seed' ciphertext secret e. cc;
}

-- An open TCP connection on which `todo` has arrived.
abbrev pub peer_sent : Bytes → TcpConn
peer_sent todo = record {
  reader = record { arrived = todo; at_eof = false; failure = none };
  writer = record {
    written = [];
    closing = false;
    lost = false;
    paused = false;
    sockname = none;
    wait_closed = ok tt;
    peername = none;
  };
  closed = false;
}

pub peer_sent-Live : (todo : Bytes) → Live (peer_sent todo) [] todo
peer_sent-Live todo = record {
  is_open = refl;
  sound = refl;
  kept = refl;
  flowing = refl;
  arrived_is = refl;
  written_is = refl;
}
