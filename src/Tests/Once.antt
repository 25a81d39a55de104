-- ===== src/Tests/Once.antt =====
-- Nonces and counters of one channel, at concrete inputs.
use uniconn.Prelude.{
  ℕ, ◌+◌, ◌-◌, ◌≡◌, ◌≢◌, refl, false, some, List, [], ◌∷◌, ◌++◌, arith, length, take, drop,
  replicate, bytes_eq, bytes_eq_refl, bytes_eq→eq, Bool-cases, inl, inr, if◌then◌else◌,
}
use uniconn.Outcome.{ok, raised}
use uniconn.Struct.{Bytes, to_be, slice, unpack}
use uniconn.Conn.Buffer.{put_front, keep_rest}
use uniconn.Conn.Stream.{IsStream}
use uniconn.Tcp.{TcpConn, tcp}
use uniconn.Tcp.Duplex.{Live, tcp-IsDuplex}
use uniconn.Secure.Data.{make_nonce}
use uniconn.Secure.Data.RoundTrip.{sealed, open_data-sealed, nonce_bytes, make_nonce-ok}
use uniconn.Secure.Channel.Reading.{Carries}
use uniconn.Secure.Channel.{SecureConn, handle_data, write, channel}
use uniconn.Secure.Crypto.{Aead}
use uniconn.Secure.Channel.Given.{SameAt}
use uniconn.Secure.Channel.Reading.{channel-IsStream}
use uniconn.Secure.Channel.Replay.{wrong_counter, handle_data-accepts}
use uniconn.Secure.Channel.History.{
  Op, do_read, do_write, do_close, run, handle_data-once, nonce_fresh,
}
use uniconn.Tests.Toys.{plain_aead, plain_aead-AeadLaws, peer_sent}

-- A channel that has sent and received five messages.
abbrev used : SecureConn TcpConn
used = record {
  send_key = replicate 32 1;
  recv_key = replicate 32 2;
  send_pfx = replicate 12 3;
  recv_pfx = replicate 12 4;
  send_counter = 5;
  recv_counter = 5;
  closed = false;
  recv_buf = [];
  inner_conn = some (peer_sent []);
}

abbrev clock : ℕ → ℕ
clock n = 1_700_000_000 + n

abbrev calls : List Op
calls = do_write (8 ∷ []) ∷ do_read (0 ∷ 0 ∷ []) ∷ do_close ∷ []

abbrev nonce_of : ℕ → ℕ → Bytes
nonce_of ts counter = replicate 12 3 ++ (to_be 4 ts ++ to_be 8 counter)

abbrev two_bytes : Bytes
two_bytes = 0 ∷ 0 ∷ []

-- A DATA body that the channel `used` expects.
abbrev expected_body : Bytes
expected_body = sealed plain_aead (replicate 32 2) (replicate 12 4) 1_700_000_000 5 (7 ∷ 8 ∷ 9 ∷ [])

abbrev after_one : SecureConn TcpConn
after_one = record used { recv_counter = 6; recv_buf = 9 ∷ [] }

body_handled :
    handle_data tcp plain_aead expected_body two_bytes used ≡ (ok (2, 7 ∷ 8 ∷ []), after_one)
unfolding handle_data
body_handled = rw (
    open_data-sealed plain_aead plain_aead-AeadLaws (replicate 32 2) (replicate 12 4) 1_700_000_000
      5 refl refl (omega arith) (omega arith) (7 ∷ 8 ∷ 9 ∷ []))

handle_data-once_example :
    handle_data tcp plain_aead expected_body two_bytes (run tcp plain_aead clock calls after_one)
    ≡ (raised wrong_counter, run tcp plain_aead clock calls after_one)
handle_data-once_example =
    handle_data-once tcp plain_aead clock expected_body two_bytes two_bytes used after_one
      (2, 7 ∷ 8 ∷ []) calls body_handled

handle_data-accepts_example :
    (plain nonce : Bytes) × (ts : ℕ) × (unpack 8 (slice 5 13 expected_body) ≡ ok 5)
    × (unpack 4 (slice 1 5 expected_body) ≡ ok ts)
    × (make_nonce (replicate 12 4) ts 5 ≡ ok nonce)
    × (plain_aead.decrypt_and_verify
          (replicate 32 2)
          nonce
          (take (length (drop 13 expected_body) - 16) (drop 13 expected_body))
          (drop (length (drop 13 expected_body) - 16) (drop 13 expected_body))
        ≡ some plain)
    × ((2, 7 ∷ 8 ∷ []) ≡ put_front two_bytes plain)
    × (after_one ≡ record used { recv_counter = 6; recv_buf = keep_rest two_bytes plain [] })
handle_data-accepts_example =
    handle_data-accepts tcp plain_aead expected_body two_bytes used after_one body_handled

channel-IsStream_example :
    IsStream (channel tcp plain_aead clock) (Carries (λ c todo. Live c [] todo) plain_aead)
channel-IsStream_example =
    channel-IsStream tcp (λ c todo. Live c [] todo) (tcp-IsDuplex.stream []) plain_aead
      plain_aead-AeadLaws clock

-- The nonce of the sixth message, and a cipher that takes it only, and one that takes every other.
abbrev sixth : Bytes
sixth = nonce_bytes (replicate 12 3) 1_700_000_005 5

abbrev at_sixth : Aead
at_sixth = record plain_aead {
  accepts = λ key nonce. if bytes_eq nonce sixth then plain_aead.accepts key nonce else false;
}

abbrev but_sixth : Aead
but_sixth = record plain_aead {
  accepts = λ key nonce. if bytes_eq nonce sixth then false else plain_aead.accepts key nonce;
}

at_sixth-SameAt : SameAt plain_aead at_sixth sixth
at_sixth-SameAt = record {
  same_accepts = λ key. rw (bytes_eq_refl sixth) refl;
  same_result = λ key plain. refl;
}

but_sixth-SameAt : (nonce : Bytes) → nonce ≢ sixth → SameAt plain_aead but_sixth nonce
but_sixth-SameAt nonce other = elim (Bool-cases (bytes_eq nonce sixth)) [
  | inl e ↦ absurd (other (bytes_eq→eq nonce sixth e))
  | inr e ↦ record { same_accepts = λ key. rw e refl; same_result = λ key plain. refl }
]

abbrev one_sent : SecureConn TcpConn
one_sent = run tcp plain_aead clock calls (write tcp plain_aead clock (8 ∷ []) used).1

nonce_fresh_example :
    (write tcp at_sixth clock (8 ∷ []) used ≡ write tcp plain_aead clock (8 ∷ []) used)
    × (write tcp but_sixth clock (9 ∷ []) one_sent ≡ write tcp plain_aead clock (9 ∷ []) one_sent)
nonce_fresh_example =
    nonce_fresh tcp plain_aead clock used (peer_sent []) (8 ∷ []) (9 ∷ []) sixth calls at_sixth
      but_sixth refl refl refl (omega arith)
      (make_nonce-ok (replicate 12 3) 1_700_000_005 5 refl (omega arith) (omega arith))
      at_sixth-SameAt but_sixth-SameAt
