-- ===== src/P2p/Envelope/Exchange.antt =====
-- Control messages of p2p/node.py over any connection that keeps the contract of a stream.
use uniconn.Prelude.{
  ℕ, zero, suc, ◌≤◌, ◌<◌, ◌≡◌, refl, sym, ap, ◌∙◌, subst, String, false, [], ◌∷◌, ◌++◌,
  append_assoc, append-nil, arith, length, drop, ◌==◌,
}
use uniconn.Outcome.{ok, raised}
use uniconn.Struct.{Bytes}
use uniconn.Conn.{Conn}
use uniconn.Conn.Stream.{IsStream, IsSink}
use uniconn.Json.{Json}
use uniconn.Json.Access.{JsonCodec, CodecLaws, NoNewline}
use uniconn.P2p.Envelope.{max_line, envelope, too_large, read_line, read_envelope, write_envelope}

tail : Bytes → Bytes
tail [] = []
tail (b ∷ bs) = bs

head : Bytes → ℕ
head [] = 0
head (b ∷ bs) = b

one-byte :
    (got rest todo : Bytes) (b : ℕ)
    → 0 < length got
    → length got ≤ 1
    → b ∷ todo ≡ got ++ rest
    → (got ≡ b ∷ []) × (rest ≡ todo)
one-byte [] rest todo b some_bytes fits e = absurd (omega arith)
one-byte (g ∷ []) rest todo b some_bytes fits e =
    unfold head tail in (ap (λ t. head t ∷ []) (sym e), ap tail (sym e))
one-byte (g ∷ k ∷ more) rest todo b some_bytes fits e = absurd (omega arith)

module _ {ℓ} {S : Type ℓ} (conn : Conn S) (s s' : S) (done : Bytes) (room last b : ℕ)
    (run : conn.read (last ∷ []) s ≡ (ok (1, b ∷ []), s')) where
  -- A round of the loop that reads another byte than a line feed.
  read_line-more :
      (b == 10) ≡ false
      → read_line conn (suc room) done (last ∷ []) s
        ≡ read_line conn room (done ++ (b ∷ [])) (b ∷ []) s'
  unfolding read_line
  read_line-more other = rw (run, other) refl

  read_line-end : b ≡ 10 → read_line conn (suc room) done (last ∷ []) s ≡ (ok done, s')
  unfolding read_line
  read_line-end e = rw (run, e) refl

-- A read of one byte from a stream that still has some.
module _ {ℓ κ} {S : Type ℓ} (conn : Conn S) (Holds : S → Bytes → Type κ)
    (stream : IsStream conn Holds) where
  pub read-one :
      (s : S) (last b : ℕ) (todo : Bytes)
      → Holds s (b ∷ todo)
      → (s' : S) × (conn.read (last ∷ []) s ≡ (ok (1, b ∷ []), s')) × Holds s' todo
  read-one s last b todo h =
      let d = stream.reads s (last ∷ []) (b ∷ todo) (omega arith) (omega arith) h in
      let (got_is, rest_is) = one-byte d.got d.rest todo b d.some_bytes d.fits d.splits in
      (
        d.after,
        d.runs ∙ ap (λ t. (ok (length t, t ++ drop (length t) (last ∷ [])), d.after)) got_is,
        subst (Holds d.after) rest_is d.holds,
      )

  -- The loop reads a line that fits, and the line feed behind it, and no further.
  read_line-IsStream :
      (line done more : Bytes) (room last : ℕ) (s : S)
      → NoNewline line
      → length line < room
      → Holds s (line ++ (10 ∷ more))
      → (s' : S) × (read_line conn room done (last ∷ []) s ≡ (ok (done ++ line), s'))
        × Holds s' more
  read_line-IsStream line done more zero last s clean fits h = absurd (omega arith)
  read_line-IsStream [] done more (suc room) last s clean fits h =
      let (s', run, h') = read-one s last 10 more h in
      (
        s',
        read_line-end conn s s' done room last 10 run refl
            ∙ ap (λ t. (ok t, s')) (sym (append-nil done)),
        h',
      )
  read_line-IsStream (b ∷ line) done more (suc room) last s clean fits h =
      let (s', run, h') = read-one s last b (line ++ (10 ∷ more)) h in
      let (s'', runs, h'') =
        read_line-IsStream line (done ++ (b ∷ [])) more room b s' clean.1 (omega arith) h' in
      (
        s'',
        read_line-more conn s s' done room last b run clean.0
            ∙ (runs ∙ ap (λ t. (ok t, s'')) (append_assoc done (b ∷ []) line)),
        h'',
      )

  -- A line that does not fit is refused once as many bytes are read as fit.
  read_line-too_large :
      (line done more : Bytes) (room last : ℕ) (s : S)
      → NoNewline line
      → length line ≡ room
      → Holds s (line ++ more)
      → (s' : S) × (read_line conn room done (last ∷ []) s ≡ (raised too_large, s')) × Holds s' more
  read_line-too_large [] done more zero last s clean fits h = unfold read_line in (s, refl, h)
  read_line-too_large [] done more (suc room) last s clean fits h = absurd (omega arith)
  read_line-too_large (b ∷ line) done more zero last s clean fits h = absurd (omega arith)
  read_line-too_large (b ∷ line) done more (suc room) last s clean fits h =
      let (s', run, h') = read-one s last b (line ++ more) h in
      let (s'', runs, h'') =
        read_line-too_large line (done ++ (b ∷ [])) more room b s' clean.1 (omega arith) h' in
      (s'', read_line-more conn s s' done room last b run clean.0 ∙ runs, h'')

  -- Over a stream, `read_envelope` reads the message that `write_envelope` wrote, if its line is
  -- shorter than 64 KiB, and leaves what follows it unread.
  pub read_envelope-IsStream :
      (codec : JsonCodec) (msg_type : String) (payload : Json) (more : Bytes) (s : S)
      → CodecLaws codec (envelope msg_type payload)
      → length (codec.dumps (envelope msg_type payload)) < max_line
      → Holds s (codec.dumps (envelope msg_type payload) ++ (10 ∷ more))
      → (s' : S) × (read_envelope conn codec s ≡ (ok (envelope msg_type payload), s'))
        × Holds s' more
  read_envelope-IsStream codec msg_type payload more s laws fits h =
      let v : Json = envelope msg_type payload in
      let (s', run, h') =
        read_line-IsStream (codec.dumps v) [] more max_line 0 s laws.one_line fits h in
      (s', unfold read_envelope in rw run (ap (λ t. (t, s')) laws.loads_dumps), h')

  -- Over a stream, `read_envelope` refuses a line of 64 KiB or more with a ValueError, having read
  -- 64 KiB of it and no more.
  pub read_envelope-too_large :
      (codec : JsonCodec) (line more : Bytes) (s : S)
      → NoNewline line
      → length line ≡ max_line
      → Holds s (line ++ more)
      → (s' : S) × (read_envelope conn codec s ≡ (raised too_large, s')) × Holds s' more
  read_envelope-too_large codec line more s clean size h =
      let (s', run, h') = read_line-too_large line [] more max_line 0 s clean size h in
      (s', unfold read_envelope in rw run refl, h')

-- Of a message whose line is shorter than 64 KiB: `write_envelope` writes it whole to a connection
-- that takes what is written, and at a stream on which it comes in, `read_envelope` reads it back and
-- leaves what follows it.
pub envelope_exchange {ℓ κ μ ν} :
    {S : Type ℓ} {R : Type κ} (conn : Conn S) (Sent : S → Bytes → Type μ) (conn' : Conn R)
    (Holds : R → Bytes → Type ν) (codec : JsonCodec) (msg_type : String) (payload : Json)
    (out more : Bytes) (s : S) (r : R)
    → IsSink conn Sent
    → IsStream conn' Holds
    → CodecLaws codec (envelope msg_type payload)
    → length (codec.dumps (envelope msg_type payload)) < max_line
    → Sent s out
    → Holds r (codec.dumps (envelope msg_type payload) ++ (10 ∷ more))
    → (s' : S) × (r' : R) × (write_envelope conn codec msg_type payload s
        ≡ (ok (length (codec.dumps (envelope msg_type payload) ++ (10 ∷ []))), s'))
      × Sent s' (out ++ (codec.dumps (envelope msg_type payload) ++ (10 ∷ [])))
      × (read_envelope conn' codec r ≡ (ok (envelope msg_type payload), r'))
      × Holds r' more
envelope_exchange conn Sent conn' Holds codec msg_type payload out more s r sink stream laws fits
      sent h =
    let w = sink.writes s (codec.dumps (envelope msg_type payload) ++ (10 ∷ [])) out sent in
    let (r', run, h') =
      read_envelope-IsStream conn' Holds stream codec msg_type payload more r laws fits h in
    (w.after, r', unfold write_envelope in w.runs, w.sent, run, h')
