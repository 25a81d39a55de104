-- ===== src/Tests/Handlers.antt =====
-- A handler of p2p/node.py during which the session is stopped.
use uniconn.Prelude.{
  ℕ, suc, ◌≡◌, refl, sym, ap, ◌∙◌, subst, ◌<◌, List, length, drop, String, none, some, [], ◌∷◌,
  arith,
}
use uniconn.Outcome.{ok, raised, Exn, exn, connection_error, text}
use uniconn.Action.{Action}
use uniconn.Json.{Json, string, object, entry, no_fields}
use uniconn.Struct.{Bytes}
use uniconn.Conn.{Conn}
use uniconn.Conn.Stream.{Delivers, IsStream}
use uniconn.Json.Access.{JsonCodec, CodecLaws}
use uniconn.P2p.Envelope.{envelope, incoming_relay, closed_by_peer, read_line, read_envelope}
use uniconn.P2p.Control.{control_lost_error, read_control_loop}
use uniconn.P2p.Control.Dispatch.{Envelope, lines, requests, read_control_loop-requests}
use uniconn.P2p.Session.{Session, new_session, setup_starts, stop_begins}
use uniconn.P2p.Session.Life.{here, later, stops}
use uniconn.P2p.Session.Life.Ownership.{opened}
use uniconn.P2p.Handlers.{timely, dial_peer}
use uniconn.P2p.Handlers.Steps.{IsWorld, dialled}
use uniconn.P2p.Handlers.Settled.{IsSettled, dial_peer-IsSettled}
use uniconn.Tests.Sessions.{relay_fp}

abbrev lost : Exn
lost = exn connection_error (text "lost")

-- The connections are numbered; during the operation the relay is lost, or not.
abbrev counting : String → Action (Session × ℕ) ℕ
counting addr (s, n) = (ok n, (s, suc n))

abbrev losing : ℕ → Action (Session × ℕ) String
losing raw (s, n) = (ok "peer", (stop_begins lost s, n))

-- And it is lost once more, when the peer is connected.
abbrev losing_late : Session × ℕ → Session × ℕ
losing_late (s, n) = (stop_begins lost s, n)

losing-IsWorld : IsWorld (λ n. n) counting losing_late losing
losing-IsWorld = record {
  dialling = λ l addr n new. record {
    after = l;
    reach = here;
    session_is = refl;
    fresh_is = λ k above. new k (omega (arith, above));
    holds = (new n (omega arith), omega arith);
  };
  operating = λ l raw n new open_one. record {
    after = record l { session = stop_begins lost l.session };
    reach = later here (stops lost refl);
    session_is = refl;
    fresh_is = new;
    holds = open_one;
  };
  resuming = λ l n new. record {
    after = record l { session = stop_begins lost l.session };
    reach = later here (stops lost refl);
    session_is = refl;
    fresh_is = new;
    holds = λ raw done. refl;
  };
}

what_was_dialled : dialled counting (new_session "relay:1" relay_fp) 5 ≡ ok 5
unfolding new_session setup_starts
what_was_dialled = refl

dial_peer-IsSettled_example :
    IsSettled timely
      (dialled counting (new_session "relay:1" relay_fp) 5)
      (dial_peer counting losing_late losing timely (new_session "relay:1" relay_fp, 5)).0
      (dial_peer counting losing_late losing timely (new_session "relay:1" relay_fp, 5)).1.0
dial_peer-IsSettled_example =
    dial_peer-IsSettled (λ n. n) counting losing_late losing timely "relay:1" relay_fp
      (opened "relay:1" relay_fp) 5 losing-IsWorld here (λ k above. refl)

-- A connection on which bytes come in one by one, until it ends.
abbrev one_by_one : Conn Bytes
one_by_one = record {
  read = λ buf s. elim s [ [] ↦ (ok (0, buf), []) | b ∷ bs ↦ (ok (1, b ∷ drop 1 buf), bs) ];
  write = λ m s. (ok (length m), s);
  close = λ s. (ok tt, s);
  local_addr = λ s. none;
  remote_addr = λ s. none;
}

one_by_one-reads :
    (buf todo : Bytes)
    → 0 < length todo
    → 0 < length buf
    → Delivers one_by_one (λ s rest. s ≡ rest) todo buf todo
one_by_one-reads buf [] some_bytes some_room = absurd (omega (arith, some_bytes))
one_by_one-reads buf (b ∷ bs) some_bytes some_room = record {
  got = b ∷ [];
  rest = bs;
  after = bs;
  runs = refl;
  some_bytes = omega arith;
  fits = omega (arith, some_room);
  splits = refl;
  holds = refl;
}

one_by_one-IsStream : IsStream one_by_one (λ s rest. s ≡ rest)
one_by_one-IsStream = record {
  reads = λ s buf todo some_room some_bytes h.
      subst (λ t. Delivers one_by_one (λ s rest. s ≡ rest) t buf todo) (sym h)
        (one_by_one-reads buf todo some_bytes some_room);
}

abbrev request : Json
request = object (entry "session_token" (string "t") no_fields)

abbrev one_request : JsonCodec
one_request = record {
  loads = λ line. ok (envelope incoming_relay request);
  dumps = λ v. 123 ∷ 125 ∷ [];
}

abbrev two_requests : List Envelope
two_requests = (incoming_relay, request) ∷ (incoming_relay, request) ∷ []

one_request-CodecLaws : CodecLaws one_request (envelope incoming_relay request)
one_request-CodecLaws = record { loads_dumps = refl; one_line = (refl, (refl, tt)) }

nothing_left : read_envelope one_by_one one_request [] ≡ (raised closed_by_peer, [])
unfolding read_envelope read_line
nothing_left = refl

ended :
    (t : Bytes)
    → t ≡ []
    → (t' : Bytes) × (read_envelope one_by_one one_request t ≡ (raised closed_by_peer, t'))
ended t h = ([], ap (read_envelope one_by_one one_request) h ∙ nothing_left)

read_control_loop-requests_example :
    (s' : Bytes) × (read_control_loop one_by_one one_request 3 ([], lines one_request two_requests)
      ≡ (some (control_lost_error closed_by_peer), (requests two_requests, s')))
read_control_loop-requests_example =
    read_control_loop-requests one_by_one (λ s rest. s ≡ rest) one_request two_requests
      (lines one_request two_requests) closed_by_peer one_by_one-IsStream
      (one_request-CodecLaws, omega arith, (one_request-CodecLaws, omega arith, tt)) refl ended refl
