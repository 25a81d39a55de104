-- ===== src/Tests/Echoes.antt =====
-- An echo server on a connection on which bytes come in one by one.
use uniconn.Prelude.{◌<◌, ◌≡◌, refl, sym, subst, [], ◌∷◌, ◌++◌, length, drop, none, arith}
use uniconn.Outcome.{ok}
use uniconn.Struct.{Bytes}
use uniconn.Conn.{Conn}
use uniconn.Conn.Stream.{Delivers, Accepts, IsDuplex}
use uniconn.Tools.Echo.{echo_handler, wt_buffer_size}
use uniconn.Tools.Echo.Served.{ReadsEnd, echo_handler-echoes}

-- What was written, and what is to come.
abbrev Line : Type 0
Line = Bytes × Bytes

abbrev line : Conn Line
line = record {
  read = λ buf (out, todo). elim todo [
    | [] ↦ (ok (0, buf), (out, []))
    | b ∷ bs ↦ (ok (1, b ∷ drop 1 buf), (out, bs))
  ];
  write = λ m (out, todo). (ok (length m), (out ++ m, todo));
  close = λ s. (ok tt, s);
  local_addr = λ s. none;
  remote_addr = λ s. none;
}

abbrev Holding : Line → Bytes → Bytes → Type 0
Holding s out todo = s ≡ (out, todo)

line-reads :
    (out buf todo : Bytes)
    → 0 < length buf
    → 0 < length todo
    → Delivers line (λ s rest. Holding s out rest) (out, todo) buf todo
line-reads out buf [] some_room some_bytes = absurd (omega (arith, some_bytes))
line-reads out buf (b ∷ bs) some_room some_bytes = record {
  got = b ∷ [];
  rest = bs;
  after = (out, bs);
  runs = refl;
  some_bytes = omega arith;
  fits = omega (arith, some_room);
  splits = refl;
  holds = refl;
}

line-IsDuplex : IsDuplex line Holding
line-IsDuplex = record {
  stream = λ out. record {
    reads = λ s buf todo some_room some_bytes h.
        subst (λ t. Delivers line (λ s' rest. Holding s' out rest) t buf todo) (sym h)
          (line-reads out buf todo some_room some_bytes);
  };
  sink = λ todo. record {
    writes = λ s m out h.
        subst (λ t. Accepts line (λ s' out'. Holding s' out' todo) t m out) (sym h)
          (record { after = (out ++ m, todo); runs = refl; sent = refl });
  };
}

line-ReadsEnd : ReadsEnd line Holding
line-ReadsEnd s out buf h room =
    subst
      (λ t.
        (s' : Line) × (buf' : Bytes) × (line.read buf t ≡ (ok (0, buf'), s')) × Holding s' out [])
      (sym h) ((out, []), buf, refl, refl)

echo_handler-echoes_example :
    (s' : Line) × Holding s' (9 ∷ 1 ∷ 2 ∷ 3 ∷ []) []
    × (echo_handler line wt_buffer_size 4 (9 ∷ [], 1 ∷ 2 ∷ 3 ∷ []) ≡ line.close s')
echo_handler-echoes_example =
    echo_handler-echoes line Holding wt_buffer_size (9 ∷ [], 1 ∷ 2 ∷ 3 ∷ []) (9 ∷ [])
      (1 ∷ 2 ∷ 3 ∷ []) line-IsDuplex line-ReadsEnd (omega arith) refl
