-- ===== src/Conn/Serve.antt =====
-- One read of an adapter that serves the front of some bytes and keeps the others.
use uniconn.Prelude.{◌<◌, ◌≡◌, sym, ap, ◌∙◌, ◌++◌, append_assoc, arith, length}
use uniconn.Outcome.{ok}
use uniconn.Struct.{Bytes}
use uniconn.Conn.{Conn}
use uniconn.Conn.Buffer.{
  put_front, left_over, delivered, length-delivered, put_front-delivered, delivered-left_over,
}
use uniconn.Conn.Stream.{Delivers}

module _ {ℓ κ} {S : Type ℓ} (conn : Conn S) (Holds : S → Bytes → Type κ) where
  pub serve-Delivers :
      (s after : S) (buf have more todo : Bytes)
      → 0 < length buf
      → 0 < length have
      → conn.read buf s ≡ (ok (put_front buf have), after)
      → todo ≡ have ++ more
      → Holds after (left_over buf have ++ more)
      → Delivers conn Holds s buf todo
  serve-Delivers s after buf have more todo room some_bytes runs todo_is holds = record {
    got = delivered buf have;
    rest = left_over buf have ++ more;
    after = after;
    runs = runs ∙ ap (λ t. (ok t, after)) (put_front-delivered buf have);
    some_bytes = omega (arith, length-delivered buf have);
    fits = omega (arith, length-delivered buf have);
    splits =
        todo_is
        ∙ (ap (λ t. t ++ more) (sym (delivered-left_over buf have))
            ∙ append_assoc (delivered buf have) (left_over buf have) more);
    holds = holds;
  }
