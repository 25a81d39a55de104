-- ===== src/Conn/Stream.antt =====
-- What a reader of a connection relies on, and what an adapter is to provide: while bytes
-- are still to come, a read into a non-empty buffer puts the next of them, at least one, at its front.
use uniconn.Prelude.{◌≤◌, ◌<◌, ◌≡◌, ◌++◌, length, drop}
use uniconn.Outcome.{ok}
use uniconn.Struct.{Bytes}
use uniconn.Conn.{Conn}

-- One read of `buf` at `s` delivers `d`, and `rest` is to come.
pub record Delivers {ℓ κ} {S : Type ℓ} (c : Conn S) (Holds : S → Bytes → Type κ) (s : S)
    (buf todo : Bytes) : Type (ℓ ⊔ κ) where
  pub got : Bytes
  pub rest : Bytes
  pub after : S
  pub runs : c.read buf s ≡ (ok (length got, got ++ drop (length got) buf), after)
  pub some_bytes : 0 < length got
  pub fits : length got ≤ length buf
  pub splits : todo ≡ got ++ rest
  pub holds : Holds after rest

-- `Holds s todo`: the bytes `todo` can be read at `s`.
pub record IsStream {ℓ κ} {S : Type ℓ} (c : Conn S) (Holds : S → Bytes → Type κ)
    : Type (ℓ ⊔ κ) where
  pub reads :
      (s : S) (buf todo : Bytes)
      → 0 < length buf
      → 0 < length todo
      → Holds s todo
      → Delivers c Holds s buf todo

-- One write of `message` at `s` is accepted whole.
pub record Accepts {ℓ κ} {S : Type ℓ} (c : Conn S) (Sent : S → Bytes → Type κ) (s : S)
    (message out : Bytes) : Type (ℓ ⊔ κ) where
  pub after : S
  pub runs : c.write message s ≡ (ok (length message), after)
  pub sent : Sent after (out ++ message)

-- `Sent s out`: the connection can be written to, and `out` is what was written so far.
pub record IsSink {ℓ κ} {S : Type ℓ} (c : Conn S) (Sent : S → Bytes → Type κ) : Type (ℓ ⊔ κ) where
  pub writes : (s : S) (message out : Bytes) → Sent s out → Accepts c Sent s message out

-- `Live s out todo`: at `s`, `out` was written and `todo` can be read. Reading leaves what was
-- written alone, and writing what is to come.
pub record IsDuplex {ℓ κ} {S : Type ℓ} (c : Conn S) (Live : S → Bytes → Bytes → Type κ)
    : Type (ℓ ⊔ κ) where
  pub stream : (out : Bytes) → IsStream c (λ s todo. Live s out todo)
  pub sink : (todo : Bytes) → IsSink c (λ s out. Live s out todo)
