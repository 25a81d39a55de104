-- ===== src/Address.antt =====
-- Addresses as text, `host:port`: what `rsplit` and `split` make of them in the dialers and listeners.
pub mod RoundTrip
use Prim.Native.Char.{code}
use uniconn.Prelude.{ℕ, String, Option, none, some, ◌==◌, if◌then◌else◌}

-- `address.rsplit(":", 1)`, if it has two parts: the split is at the last colon.
unfoldable pub rsplit_colon : String → Option (String × String)
rsplit_colon String.[] = none
rsplit_colon (String.◌∷◌ c s) = elim (rsplit_colon s) [
  | none ↦ if code c == b':' then some ("", s) else none
  | some (host, port) ↦ some (String.◌∷◌ c host, port)
]

after_colon : String → String → String
after_colon found String.[] = found
after_colon found (String.◌∷◌ c s) = after_colon (if code c == b':' then s else found) s

-- `address.split(":")[-1]`
unfoldable pub last_part : String → String
unfolding after_colon
last_part s = after_colon s s
