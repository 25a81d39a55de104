-- ===== src/Multi/Dialer.antt =====
-- `MultiDialer.dial` of uniconn-py/uniconn/multi/__init__.py, behind the HTTP request: the choice of
-- a protocol. A `dict` is an association list in which the first entry of a key counts.
pub mod Choice
pub mod Whole
use package.text.Mathlib.Text.{◌==◌ as str_eq}
use uniconn.Prelude.{
  ℕ, String, Bool, true, false, Option, none, some, List, [], ◌∷◌, ◌==◌, not, if◌then◌else◌,
}
use uniconn.Outcome.{
  Outcome, ok, raised, pending, Exn, exn, runtime_error, timeout_error, text, caused, is_cancelled,
}
use uniconn.Action.{Action, raise, lift, reject, ◌>>=◌, ◌>>◌}

-- The name of a protocol: any text can come from the server.
abbrev pub Protocol : Type 0
Protocol = String

pub record ProtocolEntry : Type 0 where
  pub name : Protocol
  pub address : String

pub record NegotiateResponse : Type 0 where
  pub protocols : List ProtocolEntry
  pub fingerprint : Option String

abbrev pub default_priority : List Protocol
default_priority = "webtransport" ∷ "quic" ∷ "websocket" ∷ "kcp" ∷ "tcp" ∷ []

unfoldable pub get {ℓ} : {V : Type ℓ} → List (String × V) → String → Option V
get [] k = none
get ((j, v) ∷ m) k = if str_eq j k then some v else get m k

-- `{p.name: p.address for p in neg.protocols}`: a later entry of a name replaces an earlier one.
unfoldable pub server_map_onto :
    List (String × String) → List ProtocolEntry → List (String × String)
server_map_onto m [] = m
server_map_onto m (p ∷ ps) = server_map_onto ((p.name, p.address) ∷ m) ps

unfoldable pub server_map : NegotiateResponse → List (String × String)
unfolding server_map_onto
server_map neg = server_map_onto [] neg.protocols

-- `D` is the type of the dialers, `C` of connections, `Address` of addresses, and `E` the state of the
-- world that dialling changes; `dial d address` is `d.dial(address)`.
module _ {ℓ κ} {D : Type ℓ} {C Address : Type 0} {E : Type κ}
    (dial : D → Address → Action E C) where
  -- `asyncio.wait_for(dialer.dial(address), timeout=...)`: what does not end in time is a TimeoutError.
  in_time : Outcome C → Outcome C
  in_time (ok c) = ok c
  in_time (raised e) = raised e
  in_time pending = raised (exn timeout_error (text ""))

  unfoldable pub attempt : D → Address → Action E C
  unfolding in_time
  attempt d address e = let (r, e') = dial d address e in (in_time r, e')

  module _ (dialers : List (Protocol × D)) where
    -- The dialer and the address of a protocol that both sides have.
    unfoldable pub both : Protocol → Option Address → Option D → Option (D × Address)
    both proto none d = none
    both proto (some address) none = none
    both proto (some address) (some d) = some (d, address)

    -- `servers` is `server_map.get`.
    unfoldable pub usable : (Protocol → Option Address) → Protocol → Option (D × Address)
    unfolding both
    usable servers proto = both proto (servers proto) (get dialers proto)

    -- `last_error` at the end of the loop.
    unfoldable pub give_up : Option Exn → Exn
    give_up none = exn runtime_error (text "no compatible protocol found")
    give_up (some e) = exn runtime_error (caused "all protocols failed, last" "" e)

    -- The loop `for proto in self._config.priority`; CancelledError goes through its `except Exception`.
    unfoldable pub try_all :
        (Protocol → Option Address) → List Protocol → Option Exn → Action E (C × Protocol)
    try_all servers [] last e = (raised (give_up last), e)
    try_all servers (proto ∷ ps) last e = elim (usable servers proto) [
      | none ↦ try_all servers ps last e
      | some (d, address) ↦ elim (attempt d address e).0 [
        | ok c ↦ (ok (c, proto), (attempt d address e).1)
        | raised x ↦ elim (is_cancelled x) [
          | true ↦ (raised x, (attempt d address e).1)
          | false ↦
              try_all servers ps (some (exn runtime_error (caused "" proto x)))
                (attempt d address e).1
        ]
        | pending ↦ (pending, (attempt d address e).1)
      ]
    ]
