-- ===== src/Multi/Dialer/Whole.antt =====
-- `MultiDialer.dial` of uniconn-py/uniconn/multi/__init__.py from the HTTP request on. Python does not
-- check the types of what is in the answer: a name or an address can be any JSON value.
pub mod Negotiated
use uniconn.Prelude.{ℕ, String, Bool, true, false, Option, none, some, List, [], ◌∷◌, ◌==◌, not}
use uniconn.Outcome.{Outcome, ok, raised, Exn, exn, runtime_error, type_error, text, text_number}
use uniconn.Action.{Action, lift, reject, ◌>>=◌, ◌>>◌}
use uniconn.Struct.{Bytes}
use uniconn.Json.{Json, null, string, array, object}
use uniconn.Json.Access.{JsonCodec}
use uniconn.Multi.Dialer.{Protocol, get, try_all, default_priority}
use uniconn.Multi.Negotiate.{LooseEntry, from_json}

-- `MultiDialerConfig`. The type of the time limit is that of Python's floats.
pub record MultiDialerConfig {ℓ} (D : Type ℓ) (Float : Type 0) : Type ℓ where
  pub negotiate_url : String
  pub dialers : List (Protocol × D)
  pub priority : List Protocol
  pub dial_timeout : Float

-- `MultiDialerConfig(negotiate_url, dialers)`
unfoldable pub default_config {ℓ} :
    {D : Type ℓ} {Float : Type 0} → Float → String → List (Protocol × D) → MultiDialerConfig D Float
default_config default_dial_timeout url dialers = record {
  negotiate_url = url;
  dialers = dialers;
  priority = default_priority;
  dial_timeout = default_dial_timeout;
}

-- `{p.name: p.address for p in neg.protocols}`, without the keys that are not strings, for which nobody
-- asks. A list or a `dict` is not a key.
unfoldable pub loose_map_onto :
    List (String × Json) → List LooseEntry → Outcome (List (String × Json))
loose_map_onto m [] = ok m
loose_map_onto m (p ∷ ps) = elim p.name [
  | string name ↦ loose_map_onto ((name, p.address) ∷ m) ps
  | array items ↦ raised (exn type_error (text "unhashable type: 'list'"))
  | object entries ↦ raised (exn type_error (text "unhashable type: 'dict'"))
  | _ ↦ loose_map_onto m ps
]

abbrev pub not_null : Option Json → Option Json
not_null (some null) = none
not_null address = address

-- `server_map.get(proto)`, where `None` in the `dict` is as good as no entry.
unfoldable pub get_address : List (String × Json) → Protocol → Option Json
get_address m proto = not_null (get m proto)

-- `request url` gets the status of the answer, `read_text` its body; `dial timeout d address` is
-- `d.dial(address)` and stops waiting after the time limit.
module _ {ℓ κ} {D : Type ℓ} {C Float : Type 0} {E : Type κ} (codec : JsonCodec)
    (request : String → Action E ℕ) (read_text : Action E Bytes)
    (dial : Float → D → Json → Action E C) where
  unfoldable pub multi_dial : MultiDialerConfig D Float → Action E (C × Protocol)
  multi_dial config = do
    status ← request config.negotiate_url
    reject (not (status == 200)) (exn runtime_error (text_number "negotiate: HTTP" status))
    body ← read_text
    neg ← lift (from_json codec body)
    servers ← lift (loose_map_onto [] neg.protocols)
    try_all (dial config.dial_timeout) config.dialers (get_address servers) config.priority none
