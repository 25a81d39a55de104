-- ===== src/Multi/Negotiate.antt =====
-- `NegotiateResponse.to_json` and `from_json` of uniconn-py/uniconn/multi/__init__.py. Python does not
-- check the types of the fields, so that what `from_json` makes has JSON values in them.
pub mod RoundTrip
use uniconn.Prelude.{String, Option, none, some, List, [], ◌∷◌}
use uniconn.Outcome.{Outcome, ok, raised, exn, type_error, text, ◌>>=◌}
use uniconn.Struct.{Bytes}
use uniconn.Json.{
  Json, null, truth, zero_number, number, string, array, object, Items, no_items, item, Fields,
  no_fields, entry,
}
use uniconn.Json.Access.{JsonCodec, subscript, get_or}
use uniconn.Multi.Dialer.{ProtocolEntry, NegotiateResponse}

-- `[{"name": p.name, "address": p.address} for p in self.protocols]`
unfoldable pub entries_json : List ProtocolEntry → Items
entries_json [] = no_items
entries_json (p ∷ ps) =
    item (object (entry "name" (string p.name) (entry "address" (string p.address) no_fields)))
      (entries_json ps)

-- `if self.fingerprint is not None: d["fingerprint"] = self.fingerprint`
unfoldable pub fingerprint_json : Option String → Fields
fingerprint_json none = no_fields
fingerprint_json (some fp) = entry "fingerprint" (string fp) no_fields

-- `d`
unfoldable pub response_json : NegotiateResponse → Json
unfolding entries_json fingerprint_json
response_json neg =
    object
      (entry "protocols" (array (entries_json neg.protocols)) (fingerprint_json neg.fingerprint))

unfoldable pub to_json : JsonCodec → NegotiateResponse → Bytes
to_json codec neg = codec.dumps (response_json neg)

pub record LooseEntry : Type 0 where
  pub name : Json
  pub address : Json

pub record LooseResponse : Type 0 where
  pub protocols : List LooseEntry
  pub fingerprint : Json

-- `ProtocolEntry(name=p["name"], address=p["address"])`
unfoldable pub loose_entry : Json → Outcome LooseEntry
loose_entry p = do
  name ← subscript "name" p
  address ← subscript "address" p
  ok (record { name = name; address = address })

unfoldable pub loose_entries : Items → Outcome (List LooseEntry)
loose_entries no_items = ok []
loose_entries (item p items) = do
  first ← loose_entry p
  others ← loose_entries items
  ok (first ∷ others)

-- The comprehension over `obj.get("protocols", [])`. Iterating over a string or a `dict` gives strings,
-- which a string cannot subscript; no other value but a list can be iterated over.
unfoldable pub iterate_entries : Json → Outcome (List LooseEntry)
iterate_entries (array items) = loose_entries items
iterate_entries (string String.[]) = ok []
iterate_entries (object no_fields) = ok []
iterate_entries (string s) = raised (exn type_error (text "string indices must be integers"))
iterate_entries (object others) = raised (exn type_error (text "string indices must be integers"))
iterate_entries v = raised (exn type_error (text "not iterable"))

unfoldable pub from_json : JsonCodec → Bytes → Outcome LooseResponse
from_json codec content = do
  obj ← codec.loads content
  listed ← get_or "protocols" (array no_items) obj
  protocols ← iterate_entries listed
  fingerprint ← get_or "fingerprint" null obj
  ok (record { protocols = protocols; fingerprint = fingerprint })
