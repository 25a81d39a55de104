-- ===== src/Multi/Negotiate/RoundTrip.antt =====
-- `to_json` and `from_json` of a negotiate response, one behind the other.
use uniconn.Prelude.{◌≡◌, refl, String, Option, none, some, List, [], ◌∷◌}
use uniconn.Outcome.{ok}
use uniconn.Json.{Json, null, string, lookup}
use uniconn.Json.Access.{JsonCodec, CodecLaws, subscript, get_or}
use uniconn.Multi.Dialer.{ProtocolEntry, NegotiateResponse}
use uniconn.Multi.Negotiate.{
  LooseEntry, entries_json, fingerprint_json, response_json, to_json, loose_entry, loose_entries,
  iterate_entries, from_json,
}

-- The values of an entry.
abbrev pub loose : ProtocolEntry → LooseEntry
loose p = record { name = string p.name; address = string p.address }

abbrev pub all_loose : List ProtocolEntry → List LooseEntry
all_loose [] = []
all_loose (p ∷ ps) = loose p ∷ all_loose ps

abbrev pub fingerprint_value : Option String → Json
fingerprint_value none = null
fingerprint_value (some fp) = string fp

loose_entries-json : (ps : List ProtocolEntry) → loose_entries (entries_json ps) ≡ ok (all_loose ps)
unfolding loose_entries loose_entry entries_json subscript lookup
loose_entries-json [] = refl
loose_entries-json (p ∷ ps) = rw (loose_entries-json ps) refl

parts :
    (codec : JsonCodec) (ps : List ProtocolEntry) (fp : Option String)
    → CodecLaws codec (response_json (record { protocols = ps; fingerprint = fp }))
    → from_json codec (to_json codec (record { protocols = ps; fingerprint = fp }))
      ≡ ok (record { protocols = all_loose ps; fingerprint = fingerprint_value fp })
unfolding from_json to_json response_json iterate_entries get_or lookup fingerprint_json
parts codec ps none laws = rw (laws.loads_dumps, loose_entries-json ps) refl
parts codec ps (some fp) laws = rw (laws.loads_dumps, loose_entries-json ps) refl

-- What `to_json` writes, `from_json` reads: the same names and addresses, in order, as strings, and
-- the fingerprint, or `None` if there is none.
pub from_json-to_json :
    (codec : JsonCodec) (neg : NegotiateResponse)
    → CodecLaws codec (response_json neg)
    → from_json codec (to_json codec neg)
      ≡ ok (record {
        protocols = all_loose neg.protocols;
        fingerprint = fingerprint_value neg.fingerprint;
      })
from_json-to_json codec neg laws = parts codec neg.protocols neg.fingerprint laws
