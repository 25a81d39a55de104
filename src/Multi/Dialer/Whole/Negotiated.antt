-- ===== src/Multi/Dialer/Whole/Negotiated.antt =====
-- What a dialer of multi/__init__.py does with the answer that a listener of the same package gives.
use package.text.Mathlib.Text.{◌==◌ as str_eq}
use uniconn.Prelude.{
  ℕ, ◌≡◌, refl, sym, ap, ◌∙◌, String, Option, none, some, List, [], ◌∷◌, Bool-cases, Option-cases,
  ◌⊎◌, inl, inr,
}
use uniconn.Outcome.{Outcome, ok, raised, pending, Exn, is_cancelled}
use uniconn.Action.{Action}
use uniconn.Struct.{Bytes}
use uniconn.Json.{Json, string}
use uniconn.Json.Access.{JsonCodec, CodecLaws}
use uniconn.Multi.Dialer.{
  Protocol, ProtocolEntry, NegotiateResponse, get, server_map_onto, server_map, attempt, in_time,
  give_up, both, usable, try_all,
}
use uniconn.Multi.Dialer.Choice.{
  attempt-cases, try_skip, try_connect, try_vain, try_cancelled, Verdict, try_all-Verdict,
}
use uniconn.Multi.Dialer.Whole.{MultiDialerConfig, loose_map_onto, get_address, multi_dial}
use uniconn.Multi.Negotiate.{response_json, to_json}
use uniconn.Multi.Negotiate.RoundTrip.{all_loose, from_json-to_json}

-- The same texts as JSON values.
abbrev strings : List (String × String) → List (String × Json)
strings [] = []
strings ((k, v) ∷ m) = (k, string v) ∷ strings m

abbrev string_value : Option String → Option Json
string_value none = none
string_value (some s) = some (string s)

loose_map_onto-strings :
    (m : List (String × String)) (ps : List ProtocolEntry)
    → loose_map_onto (strings m) (all_loose ps) ≡ ok (strings (server_map_onto m ps))
unfolding loose_map_onto server_map_onto
loose_map_onto-strings m [] = refl
loose_map_onto-strings m (p ∷ ps) = loose_map_onto-strings ((p.name, p.address) ∷ m) ps

get_address-strings :
    (m : List (String × String)) (k : String) → get_address (strings m) k ≡ string_value (get m k)
unfolding get_address get
get_address-strings [] k = refl
get_address-strings ((j, v) ∷ m) k = elim (Bool-cases (str_eq j k)) [
  | inl e ↦ rw e refl
  | inr e ↦ rw e (get_address-strings m k)
]

module _ {ℓ κ} {D : Type ℓ} {C : Type 0} {E : Type κ} (dial : D → Json → Action E C)
    (dialers : List (Protocol × D)) (loose : Protocol → Option Json)
    (servers : Protocol → Option String)
    (same : (p : Protocol) → loose p ≡ string_value (servers p)) where
  abbrev dial_text : D → String → Action E C
  dial_text d address = dial d (string address)

  in_time-text : (r : Outcome C) → in_time dial r ≡ in_time dial_text r
  unfolding in_time
  in_time-text (ok c) = refl
  in_time-text (raised e) = refl
  in_time-text pending = refl

  attempt-text :
      (d : D) (address : String) (e : E)
      → attempt dial d (string address) e ≡ attempt dial_text d address e
  unfolding attempt
  attempt-text d address e =
      ap (λ t. (t, (dial d (string address) e).1)) (in_time-text (dial d (string address) e).0)

  neither :
      (p : Protocol) (a : Option String) (d : Option D)
      → both dial_text dialers p a d ≡ none
      → both dial dialers p (string_value a) d ≡ none
  unfolding both
  neither p none d h = refl
  neither p (some a) none h = refl
  neither p (some a) (some d) h = cc

  not_usable :
      (p : Protocol)
      → usable dial_text dialers servers p ≡ none
      → usable dial dialers loose p ≡ none
  unfolding usable
  not_usable p = rw (same p) (neither p (servers p) (get dialers p))

  both-text :
      (p : Protocol) (a : Option String) (d' : Option D) (d : D) (address : String)
      → both dial_text dialers p a d' ≡ some (d, address)
      → both dial dialers p (string_value a) d' ≡ some (d, string address)
  unfolding both
  both-text p none d' d address h = cc
  both-text p (some a) none d address h = cc
  both-text p (some a) (some d') d address h = cc

  usable-text :
      (p : Protocol) (d : D) (address : String)
      → usable dial_text dialers servers p ≡ some (d, address)
      → usable dial dialers loose p ≡ some (d, string address)
  unfolding usable
  usable-text p d address = rw (same p) (both-text p (servers p) (get dialers p) d address)

  module _ (p : Protocol) (ps : List Protocol) (last : Option Exn) (e : E)
      (rest : (last' : Option Exn) (e' : E)
        → try_all dial dialers loose ps last' e'
          ≡ try_all dial_text dialers servers ps last' e') where
    tried-text :
        (d : D) (address : String)
        → usable dial_text dialers servers p ≡ some (d, address)
        → ((c : C) × (e' : E) × (attempt dial_text d address e ≡ (ok c, e')))
          ⊎ ((x : Exn) × (e' : E) × (attempt dial_text d address e ≡ (raised x, e')))
        → try_all dial dialers loose (p ∷ ps) last e
          ≡ try_all dial_text dialers servers (p ∷ ps) last e
    tried-text d address h (inl (c, e', run)) =
        try_connect dial dialers loose p ps last e d (string address) c e'
          (usable-text p d address h) (attempt-text d address e ∙ run)
        ∙ sym (try_connect dial_text dialers servers p ps last e d address c e' h run)
    tried-text d address h (inr (x, e', run)) = elim (Bool-cases (is_cancelled x)) [
      | inl stops ↦
          try_cancelled dial dialers loose p ps last e d (string address) x e'
            (usable-text p d address h) (attempt-text d address e ∙ run) stops
          ∙ sym (try_cancelled dial_text dialers servers p ps last e d address x e' h run stops)
      | inr goes_on ↦
          try_vain dial dialers loose p ps last e d (string address) x e'
            (usable-text p d address h) (attempt-text d address e ∙ run) goes_on
          ∙ rest _ e'
          ∙ sym (try_vain dial_text dialers servers p ps last e d address x e' h run goes_on)
    ]

    one-text :
        try_all dial dialers loose (p ∷ ps) last e
        ≡ try_all dial_text dialers servers (p ∷ ps) last e
    one-text = elim (Option-cases (usable dial_text dialers servers p)) [
      | inl h ↦
          try_skip dial dialers loose p ps last e (not_usable p h)
          ∙ rest last e
          ∙ sym (try_skip dial_text dialers servers p ps last e h)
      | inr ((d, address), h) ↦
          tried-text d address h (attempt-cases dial_text dialers servers d address e)
    ]

  try_all-text :
      (ps : List Protocol) (last : Option Exn) (e : E)
      → try_all dial dialers loose ps last e ≡ try_all dial_text dialers servers ps last e
  unfolding try_all give_up
  try_all-text [] last e = refl
  try_all-text (p ∷ ps) last e = one-text p ps last e (try_all-text ps)

-- On a status of 200 and the answer that `to_json` writes for the response `neg`, which the json package
-- loads again as it was dumped, `dial` is the loop over the configured protocols with the addresses of
-- `neg`, the last of a name counting; so it ends with the first protocol that both sides have and whose
-- dialer, given the address that `neg` has, does not fail, or with the RuntimeError of the loop.
pub multi_dial-to_json {ℓ κ} :
    {D : Type ℓ} {C Float : Type 0} {E : Type κ} (codec : JsonCodec) (request : String → Action E ℕ)
    (read_text : Action E Bytes) (dial : Float → D → Json → Action E C)
    (config : MultiDialerConfig D Float) (neg : NegotiateResponse) (e e₁ e₂ : E)
    → CodecLaws codec (response_json neg)
    → request config.negotiate_url e ≡ (ok 200, e₁)
    → read_text e₁ ≡ (ok (to_json codec neg), e₂)
    → let dial_text : D → String → Action E C =
        λ d address. dial config.dial_timeout d (string address) in
      (multi_dial codec request read_text dial config e
        ≡ try_all dial_text config.dialers (get (server_map neg)) config.priority none e₂)
      × Verdict dial_text config.dialers (get (server_map neg)) config.priority none e₂
unfolding multi_dial server_map
multi_dial-to_json codec request read_text dial config neg e e₁ e₂ laws answers reads = (
  rw (answers, reads, from_json-to_json codec neg laws, loose_map_onto-strings [] neg.protocols)
      (try_all-text (dial config.dial_timeout) config.dialers
        (get_address (strings (server_map neg))) (get (server_map neg))
        (get_address-strings (server_map neg)) config.priority none e₂),
  try_all-Verdict _ config.dialers (get (server_map neg)) config.priority none e₂,
)
