-- ===== src/Tests/Negotiated.antt =====
-- A dialer that negotiates with a server of two protocols.
use uniconn.Prelude.{ℕ, zero, suc, ◌+◌, ◌≡◌, refl, none, String, [], ◌∷◌}
use uniconn.Outcome.{ok, raised, exn, connection_error, text}
use uniconn.Action.{Action}
use uniconn.Struct.{Bytes}
use uniconn.Json.{Json, string}
use uniconn.Json.Access.{JsonCodec}
use uniconn.Multi.Dialer.{get, server_map, try_all}
use uniconn.Multi.Dialer.Choice.{Verdict}
use uniconn.Multi.Dialer.Whole.{MultiDialerConfig, default_config, multi_dial}
use uniconn.Multi.Dialer.Whole.Negotiated.{multi_dial-to_json}
use uniconn.Multi.Negotiate.{response_json, to_json}
use uniconn.Tests.Queues.{answer, one_text, one_text-CodecLaws}

abbrev codec : JsonCodec
codec = one_text (response_json answer)

-- Each call is counted; only the first dialer connects.
abbrev request : String → Action ℕ ℕ
request url n = (ok 200, n + 1)

abbrev read_text : Action ℕ Bytes
read_text n = (ok (to_json codec answer), n + 1)

abbrev dial_first : ℕ → ℕ → Json → Action ℕ Json
dial_first timeout zero address n = (ok address, n + 1)
dial_first timeout (suc d) address n = (raised (exn connection_error (text "refused")), n + 1)

abbrev config : MultiDialerConfig ℕ ℕ
config = default_config 5 "http://h/negotiate" (("tcp", 0) ∷ ("kcp", 1) ∷ ("quic", 0) ∷ [])

abbrev dial_text : ℕ → String → Action ℕ Json
dial_text d address = dial_first 5 d (string address)

multi_dial-to_json_example :
    (multi_dial codec request read_text dial_first config 0
      ≡ try_all dial_text config.dialers (get (server_map answer)) config.priority none 2)
    × Verdict dial_text config.dialers (get (server_map answer)) config.priority none 2
unfolding default_config
multi_dial-to_json_example =
    multi_dial-to_json codec request read_text dial_first config answer 0 1 2 one_text-CodecLaws
      refl refl
