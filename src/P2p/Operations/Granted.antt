-- ===== src/P2p/Operations/Granted.antt =====
-- What the checks on a relay's answer, in `dial_peer` of p2p/node.py, let through.
use uniconn.Prelude.{◌≡◌, refl, Bool, true, false, not}
use uniconn.Outcome.{ok, Exn, both_returned, reject}
use uniconn.Json.{Json, truth, string, truthy}
use uniconn.Json.Access.{subscript, get_or, equals_string}
use uniconn.Secure.Handshake.Authentication.{}
use uniconn.P2p.Envelope.{relay_ack}
use uniconn.P2p.Operations.{check_ack}

reject-passed : (b : Bool) (e : Exn) → reject b e ≡ ok tt → b ≡ false
reject-passed true e h = cc
reject-passed false e h = refl

not-false : (b : Bool) → not b ≡ false → b ≡ true
not-false true h = refl
not-false false h = cc

-- A RELAY_ACK that reports success.
pub record IsGranted (ack : Json) : Type 0 where
  pub msg_type : Json
  pub payload : Json
  pub success : Json
  pub typed : subscript "type" ack ≡ ok msg_type
  pub is_ack : equals_string relay_ack msg_type ≡ true
  pub carries : subscript "payload" ack ≡ ok payload
  pub reports : get_or "success" (truth false) payload ≡ ok success
  pub granted : truthy success ≡ true

pub check_ack-IsGranted : (ack : Json) → check_ack ack ≡ ok tt → IsGranted ack
unfolding check_ack
check_ack-IsGranted ack h =
    let (msg_type, typed, h₁) = both_returned (subscript "type" ack) _ h in
    let (_, is_ack, h₂) = both_returned (reject (not (equals_string relay_ack msg_type)) _) _ h₁ in
    let (payload, carries, h₃) = both_returned (subscript "payload" ack) _ h₂ in
    let (success, reports, h₄) = both_returned (get_or "success" (truth false) payload) _ h₃ in
    let (reason, _, granted) = both_returned (get_or "reason" (string "unknown") payload) _ h₄ in
    record {
      msg_type = msg_type;
      payload = payload;
      success = success;
      typed = typed;
      is_ack = not-false _ (reject-passed _ _ is_ack);
      carries = carries;
      reports = reports;
      granted = not-false _ (reject-passed _ _ granted);
    }
