-- ===== src/P2p/Control/Dispatch.antt =====
-- Which tasks the messages on the control connection of p2p/node.py start.
use package.text.Mathlib.Text.{◌==◌ as str_eq}
use uniconn.Prelude.{
  suc, ◌<◌, ◌≡◌, refl, ap, ◌∙◌, String, false, Option, none, some, List, [], ◌∷◌, ◌++◌,
  append_assoc, length, if◌then◌else◌, Bool-cases, inl, inr,
}
use uniconn.Outcome.{ok, raised, Exn}
use uniconn.Struct.{Bytes}
use uniconn.Conn.{Conn}
use uniconn.Conn.Stream.{IsStream}
use uniconn.Json.{Json, lookup}
use uniconn.Json.Access.{JsonCodec, CodecLaws, subscript, equals_string}
use uniconn.P2p.Envelope.{max_line, envelope, incoming_relay, read_envelope}
use uniconn.P2p.Envelope.Exchange.{read_envelope-IsStream}
use uniconn.P2p.Operations.{incoming_payload}
use uniconn.Outcome.{is_cancelled}
use uniconn.P2p.Control.{started, control_lost_error, control_loop, read_control_loop}

abbrev pub Envelope : Type 0
Envelope = String × Json

-- The messages as they come in, each on its line.
abbrev pub lines : JsonCodec → List Envelope → Bytes
lines codec [] = []
lines codec ((t, payload) ∷ messages) =
    codec.dumps (envelope t payload) ++ (10 ∷ lines codec messages)

-- Each message can be read.
abbrev pub AreReadable : JsonCodec → List Envelope → Type 0
AreReadable codec [] = Unit
AreReadable codec ((t, payload) ∷ messages) =
    CodecLaws codec (envelope t payload)
    × (length (codec.dumps (envelope t payload)) < max_line)
    × AreReadable codec messages

-- The payloads of the INCOMING_RELAY messages.
abbrev pub requests : List Envelope → List Json
requests [] = []
requests ((t, payload) ∷ messages) =
    (if str_eq t incoming_relay then payload ∷ [] else []) ++ requests messages

abbrev pub request_of : String → Json → Option Json
request_of t payload = if str_eq t incoming_relay then some payload else none

incoming_payload-envelope :
    (t : String) (payload : Json)
    → incoming_payload (envelope t payload) ≡ ok (request_of t payload)
unfolding incoming_payload envelope subscript lookup equals_string
incoming_payload-envelope t payload = elim (Bool-cases (str_eq t incoming_relay)) [
  | inl e ↦ rw e refl
  | inr e ↦ rw e refl
]

started-request :
    (t : String) (payload : Json)
    → started (ok (request_of t payload)) ≡ (if str_eq t incoming_relay then payload ∷ [] else [])
started-request t payload = elim (Bool-cases (str_eq t incoming_relay)) [
  | inl e ↦ rw e refl
  | inr e ↦ rw e refl
]

module _ {ℓ κ} {S : Type ℓ} (conn : Conn S) (Holds : S → Bytes → Type κ)
    (stream : IsStream conn Holds) (codec : JsonCodec) where
  control_loop-tasks :
      (messages : List Envelope) (tasks : List Json) (s : S) (e : Exn)
      → AreReadable codec messages
      → Holds s (lines codec messages)
      → ((t : S) → Holds t [] → (t' : S) × (read_envelope conn codec t ≡ (raised e, t')))
      → (s' : S) × (control_loop conn codec (suc (length messages)) (tasks, s)
          ≡ (raised e, (tasks ++ requests messages, s')))
  unfolding control_loop
  control_loop-tasks [] tasks s e readable h at_end =
      let (s', ends) = at_end s h in (s', rw ends refl)
  control_loop-tasks ((t, payload) ∷ messages) tasks s e (laws, short, readable) h at_end =
      let (s₁, run, h₁) =
        read_envelope-IsStream conn Holds stream codec t payload (lines codec messages) s laws short
          h in
      let (s', runs) =
        control_loop-tasks messages (tasks ++ started (ok (request_of t payload))) s₁ e readable h₁
          at_end in
      (
        s',
        rw (run, incoming_payload-envelope t payload)
            (runs
              ∙ ap (λ l. (raised e, (l, s')))
                  (append_assoc tasks _ (requests messages)
                    ∙ ap (λ l. tasks ++ (l ++ requests messages)) (started-request t payload))),
      )

-- Over a stream of readable messages, behind which a read raises an exception other than
-- CancelledError, the loop ends after one round more than there are messages. It has started a task
-- for each INCOMING_RELAY message, with its payload, in order, and for no other message; and the
-- session is stopped for the loss of the control connection.
pub read_control_loop-requests {ℓ κ} :
    {S : Type ℓ} (conn : Conn S) (Holds : S → Bytes → Type κ) (codec : JsonCodec)
    (messages : List Envelope) (s : S) (e : Exn)
    → IsStream conn Holds
    → AreReadable codec messages
    → Holds s (lines codec messages)
    → ((t : S) → Holds t [] → (t' : S) × (read_envelope conn codec t ≡ (raised e, t')))
    → is_cancelled e ≡ false
    → (s' : S) × (read_control_loop conn codec (suc (length messages)) ([], s)
        ≡ (some (control_lost_error e), (requests messages, s')))
unfolding read_control_loop
read_control_loop-requests conn Holds codec messages s e stream readable h at_end kept =
    let (s', runs) = control_loop-tasks conn Holds stream codec messages [] s e readable h at_end in
    (s', rw (runs, kept) refl)
