-- ===== src/Conn/Listening/Order.antt =====
-- The order in which the listeners' `accept` returns connections.
use uniconn.Prelude.{◌≡◌, refl, sym, ap, ◌∙◌, List, [], ◌∷◌, ◌++◌, append_assoc, append-nil}
use uniconn.Outcome.{Outcome, ok, raised, pending}
use uniconn.Conn.Listening.{Listener, Takes, IsListener}

-- What happens at a listener.
pub data Event {ℓ} (C : Type ℓ) : Type ℓ where
  connects : C → Event C
  accepts closes : Event C

module _ {ℓ} {C : Type ℓ} where
  abbrev pub given : Outcome C → List C
  given (ok c) = c ∷ []
  given (raised e) = []
  given pending = []

  -- The connections that come in.
  abbrev pub connected : List (Event C) → List C
  connected [] = []
  connected (connects c ∷ events) = c ∷ connected events
  connected (closes ∷ events) = connected events
  connected (accepts ∷ events) = connected events

module _ {ℓ κ} {S : Type ℓ} {C : Type κ} (l : Listener S C) (queue : S → List C)
    (arrives : C → S → S) where
  -- The connections that the calls of `accept` returned, in order, and the listener after the events.
  unfoldable pub run : List (Event C) → S → List C × S
  run [] s = ([], s)
  run (connects c ∷ events) s = run events (arrives c s)
  run (closes ∷ events) s = run events (l.close s).1
  run (accepts ∷ events) s =
      let (r, s') = l.accept s in let (cs, s'') = run events s' in (given r ++ cs, s'')

  module _ (laws : IsListener l queue arrives) where
    Takes-splits :
        (s : S) (cs : List C)
        → Takes l queue s cs
        → queue s ≡ cs
        → given (l.accept s).0 ++ queue (l.accept s).1 ≡ cs
    Takes-splits s [] waits is = ap (λ (r : Outcome C × S). given r.0 ++ queue r.1) waits ∙ is
    Takes-splits s (c ∷ others) (s', took, left) is =
        ap (λ (r : Outcome C × S). given r.0 ++ queue r.1) took ∙ ap (λ t. c ∷ t) left

    -- Over any sequence of connections, calls of `accept` and calls of `close`, at any listener that
    -- takes from a queue: what was returned, followed by what is still in the queue, is what was in
    -- the queue before, followed by the connections in the order in which they came. So none is
    -- lost, doubled or overtaken, also when the listener is closed.
    pub listener-in_order :
        (events : List (Event C)) (s : S)
        → (run events s).0 ++ queue (run events s).1 ≡ queue s ++ connected events
    unfolding run
    listener-in_order [] s = sym (append-nil (queue s))
    listener-in_order (connects c ∷ events) s =
        listener-in_order events (arrives c s)
        ∙ (ap (λ t. t ++ connected events) (laws.queues c s)
            ∙ append_assoc (queue s) (c ∷ []) (connected events))
    listener-in_order (closes ∷ events) s =
        listener-in_order events (l.close s).1 ∙ ap (λ t. t ++ connected events) (laws.closes s)
    listener-in_order (accepts ∷ events) s =
        append_assoc (given (l.accept s).0) (run events (l.accept s).1).0
          (queue (run events (l.accept s).1).1)
        ∙ (ap (λ t. given (l.accept s).0 ++ t) (listener-in_order events (l.accept s).1)
            ∙ (sym (append_assoc (given (l.accept s).0) (queue (l.accept s).1) (connected events))
                ∙ ap (λ t. t ++ connected events) (Takes-splits s (queue s) (laws.takes s) refl)))
