-- ===== src/Multi/Listener/Balance.antt =====
-- The accounts of a `MultiListener`'s connections, event by event.
use uniconn.Prelude.{
  ℕ, ◌+◌, ◌==◌, ◌≡◌, refl, sym, ap, ◌∙◌, Bool, true, false, Option, none, some, List, [], ◌∷◌, ◌++◌,
  arith, Bool-cases, inl, inr,
}
use uniconn.Outcome.{ok, Exn}
use uniconn.Multi.Dialer.{Protocol}
use uniconn.Multi.Listener.{
  TransportConfig, AcceptResult, MultiListener, new, loop_accepted, loop_failed, take_first,
  incoming_done, resume_with, accept_resumes, conns, taken_by, close_begins, close_drains, start,
  accept_begins,
}
use uniconn.Multi.Listener.Ledger.{
  Event, starts, begins, takes, closes, drains, arrives, fails, resumes, Ledger, given, drain,
  begin_close, step, run, count, taken_conns, IsBalanced, opened,
}

module _ {C : Type 0} where
  count-append : (p : C → Bool) (xs ys : List C) → count p (xs ++ ys) ≡ count p xs + count p ys
  count-append p [] ys = omega arith
  count-append p (x ∷ xs) ys = omega (arith, count-append p xs ys)

  conns-append : (xs ys : List (AcceptResult C)) → conns (xs ++ ys) ≡ conns xs ++ conns ys
  unfolding conns
  conns-append [] ys = refl
  conns-append (x ∷ xs) ys = ap (λ t. x.conn ∷ t) (conns-append xs ys)

  same_places :
      (b : Ledger C) (l : MultiListener C)
      → IsBalanced b
      → l.queue ≡ b.listener.queue
      → l.taken ≡ b.listener.taken
      → l.shut ≡ b.listener.shut
      → l.closed ≡ b.listener.closed
      → (b.listener.ended ≡ true → l.ended ≡ true)
      → IsBalanced (record b { listener = l })
  same_places b l h queue taken shut closed ended = record {
    accounts = λ p. rw (queue, taken, shut) (h.accounts p);
    emptied = λ e. (closed ∙ (h.emptied e).0, queue ∙ (h.emptied e).1);
    stays_ended = λ e. ended (h.stays_ended (sym closed ∙ e));
  }

  starts-IsBalanced :
      (b : Ledger C) → IsBalanced b → IsBalanced (record b { listener = (start b.listener).1 })
  unfolding start
  starts-IsBalanced b h =
      same_places b _ h (ground arith) (ground arith) (ground arith) (ground arith) (ground arith)

  begins-IsBalanced :
      (b : Ledger C)
      → IsBalanced b
      → IsBalanced (record b { listener = (accept_begins b.listener).1 })
  unfolding accept_begins
  begins-IsBalanced b h =
      same_places b _ h (ground arith) (ground arith) (ground arith) (ground arith) (ground arith)

  fails-IsBalanced :
      (b : Ledger C) (error : Exn)
      → IsBalanced b
      → IsBalanced (record b { listener = loop_failed error b.listener })
  unfolding loop_failed
  fails-IsBalanced b error h =
      same_places b _ h (ground arith) (ground arith) (ground arith) (ground arith) (ground arith)

  arrives-IsBalanced :
      (b : Ledger C) (protocol : Protocol) (conn : C)
      → IsBalanced b
      → IsBalanced (record b {
        listener = loop_accepted protocol conn b.listener;
        arrived = conn ∷ b.arrived;
      })
  unfolding loop_accepted conns
  arrives-IsBalanced b protocol conn h =
      let more : AcceptResult C = record { conn = conn; protocol = protocol } in
      let l = b.listener in
      elim (Bool-cases b.listener.closed) [
        | inl e ↦ simp e (record {
          accounts = λ p. omega (arith, h.accounts p, count-append p b.listener.shut (conn ∷ []));
          emptied = λ c. (refl, (h.emptied c).1);
          stays_ended = λ c. h.stays_ended e;
        })
        | inr e ↦ simp e (record {
          accounts = λ p. omega (
            arith,
            h.accounts p,
            count-append p (conns b.listener.queue) (conn ∷ []),
            ap (count p) (conns-append b.listener.queue (more ∷ [])),
          );
          emptied = λ c. absurd (cc ((h.emptied c).0, e));
          stays_ended = λ c. absurd (cc c);
        })
      ]

  taken-append :
      (xs ys : List (ℕ × AcceptResult C))
      → taken_conns (xs ++ ys) ≡ taken_conns xs ++ taken_conns ys
  taken-append [] ys = refl
  taken-append ((k, x) ∷ xs) ys = ap (λ t. x.conn ∷ t) (taken-append xs ys)

  takes-IsBalanced :
      (b : Ledger C) (call : ℕ) (queue : List (AcceptResult C))
      → b.listener.queue ≡ queue
      → IsBalanced b
      → IsBalanced (record b { listener = take_first call queue b.listener })
  unfolding take_first
  takes-IsBalanced b call [] e h = h
  takes-IsBalanced b call (r ∷ queue) e h = record {
    accounts = λ p.
        unfold conns in
        omega (
          arith,
          h.accounts p,
          count-append p (taken_conns b.listener.taken) (r.conn ∷ []),
          ap (count p) (taken-append b.listener.taken ((call, r) ∷ [])),
          ap (λ q. count p (conns q)) e,
        );
    emptied = λ c. absurd (cc ((h.emptied c).1, e));
    stays_ended = h.stays_ended;
  }

  abbrev found_conns : Option (AcceptResult C) → List C
  found_conns none = []
  found_conns (some r) = r.conn ∷ []

  taken_by-splits :
      (p : C → Bool) (call : ℕ) (taken : List (ℕ × AcceptResult C))
      → count p (taken_conns taken)
        ≡ count p (found_conns (taken_by call taken).0)
          + count p (taken_conns (taken_by call taken).1)
  unfolding taken_by
  taken_by-splits p call [] = refl
  taken_by-splits p call ((k, r) ∷ taken) = elim (Bool-cases (k == call)) [
    | inl same ↦ simp same (omega arith)
    | inr other ↦ simp other (omega (arith, taken_by-splits p call taken))
  ]

  resumes-IsBalanced :
      (b : Ledger C) (found : Option (AcceptResult C)) (others : List (ℕ × AcceptResult C))
      (cancelled : Bool)
      → ((p : C → Bool)
          → count p (taken_conns b.listener.taken)
            ≡ count p (found_conns found) + count p (taken_conns others))
      → IsBalanced b
      → IsBalanced (record b {
        listener = (resume_with found others cancelled b.listener).1;
        returned = given (resume_with found others cancelled b.listener).0 ++ b.returned;
      })
  unfolding resume_with
  resumes-IsBalanced b none others true e h = h
  resumes-IsBalanced b none others false e h = elim (Bool-cases b.listener.ended) [
    | inl f ↦ simp f h
    | inr f ↦ simp f h
  ]
  resumes-IsBalanced b (some r) others true e h = record {
    accounts = λ p. omega (arith, h.accounts p, count-append p b.listener.shut (r.conn ∷ []), e p);
    emptied = h.emptied;
    stays_ended = h.stays_ended;
  }
  resumes-IsBalanced b (some r) others false e h = elim (Bool-cases b.listener.ended) [
    | inl f ↦ simp f (record {
      accounts =
          λ p. omega (arith, h.accounts p, count-append p b.listener.shut (r.conn ∷ []), e p);
      emptied = h.emptied;
      stays_ended = λ c. refl;
    })
    | inr f ↦ simp f (record {
      accounts = λ p. omega (arith, h.accounts p, e p);
      emptied = h.emptied;
      stays_ended = λ c. sym f ∙ h.stays_ended c;
    })
  ]

  begin_close-IsBalanced : (b : Ledger C) → IsBalanced b → IsBalanced (begin_close b)
  unfolding begin_close close_begins
  begin_close-IsBalanced b h = elim (Bool-cases b.listener.closed) [
    | inl e ↦ simp e h
    | inr e ↦ simp e (record {
      accounts = h.accounts;
      emptied = λ c. (refl, (h.emptied c).1);
      stays_ended = λ c. refl;
    })
  ]

  drain-IsBalanced : (b : Ledger C) → IsBalanced b → IsBalanced (drain b)
  unfolding drain close_drains
  drain-IsBalanced b h = elim (Bool-cases b.listener.closed) [
    | inr e ↦ simp e h
    | inl e ↦ simp e (record {
      accounts = λ p.
          unfold conns in
          omega (arith, h.accounts p, count-append p b.listener.shut (conns b.listener.queue));
      emptied = λ c. (refl, refl);
      stays_ended = λ c. h.stays_ended e;
    })
  ]

  step-IsBalanced : (event : Event C) (b : Ledger C) → IsBalanced b → IsBalanced (step event b)
  unfolding step incoming_done accept_resumes
  step-IsBalanced starts b h = starts-IsBalanced b h
  step-IsBalanced begins b h = begins-IsBalanced b h
  step-IsBalanced (takes call) b h = takes-IsBalanced b call b.listener.queue refl h
  step-IsBalanced closes b h = begin_close-IsBalanced b h
  step-IsBalanced drains b h = drain-IsBalanced b h
  step-IsBalanced (arrives protocol conn) b h = arrives-IsBalanced b protocol conn h
  step-IsBalanced (fails error) b h = fails-IsBalanced b error h
  step-IsBalanced (resumes call cancelled) b h =
      resumes-IsBalanced b _ _ cancelled (λ p. taken_by-splits p call b.listener.taken) h

  run-IsBalanced :
      (events : List (Event C)) (b : Ledger C) → IsBalanced b → IsBalanced (run events b)
  unfolding run
  run-IsBalanced [] b h = h
  run-IsBalanced (event ∷ events) b h =
      run-IsBalanced events (step event b) (step-IsBalanced event b h)

  -- Whatever happens to a new listener, in whatever order, the pieces of `close` between other events:
  -- each connection that arrived was returned to a caller, is in the queue, is with a waiting call, or
  -- was closed, and this once; once a `close` has begun, the listener has ended; and once a `close` has
  -- come behind its first wait, the queue is empty and stays so.
  pub new-run-IsBalanced :
      (transports : List TransportConfig) (l : MultiListener C) (events : List (Event C))
      → new transports ≡ ok l
      → IsBalanced (run events (opened l))
  unfolding new conns
  new-run-IsBalanced [] l events made = cc
  new-run-IsBalanced (t ∷ ts) l events made =
      let empty : (l.queue ≡ []) × (l.taken ≡ []) × (l.shut ≡ []) × (l.closed ≡ false) =
        ground arith in
      run-IsBalanced events (opened l) (record {
        accounts = λ p. rw (empty.0, empty.1, empty.2) (omega arith);
        emptied = λ c. absurd (cc c);
        stays_ended = λ c. cc (c, empty.3);
      })
