-- ===== src/Multi/Dialer/Choice.antt =====
-- Which protocol the dialer ends with.
use uniconn.Prelude.{
  ◌≡◌, ◌↔◌, ◌⊎◌, inl, inr, refl, ap, ◌∙◌, Option, none, some, List, [], ◌∷◌, ◌++◌, arith,
  Option-cases, Bool-cases, true, false,
}
use uniconn.Outcome.{
  Outcome, ok, raised, pending, Exn, exn, runtime_error, timeout_error, text, caused, is_cancelled,
}
use uniconn.Action.{Action}
use uniconn.Multi.Dialer.{Protocol, in_time, attempt, give_up, usable, try_all}

module _ {ℓ κ} {D : Type ℓ} {C Address : Type 0} {E : Type κ} (dial : D → Address → Action E C)
    (dialers : List (Protocol × D)) (servers : Protocol → Option Address) where
  -- From `e`, every protocol of the list is passed over or tried in vain, and the world is then `e'`.
  pub data Fails : List Protocol → E → E → Type (ℓ ⊔ κ) where
    done : {e : E} → Fails [] e e
    skip :
        {proto : Protocol} {ps : List Protocol} {e e' : E}
        → usable dial dialers servers proto ≡ none
        → Fails ps e e'
        → Fails (proto ∷ ps) e e'
    vain :
        {proto : Protocol} {ps : List Protocol} {e e₁ e' : E} (d : D) (address : Address) (x : Exn)
        → usable dial dialers servers proto ≡ some (d, address)
        → attempt dial d address e ≡ (raised x, e₁)
        → is_cancelled x ≡ false
        → Fails ps e₁ e'
        → Fails (proto ∷ ps) e e'

  -- `proto` is the first protocol of `ps` that both sides have and whose dialer does not fail in vain: its
  -- attempt comes to `r`.
  pub record Chosen (ps : List Protocol) (e : E) (r : Outcome C) (proto : Protocol) (e' : E)
      : Type (ℓ ⊔ κ) where
    pub before : List Protocol
    pub after : List Protocol
    pub then : E
    pub dialer : D
    pub address : Address
    pub splits : ps ≡ before ++ proto ∷ after
    pub in_vain : Fails before e then
    pub shared : usable dial dialers servers proto ≡ some (dialer, address)
    pub connects : attempt dial dialer address then ≡ (r, e')

  Chosen-here :
      {ps : List Protocol} {e e' : E} {r : Outcome C} (p : Protocol) (d : D) (address : Address)
      → usable dial dialers servers p ≡ some (d, address)
      → attempt dial d address e ≡ (r, e')
      → Chosen (p ∷ ps) e r p e'
  Chosen-here {ps} {e} p d address h run = record {
    before = [];
    after = ps;
    then = e;
    dialer = d;
    address = address;
    splits = refl;
    in_vain = done;
    shared = h;
    connects = run;
  }

  -- One protocol more before it.
  Chosen-later :
      {ps : List Protocol} {e e₁ e' : E} {r : Outcome C} {proto : Protocol} (p : Protocol)
      → ((qs : List Protocol) (e₂ : E) → Fails qs e₁ e₂ → Fails (p ∷ qs) e e₂)
      → Chosen ps e₁ r proto e'
      → Chosen (p ∷ ps) e r proto e'
  Chosen-later p more c = record {
    before = p ∷ c.before;
    after = c.after;
    then = c.then;
    dialer = c.dialer;
    address = c.address;
    splits = ap (λ t. p ∷ t) c.splits;
    in_vain = more c.before c.then c.in_vain;
    shared = c.shared;
    connects = c.connects;
  }

  in_time-cases :
      (r : Outcome C)
      → ((c : C) × (in_time dial r ≡ ok c)) ⊎ ((x : Exn) × (in_time dial r ≡ raised x))
  unfolding in_time
  in_time-cases (ok c) = inl (c, refl)
  in_time-cases (raised x) = inr (x, refl)
  in_time-cases pending = inr (exn timeout_error (text ""), refl)

  -- What became of one attempt.
  pub attempt-cases :
      (d : D) (address : Address) (e : E)
      → ((c : C) × (e' : E) × (attempt dial d address e ≡ (ok c, e')))
        ⊎ ((x : Exn) × (e' : E) × (attempt dial d address e ≡ (raised x, e')))
  unfolding attempt
  attempt-cases d address e = elim (in_time-cases (dial d address e).0) [
    | inl (c, h) ↦ inl (c, (dial d address e).1, ap (λ t. (t, (dial d address e).1)) h)
    | inr (x, h) ↦ inr (x, (dial d address e).1, ap (λ t. (t, (dial d address e).1)) h)
  ]

  module _ (p : Protocol) (ps : List Protocol) (last : Option Exn) (e : E) where
    pub try_skip :
        usable dial dialers servers p ≡ none
        → try_all dial dialers servers (p ∷ ps) last e ≡ try_all dial dialers servers ps last e
    unfolding try_all
    try_skip h = rw (h, try_all)

    pub try_connect :
        (d : D) (address : Address) (c : C) (e' : E)
        → usable dial dialers servers p ≡ some (d, address)
        → attempt dial d address e ≡ (ok c, e')
        → try_all dial dialers servers (p ∷ ps) last e ≡ (ok (c, p), e')
    unfolding try_all
    try_connect d address c e' h run = ground arith

    pub try_vain :
        (d : D) (address : Address) (x : Exn) (e' : E)
        → usable dial dialers servers p ≡ some (d, address)
        → attempt dial d address e ≡ (raised x, e')
        → is_cancelled x ≡ false
        → try_all dial dialers servers (p ∷ ps) last e
          ≡ try_all dial dialers servers ps (some (exn runtime_error (caused "" p x))) e'
    unfolding try_all
    try_vain d address x e' h run goes_on = ground arith

    pub try_cancelled :
        (d : D) (address : Address) (x : Exn) (e' : E)
        → usable dial dialers servers p ≡ some (d, address)
        → attempt dial d address e ≡ (raised x, e')
        → is_cancelled x ≡ true
        → try_all dial dialers servers (p ∷ ps) last e ≡ (raised x, e')
    unfolding try_all
    try_cancelled d address x e' h run stops = ground arith

  abbrev pub NoneShared : List Protocol → Type ℓ
  NoneShared [] = Unit
  NoneShared (p ∷ ps) = (usable dial dialers servers p ≡ none) × NoneShared ps

  -- The loop went through the whole list, and `x` is the last error.
  pub record GivesUp (ps : List Protocol) (last : Option Exn) (e e' : E) (x : Option Exn)
      : Type (ℓ ⊔ κ) where
    pub in_vain : Fails ps e e'
    pub untried : (x ≡ none) ↔ ((last ≡ none) × NoneShared ps)

  pub data Verdict (ps : List Protocol) (last : Option Exn) (e : E) : Type (ℓ ⊔ κ) where
    connected :
        (c : C) (proto : Protocol) (e' : E)
        → try_all dial dialers servers ps last e ≡ (ok (c, proto), e')
        → Chosen ps e (ok c) proto e'
        → Verdict ps last e
    cancelled :
        (x : Exn) (proto : Protocol) (e' : E)
        → try_all dial dialers servers ps last e ≡ (raised x, e')
        → is_cancelled x ≡ true
        → Chosen ps e (raised x) proto e'
        → Verdict ps last e
    gave_up :
        (x : Option Exn) (e' : E)
        → try_all dial dialers servers ps last e ≡ (raised (give_up dial dialers x), e')
        → GivesUp ps last e e' x
        → Verdict ps last e

  Verdict-skip :
      (p : Protocol) (ps : List Protocol) (last : Option Exn) (e : E)
      → usable dial dialers servers p ≡ none
      → Verdict ps last e
      → Verdict (p ∷ ps) last e
  Verdict-skip p ps last e h (connected c proto e' run chosen) =
      connected c proto e' (try_skip p ps last e h ∙ run)
        (Chosen-later p (λ qs e₂ f. skip h f) chosen)
  Verdict-skip p ps last e h (cancelled x proto e' run stops chosen) =
      cancelled x proto e' (try_skip p ps last e h ∙ run) stops
        (Chosen-later p (λ qs e₂ f. skip h f) chosen)
  Verdict-skip p ps last e h (gave_up x e' run gives) =
      gave_up x e' (try_skip p ps last e h ∙ run) (record {
        in_vain = skip h gives.in_vain;
        untried =
            (λ q. let r = gives.untried.0 q in (r.0, (h, r.1)), λ q. gives.untried.1 (q.0, q.1.1));
      })

  module _ (p : Protocol) (ps : List Protocol) (last : Option Exn) (e e₁ : E) (d : D)
      (address : Address) (y : Exn) (h : usable dial dialers servers p ≡ some (d, address))
      (tried : attempt dial d address e ≡ (raised y, e₁)) (goes_on : is_cancelled y ≡ false) where
    Verdict-vain :
        Verdict ps (some (exn runtime_error (caused "" p y))) e₁ → Verdict (p ∷ ps) last e
    Verdict-vain (connected c proto e' run chosen) =
        connected c proto e' (try_vain p ps last e d address y e₁ h tried goes_on ∙ run)
          (Chosen-later p (λ qs e₂ f. vain d address y h tried goes_on f) chosen)
    Verdict-vain (cancelled x proto e' run stops chosen) =
        cancelled x proto e' (try_vain p ps last e d address y e₁ h tried goes_on ∙ run) stops
          (Chosen-later p (λ qs e₂ f. vain d address y h tried goes_on f) chosen)
    Verdict-vain (gave_up x e' run gives) =
        gave_up x e' (try_vain p ps last e d address y e₁ h tried goes_on ∙ run) (record {
          in_vain = vain d address y h tried goes_on gives.in_vain;
          untried = (λ q. cc ((gives.untried.0 q).0), λ q. cc (h, q.1.0));
        })

  Verdict-shared :
      (p : Protocol) (ps : List Protocol) (last : Option Exn) (e : E) (d : D) (address : Address)
      → usable dial dialers servers p ≡ some (d, address)
      → ((last' : Option Exn) (e' : E) → Verdict ps last' e')
      → Verdict (p ∷ ps) last e
  Verdict-shared p ps last e d address h rest = elim (attempt-cases d address e) [
    | inl (c, e', run) ↦
        connected c p e' (try_connect p ps last e d address c e' h run)
          (Chosen-here p d address h run)
    | inr (y, e₁, run) ↦ elim (Bool-cases (is_cancelled y)) [
      | inl stops ↦
          cancelled y p e₁ (try_cancelled p ps last e d address y e₁ h run stops) stops
            (Chosen-here p d address h run)
      | inr goes_on ↦ Verdict-vain p ps last e e₁ d address y h run goes_on (rest _ e₁)
    ]
  ]

  -- The loop of `dial` ends on every list of protocols. It takes the first protocol that both sides
  -- have and whose attempt does not fail, those before it having been passed over or tried in vain, in
  -- order: it returns its connection and its name, or raises the CancelledError that its attempt raised.
  -- Otherwise every protocol of the list was passed over or tried in vain, and it raises a RuntimeError,
  -- whose text is "no compatible protocol found" exactly when there was no error before the loop and no
  -- protocol that both sides have.
  pub try_all-Verdict : (ps : List Protocol) (last : Option Exn) (e : E) → Verdict ps last e
  try_all-Verdict [] last e =
      gave_up last e (unfold try_all in refl)
        (record { in_vain = done; untried = (λ q. (q, tt), λ q. q.0) })
  try_all-Verdict (p ∷ ps) last e = elim (Option-cases (usable dial dialers servers p)) [
    | inl h ↦ Verdict-skip p ps last e h (try_all-Verdict ps last e)
    | inr ((d, address), h) ↦
        Verdict-shared p ps last e d address h (λ last' e'. try_all-Verdict ps last' e')
  ]
