-- ===== src/Tests/Listener.antt =====
-- A listener with two transports, from its start to its end.
use uniconn.Prelude.{ℕ, ◌≡◌, refl, false, none, List, [], ◌∷◌}
use uniconn.Outcome.{ok}
use uniconn.Multi.Listener.{TransportConfig, MultiListener, new}
use uniconn.Multi.Listener.Ledger.{
  Event, starts, begins, takes, closes, drains, arrives, resumes, IsBalanced, run, opened,
}
use uniconn.Multi.Listener.Balance.{new-run-IsBalanced}

abbrev two_transports : List TransportConfig
two_transports =
    record { protocol = "tcp"; address = "host:1" }
    ∷ record { protocol = "kcp"; address = "host:2" }
    ∷ []

abbrev fresh : MultiListener ℕ
fresh = record {
  transports = two_transports;
  queue = [];
  closed = false;
  started = false;
  ended = false;
  accept_error = none;
  active_loops = 0;
  taken = [];
  shut = [];
}

fresh-new : new two_transports ≡ ok fresh
unfolding new
fresh-new = refl

-- Three connections: one is returned, one is taken by a call that the end overtakes, one is queued.
abbrev events : List (Event ℕ)
events =
    starts
    ∷ begins
    ∷ arrives "tcp" 7
    ∷ takes 1
    ∷ resumes 1 false
    ∷ arrives "kcp" 8
    ∷ begins
    ∷ takes 2
    ∷ arrives "tcp" 9
    ∷ closes
    ∷ resumes 2 false
    ∷ drains
    ∷ []

new-run-IsBalanced_example : IsBalanced (run events (opened fresh))
new-run-IsBalanced_example = new-run-IsBalanced two_transports fresh events fresh-new
