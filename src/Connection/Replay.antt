-- ===== src/Connection/Replay.antt =====
-- No data is passed on twice.
use qasp.Prelude.{ℕ, ◌≤◌, ◌≡◌, List, [], ◌∷◌, ◌⊎◌}
use qasp.Prelude.Result.{Result, ok, err}
use qasp.Connection.Session.{Session, Parts, Event}
use qasp.Connection.Receive.{Round, stop, again}
use qasp.Connection.Numbers.{delivered, Ascending}

-- What an answer passes on, between the number expected before and the one after.
abbrev pub Counts : ℕ → Result (List Event) → ℕ → Type 0
Counts lo (ok es) hi = Ascending lo (delivered es) hi
Counts lo (err e) hi = lo ≤ hi

module _ {H : Type 0} (p : Parts H) where
  abbrev Single : ℕ → List Event → Type 0
  Single n es = (delivered es ≡ []) ⊎ (delivered es ≡ n ∷ [])

  abbrev RoundCounts : ℕ → Round p → Type 0
  RoundCounts lo (stop r) = Counts lo r.answer r.connection.session.recv_seq
  RoundCounts lo (again es b s) = Ascending lo (delivered es) s.recv_seq
