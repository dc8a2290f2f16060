-- ===== src/Relay/Ledger.antt =====
-- The steps of a relay's session, and the accounts that are kept of them.
use qasp.Prelude.{ℕ, Bytes, ◌+◌, ◌<◌, Bool, Option, none, some, List, [], ◌∷◌, if◌then◌else◌}
use qasp.Prelude.Result.{Result, ok, err}
use qasp.Relay.{
  RelaySession, Debit, credit, get_debit, consume, confirm_delivery, rollback_pending, on_request,
  on_token_verified, on_token_invalid, on_accept, on_close, on_epoch_rotation,
}

-- All that changes a session.
pub data Step : Type 0 where
  consumes : ℕ → Bool → ℕ → Step
  confirms rolls_back : ℕ → Step
  requests verifies refuses accepts closes : Step
  rotates : Bytes → Bytes → ℕ → Step

unfoldable pub step : Step → RelaySession → RelaySession
unfolding consume confirm_delivery rollback_pending on_request on_token_verified on_token_invalid
    on_accept on_close on_epoch_rotation
step (consumes payload_len reserve_pending now) s = (consume payload_len reserve_pending now s).0
step (confirms n) s = confirm_delivery n s
step (rolls_back n) s = rollback_pending n s
step requests s = (on_request s).0
step verifies s = (on_token_verified s).0
step refuses s = on_token_invalid s
step accepts s = (on_accept s).0
step closes s = on_close s
step (rotates a b epoch) s = on_epoch_rotation a b epoch s

pub data Budget : Type 0 where
  messages sizes : Budget

unfoldable pub left : Budget → RelaySession → Option ℕ
left messages s = s.msg_remaining
left sizes s = s.bytes_remaining

unfoldable pub weight : Budget → Debit → ℕ
weight messages d = d.msgs
weight sizes d = d.size

unfoldable pub waiting : Budget → List Debit → ℕ
unfolding weight
waiting b [] = 0
waiting b (d ∷ ds) = weight b d + waiting b ds

unfoldable pub weight_of : Budget → Option Debit → ℕ
unfolding weight
weight_of b none = 0
weight_of b (some d) = weight b d

-- What an answer of `consume` uses up for good: a message that is let through and not reserved.
unfoldable pub paid : Budget → ℕ → Bool → Result ℕ → ℕ
unfolding weight
paid b payload_len r (err e) = 0
paid b payload_len r (ok n) =
    if r then 0 else weight b (record { seq = n; msgs = 1; size = payload_len })

-- What a step uses up for good: such a message, or a reserved one that is confirmed.
unfoldable pub used : Budget → Step → RelaySession → ℕ
unfolding consume get_debit weight_of paid
used b (consumes payload_len r now) s = paid b payload_len r (consume payload_len r now s).1
used b (confirms n) s = weight_of b (get_debit n s.pending_debits)
used b _ s = 0

unfoldable pub steps : List Step → RelaySession → RelaySession
unfolding step
steps [] s = s
steps (a ∷ rest) s = steps rest (step a s)

unfoldable pub all_used : Budget → List Step → RelaySession → ℕ
unfolding used step
all_used b [] s = 0
all_used b (a ∷ rest) s = used b a s + all_used b rest (step a s)

-- The numbers that wait were given out.
unfoldable pub Below : ℕ → List Debit → Type 0
Below n [] = Unit {0}
Below n (d ∷ ds) = (d.seq < n) × Below n ds

-- All that there is of a budget: what is left and what waits.
unfoldable pub held : Budget → RelaySession → Option ℕ
unfolding left waiting
held b s = credit (left b s) (waiting b s.pending_debits)
