-- ===== src/Examples/Relays.antt =====
-- A relay's session with two messages and a hundred bytes, of which one message comes back.
use qasp.Prelude.{◌≡◌, refl, true, false, none, some, List, [], ◌∷◌}
use qasp.Prelude.Result.{ok}
use qasp.Relay.{RelaySession, idle, post_init, credit}
use qasp.Relay.Ledger.{
  Step, consumes, confirms, rolls_back, requests, verifies, accepts, steps, sizes, Below, held,
  all_used,
}
use qasp.Relay.Budget.{steps-held}

abbrev fresh_session : RelaySession
fresh_session = record {
  session_id = 1 ∷ [];
  initiator_did = "did:qasp:a";
  target_did = "did:qasp:b";
  cap_token_hash = 2 ∷ [];
  scm_a = 3 ∷ [];
  scm_b = 4 ∷ [];
  expires_at = 1000;
  max_messages = some 2;
  max_bytes = some 100;
  max_rate = none;
  epoch_installed = 0;
  attenuated_token_for_target = [];
  state = idle;
  msg_remaining = some 2;
  bytes_remaining = some 100;
  spend_accrued = 0;
  next_seq = 1;
  pending_debits = [];
  rate_bucket = none;
}

made :
    post_init 0 (record fresh_session { msg_remaining = none; bytes_remaining = none })
    ≡ ok fresh_session
unfolding post_init
made = refl

-- The first message is rolled back, the second is sent for good; a third goes through after that,
-- and a fourth is refused.
abbrev some_steps : List Step
some_steps =
    requests
    ∷ verifies
    ∷ accepts
    ∷ consumes 60 true 5
    ∷ consumes 20 false 6
    ∷ rolls_back 1
    ∷ consumes 70 true 7
    ∷ confirms 3
    ∷ consumes 1 false 8
    ∷ []

uses_ninety : all_used sizes some_steps fresh_session ≡ 90
unfolding all_used
uses_ninety = refl

none_wait : Below fresh_session.next_seq fresh_session.pending_debits
unfolding Below
none_wait = tt

steps-held_example :
    credit (held sizes (steps some_steps fresh_session)) (all_used sizes some_steps fresh_session)
    ≡ held sizes fresh_session
steps-held_example = steps-held sizes some_steps fresh_session none_wait
