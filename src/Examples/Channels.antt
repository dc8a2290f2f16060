-- ===== src/Examples/Channels.antt =====
-- The theorems on payment channels, at a channel with a deposit of 100.
use qasp.Prelude.{
  ℕ, ◌≤◌, ◌<◌, String, Bytes, Option, none, some, ◌≡◌, ◌⊎◌, refl, Bool, true, false, List, [], ◌∷◌,
  ◌++◌, arith,
}
use qasp.Prelude.Int.{ℤ, pos, negsuc, ◌+ℤ◌, ◌≤ℤ◌, ◌<ℤ◌}
use qasp.Prelude.Result.{ok, err, channel_timeout}
use qasp.Settlement.{
  PaymentChannel, new_channel, open_state, closing_state, closed_state, disputed_state,
  ChannelStateUpdate, Event,
}
use qasp.Settlement.Closing.{
  DisputeVerdict, Settlement, finalize_close, apply_verdict, check_verdict,
}
use qasp.Settlement.Round.{Paid, pay, pay-Paid}
use qasp.Settlement.Challenges.{submit_all, Newest, settles_latest}
use qasp.Settlement.Verdict.{verdict_overdraws}
use qasp.Settlement.Pricing.{PriceRequest, PriceSchedule, create_price_request}
use qasp.Settlement.Pricing.Negotiated.{negotiate, Negotiated, negotiate-Negotiated}
use qasp.Examples.{example_platform, example_pair, owner_key, agent_key}

abbrev open_channel : PaymentChannel
open_channel = record (new_channel "did:a" "did:s" agent_key owner_key) {
  agent_balance = pos 60;
  server_balance = pos 40;
  channel_id = some (4 ∷ []);
  state = open_state;
}

pay-Paid_example :
    (s : ChannelStateUpdate) × (x' : PaymentChannel) × (y' : PaymentChannel) × (pay example_platform
        9
        (pos 25)
        agent_key
        owner_key
        true
        open_channel
        open_channel
      ≡ (ok s, x', y'))
    × Paid example_platform (pos 25) agent_key owner_key true open_channel open_channel x' y' s
unfolding ◌+ℤ◌ example_pair qasp.Prelude.Int.◌-ℤ◌
pay-Paid_example =
    pay-Paid example_platform 9 (pos 25) agent_key agent_key owner_key owner_key true open_channel
      open_channel (example_pair agent_key) (example_pair owner_key) (λ m. refl)
      (record { agent = refl; server = refl; sequence = refl }) refl (omega arith) (omega arith)

abbrev closing_channel : PaymentChannel
closing_channel = record open_channel { state = closing_state; challenge_deadline = 300 }

-- A state with a sequence number and the agent's balance.
abbrev state_of : ℤ → ℕ → ChannelStateUpdate
state_of n agent = record {
  channel_id = some (4 ∷ []);
  sequence_number = n;
  agent_balance = pos agent;
  server_balance = pos 10;
  prev_hash = [];
  timestamp = 0;
  agent_signature = [];
  server_signature = [];
}

abbrev submitted : List (ChannelStateUpdate × ℕ)
submitted = (state_of (pos 2) 90, 10) ∷ (state_of (pos 1) 80, 20) ∷ (state_of (pos 3) 70, 301) ∷ []

settles_latest_example :
    ((310 < closing_channel.challenge_deadline)
      × (finalize_close 310 (submit_all submitted closing_channel)
          ≡ (err channel_timeout, submit_all submitted closing_channel)))
    ⊎ ((closing_channel.challenge_deadline ≤ 310)
        × (s : Settlement) × (events : List Event) × (finalize_close 310
              (submit_all submitted closing_channel)
            ≡ (
              ok (s, events),
              record (submit_all submitted closing_channel) { state = closed_state },
            ))
        × (n : ℤ) × Newest closing_channel submitted n s.final_balance_a s.final_balance_b)
settles_latest_example = settles_latest submitted closing_channel 310

abbrev disputed_channel : PaymentChannel
disputed_channel = record closing_channel { state = disputed_state }

abbrev verdict_of : ℤ → DisputeVerdict
verdict_of award = record {
  dispute_id = 5 ∷ [];
  verdict = pos 1;
  awarded_value = award;
  signature = 1 ∷ 5 ∷ 3 ∷ 3 ∷ [];
}

verdict_checked :
    (award : ℤ) → check_verdict example_platform (verdict_of award) owner_key ≡ ok award
unfolding check_verdict qasp.Settlement.Closing.verdict_data qasp.Prelude.bytes_eq
    qasp.Settlement.Closing.verdict_code
verdict_checked award = refl

abbrev after_verdict : ℤ → PaymentChannel
after_verdict award =
    (apply_verdict example_platform 320 (verdict_of award) agent_key owner_key disputed_channel).1

verdict_overdraws_example : (after_verdict (negsuc 69)).agent_balance <ℤ pos 0
unfolding ◌+ℤ◌
verdict_overdraws_example =
    verdict_overdraws example_platform 320 (verdict_of (negsuc 69)) agent_key agent_key owner_key
      (negsuc 69) disputed_channel (example_pair agent_key) refl (verdict_checked (negsuc 69))
      (omega arith) (omega arith) (omega arith)

abbrev gpu_hour : PriceRequest
gpu_hour = create_price_request (3 ∷ []) "gpu" (8 ∷ []) (pos 1) (pos 3600)

negotiate-Negotiated_example :
    (s : PriceSchedule) × (negotiate example_platform 50 gpu_hour
        (pos 12)
        "EUR"
        owner_key
        owner_key
        agent_key
        agent_key
        []
        []
      ≡ ok s)
    × Negotiated example_platform 50 gpu_hour (pos 12) "EUR" owner_key agent_key s
negotiate-Negotiated_example =
    negotiate-Negotiated example_platform 50 gpu_hour (pos 12) "EUR" owner_key owner_key agent_key
      agent_key [] [] (example_pair owner_key) (example_pair agent_key)
