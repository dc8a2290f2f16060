-- ===== src/Examples/Tokens.antt =====
-- The theorems on single tokens, at the example token and its child.
use qasp.Prelude.{
  ℕ, String, Bytes, Option, none, some, ◌≡◌, refl, Bool, false, List, [], ◌∷◌, arith, issubset,
}
use qasp.Prelude.Int.{ℤ, pos, negsuc, ◌≤ℤ◌}
use qasp.Prelude.Result.{ok}
use qasp.Capability.Constraints.{Constraints, unconstrained}
use qasp.Capability.Temporal.{effective, verify_temporal_monotonicity}
use qasp.Capability.Token.{CapabilityToken, token_to_cbor, is_expired, sign_token, compute_hash}
use qasp.Capability.Attenuate.{
  child_draft, attenuate_token, split_token, split_each, zip_turns, total, reduce_verbs,
  tighten_constraints, narrow_uri,
}
use qasp.Capability.Attenuate.Narrows.{Narrows, attenuate-Narrows}
use qasp.Capability.Attenuate.Restarts.{attenuate_restarts_decay}
use qasp.Capability.Attenuate.Splits.{quantities, split_sound}
use qasp.Capability.Usage.{TokenUsage}
use qasp.Examples.{
  example_platform, agent_key, did_of, read_write, root_constraints, decay, root_token,
}

-- The agent passes all that it has on to a worker.
abbrev pub child_token : CapabilityToken
child_token =
    record (child_draft example_platform 5000000 (8 ∷ []) root_token (did_of "worker") read_write
      root_constraints (pos 0) (some decay) "qasp://acme/data") { signature = 2 ∷ 7 ∷ [] }

pub child_made :
    attenuate_token example_platform 5000000
      (8 ∷ [])
      root_token
      agent_key
      (did_of "worker")
      none
      none
      none
      none
      none
    ≡ ok child_token
unfolding attenuate_token reduce_verbs tighten_constraints narrow_uri verify_temporal_monotonicity
    is_expired qasp.Capability.Temporal.exceeds_at qasp.Capability.Constraints.exceeds effective
    qasp.Capability.Temporal.any_exceeds qasp.Capability.Temporal.min_or_base sign_token
    token_to_cbor qasp.Capability.Token.Encoding.encode_token_data
child_made = refl

attenuate-Narrows_example : Narrows example_platform root_token child_token
attenuate-Narrows_example =
    attenuate-Narrows example_platform 5000000 (8 ∷ []) root_token agent_key (did_of "worker") none
      none none none none child_token child_made

attenuate_restarts_decay_example :
    effective child_token.constraints child_token.temporal_attenuation child_token.issued_at 5000000
    ≡ effective root_token.constraints root_token.temporal_attenuation root_token.issued_at
        root_token.issued_at
attenuate_restarts_decay_example =
    attenuate_restarts_decay example_platform 5000000 (8 ∷ []) root_token agent_key
      (did_of "worker") none child_token child_made

abbrev part : ℤ → Bytes → CapabilityToken
part amount nonce =
    record (child_draft example_platform 2000000 nonce root_token (did_of "agent") read_write
      (record root_constraints { quantity_limit = some amount }) (pos 0) (some decay)
      "qasp://acme/data") { signature = 2 ∷ 7 ∷ [] }

abbrev parts : List CapabilityToken
parts = part (pos 6) (1 ∷ []) ∷ part (pos 3) (2 ∷ []) ∷ []

split_sound_example : (quantities parts ≡ pos 6 ∷ pos 3 ∷ []) × (total (quantities parts) ≤ℤ pos 10)
unfolding split_token split_each attenuate_token total qasp.Prelude.Int.◌+ℤ◌ qasp.Prelude.Int.◌-ℤ◌
    zip_turns is_expired reduce_verbs tighten_constraints narrow_uri
    qasp.Capability.Constraints.is_tighter_than qasp.Capability.Constraints.starts_before
    qasp.Capability.Constraints.ends_after qasp.Capability.Constraints.tighten
    qasp.Capability.Constraints.take_earlier qasp.Capability.Constraints.take_later
    qasp.Capability.Constraints.exceeds qasp.Capability.Constraints.take_smaller
    qasp.Capability.Constraints.narrow qasp.Capability.Constraints.is_contiguous_sublist
    qasp.Capability.Constraints.found_from issubset qasp.Prelude.contains qasp.Prelude.intersection
    qasp.Prelude.texts_eq verify_temporal_monotonicity effective qasp.Capability.Temporal.exceeds_at
    qasp.Capability.Temporal.any_exceeds qasp.Capability.Temporal.evaluate_temporal_constraints_raw
    qasp.Capability.Temporal.active_from qasp.Capability.Temporal.min_or_base sign_token
    token_to_cbor qasp.Capability.Token.Encoding.encode_token_data compute_hash
    qasp.Capability.Token.new_token_id
split_sound_example =
    split_sound example_platform 2000000 ((1 ∷ []) ∷ (2 ∷ []) ∷ []) root_token agent_key
      (pos 6 ∷ pos 3 ∷ []) none (pos 10) parts refl (omega arith, (omega arith, tt)) refl refl

abbrev usage : TokenUsage
usage = record {
  quantity_consumed = pos 9;
  operations_in_period = pos 0;
  period_start = none;
  total_spend = pos 0;
  data_accessed = "a" ∷ [];
  declared_purpose = "";
  current_tool_class = "search";
}
