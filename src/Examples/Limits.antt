-- ===== src/Examples/Limits.antt =====
-- The theorems on constraints, schedules and buckets, at examples.
use qasp.Prelude.{
  ℕ, ◌+◌, ◌*◌, ◌≤◌, String, Option, none, some, ◌≡◌, ◌↔◌, refl, Bool, true, List, [], ◌∷◌, arith,
  has_text, is_nonempty,
}
use qasp.Prelude.Int.{pos}
use qasp.Capability.Constraints.{
  Constraints, unconstrained, is_contiguous_sublist, is_tighter_than, tighten, narrow, text_or,
}
use qasp.Capability.Constraints.Tighter.{IsInfix, IsTighter, is_tighter_than_iff}
use qasp.Capability.Usage.{TokenUsage, check_rest}
use qasp.Capability.Constraints.Tighten.{is_tighter_than-tighten, separate_scopes_unrestrict}
use qasp.Capability.Temporal.{
  exceeds_at, any_exceeds, effective, evaluate_temporal_constraints_raw,
  verify_temporal_monotonicity,
}
use qasp.Capability.Temporal.Decay.{LimitsWithin}
use qasp.Capability.Temporal.Monotone.{monotonicity_sound}
use qasp.RateLimiter.{TokenBucket, unit, full}
use qasp.RateLimiter.Bound.{Request, run, run_bound}
use qasp.Examples.{root_constraints, decay}

abbrev tight : Constraints
tight = record root_constraints { quantity_limit = some (pos 3) }

is_tighter_than_iff_example :
    (is_tighter_than tight root_constraints ≡ true) ↔ IsTighter tight root_constraints
is_tighter_than_iff_example = is_tighter_than_iff tight root_constraints

is_tighter_than-tighten_example :
    (is_tighter_than (tighten root_constraints tight) root_constraints ≡ true) ↔ (
      (has_text root_constraints.purpose ≡ true
        → text_or tight.purpose root_constraints.purpose ≡ root_constraints.purpose)
      × (is_nonempty root_constraints.allowed_toolchain ≡ true
          → IsInfix
              (narrow root_constraints.allowed_toolchain tight.allowed_toolchain)
              root_constraints.allowed_toolchain))
is_tighter_than-tighten_example = is_tighter_than-tighten root_constraints tight

-- Data outside both scopes.
abbrev some_usage : TokenUsage
some_usage = record {
  quantity_consumed = pos 1;
  operations_in_period = pos 1;
  period_start = none;
  total_spend = pos 1;
  data_accessed = "other" ∷ [];
  declared_purpose = "";
  current_tool_class = "";
}

separate_scopes_unrestrict_example :
    ((tighten root_constraints (record unconstrained { data_scope = "z" ∷ [] })).data_scope ≡ [])
    × (is_tighter_than
          (tighten root_constraints (record unconstrained { data_scope = "z" ∷ [] }))
          root_constraints
        ≡ true)
    × (check_rest
          (pos 0)
          some_usage
          (tighten root_constraints (record unconstrained { data_scope = "z" ∷ [] }))
        ≡ check_rest
            (pos 0)
            (record some_usage { data_accessed = [] })
            (tighten root_constraints (record unconstrained { data_scope = "z" ∷ [] })))
unfolding qasp.Prelude.contains
separate_scopes_unrestrict_example =
    separate_scopes_unrestrict root_constraints ("z" ∷ []) (pos 0) some_usage refl refl
      (refl, (refl, tt))

monotonicity_sound_example :
    LimitsWithin
      (effective tight (some decay) 0 5000000)
      (effective root_constraints (some decay) 0 5000000)
unfolding verify_temporal_monotonicity exceeds_at any_exceeds effective
    qasp.Capability.Constraints.exceeds qasp.Capability.Temporal.min_or_base
monotonicity_sound_example =
    monotonicity_sound root_constraints (some decay) tight (some decay) 0 5000000
      (record { spend = tt; quantity = omega arith; rate = tt }) refl

abbrev bucket : TokenBucket
bucket = record { capacity = 2; num = 1; den = 1; tokens = 2000000; last_refill = 0 }

abbrev requests : List Request
requests =
    record { at = 0; n = 2 } ∷ record { at = 500000; n = 1 } ∷ record { at = 1500000; n = 1 } ∷ []

run_bound_example :
    ((run requests bucket).0 * unit bucket + bucket.last_refill * bucket.num
      ≤ bucket.tokens + (run requests bucket).1.last_refill * bucket.num)
    × ((run requests bucket).1.tokens ≤ full bucket)
run_bound_example = run_bound requests bucket (omega arith)
