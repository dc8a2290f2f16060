-- ===== src/Capability/Temporal.antt =====
-- Temporal attenuation in protocol/capability.py. A time is a number of microseconds, so a
-- threshold's seconds are multiplied out; `elapsed` is the difference of two times and is compared
-- without it.
pub mod Decay
pub mod Monotone
use qasp.Prelude.{
  ℕ, ◌+◌, ◌*◌, String, Option, none, some, Bool, true, false, ◌&&◌, ◌||◌, List, [], ◌∷◌, leb, ltb,
  if◌then◌else◌,
}
use qasp.Prelude.Int.{ℤ, ltb_ℤ}
use qasp.Prelude.Result.{
  Result, ok, err, raise_if, attenuation_error, temporal_schedule_error, ◌>>=◌, ◌>>◌,
}
use qasp.Capability.Constraints.{Constraints, exceeds}

pub record TemporalThreshold : Type 0 where
  pub at_seconds : ℕ
  pub max_spend : Option ℤ
  pub quantity_limit : Option ℤ
  pub rate_limit : Option ℤ

pub record TemporalSchedule : Type 0 where
  pub thresholds : List TemporalThreshold
  pub policy : String

-- `__post_init__`: each threshold but the first is later than the one before it.
unfoldable pub ascending_after : ℕ → List TemporalThreshold → Bool
ascending_after before [] = true
ascending_after before (t ∷ rest) = ltb before t.at_seconds && ascending_after t.at_seconds rest

unfoldable pub is_ascending : List TemporalThreshold → Bool
unfolding ascending_after
is_ascending [] = true
is_ascending (t ∷ rest) = ascending_after t.at_seconds rest

-- `step_schedule`.
unfoldable pub step_schedule : List TemporalThreshold → Result TemporalSchedule
unfolding is_ascending
step_schedule thresholds =
    if is_ascending thresholds
    then ok (record { thresholds = thresholds; policy = "step" })
    else err temporal_schedule_error

abbrev pub second : ℕ
second = 1000000

-- `threshold.at_seconds <= elapsed`.
abbrev pub is_due : TemporalThreshold → ℕ → ℕ → Bool
is_due t issued_at current_time = leb (t.at_seconds * second + issued_at) current_time

-- The loop with its break: the last threshold before the first that is not due.
unfoldable pub active_from :
    Option TemporalThreshold → List TemporalThreshold → ℕ → ℕ → Option TemporalThreshold
active_from active [] issued_at now = active
active_from active (t ∷ rest) issued_at now =
    let later = active_from (some t) rest issued_at now in
    if is_due t issued_at now then later else active

unfoldable pub min_or_base : Option ℤ → Option ℤ → Option ℤ
min_or_base base none = base
min_or_base none (some v) = some v
min_or_base (some b) (some v) = if ltb_ℤ v b then some v else some b

-- The constraints under an active threshold.
abbrev pub attenuate_by : Constraints → Option TemporalThreshold → Constraints
attenuate_by base none = base
attenuate_by base (some t) = record base {
  quantity_limit = min_or_base base.quantity_limit t.quantity_limit;
  rate_limit = min_or_base base.rate_limit t.rate_limit;
  max_spend = min_or_base base.max_spend t.max_spend;
}

unfoldable pub evaluate_temporal_constraints_raw :
    Constraints → TemporalSchedule → ℕ → ℕ → Constraints
unfolding active_from
evaluate_temporal_constraints_raw base schedule issued_at current_time =
    if ltb current_time issued_at
    then base
    else attenuate_by base (active_from none schedule.thresholds issued_at current_time)

-- With no schedule the constraints stand.
unfoldable pub effective : Constraints → Option TemporalSchedule → ℕ → ℕ → Constraints
unfolding evaluate_temporal_constraints_raw
effective base none issued_at current_time = base
effective base (some schedule) issued_at current_time =
    evaluate_temporal_constraints_raw base schedule issued_at current_time

abbrev pub points : Option TemporalSchedule → List TemporalThreshold
points none = []
points (some schedule) = schedule.thresholds

-- The reference time of the check, datetime(2000, 1, 1), in microseconds since year 1.
abbrev pub epoch : ℕ
epoch = 63082281600000000

-- One time point: each of the three limits of the child is within that of the parent.
unfoldable pub exceeds_at :
    Constraints → Option TemporalSchedule → Constraints → Option TemporalSchedule → ℕ → Bool
exceeds_at parent parent_temporal child child_temporal seconds =
    let check_time = epoch + seconds * second in
    let parent_effective = effective parent parent_temporal epoch check_time in
    let child_effective = effective child child_temporal epoch check_time in
    exceeds child_effective.max_spend parent_effective.max_spend
    || exceeds child_effective.quantity_limit parent_effective.quantity_limit
    || exceeds child_effective.rate_limit parent_effective.rate_limit

unfoldable pub any_exceeds :
    Constraints
    → Option TemporalSchedule
    → Constraints
    → Option TemporalSchedule
    → List TemporalThreshold
    → Bool
any_exceeds parent pt child ct [] = false
any_exceeds parent pt child ct (t ∷ rest) =
    exceeds_at parent pt child ct t.at_seconds || any_exceeds parent pt child ct rest

-- The order in which the points are checked does not show: the first violation raises the same
-- exception whichever it is.
unfoldable pub verify_temporal_monotonicity :
    Constraints
    → Option TemporalSchedule
    → Constraints
    → Option TemporalSchedule
    → Result (Unit {0})
verify_temporal_monotonicity parent none child none = ok tt
verify_temporal_monotonicity parent pt child ct =
    raise_if
      (exceeds_at parent pt child ct 0
        || any_exceeds parent pt child ct (points pt)
        || any_exceeds parent pt child ct (points ct))
      attenuation_error
