-- ===== src/Capability/Temporal/Decay.antt =====
-- Temporal attenuation never loosens a limit.
use qasp.Prelude.{ℕ, Option, none, some, inl, inr, arith, ltb, Bool-cases}
use qasp.Prelude.Int.{ℤ}
use qasp.Capability.Constraints.{Constraints}
use qasp.Capability.Constraints.Tighter.{Within}
use qasp.Capability.Temporal.{
  TemporalThreshold, TemporalSchedule, min_or_base, attenuate_by, active_from,
  evaluate_temporal_constraints_raw,
}

pub Within-refl : (a : Option ℤ) → Within a a
Within-refl none = tt
Within-refl (some v) = omega arith

Within-min_or_base : (base v : Option ℤ) → Within (min_or_base base v) base
unfolding min_or_base
Within-min_or_base none none = ground arith
Within-min_or_base (some b) none = ground arith
Within-min_or_base none (some v) = ground arith
Within-min_or_base (some b) (some v) = ground arith

-- The three limits of one set of constraints are within those of another.
pub record LimitsWithin (c other : Constraints) : Type 0 where
  pub spend : Within c.max_spend other.max_spend
  pub quantity : Within c.quantity_limit other.quantity_limit
  pub rate : Within c.rate_limit other.rate_limit

LimitsWithin-refl : (c : Constraints) → LimitsWithin c c
LimitsWithin-refl c = record {
  spend = Within-refl c.max_spend;
  quantity = Within-refl c.quantity_limit;
  rate = Within-refl c.rate_limit;
}

LimitsWithin-attenuate_by :
    (base : Constraints) (t : Option TemporalThreshold) → LimitsWithin (attenuate_by base t) base
LimitsWithin-attenuate_by base none = LimitsWithin-refl base
LimitsWithin-attenuate_by base (some t) = record {
  spend = Within-min_or_base base.max_spend t.max_spend;
  quantity = Within-min_or_base base.quantity_limit t.quantity_limit;
  rate = Within-min_or_base base.rate_limit t.rate_limit;
}

-- At any time the effective limits are within the base ones: a schedule only ever takes away.
pub temporal-LimitsWithin :
    (base : Constraints) (schedule : TemporalSchedule) (issued_at now : ℕ)
    → LimitsWithin (evaluate_temporal_constraints_raw base schedule issued_at now) base
unfolding evaluate_temporal_constraints_raw
temporal-LimitsWithin base schedule issued_at now = elim (Bool-cases (ltb now issued_at)) [
  | inl early ↦ rw early (LimitsWithin-refl base)
  | inr late ↦
      rw late (LimitsWithin-attenuate_by base (active_from none schedule.thresholds issued_at now))
]
