-- ===== src/Capability/Temporal/Monotone.antt =====
-- The check of `_verify_temporal_monotonicity` at finitely many points decides the order of the
-- effective limits at every time.
use qasp.Prelude.{
  ℕ, ◌+◌, ◌-◌, ◌*◌, ◌≤◌, ◌<◌, Option, none, some, ◌≡◌, refl, false, List, [], ◌∷◌, arith, leb, ltb,
  if◌then◌else◌,
}
use Prim.Native.Nat.{max}
use mathlib.Core.Bool.{◌||◌}
use native.Mathlib.Decide.{dec_lt, dec_le}
use qasp.Prelude.Result.{ok, raise_if, attenuation_error}
use qasp.Capability.Constraints.{Constraints}
use qasp.Capability.Constraints.Tighter.{exceeds_iff}
use qasp.Capability.Temporal.{
  TemporalThreshold, TemporalSchedule, second, epoch, points, is_due, active_from,
  evaluate_temporal_constraints_raw, effective, exceeds_at, any_exceeds,
  verify_temporal_monotonicity,
}
use qasp.Capability.Temporal.Decay.{LimitsWithin}

-- The last point that is due after `e` microseconds, 0 if none is.
latest : ℕ → List TemporalThreshold → ℕ
latest e [] = 0
latest e (t ∷ rest) =
    let m = latest e rest in
    if leb (t.at_seconds * second) e then (if ltb m t.at_seconds then t.at_seconds else m) else m

latest-le : (e : ℕ) (ts : List TemporalThreshold) → latest e ts * second ≤ e
unfolding latest
latest-le e [] = omega arith
latest-le e (t ∷ rest) = ground (arith, latest-le e rest)

-- Every point that is due at `e` is at most `s`.
abbrev Covers : ℕ → ℕ → List TemporalThreshold → Type 0
Covers e s [] = Unit
Covers e s (t ∷ rest) = (t.at_seconds * second ≤ e → t.at_seconds ≤ s) × Covers e s rest

latest-Covers : (e s : ℕ) (ts : List TemporalThreshold) → latest e ts ≤ s → Covers e s ts
unfolding latest
latest-Covers e s [] h = tt
latest-Covers e s (t ∷ rest) h = (λ due. ground arith, latest-Covers e s rest (ground arith))

-- The same threshold is active at the point `s` as after `e` microseconds.
active_from-Covers :
    (s issued_at now : ℕ) (active : Option TemporalThreshold) (ts : List TemporalThreshold)
    → issued_at ≤ now
    → s * second ≤ now - issued_at
    → Covers (now - issued_at) s ts
    → active_from active ts issued_at now ≡ active_from active ts epoch (epoch + s * second)
unfolding active_from
active_from-Covers s issued_at now active [] h k c = refl
active_from-Covers s issued_at now active (t ∷ rest) h k c =
    ground (arith, active_from-Covers s issued_at now (some t) rest h k c.1, c.0)

effective-Covers :
    (s issued_at now : ℕ) (base : Constraints) (schedule : Option TemporalSchedule)
    → issued_at ≤ now
    → s * second ≤ now - issued_at
    → Covers (now - issued_at) s (points schedule)
    → effective base schedule issued_at now ≡ effective base schedule epoch (epoch + s * second)
unfolding effective
effective-Covers s issued_at now base none h k c = refl
effective-Covers s issued_at now base (some schedule) h k c =
    ground (arith, active_from-Covers s issued_at now none schedule.thresholds h k c)

effective_early :
    (issued_at now : ℕ) (base : Constraints) (schedule : Option TemporalSchedule)
    → now < issued_at
    → effective base schedule issued_at now ≡ base
unfolding effective
effective_early issued_at now base none h = refl
effective_early issued_at now base (some schedule) h = ground arith

module _ (parent : Constraints) (pt : Option TemporalSchedule) (child : Constraints)
    (ct : Option TemporalSchedule) where
  -- The last due point is 0 or one of the points, so it has passed the check.
  latest_checked :
      (e : ℕ) (ts : List TemporalThreshold)
      → exceeds_at parent pt child ct 0 ≡ false
      → any_exceeds parent pt child ct ts ≡ false
      → exceeds_at parent pt child ct (latest e ts) ≡ false
  unfolding latest any_exceeds
  latest_checked e [] z a = z
  latest_checked e (t ∷ rest) z a = ground (arith, latest_checked e rest z)

  within_at :
      (s : ℕ)
      → exceeds_at parent pt child ct s ≡ false
      → LimitsWithin
          (effective child ct epoch (epoch + s * second))
          (effective parent pt epoch (epoch + s * second))
  unfolding exceeds_at
  within_at s h =
      let c = effective child ct epoch (epoch + s * second) in
      let p = effective parent pt epoch (epoch + s * second) in
      record {
        spend = (exceeds_iff c.max_spend p.max_spend).0 (ground arith);
        quantity = (exceeds_iff c.quantity_limit p.quantity_limit).0 (ground arith);
        rate = (exceeds_iff c.rate_limit p.rate_limit).0 (ground arith);
      }

  -- The point at which both schedules stand as they do after `e` microseconds.
  abbrev common : ℕ → ℕ
  common e = max (latest e (points pt)) (latest e (points ct))

  common_checked :
      (e : ℕ)
      → exceeds_at parent pt child ct 0 ≡ false
      → any_exceeds parent pt child ct (points pt) ≡ false
      → any_exceeds parent pt child ct (points ct) ≡ false
      → exceeds_at parent pt child ct (common e) ≡ false
  common_checked e z a b = elim (dec_le (latest e (points pt)) (latest e (points ct))) [
    | yes h ↦
        let m : common e ≡ latest e (points ct) = omega arith in
        rw m (latest_checked e (points ct) z b)
    | no h ↦
        let m : common e ≡ latest e (points pt) = omega arith in
        rw m (latest_checked e (points pt) z a)
  ]

  checked_within :
      exceeds_at parent pt child ct 0 ≡ false
      → any_exceeds parent pt child ct (points pt) ≡ false
      → any_exceeds parent pt child ct (points ct) ≡ false
      → LimitsWithin child parent
      → (issued_at now : ℕ)
      → LimitsWithin (effective child ct issued_at now) (effective parent pt issued_at now)
  checked_within z a b base issued_at now = elim (dec_lt now issued_at) [
    | yes early ↦
        rw
          (
            effective_early issued_at now child ct early,
            effective_early issued_at now parent pt early,
          )
          base
    | no late ↦
        let e = now - issued_at in
        let s = common e in
        let due : s * second ≤ e =
          omega (arith, latest-le e (points pt), latest-le e (points ct)) in
        rw
          (
            effective-Covers s issued_at now child ct (omega arith) due
                (latest-Covers e s (points ct) (omega arith)),
            effective-Covers s issued_at now parent pt (omega arith) due
                (latest-Covers e s (points pt) (omega arith)),
          )
          (within_at s (common_checked e z a b))
  ]

  checks_pass :
      raise_if
          (exceeds_at parent pt child ct 0
            || any_exceeds parent pt child ct (points pt)
            || any_exceeds parent pt child ct (points ct))
          attenuation_error
        ≡ ok tt
      → (exceeds_at parent pt child ct 0 ≡ false)
        × (any_exceeds parent pt child ct (points pt) ≡ false)
        × (any_exceeds parent pt child ct (points ct) ≡ false)
  checks_pass h = ground arith

-- If the check passes, and the child's own limits are within the parent's, then at every time the
-- limits that the child's schedule leaves are within those that the parent's schedule leaves, both
-- counted from one and the same issue time: the finitely many points that the check visits stand for
-- all times.
pub monotonicity_sound :
    (parent : Constraints) (pt : Option TemporalSchedule) (child : Constraints)
    (ct : Option TemporalSchedule) (issued_at now : ℕ)
    → LimitsWithin child parent
    → verify_temporal_monotonicity parent pt child ct ≡ ok tt
    → LimitsWithin (effective child ct issued_at now) (effective parent pt issued_at now)
unfolding verify_temporal_monotonicity
monotonicity_sound parent none child none issued_at now base h = unfold effective in base
monotonicity_sound parent none child (some c) issued_at now base h =
    let (z, a, b) = checks_pass parent none child (some c) h in
    checked_within parent none child (some c) z a b base issued_at now
monotonicity_sound parent (some p) child ct issued_at now base h =
    let (z, a, b) = checks_pass parent (some p) child ct h in
    checked_within parent (some p) child ct z a b base issued_at now

-- What a schedule leaves depends on the time since the issue alone.
is_due_shift :
    (t : TemporalThreshold) (i j elapsed : ℕ) → is_due t i (i + elapsed) ≡ is_due t j (j + elapsed)
is_due_shift t i j elapsed = ground arith

active_from_shift :
    (active : Option TemporalThreshold) (ts : List TemporalThreshold) (i j elapsed : ℕ)
    → active_from active ts i (i + elapsed) ≡ active_from active ts j (j + elapsed)
unfolding active_from
active_from_shift active [] i j elapsed = refl
active_from_shift active (t ∷ ts) i j elapsed =
    rw (is_due_shift t i j elapsed, active_from_shift (some t) ts i j elapsed) refl

pub effective_shift :
    (c : Constraints) (t : Option TemporalSchedule) (i j elapsed : ℕ)
    → effective c t i (i + elapsed) ≡ effective c t j (j + elapsed)
unfolding effective evaluate_temporal_constraints_raw
effective_shift c none i j elapsed = refl
effective_shift c (some s) i j elapsed =
    let here : ltb (i + elapsed) i ≡ false = ground arith in
    let there : ltb (j + elapsed) j ≡ false = ground arith in
    rw (here, there, active_from_shift none s.thresholds i j elapsed) refl

-- The same for tokens of different ages, each as long after its own issue.
pub monotonicity_aged :
    (parent : Constraints) (pt : Option TemporalSchedule) (child : Constraints)
    (ct : Option TemporalSchedule) (i j elapsed : ℕ)
    → LimitsWithin child parent
    → verify_temporal_monotonicity parent pt child ct ≡ ok tt
    → LimitsWithin (effective child ct i (i + elapsed)) (effective parent pt j (j + elapsed))
monotonicity_aged parent pt child ct i j elapsed base h =
    rw (effective_shift parent pt j i elapsed)
      (monotonicity_sound parent pt child ct i (i + elapsed) base h)
