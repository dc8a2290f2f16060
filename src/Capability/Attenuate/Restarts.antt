-- ===== src/Capability/Attenuate/Restarts.antt =====
-- An inherited schedule runs from the child's own time of issue.
use qasp.Prelude.{ℕ, Bytes, Option, none, some, ◌≡◌, refl, List, [], ◌∷◌, arith}
use qasp.Prelude.Result.{ok}
use qasp.Platform.{Platform}
use qasp.Capability.Constraints.{VerbSet, Constraints}
use qasp.Capability.Temporal.{
  TemporalThreshold, TemporalSchedule, active_from, evaluate_temporal_constraints_raw, effective,
}
use qasp.Capability.Token.{CapabilityToken}
use qasp.Capability.Token.Dids.{Did}
use qasp.Capability.Attenuate.{tighten_constraints, attenuate_token}
use qasp.Capability.Attenuate.Narrows.{attenuate-Made}

active_from_start :
    (s t : ℕ) (active : Option TemporalThreshold) (ts : List TemporalThreshold)
    → active_from active ts s s ≡ active_from active ts t t
unfolding active_from
active_from_start s t active [] = refl
active_from_start s t active (x ∷ ts) = ground (arith, active_from_start s t (some x) ts)

-- At its own time of issue a schedule leaves what it leaves at any other time of issue.
effective_start :
    (s t : ℕ) (c : Constraints) (schedule : Option TemporalSchedule)
    → effective c schedule s s ≡ effective c schedule t t
unfolding effective evaluate_temporal_constraints_raw
effective_start s t c none = refl
effective_start s t c (some schedule) =
    ground (arith, active_from_start s t none schedule.thresholds)

tightened_none : (c : Constraints) {d : Constraints} → tighten_constraints c none ≡ ok d → d ≡ c
unfolding tighten_constraints
tightened_none c h = cc

-- A child made with no tightening and no schedule of its own has, when it is made, the limits that
-- its parent had when the parent was made, however far the parent's have decayed since.
pub attenuate_restarts_decay :
    (p : Platform) (now : ℕ) (nonce : Bytes) (parent : CapabilityToken) (key : Bytes)
    (subject : Did) (verbs : Option VerbSet) (child : CapabilityToken)
    → attenuate_token p now nonce parent key subject verbs none none none none ≡ ok child
    → effective child.constraints child.temporal_attenuation child.issued_at now
      ≡ effective parent.constraints parent.temporal_attenuation parent.issued_at parent.issued_at
attenuate_restarts_decay p now nonce parent key subject verbs child h =
    let m = attenuate-Made p now nonce parent key subject verbs none none none none child h in
    rw (m.made, tightened_none parent.constraints m.tightened)
      (effective_start now parent.issued_at parent.constraints parent.temporal_attenuation)
