-- ===== src/Capability/Constraints.antt =====
-- `VerbSet` and `Constraints` of protocol/capability.py. Times are microseconds; limits are Python
-- integers of either sign. A frozenset is the list of its members.
pub mod Tighter
pub mod Tighten
use qasp.Prelude.{
  ℕ, zero, suc, ◌+◌, ◌-◌, String, Option, none, some, Bool, true, false, not, ◌&&◌, ◌||◌, List, [],
  ◌∷◌, ltb, length, take, drop, if◌then◌else◌, str_eq, texts_eq, has_text, is_nonempty, contains,
  issubset, intersection,
}
use qasp.Prelude.Int.{ℤ, pos, ltb_ℤ}

pub record VerbSet : Type 0 where
  pub verbs : List String

-- The methods of VerbSet.
abbrev pub verbs_issubset : VerbSet → VerbSet → Bool
verbs_issubset self other = issubset self.verbs other.verbs

abbrev pub verbs_intersection : VerbSet → VerbSet → VerbSet
verbs_intersection self other = record { verbs = intersection self.verbs other.verbs }

pub record Constraints : Type 0 where
  pub not_before : Option ℕ
  pub not_after : Option ℕ
  pub quantity_limit : Option ℤ
  pub quantity_unit : String
  pub rate_limit : Option ℤ
  pub rate_period_seconds : ℤ
  pub max_spend : Option ℤ
  pub spend_currency : String
  pub data_scope : List String
  pub purpose : String
  pub allowed_toolchain : List String

-- `Constraints()`: every field at its default.
abbrev pub unconstrained : Constraints
unconstrained = record {
  not_before = none;
  not_after = none;
  quantity_limit = none;
  quantity_unit = "";
  rate_limit = none;
  rate_period_seconds = pos 3600;
  max_spend = none;
  spend_currency = "";
  data_scope = [];
  purpose = "";
  allowed_toolchain = [];
}

-- The three shapes of the comparisons with None: the value of self, then that of other.
unfoldable pub starts_before : Option ℕ → Option ℕ → Bool
starts_before own none = false
starts_before none (some bound) = true
starts_before (some t) (some bound) = ltb t bound

unfoldable pub ends_after : Option ℕ → Option ℕ → Bool
ends_after own none = false
ends_after none (some bound) = true
ends_after (some t) (some bound) = ltb bound t

unfoldable pub exceeds : Option ℤ → Option ℤ → Bool
exceeds own none = false
exceeds none (some bound) = true
exceeds (some v) (some bound) = ltb_ℤ bound v

-- `parent[start : start + len(child)] == child` for one of `rounds` starts from `start` on.
unfoldable pub found_from : ℕ → ℕ → List String → List String → Bool
found_from zero start child parent = false
found_from (suc rounds) start child parent =
    texts_eq (take (length child) (drop start parent)) child
    || found_from rounds (suc start) child parent

unfoldable pub is_contiguous_sublist : List String → List String → Bool
unfolding found_from
is_contiguous_sublist [] parent = true
is_contiguous_sublist (tool ∷ rest) parent =
    let child = tool ∷ rest in
    if ltb (length parent) (length child)
    then false
    else found_from (length parent - length child + 1) 0 child parent

unfoldable pub is_tighter_than : Constraints → Constraints → Bool
is_tighter_than self other =
    if starts_before self.not_before other.not_before
    then false
    else if ends_after self.not_after other.not_after
    then false
    else if exceeds self.quantity_limit other.quantity_limit
    then false
    else if exceeds self.rate_limit other.rate_limit
    then false
    else if exceeds self.max_spend other.max_spend
    then false
    else if is_nonempty other.data_scope && not (issubset self.data_scope other.data_scope)
    then false
    else if has_text other.purpose && not (str_eq self.purpose other.purpose)
    then false
    else not (is_nonempty other.allowed_toolchain)
      || is_contiguous_sublist self.allowed_toolchain other.allowed_toolchain

-- The later start, the earlier end, the smaller limit; None is no bound.
unfoldable pub take_later : Option ℕ → Option ℕ → Option ℕ
take_later own none = own
take_later none (some t) = some t
take_later (some s) (some t) = if ltb s t then some t else some s

unfoldable pub take_earlier : Option ℕ → Option ℕ → Option ℕ
take_earlier own none = own
take_earlier none (some t) = some t
take_earlier (some s) (some t) = if ltb t s then some t else some s

unfoldable pub take_smaller : Option ℤ → Option ℤ → Option ℤ
take_smaller own none = own
take_smaller none (some v) = some v
take_smaller (some u) (some v) = if ltb_ℤ v u then some v else some u

-- The data scope and the toolchain: the members that both have, or the one that is not empty.
unfoldable pub narrow : List String → List String → List String
narrow [] delta = delta
narrow (x ∷ own) [] = x ∷ own
narrow (x ∷ own) (y ∷ delta) = intersection (x ∷ own) (y ∷ delta)

abbrev pub text_or : String → String → String
text_or s t = if has_text s then s else t

abbrev new_rate_period : Constraints → Option ℤ → ℤ → ℤ
new_rate_period self none period = self.rate_period_seconds
new_rate_period self (some limit) period = period

unfoldable pub tighten : Constraints → Constraints → Constraints
tighten self delta = record {
  not_before = take_later self.not_before delta.not_before;
  not_after = take_earlier self.not_after delta.not_after;
  quantity_limit = take_smaller self.quantity_limit delta.quantity_limit;
  quantity_unit = text_or delta.quantity_unit self.quantity_unit;
  rate_limit = take_smaller self.rate_limit delta.rate_limit;
  rate_period_seconds = new_rate_period self delta.rate_limit delta.rate_period_seconds;
  max_spend = take_smaller self.max_spend delta.max_spend;
  spend_currency = text_or delta.spend_currency self.spend_currency;
  data_scope = narrow self.data_scope delta.data_scope;
  purpose = text_or delta.purpose self.purpose;
  allowed_toolchain = narrow self.allowed_toolchain delta.allowed_toolchain;
}
