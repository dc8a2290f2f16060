-- ===== src/Capability/Constraints/Tighter.antt =====
-- What `is_tighter_than` decides.
use qasp.Prelude.{
  ℕ, zero, suc, ◌+◌, ◌-◌, ◌≤◌, ◌<◌, String, Option, none, some, ◌≡◌, refl, sym, ap, ◌↔◌, inl, inr,
  true, false, List, [], ◌∷◌, ◌++◌, arith, length, take, drop, Bool-cases, has_text, is_nonempty,
  issubset, texts_eq, texts_eq_iff, eq_iff, str_eq, length-append, take-append-drop,
}
use native.Mathlib.Decide.{dec_lt}
use qasp.Prelude.Int.{ℤ, ◌≤ℤ◌}
use qasp.Capability.Constraints.{
  Constraints, starts_before, ends_after, exceeds, found_from, is_contiguous_sublist,
  is_tighter_than,
}

-- A bound that holds of an optional value: without a bound every value will do, and a missing
-- value is within no bound.
abbrev pub NotBefore : Option ℕ → Option ℕ → Type 0
NotBefore own none = Unit
NotBefore none (some bound) = ⊥
NotBefore (some t) (some bound) = bound ≤ t

abbrev pub NotAfter : Option ℕ → Option ℕ → Type 0
NotAfter own none = Unit
NotAfter none (some bound) = ⊥
NotAfter (some t) (some bound) = t ≤ bound

abbrev pub Within : Option ℤ → Option ℤ → Type 0
Within own none = Unit
Within none (some bound) = ⊥
Within (some v) (some bound) = v ≤ℤ bound

abbrev pub IsInfix : List String → List String → Type 0
IsInfix child parent =
    (before : List String) × (after : List String) × (parent ≡ before ++ (child ++ after))

pub record IsTighter (self other : Constraints) : Type 0 where
  pub starts : NotBefore self.not_before other.not_before
  pub ends : NotAfter self.not_after other.not_after
  pub quantity : Within self.quantity_limit other.quantity_limit
  pub rate : Within self.rate_limit other.rate_limit
  pub spend : Within self.max_spend other.max_spend
  pub scope : is_nonempty other.data_scope ≡ true → issubset self.data_scope other.data_scope ≡ true
  pub purpose : has_text other.purpose ≡ true → self.purpose ≡ other.purpose
  pub toolchain :
      is_nonempty other.allowed_toolchain ≡ true
      → IsInfix self.allowed_toolchain other.allowed_toolchain

starts_before_iff : (a b : Option ℕ) → (starts_before a b ≡ false) ↔ NotBefore a b
unfolding starts_before
starts_before_iff a none = ground arith
starts_before_iff none (some b) = ground arith
starts_before_iff (some a) (some b) = ground arith

ends_after_iff : (a b : Option ℕ) → (ends_after a b ≡ false) ↔ NotAfter a b
unfolding ends_after
ends_after_iff a none = ground arith
ends_after_iff none (some b) = ground arith
ends_after_iff (some a) (some b) = ground arith

pub exceeds_iff : (a b : Option ℤ) → (exceeds a b ≡ false) ↔ Within a b
unfolding exceeds
exceeds_iff a none = ground arith
exceeds_iff none (some b) = ground arith
exceeds_iff (some a) (some b) = ground arith

-- `take` of a prefix, and the slice that a round of the loop compares.
take-append : (xs ys : List String) → take (length xs) (xs ++ ys) ≡ xs
take-append [] ys = refl
take-append (x ∷ xs) ys = ap (λ l. x ∷ l) (take-append xs ys)

drop-append : (xs ys : List String) → drop (length xs) (xs ++ ys) ≡ ys
drop-append [] ys = refl
drop-append (x ∷ xs) ys = drop-append xs ys

take-drop-IsInfix :
    (n k : ℕ) (child parent : List String) → take n (drop k parent) ≡ child → IsInfix child parent
take-drop-IsInfix n k child parent e =
    let whole : take n (drop k parent) ++ drop n (drop k parent) ≡ drop k parent =
      take-append-drop n (drop k parent) in
    (take k parent, drop n (drop k parent), sym (rw (← e, whole) (take-append-drop k parent)))

found_from-IsInfix :
    (rounds start : ℕ) (child parent : List String)
    → found_from rounds start child parent ≡ true
    → IsInfix child parent
unfolding found_from
found_from-IsInfix zero start child parent h = cc
found_from-IsInfix (suc rounds) start child parent h =
    elim (Bool-cases (texts_eq (take (length child) (drop start parent)) child)) [
      | inl hit ↦ take-drop-IsInfix (length child) start child parent ((texts_eq_iff _ child).0 hit)
      | inr miss ↦ found_from-IsInfix rounds (suc start) child parent (ground arith)
    ]

IsInfix-found_from :
    (rounds start : ℕ) (child before after : List String)
    → start ≤ length before
    → length before < start + rounds
    → found_from rounds start child (before ++ (child ++ after)) ≡ true
unfolding found_from
IsInfix-found_from zero start child before after h k = absurd (omega arith)
IsInfix-found_from (suc rounds) start child before after h k = elim (dec_lt start (length before)) [
  | yes early ↦
      ground (arith, IsInfix-found_from rounds (suc start) child before after early (omega arith))
  | no late ↦
      let e : start ≡ length before = omega arith in
      rw (e, drop-append before (child ++ after), take-append child after)
        (ground (arith, texts_eq_iff child child))
]

-- A toolchain is a contiguous sublist exactly when it is a run of the other: some tools before it
-- and some after it make up the whole.
pub is_contiguous_sublist_iff :
    (child parent : List String)
    → (is_contiguous_sublist child parent ≡ true) ↔ IsInfix child parent
unfolding is_contiguous_sublist
is_contiguous_sublist_iff [] parent = (λ _. ([], parent, refl), λ _. refl)
is_contiguous_sublist_iff (tool ∷ rest) parent = (
  λ h.
      found_from-IsInfix (length parent - length (tool ∷ rest) + 1) 0 (tool ∷ rest) parent
        (ground arith),
  λ (before, after, e).
      let child = tool ∷ rest in
      let size : length parent ≡ length before + (length child + length after) =
        rw e (omega (arith, length-append before (child ++ after), length-append child after)) in
      let rounds = length parent - length child + 1 in
      let hit : found_from rounds 0 child parent ≡ true = rw e (
        IsInfix-found_from (length (before ++ (child ++ after)) - length child + 1) 0 child before
          after (omega arith) (rw (← e) (omega arith))) in
      ground arith,
)

tighter_tests :
    (s o : Constraints)
    → is_tighter_than s o ≡ true
    → (starts_before s.not_before o.not_before ≡ false)
      × (ends_after s.not_after o.not_after ≡ false)
      × (exceeds s.quantity_limit o.quantity_limit ≡ false)
      × (exceeds s.rate_limit o.rate_limit ≡ false)
      × (exceeds s.max_spend o.max_spend ≡ false)
      × (is_nonempty o.data_scope ≡ true → issubset s.data_scope o.data_scope ≡ true)
      × (has_text o.purpose ≡ true → str_eq s.purpose o.purpose ≡ true)
      × (is_nonempty o.allowed_toolchain ≡ true
          → is_contiguous_sublist s.allowed_toolchain o.allowed_toolchain ≡ true)
unfolding is_tighter_than
tighter_tests s o h = ground arith

tests_tighter :
    (s o : Constraints)
    → starts_before s.not_before o.not_before ≡ false
    → ends_after s.not_after o.not_after ≡ false
    → exceeds s.quantity_limit o.quantity_limit ≡ false
    → exceeds s.rate_limit o.rate_limit ≡ false
    → exceeds s.max_spend o.max_spend ≡ false
    → (is_nonempty o.data_scope ≡ true → issubset s.data_scope o.data_scope ≡ true)
    → (has_text o.purpose ≡ true → str_eq s.purpose o.purpose ≡ true)
    → (is_nonempty o.allowed_toolchain ≡ true
        → is_contiguous_sublist s.allowed_toolchain o.allowed_toolchain ≡ true)
    → is_tighter_than s o ≡ true
unfolding is_tighter_than
tests_tighter s o a b c d e f g h = ground arith

-- The test is true exactly when every field is within the bound that the other sets: the times,
-- the three limits, the scope where the other has one, the purpose where the other has one, and
-- the toolchain, as a contiguous run, where the other has one.
pub is_tighter_than_iff : (s o : Constraints) → (is_tighter_than s o ≡ true) ↔ IsTighter s o
is_tighter_than_iff s o = (
  λ h.
      let t = tighter_tests s o h in
      record {
        starts = (starts_before_iff s.not_before o.not_before).0 t.0;
        ends = (ends_after_iff s.not_after o.not_after).0 t.1;
        quantity = (exceeds_iff s.quantity_limit o.quantity_limit).0 t.2;
        rate = (exceeds_iff s.rate_limit o.rate_limit).0 t.3;
        spend = (exceeds_iff s.max_spend o.max_spend).0 t.4;
        scope = t.5;
        purpose = λ p. (eq_iff s.purpose o.purpose).0 (t.6 p);
        toolchain =
            λ p. (is_contiguous_sublist_iff s.allowed_toolchain o.allowed_toolchain).0 (t.7 p);
      },
  λ h.
      tests_tighter s o ((starts_before_iff s.not_before o.not_before).1 h.starts)
        ((ends_after_iff s.not_after o.not_after).1 h.ends)
        ((exceeds_iff s.quantity_limit o.quantity_limit).1 h.quantity)
        ((exceeds_iff s.rate_limit o.rate_limit).1 h.rate)
        ((exceeds_iff s.max_spend o.max_spend).1 h.spend) h.scope
        (λ p. (eq_iff s.purpose o.purpose).1 (h.purpose p))
        (λ p.
          (is_contiguous_sublist_iff s.allowed_toolchain o.allowed_toolchain).1 (h.toolchain p)),
)
