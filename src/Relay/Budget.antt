-- ===== src/Relay/Budget.antt =====
-- The budgets of a relay's session are conserved.
use qasp.Prelude.{
  ℕ, ◌+◌, ◌≡◌, refl, sym, ◌∙◌, ap, Bool, true, false, Option, none, some, List, [], ◌∷◌, inl, inr,
  if◌then◌else◌, arith, Bool-cases, Option-cases,
}
use qasp.Relay.{
  RelaySession, RelaySessionState, idle, verifying, notifying, closing, Debit, credit, debit, short,
  active, ◌is◌, get_debit, drop_debit, charge, consume, confirm_delivery, rollback_pending,
  on_epoch_rotation, move_from,
}
use qasp.Relay.Ledger.{
  Step, consumes, confirms, rolls_back, requests, verifies, refuses, accepts, closes, rotates, step,
  steps, Budget, messages, sizes, left, weight, waiting, weight_of, paid, used, all_used, Below,
  held,
}
use qasp.Relay.Debits.{
  Below-suc, set_debit-new, drop_debit-sum, drop_debit-Below, SameBooks, same_left, booked,
  consume-cases,
}

credit-credit : (o : Option ℕ) (m n k : ℕ) → m + n ≡ k → credit (credit o m) n ≡ credit o k
credit-credit none m n k h = refl
credit-credit (some l) m n k h = ap some (omega arith)

-- A debit and what it took.
credit-debit :
    (o : Option ℕ) (n k : ℕ) → short o n ≡ false → credit (debit o n) (n + k) ≡ credit o k
credit-debit none n k h = refl
credit-debit (some m) n k h = ap some (ground arith)

same_held : {s t : RelaySession} (b : Budget) → SameBooks s t → held b t ≡ held b s
unfolding held
same_held b same = rw (same_left b same, same.same_debits) refl

credit_zero : (o : Option ℕ) → credit o 0 ≡ o
credit_zero none = refl
credit_zero (some l) = ap some (omega arith)

left_eq :
    (b : Budget) (s t : RelaySession)
    → t.msg_remaining ≡ s.msg_remaining
    → t.bytes_remaining ≡ s.bytes_remaining
    → left b t ≡ left b s
unfolding left
left_eq messages s t m n = m
left_eq sizes s t m n = n

confirmed :
    (b : Budget) (n : ℕ) (s : RelaySession)
    → Below s.next_seq s.pending_debits
    → (credit (held b (confirm_delivery n s)) (weight_of b (get_debit n s.pending_debits))
        ≡ held b s)
      × Below s.next_seq (drop_debit n s.pending_debits)
unfolding held confirm_delivery
confirmed b n s h = (
  rw (left_eq b s (confirm_delivery n s) refl refl) (
      credit-credit (left b s) (waiting b (drop_debit n s.pending_debits))
        (weight_of b (get_debit n s.pending_debits)) (waiting b s.pending_debits)
        (ground (arith, drop_debit-sum b n s.pending_debits))),
  drop_debit-Below n s.next_seq s.pending_debits h,
)

-- A session with the debit of that number given back.
abbrev given_back : ℕ → Debit → RelaySession → RelaySession
given_back n d s = record s {
  pending_debits = drop_debit n s.pending_debits;
  msg_remaining = credit s.msg_remaining d.msgs;
  bytes_remaining = credit s.bytes_remaining d.size;
}

rollback_none :
    (n : ℕ) (s : RelaySession) → get_debit n s.pending_debits ≡ none → rollback_pending n s ≡ s
unfolding rollback_pending
rollback_none n s e = rw (rollback_pending, e) refl

rollback_some :
    (n : ℕ) (d : Debit) (s : RelaySession)
    → get_debit n s.pending_debits ≡ some d
    → rollback_pending n s ≡ given_back n d s
unfolding rollback_pending
rollback_some n d s e = rw (rollback_pending, e) refl

returned :
    (b : Budget) (n : ℕ) (d : Debit) (s : RelaySession)
    → left b (given_back n d s) ≡ credit (left b s) (weight b d)
unfolding left weight
returned messages n d s = refl
returned sizes n d s = refl

rolled_back :
    (b : Budget) (n : ℕ) (s : RelaySession)
    → Below s.next_seq s.pending_debits
    → (held b (rollback_pending n s) ≡ held b s)
      × Below (rollback_pending n s).next_seq (rollback_pending n s).pending_debits
unfolding held weight_of
rolled_back b n s h = elim (Option-cases (get_debit n s.pending_debits)) [
  | inl nothing ↦ rw (rollback_none n s nothing) (refl, h)
  | inr (d, found) ↦
      let sum : weight b d + waiting b (drop_debit n s.pending_debits)
          ≡ waiting b s.pending_debits =
        rw found at (drop_debit-sum b n s.pending_debits) in
      rw (rollback_some n d s found) (
        rw (returned b n d s) (
            credit-credit (left b s) (weight b d) (waiting b (drop_debit n s.pending_debits))
              (waiting b s.pending_debits) sum),
        drop_debit-Below n s.next_seq s.pending_debits h,
      )
]

taken :
    (b : Budget) (payload_len : ℕ) (r : Bool) (t : RelaySession)
    → left b (charge payload_len r t).0
      ≡ debit (left b t) (weight b (record { seq = t.next_seq; msgs = 1; size = payload_len }))
unfolding left weight charge
taken messages payload_len r t = refl
taken sizes payload_len r t = refl

can_pay :
    (b : Budget) (n payload_len : ℕ) (t : RelaySession)
    → short t.msg_remaining 1 ≡ false
    → short t.bytes_remaining payload_len ≡ false
    → short (left b t) (weight b (record { seq = n; msgs = 1; size = payload_len })) ≡ false
unfolding left weight
can_pay messages n payload_len t enough fits = enough
can_pay sizes n payload_len t enough fits = fits

-- A reserved message is still held, and one that is not is gone.
charge-held :
    (b : Budget) (payload_len : ℕ) (r : Bool) (t : RelaySession)
    → Below t.next_seq t.pending_debits
    → short t.msg_remaining 1 ≡ false
    → short t.bytes_remaining payload_len ≡ false
    → (credit
          (held b (charge payload_len r t).0)
          (if r then 0 else weight b (record { seq = t.next_seq; msgs = 1; size = payload_len }))
        ≡ held b t)
      × Below (t.next_seq + 1) (charge payload_len r t).0.pending_debits
unfolding held charge
charge-held b payload_len true t h enough fits =
    let d : Debit = record { seq = t.next_seq; msgs = 1; size = payload_len } in
    let (sums, below) = set_debit-new d t.pending_debits h in
    (
      credit_zero (held b (charge payload_len true t).0)
          ∙ rw (taken b payload_len true t, sums b)
              (credit-debit (left b t) (weight b d) (waiting b t.pending_debits)
                (can_pay b t.next_seq payload_len t enough fits)),
      below,
    )
charge-held b payload_len false t h enough fits =
    let d : Debit = record { seq = t.next_seq; msgs = 1; size = payload_len } in
    (
      rw (taken b payload_len false t) (
          credit-credit (debit (left b t) (weight b d)) (waiting b t.pending_debits) (weight b d)
            (weight b d + waiting b t.pending_debits) (omega arith)
          ∙ credit-debit (left b t) (weight b d) (waiting b t.pending_debits)
              (can_pay b t.next_seq payload_len t enough fits)),
      Below-suc t.next_seq t.pending_debits h,
    )

consumed :
    (b : Budget) (payload_len now : ℕ) (r : Bool) (s : RelaySession)
    → Below s.next_seq s.pending_debits
    → (credit
          (held b (consume payload_len r now s).0)
          (paid b payload_len r (consume payload_len r now s).1)
        ≡ held b s)
      × Below
          (consume payload_len r now s).0.next_seq
          (consume payload_len r now s).0.pending_debits
unfolding paid charge
consumed b payload_len now r s h = elim (consume-cases payload_len now r s) [
  | inl (e, refused, same) ↦ (
    rw refused (credit_zero (held b (consume payload_len r now s).0) ∙ same_held b same),
    rw (same.same_next, same.same_debits) h,
  )
  | inr (t, charged, same, enough, fits) ↦
      let (sum, below) =
        charge-held b payload_len r t (rw (same.same_next, same.same_debits) h)
          (rw same.same_msgs enough) (rw same.same_bytes fits) in
      rw charged (sum ∙ same_held b same, below)
]

unmoved :
    (b : Budget) (s t : RelaySession)
    → SameBooks s t
    → Below s.next_seq s.pending_debits
    → (credit (held b t) 0 ≡ held b s) × Below t.next_seq t.pending_debits
unmoved b s t same h =
    (credit_zero (held b t) ∙ same_held b same, rw (same.same_next, same.same_debits) h)

move_from-SameBooks :
    (old new : RelaySessionState) (s : RelaySession) → SameBooks s (move_from old new s).0
unfolding move_from
move_from-SameBooks old new s = elim (Bool-cases (s.state is old)) [
  | inl may ↦ rw may (booked s new s.rate_bucket)
  | inr other ↦ rw other (booked s s.state s.rate_bucket)
]

step-held :
    (b : Budget) (a : Step) (s : RelaySession)
    → Below s.next_seq s.pending_debits
    → (credit (held b (step a s)) (used b a s) ≡ held b s)
      × Below (step a s).next_seq (step a s).pending_debits
unfolding step used
step-held b (consumes payload_len r now) s h = consumed b payload_len now r s h
step-held b (confirms n) s h = confirmed b n s h
step-held b (rolls_back n) s h =
    let (same, below) = rolled_back b n s h in
    (credit_zero (held b (rollback_pending n s)) ∙ same, below)
step-held b requests s h = unmoved b s _ (move_from-SameBooks idle verifying s) h
step-held b verifies s h = unmoved b s _ (move_from-SameBooks verifying notifying s) h
step-held b refuses s h = unmoved b s _ (booked s idle s.rate_bucket) h
step-held b accepts s h = unmoved b s _ (move_from-SameBooks notifying active s) h
step-held b closes s h = unmoved b s _ (booked s closing s.rate_bucket) h
step-held b (rotates x y epoch) s h =
    unmoved b s (on_epoch_rotation x y epoch s)
      (record { same_msgs = refl; same_bytes = refl; same_debits = refl; same_next = refl }) h

-- Over any steps of a session whose waiting debits have numbers that were given out, both budgets
-- are conserved: what is left, what waits and what was used up for good add up to what was there, and
-- a budget that is not limited stays so.
pub steps-held :
    (b : Budget) (run : List Step) (s : RelaySession)
    → Below s.next_seq s.pending_debits
    → credit (held b (steps run s)) (all_used b run s) ≡ held b s
unfolding steps all_used
steps-held b [] s h = credit_zero (held b s)
steps-held b (a ∷ run) s h =
    let (one, below) = step-held b a s h in
    sym (
      credit-credit (held b (steps run (step a s))) (all_used b run (step a s)) (used b a s)
        (used b a s + all_used b run (step a s)) (omega arith))
    ∙ (ap (λ o. credit o (used b a s)) (steps-held b run (step a s) below) ∙ one)
