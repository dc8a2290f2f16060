-- ===== src/Relay/Debits.antt =====
-- The debits that wait, and what a call of `consume` does.
use qasp.Prelude.{
  ℕ, ◌+◌, ◌≡◌, refl, Bool, false, ◌==◌, Option, List, [], ◌∷◌, ◌⊎◌, inl, inr, arith, Bool-cases,
}
use qasp.Prelude.Result.{Error, session_budget_exhausted, runtime_error, err}
use qasp.Relay.{
  RelaySession, RelaySessionState, suspended, TokenBucket, Debit, short, allowed, active, ◌is◌,
  set_debit, get_debit, drop_debit, charge, consume,
}
use qasp.Relay.Ledger.{Budget, messages, sizes, left, weight, waiting, weight_of, Below}

pub Below-suc : (n : ℕ) (ds : List Debit) → Below n ds → Below (n + 1) ds
unfolding Below
Below-suc n [] h = tt
Below-suc n (d ∷ ds) (lt, rest) = (omega arith, Below-suc n ds rest)

pub set_debit-new :
    (d : Debit) (ds : List Debit)
    → Below d.seq ds
    → ((b : Budget) → waiting b (set_debit d ds) ≡ weight b d + waiting b ds)
      × Below (d.seq + 1) (set_debit d ds)
unfolding set_debit waiting Below
set_debit-new d [] h = (λ b. refl, (omega arith, tt))
set_debit-new d (e ∷ es) (lt, rest) =
    let other : (e.seq == d.seq) ≡ false = ground arith in
    let (sums, below) = set_debit-new d es rest in
    rw other (λ b. rw (sums b) (omega arith), (omega arith, below))

pub drop_debit-sum :
    (b : Budget) (n : ℕ) (ds : List Debit)
    → weight_of b (get_debit n ds) + waiting b (drop_debit n ds) ≡ waiting b ds
unfolding drop_debit get_debit weight_of waiting
drop_debit-sum b n [] = refl
drop_debit-sum b n (e ∷ es) = elim (Bool-cases (e.seq == n)) [
  | inl same ↦ rw same refl
  | inr other ↦ rw other (ground (arith, drop_debit-sum b n es))
]

pub drop_debit-Below : (n k : ℕ) (ds : List Debit) → Below k ds → Below k (drop_debit n ds)
unfolding drop_debit Below
drop_debit-Below n k [] h = tt
drop_debit-Below n k (e ∷ es) (lt, rest) = elim (Bool-cases (e.seq == n)) [
  | inl same ↦ rw same rest
  | inr other ↦ rw other (lt, drop_debit-Below n k es rest)
]

-- The two sessions differ at most in state and bucket.
pub record SameBooks (s t : RelaySession) : Type 0 where
  pub same_msgs : t.msg_remaining ≡ s.msg_remaining
  pub same_bytes : t.bytes_remaining ≡ s.bytes_remaining
  pub same_debits : t.pending_debits ≡ s.pending_debits
  pub same_next : t.next_seq ≡ s.next_seq

pub same_left : {s t : RelaySession} (b : Budget) → SameBooks s t → left b t ≡ left b s
unfolding left
same_left messages same = same.same_msgs
same_left sizes same = same.same_bytes

pub booked :
    (s : RelaySession) (state : RelaySessionState) (bucket : Option TokenBucket)
    → SameBooks s (record s { state = state; rate_bucket = bucket })
booked s state bucket = record {
  same_msgs = refl;
  same_bytes = refl;
  same_debits = refl;
  same_next = refl;
}

-- A message is refused, or it is charged to a session that can pay.
pub consume-cases :
    (payload_len now : ℕ) (r : Bool) (s : RelaySession)
    → ((e : Error) × ((consume payload_len r now s).1 ≡ err e)
        × SameBooks s (consume payload_len r now s).0)
      ⊎ ((t : RelaySession) × (consume payload_len r now s ≡ charge payload_len r t)
          × SameBooks s t
          × (short s.msg_remaining 1 ≡ false)
          × (short s.bytes_remaining payload_len ≡ false))
unfolding consume
consume-cases payload_len now r s = elim (Bool-cases (s.state is active)) [
  | inr other ↦ inl (runtime_error, rw other refl, rw other (booked s s.state s.rate_bucket))
  | inl live ↦ elim (Bool-cases (short s.msg_remaining 1)) [
    | inl none_left ↦ inl (
      session_budget_exhausted,
      rw (live, none_left) refl,
      rw (live, none_left) (booked s suspended s.rate_bucket),
    )
    | inr enough ↦ elim (Bool-cases (short s.bytes_remaining payload_len)) [
      | inl too_long ↦ inl (
        session_budget_exhausted,
        rw (live, enough, too_long) refl,
        rw (live, enough, too_long) (booked s suspended s.rate_bucket),
      )
      | inr fits ↦
          let bucket = (allowed now s.rate_bucket).0 in
          elim (Bool-cases (allowed now s.rate_bucket).1) [
            | inr slow ↦ inl (
              session_budget_exhausted,
              rw (live, enough, fits, slow) refl,
              rw (live, enough, fits, slow) (booked s s.state bucket),
            )
            | inl may ↦ inr (
              record s { rate_bucket = bucket },
              rw (live, enough, fits, may) refl,
              booked s s.state bucket,
              enough,
              fits,
            )
          ]
    ]
  ]
]
