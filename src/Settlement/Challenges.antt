-- ===== src/Settlement/Challenges.antt =====
-- The challenge period of a channel that one side closes.
use qasp.Prelude.{ℕ, ◌≤◌, ◌<◌, ◌≡◌, refl, ◌⊎◌, inl, inr, List, [], ◌∷◌, arith, leb, ltb, Bool-cases}
use qasp.Prelude.Int.{ℤ, ◌≤ℤ◌, leb_ℤ}
use qasp.Prelude.Result.{ok, err, channel_timeout}
use qasp.Settlement.{
  ChannelStateUpdate, PaymentChannel, Event, disputed_state, closed_state,
  channel_challenge_expired, channel_closed,
}
use qasp.Settlement.Closing.{Settlement, finalize_close, challenge}

-- Updates submitted as challenges, each at a time, in the order in which they come in. A challenge
-- that is refused raises and is passed over.
abbrev pub submit_all : List (ChannelStateUpdate × ℕ) → PaymentChannel → PaymentChannel
submit_all [] c = c
submit_all ((u, t) ∷ rest) c = submit_all rest (challenge u t c).1

-- No update that came in time is newer than n.
abbrev pub AllOlder : ℕ → ℤ → List (ChannelStateUpdate × ℕ) → Type 0
AllOlder deadline n [] = Unit
AllOlder deadline n ((u, t) ∷ rest) =
    (t < deadline → u.sequence_number ≤ℤ n) × AllOlder deadline n rest

-- One of the updates that came in time has the number n and the balances a and b.
abbrev pub Submitted : ℕ → ℤ → ℤ → ℤ → List (ChannelStateUpdate × ℕ) → Type 0
Submitted deadline n a b [] = ⊥
Submitted deadline n a b ((u, t) ∷ rest) =
    ((t < deadline) × (u.sequence_number ≡ n) × (u.agent_balance ≡ a) × (u.server_balance ≡ b))
    ⊎ Submitted deadline n a b rest

-- Number n with the balances a and b is the newest of the channel's own and the submitted states.
pub record Newest (c : PaymentChannel) (us : List (ChannelStateUpdate × ℕ)) (n a b : ℤ)
    : Type 0 where
  pub own : c.sequence ≤ℤ n
  pub others : AllOlder c.challenge_deadline n us
  pub held :
      ((c.sequence ≡ n) × (c.agent_balance ≡ a) × (c.server_balance ≡ b))
      ⊎ Submitted c.challenge_deadline n a b us

abbrev taken : ChannelStateUpdate → PaymentChannel → PaymentChannel
taken u c = record c {
  state = disputed_state;
  sequence = u.sequence_number;
  agent_balance = u.agent_balance;
  server_balance = u.server_balance;
}

challenge-cases :
    (u : ChannelStateUpdate) (t : ℕ) (c : PaymentChannel)
    → (((challenge u t c).1 ≡ c) × (t < c.challenge_deadline → u.sequence_number ≤ℤ c.sequence))
      ⊎ (((challenge u t c).1 ≡ taken u c)
          × (t < c.challenge_deadline)
          × (c.sequence ≤ℤ u.sequence_number))
unfolding challenge
challenge-cases u t c = elim (Bool-cases (leb c.challenge_deadline t)) [
  | inl late ↦ inl (rw late, λ h. absurd (ground arith))
  | inr early ↦ elim (Bool-cases (leb_ℤ u.sequence_number c.sequence)) [
    | inl old ↦ inl (rw (early, old), λ h. ground arith)
    | inr new ↦ inr (rw (early, new), ground arith, ground arith)
  ]
]

submit_all-Newest :
    (us : List (ChannelStateUpdate × ℕ)) (c : PaymentChannel)
    → ((submit_all us c).challenge_deadline ≡ c.challenge_deadline)
      × Newest c us
          (submit_all us c).sequence
          (submit_all us c).agent_balance
          (submit_all us c).server_balance
submit_all-Newest [] c =
    (refl, record { own = omega arith; others = tt; held = inl (refl, refl, refl) })
submit_all-Newest ((u, t) ∷ rest) c = elim (challenge-cases u t c) [
  | inl (same, old) ↦
      let (d, n) = submit_all-Newest rest c in
      rw (submit_all, same)
        (
          d,
          record {
            own = n.own;
            others = (λ h. omega (arith, old h, n.own), n.others);
            held = elim n.held [ inl x ↦ inl x | inr y ↦ inr (inr y) ];
          },
        )
  | inr (new, early, older) ↦
      let (d, n) = submit_all-Newest rest (taken u c) in
      rw (submit_all, new)
        (
          d,
          record {
            own = omega (arith, older, n.own);
            others = (λ h. n.own, n.others);
            held = elim n.held [ inl (x, y, z) ↦ inr (inl (early, x, y, z)) | inr y ↦ inr (inr y) ];
          },
        )
]

abbrev settlement_of : ℕ → PaymentChannel → Settlement
settlement_of now c = record {
  channel_id = c.channel_id;
  final_balance_a = c.agent_balance;
  final_balance_b = c.server_balance;
  payer = c.agent_did;
  payee = c.server_did;
  timestamp = now;
  receipt_hash = [];
  signatures = ([], []);
}

abbrev settled_events : PaymentChannel → List Event
settled_events c =
    channel_challenge_expired c.channel_id
    ∷ channel_closed c.channel_id c.agent_balance c.server_balance
    ∷ []

finalize_close-cases :
    (now : ℕ) (c : PaymentChannel)
    → ((now < c.challenge_deadline) × (finalize_close now c ≡ (err channel_timeout, c)))
      ⊎ ((c.challenge_deadline ≤ now)
          × (finalize_close now c
              ≡ (ok (settlement_of now c, settled_events c), record c { state = closed_state })))
unfolding finalize_close
finalize_close-cases now c = elim (Bool-cases (ltb now c.challenge_deadline)) [
  | inl early ↦ inl (ground arith, rw early)
  | inr late ↦ inr (ground arith, rw late)
]

-- Whatever updates are submitted to a closing channel, in whatever order and at whatever times,
-- settling before the deadline fails and changes nothing, and from the deadline on it succeeds: the
-- settlement pays out the balances of the newest among the channel's own state and the updates
-- that came in before the deadline.
pub settles_latest :
    (us : List (ChannelStateUpdate × ℕ)) (c : PaymentChannel) (now : ℕ)
    → ((now < c.challenge_deadline)
        × (finalize_close now (submit_all us c) ≡ (err channel_timeout, submit_all us c)))
      ⊎ ((c.challenge_deadline ≤ now)
          × (s : Settlement) × (events : List Event) × (finalize_close now (submit_all us c)
              ≡ (ok (s, events), record (submit_all us c) { state = closed_state }))
          × (n : ℤ) × Newest c us n s.final_balance_a s.final_balance_b)
settles_latest us c now =
    let (d, n) = submit_all-Newest us c in
    elim (finalize_close-cases now (submit_all us c)) [
      | inl (early, e) ↦ inl (omega (arith, d), e)
      | inr (late, e) ↦ inr (
        omega (arith, d),
        settlement_of now (submit_all us c),
        settled_events (submit_all us c),
        e,
        (submit_all us c).sequence,
        n,
      )
    ]
