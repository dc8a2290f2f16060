-- ===== src/Settlement/Verdict.antt =====
-- What an auditor's verdict does to a disputed channel.
use qasp.Prelude.{ℕ, Bytes, ◌≡◌, inl, inr, true, false, List, [], ◌∷◌, ◌++◌, arith, Bool-cases}
use qasp.Prelude.Int.{ℤ, pos, ◌+ℤ◌, ◌-ℤ◌, ◌≤ℤ◌, ◌<ℤ◌, ltb_ℤ, ltb_ℤ-le, le-ltb_ℤ, int_laws}
use qasp.Prelude.Result.{ok}
use qasp.Platform.{Platform, IsKeyPair}
use qasp.Settlement.{
  ChannelStateUpdate, PaymentChannel, Event, verdict_enforced, open_state, sign_as, last_hash,
  signable_bytes,
}
use qasp.Settlement.Closing.{
  DisputeVerdict, is_disputed, clamped, check_verdict, adjusted, verdict_update, record_verdict,
  apply_verdict,
}
use qasp.Settlement.Round.{deposit}

-- The channel after a verdict that awards `award`.
pub record Enforced (p : Platform) (public_key : Bytes) (award : ℤ) (c c' : PaymentChannel)
    (s : ChannelStateUpdate) : Type 0 where
  pub state : c'.state ≡ open_state
  pub conserved : deposit c' ≡ deposit c
  pub awarded : award ≤ℤ c.server_balance → c'.agent_balance ≡ c.agent_balance +ℤ award
  pub exhausted :
      c.server_balance <ℤ award
      → (c'.agent_balance ≡ c.agent_balance +ℤ c.server_balance) × (c'.server_balance ≡ pos 0)
  pub sequence : c'.sequence ≡ c.sequence +ℤ pos 1
  pub recorded : c'.states ≡ c.states ++ s ∷ []
  pub update_agent : s.agent_balance ≡ c'.agent_balance
  pub update_server : s.server_balance ≡ c'.server_balance
  pub update_sequence : s.sequence_number ≡ c'.sequence
  pub linked : s.prev_hash ≡ last_hash p c.states
  pub signature : p.verify public_key (signable_bytes p s) s.agent_signature ≡ ok tt

module _ (p : Platform) (now : ℕ) (v : DisputeVerdict) (key public_key auditor_public_key : Bytes)
    (award : ℤ) (c : PaymentChannel) where
  abbrev after : PaymentChannel
  after = adjusted (clamped c.server_balance award) c

  abbrev verdict_events : List Event
  verdict_events =
      verdict_enforced c.channel_id v.dispute_id (clamped c.server_balance award)
        after.agent_balance after.server_balance
      ∷ []

  applies :
      (sig : Bytes)
      → is_disputed c.state ≡ true
      → check_verdict p v auditor_public_key ≡ ok award
      → p.sign key (signable_bytes p (verdict_update p now after)) ≡ ok sig
      → apply_verdict p now v key auditor_public_key c ≡ (
        ok (sign_as true sig (verdict_update p now after), verdict_events),
        record after { states = c.states ++ sign_as true sig (verdict_update p now after) ∷ [] },
      )
  unfolding apply_verdict record_verdict
  applies sig disputed checked signs = rw (disputed, checked, record_verdict, signs)

clamped_bounds :
    (server award : ℤ)
    → pos 0 ≤ℤ server
    → pos 0 ≤ℤ award
    → (pos 0 ≤ℤ clamped server award) × (clamped server award ≤ℤ server)
unfolding clamped
clamped_bounds server award s a = elim (Bool-cases (ltb_ℤ (server -ℤ award) (pos 0))) [
  | inl less ↦ rw less (s, omega arith)
  | inr enough ↦ rw enough (a, omega (int_laws, ltb_ℤ-le (pos 0) (server -ℤ award) enough))
]

module _ (p : Platform) (now : ℕ) (v : DisputeVerdict) (key public_key auditor_public_key : Bytes)
    (award : ℤ) (c : PaymentChannel) where
  -- A verdict with an award of 0 or more that passes the check, on a disputed channel and with a
  -- local key that signs, leaves no balance below 0 where none was.
  pub verdict_solvent :
      IsKeyPair p key public_key
      → is_disputed c.state ≡ true
      → check_verdict p v auditor_public_key ≡ ok award
      → pos 0 ≤ℤ c.agent_balance
      → pos 0 ≤ℤ c.server_balance
      → pos 0 ≤ℤ award
      → (pos 0 ≤ℤ (apply_verdict p now v key auditor_public_key c).1.agent_balance)
        × (pos 0 ≤ℤ (apply_verdict p now v key auditor_public_key c).1.server_balance)
  verdict_solvent pair disputed checked a b w =
      let (low, high) = clamped_bounds c.server_balance award b w in
      rw
        (applies p now v key public_key auditor_public_key award c _ disputed checked
          (pair.signs _))
        (omega (int_laws, low, a), omega (int_laws, high))

  -- A negative award is enforced in full: where it passes the check, on a disputed channel whose
  -- balances are 0 or more and with a local key that signs, one that is larger in size than the
  -- agent's balance leaves that balance below 0.
  pub verdict_overdraws :
      IsKeyPair p key public_key
      → is_disputed c.state ≡ true
      → check_verdict p v auditor_public_key ≡ ok award
      → pos 0 ≤ℤ c.agent_balance
      → pos 0 ≤ℤ c.server_balance
      → c.agent_balance +ℤ award <ℤ pos 0
      → (apply_verdict p now v key auditor_public_key c).1.agent_balance <ℤ pos 0
  unfolding clamped
  verdict_overdraws pair disputed checked a b w =
      let enough : ltb_ℤ (c.server_balance -ℤ award) (pos 0) ≡ false =
        le-ltb_ℤ (pos 0) (c.server_balance -ℤ award) (omega (int_laws, a, b, w)) in
      rw
        (applies p now v key public_key auditor_public_key award c _ disputed checked
          (pair.signs _))
        (rw enough w)
