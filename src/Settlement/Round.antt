-- ===== src/Settlement/Round.antt =====
-- One payment between the two parties: one side creates an update, the other countersigns it, and
-- the first applies what comes back.
use qasp.Prelude.{ℕ, Bytes, none, ◌≡◌, refl, ap, ◌∙◌, Bool, true, false, not, List, [], ◌∷◌, ◌++◌}
use qasp.Prelude.Int.{ℤ, pos, ◌+ℤ◌, ◌-ℤ◌, ◌≤ℤ◌, le-ltb_ℤ, eq_ℤ_iff, int_laws}
use qasp.Prelude.Result.{Result, ok, err}
use qasp.Platform.{Platform, IsKeyPair}
use qasp.Settlement.{
  ChannelStateUpdate, PaymentChannel, is_open, Event, channel_state_updated, is_empty, Step,
  transferred, sign_as, countersign_as, draft_update, next_hash, signable_bytes,
  create_state_update, countersign_state_update, apply_state_update,
}

-- Two copies of a channel with the same balances and the same sequence number.
pub record Agree (x y : PaymentChannel) : Type 0 where
  pub agent : x.agent_balance ≡ y.agent_balance
  pub server : x.server_balance ≡ y.server_balance
  pub sequence : x.sequence ≡ y.sequence

abbrev pub deposit : PaymentChannel → ℤ
deposit c = c.agent_balance +ℤ c.server_balance

-- The agent's balance, or the server's.
abbrev pub balance_of : Bool → PaymentChannel → ℤ
balance_of true c = c.agent_balance
balance_of false c = c.server_balance

-- The signature of the agent, or of the server.
abbrev pub signature_of : Bool → ChannelStateUpdate → Bytes
signature_of true u = u.agent_signature
signature_of false u = u.server_signature

-- The payer's side is the first channel; it has created, and then the other has countersigned.
abbrev applied :
    PaymentChannel
    → Step ChannelStateUpdate
    → Result ChannelStateUpdate × PaymentChannel × PaymentChannel
applied x (err e, y) = (err e, x, y)
applied x (ok (s, events), y) = (ok s, apply_state_update s x, y)

abbrev answered :
    Platform
    → Bytes
    → Step ChannelStateUpdate
    → PaymentChannel
    → Result ChannelStateUpdate × PaymentChannel × PaymentChannel
answered p key' (err e, x) y = (err e, x, y)
answered p key' (ok (u, events), x) y = applied x (countersign_state_update p u key' y)

abbrev pub pay :
    Platform
    → ℕ
    → ℤ
    → Bytes
    → Bytes
    → Bool
    → PaymentChannel
    → PaymentChannel
    → Result ChannelStateUpdate × PaymentChannel × PaymentChannel
pay p now cost key key' from_agent x y =
    answered p key' (create_state_update p now cost key from_agent x) y

module _ (p : Platform) (now : ℕ) (cost : ℤ) (key public_key key' public_key' : Bytes)
    (from_agent : Bool) (x y : PaymentChannel) where
  abbrev new_balances : ℤ × ℤ
  new_balances = transferred cost from_agent x.agent_balance x.server_balance

  abbrev draft : ChannelStateUpdate
  draft = draft_update p now new_balances.0 new_balances.1 x

  created :
      (sig : Bytes)
      → p.sign key (signable_bytes p draft) ≡ ok sig
      → is_open x.state ≡ true
      → pos 0 ≤ℤ new_balances.0
      → pos 0 ≤ℤ new_balances.1
      → create_state_update p now cost key from_agent x ≡ (
        ok (sign_as from_agent sig draft, []),
        record x { sequence = x.sequence +ℤ pos 1; receipt_chain_hash = none },
      )
  unfolding create_state_update
  created sig signs opened agent server =
      rw (
        opened,
        le-ltb_ℤ (pos 0) new_balances.0 agent,
        le-ltb_ℤ (pos 0) new_balances.1 server,
        signs,
      )

abbrev updated : ChannelStateUpdate → List Event
updated s =
    channel_state_updated s.channel_id s.sequence_number s.agent_balance s.server_balance ∷ []

countersigned :
    (p : Platform) (u : ChannelStateUpdate) (key' sig : Bytes) (y : PaymentChannel)
    → p.sign key' (signable_bytes p u) ≡ ok sig
    → u.sequence_number ≡ y.sequence +ℤ pos 1
    → countersign_state_update p u key' y ≡ (
      ok (countersign_as sig u, updated (countersign_as sig u)),
      apply_state_update (countersign_as sig u) y,
    )
unfolding countersign_state_update
countersigned p u key' sig y signs sequence =
    rw ((eq_ℤ_iff u.sequence_number (y.sequence +ℤ pos 1)).1 sequence, signs)

transferred-deposit :
    (cost : ℤ) (from_agent : Bool) (agent server : ℤ)
    → (transferred cost from_agent agent server).0 +ℤ (transferred cost from_agent agent server).1
      ≡ agent +ℤ server
transferred-deposit cost true agent server = omega int_laws
transferred-deposit cost false agent server = omega int_laws

-- What a payment that went through leaves: an update that both hold, signed by both, and balances
-- between which the cost has moved from the payer to the other.
pub record Paid (p : Platform) (cost : ℤ) (public_key public_key' : Bytes) (from_agent : Bool)
    (x y x' y' : PaymentChannel) (s : ChannelStateUpdate) : Type 0 where
  pub agree : Agree x' y'
  pub payer : balance_of from_agent x' ≡ balance_of from_agent x -ℤ cost
  pub payee : balance_of (not from_agent) x' ≡ balance_of (not from_agent) x +ℤ cost
  pub sequence : x'.sequence ≡ x.sequence +ℤ pos 1
  pub conserved : deposit x' ≡ deposit x
  pub kept : x'.states ≡ x.states ++ s ∷ []
  pub also_kept : y'.states ≡ y.states ++ s ∷ []
  pub linked : s.prev_hash ≡ next_hash p x
  pub signature : p.verify public_key (signable_bytes p s) (signature_of from_agent s) ≡ ok tt
  pub countersignature :
      p.verify public_key' (signable_bytes p s) (signature_of (not from_agent) s) ≡ ok tt

abbrev both_signed : Bool → Bytes → Bytes → ChannelStateUpdate → ChannelStateUpdate
both_signed true sig sig' u = record u { agent_signature = sig; server_signature = sig' }
both_signed false sig sig' u = record u { agent_signature = sig'; server_signature = sig }

sign_as-signable :
    (p : Platform) (from_agent : Bool) (sig : Bytes) (u : ChannelStateUpdate)
    → signable_bytes p (sign_as from_agent sig u) ≡ signable_bytes p u
unfolding signable_bytes
sign_as-signable p true sig u = refl
sign_as-signable p false sig u = refl

sign_as-sequence :
    (from_agent : Bool) (sig : Bytes) (u : ChannelStateUpdate)
    → (sign_as from_agent sig u).sequence_number ≡ u.sequence_number
sign_as-sequence true sig u = refl
sign_as-sequence false sig u = refl

countersigned_both :
    (from_agent : Bool) (sig sig' : Bytes) (u : ChannelStateUpdate)
    → is_empty sig ≡ false
    → countersign_as sig' (sign_as from_agent sig u) ≡ both_signed from_agent sig sig' u
countersigned_both true sig sig' u full = rw full
countersigned_both false sig sig' u full = refl

pay_made :
    (p : Platform) (now : ℕ) (cost : ℤ) (key key' : Bytes) (from_agent : Bool)
    (x y x' y' : PaymentChannel) (u s : ChannelStateUpdate) (es fs : List Event)
    → create_state_update p now cost key from_agent x ≡ (ok (u, es), x')
    → countersign_state_update p u key' y ≡ (ok (s, fs), y')
    → pay p now cost key key' from_agent x y ≡ (ok s, apply_state_update s x', y')
pay_made p now cost key key' from_agent x y x' y' u s es fs e f = rw (e, f)

module _ (p : Platform) (now : ℕ) (cost : ℤ) (key public_key key' public_key' : Bytes)
    (x y : PaymentChannel) (pair : IsKeyPair p key public_key)
    (pair' : IsKeyPair p key' public_key') where
  abbrev settled_update : Bool → ChannelStateUpdate
  settled_update from_agent =
      let draft_now = draft p now cost key public_key key' public_key' from_agent x y in
      let message = signable_bytes p draft_now in
      both_signed from_agent (pair.signature message) (pair'.signature message) draft_now

  paid :
      (from_agent : Bool)
      → Paid p cost public_key public_key' from_agent x y
          (apply_state_update
            (settled_update from_agent)
            (record x { sequence = x.sequence +ℤ pos 1; receipt_chain_hash = none }))
          (apply_state_update (settled_update from_agent) y)
          (settled_update from_agent)
  unfolding apply_state_update signable_bytes
  paid true = record {
    agree = record { agent = refl; server = refl; sequence = refl };
    payer = refl;
    payee = refl;
    sequence = refl;
    conserved = transferred-deposit cost true x.agent_balance x.server_balance;
    kept = refl;
    also_kept = refl;
    linked = refl;
    signature = pair.verifies _;
    countersignature = pair'.verifies _;
  }
  paid false = record {
    agree = record { agent = refl; server = refl; sequence = refl };
    payer = refl;
    payee = refl;
    sequence = refl;
    conserved = transferred-deposit cost false x.agent_balance x.server_balance;
    kept = refl;
    also_kept = refl;
    linked = refl;
    signature = pair.verifies _;
    countersignature = pair'.verifies _;
  }

transferred_first :
    (from_agent : Bool) (cost : ℤ) (x : PaymentChannel)
    → pos 0 ≤ℤ balance_of from_agent x -ℤ cost
    → pos 0 ≤ℤ balance_of (not from_agent) x +ℤ cost
    → pos 0 ≤ℤ (transferred cost from_agent x.agent_balance x.server_balance).0
transferred_first true cost x a b = a
transferred_first false cost x a b = b

transferred_second :
    (from_agent : Bool) (cost : ℤ) (x : PaymentChannel)
    → pos 0 ≤ℤ balance_of from_agent x -ℤ cost
    → pos 0 ≤ℤ balance_of (not from_agent) x +ℤ cost
    → pos 0 ≤ℤ (transferred cost from_agent x.agent_balance x.server_balance).1
transferred_second true cost x a b = b
transferred_second false cost x a b = a

-- Where the two sides agree on an open channel and neither balance would fall below 0, a payment in
-- either direction goes through: the payer's balance is less by the cost and the other's more by
-- it, on both sides; both have added to their states one update, which both have signed and which
-- names the hash that the payer's side had to link to; they agree on the next sequence number. Signing succeeds with
-- both keys, and the payer's signatures are not empty.
pub pay-Paid :
    (p : Platform) (now : ℕ) (cost : ℤ) (key public_key key' public_key' : Bytes)
    (from_agent : Bool) (x y : PaymentChannel) (pair : IsKeyPair p key public_key)
    → IsKeyPair p key' public_key'
    → ((m : Bytes) → is_empty (pair.signature m) ≡ false)
    → Agree x y
    → is_open x.state ≡ true
    → pos 0 ≤ℤ balance_of from_agent x -ℤ cost
    → pos 0 ≤ℤ balance_of (not from_agent) x +ℤ cost
    → (s : ChannelStateUpdate) × (x' : PaymentChannel) × (y' : PaymentChannel) × (pay p now cost key
          key' from_agent x y
        ≡ (ok s, x', y'))
      × Paid p cost public_key public_key' from_agent x y x' y' s
pay-Paid p now cost key public_key key' public_key' from_agent x y pair pair' full agree opened a
      b =
    let draft_now = draft p now cost key public_key key' public_key' from_agent x y in
    let message = signable_bytes p draft_now in
    let sig = pair.signature message in
    let u = sign_as from_agent sig draft_now in
    let c =
      created p now cost key public_key key' public_key' from_agent x y sig (pair.signs message)
        opened (transferred_first from_agent cost x a b)
        (transferred_second from_agent cost x a b) in
    let d =
      countersigned p u key' (pair'.signature message) y
        (rw (sign_as-signable p from_agent sig draft_now) (pair'.signs message))
        (sign_as-sequence from_agent sig draft_now ∙ ap (λ n. n +ℤ pos 1) agree.sequence) in
    (
      settled_update p now cost key public_key key' public_key' x y pair pair' from_agent,
      _,
      _,
      pay_made p now cost key key' from_agent x y _ _ u _ _ _ c (
          rw (countersigned_both from_agent sig (pair'.signature message) draft_now (full message))
            at d),
      paid p now cost key public_key key' public_key' x y pair pair' from_agent,
    )
