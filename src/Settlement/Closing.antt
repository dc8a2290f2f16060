-- ===== src/Settlement/Closing.antt =====
-- The end of a channel: closing, challenge, settlement and the auditor's verdict, of
-- protocol/settlement.py.
use qasp.Prelude.{
  ℕ, ◌+◌, String, Bytes, Option, some, Bool, true, false, not, List, [], ◌∷◌, ◌++◌, ltb, leb,
  if◌then◌else◌,
}
use qasp.Prelude.Int.{ℤ, pos, ◌+ℤ◌, ◌-ℤ◌, ltb_ℤ, leb_ℤ, eq_ℤ}
use qasp.Prelude.Result.{
  Result, ok, err, ◌>>=◌, ◌>>◌, settlement_error, challenge_error, channel_timeout, value_error,
}
use qasp.Platform.{Platform, Value, Fields}
use qasp.Settlement.{
  ChannelState, open_state, closing_state, closed_state, disputed_state, ChannelStateUpdate, Event,
  channel_closing, channel_closed, channel_disputed, channel_challenge_expired, verdict_enforced,
  PaymentChannel, id_value, Step, signable_bytes, last_hash, sign_as,
}

pub record ChannelClose : Type 0 where
  pub channel_id : Option Bytes
  pub final_balance_a : ℤ
  pub final_balance_b : ℤ
  pub close_reason : String
  pub signatures : Bytes × Bytes

pub record Settlement : Type 0 where
  pub channel_id : Option Bytes
  pub final_balance_a : ℤ
  pub final_balance_b : ℤ
  pub payer : String
  pub payee : String
  pub timestamp : ℕ
  pub receipt_hash : Bytes
  pub signatures : Bytes × Bytes

-- An auditor's verdict: its code is the integer of the message.
pub record DisputeVerdict : Type 0 where
  pub dispute_id : Bytes
  pub verdict : ℤ
  pub awarded_value : ℤ
  pub signature : Bytes

abbrev pub challenge_period_seconds : ℕ
challenge_period_seconds = 300

abbrev pub is_disputed : ChannelState → Bool
is_disputed disputed_state = true
is_disputed s = false

unfoldable pub finalize_close : ℕ → PaymentChannel → Step Settlement
finalize_close current_time c =
    if ltb current_time c.challenge_deadline then (err channel_timeout, c) else (
      ok (
        record {
          channel_id = c.channel_id;
          final_balance_a = c.agent_balance;
          final_balance_b = c.server_balance;
          payer = c.agent_did;
          payee = c.server_did;
          timestamp = current_time;
          receipt_hash = [];
          signatures = ([], []);
        },
        channel_challenge_expired c.channel_id
            ∷ channel_closed c.channel_id c.agent_balance c.server_balance
            ∷ [],
      ),
      record c { state = closed_state },
    )

unfoldable pub challenge :
    ChannelStateUpdate → ℕ → PaymentChannel → Result (List Event) × PaymentChannel
challenge state_update current_time c =
    if leb c.challenge_deadline current_time
    then (err challenge_error, c)
    else if leb_ℤ state_update.sequence_number c.sequence
    then (err challenge_error, c)
    else (
      ok (channel_disputed c.channel_id c.sequence state_update.sequence_number ∷ []),
      record c {
        state = disputed_state;
        sequence = state_update.sequence_number;
        agent_balance = state_update.agent_balance;
        server_balance = state_update.server_balance;
      },
    )

-- The hash of the last receipt of a chain, which is given by the hashes of its receipts.
unfoldable pub link_to_receipt_chain : List Bytes → PaymentChannel → PaymentChannel
link_to_receipt_chain [] c = c
link_to_receipt_chain (h ∷ []) c = record c { receipt_chain_hash = some h }
link_to_receipt_chain (h ∷ i ∷ rest) c = link_to_receipt_chain (i ∷ rest) c

pub data VerdictCode : Type 0 where
  claimant_wins respondent_wins split dismissed : VerdictCode

-- `VerdictCode(code)`, which raises on another integer.
unfoldable pub verdict_code : ℤ → Result VerdictCode
verdict_code code =
    if eq_ℤ code (pos 1)
    then ok claimant_wins
    else if eq_ℤ code (pos 2)
    then ok respondent_wins
    else if eq_ℤ code (pos 3)
    then ok split
    else if eq_ℤ code (pos 4)
    then ok dismissed
    else err value_error

-- What a verdict moves from the server to the agent.
abbrev pub award_of : VerdictCode → ℤ → ℤ
award_of claimant_wins awarded = awarded
award_of respondent_wins awarded = pos 0
award_of split awarded = awarded
award_of dismissed awarded = pos 0

-- A server that has less than that gives what it has.
unfoldable pub clamped : ℤ → ℤ → ℤ
clamped server adjustment = if ltb_ℤ (server -ℤ adjustment) (pos 0) then server else adjustment

-- The transfer from the server to the agent.
abbrev pub adjusted : ℤ → PaymentChannel → PaymentChannel
adjusted adjustment c = record c {
  agent_balance = c.agent_balance +ℤ adjustment;
  server_balance = c.server_balance -ℤ adjustment;
  state = open_state;
  sequence = c.sequence +ℤ pos 1;
}

abbrev pub as_settlement_error : Result (Unit {0}) → Result (Unit {0})
as_settlement_error (ok x) = ok x
as_settlement_error (err e) = err settlement_error

module _ (p : Platform) where
  unfoldable pub close_signable : ChannelClose → Bytes
  close_signable m = p.dumps (
      Value.dict (
        Fields.field "channel_id" (id_value m.channel_id) (
          Fields.field "final_balance_a" (Value.int m.final_balance_a) (
            Fields.field "final_balance_b" (Value.int m.final_balance_b)
              (Fields.field "close_reason" (Value.text m.close_reason) Fields.end)))))

  abbrev pub own_close : String → PaymentChannel → ChannelClose
  own_close reason c = record {
    channel_id = c.channel_id;
    final_balance_a = c.agent_balance;
    final_balance_b = c.server_balance;
    close_reason = reason;
    signatures = ([], []);
  }

  unfoldable pub create_channel_close : Bytes → PaymentChannel → Step ChannelClose
  create_channel_close signing_key c =
      let m = own_close "cooperative" c in
      elim (p.sign signing_key (close_signable m)) [
        | err e ↦ (err e, c)
        | ok sig ↦ (
          ok (record m { signatures = (sig, []) }, channel_closing c.channel_id (pos 0) false ∷ []),
          c,
        )
      ]

  unfoldable pub countersign_close : ChannelClose → Bytes → PaymentChannel → Step ChannelClose
  countersign_close m signing_key c = elim (p.sign signing_key (close_signable m)) [
    | err e ↦ (err e, c)
    | ok sig ↦ (
      ok (
        record m { signatures = (m.signatures.0, sig) },
        channel_closed m.channel_id m.final_balance_a m.final_balance_b ∷ [],
      ),
      record c { state = closed_state },
    )
  ]

  -- The state and the deadline are set before the signature.
  unfoldable pub create_unilateral_close : Bytes → ℕ → PaymentChannel → Step ChannelClose
  create_unilateral_close signing_key current_time c =
      let m = own_close "unilateral" c in
      let c' = record c {
        state = closing_state;
        challenge_deadline = current_time + challenge_period_seconds;
      } in
      elim (p.sign signing_key (close_signable m)) [
        | err e ↦ (err e, c')
        | ok sig ↦ (
          ok (record m { signatures = (sig, []) }, channel_closing c.channel_id (pos 1) true ∷ []),
          c',
        )
      ]

  -- What the auditor has signed: `to_bytes` raises on a value that is out of its range.
  unfoldable pub verdict_data : DisputeVerdict → Result Bytes
  verdict_data v = do
    code ← p.to_bytes v.verdict 4 false
    value ← p.to_bytes v.awarded_value 8 true
    ok (v.dispute_id ++ code ++ value)

  -- The part before any change: the verdict's bytes, its signature and its code.
  unfoldable pub check_verdict : DisputeVerdict → Bytes → Result ℤ
  check_verdict v auditor_public_key = do
    data_bytes ← verdict_data v
    as_settlement_error (p.verify auditor_public_key data_bytes v.signature)
    code ← verdict_code v.verdict
    ok (award_of code v.awarded_value)

  abbrev pub verdict_update : ℕ → PaymentChannel → ChannelStateUpdate
  verdict_update now c = record {
    channel_id = c.channel_id;
    sequence_number = c.sequence;
    agent_balance = c.agent_balance;
    server_balance = c.server_balance;
    prev_hash = last_hash p c.states;
    timestamp = now;
    agent_signature = [];
    server_signature = [];
  }

  -- The adjusted channel signs and keeps an update of its own.
  unfoldable pub record_verdict :
      ℕ → DisputeVerdict → Bytes → ℤ → PaymentChannel → Step ChannelStateUpdate
  record_verdict now v signing_key adjustment c =
      let update = verdict_update now c in
      elim (p.sign signing_key (signable_bytes p update)) [
        | err e ↦ (err e, c)
        | ok sig ↦
            let signed = sign_as true sig update in
            (
              ok (
                signed,
                verdict_enforced c.channel_id v.dispute_id adjustment c.agent_balance
                      c.server_balance
                    ∷ [],
              ),
              record c { states = c.states ++ signed ∷ [] },
            )
      ]

  unfoldable pub apply_verdict :
      ℕ → DisputeVerdict → Bytes → Bytes → PaymentChannel → Step ChannelStateUpdate
  apply_verdict now v signing_key auditor_public_key c =
      if not (is_disputed c.state)
      then (err settlement_error, c)
      else elim (check_verdict v auditor_public_key) [
        | err e ↦ (err e, c)
        | ok award ↦
            let adjustment = clamped c.server_balance award in
            record_verdict now v signing_key adjustment (adjusted adjustment c)
      ]
