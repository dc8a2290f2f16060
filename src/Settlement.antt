-- ===== src/Settlement.antt =====
-- `PaymentChannel` of protocol/settlement.py: the data, the opening of a channel and the state
-- updates that the two parties exchange. Balances and sequence numbers are Python integers, times
-- whole seconds. A call that raises leaves what it had changed before, so that every operation
-- returns the channel beside its answer; `os.urandom` and `time.time` are arguments.
pub mod Closing
pub mod Round
pub mod Challenges
pub mod Verdict
pub mod Pricing
use qasp.Prelude.{
  ℕ, String, Bytes, Option, none, some, Bool, true, false, ◌||◌, not, List, [], ◌∷◌, ◌++◌,
  if◌then◌else◌,
}
use qasp.Prelude.Int.{ℤ, pos, ◌+ℤ◌, ◌-ℤ◌, ltb_ℤ, eq_ℤ}
use qasp.Prelude.Result.{
  Result, ok, err, channel_not_open, insufficient_balance, invalid_state_update,
}
use qasp.Platform.{Platform, Value, Fields}

pub data ChannelState : Type 0 where
  opening_state open_state closing_state closed_state disputed_state : ChannelState

-- `channel_id` is None on a channel that was not opened.
pub record ChannelStateUpdate : Type 0 where
  pub channel_id : Option Bytes
  pub sequence_number : ℤ
  pub agent_balance : ℤ
  pub server_balance : ℤ
  pub prev_hash : Bytes
  pub timestamp : ℕ
  pub agent_signature : Bytes
  pub server_signature : Bytes

pub record ChannelOpen : Type 0 where
  pub channel_id : Option Bytes
  pub initial_balance : ℤ

-- The events that the operations return.
pub data Event : Type 0 where
  channel_opening : Option Bytes → Bytes → ℤ → Event
  channel_opened : Option Bytes → ℤ → ℤ → Event
  channel_state_updated : Option Bytes → ℤ → ℤ → ℤ → Event
  channel_closing : Option Bytes → ℤ → Bool → Event
  channel_closed : Option Bytes → ℤ → ℤ → Event
  channel_disputed : Option Bytes → ℤ → ℤ → Event
  channel_challenge_expired : Option Bytes → Event
  verdict_enforced : Option Bytes → Bytes → ℤ → ℤ → ℤ → Event

pub record PaymentChannel : Type 0 where
  pub agent_did : String
  pub server_did : String
  pub agent_public_key : Bytes
  pub server_public_key : Bytes
  pub agent_balance : ℤ
  pub server_balance : ℤ
  pub channel_id : Option Bytes
  pub state : ChannelState
  pub sequence : ℤ
  pub states : List ChannelStateUpdate
  pub challenge_deadline : ℕ
  pub receipt_chain_hash : Option Bytes

abbrev pub new_channel : String → String → Bytes → Bytes → PaymentChannel
new_channel agent_did server_did agent_public_key server_public_key = record {
  agent_did = agent_did;
  server_did = server_did;
  agent_public_key = agent_public_key;
  server_public_key = server_public_key;
  agent_balance = pos 0;
  server_balance = pos 0;
  channel_id = none;
  state = opening_state;
  sequence = pos 0;
  states = [];
  challenge_deadline = 0;
  receipt_chain_hash = none;
}

abbrev pub is_opening : ChannelState → Bool
is_opening opening_state = true
is_opening s = false

abbrev pub is_open : ChannelState → Bool
is_open open_state = true
is_open s = false

abbrev pub is_empty : Bytes → Bool
is_empty [] = true
is_empty (b ∷ bytes) = false

abbrev pub id_value : Option Bytes → Value
id_value none = Value.null
id_value (some b) = Value.bytes b

-- `self._states[-1]`, where there is one.
unfoldable pub last_state : List ChannelStateUpdate → Option ChannelStateUpdate
last_state [] = none
last_state (s ∷ []) = some s
last_state (s ∷ t ∷ rest) = last_state (t ∷ rest)

abbrev pub Step : Type 0 → Type 0
Step A = Result (A × List Event) × PaymentChannel

-- `process_channel_open`, the server's answer to the agent's message.
unfoldable pub process_channel_open :
    ChannelOpen → ℤ → PaymentChannel → (ChannelOpen × List Event) × PaymentChannel
process_channel_open open_msg server_balance c =
    let response : ChannelOpen = record {
      channel_id = open_msg.channel_id;
      initial_balance = server_balance;
    } in
    (
      (response, channel_opened open_msg.channel_id open_msg.initial_balance server_balance ∷ []),
      record c {
        channel_id = open_msg.channel_id;
        agent_balance = open_msg.initial_balance;
        server_balance = server_balance;
        state = open_state;
      },
    )

unfoldable pub accept_channel : ChannelOpen → PaymentChannel → List Event × PaymentChannel
accept_channel response c = (
  channel_opened c.channel_id c.agent_balance response.initial_balance ∷ [],
  record c { server_balance = response.initial_balance; state = open_state },
)

-- The balances after a transfer of `cost`.
abbrev pub transferred : ℤ → Bool → ℤ → ℤ → ℤ × ℤ
transferred cost true agent server = (agent -ℤ cost, server +ℤ cost)
transferred cost false agent server = (agent +ℤ cost, server -ℤ cost)

-- The signature of a party goes into that party's field.
abbrev pub sign_as : Bool → Bytes → ChannelStateUpdate → ChannelStateUpdate
sign_as true sig u = record u { agent_signature = sig; server_signature = [] }
sign_as false sig u = record u { agent_signature = []; server_signature = sig }

-- A countersignature goes into the agent's field where that is empty, else into the server's.
abbrev pub countersign_as : Bytes → ChannelStateUpdate → ChannelStateUpdate
countersign_as sig u =
    if is_empty u.agent_signature
    then record u { agent_signature = sig }
    else record u { server_signature = sig }

-- `apply_state_update`.
unfoldable pub apply_state_update : ChannelStateUpdate → PaymentChannel → PaymentChannel
apply_state_update signed c = record c {
  sequence = signed.sequence_number;
  agent_balance = signed.agent_balance;
  server_balance = signed.server_balance;
  states = c.states ++ signed ∷ [];
}

module _ (p : Platform) where
  unfoldable pub create_channel_open : Bytes → ℤ → PaymentChannel → Step ChannelOpen
  create_channel_open random initial_balance c =
      if not (is_opening c.state) then (err channel_not_open, c) else (
        ok (
          record { channel_id = some random; initial_balance = initial_balance },
          channel_opening (some random) (p.encode c.server_did) initial_balance ∷ [],
        ),
        record c { channel_id = some random; agent_balance = initial_balance },
      )

  -- The fields that are signed.
  unfoldable pub signable_bytes : ChannelStateUpdate → Bytes
  signable_bytes u = p.dumps (
      Value.dict (
        Fields.field "channel_id" (id_value u.channel_id) (
          Fields.field "sequence_number" (Value.int u.sequence_number) (
            Fields.field "agent_balance" (Value.int u.agent_balance) (
              Fields.field "server_balance" (Value.int u.server_balance) (
                Fields.field "prev_hash" (Value.bytes u.prev_hash)
                  (Fields.field "timestamp" (Value.int (pos u.timestamp)) Fields.end)))))))

  unfoldable pub update_to_cbor : ChannelStateUpdate → Bytes
  update_to_cbor u = p.dumps (
      Value.dict (
        Fields.field "channel_id" (id_value u.channel_id) (
          Fields.field "sequence_number" (Value.int u.sequence_number) (
            Fields.field "agent_balance" (Value.int u.agent_balance) (
              Fields.field "server_balance" (Value.int u.server_balance) (
                Fields.field "prev_hash" (Value.bytes u.prev_hash) (
                  Fields.field "timestamp" (Value.int (pos u.timestamp)) (
                    Fields.field "agent_signature" (Value.bytes u.agent_signature) (
                      Fields.field "server_signature" (Value.bytes u.server_signature)
                        Fields.end)))))))))

  unfoldable pub update_hash : ChannelStateUpdate → Bytes
  update_hash u = p.sha384 (update_to_cbor u)

  unfoldable pub last_hash : List ChannelStateUpdate → Bytes
  last_hash states = elim (last_state states) [ none ↦ [] | some s ↦ update_hash s ]

  -- The hash that the next update carries: that of the linked receipt chain, else of the last state.
  abbrev pub next_hash : PaymentChannel → Bytes
  next_hash c = elim c.receipt_chain_hash [ none ↦ last_hash c.states | some h ↦ h ]

  abbrev pub draft_update : ℕ → ℤ → ℤ → PaymentChannel → ChannelStateUpdate
  draft_update now new_agent new_server c = record {
    channel_id = c.channel_id;
    sequence_number = c.sequence +ℤ pos 1;
    agent_balance = new_agent;
    server_balance = new_server;
    prev_hash = next_hash c;
    timestamp = now;
    agent_signature = [];
    server_signature = [];
  }

  -- By the time of the signature the sequence number is taken and the receipt hash is used up.
  unfoldable pub create_state_update :
      ℕ → ℤ → Bytes → Bool → PaymentChannel → Step ChannelStateUpdate
  create_state_update now cost signing_key from_agent_to_server c =
      let (new_agent, new_server) =
        transferred cost from_agent_to_server c.agent_balance c.server_balance in
      let update = draft_update now new_agent new_server c in
      let c' = record c { sequence = c.sequence +ℤ pos 1; receipt_chain_hash = none } in
      if not (is_open c.state)
      then (err channel_not_open, c)
      else if ltb_ℤ new_agent (pos 0) || ltb_ℤ new_server (pos 0)
      then (err insufficient_balance, c)
      else elim (p.sign signing_key (signable_bytes update)) [
        | err e ↦ (err e, c')
        | ok sig ↦ (ok (sign_as from_agent_to_server sig update, []), c')
      ]

  unfoldable pub countersign_state_update :
      ChannelStateUpdate → Bytes → PaymentChannel → Step ChannelStateUpdate
  countersign_state_update update signing_key c =
      if not (eq_ℤ update.sequence_number (c.sequence +ℤ pos 1))
      then (err invalid_state_update, c)
      else elim (p.sign signing_key (signable_bytes update)) [
        | err e ↦ (err e, c)
        | ok sig ↦
            let signed = countersign_as sig update in
            (
              ok (
                signed,
                channel_state_updated signed.channel_id signed.sequence_number signed.agent_balance
                      signed.server_balance
                    ∷ [],
              ),
              apply_state_update signed c,
            )
      ]
