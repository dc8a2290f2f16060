-- ===== src/Relay.antt =====
-- The relay's session: its states, its budgets and the debits that wait for a delivery.
-- src/qasp/protocol/relay/session.py. The chain of receipts, which no method of the session touches,
-- is left out; limits and payload lengths are 0 or more.
use qasp.Prelude.{
  ℕ, suc, String, Bytes, ◌+◌, ◌*◌, ◌-◌, ltb, leb, ◌==◌, Bool, true, false, not, ◌&&◌, Option, none,
  some, List, [], ◌∷◌, if◌then◌else◌, bytes_eq,
}
use Prim.Native.Nat.{min}
use qasp.Prelude.Result.{
  Result, ok, err, runtime_error, zero_division, session_budget_exhausted, invalid_scm,
}
pub mod Ledger
pub mod Debits
pub mod Budget

pub data RelaySessionState : Type 0 where
  idle verifying notifying active suspended closing : RelaySessionState

infix 50 ◌is◌
abbrev pub ◌is◌ : RelaySessionState → RelaySessionState → Bool
idle is idle = true
verifying is verifying = true
notifying is notifying = true
active is active = true
suspended is suspended = true
closing is closing = true
a is b = false

-- Tokens are counted in parts, `one` of which make a token; times are microseconds.
pub record TokenBucket : Type 0 where
  pub rate : ℕ
  pub one : ℕ
  pub burst : ℕ
  pub tokens : ℕ
  pub last : ℕ

-- The bucket of a session that may send so many messages in so many seconds.
unfoldable pub new_bucket : ℕ → ℕ → ℕ → TokenBucket
new_bucket msgs per_sec now = record {
  rate = msgs;
  one = per_sec * 1000000;
  burst = msgs;
  tokens = msgs * (per_sec * 1000000);
  last = now;
}

unfoldable pub allow : ℕ → TokenBucket → TokenBucket × Bool
allow now b =
    let filled = min (b.burst * b.one) (b.tokens + (now - b.last) * b.rate) in
    if leb b.one filled
    then (record b { tokens = filled - b.one; last = now }, true)
    else (record b { tokens = filled; last = now }, false)

-- What was taken for the message of that number.
pub record Debit : Type 0 where
  pub seq : ℕ
  pub msgs : ℕ
  pub size : ℕ

pub record RelaySession : Type 0 where
  pub session_id : Bytes
  pub initiator_did : String
  pub target_did : String
  pub cap_token_hash : Bytes
  pub scm_a : Bytes
  pub scm_b : Bytes
  pub expires_at : ℕ
  pub max_messages : Option ℕ
  pub max_bytes : Option ℕ
  pub max_rate : Option (ℕ × ℕ)
  pub epoch_installed : ℕ
  pub attenuated_token_for_target : Bytes
  pub state : RelaySessionState
  pub msg_remaining : Option ℕ
  pub bytes_remaining : Option ℕ
  pub spend_accrued : ℕ
  pub next_seq : ℕ
  pub pending_debits : List Debit
  pub rate_bucket : Option TokenBucket

unfoldable pub rate_bucket_of : Option (ℕ × ℕ) → ℕ → Result (Option TokenBucket)
unfolding new_bucket
rate_bucket_of none now = ok none
rate_bucket_of (some (msgs, per_sec)) now =
    if per_sec == 0 then err zero_division else ok (some (new_bucket msgs per_sec now))

abbrev pub or_else : Option ℕ → Option ℕ → Option ℕ
or_else none default = default
or_else (some n) default = some n

-- What the constructor does after it has set the fields that it is given.
unfoldable pub post_init : ℕ → RelaySession → Result RelaySession
unfolding rate_bucket_of
post_init now s = elim (rate_bucket_of s.max_rate now) [
  | err e ↦ err e
  | ok bucket ↦ ok (record s {
    msg_remaining = or_else s.msg_remaining s.max_messages;
    bytes_remaining = or_else s.bytes_remaining s.max_bytes;
    rate_bucket = bucket;
  })
]

-- ---- the states

-- A transition that is allowed from one state only.
unfoldable pub move_from :
    RelaySessionState → RelaySessionState → RelaySession → RelaySession × Result (Unit {0})
move_from old new s =
    if not (s.state is old) then (s, err runtime_error) else (record s { state = new }, ok tt)

unfoldable pub on_request : RelaySession → RelaySession × Result (Unit {0})
unfolding move_from
on_request s = move_from idle verifying s

unfoldable pub on_token_verified : RelaySession → RelaySession × Result (Unit {0})
unfolding move_from
on_token_verified s = move_from verifying notifying s

unfoldable pub on_token_invalid : RelaySession → RelaySession
on_token_invalid s = record s { state = idle }

unfoldable pub on_accept : RelaySession → RelaySession × Result (Unit {0})
unfolding move_from
on_accept s = move_from notifying active s

unfoldable pub on_close : RelaySession → RelaySession
on_close s = record s { state = closing }

unfoldable pub on_epoch_rotation : Bytes → Bytes → ℕ → RelaySession → RelaySession
on_epoch_rotation new_scm_a new_scm_b new_epoch s = record s {
  scm_a = new_scm_a;
  scm_b = new_scm_b;
  epoch_installed = new_epoch;
}

-- ---- metering

unfoldable pub is_expired : ℕ → RelaySession → Bool
is_expired now s = leb s.expires_at now

unfoldable pub check_scm : Bytes → ℕ → RelaySession → Result (Unit {0})
check_scm candidate direction s =
    let expected = if direction == 0 then s.scm_a else s.scm_b in
    if not (bytes_eq candidate expected) then err invalid_scm else ok tt

-- Whether a budget, if there is one, has less than that.
abbrev pub short : Option ℕ → ℕ → Bool
short none n = false
short (some m) n = ltb m n

abbrev pub debit : Option ℕ → ℕ → Option ℕ
debit none n = none
debit (some m) n = some (m - n)

abbrev pub credit : Option ℕ → ℕ → Option ℕ
credit none n = none
credit (some m) n = some (m + n)

abbrev pub allowed : ℕ → Option TokenBucket → Option TokenBucket × Bool
allowed now none = (none, true)
allowed now (some b) = (some (allow now b).0, (allow now b).1)

-- `pending_debits[seq] = (msgs, size)`.
unfoldable pub set_debit : Debit → List Debit → List Debit
set_debit d [] = d ∷ []
set_debit d (e ∷ es) = let rest = set_debit d es in if e.seq == d.seq then d ∷ es else e ∷ rest

-- `pending_debits.pop(seq, None)`: what stood there.
unfoldable pub get_debit : ℕ → List Debit → Option Debit
get_debit n [] = none
get_debit n (e ∷ es) = let rest = get_debit n es in if e.seq == n then some e else rest

-- `pending_debits.pop(seq, None)`: what is left.
unfoldable pub drop_debit : ℕ → List Debit → List Debit
drop_debit n [] = []
drop_debit n (e ∷ es) = let rest = drop_debit n es in if e.seq == n then es else e ∷ rest

-- The counters after the guards.
unfoldable pub charge : ℕ → Bool → RelaySession → RelaySession × Result ℕ
unfolding set_debit
charge payload_len reserve_pending s =
    let seq = s.next_seq in
    (
      record s {
        msg_remaining = debit s.msg_remaining 1;
        bytes_remaining = debit s.bytes_remaining payload_len;
        next_seq = seq + 1;
        pending_debits =
            if reserve_pending
            then set_debit (record { seq = seq; msgs = 1; size = payload_len }) s.pending_debits
            else s.pending_debits;
      },
      ok seq,
    )

unfoldable pub consume : ℕ → Bool → ℕ → RelaySession → RelaySession × Result ℕ
unfolding charge allow
consume payload_len reserve_pending now s =
    if not (s.state is active)
    then (s, err runtime_error)
    else if short s.msg_remaining 1
    then (record s { state = suspended }, err session_budget_exhausted)
    else if short s.bytes_remaining payload_len
    then (record s { state = suspended }, err session_budget_exhausted)
    else let (bucket, may) = allowed now s.rate_bucket in
      let t = record s { rate_bucket = bucket } in
      if not may then (t, err session_budget_exhausted) else charge payload_len reserve_pending t

unfoldable pub confirm_delivery : ℕ → RelaySession → RelaySession
unfolding drop_debit
confirm_delivery n s = record s { pending_debits = drop_debit n s.pending_debits }

unfoldable pub rollback_pending : ℕ → RelaySession → RelaySession
unfolding drop_debit get_debit
rollback_pending n s = elim (get_debit n s.pending_debits) [
  | none ↦ s
  | some d ↦ record s {
    pending_debits = drop_debit n s.pending_debits;
    msg_remaining = credit s.msg_remaining d.msgs;
    bytes_remaining = credit s.bytes_remaining d.size;
  }
]
