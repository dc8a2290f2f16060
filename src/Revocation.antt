-- ===== src/Revocation.antt =====
-- protocol/revocation.py: the list of revoked tokens, and the cascade to the tokens made from one.
-- A set of children is the list of its members, in the order in which they were added.
pub mod Queries
pub mod Counts
pub mod Offers
pub mod Reach
pub mod Revokes
pub mod Forgets
use qasp.Prelude.{
  ℕ, zero, suc, String, Bytes, ◌+◌, ◌-◌, ltb, leb, Bool, true, false, not, Option, none, some, List,
  [], ◌∷◌, ◌++◌, length, bytes_eq, if◌then◌else◌,
}
use qasp.Prelude.Int.{ℤ, pos}
use qasp.Prelude.Dict.{Dict, bytes_Eq, lookup, insert, erase, has_key}
use qasp.Prelude.Result.{
  Error, Result, ok, err, invalid_signature, invalid_revocation, token_already_revoked,
}
use qasp.Platform.{Platform, Value, int, text, dict, field, end}
use qasp.Capability.Token.{CapabilityToken, compute_hash}

pub data RevocationUrgency : Type 0 where
  critical normal planned : RevocationUrgency

pub data RevocationReason : Type 0 where
  unspecified key_compromise privilege_withdrawn token_superseded : RevocationReason
  delegation_revoked owner_request constraint_violation cross_domain_revoked : RevocationReason

abbrev pub urgency_code : RevocationUrgency → ℕ
urgency_code critical = 0
urgency_code normal = 1
urgency_code planned = 2

abbrev pub reason_code : RevocationReason → ℕ
reason_code unspecified = 0
reason_code key_compromise = 1
reason_code privilege_withdrawn = 2
reason_code token_superseded = 3
reason_code delegation_revoked = 4
reason_code owner_request = 5
reason_code constraint_violation = 6
reason_code cross_domain_revoked = 7

pub record RevocationEntry : Type 0 where
  pub token_id : Bytes
  pub revocation_time : ℕ
  pub effective_time : ℕ
  pub reason : RevocationReason
  pub urgency : RevocationUrgency
  pub revoker_did : String
  pub parent_revocation_id : Option Bytes
  pub signature : Bytes

pub record RevocationList : Type 0 where
  pub entries : Dict Bytes RevocationEntry
  pub children : Dict Bytes (List Bytes)
  pub token_hash_to_id : Dict Bytes Bytes

-- children.get(id, set())
unfoldable pub children_of : Bytes → RevocationList → List Bytes
unfolding lookup
children_of token_id crl = elim (lookup token_id crl.children) [ none ↦ [] | some ids ↦ ids ]

unfoldable pub is_member : Bytes → List Bytes → Bool
is_member a [] = false
is_member a (b ∷ bs) = let rest = is_member a bs in if bytes_eq a b then true else rest

unfoldable pub add_member : Bytes → List Bytes → List Bytes
unfolding is_member
add_member a bs = if is_member a bs then bs else bs ++ a ∷ []

-- `if id not in children: children[id] = set()`
unfoldable pub ensure : Bytes → Dict Bytes (List Bytes) → Dict Bytes (List Bytes)
unfolding has_key insert
ensure token_id children =
    if has_key token_id children then children else insert token_id [] children

-- When a revocation takes effect.
unfoldable pub effective_from : RevocationUrgency → Option ℕ → ℕ → ℕ
effective_from critical scheduled_time now = now
effective_from planned (some at) now = at
effective_from urgency scheduled_time now = now + 300

-- The state of the cascade: the entries of the list, those that were made, and the queue.
pub record Cascade : Type 0 where
  pub entries : Dict Bytes RevocationEntry
  pub all_entries : List RevocationEntry
  pub queue : List Bytes

abbrev pub child_entry : RevocationEntry → Bytes → Bytes → RevocationEntry
child_entry root parent child = record root {
  token_id = child;
  reason = delegation_revoked;
  parent_revocation_id = some parent;
}

abbrev pub enter : RevocationEntry → Cascade → Cascade
enter e c = record {
  entries = insert e.token_id e c.entries;
  all_entries = c.all_entries ++ e ∷ [];
  queue = c.queue ++ e.token_id ∷ [];
}

-- How many children there are: no more rounds than that follow the first.
unfoldable pub count_children : Dict Bytes (List Bytes) → ℕ
count_children [] = 0
count_children ((token_id, ids) ∷ children) = length ids + count_children children

-- A token is added to the children of the token that its hash of a parent names, if that is known.
unfoldable pub link : Option Bytes → Bytes → RevocationList → RevocationList
unfolding insert ensure lookup children_of add_member
link none token_id crl = crl
link (some hash) token_id crl = elim (lookup hash crl.token_hash_to_id) [
  | none ↦ crl
  | some parent_id ↦ record crl {
    children =
        insert parent_id (add_member token_id (children_of parent_id crl))
          (ensure parent_id crl.children);
  }
]

module _ (q : Platform) where
  unfoldable pub register_token : CapabilityToken → RevocationList → RevocationList
  unfolding compute_hash insert ensure
  register_token token crl = link token.parent_token_hash token.token_id (record crl {
    token_hash_to_id = insert (compute_hash q token) token.token_id crl.token_hash_to_id;
    children = ensure token.token_id crl.children;
  })

  unfoldable pub encode_revocation_data : RevocationEntry → Bytes
  encode_revocation_data e = q.dumps (
      dict (
        field "token_id" (text (q.hex e.token_id)) (
          field "revocation_time" (int (pos e.revocation_time)) (
            field "effective_time" (int (pos e.effective_time)) (
              field "reason" (int (pos (reason_code e.reason))) (
                field "urgency" (int (pos (urgency_code e.urgency)))
                  (field "revoker_did" (text e.revoker_did) end)))))))

  -- The entry with its signature.
  unfoldable pub sign_revocation : Bytes → RevocationEntry → Result RevocationEntry
  unfolding encode_revocation_data
  sign_revocation secret_key e = elim (q.sign secret_key (encode_revocation_data e)) [
    | err error ↦ err error
    | ok signature ↦ ok (record e { signature = signature })
  ]

  unfoldable pub verify_revocation_signature : Bytes → RevocationEntry → Result (Unit {0})
  unfolding encode_revocation_data
  verify_revocation_signature public_key e =
      elim (q.verify public_key (encode_revocation_data e) e.signature) [
        | ok done ↦ ok tt
        | err invalid_signature ↦ err invalid_revocation
        | err other ↦ err other
      ]

  -- The inner loop, over the children of one token; signing may raise.
  unfoldable pub offer :
      Bytes → RevocationEntry → Bytes → List Bytes → Cascade → Cascade × Result (Unit {0})
  unfolding has_key sign_revocation insert
  offer secret_key root parent [] c = (c, ok tt)
  offer secret_key root parent (child ∷ ids) c = elim (has_key child c.entries) [
    | true ↦ offer secret_key root parent ids c
    | false ↦ elim (sign_revocation secret_key (child_entry root parent child)) [
      | err e ↦ (c, err e)
      | ok entry ↦ offer secret_key root parent ids (enter entry c)
    ]
  ]

  -- The loop on the queue; `none` means that the fuel ran out.
  unfoldable pub cascade :
      ℕ → Bytes → RevocationEntry → RevocationList → Cascade → Option (Cascade × Result (Unit {0}))
  unfolding offer children_of
  cascade zero secret_key root crl c = elim c.queue [ [] ↦ some (c, ok tt) | parent ∷ queue ↦ none ]
  cascade (suc fuel) secret_key root crl c = elim c.queue [
    | [] ↦ some (c, ok tt)
    | parent ∷ queue ↦
        let (c', answer) =
          offer secret_key root parent (children_of parent crl) (record c { queue = queue }) in
        elim answer [ err e ↦ some (c', err e) | ok done ↦ cascade fuel secret_key root crl c' ]
  ]

  -- What a call leaves and answers.
  abbrev pub Answer : Type 0
  Answer = Option (RevocationList × Result (List RevocationEntry))

  abbrev pub leave : RevocationList → Option (Cascade × Result (Unit {0})) → Answer
  leave crl none = none
  leave crl (some (c, err e)) = some (record crl { entries = c.entries }, err e)
  leave crl (some (c, ok done)) = some (record crl { entries = c.entries }, ok c.all_entries)

  -- The root's entry is in the list before the cascade.
  unfoldable pub revoke :
      Bytes
      → RevocationReason
      → RevocationUrgency
      → String
      → Bytes
      → Option ℕ
      → ℕ
      → RevocationList
      → Answer
  unfolding has_key effective_from sign_revocation cascade count_children insert
  revoke token_id reason urgency revoker_did secret_key scheduled_time now crl =
      let root : RevocationEntry = record {
        token_id = token_id;
        revocation_time = now;
        effective_time = effective_from urgency scheduled_time now;
        reason = reason;
        urgency = urgency;
        revoker_did = revoker_did;
        parent_revocation_id = none;
        signature = [];
      } in
      if has_key token_id crl.entries
      then some (crl, err token_already_revoked)
      else elim (sign_revocation secret_key root) [
        | err e ↦ some (crl, err e)
        | ok entry ↦ leave crl (
            cascade (suc (count_children crl.children)) secret_key entry crl (record {
              entries = insert token_id entry crl.entries;
              all_entries = entry ∷ [];
              queue = token_id ∷ [];
            }))
      ]

  -- A signature under the secret key that the public key must verify, and then the revocation; the
  -- clock is read twice.
  unfoldable pub process_revocation_message :
      Bytes
      → RevocationReason
      → RevocationUrgency
      → String
      → Bytes
      → Bytes
      → Option ℕ
      → ℕ
      → ℕ
      → RevocationList
      → Answer
  unfolding effective_from sign_revocation verify_revocation_signature revoke
  process_revocation_message token_id reason urgency revoker_did public_key secret_key
        scheduled_time now later crl =
      let test : RevocationEntry = record {
        token_id = token_id;
        revocation_time = now;
        effective_time = effective_from urgency scheduled_time now;
        reason = reason;
        urgency = urgency;
        revoker_did = revoker_did;
        parent_revocation_id = none;
        signature = [];
      } in
      elim (sign_revocation secret_key test) [
        | err e ↦ some (crl, err e)
        | ok entry ↦ elim (verify_revocation_signature public_key entry) [
          | err e ↦ some (crl, err e)
          | ok done ↦ revoke token_id reason urgency revoker_did secret_key scheduled_time later crl
        ]
      ]
