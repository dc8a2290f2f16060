-- ===== src/Framing/Types.antt =====
-- `MessageType` of framing/messages.py.
use qasp.Prelude.{ℕ, Option, none, some, List, [], ◌∷◌, ◌≡◌, refl, ◌==◌, if◌then◌else◌}

pub data MessageType : Type 0 where
  client_hello server_hello client_auth application_data : MessageType
  token_revocation revocation_notice resource_request resource_grant : MessageType
  meter_ack resource_suspend resource_deny resource_release : MessageType
  dispute_open dispute_evidence dispute_verdict meter_report : MessageType
  channel_open channel_close price_request alert : MessageType
  price_offer price_accept delegation_request delegation_grant : MessageType
  reconciliation_request reconciliation_response ocsp_request ocsp_response : MessageType
  agent_message agent_message_ack relay_session_request relay_session_grant : MessageType
  relay_session_deny relay_session_notify relay_session_accept relay_data : MessageType
  relay_session_close : MessageType

unfoldable pub code : MessageType → ℕ
code client_hello = 0x01
code server_hello = 0x02
code client_auth = 0x03
code application_data = 0x04
code token_revocation = 0x05
code revocation_notice = 0x06
code resource_request = 0x07
code resource_grant = 0x08
code meter_ack = 0x09
code resource_suspend = 0x0a
code resource_deny = 0x0b
code resource_release = 0x0c
code dispute_open = 0x0d
code dispute_evidence = 0x0e
code dispute_verdict = 0x0f
code meter_report = 0x10
code channel_open = 0x11
code channel_close = 0x12
code price_request = 0x13
code alert = 0x14
code price_offer = 0x15
code price_accept = 0x16
code delegation_request = 0x17
code delegation_grant = 0x18
code reconciliation_request = 0x19
code reconciliation_response = 0x1a
code ocsp_request = 0x1b
code ocsp_response = 0x1c
code agent_message = 0x1d
code agent_message_ack = 0x1e
code relay_session_request = 0x20
code relay_session_grant = 0x21
code relay_session_deny = 0x22
code relay_session_notify = 0x23
code relay_session_accept = 0x24
code relay_data = 0x25
code relay_session_close = 0x26

abbrev all_types : List MessageType
all_types =
    client_hello ∷ server_hello ∷ client_auth ∷ application_data ∷ token_revocation
    ∷ revocation_notice ∷ resource_request ∷ resource_grant ∷ meter_ack ∷ resource_suspend
    ∷ resource_deny ∷ resource_release ∷ dispute_open ∷ dispute_evidence ∷ dispute_verdict
    ∷ meter_report ∷ channel_open ∷ channel_close ∷ price_request ∷ alert ∷ price_offer
    ∷ price_accept ∷ delegation_request ∷ delegation_grant ∷ reconciliation_request
    ∷ reconciliation_response ∷ ocsp_request ∷ ocsp_response ∷ agent_message ∷ agent_message_ack
    ∷ relay_session_request ∷ relay_session_grant ∷ relay_session_deny ∷ relay_session_notify
    ∷ relay_session_accept ∷ relay_data ∷ relay_session_close ∷ []

find_type : ℕ → List MessageType → Option MessageType
unfolding code
find_type n [] = none
find_type n (t ∷ ts) = if code t == n then some t else find_type n ts

-- MessageType(n), where `none` stands for its ValueError.
unfoldable pub from_code : ℕ → Option MessageType
unfolding find_type
from_code n = find_type n all_types

pub from_code-code : (t : MessageType) → from_code (code t) ≡ some t
unfolding from_code
from_code-code client_hello = refl
from_code-code _ = refl
