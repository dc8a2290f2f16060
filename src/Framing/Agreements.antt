-- ===== src/Framing/Agreements.antt =====
-- The message classes of framing/messages.py for prices, delegation, reconciliation, OCSP and agent messages: their
-- fields in order, with the defaults.
use qasp.Prelude.{List, [], ◌∷◌}
use qasp.Platform.{null, text}
use qasp.Framing.{FieldSpec, bytes_field, int_field, text_field, plain_field}

unfoldable pub price_offer : List FieldSpec
price_offer =
    bytes_field "request_id"
    ∷ text_field "resource_type"
    ∷ int_field "unit_price"
    ∷ text_field "currency"
    ∷ int_field "valid_from"
    ∷ int_field "valid_until"
    ∷ bytes_field "signature"
    ∷ []

unfoldable pub price_accept : List FieldSpec
price_accept =
    bytes_field "request_id"
    ∷ bytes_field "offer_signature"
    ∷ text_field "resource_type"
    ∷ int_field "unit_price"
    ∷ text_field "currency"
    ∷ int_field "valid_from"
    ∷ int_field "valid_until"
    ∷ bytes_field "signature"
    ∷ []

unfoldable pub delegation_request : List FieldSpec
delegation_request =
    bytes_field "request_id"
    ∷ bytes_field "attenuated_token"
    ∷ bytes_field "delegation_chain"
    ∷ bytes_field "source_binding"
    ∷ bytes_field "endorsement"
    ∷ text_field "target_owner_did"
    ∷ text_field "target_agent_did"
    ∷ []

unfoldable pub delegation_grant : List FieldSpec
delegation_grant =
    bytes_field "request_id"
    ∷ bytes_field "acceptance"
    ∷ bytes_field "target_binding"
    ∷ bytes_field "delegation_id"
    ∷ int_field "status"
    ∷ text_field "rejection_reason"
    ∷ []

unfoldable pub reconciliation_request : List FieldSpec
reconciliation_request =
    bytes_field "meter_id"
    ∷ int_field "start_seq"
    ∷ int_field "end_seq"
    ∷ bytes_field "chain_cbor"
    ∷ int_field "detected_cost_diff"
    ∷ int_field "timestamp"
    ∷ bytes_field "signature"
    ∷ []

unfoldable pub reconciliation_response : List FieldSpec
reconciliation_response =
    bytes_field "meter_id"
    ∷ int_field "start_seq"
    ∷ int_field "end_seq"
    ∷ bytes_field "chain_cbor"
    ∷ int_field "resolution"
    ∷ int_field "agreed_cost"
    ∷ int_field "timestamp"
    ∷ bytes_field "signature"
    ∷ []

unfoldable pub ocsp_request : List FieldSpec
ocsp_request = bytes_field "token_id" ∷ bytes_field "nonce" ∷ []

unfoldable pub ocsp_response : List FieldSpec
ocsp_response =
    int_field "status"
    ∷ bytes_field "token_id"
    ∷ int_field "this_update"
    ∷ int_field "next_update"
    ∷ text_field "responder_id"
    ∷ bytes_field "nonce"
    ∷ bytes_field "signature"
    ∷ plain_field "revocation_reason" null
    ∷ plain_field "revocation_time" null
    ∷ []

unfoldable pub agent_message : List FieldSpec
agent_message =
    bytes_field "message_id"
    ∷ bytes_field "conversation_id"
    ∷ text_field "sender_did"
    ∷ text_field "recipient_did"
    ∷ plain_field "content_type" (text "text/plain")
    ∷ bytes_field "content"
    ∷ bytes_field "reply_to"
    ∷ int_field "timestamp"
    ∷ bytes_field "metadata"
    ∷ []

unfoldable pub agent_message_ack : List FieldSpec
agent_message_ack =
    bytes_field "message_id"
    ∷ bytes_field "conversation_id"
    ∷ int_field "status"
    ∷ int_field "timestamp"
    ∷ []
