-- ===== src/Framing/Sessions.antt =====
-- The message classes of framing/messages.py for the handshake, the data, revocation and the first resource messages: their
-- fields in order, with the defaults.
use qasp.Prelude.{List, [], ◌∷◌}
use qasp.Prelude.Int.{pos}
use qasp.Platform.{int, text, nil, cons}
use qasp.Framing.{FieldSpec, bytes_field, int_field, text_field, tuple_field, plain_field}

unfoldable pub client_hello : List FieldSpec
client_hello =
    tuple_field "protocol_version" (cons (int (pos 1)) (cons (int (pos 0)) nil))
    ∷ bytes_field "client_random"
    ∷ bytes_field "kem_public_key"
    ∷ bytes_field "sig_public_key"
    ∷ tuple_field "cipher_suites" nil
    ∷ bytes_field "extensions"
    ∷ []

unfoldable pub server_hello : List FieldSpec
server_hello =
    tuple_field "protocol_version" (cons (int (pos 1)) (cons (int (pos 0)) nil))
    ∷ bytes_field "server_random"
    ∷ bytes_field "kem_ciphertext"
    ∷ bytes_field "kem_public_key"
    ∷ bytes_field "sig_public_key"
    ∷ int_field "selected_cipher_suite"
    ∷ bytes_field "signature"
    ∷ bytes_field "extensions"
    ∷ bytes_field "certificate_chain"
    ∷ []

unfoldable pub client_auth : List FieldSpec
client_auth =
    bytes_field "kem_ciphertext" ∷ bytes_field "signature" ∷ bytes_field "certificate" ∷ []

unfoldable pub application_data : List FieldSpec
application_data = bytes_field "encrypted_data" ∷ int_field "sequence_number" ∷ []

unfoldable pub alert : List FieldSpec
alert =
    int_field "level"
    ∷ int_field "description"
    ∷ text_field "message"
    ∷ int_field "related_message_type"
    ∷ []

unfoldable pub token_revocation : List FieldSpec
token_revocation =
    bytes_field "token_id"
    ∷ int_field "revocation_time"
    ∷ int_field "reason"
    ∷ bytes_field "signature"
    ∷ plain_field "urgency" (int (pos 1))
    ∷ int_field "scheduled_time"
    ∷ text_field "issuer_did"
    ∷ []

unfoldable pub revocation_notice : List FieldSpec
revocation_notice =
    bytes_field "token_id"
    ∷ int_field "revocation_time"
    ∷ bytes_field "issuer_id"
    ∷ bytes_field "signature"
    ∷ plain_field "urgency" (int (pos 1))
    ∷ tuple_field "cascade_token_ids" nil
    ∷ []

unfoldable pub resource_request : List FieldSpec
resource_request =
    bytes_field "request_id"
    ∷ text_field "resource_type"
    ∷ bytes_field "resource_id"
    ∷ int_field "permissions"
    ∷ int_field "duration"
    ∷ bytes_field "payment_offer"
    ∷ tuple_field "capability_tokens" nil
    ∷ plain_field "disclosure_mode" (text "full")
    ∷ bytes_field "selective_proof"
    ∷ []

unfoldable pub resource_grant : List FieldSpec
resource_grant =
    bytes_field "request_id"
    ∷ bytes_field "token"
    ∷ int_field "granted_permissions"
    ∷ int_field "expiration"
    ∷ bytes_field "meter_id"
    ∷ []
