-- ===== src/Framing/Resources.antt =====
-- The message classes of framing/messages.py for resources, disputes, meters, channels and price requests: their
-- fields in order, with the defaults.
use qasp.Prelude.{List, [], ◌∷◌}
use qasp.Platform.{bytes, nil, cons}
use qasp.Framing.{FieldSpec, bytes_field, int_field, text_field, tuple_field}

unfoldable pub meter_ack : List FieldSpec
meter_ack =
    bytes_field "meter_id"
    ∷ int_field "acked_sequence"
    ∷ int_field "acked_usage"
    ∷ bytes_field "signature"
    ∷ []

unfoldable pub resource_suspend : List FieldSpec
resource_suspend = bytes_field "token_id" ∷ int_field "reason" ∷ int_field "resume_time" ∷ []

unfoldable pub resource_deny : List FieldSpec
resource_deny =
    bytes_field "request_id"
    ∷ int_field "reason"
    ∷ text_field "message"
    ∷ int_field "retry_after"
    ∷ []

unfoldable pub resource_release : List FieldSpec
resource_release = bytes_field "token_id" ∷ int_field "final_usage" ∷ bytes_field "signature" ∷ []

unfoldable pub dispute_open : List FieldSpec
dispute_open =
    bytes_field "dispute_id"
    ∷ bytes_field "token_id"
    ∷ int_field "dispute_type"
    ∷ int_field "claimed_value"
    ∷ bytes_field "evidence_hash"
    ∷ []

unfoldable pub dispute_evidence : List FieldSpec
dispute_evidence =
    bytes_field "dispute_id"
    ∷ int_field "evidence_type"
    ∷ bytes_field "evidence_data"
    ∷ bytes_field "signature"
    ∷ []

unfoldable pub dispute_verdict : List FieldSpec
dispute_verdict =
    bytes_field "dispute_id"
    ∷ int_field "verdict"
    ∷ int_field "awarded_value"
    ∷ bytes_field "arbiter_id"
    ∷ bytes_field "signature"
    ∷ []

unfoldable pub meter_report : List FieldSpec
meter_report =
    bytes_field "meter_id"
    ∷ int_field "sequence_number"
    ∷ int_field "usage_count"
    ∷ int_field "usage_bytes"
    ∷ int_field "cost"
    ∷ int_field "timestamp"
    ∷ bytes_field "signature"
    ∷ []

unfoldable pub channel_open : List FieldSpec
channel_open =
    bytes_field "channel_id"
    ∷ int_field "channel_type"
    ∷ int_field "initial_balance"
    ∷ bytes_field "peer_id"
    ∷ int_field "timeout"
    ∷ []

unfoldable pub channel_close : List FieldSpec
channel_close =
    bytes_field "channel_id"
    ∷ int_field "final_balance_a"
    ∷ int_field "final_balance_b"
    ∷ int_field "close_reason"
    ∷ tuple_field "signatures" (cons (bytes []) (cons (bytes []) nil))
    ∷ []

unfoldable pub price_request : List FieldSpec
price_request =
    bytes_field "request_id"
    ∷ text_field "resource_type"
    ∷ bytes_field "resource_id"
    ∷ int_field "quantity"
    ∷ int_field "duration"
    ∷ []
