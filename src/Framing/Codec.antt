-- ===== src/Framing/Codec.antt =====
-- framing/codec.py: frames of a header, a CBOR payload and an HMAC. What comes from cbor2 and hmac
-- is the parameter `Wire`.
use qasp.Prelude.{
  ℕ, String, Bytes, ◌+◌, ◌==◌, ltb, Bool, true, not, Option, none, some, List, [], ◌∷◌, ◌++◌,
  length, get_or, take, drop, str_eq, bytes_eq, if◌then◌else◌,
}
use qasp.Prelude.Result.{
  Result, ok, err, ◌>>=◌, ◌>>◌, raise_if, framing_error, struct_error, type_error,
}
use qasp.Prelude.Binary.{be4, to_byte, from_bytes}
use qasp.Platform.{Value, Fields, array, dict, end, field}
use qasp.Framing.{Attr, plain, tuple, FieldSpec}
use qasp.Framing.Types.{
  MessageType, code, from_code, client_hello, server_hello, client_auth, application_data,
  token_revocation, revocation_notice, resource_request, resource_grant, meter_ack,
  resource_suspend, resource_deny, resource_release, dispute_open, dispute_evidence,
  dispute_verdict, meter_report, channel_open, channel_close, price_request, alert, price_offer,
  price_accept, delegation_request, delegation_grant, reconciliation_request,
  reconciliation_response, ocsp_request, ocsp_response,
}
use qasp.Framing.Sessions
use qasp.Framing.Resources
use qasp.Framing.Agreements

-- cbor2.dumps, cbor2.loads (with text keys; its errors are CBORDecodeError) and
-- hmac.new(key, data, sha384).digest().
pub record Wire : Type 0 where
  pub dumps : Value → Bytes
  pub loads : Bytes → Result Value
  pub hmac : Bytes → Bytes → Bytes

-- A message object: its type, and its other attributes by the order of its class.
pub record Message : Type 0 where
  pub message_type : MessageType
  pub attributes : List (String × Attr)

abbrev pub header_size : ℕ
header_size = 8

abbrev pub hmac_size : ℕ
hmac_size = 48

abbrev pub frame_magic : Bytes
frame_magic = 0x51 ∷ 0x41 ∷ []

pub record FrameHeader : Type 0 where
  pub magic : Bytes
  pub version : ℕ
  pub message_type : MessageType
  pub payload_length : ℕ

-- FrameHeader.from_bytes and FrameHeader.to_bytes
unfoldable pub parse_header : Bytes → Result FrameHeader
unfolding from_bytes
parse_header bs =
    let header : MessageType → FrameHeader = λ t. record {
      magic = take 2 bs;
      version = get_or bs 2 0;
      message_type = t;
      payload_length = from_bytes (take 4 (drop 4 bs));
    } in
    raise_if (ltb (length bs) header_size) framing_error
    >> (raise_if (not (bytes_eq (take 2 bs) frame_magic)) framing_error
        >> (raise_if (not (get_or bs 2 0 == 1)) framing_error >> elim (from_code (get_or bs 3 0)) [
          | none ↦ err framing_error
          | some t ↦ ok (header t)
        ]))

unfoldable pub header_bytes : FrameHeader → Result Bytes
header_bytes h = do
  version ← to_byte h.version
  size ← if ltb h.payload_length 4294967296 then ok (be4 h.payload_length) else err struct_error
  ok (h.magic ++ (version ++ (code h.message_type ∷ size)))

-- Tuples become lists, in the payload and back.
unfoldable pub to_value : Attr → Value
to_value (plain v) = v
to_value (tuple vs) = array vs

unfoldable pub from_value : Bool → Value → Attr
from_value true (array vs) = tuple vs
from_value _ v = plain v

unfoldable pub payload_fields : List (String × Attr) → Fields
unfolding to_value
payload_fields [] = end
payload_fields ((name, a) ∷ as') = field name (to_value a) (payload_fields as')

unfoldable pub find_field : String → Fields → Option Value
find_field k end = none
find_field k (field j v fs) = if str_eq j k then some v else find_field k fs

-- The attributes that a class takes from a dictionary, or its defaults.
unfoldable pub fill : List FieldSpec → Fields → List (String × Attr)
unfolding find_field from_value
fill [] fs = []
fill (s ∷ ss) fs =
    (
      s.name,
      elim (find_field s.name fs) [ none ↦ s.default_value | some v ↦ from_value s.is_tuple v ],
    )
    ∷ fill ss fs

-- type_to_class
unfoldable pub class_of : MessageType → Option (List FieldSpec)
unfolding Agreements.delegation_grant Agreements.delegation_request Agreements.ocsp_request
    Agreements.ocsp_response Agreements.price_accept Agreements.price_offer
    Agreements.reconciliation_request Agreements.reconciliation_response Resources.channel_close
    Resources.channel_open Resources.dispute_evidence Resources.dispute_open
    Resources.dispute_verdict Resources.meter_ack Resources.meter_report Resources.price_request
    Resources.resource_deny Resources.resource_release Resources.resource_suspend Sessions.alert
    Sessions.application_data Sessions.client_auth Sessions.client_hello Sessions.resource_grant
    Sessions.resource_request Sessions.revocation_notice Sessions.server_hello
    Sessions.token_revocation
class_of client_hello = some Sessions.client_hello
class_of server_hello = some Sessions.server_hello
class_of client_auth = some Sessions.client_auth
class_of application_data = some Sessions.application_data
class_of token_revocation = some Sessions.token_revocation
class_of revocation_notice = some Sessions.revocation_notice
class_of resource_request = some Sessions.resource_request
class_of resource_grant = some Sessions.resource_grant
class_of meter_ack = some Resources.meter_ack
class_of resource_suspend = some Resources.resource_suspend
class_of resource_deny = some Resources.resource_deny
class_of resource_release = some Resources.resource_release
class_of dispute_open = some Resources.dispute_open
class_of dispute_evidence = some Resources.dispute_evidence
class_of dispute_verdict = some Resources.dispute_verdict
class_of meter_report = some Resources.meter_report
class_of channel_open = some Resources.channel_open
class_of channel_close = some Resources.channel_close
class_of price_request = some Resources.price_request
class_of alert = some Sessions.alert
class_of price_offer = some Agreements.price_offer
class_of price_accept = some Agreements.price_accept
class_of delegation_request = some Agreements.delegation_request
class_of delegation_grant = some Agreements.delegation_grant
class_of reconciliation_request = some Agreements.reconciliation_request
class_of reconciliation_response = some Agreements.reconciliation_response
class_of ocsp_request = some Agreements.ocsp_request
class_of ocsp_response = some Agreements.ocsp_response
class_of _ = none

-- A payload that is not a dictionary ends in a TypeError or an AttributeError, both `type_error`.
unfoldable pub dict_to_message : MessageType → Value → Result Message
unfolding class_of fill
dict_to_message t payload = elim (class_of t) [
  | none ↦ err framing_error
  | some fields ↦ elim payload [
    | dict fs ↦ ok (record { message_type = t; attributes = fill fields fs })
    | _ ↦ err type_error
  ]
]

module _ (w : Wire) where
  unfoldable pub encode : Message → Bytes
  unfolding payload_fields
  encode m = w.dumps (dict (payload_fields m.attributes))

  unfoldable pub decode : Bytes → Result Value
  decode bs = elim (w.loads bs) [ ok v ↦ ok v | err e ↦ err framing_error ]

  unfoldable pub encode_frame : Message → Bytes → Result Bytes
  unfolding encode header_bytes
  encode_frame m hmac_key =
      let payload = encode m in
      let header : FrameHeader = record {
        magic = frame_magic;
        version = 1;
        message_type = m.message_type;
        payload_length = length payload;
      } in
      do head ← header_bytes header; ok ((head ++ payload) ++ w.hmac hmac_key (head ++ payload))

  -- The checks after the header has been read.
  unfoldable pub decode_body : FrameHeader → Bytes → Bytes → Result (Message × ℕ)
  unfolding decode dict_to_message
  decode_body header bs hmac_key =
      let size = header.payload_length in
      let total_size = header_size + size + hmac_size in
      let payload = take size (drop header_size bs) in
      let received_mac = take hmac_size (drop (header_size + size) bs) in
      let expected_mac = w.hmac hmac_key (take header_size bs ++ payload) in
      raise_if (ltb (length bs) total_size) framing_error
      >> (raise_if (not (bytes_eq received_mac expected_mac)) framing_error
          >> (decode payload >>= λ v.
              (dict_to_message header.message_type v >>= λ m. ok (m, total_size))))

  unfoldable pub decode_frame : Bytes → Bytes → Result (Message × ℕ)
  unfolding parse_header decode_body
  decode_frame bs hmac_key = do header ← parse_header bs; decode_body header bs hmac_key
