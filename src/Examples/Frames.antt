-- ===== src/Examples/Frames.antt =====
-- A small message in a frame.
use qasp.Prelude.{
  ℕ, String, Bytes, ◌≡◌, refl, Option, none, some, List, [], ◌∷◌, ◌++◌, replicate, length,
  length-replicate,
}
use qasp.Prelude.Int.{pos}
use qasp.Prelude.Result.{ok}
use qasp.Platform.{Value, dict, field, end, int, bytes}
use qasp.Framing.{Attr, plain}
use qasp.Framing.Types.{application_data, agent_message_ack}
use qasp.Framing.Sessions
use qasp.Framing.Codec.{Wire, Message, payload_fields, encode_frame, decode_frame, class_of}
use qasp.Framing.Attributes.{Instance}
use qasp.Framing.RoundTrip.{Carries, decode_frame-encode_frame}

abbrev some_data : Message
some_data = record {
  message_type = application_data;
  attributes =
      ("encrypted_data", plain (bytes (1 ∷ 2 ∷ [])))
      ∷ ("sequence_number", plain (int (pos 7)))
      ∷ [];
}

-- A codec that knows one value, and a tag of zeros.
abbrev wire_for : Value → Wire
wire_for v = record { dumps = λ w. 9 ∷ 9 ∷ []; loads = λ b. ok v; hmac = λ key b. replicate 48 0 }

abbrev data_wire : Wire
data_wire =
    wire_for (
      dict
        (field "encrypted_data" (bytes (1 ∷ 2 ∷ [])) (field "sequence_number" (int (pos 7)) end)))

abbrev data_frame : Bytes
data_frame = (0x51 ∷ 0x41 ∷ 1 ∷ 4 ∷ 0 ∷ 0 ∷ 0 ∷ 2 ∷ 9 ∷ 9 ∷ []) ++ replicate 48 0

data_Carries : Carries data_wire some_data
unfolding payload_fields
data_Carries = record { decodes = refl; mac_size = λ key b. refl }

data_known : class_of application_data ≡ some Sessions.application_data
unfolding class_of
data_known = refl

data_encoded : encode_frame data_wire some_data [] ≡ ok data_frame
unfolding encode_frame qasp.Prelude.Binary.to_byte qasp.Framing.Types.code qasp.Prelude.Binary.be4
data_encoded = refl

data_Instance : Instance Sessions.application_data some_data.attributes
unfolding Sessions.application_data qasp.Framing.Codec.from_value qasp.Framing.Codec.to_value
data_Instance = (refl, refl, (refl, refl, tt))

decode_frame-encode_frame_example :
    decode_frame data_wire (data_frame ++ 5 ∷ []) [] ≡ ok (some_data, length data_frame)
decode_frame-encode_frame_example =
    decode_frame-encode_frame data_wire some_data Sessions.application_data [] data_frame (5 ∷ [])
      data_Carries data_known data_Instance data_encoded
