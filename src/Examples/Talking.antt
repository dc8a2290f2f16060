-- ===== src/Examples/Talking.antt =====
-- Two connections that shake hands and send two bytes each, over a codec that tells the messages by
-- their second field.
use qasp.Prelude.{
  ℕ, Bytes, ◌≡◌, refl, ◌==◌, some, List, [], ◌∷◌, ◌++◌, replicate, if◌then◌else◌, str_eq,
}
use qasp.Prelude.Int.{pos}
use qasp.Prelude.Result.{Result, ok, type_error}
use qasp.Platform.{Value, Fields, dict, field, end, int, bytes}
use qasp.Framing.Codec.{Wire, Message, encode_frame, payload_fields}
use qasp.Connection.Session.{Parts, raises}
use qasp.Handshake.{Handshake}
use qasp.Handshake.Runs.{start}
use qasp.Peers.{hello_message, answer_message, auth_message}
use qasp.Peers.Opens.{Framed, Opened, handshake-Opened, client_parts, server_parts}
use qasp.Peers.Talks.{Passes, FirstSealed, opened-Passes}
use qasp.Examples.{example_platform}
use qasp.Examples.Handshakes.{library, party, agreement}

abbrev hello : Message
hello = hello_message agreement.hello

abbrev answer : Message
answer = answer_message agreement.answer

abbrev auth : Message
auth = auth_message agreement.auth

abbrev data_of : Value → Bytes
data_of (bytes b) = 4 ∷ b
data_of _ = []

abbrev tag_of : Fields → Bytes
tag_of (field j v (field k w fs)) =
    if str_eq k "client_random"
    then 1 ∷ []
    else if str_eq k "server_random"
    then 2 ∷ []
    else if str_eq k "signature"
    then 3 ∷ []
    else data_of v
tag_of _ = []

abbrev dumps_of : Value → Bytes
dumps_of (dict fs) = tag_of fs
dumps_of _ = []

abbrev loads_of : Bytes → Result Value
unfolding payload_fields
loads_of [] = ok (dict end)
loads_of (n ∷ b) =
    if n == 1
    then ok (dict (payload_fields hello.attributes))
    else if n == 2
    then ok (dict (payload_fields answer.attributes))
    else if n == 3
    then ok (dict (payload_fields auth.attributes))
    else ok (dict (field "encrypted_data" (bytes b) (field "sequence_number" (int (pos 0)) end)))

abbrev wire : Wire
wire = record { dumps = dumps_of; loads = loads_of; hmac = λ key b. replicate 48 0 }

-- The seal is the identity.
abbrev base_parts : Parts Handshake
base_parts = record {
  wire = wire;
  encrypt = λ key nonce b aad. ok b;
  decrypt = λ key nonce b aad. ok b;
  derive_nonce_iv = λ key. 8 ∷ [];
  new_handshake = λ initiator. start initiator (party []);
  create_client_hello = λ h. (h, ok hello);
  process_client_hello = λ h m. (h, raises type_error);
  process_server_hello = λ h m. (h, raises type_error);
  complete_client_handshake = λ h. (h, raises type_error);
  process_client_auth = λ h m. (h, raises type_error);
}

-- A frame of that type.
abbrev frame_of : ℕ → Bytes → Bytes
frame_of type_byte payload =
    (0x51 ∷ 0x41 ∷ 1 ∷ type_byte ∷ 0 ∷ 0 ∷ 0 ∷ []) ++ payload ++ replicate 48 0

frames :
    Framed example_platform library
      (party (1 ∷ []))
      (party (2 ∷ []))
      (3 ∷ [])
      (4 ∷ [])
      []
      []
      []
      []
      (6 ∷ [])
      base_parts
      agreement
unfolding encode_frame payload_fields qasp.Prelude.Binary.to_byte qasp.Framing.Types.code
    qasp.Prelude.Binary.be4
frames = record {
  hello_frame = frame_of 1 (1 ∷ 1 ∷ []);
  answer_frame = frame_of 2 (1 ∷ 2 ∷ []);
  auth_frame = frame_of 3 (1 ∷ 3 ∷ []);
  hello_encoded = refl;
  answer_encoded = refl;
  auth_encoded = refl;
  hello_carried = record { decodes = refl; mac_size = λ key b. refl };
  answer_carried = record { decodes = refl; mac_size = λ key b. refl };
  auth_carried = record { decodes = refl; mac_size = λ key b. refl };
}

handshake-Opened_example :
    Opened example_platform library
      (party (1 ∷ []))
      (party (2 ∷ []))
      (3 ∷ [])
      (4 ∷ [])
      []
      []
      []
      []
      (6 ∷ [])
      base_parts
      agreement
      frames
handshake-Opened_example =
    handshake-Opened example_platform library (party (1 ∷ [])) (party (2 ∷ [])) (3 ∷ []) (4 ∷ []) []
      [] [] [] (6 ∷ []) base_parts agreement frames

abbrev both_open :
    Opened example_platform library
      (party (1 ∷ []))
      (party (2 ∷ []))
      (3 ∷ [])
      (4 ∷ [])
      []
      []
      []
      []
      (6 ∷ [])
      base_parts
      agreement
      frames
both_open =
    handshake-Opened example_platform library (party (1 ∷ [])) (party (2 ∷ [])) (3 ∷ []) (4 ∷ []) []
      [] [] [] (6 ∷ []) base_parts agreement frames

seals :
    (a b : ℕ)
    → FirstSealed base_parts agreement.client_keys.session_key
        (a ∷ b ∷ [])
        (a ∷ b ∷ [])
        (frame_of 4 (3 ∷ 4 ∷ a ∷ b ∷ []))
unfolding encode_frame payload_fields qasp.Prelude.Binary.to_byte qasp.Framing.Types.code
    qasp.Prelude.Binary.be4
seals a b = record {
  sealed = refl;
  unsealed = refl;
  carried = record { decodes = refl; mac_size = λ key b. refl };
  encoded = refl;
}

opened-Passes_example :
    Passes
      (client_parts example_platform library
        (party (1 ∷ []))
        (party (2 ∷ []))
        (3 ∷ [])
        (4 ∷ [])
        []
        []
        []
        []
        (6 ∷ [])
        base_parts
        agreement)
      (server_parts example_platform library
        (party (1 ∷ []))
        (party (2 ∷ []))
        (3 ∷ [])
        (4 ∷ [])
        []
        []
        []
        []
        (6 ∷ [])
        base_parts
        agreement)
      (1 ∷ 2 ∷ [])
      (frame_of 4 (3 ∷ 4 ∷ 1 ∷ 2 ∷ []))
      both_open.client_open
      both_open.server_open
    × Passes
        (server_parts example_platform library
          (party (1 ∷ []))
          (party (2 ∷ []))
          (3 ∷ [])
          (4 ∷ [])
          []
          []
          []
          []
          (6 ∷ [])
          base_parts
          agreement)
        (client_parts example_platform library
          (party (1 ∷ []))
          (party (2 ∷ []))
          (3 ∷ [])
          (4 ∷ [])
          []
          []
          []
          []
          (6 ∷ [])
          base_parts
          agreement)
        (5 ∷ 6 ∷ [])
        (frame_of 4 (3 ∷ 4 ∷ 5 ∷ 6 ∷ []))
        both_open.server_open
        both_open.client_open
opened-Passes_example =
    opened-Passes example_platform library (party (1 ∷ [])) (party (2 ∷ [])) (3 ∷ []) (4 ∷ []) [] []
      [] [] (6 ∷ []) base_parts agreement frames both_open (1 ∷ 2 ∷ []) (1 ∷ 2 ∷ [])
      (frame_of 4 (3 ∷ 4 ∷ 1 ∷ 2 ∷ [])) (5 ∷ 6 ∷ []) (5 ∷ 6 ∷ []) (frame_of 4 (3 ∷ 4 ∷ 5 ∷ 6 ∷ []))
      (seals 1 2) (seals 5 6)
