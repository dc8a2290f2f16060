-- ===== src/Examples/Exchanges.antt =====
-- A session that sends two bytes of data, and another that reads them.
use qasp.Prelude.{
  Bool, ℕ, Bytes, ◌<◌, ◌≤◌, ◌+◌, ◌≡◌, refl, true, false, none, some, List, [], ◌∷◌, ◌++◌, length,
  replicate, arith,
}
use qasp.Prelude.Int.{pos}
use qasp.Prelude.Result.{ok}
use qasp.Platform.{dict, field, end, int, bytes}
use qasp.Framing.Codec.{Wire, encode_frame, payload_fields}
use qasp.Framing.RoundTrip.{Carries}
use qasp.Connection.{established}
use qasp.Connection.Session.{Session, Parts, data_sent, data_received, new_session}
use qasp.Connection.Handlers.{present}
use qasp.Connection.Calls.{send_data, data_message}
use qasp.Connection.Receive.{receive_bytes}
use qasp.Examples.Connections.{config, parts}
use qasp.Connection.Exchange.{Uses, receive_bytes-send_data}

abbrev one_value : Wire
one_value = record {
  dumps = λ v. 9 ∷ 9 ∷ [];
  loads = λ b. ok (
      dict
        (field "encrypted_data" (bytes (1 ∷ 2 ∷ [])) (field "sequence_number" (int (pos 0)) end)));
  hmac = λ key b. replicate 48 0;
}

-- The seal is the identity.
abbrev open_parts : Parts (Unit {0})
open_parts = record parts { wire = one_value }

-- Both ends of a handshake that is over.
abbrev end_of : Bool → Session (Unit {0})
end_of is_client = record (new_session is_client config none (7 ∷ [])) {
  state = established;
  session_key = some (7 ∷ []);
  nonce_iv = some (8 ∷ []);
}

abbrev sent_frame : Bytes
sent_frame = (0x51 ∷ 0x41 ∷ 1 ∷ 4 ∷ 0 ∷ 0 ∷ 0 ∷ 2 ∷ 9 ∷ 9 ∷ []) ++ replicate 48 0

end_Uses : (is_client : Bool) → Uses open_parts (7 ∷ []) (8 ∷ []) (end_of is_client)
unfolding present new_session
end_Uses is_client = record { live = refl; key_set = refl; iv_set = refl }

data_Carries : Carries one_value (data_message open_parts (1 ∷ 2 ∷ []) 0)
unfolding payload_fields
data_Carries = record { decodes = refl; mac_size = λ key b. refl }

data_encoded :
    encode_frame one_value (data_message open_parts (1 ∷ 2 ∷ []) 0) (7 ∷ []) ≡ ok sent_frame
unfolding encode_frame qasp.Prelude.Binary.to_byte qasp.Framing.Types.code qasp.Prelude.Binary.be4
data_encoded = refl

receive_bytes-send_data_example :
    (send_data open_parts (1 ∷ 2 ∷ []) (end_of true)
      ≡ (record (end_of true) { send_seq = 1; send_buffer = sent_frame }, ok (data_sent 2 0 ∷ [])))
    × (receive_bytes open_parts sent_frame (record { recv_buffer = []; session = end_of false })
        ≡ some (record {
          connection = record {
            recv_buffer = [];
            session = record (end_of false) { recv_seq = 1 };
          };
          answer = ok (data_received (1 ∷ 2 ∷ []) 0 ∷ []);
        }))
unfolding new_session
receive_bytes-send_data_example =
    receive_bytes-send_data open_parts open_parts (7 ∷ []) (8 ∷ []) (1 ∷ 2 ∷ []) (1 ∷ 2 ∷ [])
      sent_frame (end_of true) (end_of false) (end_Uses true) (end_Uses false) refl refl
      (omega arith) (omega arith) refl refl data_Carries data_encoded
