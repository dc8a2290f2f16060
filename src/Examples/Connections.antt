-- ===== src/Examples/Connections.antt =====
-- A server that gets a ClientHello, a ClientAuth and data, with a codec that reads empty payloads,
-- and one whose handshake times out.
use qasp.Prelude.{
  ℕ, Bytes, ◌<◌, ◌≤◌, ◌+◌, ◌≡◌, refl, true, false, none, some, [], ◌∷◌, ◌++◌, take, drop, length,
  replicate, arith, ◌⊎◌, bytes_eq,
}
use qasp.Prelude.Result.{ok}
use qasp.Prelude.Binary.{to_byte, to_bytes8}
use qasp.Platform.{dict, end}
use qasp.Framing.Types.{server_hello, from_code}
use qasp.Framing.Codec.{Wire, Message, encode, encode_frame}
use qasp.Connection.{closed, error_state, established, ◌is◌, is_valid_transition}
use qasp.Connection.Session.{
  Parts, HandshakeConfig, HandshakeKeys, returns, handshake_initiated, connection_closed,
  new_session,
}
use qasp.Connection.Receive.{
  QaspConnection, Received, frame_head, incomplete, receive_bytes, receive_loop,
}
use qasp.Connection.Calls.{close, is_closed}
use qasp.Connection.Heads.{fatal_free}
use qasp.Connection.Handlers.{alert_message}
use qasp.Connection.Segments.{after_events, receive_bytes_total, receive_bytes-append}
use qasp.Connection.Life.{Reachable, fresh, after, received}
use qasp.Connection.Ends.{IsKeyed, established-IsKeyed, close-closes}
use qasp.Connection.Retries.{time_outs, GivesUp, time_outs-GivesUp}

abbrev empty_wire : Wire
empty_wire = record { dumps = λ v. []; loads = λ b. ok (dict end); hmac = λ key b. replicate 48 0 }

abbrev hello_back : Message
hello_back = record { message_type = server_hello; attributes = [] }

abbrev some_keys : HandshakeKeys
some_keys = record {
  session_key = 1 ∷ 2 ∷ 3 ∷ 4 ∷ [];
  session_id = 5 ∷ [];
  peer_kem_public = 6 ∷ [];
  peer_sig_public = 7 ∷ [];
}

abbrev pub parts : Parts (Unit {0})
parts = record {
  wire = empty_wire;
  encrypt = λ key nonce bs aad. ok bs;
  decrypt = λ key nonce bs aad. ok bs;
  derive_nonce_iv = λ key. take 4 key;
  new_handshake = λ initiator. tt;
  create_client_hello = λ h. (tt, ok hello_back);
  process_client_hello = λ h m. (tt, returns hello_back);
  process_server_hello = λ h m. (tt, returns hello_back);
  complete_client_handshake = λ h. (tt, returns some_keys);
  process_client_auth = λ h m. (tt, returns some_keys);
}

abbrev pub config : HandshakeConfig
config = record {
  protocol_version = (1, 0);
  supported_cipher_suites = 2 ∷ [];
  enable_hybrid = true;
  initial_timeout_ms = 5000;
  max_timeout_ms = 60000;
  max_retries = 3;
  backoff_up = 2;
  backoff_down = 1;
}

abbrev new_server : QaspConnection parts
new_server = record { recv_buffer = []; session = new_session false config none (8 ∷ []) }

-- A frame of that type with an empty payload.
abbrev empty_frame : ℕ → Bytes
empty_frame type_byte = (0x51 ∷ 0x41 ∷ 1 ∷ type_byte ∷ 0 ∷ 0 ∷ 0 ∷ 0 ∷ []) ++ replicate 48 0

abbrev two_frames : Bytes
two_frames = empty_frame 1 ++ empty_frame 3

receive_bytes_total_example :
    (r : Received parts) × (receive_bytes parts two_frames new_server ≡ some r)
    × ((two_frames ≡ []) ⊎ (receive_loop parts 200 [] two_frames new_server.session ≡ some r))
receive_bytes_total_example = receive_bytes_total parts 200 two_frames new_server (omega arith)

server_Reachable : Reachable parts new_server
server_Reachable = fresh false config none (8 ∷ [])

alert_short : length (encode empty_wire (alert_message 1 0 "bye")) < 4294967296
unfolding encode
alert_short = omega arith

close-closes_example :
    ((is_closed new_server.session ≡ true)
      × (close parts "bye" new_server.session ≡ (new_server.session, ok [])))
    ⊎ ((is_closed new_server.session ≡ false)
        × (frame : Bytes) × (encode_frame empty_wire
              (alert_message 1 0 "bye")
              new_server.session.hmac_key
            ≡ ok frame)
        × (close parts "bye" new_server.session ≡ (
          record new_server.session {
            send_buffer = new_server.session.send_buffer ++ frame;
            state = closed;
          },
          ok (connection_closed true ∷ []),
        )))
close-closes_example = close-closes parts new_server "bye" server_Reachable alert_short

-- What a call of `receive_bytes` leaves.
received_by : Bytes → QaspConnection parts → Received parts
unfolding receive_bytes frame_head bytes_eq from_code new_session encode_frame to_byte
    is_valid_transition to_bytes8
received_by bs c = elim (receive_bytes parts bs c) [
  | none ↦ record { connection = c; answer = ok [] }
  | some r ↦ r
]

abbrev all_read : Received parts
unfolding received_by
all_read = received_by (two_frames ++ empty_frame 4) new_server

reads_all : receive_bytes parts (two_frames ++ empty_frame 4) new_server ≡ some all_read
unfolding receive_bytes received_by frame_head bytes_eq from_code new_session encode_frame to_byte
    is_valid_transition to_bytes8
reads_all = refl

all_read_Reachable : Reachable parts all_read.connection
all_read_Reachable = after server_Reachable (received (two_frames ++ empty_frame 4) reads_all)

all_read_established : (all_read.connection.session.state is established) ≡ true
unfolding receive_bytes received_by frame_head bytes_eq from_code new_session encode_frame to_byte
    is_valid_transition to_bytes8
all_read_established = refl

established-IsKeyed_example : IsKeyed parts all_read.connection.session
established-IsKeyed_example =
    established-IsKeyed parts all_read.connection all_read_Reachable all_read_established

abbrev first_part : Bytes
first_part = take 70 two_frames

abbrev second_part : Bytes
second_part = drop 70 two_frames

abbrev part_read : Received parts
unfolding received_by
part_read = received_by first_part new_server

reads_part : receive_bytes parts first_part new_server ≡ some part_read
unfolding receive_bytes received_by frame_head bytes_eq from_code new_session encode_frame to_byte
    is_valid_transition to_bytes8
reads_part = refl

part_answer : part_read.answer ≡ ok (handshake_initiated false ∷ [])
unfolding receive_bytes received_by frame_head bytes_eq from_code new_session encode_frame to_byte
    is_valid_transition to_bytes8
part_answer = refl

waits : frame_head new_server.recv_buffer ≡ incomplete
unfolding frame_head
waits = refl

calm : fatal_free (handshake_initiated false ∷ []) ≡ true
unfolding fatal_free
calm = refl

receive_bytes-append_example :
    (frame_head part_read.connection.recv_buffer ≡ incomplete)
    × (receive_bytes parts (first_part ++ second_part) new_server
        ≡ after_events parts
            (handshake_initiated false ∷ [])
            (receive_bytes parts second_part part_read.connection))
receive_bytes-append_example =
    receive_bytes-append parts first_part second_part new_server part_read
      (handshake_initiated false ∷ []) waits reads_part part_answer calm

three_left : new_server.session.retry_count + 3 ≡ new_server.session.config.max_retries
unfolding new_session
three_left = refl

within : new_server.session.current_timeout_ms ≤ new_server.session.config.max_timeout_ms
unfolding new_session
within = omega arith

time_outs-GivesUp_example :
    ((time_outs 4 new_server.session).0.state ≡ error_state)
    × GivesUp new_server.session.config.max_timeout_ms new_server.session.retry_count 3
        (time_outs 4 new_server.session).1
time_outs-GivesUp_example = time_outs-GivesUp 3 new_server.session three_left within
