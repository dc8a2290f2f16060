-- ===== src/Peers/Opens.antt =====
-- Two connections that complete the handshake, frame by frame.
use qasp.Prelude.{Bytes, ◌≡◌, refl, ap, arith, Bool, true, false, none, some, [], ◌∷◌, ◌++◌}
use qasp.Prelude.Result.{ok}
use qasp.Platform.{Platform}
use qasp.Framing.Sessions
use qasp.Framing.Codec.{encode_frame, class_of}
use qasp.Framing.RoundTrip.{Carries}
use qasp.Stream.Manager.{new_manager}
use qasp.Crypto.{Library}
use qasp.Connection.{ConnectionState, established, ◌is◌, is_valid_transition}
use qasp.Connection.Session.{
  Session, HandshakeKeys, Parts, handshake_initiated, handshake_complete, new_session,
  transition_to, queue,
}
use qasp.Connection.Handlers.{
  process_message, dispatch, handle_client_hello, handle_server_hello, handle_client_auth,
  answer_client_hello, answer_server_hello, authenticate, finish, complete_handshake, send_message,
}
use qasp.Connection.Receive.{receive_bytes}
use qasp.Connection.Calls.{initiate_handshake}
use qasp.Connection.Frames.{receive_bytes-encode_frame}
use qasp.Handshake.{Handshake}
use qasp.Handshake.Runs.{Party}
use qasp.Handshake.Agreement.{Agreed}
use qasp.Peers.{
  hello_message, answer_message, auth_message, peer_parts, on_client_hello, on_server_hello,
}
use qasp.Peers.Reads.{
  read_hello-hello_message, read_answer-answer_message, read_auth-auth_message, hello_Instance,
  answer_Instance, auth_Instance,
}

-- A new connection of a party, with a key that both ends were given for the tags.
abbrev pub new_peer : Bool → Bytes → Party → Session Handshake
new_peer is_client key party = new_session is_client party.config (some key) []

-- What a connection has after the handshake.
abbrev pub opened : Parts Handshake → HandshakeKeys → Bytes → Session Handshake → Session Handshake
opened p keys sent s = record s {
  state = established;
  session_key = some keys.session_key;
  session_id = some keys.session_id;
  peer_kem_public = some keys.peer_kem_public;
  peer_sig_public = some keys.peer_sig_public;
  nonce_iv = some (p.derive_nonce_iv keys.session_key);
  hmac_key = keys.session_key;
  send_buffer = sent;
  handshake = none;
  stream_manager = some (new_manager s.is_client);
}

-- A connection that is established with those keys and has neither sent nor received data.
pub record IsOpen (p : Parts Handshake) (keys : HandshakeKeys) (s : Session Handshake)
    : Type 0 where
  pub live : (s.state is established) ≡ true
  pub key_set : s.session_key ≡ some keys.session_key
  pub id_set : s.session_id ≡ some keys.session_id
  pub iv_set : s.nonce_iv ≡ some (p.derive_nonce_iv keys.session_key)
  pub tags : s.hmac_key ≡ keys.session_key
  pub sends_first : s.send_seq ≡ 0
  pub expects_first : s.recv_seq ≡ 0

module _ (q : Platform) (l : Library) (client server : Party) (nc ns ec rc es rs key : Bytes)
    (other : Parts Handshake) (g : Agreed q l client server nc ns ec rc es rs) where
  -- The frames of the three messages, and that the codec reads each back.
  pub record Framed : Type 0 where
    pub hello_frame : Bytes
    pub answer_frame : Bytes
    pub auth_frame : Bytes
    pub hello_encoded : encode_frame other.wire (hello_message g.hello) key ≡ ok hello_frame
    pub answer_encoded : encode_frame other.wire (answer_message g.answer) key ≡ ok answer_frame
    pub auth_encoded : encode_frame other.wire (auth_message g.auth) key ≡ ok auth_frame
    pub hello_carried : Carries other.wire (hello_message g.hello)
    pub answer_carried : Carries other.wire (answer_message g.answer)
    pub auth_carried : Carries other.wire (auth_message g.auth)

  abbrev pub client_parts : Parts Handshake
  client_parts = peer_parts q l client nc ec rc other

  abbrev pub server_parts : Parts Handshake
  server_parts = peer_parts q l server ns es rs other

  -- The four calls, each on the frame that the other end has sent, and what they leave.
  pub record Opened (f : Framed) : Type 0 where
    pub client_waits : Session Handshake
    pub server_waits : Session Handshake
    pub client_open : Session Handshake
    pub server_open : Session Handshake
    pub says_hello :
        initiate_handshake client_parts (new_peer true key client)
        ≡ (client_waits, ok (handshake_initiated true ∷ []))
    pub answers :
        receive_bytes server_parts f.hello_frame
          (record { recv_buffer = []; session = new_peer false key server })
        ≡ some (record {
          connection = record { recv_buffer = []; session = server_waits };
          answer = ok (handshake_initiated false ∷ []);
        })
    pub client_ends :
        receive_bytes client_parts f.answer_frame
          (record { recv_buffer = []; session = client_waits })
        ≡ some (record {
          connection = record { recv_buffer = []; session = client_open };
          answer =
              ok (handshake_complete g.client_keys.peer_kem_public g.client_keys.session_id ∷ []);
        })
    pub server_ends :
        receive_bytes server_parts f.auth_frame
          (record { recv_buffer = []; session = server_waits })
        ≡ some (record {
          connection = record { recv_buffer = []; session = server_open };
          answer =
              ok (handshake_complete g.server_keys.peer_kem_public g.server_keys.session_id ∷ []);
        })
    pub client_sent : client_open.send_buffer ≡ f.hello_frame ++ f.auth_frame
    pub server_sent : server_open.send_buffer ≡ f.answer_frame
    pub client_ready : IsOpen other g.client_keys client_open
    pub server_ready : IsOpen other g.server_keys server_open
    pub same_key : g.client_keys.session_key ≡ g.server_keys.session_key
    pub same_id : g.client_keys.session_id ≡ g.server_keys.session_id
    pub server_known : client_open.peer_sig_public ≡ some server.sig_public
    pub client_known : server_open.peer_sig_public ≡ some client.sig_public

  module _ (f : Framed) where
    abbrev client_started : Session Handshake
    client_started = record (new_peer true key client) {
      state = ConnectionState.hello_sent;
      handshake = some g.client_sent;
      send_buffer = f.hello_frame;
    }

    abbrev server_answered : Session Handshake
    server_answered = record (new_peer false key server) {
      state = ConnectionState.hello_received;
      handshake = some g.server_ready;
      send_buffer = f.answer_frame;
    }

    initiate_eq :
        initiate_handshake client_parts (new_peer true key client)
        ≡ (client_started, ok (handshake_initiated true ∷ []))
    unfolding initiate_handshake send_message queue transition_to new_session is_valid_transition
    initiate_eq = ground (arith, g.says_hello, f.hello_encoded)

    hello_eq :
        process_message server_parts (hello_message g.hello) (new_peer false key server)
        ≡ (server_answered, ok (handshake_initiated false ∷ []))
    unfolding process_message dispatch handle_client_hello answer_client_hello on_client_hello
        send_message queue transition_to new_session is_valid_transition
    hello_eq = ground (arith, read_hello-hello_message g.hello, g.answers, f.answer_encoded)

    answer_eq : process_message client_parts (answer_message g.answer) client_started ≡ (
      opened other g.client_keys (f.hello_frame ++ f.auth_frame) client_started,
      ok (handshake_complete g.client_keys.peer_kem_public g.client_keys.session_id ∷ []),
    )
    unfolding process_message dispatch handle_server_hello answer_server_hello on_server_hello
        finish complete_handshake send_message queue transition_to new_session is_valid_transition
    answer_eq =
        ground (arith, read_answer-answer_message g.answer, g.proves, f.auth_encoded, g.client_ends)

    auth_eq : process_message server_parts (auth_message g.auth) server_answered ≡ (
      opened other g.server_keys f.answer_frame server_answered,
      ok (handshake_complete g.server_keys.peer_kem_public g.server_keys.session_id ∷ []),
    )
    unfolding process_message dispatch handle_client_auth authenticate complete_handshake
        transition_to new_session is_valid_transition
    auth_eq = ground (arith, read_auth-auth_message g.auth, g.server_ends)

    opened-IsOpen :
        (keys : HandshakeKeys) (sent : Bytes) (s : Session Handshake)
        → s.send_seq ≡ 0
        → s.recv_seq ≡ 0
        → IsOpen other keys (opened other keys sent s)
    opened-IsOpen keys sent s sends expects = record {
      live = refl;
      key_set = refl;
      id_set = refl;
      iv_set = refl;
      tags = refl;
      sends_first = sends;
      expects_first = expects;
    }

    classes :
        (class_of (hello_message g.hello).message_type ≡ some Sessions.client_hello)
        × (class_of (answer_message g.answer).message_type ≡ some Sessions.server_hello)
        × (class_of (auth_message g.auth).message_type ≡ some Sessions.client_auth)
    unfolding class_of
    classes = (refl, refl, refl)

  -- The new connections of a client and a server that agree on a handshake (`handshake-Agreed`) and
  -- were given the same key for the tags open, provided that its three messages are encoded and that
  -- the codec reads each back: the client's call and the three calls of `receive_bytes`, each on the
  -- frame that the other end has sent, return without an error. Both connections are then
  -- established with the handshake's keys, the same session key, start of the nonces and session id,
  -- and sequence numbers 0, and each has the other's signature key.
  pub handshake-Opened : (f : Framed) → Opened f
  unfolding new_session
  handshake-Opened f = record {
    client_waits = client_started f;
    server_waits = server_answered f;
    client_open = opened other g.client_keys (f.hello_frame ++ f.auth_frame) (client_started f);
    server_open = opened other g.server_keys f.answer_frame (server_answered f);
    says_hello = initiate_eq f;
    answers =
        receive_bytes-encode_frame server_parts (hello_message g.hello) Sessions.client_hello
          f.hello_frame (new_peer false key server) (server_answered f)
          (handshake_initiated false ∷ []) f.hello_carried (classes f).0 (hello_Instance g.hello)
          f.hello_encoded (hello_eq f);
    client_ends =
        receive_bytes-encode_frame client_parts (answer_message g.answer) Sessions.server_hello
          f.answer_frame (client_started f)
          (opened other g.client_keys (f.hello_frame ++ f.auth_frame) (client_started f))
          (handshake_complete g.client_keys.peer_kem_public g.client_keys.session_id ∷ [])
          f.answer_carried (classes f).1 (answer_Instance g.answer) f.answer_encoded (answer_eq f);
    server_ends =
        receive_bytes-encode_frame server_parts (auth_message g.auth) Sessions.client_auth
          f.auth_frame (server_answered f)
          (opened other g.server_keys f.answer_frame (server_answered f))
          (handshake_complete g.server_keys.peer_kem_public g.server_keys.session_id ∷ [])
          f.auth_carried (classes f).2 (auth_Instance g.auth) f.auth_encoded (auth_eq f);
    client_sent = refl;
    server_sent = refl;
    client_ready =
        opened-IsOpen f g.client_keys (f.hello_frame ++ f.auth_frame) (client_started f) refl refl;
    server_ready = opened-IsOpen f g.server_keys f.answer_frame (server_answered f) refl refl;
    same_key = g.same_key;
    same_id = g.same_id;
    server_known = ap some g.server_known;
    client_known = ap some g.client_known;
  }
