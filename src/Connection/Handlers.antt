-- ===== src/Connection/Handlers.antt =====
-- The handlers of QASPConnection: what a message does to the session.
use qasp.Prelude.{
  ℕ, String, Bytes, ◌+◌, ltb, Bool, true, false, not, Option, none, some, List, [], ◌∷◌, ◌++◌,
  str_eq, if◌then◌else◌,
}
use qasp.Prelude.Int.{ℤ, pos, negsuc, eq_ℤ}
use qasp.Prelude.Result.{
  Error, Result, ok, err, type_error, assertion_error, decryption_error, framing_error,
}
use qasp.Prelude.Binary.{to_bytes8}
use qasp.Platform.{Value, int, text, bytes}
use qasp.Framing.{Attr, plain, tuple}
use qasp.Framing.Types.{
  MessageType, client_hello, server_hello, client_auth, application_data, alert,
}
use qasp.Framing.Codec.{Message, encode_frame}
use qasp.Stream.Manager.{new_manager}
use qasp.Connection.{
  idle, hello_sent, hello_received, authenticated, established, error_state, ◌is◌,
}
use qasp.Connection.Session.{
  Session, M, Parts, HandshakeKeys, HandshakeFailure, Outcome, returns, fails, raises, Event,
  handshake_initiated, handshake_complete, handshake_failed, connection_error, connection_closed,
  alert_received, data_received, ◌>>=◌, ◌>>◌, return, lift, get, modify, transition_to, force_to,
  queue,
}

-- An attribute of a message, of any type or of the one that the code needs.
unfoldable pub find_attribute : String → List (String × Attr) → Option Attr
find_attribute k [] = none
find_attribute k ((j, a) ∷ as') = if str_eq j k then some a else find_attribute k as'

unfoldable pub attribute : String → Message → Result Value
unfolding find_attribute
attribute k m = elim (find_attribute k m.attributes) [
  | none ↦ err type_error
  | some a ↦ elim a [ plain v ↦ ok v | tuple vs ↦ err type_error ]
]

unfoldable pub as_int : Value → Result ℤ
as_int (int z) = ok z
as_int _ = err type_error

unfoldable pub as_bytes : Value → Result Bytes
as_bytes (bytes b) = ok b
as_bytes _ = err type_error

-- `assert x is not None`
unfoldable pub present {ℓ} : {A : Type ℓ} → Option A → Result A
present none = err assertion_error
present (some a) = ok a

abbrev pub is_framing_error : Error → Bool
is_framing_error framing_error = true
is_framing_error _ = false

abbrev pub is_decryption_error : Error → Bool
is_decryption_error decryption_error = true
is_decryption_error _ = false

unfoldable pub is_fatal_level : Value → Bool
is_fatal_level (int z) = eq_ℤ z (pos 2)
is_fatal_level _ = false

-- Alert(level, description, message, 0)
unfoldable pub alert_message : ℕ → ℕ → String → Message
alert_message level description message = record {
  message_type = alert;
  attributes =
      ("level", plain (int (pos level)))
      ∷ ("description", plain (int (pos description)))
      ∷ ("message", plain (text message))
      ∷ ("related_message_type", plain (int (pos 0)))
      ∷ [];
}

module _ {H : Type 0} (p : Parts H) where
  -- encode_frame, and the frame into the send buffer
  unfoldable pub send_message : Message → M H (Unit {0})
  unfolding queue
  send_message m = do s ← get; frame ← lift (encode_frame p.wire m s.hmac_key); modify (queue frame)

  -- The same for an alert: a FramingError is passed over.
  unfoldable pub send_alert : Message → M H (Unit {0})
  unfolding send_message
  send_alert m s = elim ((send_message m s).1) [
    | ok done ↦ send_message m s
    | err e ↦ if is_framing_error e then (s, ok tt) else (s, err e)
  ]

  unfoldable pub construct_nonce : ℕ → M H Bytes
  unfolding present
  construct_nonce sequence_number = do
    s ← get
    iv ← lift (present s.nonce_iv)
    counter ← lift (to_bytes8 sequence_number)
    return (iv ++ counter)

  unfoldable pub handle_handshake_failure : HandshakeFailure → M H (List Event)
  unfolding send_alert force_to alert_message
  handle_handshake_failure failure = do
    send_alert (alert_message 2 failure.alert_code failure.message)
    force_to error_state
    return (handshake_failed ∷ [])

  abbrev pub with_keys : HandshakeKeys → Session H → Session H
  with_keys keys s = record s {
    session_key = some keys.session_key;
    session_id = some keys.session_id;
    peer_kem_public = some keys.peer_kem_public;
    peer_sig_public = some keys.peer_sig_public;
    nonce_iv = some (p.derive_nonce_iv keys.session_key);
    hmac_key = keys.session_key;
  }

  abbrev pub without_handshake : Session H → Session H
  without_handshake s = record s {
    handshake = none;
    stream_manager = some (new_manager s.is_client);
  }

  unfoldable pub complete_handshake : HandshakeKeys → M H (List Event)
  unfolding transition_to new_manager
  complete_handshake keys = do
    modify (with_keys keys)
    transition_to established
    modify without_handshake
    return (handshake_complete keys.peer_kem_public keys.session_id ∷ [])

  abbrev pub keep_handshake : H → Session H → Session H
  keep_handshake h s = record s { handshake = some h }

  -- The answer to a ClientHello or a ServerHello, or a failure. An exception of the handshake is passed
  -- on.
  unfoldable pub answer_client_hello : Outcome Message → M H (List Event)
  unfolding handle_handshake_failure send_message transition_to
  answer_client_hello (fails failure) = handle_handshake_failure failure
  answer_client_hello (raises e) = lift (err e)
  answer_client_hello (returns server_hello') = do
    send_message server_hello'
    transition_to hello_received
    return (handshake_initiated false ∷ [])

  unfoldable pub handle_client_hello : Message → M H (List Event)
  unfolding answer_client_hello
  handle_client_hello m s =
      if s.is_client
      then (s, ok (handshake_failed ∷ []))
      else if not (s.state is idle)
      then (s, ok (handshake_failed ∷ []))
      else let (h, result) = p.process_client_hello (p.new_handshake false) m in
        answer_client_hello result (keep_handshake h s)

  unfoldable pub finish : Outcome HandshakeKeys → M H (List Event)
  unfolding handle_handshake_failure complete_handshake
  finish (fails failure) = handle_handshake_failure failure
  finish (raises e) = lift (err e)
  finish (returns keys) = complete_handshake keys

  unfoldable pub answer_server_hello : H → Outcome Message → M H (List Event)
  unfolding handle_handshake_failure send_message transition_to finish
  answer_server_hello h (fails failure) = handle_handshake_failure failure
  answer_server_hello h (raises e) = lift (err e)
  answer_server_hello h (returns client_auth') = do
    send_message client_auth'
    transition_to authenticated
    modify (keep_handshake (p.complete_client_handshake h).0)
    finish (p.complete_client_handshake h).1

  unfoldable pub handle_server_hello : Message → M H (List Event)
  unfolding answer_server_hello
  handle_server_hello m s =
      if not s.is_client
      then (s, ok (handshake_failed ∷ []))
      else if not (s.state is hello_sent)
      then (s, ok (handshake_failed ∷ []))
      else elim s.handshake [
        | none ↦ (s, ok (handshake_failed ∷ []))
        | some h ↦
            let (h', result) = p.process_server_hello h m in
            answer_server_hello h' result (keep_handshake h' s)
      ]

  unfoldable pub authenticate : Outcome HandshakeKeys → M H (List Event)
  unfolding handle_handshake_failure transition_to complete_handshake
  authenticate (fails failure) = handle_handshake_failure failure
  authenticate (raises e) = lift (err e)
  authenticate (returns keys) = do transition_to authenticated; complete_handshake keys

  unfoldable pub handle_client_auth : Message → M H (List Event)
  unfolding authenticate
  handle_client_auth m s =
      if s.is_client
      then (s, ok (handshake_failed ∷ []))
      else if not (s.state is hello_received)
      then (s, ok (handshake_failed ∷ []))
      else elim s.handshake [
        | none ↦ (s, ok (handshake_failed ∷ []))
        | some h ↦
            let (h', result) = p.process_client_auth h m in
            authenticate result (keep_handshake h' s)
      ]

  unfoldable pub decrypted : Result Bytes → ℕ → Result (List Event)
  decrypted (ok plaintext) n = ok (data_received plaintext n ∷ [])
  decrypted (err e) n = if is_decryption_error e then ok (connection_error true ∷ []) else err e

  -- A new sequence number: the rest of the handler.
  unfoldable pub open_data : ℕ → Message → M H (List Event)
  unfolding construct_nonce decrypted present attribute as_bytes
  open_data n m = do
    s ← get
    key ← lift (present s.session_key)
    nonce ← construct_nonce n
    counter ← lift (to_bytes8 n)
    value ← lift (attribute "encrypted_data" m)
    ciphertext ← lift (as_bytes value)
    lift (decrypted (p.decrypt key nonce ciphertext (4 ∷ counter)) n)

  unfoldable pub sequenced : ℤ → Message → M H (List Event)
  unfolding open_data
  sequenced (negsuc n) m s = (s, ok (connection_error false ∷ []))
  sequenced (pos n) m s =
      if ltb n s.recv_seq
      then (s, ok (connection_error false ∷ []))
      else open_data n m (record s { recv_seq = n + 1 })

  unfoldable pub handle_application_data : Message → M H (List Event)
  unfolding sequenced attribute as_int
  handle_application_data m s =
      if not (s.state is established)
      then (s, ok (connection_error false ∷ []))
      else (do value ← lift (attribute "sequence_number" m); n ← lift (as_int value); sequenced n m)
          s

  -- A fatal alert closes the connection.
  unfoldable pub alerted : Bool → Event → M H (List Event)
  unfolding transition_to
  alerted true told = do transition_to error_state; return (told ∷ connection_closed false ∷ [])
  alerted false told = return (told ∷ [])

  unfoldable pub handle_alert : Message → M H (List Event)
  unfolding attribute is_fatal_level alerted
  handle_alert m = do
    level ← lift (attribute "level" m)
    description ← lift (attribute "description" m)
    message ← lift (attribute "message" m)
    alerted (is_fatal_level level) (alert_received level description message)

  unfoldable pub dispatch : MessageType → Message → M H (List Event)
  unfolding handle_client_hello handle_server_hello handle_client_auth handle_application_data
      handle_alert
  dispatch client_hello m = handle_client_hello m
  dispatch server_hello m = handle_server_hello m
  dispatch client_auth m = handle_client_auth m
  dispatch application_data m = handle_application_data m
  dispatch alert m = handle_alert m
  dispatch _ m = return []

  unfoldable pub process_message : Message → M H (List Event)
  unfolding dispatch
  process_message m = dispatch m.message_type m
