-- ===== src/Connection/Session.antt =====
-- The state of a connection, and what it takes from other parts. The bytes that were received and
-- not yet read stand apart, in Connection/Receive, since no handler touches them.
use qasp.Prelude.{ℕ, String, Bytes, Bool, Option, none, some, List, [], ◌++◌, if◌then◌else◌}
use qasp.Prelude.Result.{Error, Result, ok, err, state_transition_error}
use qasp.Platform.{Value}
use qasp.Framing.Codec.{Wire, Message}
use qasp.Stream.Manager.{StreamManager}
use qasp.Connection.{ConnectionState, is_valid_transition}

pub record HandshakeConfig : Type 0 where
  pub protocol_version : ℕ × ℕ
  pub supported_cipher_suites : List ℕ
  pub enable_hybrid : Bool
  pub initial_timeout_ms : ℕ
  pub max_timeout_ms : ℕ
  pub max_retries : ℕ
  -- backoff_multiplier, as a fraction
  pub backoff_up : ℕ
  pub backoff_down : ℕ

pub record HandshakeKeys : Type 0 where
  pub session_key : Bytes
  pub session_id : Bytes
  pub peer_kem_public : Bytes
  pub peer_sig_public : Bytes

-- HandshakeErrorType
pub data HandshakeErrorType : Type 0 where
  version_mismatch suite_mismatch auth_failed kem_failed timeout upgrade_required :
      HandshakeErrorType

pub record HandshakeFailure : Type 0 where
  pub error_type : HandshakeErrorType
  pub alert_code : ℕ
  pub message : String

-- What a method of the handshake does: it returns a value, returns a HandshakeFailure, or raises.
pub data Outcome (A : Type 0) : Type 0 where
  returns : A → Outcome A
  fails : HandshakeFailure → Outcome A
  raises : Error → Outcome A

-- What the connection calls: the frames, AES-256-GCM (crypto/aead.py), the key derivation
-- (crypto/kdf.py) and the handshake (protocol/handshake.py) with its state `H`.
pub record Parts (H : Type 0) : Type 0 where
  pub wire : Wire
  -- key, nonce, plaintext or ciphertext, associated data
  pub encrypt : Bytes → Bytes → Bytes → Bytes → Result Bytes
  pub decrypt : Bytes → Bytes → Bytes → Bytes → Result Bytes
  -- derive_key(session_key, b"qasp_nonce_iv", 4)
  pub derive_nonce_iv : Bytes → Bytes
  -- Handshake(..., is_initiator=b), and its methods
  pub new_handshake : Bool → H
  pub create_client_hello : H → H × Result Message
  pub process_client_hello : H → Message → H × Outcome Message
  pub process_server_hello : H → Message → H × Outcome Message
  pub complete_client_handshake : H → H × Outcome HandshakeKeys
  pub process_client_auth : H → Message → H × Outcome HandshakeKeys

-- The events, without the wording of the errors.
pub data Event : Type 0 where
  handshake_initiated : Bool → Event
  handshake_complete : Bytes → Bytes → Event
  handshake_failed : Event
  handshake_timeout : ℕ → ℕ → Bool → Event
  connection_error : Bool → Event
  connection_closed : Bool → Event
  alert_received : Value → Value → Value → Event
  data_received : Bytes → ℕ → Event
  data_sent : ℕ → ℕ → Event
  stream_opened : ℕ → Option Bytes → Event
  stream_closed : ℕ → Event
  stream_data_received : ℕ → Bytes → Bool → Event

module _ (H : Type 0) where
  pub record Session : Type 0 where
    pub is_client : Bool
    pub config : HandshakeConfig
    pub state : ConnectionState
    pub peer_kem_public : Option Bytes
    pub peer_sig_public : Option Bytes
    pub session_id : Option Bytes
    pub session_key : Option Bytes
    pub nonce_iv : Option Bytes
    pub hmac_key : Bytes
    pub initial_hmac_key : Option Bytes
    pub send_buffer : Bytes
    pub send_seq : ℕ
    pub recv_seq : ℕ
    pub handshake : Option H
    pub retry_count : ℕ
    pub current_timeout_ms : ℕ
    pub stream_manager : Option StreamManager

  -- A method that may raise; what it has changed by then stays.
  abbrev pub M : Type 0 → Type 0
  M A = Session → Session × Result A

module _ {H : Type 0} where
  infixl 5 ◌>>=◌ ◌>>◌
  abbrev pub ◌>>=◌ : {A B : Type 0} → M H A → (A → M H B) → M H B
  ◌>>=◌ m f s = elim ((m s).1) [ ok a ↦ f a (m s).0 | err e ↦ ((m s).0, err e) ]

  abbrev pub ◌>>◌ : {B : Type 0} → M H (Unit {0}) → M H B → M H B
  m >> k = m >>= λ done. k

  abbrev pub return : {A : Type 0} → A → M H A
  return a s = (s, ok a)

  abbrev pub lift : {A : Type 0} → Result A → M H A
  lift r s = (s, r)

  abbrev pub get : M H (Session H)
  get s = (s, ok s)

  abbrev pub modify : (Session H → Session H) → M H (Unit {0})
  modify f s = (f s, ok tt)

  -- _transition_to
  unfoldable pub transition_to : ConnectionState → M H (Unit {0})
  transition_to new_state s =
      if is_valid_transition s.state new_state
      then (record s { state = new_state }, ok tt)
      else (s, err state_transition_error)

  -- The same, under `except StateTransitionError` with the state set by force.
  unfoldable pub force_to : ConnectionState → M H (Unit {0})
  force_to new_state s = (record s { state = new_state }, ok tt)

  unfoldable pub queue : Bytes → Session H → Session H
  queue frame s = record s { send_buffer = s.send_buffer ++ frame }

-- QASPConnection.__init__ and reset: a session that has not started. `hmac_key` is the key that was
-- given, or else random bytes.
unfoldable pub new_session :
    {H : Type 0} → Bool → HandshakeConfig → Option Bytes → Bytes → Session H
new_session is_client config initial_hmac_key random = record {
  is_client = is_client;
  config = config;
  state = ConnectionState.idle;
  peer_kem_public = none;
  peer_sig_public = none;
  session_id = none;
  session_key = none;
  nonce_iv = none;
  hmac_key = elim initial_hmac_key [ none ↦ random | some key ↦ key ];
  initial_hmac_key = initial_hmac_key;
  send_buffer = [];
  send_seq = 0;
  recv_seq = 0;
  handshake = none;
  retry_count = 0;
  current_timeout_ms = config.initial_timeout_ms;
  stream_manager = none;
}

unfoldable pub reset : {H : Type 0} → Bytes → Session H → Session H
unfolding new_session
reset random s = new_session s.is_client s.config s.initial_hmac_key random
