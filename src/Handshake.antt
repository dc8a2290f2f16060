-- ===== src/Handshake.antt =====
-- protocol/handshake.py: the state of a handshake and what its methods are made of.
-- The values that a failure's text interpolates are left out.
pub mod Transcript
pub mod Client
pub mod Server
pub mod Runs
pub mod Steps
pub mod Agreement
pub mod Refusals
pub mod Signed
use qasp.Prelude.{
  ℕ, String, Bytes, ◌+◌, ◌==◌, ltb, Bool, true, false, not, ◌&&◌, ◌||◌, Option, none, some, List,
  [], ◌∷◌, ◌++◌, length, take, drop, if◌then◌else◌, replicate,
}
use qasp.Prelude.Result.{Error, Result, ok, err, type_error, runtime_error, value_error}
use qasp.Prelude.Result as Result
use qasp.Prelude.Binary.{to_byte, to_bytes2}
use qasp.Platform.{Platform}
use qasp.Crypto.{Library}
use qasp.Crypto.Kem.{
  HybridKeypair, encapsulate, encapsulate_hybrid, decapsulate, decapsulate_hybrid,
}
use qasp.Crypto.Kdf.{derive_qasp_session_key}
use qasp.Connection.Session.{
  HandshakeConfig, HandshakeErrorType, HandshakeFailure, Outcome, returns, fails, raises,
}

pub data HandshakeState : Type 0 where
  initial sent_client_hello received_client_hello sent_server_hello : HandshakeState
  received_server_hello complete failed : HandshakeState

abbrev index : HandshakeState → ℕ
index initial = 1
index sent_client_hello = 2
index received_client_hello = 3
index sent_server_hello = 4
index received_server_hello = 5
index complete = 6
index failed = 7

infix 50 ◌is_at◌
abbrev pub ◌is_at◌ : HandshakeState → HandshakeState → Bool
a is_at b = index a == index b

-- The messages (framing/messages.py), with the types that they declare.
pub record ClientHello : Type 0 where
  pub protocol_version : ℕ × ℕ
  pub client_random : Bytes
  pub kem_public_key : Bytes
  pub sig_public_key : Bytes
  pub cipher_suites : List ℕ

pub record ServerHello : Type 0 where
  pub protocol_version : ℕ × ℕ
  pub server_random : Bytes
  pub kem_ciphertext : Bytes
  pub kem_public_key : Bytes
  pub sig_public_key : Bytes
  pub selected_cipher_suite : ℕ
  pub signature : Bytes

pub record ClientAuth : Type 0 where
  pub kem_ciphertext : Bytes
  pub signature : Bytes
  pub certificate : Bytes

pub record TranscriptBuilder : Type 0 where
  pub parts : List Bytes
  pub client_hello_end : ℕ
  pub server_hello_presig_end : ℕ

pub record Handshake : Type 0 where
  pub kem_keypair : HybridKeypair
  pub sig_public_key : Bytes
  pub sig_secret_key : Bytes
  pub is_initiator : Bool
  pub config : HandshakeConfig
  pub certificate : Bytes
  pub state : HandshakeState
  pub client_nonce : Option Bytes
  pub server_nonce : Option Bytes
  pub peer_kem_public : Option Bytes
  pub peer_sig_public : Option Bytes
  pub shared_secret : Option Bytes
  pub selected_suite : Option ℕ
  pub transcript : TranscriptBuilder
  pub client_auth_message : Option ClientAuth
  pub session_key : Option Bytes

abbrev pub new_handshake :
    HybridKeypair → Bytes × Bytes → Bool → HandshakeConfig → Bytes → Handshake
new_handshake kem_keypair (sig_public_key, sig_secret_key) is_initiator config certificate =
    record {
      kem_keypair = kem_keypair;
      sig_public_key = sig_public_key;
      sig_secret_key = sig_secret_key;
      is_initiator = is_initiator;
      config = config;
      certificate = certificate;
      state = initial;
      client_nonce = none;
      server_nonce = none;
      peer_kem_public = none;
      peer_sig_public = none;
      shared_secret = none;
      selected_suite = none;
      transcript = record { parts = []; client_hello_end = 0; server_hello_presig_end = 0 };
      client_auth_message = none;
      session_key = none;
    }

abbrev pub M : Type 0 → Type 0
M A = Handshake → Handshake × Outcome A

infixl 5 ◌>>=◌ ◌>>◌
abbrev pub ◌>>=◌ : {A B : Type 0} → M A → (A → M B) → M B
◌>>=◌ m f s = elim ((m s).1) [
  | returns a ↦ f a (m s).0
  | fails failure ↦ ((m s).0, fails failure)
  | raises e ↦ ((m s).0, raises e)
]

abbrev pub ◌>>◌ : {B : Type 0} → M (Unit {0}) → M B → M B
m >> k = m >>= λ done. k

abbrev pub return : {A : Type 0} → A → M A
return a s = (s, returns a)

abbrev pub get : M Handshake
get s = (s, returns s)

abbrev pub modify : (Handshake → Handshake) → M (Unit {0})
modify f s = (f s, returns tt)

abbrev pub fail : {A : Type 0} → HandshakeFailure → M A
fail failure s = (record s { state = failed }, fails failure)

-- A test that sets the state to FAILED and returns the failure.
abbrev pub fail_if : Bool → HandshakeFailure → M (Unit {0})
fail_if true failure = fail failure
fail_if false failure = return tt

-- A call under `try` whose exceptions do the same.
abbrev pub attempt : {A : Type 0} → Result A → HandshakeFailure → M A
attempt (ok a) failure = return a
attempt (err e) failure = fail failure

-- A call outside `try`.
abbrev pub call : {A : Type 0} → Result A → M A
call (ok a) s = (s, returns a)
call (err e) s = (s, raises e)

abbrev pub raise_if : Bool → M (Unit {0})
raise_if true s = (s, raises runtime_error)
raise_if false s = (s, returns tt)

abbrev pub failure : HandshakeErrorType → ℕ → String → HandshakeFailure
failure error_type alert_code message = record {
  error_type = error_type;
  alert_code = alert_code;
  message = message;
}

unfoldable pub has_suite : ℕ → List ℕ → Bool
has_suite n [] = false
has_suite n (m ∷ ms) = (n == m) || has_suite n ms

unfoldable pub version_eq : ℕ × ℕ → ℕ × ℕ → Bool
version_eq (a, b) (c, d) = (a == c) && (b == d)

-- A value that a method needs and that may be None.
abbrev pub known : {A : Type 0} → Option A → Result A
known none = err type_error
known (some a) = ok a

module _ (l : Library) where
  unfoldable pub decapsulate_for : Bool → HybridKeypair → Bytes → Result Bytes
  unfolding decapsulate decapsulate_hybrid
  decapsulate_for use_hybrid k ciphertext =
      if use_hybrid
      then decapsulate_hybrid l k ciphertext
      else decapsulate l k.mlkem_private ciphertext

  -- The key derivation of both sides, from the two shared secrets one after the other.
  unfoldable pub derive_session_key : Bool → Bytes → Bytes → Bytes → Result Bytes
  unfolding derive_qasp_session_key
  derive_session_key use_hybrid combined client_nonce server_nonce =
      if use_hybrid
      then derive_qasp_session_key l
          (l.sha256 (take 32 (drop 32 combined) ++ take 32 (drop 96 combined)))
          (l.sha256 (take 32 combined ++ take 32 (drop 64 combined))) client_nonce server_nonce
      else derive_qasp_session_key l (l.sha256 combined) (replicate 32 0) client_nonce server_nonce
