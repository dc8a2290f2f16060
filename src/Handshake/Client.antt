-- ===== src/Handshake/Client.antt =====
-- The client's methods of `Handshake`.
use qasp.Prelude.{Bytes, ltb, Bool, not, Option, some, ◌++◌, length, drop, if◌then◌else◌}
use qasp.Prelude.Result.{Result}
use qasp.Platform.{Platform}
use qasp.Crypto.{Library}
use qasp.Crypto.Kem.{public_key, encapsulate, encapsulate_hybrid}
use qasp.Crypto.Suites.{lookup}
use qasp.Connection.Session.{
  HandshakeKeys, version_mismatch, suite_mismatch, auth_failed, kem_failed, fails,
}
use qasp.Handshake.{
  initial, sent_client_hello, received_server_hello, complete, ◌is_at◌, ClientHello, ServerHello,
  ClientAuth, Handshake, M, ◌>>=◌, ◌>>◌, return, get, modify, fail_if, attempt, call, raise_if,
  failure, has_suite, version_eq, known, decapsulate_for, derive_session_key,
}
use qasp.Handshake.Transcript.{
  add, add_client_hello, add_server_hello_presig, get_server_signing_transcript,
  get_client_signing_transcript, compute_session_id,
}

unfoldable pub hello_key : Handshake → Bytes
unfolding public_key
hello_key s =
    if s.config.enable_hybrid then public_key s.kem_keypair else s.kem_keypair.mlkem_public

abbrev pub hello_of : Bytes → Handshake → ClientHello
hello_of client_nonce s = record {
  protocol_version = s.config.protocol_version;
  client_random = client_nonce;
  kem_public_key = hello_key s;
  sig_public_key = s.sig_public_key;
  cipher_suites = s.config.supported_cipher_suites;
}

abbrev pub with_client_nonce : Bytes → Handshake → Handshake
with_client_nonce client_nonce s = record s { client_nonce = some client_nonce }

abbrev pub sent_hello : Handshake → Handshake
sent_hello s = record s { state = sent_client_hello }

-- The nonce is `secrets.token_bytes(32)`.
unfoldable pub create_client_hello : Bytes → M ClientHello
unfolding hello_key add_client_hello
create_client_hello client_nonce = do
  s ← get
  raise_if (not s.is_initiator)
  raise_if (not (s.state is_at initial))
  modify (with_client_nonce client_nonce)
  add_client_hello (hello_of client_nonce s)
  modify sent_hello
  return (hello_of client_nonce s)

abbrev pub keep_server : ServerHello → Handshake → Handshake
keep_server hello s = record s {
  server_nonce = some hello.server_random;
  peer_kem_public = some hello.kem_public_key;
  peer_sig_public = some hello.sig_public_key;
  selected_suite = some hello.selected_cipher_suite;
}

abbrev pub keep_shared : Bytes → Handshake → Handshake
keep_shared shared s = record s { shared_secret = some shared }

abbrev pub keep_auth : ClientAuth → Handshake → Handshake
keep_auth auth s = record s { client_auth_message = some auth }

abbrev pub keep_key : Bytes → Handshake → Handshake
keep_key key s = record s { session_key = some key; state = received_server_hello }

-- A server's key without its X25519 part.
unfoldable pub mlkem_part : Bytes → Bytes
mlkem_part key = if ltb 1184 (length key) then drop 32 key else key

module _ (l : Library) where
  -- The encapsulation to the server's key, for the ephemeral private key and random bytes.
  unfoldable pub encapsulate_to_server : Bool → Bytes → Bytes → Bytes → Result (Bytes × Bytes)
  unfolding encapsulate encapsulate_hybrid mlkem_part
  encapsulate_to_server use_hybrid ephemeral random key =
      if use_hybrid
      then encapsulate_hybrid l ephemeral random key
      else encapsulate l random (mlkem_part key)

module _ (q : Platform) (l : Library) where
  -- The tests on a ServerHello, up to its signature.
  unfoldable pub check_server_hello : ServerHello → M (Unit {0})
  check_server_hello hello = do
    s ← get
    fail_if (not (version_eq hello.protocol_version s.config.protocol_version))
        (failure version_mismatch 70 "Version mismatch")
    fail_if (not (has_suite hello.selected_cipher_suite s.config.supported_cipher_suites))
        (failure suite_mismatch 71 "Unsupported cipher suite")
    modify (keep_server hello)
    add_server_hello_presig hello.protocol_version hello.server_random hello.kem_ciphertext
        hello.kem_public_key hello.sig_public_key hello.selected_cipher_suite
    t ← get
    attempt
        (q.verify hello.sig_public_key (get_server_signing_transcript t.transcript) hello.signature)
        (failure auth_failed 51 "Server signature verification failed")
    add hello.signature

  -- The secrets, the signature and the session key, after the tests.
  unfoldable pub answer_server : Bytes → Bytes → ServerHello → M ClientAuth
  answer_server ephemeral random hello = do
    s ← get
    suite ← call (lookup hello.selected_cipher_suite)
    shared ←
        attempt (decapsulate_for l suite.uses_hybrid_kem s.kem_keypair hello.kem_ciphertext)
          (failure kem_failed 50 "KEM decapsulation failed")
    modify (keep_shared shared)
    (ciphertext, client_shared) ←
        attempt
          (encapsulate_to_server l suite.uses_hybrid_kem ephemeral random hello.kem_public_key)
          (failure kem_failed 50 "Client KEM encapsulation failed")
    signature ←
        attempt (q.sign s.sig_secret_key (get_client_signing_transcript s.transcript))
          (failure auth_failed 51 "Client signing failed")
    let auth : ClientAuth = record {
      kem_ciphertext = ciphertext;
      signature = signature;
      certificate = s.certificate;
    }
    modify (keep_auth auth)
    client_nonce ← call (known s.client_nonce)
    server_nonce ← call (known s.server_nonce)
    key ← call (
        derive_session_key l suite.uses_hybrid_kem (shared ++ client_shared) client_nonce
          server_nonce)
    modify (keep_key key)
    return auth

  unfoldable pub process_server_hello : Bytes → Bytes → ServerHello → M ClientAuth
  process_server_hello ephemeral random hello = do
    s ← get
    raise_if (not s.is_initiator)
    raise_if (not (s.state is_at sent_client_hello))
    check_server_hello hello
    answer_server ephemeral random hello

  abbrev pub completed : Handshake → Handshake
  completed s = record s { state = complete }

  abbrev pub missing : M HandshakeKeys
  missing s = (s, fails (failure auth_failed 51 "Missing handshake values for completion"))

  -- The keys, when the three values are there.
  unfoldable pub keys_of : Option Bytes → Option Bytes → Option Bytes → M HandshakeKeys
  unfolding compute_session_id
  keys_of (some key) (some kem_public) (some sig_public) = do
    s ← get
    modify completed
    return (record {
      session_key = key;
      session_id = compute_session_id q s.transcript;
      peer_kem_public = kem_public;
      peer_sig_public = sig_public;
    })
  keys_of _ _ _ = missing

  unfoldable pub complete_client_handshake : M HandshakeKeys
  unfolding keys_of
  complete_client_handshake = do
    s ← get
    raise_if (not s.is_initiator)
    raise_if (not (s.state is_at received_server_hello))
    keys_of s.session_key s.peer_kem_public s.peer_sig_public
