-- ===== src/Handshake/Server.antt =====
-- The server's methods of `Handshake`.
use qasp.Prelude.{
  ℕ, Bytes, Bool, false, not, ◌&&◌, ◌||◌, Option, none, some, List, [], ◌∷◌, ◌++◌, if◌then◌else◌,
}
use qasp.Prelude.Result.{Result}
use qasp.Platform.{Platform}
use qasp.Crypto.{Library}
use qasp.Crypto.Kem.{HybridKeypair, public_key, encapsulate, encapsulate_hybrid}
use qasp.Crypto.Suites.{lookup, is_pq_capable}
use qasp.Connection.Session.{
  HandshakeKeys, version_mismatch, suite_mismatch, auth_failed, kem_failed, upgrade_required,
  returns, fails,
}
use qasp.Handshake.{
  initial, received_client_hello, complete, ◌is_at◌, ClientHello, ServerHello, ClientAuth,
  Handshake, M, ◌>>=◌, ◌>>◌, return, get, modify, fail, fail_if, attempt, call, raise_if, failure,
  has_suite, version_eq, known, decapsulate_for, derive_session_key,
}
use qasp.Handshake.Transcript.{
  add, add_client_hello, add_server_hello_presig, get_server_signing_transcript,
  get_client_signing_transcript, compute_session_id,
}

-- The first suite of ours that the client has.
unfoldable pub select_suite : List ℕ → List ℕ → Option ℕ
unfolding has_suite
select_suite [] theirs = none
select_suite (suite ∷ ours) theirs =
    let rest = select_suite ours theirs in if has_suite suite theirs then some suite else rest

unfoldable pub any_pq : List ℕ → Bool
unfolding is_pq_capable
any_pq [] = false
any_pq (suite ∷ suites) = is_pq_capable suite || any_pq suites

abbrev pub common : Option ℕ → M ℕ
common none = fail (failure suite_mismatch 71 "No common cipher suites")
common (some suite) = return suite

abbrev pub keep_suite : ℕ → Handshake → Handshake
keep_suite suite s = record s { selected_suite = some suite }

abbrev pub keep_client : Bytes → ClientHello → Handshake → Handshake
keep_client server_nonce hello s = record s {
  client_nonce = some hello.client_random;
  peer_kem_public = some hello.kem_public_key;
  peer_sig_public = some hello.sig_public_key;
  server_nonce = some server_nonce;
}

abbrev pub keep_shared : Bytes → Handshake → Handshake
keep_shared shared s = record s { shared_secret = some shared }

abbrev pub received_hello : Handshake → Handshake
received_hello s = record s { state = received_client_hello }

abbrev pub completed : Handshake → Handshake
completed s = record s { state = complete }

-- The version and the suite; the client's values and nonces are kept.
unfoldable pub check_client_hello : Bytes → ClientHello → M ℕ
check_client_hello server_nonce hello = do
  s ← get
  fail_if (not (version_eq hello.protocol_version s.config.protocol_version))
      (failure version_mismatch 70 "Version mismatch")
  suite ← common (select_suite s.config.supported_cipher_suites hello.cipher_suites)
  fail_if (any_pq s.config.supported_cipher_suites && not (any_pq hello.cipher_suites))
      (failure upgrade_required 72 "Server requires post-quantum capable cipher suite")
  modify (keep_suite suite)
  modify (keep_client server_nonce hello)
  add_client_hello hello
  return suite

unfoldable pub our_key : Bool → HybridKeypair → Bytes
unfolding public_key
our_key use_hybrid k = if use_hybrid then public_key k else k.mlkem_public

module _ (l : Library) where
  unfoldable pub encapsulate_to_client : Bool → Bytes → Bytes → Bytes → Result (Bytes × Bytes)
  unfolding encapsulate encapsulate_hybrid
  encapsulate_to_client use_hybrid ephemeral random key =
      if use_hybrid then encapsulate_hybrid l ephemeral random key else encapsulate l random key

module _ (q : Platform) (l : Library) where
  -- The encapsulation, the signature and the answer.
  unfoldable pub answer_client : Bytes → Bytes → Bytes → ClientHello → ℕ → M ServerHello
  answer_client server_nonce ephemeral random hello selected = do
    s ← get
    suite ← call (lookup selected)
    (ciphertext, shared) ←
        attempt
          (encapsulate_to_client l suite.uses_hybrid_kem ephemeral random hello.kem_public_key)
          (failure kem_failed 50 "KEM encapsulation failed")
    modify (keep_shared shared)
    let key : Bytes = our_key suite.uses_hybrid_kem s.kem_keypair
    add_server_hello_presig s.config.protocol_version server_nonce ciphertext key s.sig_public_key
        selected
    t ← get
    signature ←
        attempt (q.sign s.sig_secret_key (get_server_signing_transcript t.transcript))
          (failure auth_failed 51 "Server signing failed")
    add signature
    modify received_hello
    return (record {
      protocol_version = s.config.protocol_version;
      server_random = server_nonce;
      kem_ciphertext = ciphertext;
      kem_public_key = key;
      sig_public_key = s.sig_public_key;
      selected_cipher_suite = selected;
      signature = signature;
    })

  -- The nonce is `secrets.token_bytes(32)`; the next two stand for the randomness of the KEM.
  unfoldable pub process_client_hello : Bytes → Bytes → Bytes → ClientHello → M ServerHello
  process_client_hello server_nonce ephemeral random hello = do
    s ← get
    raise_if s.is_initiator
    raise_if (not (s.state is_at initial))
    selected ← check_client_hello server_nonce hello
    answer_client server_nonce ephemeral random hello selected

  abbrev pub peer_key : Option Bytes → M Bytes
  peer_key none s = (s, fails (failure auth_failed 51 "Missing client signature public key"))
  peer_key (some key) s = (s, returns key)

  unfoldable pub process_client_auth : ClientAuth → M HandshakeKeys
  process_client_auth auth = do
    s ← get
    raise_if s.is_initiator
    raise_if (not (s.state is_at received_client_hello))
    sig_public ← peer_key s.peer_sig_public
    attempt (q.verify sig_public (get_client_signing_transcript s.transcript) auth.signature)
        (failure auth_failed 51 "Client signature verification failed")
    selected ← call (known s.selected_suite)
    suite ← call (lookup selected)
    client_shared ←
        attempt (decapsulate_for l suite.uses_hybrid_kem s.kem_keypair auth.kem_ciphertext)
          (failure kem_failed 50 "Client KEM decapsulation failed")
    shared ← call (known s.shared_secret)
    client_nonce ← call (known s.client_nonce)
    server_nonce ← call (known s.server_nonce)
    key ← call (
        derive_session_key l suite.uses_hybrid_kem (shared ++ client_shared) client_nonce
          server_nonce)
    kem_public ← call (known s.peer_kem_public)
    modify completed
    return (record {
      session_key = key;
      session_id = compute_session_id q s.transcript;
      peer_kem_public = kem_public;
      peer_sig_public = sig_public;
    })
