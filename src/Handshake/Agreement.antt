-- ===== src/Handshake/Agreement.antt =====
-- The whole exchange of a client and a server with the same version and a suite in common.
use qasp.Prelude.{
  ℕ, Bytes, ◌/◌, ◌%◌, ◌≡◌, refl, ◌∙◌, Bool, true, false, some, List, [], ◌∷◌, ◌++◌, take,
}
use qasp.Prelude.Result.{ok}
use qasp.Platform.{Platform}
use qasp.Crypto.{Library}
use qasp.Crypto.Suites.{CipherSuite}
use qasp.Connection.Session.{HandshakeKeys, returns}
use qasp.Handshake.{
  sent_client_hello, received_client_hello, received_server_hello, complete, ClientHello,
  ServerHello, ClientAuth, Handshake, return, version_eq,
}
use qasp.Handshake.Transcript.{
  version_bytes, join, get_server_signing_transcript, get_client_signing_transcript,
  get_full_transcript, compute_session_id, add_part, add_client_hello, add_server_hello_presig,
}
use qasp.Handshake.Client.{
  create_client_hello, check_server_hello, answer_server, process_server_hello,
  complete_client_handshake,
}
use qasp.Handshake.Server.{
  our_key, check_client_hello, answer_client, process_client_hello, process_client_auth,
}
use qasp.Handshake.Steps.{bound, add_client_hello_eq}
use qasp.Handshake.Runs.{
  Party, start, HasKeys, Derives, Agree, version_bytes_eq, version_eq_refl, lookup-to_bytes2,
  has_suite-select_suite, sealed, secret, encapsulate_to_client_eq, encapsulate_to_server_eq,
  decapsulate_for_eq, session_key_of, derive_session_key_eq,
}

-- The five calls of a handshake return, and what they leave.
pub record Agreed (q : Platform) (l : Library) (client server : Party) (nc ns ec rc es rs : Bytes)
    : Type 0 where
  pub hello : ClientHello
  pub answer : ServerHello
  pub auth : ClientAuth
  pub client_sent : Handshake
  pub client_ready : Handshake
  pub client_done : Handshake
  pub server_ready : Handshake
  pub server_done : Handshake
  pub client_keys : HandshakeKeys
  pub server_keys : HandshakeKeys
  pub says_hello : create_client_hello nc (start true client) ≡ (client_sent, returns hello)
  pub answers :
      process_client_hello q l ns es rs hello (start false server) ≡ (server_ready, returns answer)
  pub proves : process_server_hello q l ec rc answer client_sent ≡ (client_ready, returns auth)
  pub client_ends : complete_client_handshake q l client_ready ≡ (client_done, returns client_keys)
  pub server_ends : process_client_auth q l auth server_ready ≡ (server_done, returns server_keys)
  pub client_complete : client_done.state ≡ complete
  pub server_complete : server_done.state ≡ complete
  pub same_key : client_keys.session_key ≡ server_keys.session_key
  pub same_id : client_keys.session_id ≡ server_keys.session_id
  pub server_known : client_keys.peer_sig_public ≡ server.sig_public
  pub client_known : server_keys.peer_sig_public ≡ client.sig_public

module _ (q : Platform) (l : Library) (client server : Party) (selected : ℕ) (suite : CipherSuite)
    (d : Derives l) (hc : HasKeys q l client) (hs : HasKeys q l server)
    (a : Agree client server selected suite) (nc ns ec rc es rs : Bytes) where
  abbrev b : Bool
  b = suite.uses_hybrid_kem

  abbrev client_key : Bytes
  client_key = our_key b client.keys

  abbrev server_key : Bytes
  server_key = our_key b server.keys

  abbrev hello : ClientHello
  hello = record {
    protocol_version = client.config.protocol_version;
    client_random = nc;
    kem_public_key = client_key;
    sig_public_key = client.sig_public;
    cipher_suites = client.config.supported_cipher_suites;
  }

  abbrev version : Bytes
  version = client.config.protocol_version.0 ∷ client.config.protocol_version.1 ∷ []

  abbrev hello_parts : List Bytes
  hello_parts = version ∷ nc ∷ client_key ∷ client.sig_public ∷ a.suites_code ∷ []

  abbrev client_started : Handshake
  client_started = record (start true client) {
    client_nonce = some nc;
    transcript = record { parts = hello_parts; client_hello_end = 5; server_hello_presig_end = 0 };
    state = sent_client_hello;
  }

  small_version : version_bytes client.config.protocol_version ≡ ok version
  small_version = version_bytes_eq client.config.protocol_version a.major_small a.minor_small

  hello_eq : create_client_hello nc (start true client) ≡ (client_started, returns hello)
  unfolding create_client_hello our_key
  hello_eq = rw (create_client_hello, a.same_kem, small_version, a.suites_small) refl

  -- The server after the hello.
  abbrev presig_parts : List Bytes
  presig_parts =
      version
      ∷ nc
      ∷ client_key
      ∷ client.sig_public
      ∷ a.suites_code
      ∷ version
      ∷ ns
      ∷ sealed l client.keys hc.kem hc.exchange b es rs
      ∷ server_key
      ∷ server.sig_public
      ∷ (selected / 256 ∷ selected % 256 ∷ [])
      ∷ []

  abbrev server_signature : Bytes
  server_signature = hs.signs.signature (join presig_parts)

  abbrev shello : ServerHello
  shello = record {
    protocol_version = server.config.protocol_version;
    server_random = ns;
    kem_ciphertext = sealed l client.keys hc.kem hc.exchange b es rs;
    kem_public_key = server_key;
    sig_public_key = server.sig_public;
    selected_cipher_suite = selected;
    signature = server_signature;
  }

  abbrev server_checked : Handshake
  server_checked = record (start false server) {
    client_nonce = some nc;
    server_nonce = some ns;
    peer_kem_public = some client_key;
    peer_sig_public = some client.sig_public;
    selected_suite = some selected;
    transcript = record { parts = hello_parts; client_hello_end = 5; server_hello_presig_end = 0 };
  }

  check_client_hello_eq :
      check_client_hello ns hello (start false server) ≡ (server_checked, returns selected)
  unfolding check_client_hello
  check_client_hello_eq =
      let same : version_eq client.config.protocol_version server.config.protocol_version ≡ true =
        rw a.same_version (version_eq_refl client.config.protocol_version) in
      let started = record (start false server) {
        client_nonce = some nc;
        server_nonce = some ns;
        peer_kem_public = some client_key;
        peer_sig_public = some client.sig_public;
        selected_suite = some selected;
      } in
      rw (check_client_hello, same, a.selects, a.no_downgrade)
        (bound (add_client_hello hello) (λ done. return selected) started server_checked tt
          (add_client_hello_eq hello version a.suites_code started small_version a.suites_small
            refl))

  abbrev server_answered : Handshake
  server_answered = record server_checked {
    shared_secret = some (secret l client.keys hc.kem hc.exchange b es rs);
    transcript = record {
      parts = presig_parts ++ server_signature ∷ [];
      client_hello_end = 5;
      server_hello_presig_end = 11;
    };
    state = received_client_hello;
  }

  answer_client_eq :
      answer_client q l ns es rs hello selected server_checked ≡ (server_answered, returns shello)
  unfolding answer_client add_server_hello_presig get_server_signing_transcript add_part
  answer_client_eq =
      let same_small : version_bytes server.config.protocol_version ≡ ok version =
        rw a.same_version small_version in
      let small = lookup-to_bytes2 selected suite a.known_suite in
      let sealed_eq = encapsulate_to_client_eq l client.keys hc.kem hc.exchange b es rs in
      rw
        (
          answer_client,
          a.known_suite,
          sealed_eq,
          same_small,
          small,
          hs.signs.signs (join presig_parts),
        )
        refl

  process_client_hello_eq :
      process_client_hello q l ns es rs hello (start false server)
      ≡ (server_answered, returns shello)
  unfolding process_client_hello
  process_client_hello_eq =
      bound (check_client_hello ns hello) (answer_client q l ns es rs hello) (start false server)
        server_checked selected check_client_hello_eq
      ∙ answer_client_eq

  abbrev full_parts : List Bytes
  full_parts = presig_parts ++ server_signature ∷ []

  abbrev client_checked : Handshake
  client_checked = record client_started {
    server_nonce = some ns;
    peer_kem_public = some server_key;
    peer_sig_public = some server.sig_public;
    selected_suite = some selected;
    transcript = record { parts = full_parts; client_hello_end = 5; server_hello_presig_end = 11 };
  }

  check_server_hello_eq :
      check_server_hello q l shello client_started ≡ (client_checked, returns tt)
  unfolding check_server_hello add_server_hello_presig get_server_signing_transcript add_part
  check_server_hello_eq =
      let same : version_eq server.config.protocol_version client.config.protocol_version ≡ true =
        rw a.same_version (version_eq_refl client.config.protocol_version) in
      let offered =
        has_suite-select_suite server.config.supported_cipher_suites
          client.config.supported_cipher_suites selected a.selects in
      let same_small : version_bytes server.config.protocol_version ≡ ok version =
        rw a.same_version small_version in
      rw
        (
          check_server_hello,
          same,
          offered,
          same_small,
          lookup-to_bytes2 selected suite a.known_suite,
          hs.signs.verifies (join presig_parts),
        )
        refl

  -- What both ends have in the end: the key, and the two shared secrets that it is derived from.
  abbrev both_secrets : Bytes
  both_secrets =
      secret l client.keys hc.kem hc.exchange b es rs
      ++ secret l server.keys hs.kem hs.exchange b ec rc

  abbrev agreed_key : Bytes
  agreed_key = session_key_of l d b both_secrets nc ns

  abbrev auth : ClientAuth
  auth = record {
    kem_ciphertext = sealed l server.keys hs.kem hs.exchange b ec rc;
    signature = hc.signs.signature (join full_parts);
    certificate = client.certificate;
  }

  abbrev client_answered : Handshake
  client_answered = record client_checked {
    shared_secret = some (secret l client.keys hc.kem hc.exchange b es rs);
    client_auth_message = some auth;
    session_key = some agreed_key;
    state = received_server_hello;
  }

  answer_server_eq : answer_server q l ec rc shello client_checked ≡ (client_answered, returns auth)
  unfolding answer_server get_client_signing_transcript
  answer_server_eq =
      rw
        (
          answer_server,
          a.known_suite,
          decapsulate_for_eq l client.keys hc.kem hc.exchange b es rs,
          encapsulate_to_server_eq l server.keys hs.kem hs.exchange b ec rc,
          hc.signs.signs (join full_parts),
          derive_session_key_eq l d b both_secrets nc ns,
        )
        refl

  process_server_hello_eq :
      process_server_hello q l ec rc shello client_started ≡ (client_answered, returns auth)
  unfolding process_server_hello
  process_server_hello_eq =
      bound (check_server_hello q l shello) (λ done. answer_server q l ec rc shello) client_started
        client_checked tt check_server_hello_eq
      ∙ answer_server_eq

  -- The two ends name the other's keys; the rest is the same.
  abbrev keys_with : Bytes → Bytes → HandshakeKeys
  keys_with kem_public sig_public = record {
    session_key = agreed_key;
    session_id = take 32 (q.sha384 (join full_parts));
    peer_kem_public = kem_public;
    peer_sig_public = sig_public;
  }

  complete_client_handshake_eq : complete_client_handshake q l client_answered ≡ (
    record client_answered { state = complete },
    returns (keys_with server_key server.sig_public),
  )
  unfolding complete_client_handshake compute_session_id get_full_transcript
  complete_client_handshake_eq = refl

  process_client_auth_eq : process_client_auth q l auth server_answered ≡ (
    record server_answered { state = complete },
    returns (keys_with client_key client.sig_public),
  )
  unfolding process_client_auth get_client_signing_transcript compute_session_id get_full_transcript
  process_client_auth_eq =
      rw
        (
          process_client_auth,
          hc.signs.verifies (join full_parts),
          a.known_suite,
          decapsulate_for_eq l server.keys hs.kem hs.exchange b ec rc,
          derive_session_key_eq l d b both_secrets nc ns,
        )
        refl

  -- A client and a server with lawful keys, the same version and a selected suite whose KEM takes
  -- the client's kind of key complete the handshake, for all nonces and random bytes, provided that
  -- SHA-256 has 32 bytes and HKDF derives a key: every call returns, both states are COMPLETE, both
  -- have the same session key and session id, and each has the other's signature key.
  pub handshake-Agreed : Agreed q l client server nc ns ec rc es rs
  handshake-Agreed = record {
    hello = hello;
    answer = shello;
    auth = auth;
    client_sent = client_started;
    client_ready = client_answered;
    client_done = record client_answered { state = complete };
    server_ready = server_answered;
    server_done = record server_answered { state = complete };
    client_keys = keys_with server_key server.sig_public;
    server_keys = keys_with client_key client.sig_public;
    says_hello = hello_eq;
    answers = process_client_hello_eq;
    proves = process_server_hello_eq;
    client_ends = complete_client_handshake_eq;
    server_ends = process_client_auth_eq;
    client_complete = refl;
    server_complete = refl;
    same_key = refl;
    same_id = refl;
    server_known = refl;
    client_known = refl;
  }
