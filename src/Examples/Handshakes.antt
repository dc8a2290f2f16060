-- ===== src/Examples/Handshakes.antt =====
-- A handshake over a library that has the documented sizes: its secrets are empty.
use qasp.Prelude.{
  ℕ, Bytes, ◌<◌, ◌≡◌, refl, true, false, none, some, List, [], ◌∷◌, ◌++◌, arith, replicate, length,
  length-replicate,
}
use qasp.Prelude.Result.{ok}
use qasp.Crypto.{Library}
use qasp.Crypto.Kem.{HybridKeypair}
use qasp.Crypto.Suites.{lookup, hybrid_transition}
use qasp.Connection.Session.{kem_failed, fails, returns}
use qasp.Handshake.{Handshake, ClientHello, ClientAuth, failed, failure}
use qasp.Handshake.Transcript.{get_client_signing_transcript, compute_session_id}
use qasp.Handshake.Runs.{Party, start, HasKeys, Derives, Agree}
use qasp.Handshake.Agreement.{Agreed, handshake-Agreed}
use qasp.Handshake.Server.{our_key, check_client_hello, process_client_hello, process_client_auth}
use qasp.Handshake.Refusals.{process_client_hello-kem_failed}
use qasp.Handshake.Signed.{Signed, process_client_auth-Signed}
use qasp.Examples.Connections.{config}
use qasp.Examples.{example_platform, example_pair}

abbrev pub library : Library
library = record {
  encap_secret = λ random key. ok (replicate 1088 0, []);
  decap_secret = λ key ct. ok [];
  x25519_public = λ e. replicate 32 0;
  exchange = λ e key. ok [];
  sha256 = λ b. replicate 32 0;
  hkdf = λ m s info n. ok (9 ∷ []);
}

abbrev keypair : HybridKeypair
keypair = record {
  x25519_public = replicate 32 0;
  x25519_private = replicate 32 1;
  mlkem_public = replicate 1184 2;
  mlkem_private = replicate 2400 3;
}

abbrev pub party : Bytes → Party
party sig_key = record {
  keys = keypair;
  sig_public = sig_key;
  sig_secret = sig_key;
  config = config;
  certificate = [];
}

party-HasKeys : (sig_key : Bytes) → HasKeys example_platform library (party sig_key)
party-HasKeys sig_key = record {
  kem = record {
    secret_size = length-replicate {A = ℕ} 2400 3;
    public_size = length-replicate {A = ℕ} 1184 2;
    ciphertext = λ r. replicate 1088 0;
    shared = λ r. [];
    ciphertext_size = λ r. length-replicate {A = ℕ} 1088 0;
    encaps = λ r. refl;
    decaps = λ r. refl;
  };
  exchange = record {
    public_size = length-replicate {A = ℕ} 32 0;
    ephemeral_size = λ e. length-replicate {A = ℕ} 32 0;
    agreed = λ e. [];
    here = λ e. refl;
    there = λ e. refl;
  };
  signs = example_pair sig_key;
}

library-Derives : Derives library
library-Derives = record {
  sha256_size = λ b. length-replicate {A = ℕ} 32 0;
  key = λ m s. 9 ∷ [];
  derives = λ m s. refl;
}

parties_Agree : Agree (party (1 ∷ [])) (party (2 ∷ [])) 2 hybrid_transition
unfolding qasp.Handshake.Transcript.suite_bytes qasp.Prelude.Binary.to_bytes2
    qasp.Handshake.Server.select_suite qasp.Handshake.Server.any_pq lookup
parties_Agree = record {
  same_version = refl;
  major_small = omega arith;
  minor_small = omega arith;
  suites_code = 0 ∷ 2 ∷ [];
  suites_small = refl;
  selects = refl;
  no_downgrade = refl;
  known_suite = refl;
  same_kem = refl;
}

handshake-Agreed_example :
    Agreed example_platform library (party (1 ∷ [])) (party (2 ∷ [])) (3 ∷ []) (4 ∷ []) [] [] [] []
handshake-Agreed_example =
    handshake-Agreed example_platform library (party (1 ∷ [])) (party (2 ∷ [])) 2 hybrid_transition
      library-Derives (party-HasKeys (1 ∷ [])) (party-HasKeys (2 ∷ [])) parties_Agree (3 ∷ [])
      (4 ∷ []) [] [] [] []

pub agreement :
    Agreed example_platform library (party (1 ∷ [])) (party (2 ∷ [])) (3 ∷ []) (4 ∷ []) [] [] [] []
agreement =
    handshake-Agreed example_platform library (party (1 ∷ [])) (party (2 ∷ [])) 2 hybrid_transition
      library-Derives (party-HasKeys (1 ∷ [])) (party-HasKeys (2 ∷ [])) parties_Agree (3 ∷ [])
      (4 ∷ []) [] [] [] []

process_client_auth-Signed_example :
    Signed example_platform agreement.hello agreement.answer agreement.auth agreement.server_keys
process_client_auth-Signed_example =
    process_client_auth-Signed example_platform library (party (2 ∷ [])) (4 ∷ []) [] []
      agreement.hello agreement.answer agreement.auth agreement.server_ready agreement.server_done
      agreement.server_keys agreement.answers agreement.server_ends

-- A client whose key has no X25519 part meets the hybrid suite.
abbrev plain_hello : ClientHello
plain_hello = record {
  protocol_version = (1, 0);
  client_random = 3 ∷ [];
  kem_public_key = replicate 1184 2;
  sig_public_key = 1 ∷ [];
  cipher_suites = 2 ∷ [];
}

abbrev checked : Handshake
unfolding check_client_hello qasp.Handshake.version_eq qasp.Handshake.Server.select_suite
    qasp.Handshake.Server.any_pq qasp.Handshake.Transcript.add_client_hello
    qasp.Prelude.Binary.to_byte qasp.Prelude.Binary.to_bytes2
checked = (check_client_hello (4 ∷ []) plain_hello (start false (party (2 ∷ [])))).0

is_checked :
    check_client_hello (4 ∷ []) plain_hello (start false (party (2 ∷ []))) ≡ (checked, returns 2)
unfolding check_client_hello qasp.Handshake.version_eq qasp.Handshake.Server.select_suite
    qasp.Handshake.Server.any_pq qasp.Handshake.Transcript.add_client_hello
    qasp.Prelude.Binary.to_byte qasp.Prelude.Binary.to_bytes2
is_checked = refl

hybrid_known : lookup 2 ≡ ok hybrid_transition
unfolding lookup
hybrid_known = refl

plain_key : plain_hello.kem_public_key ≡ our_key false keypair
unfolding our_key
plain_key = refl

process_client_hello-kem_failed_example :
    process_client_hello example_platform library
      (4 ∷ [])
      []
      []
      plain_hello
      (start false (party (2 ∷ [])))
    ≡ (record checked { state = failed }, fails (failure kem_failed 50 "KEM encapsulation failed"))
process_client_hello-kem_failed_example =
    process_client_hello-kem_failed example_platform library keypair (4 ∷ []) [] [] plain_hello 2
      hybrid_transition (start false (party (2 ∷ []))) checked (length-replicate {A = ℕ} 32 0)
      (length-replicate {A = ℕ} 1184 2) refl refl is_checked hybrid_known plain_key
