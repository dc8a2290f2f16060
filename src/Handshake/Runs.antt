-- ===== src/Handshake/Runs.antt =====
-- What a handshake's pieces do when their calls succeed, and what makes the calls succeed.
use qasp.Prelude.{
  ℕ, Bytes, ◌/◌, ◌%◌, ◌<◌, ◌≡◌, refl, Bool, true, false, not, ◌&&◌, ltb, lt→ltb, some, List, [],
  ◌∷◌, ◌++◌, length, take, drop, arith, replicate,
}
use qasp.Prelude.Result.{ok}
use qasp.Prelude.Binary.{to_byte, to_bytes2}
use qasp.Platform.{Platform, IsKeyPair}
use qasp.Crypto.{Library, IsKemPair, IsExchangePair}
use qasp.Crypto.Kem.{
  HybridKeypair, encapsulate_eq, decapsulate_eq, encapsulate_hybrid_eq, decapsulate_hybrid_eq,
}
use qasp.Crypto.Kdf.{qasp_info_prefix, derive_key, derive_qasp_session_key}
use qasp.Crypto.Suites.{CipherSuite, lookup}
use qasp.Connection.Session.{HandshakeConfig}
use qasp.Handshake.{
  Handshake, new_handshake, version_eq, has_suite, decapsulate_for, derive_session_key,
}
use qasp.Handshake.Transcript.{version_bytes, suite_bytes}
use qasp.Handshake.Client.{encapsulate_to_server, mlkem_part}
use qasp.Handshake.Server.{encapsulate_to_client, select_suite, our_key, any_pq}

-- What one end is made with.
pub record Party : Type 0 where
  pub keys : HybridKeypair
  pub sig_public : Bytes
  pub sig_secret : Bytes
  pub config : HandshakeConfig
  pub certificate : Bytes

abbrev pub start : Bool → Party → Handshake
start is_initiator p =
    new_handshake p.keys (p.sig_public, p.sig_secret) is_initiator p.config p.certificate

-- Its keys are key pairs.
pub record HasKeys (q : Platform) (l : Library) (p : Party) : Type 0 where
  pub kem : IsKemPair l p.keys.mlkem_private p.keys.mlkem_public
  pub exchange : IsExchangePair l p.keys.x25519_private p.keys.x25519_public
  pub signs : IsKeyPair q p.sig_secret p.sig_public

-- SHA-256 has 32 bytes and HKDF derives 32 bytes from all arguments.
pub record Derives (l : Library) : Type 0 where
  pub sha256_size : (b : Bytes) → length (l.sha256 b) ≡ 32
  pub key : Bytes → Bytes → Bytes
  pub derives :
      (material salt : Bytes) → l.hkdf material salt qasp_info_prefix 32 ≡ ok (key material salt)

-- The two configurations agree on a version, and select a suite for which the client sends the kind
-- of key that the suite's KEM takes.
pub record Agree (client server : Party) (selected : ℕ) (suite : CipherSuite) : Type 0 where
  pub same_version : server.config.protocol_version ≡ client.config.protocol_version
  pub major_small : client.config.protocol_version.0 < 256
  pub minor_small : client.config.protocol_version.1 < 256
  pub suites_code : Bytes
  pub suites_small : suite_bytes client.config.supported_cipher_suites ≡ ok suites_code
  pub selects :
      select_suite server.config.supported_cipher_suites client.config.supported_cipher_suites
      ≡ some selected
  pub no_downgrade :
      (any_pq server.config.supported_cipher_suites
        && not (any_pq client.config.supported_cipher_suites))
      ≡ false
  pub known_suite : lookup selected ≡ ok suite
  pub same_kem : client.config.enable_hybrid ≡ suite.uses_hybrid_kem

pub version_bytes_eq : (v : ℕ × ℕ) → v.0 < 256 → v.1 < 256 → version_bytes v ≡ ok (v.0 ∷ v.1 ∷ [])
unfolding version_bytes to_byte
version_bytes_eq (major, minor) h k = rw (lt→ltb _ _ h, lt→ltb _ _ k) refl

pub version_eq_refl : (v : ℕ × ℕ) → version_eq v v ≡ true
unfolding version_eq
version_eq_refl (major, minor) = ground arith

pub lookup-to_bytes2 :
    (n : ℕ) (suite : CipherSuite)
    → lookup n ≡ ok suite
    → to_bytes2 n ≡ ok ((n / 256) ∷ (n % 256) ∷ [])
unfolding lookup to_bytes2
lookup-to_bytes2 n suite h = let small : ltb n 65536 ≡ true = ground arith in rw small refl

pub has_suite-select_suite :
    (ours theirs : List ℕ) (n : ℕ) → select_suite ours theirs ≡ some n → has_suite n theirs ≡ true
unfolding select_suite
has_suite-select_suite [] theirs n h = cc
has_suite-select_suite (m ∷ ours) theirs n h = ground (arith, has_suite-select_suite ours theirs n)

module _ (l : Library) (k : HybridKeypair) (m : IsKemPair l k.mlkem_private k.mlkem_public)
    (x : IsExchangePair l k.x25519_private k.x25519_public) where
  -- What is sent for the random bytes, and what both ends then have.
  abbrev pub sealed : Bool → Bytes → Bytes → Bytes
  sealed true e r = l.x25519_public e ++ m.ciphertext r
  sealed false e r = m.ciphertext r

  abbrev pub secret : Bool → Bytes → Bytes → Bytes
  secret true e r = x.agreed e ++ m.shared r
  secret false e r = m.shared r

  pub encapsulate_to_client_eq :
      (b : Bool) (e r : Bytes)
      → encapsulate_to_client l b e r (our_key b k) ≡ ok (sealed b e r, secret b e r)
  unfolding encapsulate_to_client our_key
  encapsulate_to_client_eq true e r = encapsulate_hybrid_eq l k m x e r
  encapsulate_to_client_eq false e r = encapsulate_eq l k m r

  pub encapsulate_to_server_eq :
      (b : Bool) (e r : Bytes)
      → encapsulate_to_server l b e r (our_key b k) ≡ ok (sealed b e r, secret b e r)
  unfolding encapsulate_to_server our_key mlkem_part
  encapsulate_to_server_eq true e r = encapsulate_hybrid_eq l k m x e r
  encapsulate_to_server_eq false e r =
      let whole : ltb 1184 (length k.mlkem_public) ≡ false = ground (arith, m.public_size) in
      rw whole (encapsulate_eq l k m r)

  pub decapsulate_for_eq :
      (b : Bool) (e r : Bytes) → decapsulate_for l b k (sealed b e r) ≡ ok (secret b e r)
  unfolding decapsulate_for
  decapsulate_for_eq true e r = decapsulate_hybrid_eq l k m x e r
  decapsulate_for_eq false e r = decapsulate_eq l k m r

module _ (l : Library) (d : Derives l) where
  qasp_key :
      (a b n : Bytes) (m : Bytes)
      → length a ≡ 32
      → length b ≡ 32
      → derive_qasp_session_key l a b n m ≡ ok (d.key (a ++ b) (n ++ m))
  unfolding derive_qasp_session_key derive_key
  qasp_key a b n m h k = rw (h, k, d.derives (a ++ b) (n ++ m)) refl

  abbrev pub session_key_of : Bool → Bytes → Bytes → Bytes → Bytes
  session_key_of true c n m =
      d.key
        (l.sha256 (take 32 (drop 32 c) ++ take 32 (drop 96 c))
          ++ l.sha256 (take 32 c ++ take 32 (drop 64 c)))
        (n ++ m)
  session_key_of false c n m = d.key (l.sha256 c ++ replicate 32 0) (n ++ m)

  pub derive_session_key_eq :
      (b : Bool) (c n m : Bytes) → derive_session_key l b c n m ≡ ok (session_key_of b c n m)
  unfolding derive_session_key
  derive_session_key_eq true c n m =
      qasp_key (l.sha256 (take 32 (drop 32 c) ++ take 32 (drop 96 c)))
        (l.sha256 (take 32 c ++ take 32 (drop 64 c))) n m (d.sha256_size _) (d.sha256_size _)
  derive_session_key_eq false c n m =
      qasp_key (l.sha256 c) (replicate 32 0) n m (d.sha256_size _) refl
