-- ===== src/Crypto.antt =====
-- The wrappers of src/qasp/crypto that the handshake calls. The libraries below them, liboqs,
-- cryptography and hashlib, are the record `Library`; random bytes are arguments.
pub mod Kem
pub mod Kdf
pub mod Suites
use qasp.Prelude.{ℕ, Bytes, ◌≡◌, ◌++◌, length}
use qasp.Prelude.Result.{Error, Result, ok, err}

pub record Library : Type 0 where
  -- KeyEncapsulation("ML-KEM-768").encap_secret(public_key), and decap_secret under a secret key
  pub encap_secret : Bytes → Bytes → Result (Bytes × Bytes)
  pub decap_secret : Bytes → Bytes → Result Bytes
  -- X25519PrivateKey: its public key, and the exchange with the bytes of another's
  pub x25519_public : Bytes → Bytes
  pub exchange : Bytes → Bytes → Result Bytes
  -- hashlib.sha256(data).digest()
  pub sha256 : Bytes → Bytes
  -- HKDF(SHA384(), length, salt, info).derive(key material), in the order material, salt, info, length
  pub hkdf : Bytes → Bytes → Bytes → ℕ → Result Bytes

-- `except Exception: raise e`
abbrev pub wrapped {ℓ} : {A : Type ℓ} → Error → Result A → Result A
wrapped e (ok a) = ok a
wrapped e (err other) = err e

-- What FIPS 203 and RFC 7748 say of a key pair: what is encapsulated to the public key is
-- decapsulated by the secret key, for all random bytes, and both ends of an exchange agree.
pub record IsKemPair (l : Library) (secret_key public_key : Bytes) : Type 0 where
  pub secret_size : length secret_key ≡ 2400
  pub public_size : length public_key ≡ 1184
  pub ciphertext : Bytes → Bytes
  pub shared : Bytes → Bytes
  pub ciphertext_size : (r : Bytes) → length (ciphertext r) ≡ 1088
  pub encaps : (r : Bytes) → l.encap_secret r public_key ≡ ok (ciphertext r, shared r)
  pub decaps : (r : Bytes) → l.decap_secret secret_key (ciphertext r) ≡ ok (shared r)

pub record IsExchangePair (l : Library) (private_key public_key : Bytes) : Type 0 where
  pub public_size : length public_key ≡ 32
  pub ephemeral_size : (e : Bytes) → length (l.x25519_public e) ≡ 32
  pub agreed : Bytes → Bytes
  pub here : (e : Bytes) → l.exchange e public_key ≡ ok (agreed e)
  pub there : (e : Bytes) → l.exchange private_key (l.x25519_public e) ≡ ok (agreed e)
