-- ===== src/Crypto/Kem.antt =====
-- crypto/kem.py and crypto/hybrid.py: ML-KEM-768, alone and with X25519.
use qasp.Prelude.{
  Bytes, ◌≡◌, refl, ◌∙◌, ◌==◌, not, arith, length, length-append, take, drop, take-append_length,
  drop-append_length, ◌++◌,
}
use qasp.Prelude.Result.{
  Result, ok, err, invalid_key, encapsulation_error, decapsulation_error, ◌>>=◌, ◌>>◌, raise_if,
}
use qasp.Crypto.{Library, wrapped, IsKemPair, IsExchangePair}

pub record HybridKeypair : Type 0 where
  pub x25519_public : Bytes
  pub x25519_private : Bytes
  pub mlkem_public : Bytes
  pub mlkem_private : Bytes

unfoldable pub public_key : HybridKeypair → Bytes
public_key k = k.x25519_public ++ k.mlkem_public

-- `except (InvalidKeyError, EncapsulationError): raise`, and all else becomes the second error; the
-- same for decapsulation.
abbrev pub as_encapsulation_error {ℓ} : {A : Type ℓ} → Result A → Result A
as_encapsulation_error (err invalid_key) = err invalid_key
as_encapsulation_error (err e) = err encapsulation_error
as_encapsulation_error (ok a) = ok a

abbrev pub as_decapsulation_error {ℓ} : {A : Type ℓ} → Result A → Result A
as_decapsulation_error (err invalid_key) = err invalid_key
as_decapsulation_error (err e) = err decapsulation_error
as_decapsulation_error (ok a) = ok a

module _ (l : Library) where
  unfoldable pub encapsulate : Bytes → Bytes → Result (Bytes × Bytes)
  encapsulate random key =
      raise_if (not (length key == 1184)) invalid_key
      >> wrapped encapsulation_error (l.encap_secret random key)

  unfoldable pub decapsulate : Bytes → Bytes → Result Bytes
  decapsulate secret_key ciphertext =
      raise_if (not (length secret_key == 2400)) invalid_key
      >> (raise_if (not (length ciphertext == 1088)) decapsulation_error
          >> wrapped decapsulation_error (l.decap_secret secret_key ciphertext))

  -- The block under `try`, for the ephemeral private key.
  unfoldable pub encapsulate_both : Bytes → Bytes → Bytes → Result (Bytes × Bytes)
  unfolding encapsulate
  encapsulate_both ephemeral random key =
      l.exchange ephemeral (take 32 key) >>= λ x25519_shared_secret.
      encapsulate random (drop 32 key) >>= λ (mlkem_ciphertext, mlkem_shared_secret).
      ok
        (l.x25519_public ephemeral ++ mlkem_ciphertext, x25519_shared_secret ++ mlkem_shared_secret)

  unfoldable pub encapsulate_hybrid : Bytes → Bytes → Bytes → Result (Bytes × Bytes)
  unfolding encapsulate_both
  encapsulate_hybrid ephemeral random key =
      raise_if (not (length key == 1216)) invalid_key
      >> as_encapsulation_error (encapsulate_both ephemeral random key)

  unfoldable pub decapsulate_both : HybridKeypair → Bytes → Result Bytes
  unfolding decapsulate
  decapsulate_both k ciphertext =
      l.exchange k.x25519_private (take 32 ciphertext) >>= λ x25519_shared_secret.
      decapsulate k.mlkem_private (drop 32 ciphertext) >>= λ mlkem_shared_secret.
      ok (x25519_shared_secret ++ mlkem_shared_secret)

  unfoldable pub decapsulate_hybrid : HybridKeypair → Bytes → Result Bytes
  unfolding decapsulate_both
  decapsulate_hybrid k ciphertext =
      raise_if (not (length ciphertext == 1120)) decapsulation_error
      >> as_decapsulation_error (decapsulate_both k ciphertext)

  module _ (k : HybridKeypair) (m : IsKemPair l k.mlkem_private k.mlkem_public) where
    pub encapsulate_eq :
        (random : Bytes)
        → encapsulate random k.mlkem_public ≡ ok (m.ciphertext random, m.shared random)
    unfolding encapsulate
    encapsulate_eq random = rw (m.public_size, m.encaps random) refl

    pub decapsulate_eq :
        (random : Bytes) → decapsulate k.mlkem_private (m.ciphertext random) ≡ ok (m.shared random)
    unfolding decapsulate
    decapsulate_eq random = rw (m.secret_size, m.ciphertext_size random, m.decaps random) refl

    module _ (x : IsExchangePair l k.x25519_private k.x25519_public) where
      pub encapsulate_hybrid_eq :
          (e random : Bytes)
          → encapsulate_hybrid e random (public_key k)
            ≡ ok (l.x25519_public e ++ m.ciphertext random, x.agreed e ++ m.shared random)
      unfolding encapsulate_hybrid encapsulate_both public_key
      encapsulate_hybrid_eq e random =
          let size : length (k.x25519_public ++ k.mlkem_public) ≡ 1216 =
            length-append k.x25519_public k.mlkem_public
            ∙ omega (arith, x.public_size, m.public_size) in
          rw
            (
              size,
              take-append_length 32 k.x25519_public k.mlkem_public x.public_size,
              x.here e,
              drop-append_length 32 k.x25519_public k.mlkem_public x.public_size,
              encapsulate_eq random,
            )
            refl

      pub decapsulate_hybrid_eq :
          (e random : Bytes)
          → decapsulate_hybrid k (l.x25519_public e ++ m.ciphertext random)
            ≡ ok (x.agreed e ++ m.shared random)
      unfolding decapsulate_hybrid decapsulate_both
      decapsulate_hybrid_eq e random =
          let size : length (l.x25519_public e ++ m.ciphertext random) ≡ 1120 =
            length-append (l.x25519_public e) (m.ciphertext random)
            ∙ omega (arith, x.ephemeral_size e, m.ciphertext_size random) in
          rw
            (
              size,
              take-append_length 32 (l.x25519_public e) (m.ciphertext random) (x.ephemeral_size e),
              x.there e,
              drop-append_length 32 (l.x25519_public e) (m.ciphertext random) (x.ephemeral_size e),
              decapsulate_eq random,
            )
            refl
