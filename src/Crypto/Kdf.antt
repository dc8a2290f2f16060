-- ===== src/Crypto/Kdf.antt =====
-- crypto/kdf.py: HKDF-SHA-384 and the session key.
use qasp.Prelude.{ℕ, Bytes, ◌||◌, ltb, ◌==◌, not, [], ◌∷◌, length, ◌++◌, if◌then◌else◌}
use qasp.Prelude.Result.{Result, err, key_derivation_error, ◌>>◌, raise_if}
use qasp.Crypto.{Library, wrapped}

-- b"QASP-v1"
abbrev pub qasp_info_prefix : Bytes
qasp_info_prefix = 0x51 ∷ 0x41 ∷ 0x53 ∷ 0x50 ∷ 0x2d ∷ 0x76 ∷ 0x31 ∷ []

module _ (l : Library) where
  unfoldable pub derive_key : Bytes → Bytes → Bytes → ℕ → Result Bytes
  derive_key input_key_material salt info size =
      if ltb size 1 || ltb 12240 size
      then err key_derivation_error
      else wrapped key_derivation_error (l.hkdf input_key_material salt info size)

  unfoldable pub derive_qasp_session_key : Bytes → Bytes → Bytes → Bytes → Result Bytes
  unfolding derive_key
  derive_qasp_session_key mlkem_shared_secret x25519_shared_secret client_nonce server_nonce =
      raise_if (not (length mlkem_shared_secret == 32)) key_derivation_error
      >> (raise_if (not (length x25519_shared_secret == 32)) key_derivation_error
          >> derive_key (mlkem_shared_secret ++ x25519_shared_secret) (client_nonce ++ server_nonce)
              qasp_info_prefix 32)
