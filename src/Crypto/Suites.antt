-- ===== src/Crypto/Suites.antt =====
-- crypto/suites.py: the registry of cipher suites, as it is loaded.
use qasp.Prelude.{ℕ, ◌==◌, Bool, true, false, ◌||◌, String, if◌then◌else◌}
use qasp.Prelude.Result.{Result, ok, err, unknown_cipher_suite}

pub record CipherSuite : Type 0 where
  pub id : ℕ
  pub name : String
  pub kem_algorithm : String
  pub sig_algorithm : String
  pub uses_hybrid_kem : Bool
  pub uses_pq_signatures : Bool
  pub uses_classical_signatures : Bool

abbrev pub pq_strict : CipherSuite
pq_strict = record {
  id = 1;
  name = "PQ-Strict";
  kem_algorithm = "ML-KEM-768";
  sig_algorithm = "ML-DSA-65";
  uses_hybrid_kem = false;
  uses_pq_signatures = true;
  uses_classical_signatures = false;
}

abbrev pub hybrid_transition : CipherSuite
hybrid_transition = record {
  id = 2;
  name = "Hybrid-Transition";
  kem_algorithm = "X25519+ML-KEM-768";
  sig_algorithm = "Ed25519+ML-DSA-65";
  uses_hybrid_kem = true;
  uses_pq_signatures = true;
  uses_classical_signatures = true;
}

abbrev pub classical_compat : CipherSuite
classical_compat = record {
  id = 3;
  name = "Classical-Compat";
  kem_algorithm = "X25519";
  sig_algorithm = "Ed25519";
  uses_hybrid_kem = false;
  uses_pq_signatures = false;
  uses_classical_signatures = true;
}

unfoldable pub lookup : ℕ → Result CipherSuite
lookup suite_id =
    if suite_id == 1
    then ok pq_strict
    else if suite_id == 2
    then ok hybrid_transition
    else if suite_id == 3
    then ok classical_compat
    else err unknown_cipher_suite

-- PQ_SUITE_IDS
unfoldable pub is_pq_capable : ℕ → Bool
is_pq_capable suite_id = (suite_id == 1) || (suite_id == 2)
