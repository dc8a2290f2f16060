-- ===== src/Handshake/Transcript.antt =====
-- The transcript of a handshake: what its methods add to it, and what they sign.
use qasp.Prelude.{ℕ, Bytes, List, [], ◌∷◌, ◌++◌, length, take}
use qasp.Prelude.Result.{Result, ok}
use qasp.Prelude.Result as Result
use qasp.Prelude.Binary.{to_byte, to_bytes2}
use qasp.Platform.{Platform}
use qasp.Handshake.{Handshake, TranscriptBuilder, ClientHello, M, ◌>>=◌, ◌>>◌, modify, call}

unfoldable pub add_part : Bytes → Handshake → Handshake
add_part bs s = record s {
  transcript = record s.transcript { parts = s.transcript.parts ++ bs ∷ [] };
}

abbrev pub add : Bytes → M (Unit {0})
add bs = modify (add_part bs)

unfoldable pub version_bytes : ℕ × ℕ → Result Bytes
version_bytes (major, minor) =
    Result.◌>>=◌ (to_byte major) (λ a. Result.◌>>=◌ (to_byte minor) (λ b. ok (a ++ b)))

unfoldable pub suite_bytes : List ℕ → Result Bytes
suite_bytes [] = ok []
suite_bytes (suite ∷ suites) =
    Result.◌>>=◌ (to_bytes2 suite) (λ a. Result.◌>>=◌ (suite_bytes suites) (λ b. ok (a ++ b)))

abbrev pub mark_client_hello : Handshake → Handshake
mark_client_hello s = record s {
  transcript = record s.transcript { client_hello_end = length s.transcript.parts };
}

abbrev pub mark_presig : Handshake → Handshake
mark_presig s = record s {
  transcript = record s.transcript { server_hello_presig_end = length s.transcript.parts };
}

unfoldable pub add_client_hello : ClientHello → M (Unit {0})
unfolding add_part version_bytes suite_bytes
add_client_hello hello = do
  version ← call (version_bytes hello.protocol_version)
  add version
  add hello.client_random
  add hello.kem_public_key
  add hello.sig_public_key
  suites ← call (suite_bytes hello.cipher_suites)
  add suites
  modify mark_client_hello

unfoldable pub add_server_hello_presig : ℕ × ℕ → Bytes → Bytes → Bytes → Bytes → ℕ → M (Unit {0})
unfolding add_part version_bytes
add_server_hello_presig protocol_version server_nonce kem_ciphertext kem_public_key sig_public_key
      selected_suite =
    do
      version ← call (version_bytes protocol_version)
      add version
      add server_nonce
      add kem_ciphertext
      add kem_public_key
      add sig_public_key
      suite ← call (to_bytes2 selected_suite)
      add suite
      modify mark_presig

unfoldable pub join : List Bytes → Bytes
join [] = []
join (part ∷ parts) = part ++ join parts

unfoldable pub get_server_signing_transcript : TranscriptBuilder → Bytes
unfolding join
get_server_signing_transcript t = join (take t.server_hello_presig_end t.parts)

unfoldable pub get_client_signing_transcript : TranscriptBuilder → Bytes
unfolding join
get_client_signing_transcript t = join t.parts

unfoldable pub get_full_transcript : TranscriptBuilder → Bytes
unfolding join
get_full_transcript t = join t.parts

module _ (q : Platform) where
  unfoldable pub compute_session_id : TranscriptBuilder → Bytes
  unfolding get_full_transcript
  compute_session_id t = take 32 (q.sha384 (get_full_transcript t))
