-- ===== src/Handshake/Signed.antt =====
-- What a server has verified when it returns keys.
use qasp.Prelude.{ℕ, ◌/◌, ◌%◌, Bytes, ◌≡◌, refl, false, inl, inr, arith, some, List, [], ◌∷◌, ◌++◌}
use qasp.Prelude.Result.{ok, Result-cases}
use qasp.Prelude.Binary.{to_byte, to_bytes2}
use qasp.Platform.{Platform}
use qasp.Crypto.{Library}
use qasp.Connection.Session.{HandshakeKeys, returns}
use qasp.Handshake.{Handshake, ClientHello, ServerHello, ClientAuth}
use qasp.Handshake.Transcript.{
  version_bytes, suite_bytes, add_client_hello, add_server_hello_presig, add_part,
  get_client_signing_transcript, join,
}
use qasp.Handshake.Runs.{Party, start}
use qasp.Handshake.Server.{
  check_client_hello, answer_client, process_client_hello, process_client_auth,
}

-- A version in one byte each, and suites in two bytes each.
abbrev pub two : ℕ × ℕ → Bytes
two (major, minor) = major ∷ minor ∷ []

unfoldable pub pairs : List ℕ → Bytes
pairs [] = []
pairs (n ∷ ns) = n / 256 ∷ n % 256 ∷ pairs ns

-- The bytes of the ClientHello and of the ServerHello with its signature.
abbrev pub both_hellos : ClientHello → ServerHello → Bytes
both_hellos hello answer =
    two hello.protocol_version
    ++ (hello.client_random
        ++ (hello.kem_public_key
            ++ (hello.sig_public_key
                ++ (pairs hello.cipher_suites
                    ++ (two answer.protocol_version
                        ++ (answer.server_random
                            ++ (answer.kem_ciphertext
                                ++ (answer.kem_public_key
                                    ++ (answer.sig_public_key
                                        ++ (pairs (answer.selected_cipher_suite ∷ [])
                                            ++ (answer.signature ++ [])))))))))))

version_bytes-two : (v : ℕ × ℕ) (bs : Bytes) → version_bytes v ≡ ok bs → bs ≡ two v
unfolding version_bytes to_byte
version_bytes-two (major, minor) bs h = ground arith

to_bytes2-pairs : (n : ℕ) (bs : Bytes) → to_bytes2 n ≡ ok bs → bs ≡ pairs (n ∷ [])
unfolding to_bytes2 pairs
to_bytes2-pairs n bs h = ground arith

suite_bytes-pairs : (ns : List ℕ) (bs : Bytes) → suite_bytes ns ≡ ok bs → bs ≡ pairs ns
unfolding suite_bytes pairs
suite_bytes-pairs [] bs h = cc
suite_bytes-pairs (n ∷ ns) bs h = elim (Result-cases (to_bytes2 n)) [
  | inr (e, a) ↦ absurd (ground arith)
  | inl (x, a) ↦ elim (Result-cases (suite_bytes ns)) [
    | inr (e, b) ↦ absurd (ground arith)
    | inl (y, b) ↦
        let shape : x ++ y ≡ bs = ground arith in
        let first : x ≡ n / 256 ∷ n % 256 ∷ [] = unfold pairs in to_bytes2-pairs n x a in
        rw (← shape, first, suite_bytes-pairs ns y b) refl
  ]
]

module _ (q : Platform) (l : Library) (party : Party) (ns es rs : Bytes) (hello : ClientHello)
    (answer : ServerHello) (s : Handshake)
    (answered : process_client_hello q l ns es rs hello (start false party)
      ≡ (s, returns answer)) where
  transcript_of :
      (v suites w code : Bytes)
      → version_bytes hello.protocol_version ≡ ok v
      → suite_bytes hello.cipher_suites ≡ ok suites
      → version_bytes party.config.protocol_version ≡ ok w
      → to_bytes2 answer.selected_cipher_suite ≡ ok code
      → s.transcript.parts
        ≡ v ∷ hello.client_random ∷ hello.kem_public_key ∷ hello.sig_public_key ∷ suites ∷ w
          ∷ answer.server_random ∷ answer.kem_ciphertext ∷ answer.kem_public_key
          ∷ answer.sig_public_key ∷ code ∷ answer.signature ∷ []
  unfolding process_client_hello check_client_hello answer_client add_client_hello
      add_server_hello_presig add_part
  transcript_of v suites w code a b c d = ground (arith, answered)

  peer_of : s.peer_sig_public ≡ some hello.sig_public_key
  unfolding process_client_hello check_client_hello answer_client add_client_hello
      add_server_hello_presig add_part
  peer_of = ground (arith, answered)

  version_of : answer.protocol_version ≡ party.config.protocol_version
  unfolding process_client_hello check_client_hello answer_client add_client_hello
      add_server_hello_presig add_part
  version_of = ground (arith, answered)

  hellos : join s.transcript.parts ≡ both_hellos hello answer
  unfolding process_client_hello check_client_hello answer_client add_client_hello
      add_server_hello_presig join
  hellos = elim (Result-cases (version_bytes hello.protocol_version)) [
    | inr (e, a) ↦ absurd (ground (arith, answered))
    | inl (v, a) ↦ elim (Result-cases (suite_bytes hello.cipher_suites)) [
      | inr (e, b) ↦ absurd (ground (arith, answered))
      | inl (suites, b) ↦ elim (Result-cases (version_bytes party.config.protocol_version)) [
        | inr (e, c) ↦ absurd (ground (arith, answered))
        | inl (w, c) ↦ elim (Result-cases (to_bytes2 answer.selected_cipher_suite)) [
          | inr (e, d) ↦ absurd (ground (arith, answered))
          | inl (code, d) ↦
              rw
                (
                  transcript_of v suites w code a b c d,
                  version_of,
                  version_bytes-two hello.protocol_version v a,
                  version_bytes-two party.config.protocol_version w c,
                  suite_bytes-pairs hello.cipher_suites suites b,
                  to_bytes2-pairs answer.selected_cipher_suite code d,
                )
                refl
        ]
      ]
    ]
  ]

module _ (q : Platform) (l : Library) (auth : ClientAuth) (s t : Handshake) (keys : HandshakeKeys)
    (returned : process_client_auth q l auth s ≡ (t, returns keys)) where
  auth_verified :
      (s.peer_sig_public ≡ some keys.peer_sig_public)
      × (q.verify keys.peer_sig_public (join s.transcript.parts) auth.signature ≡ ok tt)
  unfolding process_client_auth get_client_signing_transcript
  auth_verified = ground (arith, returned)

-- A client whose ClientHello and ClientAuth bring a server to return keys.
pub record Signed (q : Platform) (hello : ClientHello) (answer : ServerHello) (auth : ClientAuth)
    (keys : HandshakeKeys) : Type 0 where
  pub peer : keys.peer_sig_public ≡ hello.sig_public_key
  pub verified : q.verify hello.sig_public_key (both_hellos hello answer) auth.signature ≡ ok tt

-- Whatever ClientHello and ClientAuth arrive: when a new server answers the first and returns keys on
-- the second, the keys name the signature key of the ClientHello, and under that key the signature
-- of the ClientAuth verifies for all fields of the ClientHello but its extensions
-- followed by those of the server's answer, its signature included.
pub process_client_auth-Signed :
    (q : Platform) (l : Library) (party : Party) (ns es rs : Bytes) (hello : ClientHello)
    (answer : ServerHello) (auth : ClientAuth) (s t : Handshake) (keys : HandshakeKeys)
    → process_client_hello q l ns es rs hello (start false party) ≡ (s, returns answer)
    → process_client_auth q l auth s ≡ (t, returns keys)
    → Signed q hello answer auth keys
process_client_auth-Signed q l party ns es rs hello answer auth s t keys answered returned =
    let (named, verified) = auth_verified q l auth s t keys returned in
    let known = peer_of q l party ns es rs hello answer s answered in
    let same : keys.peer_sig_public ≡ hello.sig_public_key = cc in
    record {
      peer = same;
      verified = rw (same, hellos q l party ns es rs hello answer s answered) at verified;
    }
