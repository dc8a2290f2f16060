-- ===== src/Handshake/Refusals.antt =====
-- What a server refuses although a suite is in common.
use qasp.Prelude.{
  ℕ, Bytes, ◌≡◌, refl, ap, ◌∙◌, Bool, true, false, not, ◌++◌, length, length-append, arith,
}
use qasp.Prelude.Result.{ok, err, invalid_key}
use qasp.Platform.{Platform}
use qasp.Crypto.{Library}
use qasp.Crypto.Kem.{HybridKeypair, public_key, encapsulate, encapsulate_hybrid}
use qasp.Crypto.Suites.{CipherSuite, lookup}
use qasp.Connection.Session.{kem_failed, returns, fails}
use qasp.Handshake.{
  Handshake, failed, initial, ◌is_at◌, ClientHello, ServerHello, failure, M, raise_if, ◌>>=◌, ◌>>◌,
}
use qasp.Handshake.Steps.{bound}
use qasp.Handshake.Server.{
  encapsulate_to_client, our_key, check_client_hello, answer_client, process_client_hello,
}

-- A key of the other kind has the wrong size.
other_kind :
    (l : Library) (b : Bool) (e r : Bytes) (k : HybridKeypair)
    → length k.x25519_public ≡ 32
    → length k.mlkem_public ≡ 1184
    → encapsulate_to_client l b e r (our_key (not b) k) ≡ err invalid_key
unfolding encapsulate_to_client encapsulate encapsulate_hybrid our_key public_key
other_kind l true e r k x m = rw m refl
other_kind l false e r k x m =
    let size : length (k.x25519_public ++ k.mlkem_public) ≡ 1216 =
      length-append k.x25519_public k.mlkem_public ∙ omega (arith, x, m) in
    rw size refl

answer_client-kem_failed :
    (q : Platform) (l : Library) (client : HybridKeypair) (nonce ephemeral random : Bytes)
    (hello : ClientHello) (selected : ℕ) (suite : CipherSuite) (s : Handshake)
    → length client.x25519_public ≡ 32
    → length client.mlkem_public ≡ 1184
    → lookup selected ≡ ok suite
    → hello.kem_public_key ≡ our_key (not suite.uses_hybrid_kem) client
    → answer_client q l nonce ephemeral random hello selected s
      ≡ (record s { state = failed }, fails (failure kem_failed 50 "KEM encapsulation failed"))
unfolding answer_client
answer_client-kem_failed q l client nonce ephemeral random hello selected suite s x m known key =
    let refused = other_kind l suite.uses_hybrid_kem ephemeral random client x m in
    rw (answer_client, known, key, refused) refl

passes : (t : Bool) (s : Handshake) → t ≡ false → raise_if t s ≡ (s, returns tt)
passes t s h = rw h refl

-- A server that is at the start, and for which a hello's version and suites pass, fails the
-- handshake when the selected suite's KEM is not the one of the client's key: an ML-KEM key with an
-- X25519 key before it where the suite has none, or without one where it has.
pub process_client_hello-kem_failed :
    (q : Platform) (l : Library) (client : HybridKeypair) (nonce ephemeral random : Bytes)
    (hello : ClientHello) (selected : ℕ) (suite : CipherSuite) (s t : Handshake)
    → length client.x25519_public ≡ 32
    → length client.mlkem_public ≡ 1184
    → s.is_initiator ≡ false
    → s.state ≡ initial
    → check_client_hello nonce hello s ≡ (t, returns selected)
    → lookup selected ≡ ok suite
    → hello.kem_public_key ≡ our_key (not suite.uses_hybrid_kem) client
    → process_client_hello q l nonce ephemeral random hello s
      ≡ (record t { state = failed }, fails (failure kem_failed 50 "KEM encapsulation failed"))
unfolding process_client_hello
process_client_hello-kem_failed q l client nonce ephemeral random hello selected suite s t x m
      responds begins checked known key =
    let tested : M ServerHello =
      check_client_hello nonce hello >>= answer_client q l nonce ephemeral random hello in
    bound (raise_if s.is_initiator) (λ done. raise_if (not (s.state is_at initial)) >> tested) s s
      tt (passes s.is_initiator s responds)
    ∙ (bound (raise_if (not (s.state is_at initial))) (λ done. tested) s s tt
          (passes (not (s.state is_at initial)) s (ap (λ at. not (at is_at initial)) begins))
        ∙ (bound (check_client_hello nonce hello) (answer_client q l nonce ephemeral random hello) s
              t selected checked
            ∙ answer_client-kem_failed q l client nonce ephemeral random hello selected suite t x m
                known key))
