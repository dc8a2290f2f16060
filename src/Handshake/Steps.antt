-- ===== src/Handshake/Steps.antt =====
-- Steps of a handshake that return.
use qasp.Prelude.{Bytes, ◌≡◌, refl, ap, [], ◌∷◌}
use qasp.Prelude.Result.{ok}
use qasp.Connection.Session.{Outcome, returns, fails, raises}
use qasp.Handshake.{ClientHello, Handshake, M, ◌>>=◌}
use qasp.Handshake.Transcript.{version_bytes, suite_bytes, add_part, add_client_hello}

-- A step that returns, and the rest of a block.
pub bound :
    {A B : Type 0} (m : M A) (f : A → M B) (s t : Handshake) (a : A)
    → m s ≡ (t, returns a)
    → (m >>= f) s ≡ f a t
bound {A = A} m f s t a e =
    ap
      (λ (x : Handshake × Outcome A). elim x.1 [
        | returns a' ↦ f a' x.0
        | fails failure ↦ (x.0, fails failure)
        | raises error ↦ (x.0, raises error)
      ])
      e

pub add_client_hello_eq :
    (hello : ClientHello) (version codes : Bytes) (s : Handshake)
    → version_bytes hello.protocol_version ≡ ok version
    → suite_bytes hello.cipher_suites ≡ ok codes
    → s.transcript.parts ≡ []
    → add_client_hello hello s ≡ (
      record s {
        transcript = record s.transcript {
          parts =
              version ∷ hello.client_random ∷ hello.kem_public_key ∷ hello.sig_public_key ∷ codes
              ∷ [];
          client_hello_end = 5;
        };
      },
      returns tt,
    )
unfolding add_client_hello add_part
add_client_hello_eq hello version codes s v c e = rw (add_client_hello, v, c, e) refl
