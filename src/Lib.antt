-- ===== src/Lib.antt =====
-- QASP: capability tokens, their delegation, rate limits, payment channels, and the connections.
--
-- QASP lets agents act for each other under signed capability tokens. A token names a resource, a
-- set of verbs and constraints, and a schedule that lowers its limits as time goes by. Its holder
-- can attenuate it into a child token, split it into parts, or pass it on along a chain of tools;
-- who receives a chain of tokens verifies it link by link. A verified token's use is limited by a
-- token bucket, and what is used is paid for over a payment channel between agent and server. The
-- messages go as frames of CBOR with an HMAC over connections that start with a handshake, encrypt
-- data and carry several streams.
--
-- The parts and where they are modelled:
-- - Arm: src/qasp/protocol/arm.py. `parse_uri` reads a URI by splitting it, in place of the
--   regular expression; like the expression it accepts one newline at the end. Arm/Scope and
--   Arm/Meet have what matching and intersection decide.
-- - Capability: src/qasp/protocol/capability.py. Constraints has VerbSet and Constraints, Temporal
--   the schedules, Token the token with its encoding and creation, Usage `verify_token` and the
--   usage checks, Attenuate `attenuate_token`, `create_sub_invocation_token` and `split_token`,
--   Chain `verify_delegation_chain`, Owners the tokens of several owners. The DIDs in a token are
--   those of src/qasp/identity/did.py.
-- - RateLimiter: src/qasp/protocol/rate_limiter.py, the bucket, and in RateLimiter/Registry the
--   registry, which `verify_token` passes through as explicit state.
-- - Settlement: `PaymentChannel` of src/qasp/protocol/settlement.py; Settlement/Closing has the
--   close, the challenge, the settlement and the auditor's verdict, Settlement/Pricing the
--   `PriceNegotiator` of the same file, and Settlement/Round, Settlement/Challenges and
--   Settlement/Verdict what they do.
-- - Stream: src/qasp/protocol/stream.py, the frames of streams, and in Stream/Manager the manager
--   of the streams of one connection. Stream/Frames, Stream/Receiving and Stream/Delivery have
--   what writing, reading and the two ends together do.
-- - Framing: src/qasp/framing/messages.py and src/qasp/framing/codec.py. Types has `MessageType`;
--   Sessions, Resources and Agreements the fields of the message classes; Codec the frames. A
--   message is its type with its attributes, since the decoder looks at no type of a field but
--   `tuple`.
-- - Connection: src/qasp/protocol/states.py and src/qasp/protocol/connection.py. Session has the
--   state, Handlers what a message does, Receive `receive_bytes`, Calls what an application calls.
--   The handshake, AES-GCM and the derivation of the nonces are the interface `Parts`. Life has
--   the methods, the bytes that arrive and the resets as steps; Heads, Rounds, Segments, Keeps, Sound, Ends,
--   Numbers, Replay, Frames, Exchange and Retries have the proofs.
-- - Handshake: src/qasp/protocol/handshake.py. Transcript has what is signed, Client and Server
--   the methods, over Crypto, which has what they call of src/qasp/crypto: kem.py, hybrid.py,
--   kdf.py and suites.py. Runs says when the calls succeed; Steps, Agreement, Refusals and Signed
--   have what a handshake ends with.
-- - Peers: the connections over that handshake: `Parts` is filled with `Handshake`, whose messages
--   are those of src/qasp/framing/messages.py. What a handshake does with a message whose fields
--   have other types than declared is left open. Opens has the handshake over frames, Talks the
--   data after it.
-- - Relay: `RelaySession` of src/qasp/protocol/relay/session.py, with its budgets and the debits
--   that wait for a delivery. Relay/Ledger has its operations as steps and the accounts,
--   Relay/Debits and Relay/Budget the proofs.
-- - Revocation: src/qasp/protocol/revocation.py, the list of revoked tokens and the cascade, with
--   what is asked of the list in Queries. Counts and Offers have the inner loop, Reach the whole
--   cascade, Revokes what `revoke` does, Forgets the clean-up and `get_descendants`.
-- - Platform is what comes from outside: signing and verification (src/qasp/crypto/signatures.py
--   over liboqs), SHA-384, CBOR and the Python runtime. Where a property needs that a signature
--   verifies, it takes a key pair (`IsKeyPair`) as a hypothesis.
-- - Prelude has the shared helpers, Examples the witnesses.
--
-- How the model stands to the code:
-- - A method that changes an object returns the object beside its answer; a call that raises keeps
--   what it has changed so far. Exceptions are the constructors of `Error`.
-- - Clocks and random bytes are arguments. One call reads the clock once, where the code reads it
--   several times in a row. Times in tokens and buckets are microseconds, those in channels
--   seconds.
-- - Limits, balances, depths and sequence numbers are integers without bound, as in Python; a
--   threshold's `at_seconds` and the validity of a new token are 0 or more.
-- - A frozenset is the list of its members. The rate limiter and the bucket of a relay's session
--   count in floating point; the model is exact, with the refill rate as a fraction and whole
--   capacities and requests. Locks are
--   left out: a call is one step.
-- - Loops are over lists, or over a range with a known length (the toolchain windows). The two
--   loops over received bytes, of streams and of connections, take fuel, one more than there are
--   bytes: each round takes a header at least. The cascade of revocations takes one more than
--   there are children: a token is queued once.
-- - The wording of errors is left out, and a field of the wrong type raises `type_error` for all
--   that Python raises then. A retry's backoff is exact, in place of floating point.
--
-- Not modelled: reading tokens back from CBOR, the decay schedules that are computed in floating
-- point, the relay's manager and receipts, metering, disputes, trust and disclosure,
-- which are further components; transport and bridges, which are input and output; the
-- cryptographic wrappers that the handshake does not call, such as AES-GCM and certificates.
pub mod Arm
pub mod Capability
pub mod Connection
pub mod Crypto
pub mod Examples
pub mod Framing
pub mod Handshake
pub mod Peers
pub mod Platform
pub mod Prelude
pub mod RateLimiter
pub mod Relay
pub mod Revocation
pub mod Settlement
pub mod Stream
