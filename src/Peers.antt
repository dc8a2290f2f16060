-- ===== src/Peers.antt =====
-- protocol/connection.py over protocol/handshake.py: the connection's handshake is a `Handshake`, and
-- its messages are those of framing/messages.py.
pub mod Reads
pub mod Opens
pub mod Talks
use qasp.Prelude.{ℕ, String, Bytes, Option, none, some, List, [], ◌∷◌}
use qasp.Prelude.Int.{ℤ, pos, negsuc}
use qasp.Prelude.Result.{Result, ok, err, ◌>>=◌, type_error}
use qasp.Platform.{Platform, Value, Items, int, bytes, nil, cons}
use qasp.Framing.{Attr, plain, tuple}
use qasp.Framing.Types.{client_hello, server_hello, client_auth}
use qasp.Framing.Codec.{Message}
use qasp.Crypto.{Library}
use qasp.Connection.Session.{Parts, Outcome, returns, fails, raises}
use qasp.Connection.Handlers.{find_attribute, attribute, as_bytes, as_int}
use qasp.Handshake.{Handshake, ClientHello, ServerHello, ClientAuth}
use qasp.Handshake.Client.{create_client_hello, process_server_hello, complete_client_handshake}
use qasp.Handshake.Server.{process_client_hello, process_client_auth}
use qasp.Handshake.Runs.{Party, start}

-- A tuple of integers, written and read.
unfoldable pub int_items : List ℕ → Items
int_items [] = nil
int_items (n ∷ ns) = cons (int (pos n)) (int_items ns)

unfoldable pub natural : ℤ → Result ℕ
natural (pos n) = ok n
natural (negsuc n) = err type_error

unfoldable pub item_ints : Items → Result (List ℕ)
unfolding natural as_int
item_ints nil = ok []
item_ints (cons v items) = do z ← as_int v; n ← natural z; ns ← item_ints items; ok (n ∷ ns)

abbrev pub items_of : Option Attr → Result Items
items_of (some (tuple items)) = ok items
items_of _ = err type_error

unfoldable pub ints_attribute : String → Message → Result (List ℕ)
unfolding find_attribute item_ints
ints_attribute k m = do items ← items_of (find_attribute k m.attributes); item_ints items

unfoldable pub bytes_attribute : String → Message → Result Bytes
unfolding attribute as_bytes
bytes_attribute k m = do v ← attribute k m; as_bytes v

unfoldable pub int_attribute : String → Message → Result ℕ
unfolding attribute as_int natural
int_attribute k m = do v ← attribute k m; z ← as_int v; natural z

abbrev pub version_of : List ℕ → Result (ℕ × ℕ)
version_of (major ∷ minor ∷ []) = ok (major, minor)
version_of _ = err type_error

-- ---- the messages as the codec has them

abbrev pub hello_message : ClientHello → Message
hello_message hello = record {
  message_type = client_hello;
  attributes =
      (
        "protocol_version",
        tuple (int_items (hello.protocol_version.0 ∷ hello.protocol_version.1 ∷ [])),
      )
      ∷ ("client_random", plain (bytes hello.client_random))
      ∷ ("kem_public_key", plain (bytes hello.kem_public_key))
      ∷ ("sig_public_key", plain (bytes hello.sig_public_key))
      ∷ ("cipher_suites", tuple (int_items hello.cipher_suites))
      ∷ ("extensions", plain (bytes []))
      ∷ [];
}

abbrev pub answer_message : ServerHello → Message
answer_message hello = record {
  message_type = server_hello;
  attributes =
      (
        "protocol_version",
        tuple (int_items (hello.protocol_version.0 ∷ hello.protocol_version.1 ∷ [])),
      )
      ∷ ("server_random", plain (bytes hello.server_random))
      ∷ ("kem_ciphertext", plain (bytes hello.kem_ciphertext))
      ∷ ("kem_public_key", plain (bytes hello.kem_public_key))
      ∷ ("sig_public_key", plain (bytes hello.sig_public_key))
      ∷ ("selected_cipher_suite", plain (int (pos hello.selected_cipher_suite)))
      ∷ ("signature", plain (bytes hello.signature))
      ∷ ("extensions", plain (bytes []))
      ∷ ("certificate_chain", plain (bytes []))
      ∷ [];
}

abbrev pub auth_message : ClientAuth → Message
auth_message auth = record {
  message_type = client_auth;
  attributes =
      ("kem_ciphertext", plain (bytes auth.kem_ciphertext))
      ∷ ("signature", plain (bytes auth.signature))
      ∷ ("certificate", plain (bytes auth.certificate))
      ∷ [];
}

-- ---- and back, when the fields have the types that the classes declare

unfoldable pub read_hello : Message → Result ClientHello
read_hello m = do
  numbers ← ints_attribute "protocol_version" m
  version ← version_of numbers
  random ← bytes_attribute "client_random" m
  kem_key ← bytes_attribute "kem_public_key" m
  sig_key ← bytes_attribute "sig_public_key" m
  suites ← ints_attribute "cipher_suites" m
  ok (record {
    protocol_version = version;
    client_random = random;
    kem_public_key = kem_key;
    sig_public_key = sig_key;
    cipher_suites = suites;
  })

unfoldable pub read_answer : Message → Result ServerHello
read_answer m = do
  numbers ← ints_attribute "protocol_version" m
  version ← version_of numbers
  random ← bytes_attribute "server_random" m
  ciphertext ← bytes_attribute "kem_ciphertext" m
  kem_key ← bytes_attribute "kem_public_key" m
  sig_key ← bytes_attribute "sig_public_key" m
  suite ← int_attribute "selected_cipher_suite" m
  signature ← bytes_attribute "signature" m
  ok (record {
    protocol_version = version;
    server_random = random;
    kem_ciphertext = ciphertext;
    kem_public_key = kem_key;
    sig_public_key = sig_key;
    selected_cipher_suite = suite;
    signature = signature;
  })

unfoldable pub read_auth : Message → Result ClientAuth
read_auth m = do
  ciphertext ← bytes_attribute "kem_ciphertext" m
  signature ← bytes_attribute "signature" m
  certificate ← bytes_attribute "certificate" m
  ok (record { kem_ciphertext = ciphertext; signature = signature; certificate = certificate })

-- ---- the handshake as the connection calls it

abbrev pub as_message :
    {A : Type 0} → (A → Message) → Handshake × Outcome A → Handshake × Outcome Message
as_message f (h, returns a) = (h, returns (f a))
as_message f (h, fails failure) = (h, fails failure)
as_message f (h, raises e) = (h, raises e)

-- create_client_hello returns no HandshakeFailure; the connection could not encode one.
abbrev pub as_hello : Handshake × Outcome ClientHello → Handshake × Result Message
as_hello (h, returns hello) = (h, ok (hello_message hello))
as_hello (h, fails failure) = (h, err type_error)
as_hello (h, raises e) = (h, err e)

-- The connection of a party, for its nonce, its ephemeral key and its random bytes. The record
-- `other` has the frames, the cipher and the derivation of the nonces, and what the methods do with
-- a message whose fields have other types, which is left open.
module _ (q : Platform) (l : Library) (party : Party) (nonce ephemeral random : Bytes)
    (other : Parts Handshake) where
  unfoldable pub on_client_hello : Handshake → Message → Handshake × Outcome Message
  unfolding read_hello process_client_hello
  on_client_hello h m = elim (read_hello m) [
    | ok hello ↦ as_message answer_message (process_client_hello q l nonce ephemeral random hello h)
    | err e ↦ other.process_client_hello h m
  ]

  unfoldable pub on_server_hello : Handshake → Message → Handshake × Outcome Message
  unfolding read_answer process_server_hello
  on_server_hello h m = elim (read_answer m) [
    | ok hello ↦ as_message auth_message (process_server_hello q l ephemeral random hello h)
    | err e ↦ other.process_server_hello h m
  ]

  abbrev pub peer_parts : Parts Handshake
  peer_parts = record other {
    new_handshake = λ is_initiator. start is_initiator party;
    create_client_hello = λ h. as_hello (create_client_hello nonce h);
    process_client_hello = on_client_hello;
    process_server_hello = on_server_hello;
    complete_client_handshake = complete_client_handshake q l;
    process_client_auth = λ h m. elim (read_auth m) [
      | ok auth ↦ process_client_auth q l auth h
      | err e ↦ other.process_client_auth h m
    ];
  }
