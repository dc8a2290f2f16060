-- ===== src/Peers/Reads.antt =====
-- A message of the handshake is read back from its attributes.
use qasp.Prelude.{ℕ, ◌≡◌, refl, List, [], ◌∷◌}
use qasp.Prelude.Result.{ok}
use qasp.Framing.Sessions
use qasp.Framing.Attributes.{Instance}
use qasp.Framing.Codec.{from_value, to_value}
use qasp.Handshake.{ClientHello, ServerHello, ClientAuth}
use qasp.Peers.{
  int_items, item_ints, hello_message, answer_message, auth_message, read_hello, read_answer,
  read_auth, ints_attribute, bytes_attribute, int_attribute,
}

pub item_ints-int_items : (ns : List ℕ) → item_ints (int_items ns) ≡ ok ns
unfolding item_ints int_items qasp.Connection.Handlers.as_int qasp.Peers.natural
item_ints-int_items [] = refl
item_ints-int_items (n ∷ ns) = rw (item_ints-int_items ns) refl

pub read_hello-hello_message : (hello : ClientHello) → read_hello (hello_message hello) ≡ ok hello
unfolding read_hello ints_attribute bytes_attribute int_items item_ints
    qasp.Connection.Handlers.as_int qasp.Peers.natural qasp.Connection.Handlers.find_attribute
    qasp.Connection.Handlers.attribute qasp.Connection.Handlers.as_bytes
read_hello-hello_message hello = rw (item_ints-int_items hello.cipher_suites) refl

pub read_answer-answer_message :
    (hello : ServerHello) → read_answer (answer_message hello) ≡ ok hello
unfolding read_answer ints_attribute bytes_attribute int_attribute int_items item_ints
    qasp.Connection.Handlers.as_int qasp.Peers.natural qasp.Connection.Handlers.find_attribute
    qasp.Connection.Handlers.attribute qasp.Connection.Handlers.as_bytes
read_answer-answer_message hello = refl

pub read_auth-auth_message : (auth : ClientAuth) → read_auth (auth_message auth) ≡ ok auth
unfolding read_auth bytes_attribute qasp.Connection.Handlers.find_attribute
    qasp.Connection.Handlers.attribute qasp.Connection.Handlers.as_bytes
read_auth-auth_message auth = refl

-- Each has the attributes of its class.
pub hello_Instance :
    (hello : ClientHello) → Instance Sessions.client_hello (hello_message hello).attributes
unfolding Sessions.client_hello from_value to_value
hello_Instance hello =
    (refl, refl, (refl, refl, (refl, refl, (refl, refl, (refl, refl, (refl, refl, tt))))))

pub answer_Instance :
    (hello : ServerHello) → Instance Sessions.server_hello (answer_message hello).attributes
unfolding Sessions.server_hello from_value to_value
answer_Instance hello = (
  refl,
  refl,
  (
    refl,
    refl,
    (
      refl,
      refl,
      (refl, refl, (refl, refl, (refl, refl, (refl, refl, (refl, refl, (refl, refl, tt)))))),
    ),
  ),
)

pub auth_Instance :
    (auth : ClientAuth) → Instance Sessions.client_auth (auth_message auth).attributes
unfolding Sessions.client_auth from_value to_value
auth_Instance auth = (refl, refl, (refl, refl, (refl, refl, tt)))
