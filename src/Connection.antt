-- ===== src/Connection.antt =====
-- protocol/states.py and protocol/connection.py: a connection without its sockets. The children have
-- its handlers, the loop that reassembles frames, what an application calls, and what they keep.
pub mod Session
pub mod Handlers
pub mod Receive
pub mod Heads
pub mod Rounds
pub mod Segments
pub mod Calls
pub mod Keeps
pub mod Sound
pub mod Life
pub mod Ends
pub mod Numbers
pub mod Replay
pub mod Frames
pub mod Exchange
pub mod Retries
use qasp.Prelude.{ℕ, ◌==◌, ◌||◌, Bool, true, false, List, [], ◌∷◌}

-- `error` is spelled out, since errors are constructors too.
pub data ConnectionState : Type 0 where
  idle hello_sent hello_received authenticated : ConnectionState
  established closing closed error_state : ConnectionState

unfoldable pub valid_transitions : ConnectionState → List ConnectionState
valid_transitions idle = hello_sent ∷ hello_received ∷ error_state ∷ []
valid_transitions hello_sent = authenticated ∷ error_state ∷ closed ∷ []
valid_transitions hello_received = authenticated ∷ error_state ∷ closed ∷ []
valid_transitions authenticated = established ∷ error_state ∷ closed ∷ []
valid_transitions established = closing ∷ error_state ∷ closed ∷ []
valid_transitions closing = closed ∷ error_state ∷ []
valid_transitions closed = idle ∷ []
valid_transitions error_state = closed ∷ idle ∷ []

abbrev index : ConnectionState → ℕ
index idle = 1
index hello_sent = 2
index hello_received = 3
index authenticated = 4
index established = 5
index closing = 6
index closed = 7
index error_state = 8

infix 50 ◌is◌
abbrev pub ◌is◌ : ConnectionState → ConnectionState → Bool
a is b = index a == index b

has_state : ConnectionState → List ConnectionState → Bool
has_state a [] = false
has_state a (b ∷ bs) = a is b || has_state a bs

unfoldable pub is_valid_transition : ConnectionState → ConnectionState → Bool
unfolding valid_transitions has_state
is_valid_transition from_state to_state = has_state to_state (valid_transitions from_state)
