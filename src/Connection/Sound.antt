-- ===== src/Connection/Sound.antt =====
-- The invariant of a session: it is never left in CLOSING, and an established one has its keys.
use qasp.Prelude.{
  ℕ, Bytes, ◌+◌, ◌≡◌, Bool, true, false, not, ◌&&◌, ◌||◌, ltb, Option, none, some, List, [], ◌∷◌,
  ◌++◌, inl, inr, arith, Bool-cases, bytes_eq, bytes_eq_iff, take, drop, suc, zero, length,
}
use qasp.Prelude.Int.{ℤ, pos, negsuc}
use qasp.Prelude.Result.{Result, ok, err, Result-cases}
use qasp.Prelude.Binary.{to_bytes8}
use qasp.Framing.Codec.{Message, decode_frame}
use qasp.Connection.{established, closing, ◌is◌}
use qasp.Connection.Session.{
  Session, Parts, Event, connection_error, ◌>>=◌, lift, transition_to, queue,
}
use qasp.Connection.Handlers.{
  complete_handshake, handle_application_data, sequenced, open_data, construct_nonce, attribute,
  as_int, as_bytes, present, decrypted, is_framing_error, process_message,
}
use qasp.Connection.Receive.{
  frame_head, QaspConnection, Received, framing_failed, handle_frame, Round, stop, again, handled,
  receive_round, receive_loop, receive_bytes,
}
use qasp.Connection.Heads.{Head-cases}
use qasp.Connection.Rounds.{Round-cases}
use qasp.Connection.Keeps.{Keeps, Stable, bind, done, got, dispatch-Keeps}

unfoldable pub is_some {ℓ} : {A : Type ℓ} → Option A → Bool
is_some none = false
is_some (some a) = true

unfoldable pub key_is : Bytes → Option Bytes → Bool
key_is key none = false
key_is key (some k) = bytes_eq key k

-- What an established session holds: the key by which frames are tagged, as the session's own, the
-- start of the nonces and the streams.
unfoldable pub ready : {H : Type 0} → Session H → Bool
unfolding is_some key_is
ready s = key_is s.hmac_key s.session_key && is_some s.nonce_iv && is_some s.stream_manager

unfoldable pub sound : {H : Type 0} → Session H → Bool
unfolding ready
sound s = not (s.state is closing) && (not (s.state is established) || ready s)

abbrev pub IsSound : {H : Type 0} → Session H → Type 0
IsSound s = sound s ≡ true

-- What the handler of data does after it has set the next number expected changes no session.
module _ {H : Type 0} (p : Parts H) {P : Session H → Type 0} where
  pub construct_nonce-Keeps : (n : ℕ) → Keeps P (construct_nonce p n)
  unfolding construct_nonce
  construct_nonce-Keeps n = bind got (λ s.
      bind (done (present s.nonce_iv))
        (λ iv. bind (done (to_bytes8 n)) (λ counter. done (ok (iv ++ counter)))))

  pub open_data-Keeps : (n : ℕ) (m : Message) → Keeps P (open_data p n m)
  unfolding open_data
  open_data-Keeps n m = bind got (λ s. bind (done (present s.session_key)) (λ key.
      bind (construct_nonce-Keeps n) (λ nonce. bind (done (to_bytes8 n)) (λ counter.
        bind (done (attribute "encrypted_data" m)) (λ value.
          bind (done (as_bytes value))
            (λ ciphertext. done (decrypted p (p.decrypt key nonce ciphertext (4 ∷ counter)) n)))))))

-- The handler keeps what does not depend on that number.
module _ {H : Type 0} (p : Parts H) {P : Session H → Type 0}
    (counted : (n : ℕ) (s : Session H) → P s → P (record s { recv_seq = n })) where
  sequenced-Keeps : (z : ℤ) (m : Message) → Keeps P (sequenced p z m)
  unfolding sequenced
  sequenced-Keeps (negsuc n) m = done (ok (connection_error false ∷ []))
  sequenced-Keeps (pos n) m = record {
    keeps = λ s g. elim (Bool-cases (ltb n s.recv_seq)) [
      | inl old ↦ rw (sequenced, old) g
      | inr new ↦
          rw (sequenced, new)
            ((open_data-Keeps p {P = P} n m).keeps (record s { recv_seq = n + 1 })
              (counted (n + 1) s g))
    ];
  }

  pub handle_application_data-Keeps : (m : Message) → Keeps P (handle_application_data p m)
  unfolding handle_application_data
  handle_application_data-Keeps m = record {
    keeps = λ s g. elim (Bool-cases (s.state is established)) [
      | inl ready ↦
          rw (handle_application_data, ready)
            ((let parsed : Keeps P (
                    lift (attribute "sequence_number" m) >>= λ value.
                    (lift (as_int value) >>= λ n. sequenced p n m)) =
                  bind (done (attribute "sequence_number" m))
                    (λ value. bind (done (as_int value)) (λ n. sequenced-Keeps n m)) in
                parsed).keeps
              s g)
      | inr other ↦ rw (handle_application_data, other) g
    ];
  }

module _ {H : Type 0} (p : Parts H) where
  pub sound-Stable : Stable p (λ s. sound s ≡ true)
  unfolding sound complete_handshake queue
  sound-Stable = record {
    queued = λ frame s g. ground arith;
    moved = λ t s plain g. ground arith;
    handshaken = λ h s g. ground arith;
    completed = λ k s g. ground (arith, bytes_eq_iff k.session_key k.session_key);
  }

  pub number-IsSound : (n : ℕ) (s : Session H) → IsSound s → IsSound (record s { recv_seq = n })
  unfolding sound
  number-IsSound n s g = g

  process_message-Keeps : (m : Message) → Keeps IsSound (process_message p m)
  unfolding process_message
  process_message-Keeps m =
      dispatch-Keeps p sound-Stable m.message_type m
        (λ e. handle_application_data-Keeps p number-IsSound m)

  handle_frame-IsSound :
      (frame : Bytes) (s : Session H) → IsSound s → IsSound (handle_frame p frame s).0
  unfolding handle_frame
  handle_frame-IsSound frame s g = elim (Result-cases (decode_frame p.wire frame s.hmac_key)) [
    | inl ((m, n), e) ↦ rw (handle_frame, e) ((process_message-Keeps m).keeps s g)
    | inr (x, e) ↦ rw (handle_frame, e) g
  ]

  framing_failed-IsSound :
      (events : List Event) (c : QaspConnection p)
      → IsSound c.session
      → IsSound (framing_failed p events c).connection.session
  unfolding framing_failed transition_to sound
  framing_failed-IsSound events c g = ground arith

  -- The session that a round leaves.
  left : Round p → Session H
  left (stop r) = r.connection.session
  left (again es b s) = s

  handled-IsSound :
      (events : List Event) (rest : Bytes) (x : Session H × Result (List Event))
      → IsSound x.0
      → IsSound (left (handled p events rest x))
  unfolding handled left
  handled-IsSound events rest (s, ok more) g = g
  handled-IsSound events rest (s, err e) g = elim (Bool-cases (is_framing_error e)) [
    | inl framing ↦
        rw (handled, framing)
          (framing_failed-IsSound events (record { recv_buffer = rest; session = s }) g)
    | inr other ↦ rw (handled, other) g
  ]

  round-IsSound :
      (events : List Event) (buffer : Bytes) (s : Session H)
      → IsSound s
      → IsSound (left (receive_round p events buffer s))
  unfolding receive_round left
  round-IsSound events buffer s g = elim (Head-cases (frame_head buffer)) [
    | inl e ↦ rw (receive_round, e, left) g
    | inr (inl e) ↦
        rw (receive_round, e, left)
          (framing_failed-IsSound events (record { recv_buffer = []; session = s }) g)
    | inr (inr (n, e)) ↦
        rw (receive_round, e)
          (handled-IsSound events (drop n buffer) (handle_frame p (take n buffer) s)
            (handle_frame-IsSound (take n buffer) s g))
  ]

  receive_loop-IsSound :
      (f : ℕ) (events : List Event) (buffer : Bytes) (s : Session H) (r : Received p)
      → IsSound s
      → receive_loop p f events buffer s ≡ some r
      → IsSound r.connection.session
  unfolding receive_loop left
  receive_loop-IsSound zero events buffer s r g h = cc
  receive_loop-IsSound (suc f) events buffer s r g h =
      let kept = round-IsSound events buffer s g in
      elim (Round-cases p (receive_round p events buffer s)) [
        | inl (r', e) ↦
            let same : r' ≡ r = cc (rw (receive_loop, e) at h) in rw (← same) (rw (e, left) at kept)
        | inr (es, b, t, e) ↦
            receive_loop-IsSound f es b t r (rw (e, left) at kept) (rw (receive_loop, e) at h)
      ]

  pub receive_bytes-IsSound :
      (bs : Bytes) (c : QaspConnection p) (r : Received p)
      → IsSound c.session
      → receive_bytes p bs c ≡ some r
      → IsSound r.connection.session
  unfolding receive_bytes
  receive_bytes-IsSound [] c r g h = let same : c ≡ r.connection = cc in rw (← same) g
  receive_bytes-IsSound (b ∷ bs) c r g h =
      receive_loop-IsSound (suc (length (c.recv_buffer ++ b ∷ bs))) [] (c.recv_buffer ++ b ∷ bs)
        c.session r g h
