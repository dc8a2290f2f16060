-- ===== src/Connection/Life.antt =====
-- The calls, the bytes and the resets that change a connection, and what holds all along. What an
-- application does to the stream manager past the connection is not among them.
use qasp.Prelude.{
  ℕ, String, Bytes, ◌≡◌, refl, Bool, true, false, not, ◌||◌, Option, none, some, [], ◌∷◌, inl, inr,
  arith, Bool-cases, Option-cases, is_nonempty, length, if◌then◌else◌,
}
use qasp.Prelude.Result.{ok, protocol_error, raise_if}
use qasp.Prelude.Binary.{to_bytes8}
use qasp.Stream.Manager.{StreamManager}
use qasp.Stream.Manager as Manager
use qasp.Connection.{idle, hello_sent, established, closing, closed, ◌is◌}
use qasp.Connection.Session.{
  Session, HandshakeConfig, Parts, connection_closed, handshake_initiated, stream_opened, data_sent,
  stream_closed, ◌>>=◌, ◌>>◌, return, modify, force_to, new_session, reset,
}
use qasp.Connection.Handlers.{present, send_alert, alert_message}
use qasp.Connection.Receive.{QaspConnection, Received, receive_bytes}
use qasp.Connection.Calls.{
  bytes_to_send, is_closed, prepare_retry, handle_timeout, initiate_handshake, send_data, next_send,
  data_message, with_streams, streams, no_manager, open_stream, flush, send_stream_data,
  close_stream, process_stream_data, close,
}
use qasp.Connection.Keeps.{
  Keeps, bind, done, got, send_message-Keeps, send_alert-Keeps, transition_to-Keeps, force_to-Keeps,
  modify-Keeps,
}
use qasp.Connection.Sound.{
  sound, IsSound, sound-Stable, construct_nonce-Keeps, receive_bytes-IsSound,
}

module _ {H : Type 0} (p : Parts H) where
  -- The calls that change the session and nothing else.
  pub data Call : Type 0 where
    initiate time_out retry take_output : Call
    send : Bytes → Call
    open_one : Option Bytes → Call
    send_on : ℕ → Bytes → Bool → Call
    close_one : ℕ → Call
    read_streams : Bytes → Call
    close_all : String → Call

  unfoldable pub perform : Call → Session H → Session H
  perform initiate s = (initiate_handshake p s).0
  perform time_out s = (handle_timeout s).0
  perform retry s = prepare_retry s
  perform take_output s = (bytes_to_send s).0
  perform (send bs) s = (send_data p bs s).0
  perform (open_one token) s = (open_stream p token s).0
  perform (send_on id bs end_stream) s = (send_stream_data p id bs end_stream s).0
  perform (close_one id) s = (close_stream p id s).0
  perform (read_streams bs) s = elim (process_stream_data p bs s) [ none ↦ s | some (s', es) ↦ s' ]
  perform (close_all reason) s = (close p reason s).0

  -- One step: bytes that arrive, a call, or a reset.
  pub data Step : QaspConnection p → QaspConnection p → Type 0 where
    received :
        {c : QaspConnection p} {r : Received p} (bs : Bytes)
        → receive_bytes p bs c ≡ some r
        → Step c r.connection
    called :
        {c : QaspConnection p} (call : Call)
        → Step c (record c { session = perform call c.session })
    was_reset :
        {c : QaspConnection p} (random : Bytes)
        → Step c (record { recv_buffer = []; session = reset random c.session })

  -- From a new connection on.
  pub data Reachable : QaspConnection p → Type 0 where
    fresh :
        (is_client : Bool) (config : HandshakeConfig) (key : Option Bytes) (random : Bytes)
        → Reachable (record { recv_buffer = []; session = new_session is_client config key random })
    after : {c d : QaspConnection p} → Reachable c → Step c d → Reachable d

  next_send-Keeps : Keeps IsSound (modify (next_send p))
  unfolding sound
  next_send-Keeps = record { keeps = λ s g. g }

  send_data-Keeps : (bs : Bytes) → Keeps IsSound (send_data p bs)
  unfolding send_data
  send_data-Keeps bs = bind got (λ s.
      bind (done (raise_if (not (s.state is established)) protocol_error)) (λ d.
        bind next_send-Keeps (λ d. bind (done (present s.session_key)) (λ key.
          bind (construct_nonce-Keeps p s.send_seq) (λ nonce.
            bind (done (to_bytes8 s.send_seq)) (λ counter.
              bind (done (p.encrypt key nonce bs (4 ∷ counter))) (λ ciphertext.
                bind (send_message-Keeps p (sound-Stable p) (data_message p ciphertext s.send_seq))
                  (λ d. done (ok (data_sent (length bs) s.send_seq ∷ []))))))))))

  streams-Keeps : Keeps IsSound (streams p)
  unfolding streams
  streams-Keeps = bind got (λ s.
      bind (done (raise_if (not (s.state is established)) protocol_error)) (λ d.
        bind (done (raise_if (no_manager s.stream_manager) protocol_error))
          (λ d. done (present s.stream_manager))))

  with_streams-Keeps : (m : StreamManager) → Keeps IsSound (modify (with_streams p m))
  unfolding sound
  with_streams-Keeps m = record { keeps = λ s g. ground arith }

  open_stream-Keeps : (token : Option Bytes) → Keeps IsSound (open_stream p token)
  unfolding open_stream
  open_stream-Keeps token = bind streams-Keeps (λ m. bind (with_streams-Keeps _) (λ d. done (
      ok (
        (Manager.open_stream token m).1,
        stream_opened (Manager.open_stream token m).1 token ∷ [],
      ))))

  pending-Keeps :
      (bs : Bytes) (b : Bool)
      → Keeps IsSound (if b then send_data p bs >>= (λ told. return tt) else return tt)
  pending-Keeps bs true = bind (send_data-Keeps bs) (λ told. done (ok tt))
  pending-Keeps bs false = done (ok tt)

  flush-Keeps : (m : StreamManager) → Keeps IsSound (flush p m)
  unfolding flush
  flush-Keeps m =
      bind (done (Manager.get_pending_data m))
        (λ x. bind (with_streams-Keeps x.0) (λ d. pending-Keeps x.1 (is_nonempty x.1)))

  send_stream_data-Keeps :
      (id : ℕ) (bs : Bytes) (b : Bool) → Keeps IsSound (send_stream_data p id bs b)
  unfolding send_stream_data
  send_stream_data-Keeps id bs b = bind streams-Keeps (λ m.
      bind (done (Manager.send id bs b m)) (λ m'.
        bind (with_streams-Keeps m')
          (λ d. bind (flush-Keeps m') (λ d. done (ok (if b then stream_closed id ∷ [] else []))))))

  close_stream-Keeps : (id : ℕ) → Keeps IsSound (close_stream p id)
  unfolding close_stream
  close_stream-Keeps id = bind streams-Keeps (λ m. bind (done (Manager.close_stream id m)) (λ m'.
      bind (with_streams-Keeps m')
        (λ d. bind (flush-Keeps m') (λ d. done (ok (stream_closed id ∷ []))))))

  initiate_handshake-Keeps : Keeps IsSound (initiate_handshake p)
  unfolding initiate_handshake
  initiate_handshake-Keeps = bind got (λ s.
      bind (done (raise_if (not (s.state is idle)) protocol_error)) (λ d.
        bind (done (raise_if (not s.is_client) protocol_error)) (λ d.
          bind (modify-Keeps p (sound-Stable p) (p.create_client_hello (p.new_handshake true)).0)
            (λ d. bind (done (p.create_client_hello (p.new_handshake true)).1) (λ hello.
              bind (send_message-Keeps p (sound-Stable p) hello) (λ d.
                bind (transition_to-Keeps p (sound-Stable p) hello_sent refl)
                  (λ d. done (ok (handshake_initiated true ∷ [])))))))))

  close-IsSound : (reason : String) (s : Session H) → IsSound s → IsSound (close p reason s).0
  unfolding close
  close-IsSound reason s g = elim (Bool-cases (is_closed s || (s.state is closing))) [
    | inl over ↦ rw (close, over) g
    | inr live ↦
        rw (close, live)
          ((let shut : Keeps IsSound (
                  send_alert p (alert_message 1 0 reason)
                  >> (force_to closed >> return (connection_closed true ∷ []))) =
                bind (send_alert-Keeps p (sound-Stable p) (alert_message 1 0 reason)) (λ d.
                  bind (force_to-Keeps p (sound-Stable p) closed refl)
                    (λ d. done (ok (connection_closed true ∷ [])))) in
              shut).keeps
            s g)
  ]

  process_stream_data-IsSound :
      (bs : Bytes) (s : Session H) → IsSound s → IsSound (perform (read_streams bs) s)
  unfolding perform process_stream_data
  process_stream_data-IsSound bs s g = elim (Option-cases s.stream_manager) [
    | inl missing ↦ rw (perform, missing) g
    | inr (m, found) ↦ elim (Option-cases (Manager.process_received_data bs m)) [
      | inl out ↦ rw (perform, found, out) g
      | inr ((m', xs), e) ↦ rw (perform, found, e) ((with_streams-Keeps m').keeps s g)
    ]
  ]

  perform-IsSound : (call : Call) (s : Session H) → IsSound s → IsSound (perform call s)
  unfolding perform handle_timeout prepare_retry bytes_to_send sound
  perform-IsSound initiate s g = initiate_handshake-Keeps.keeps s g
  perform-IsSound time_out s g = ground arith
  perform-IsSound retry s g = g
  perform-IsSound take_output s g = g
  perform-IsSound (send bs) s g = (send_data-Keeps bs).keeps s g
  perform-IsSound (open_one token) s g = (open_stream-Keeps token).keeps s g
  perform-IsSound (send_on id bs b) s g = (send_stream_data-Keeps id bs b).keeps s g
  perform-IsSound (close_one id) s g = (close_stream-Keeps id).keeps s g
  perform-IsSound (read_streams bs) s g = process_stream_data-IsSound bs s g
  perform-IsSound (close_all reason) s g = close-IsSound reason s g

  Step-IsSound : {c d : QaspConnection p} → Step c d → IsSound c.session → IsSound d.session
  unfolding reset sound
  Step-IsSound (received bs e) g = receive_bytes-IsSound p bs _ _ g e
  Step-IsSound (called call) g = perform-IsSound call _ g
  Step-IsSound (was_reset random) g = refl

  pub Reachable-IsSound : {c : QaspConnection p} → Reachable c → IsSound c.session
  unfolding new_session sound
  Reachable-IsSound (fresh is_client config key random) = refl
  Reachable-IsSound (after r st) = Step-IsSound st (Reachable-IsSound r)
