-- ===== src/Connection/Calls.antt =====
-- What an application calls: the handshake's start, its time-outs, data, streams and the close.
use qasp.Prelude.{
  ℕ, String, Bytes, ◌+◌, ◌*◌, ◌/◌, ltb, Bool, true, false, not, ◌||◌, Option, none, some, List, [],
  ◌∷◌, length, if◌then◌else◌, is_nonempty,
}
use Prim.Native.Nat.{min}
use qasp.Prelude.Int.{pos}
use qasp.Prelude.Result.{ok, protocol_error, raise_if}
use qasp.Prelude.Binary.{to_bytes8}
use qasp.Platform.{int, bytes}
use qasp.Framing.{plain}
use qasp.Framing.Types.{application_data}
use qasp.Framing.Codec.{Message}
use qasp.Stream.Manager.{StreamManager}
use qasp.Stream.Manager as Manager
use qasp.Connection.{idle, hello_sent, established, closing, closed, error_state, ◌is◌}
use qasp.Connection.Session.{
  HandshakeErrorType, version_mismatch, timeout, Session, M, Parts, Event, handshake_initiated,
  handshake_failed, handshake_timeout, connection_closed, data_sent, stream_opened, stream_closed,
  stream_data_received, ◌>>=◌, ◌>>◌, return, lift, get, modify, transition_to, force_to,
}
use qasp.Connection.Handlers.{
  present, send_message, send_alert, construct_nonce, keep_handshake, alert_message,
}

module _ {H : Type 0} where
  -- What is to be sent, which is then no longer held.
  unfoldable pub bytes_to_send : Session H → Session H × Bytes
  bytes_to_send s = (record s { send_buffer = [] }, s.send_buffer)

  unfoldable pub is_closed : Session H → Bool
  is_closed s = (s.state is closed) || (s.state is error_state)

  unfoldable pub should_retry : HandshakeErrorType → Session H → Bool
  should_retry version_mismatch s = ltb s.retry_count s.config.max_retries
  should_retry timeout s = ltb s.retry_count s.config.max_retries
  should_retry _ s = false

  -- The backoff is exact here; the code multiplies in floating point.
  unfoldable pub prepare_retry : Session H → Session H
  prepare_retry s = record s {
    retry_count = s.retry_count + 1;
    current_timeout_ms =
        min (s.current_timeout_ms * s.config.backoff_up / s.config.backoff_down)
          s.config.max_timeout_ms;
  }

  unfoldable pub handle_timeout : Session H → Session H × List Event
  unfolding should_retry prepare_retry
  handle_timeout s =
      let will_retry = should_retry timeout s in
      let told = handshake_timeout s.current_timeout_ms s.retry_count will_retry in
      if will_retry
      then (prepare_retry s, told ∷ [])
      else (record s { state = error_state }, told ∷ handshake_failed ∷ [])

unfoldable pub no_manager : Option StreamManager → Bool
no_manager none = true
no_manager (some m) = false

module _ {H : Type 0} (p : Parts H) where
  unfoldable pub initiate_handshake : M H (List Event)
  unfolding send_message transition_to
  initiate_handshake = do
    s ← get
    lift (raise_if (not (s.state is idle)) protocol_error)
    lift (raise_if (not s.is_client) protocol_error)
    modify (keep_handshake p (p.create_client_hello (p.new_handshake true)).0)
    client_hello' ← lift (p.create_client_hello (p.new_handshake true)).1
    send_message p client_hello'
    transition_to hello_sent
    return (handshake_initiated true ∷ [])

  abbrev pub data_message : Bytes → ℕ → Message
  data_message ciphertext n = record {
    message_type = application_data;
    attributes =
        ("encrypted_data", plain (bytes ciphertext))
        ∷ ("sequence_number", plain (int (pos n)))
        ∷ [];
  }

  abbrev pub next_send : Session H → Session H
  next_send s = record s { send_seq = s.send_seq + 1 }

  unfoldable pub send_data : Bytes → M H (List Event)
  unfolding construct_nonce present send_message
  send_data bs = do
    s ← get
    lift (raise_if (not (s.state is established)) protocol_error)
    modify next_send
    key ← lift (present s.session_key)
    nonce ← construct_nonce p s.send_seq
    counter ← lift (to_bytes8 s.send_seq)
    ciphertext ← lift (p.encrypt key nonce bs (4 ∷ counter))
    send_message p (data_message ciphertext s.send_seq)
    return (data_sent (length bs) s.send_seq ∷ [])

  abbrev pub with_streams : StreamManager → Session H → Session H
  with_streams m s = record s { stream_manager = some m }

  -- The guards of the calls on streams, and the manager.
  unfoldable pub streams : M H StreamManager
  unfolding present no_manager
  streams = do
    s ← get
    lift (raise_if (not (s.state is established)) protocol_error)
    lift (raise_if (no_manager s.stream_manager) protocol_error)
    lift (present s.stream_manager)

  unfoldable pub open_stream : Option Bytes → M H (ℕ × List Event)
  unfolding streams Manager.open_stream
  open_stream token = do
    m ← streams
    modify (with_streams (Manager.open_stream token m).0)
    return
        ((Manager.open_stream token m).1, stream_opened (Manager.open_stream token m).1 token ∷ [])

  -- Sends what the manager has queued, as application data.
  unfoldable pub flush : StreamManager → M H (Unit {0})
  unfolding Manager.get_pending_data send_data
  flush m = do
    (m', pending) ← lift (Manager.get_pending_data m)
    modify (with_streams m')
    if is_nonempty pending then send_data pending >>= (λ told. return tt) else return tt

  unfoldable pub send_stream_data : ℕ → Bytes → Bool → M H (List Event)
  unfolding streams flush Manager.send
  send_stream_data id bs end_stream = do
    m ← streams
    m' ← lift (Manager.send id bs end_stream m)
    modify (with_streams m')
    flush m'
    return (if end_stream then stream_closed id ∷ [] else [])

  unfoldable pub close_stream : ℕ → M H (List Event)
  unfolding streams flush Manager.close_stream
  close_stream id = do
    m ← streams
    m' ← lift (Manager.close_stream id m)
    modify (with_streams m')
    flush m'
    return (stream_closed id ∷ [])

  stream_events : List Manager.Received → List Event
  stream_events [] = []
  stream_events (x ∷ xs) =
      let rest = stream_events xs in
      stream_data_received x.stream_id x.payload x.is_end
      ∷ (if x.is_end then stream_closed x.stream_id ∷ rest else rest)

  -- `none` where the loop over the bytes would run out of fuel, which it never does.
  unfoldable pub process_stream_data : Bytes → Session H → Option (Session H × List Event)
  unfolding Manager.process_received_data stream_events
  process_stream_data bs s = elim s.stream_manager [
    | none ↦ some (s, [])
    | some m ↦ elim (Manager.process_received_data bs m) [
      | none ↦ none
      | some (m', received) ↦ some (with_streams m' s, stream_events received)
    ]
  ]

  unfoldable pub close : String → M H (List Event)
  unfolding is_closed send_alert force_to alert_message
  close reason s =
      if is_closed s || (s.state is closing)
      then (s, ok [])
      else (do
        send_alert p (alert_message 1 0 reason)
        force_to closed
        return (connection_closed true ∷ []))
          s
