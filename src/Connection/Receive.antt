-- ===== src/Connection/Receive.antt =====
-- `receive_bytes`: frames are cut out of the received bytes and handled.
use qasp.Prelude.{
  ℕ, zero, suc, Bytes, ◌+◌, ltb, true, Option, none, some, List, [], ◌∷◌, ◌++◌, length, take, drop,
  if◌then◌else◌, is_nonempty,
}
use qasp.Prelude.Result.{Result, ok, err}
use qasp.Framing.Codec.{parse_header, decode_frame, header_size, hmac_size}
use qasp.Connection.{error_state}
use qasp.Connection.Session.{Session, Parts, Event, connection_error, transition_to}
use qasp.Connection.Handlers.{is_framing_error, process_message}

-- What stands at the head of the buffer.
pub data Head : Type 0 where
  incomplete bad_header : Head
  whole : ℕ → Head

unfoldable pub frame_head : Bytes → Head
frame_head buffer =
    if ltb (length buffer) header_size then incomplete else elim (parse_header buffer) [
      | err e ↦ bad_header
      | ok header ↦
          let frame_size = header_size + header.payload_length + hmac_size in
          if ltb (length buffer) frame_size then incomplete else whole frame_size
    ]

module _ {H : Type 0} (p : Parts H) where
  -- A connection: the received bytes that are not yet read, and the session.
  pub record QaspConnection : Type 0 where
    pub recv_buffer : Bytes
    pub session : Session H

  -- What a call of `receive_bytes` leaves and answers.
  pub record Received : Type 0 where
    pub connection : QaspConnection
    pub answer : Result (List Event)

  -- A framing error: one more event, and the transition to ERROR, which may raise.
  unfoldable pub framing_failed : List Event → QaspConnection → Received
  unfolding transition_to
  framing_failed events c =
      let (s, moved) = transition_to error_state c.session in
      record {
        connection = record c { session = s };
        answer = elim moved [ ok done ↦ ok (events ++ connection_error true ∷ []) | err e ↦ err e ];
      }

  -- The frame of that many bytes, decoded and handled under `try`.
  unfoldable pub handle_frame : Bytes → Session H → Session H × Result (List Event)
  unfolding process_message decode_frame
  handle_frame frame s = elim (decode_frame p.wire frame s.hmac_key) [
    | err e ↦ (s, err e)
    | ok (m, n) ↦ process_message p m s
  ]

  -- One round of the loop: it stops with an answer, or goes on with the events so far, the bytes
  -- that are left and the session.
  pub data Round : Type 0 where
    stop : Received → Round
    again : List Event → Bytes → Session H → Round

  -- After the frame was handled.
  unfoldable pub handled : List Event → Bytes → Session H × Result (List Event) → Round
  unfolding framing_failed
  handled events rest (s, ok more) = again (events ++ more) rest s
  handled events rest (s, err e) =
      let c : QaspConnection = record { recv_buffer = rest; session = s } in
      if is_framing_error e
      then stop (framing_failed events c)
      else stop (record { connection = c; answer = err e })

  unfoldable pub receive_round : List Event → Bytes → Session H → Round
  unfolding handled handle_frame framing_failed
  receive_round events buffer s = elim (frame_head buffer) [
    | incomplete ↦
        stop
          (record { connection = record { recv_buffer = buffer; session = s }; answer = ok events })
    | bad_header ↦ stop (framing_failed events (record { recv_buffer = []; session = s }))
    | whole frame_size ↦
        handled events (drop frame_size buffer) (handle_frame (take frame_size buffer) s)
  ]

  -- `none` means that the fuel ran out.
  unfoldable pub receive_loop : ℕ → List Event → Bytes → Session H → Option Received
  unfolding receive_round
  receive_loop zero events buffer s = none
  receive_loop (suc fuel) events buffer s = elim (receive_round events buffer s) [
    | stop r ↦ some r
    | again es rest s' ↦ receive_loop fuel es rest s'
  ]

  unfoldable pub receive_bytes : Bytes → QaspConnection → Option Received
  unfolding receive_loop
  receive_bytes bs c =
      let buffer = c.recv_buffer ++ bs in
      if is_nonempty bs
      then receive_loop (suc (length buffer)) [] buffer c.session
      else some (record { connection = c; answer = ok [] })
