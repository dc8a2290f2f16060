-- ===== src/Stream/Manager.antt =====
-- `StreamManager`: it numbers the streams, queues what is sent, and reads what the peer has sent.
use qasp.Prelude.{
  ℕ, zero, suc, Bytes, ◌+◌, ltb, Bool, true, false, not, Option, none, some, List, [], ◌∷◌, ◌++◌,
  length, drop, if◌then◌else◌,
}
use qasp.Prelude.Result.{Result, ok, err, ◌>>=◌, ◌>>◌, raise_if, value_error}
use qasp.Prelude.Dict.{nat_Eq, Dict, lookup, insert}
use qasp.Stream.{
  StreamFrame, StreamState, opened, half_closed_local, half_closed_remote, closed, serialize,
  deserialize, is_end_stream,
}

pub record Stream : Type 0 where
  pub stream_id : ℕ
  pub capability_token_id : Option Bytes
  pub state : StreamState

abbrev pub open_to_send : StreamState → Bool
open_to_send opened = true
open_to_send half_closed_local = false
open_to_send half_closed_remote = true
open_to_send closed = false

abbrev pub open_to_read : StreamState → Bool
open_to_read opened = true
open_to_read half_closed_local = true
open_to_read half_closed_remote = false
open_to_read closed = false

unfoldable pub is_open : Stream → Bool
is_open s = open_to_send s.state

unfoldable pub is_readable : Stream → Bool
is_readable s = open_to_read s.state

-- The connection is only kept, never used.
pub record StreamManager : Type 0 where
  pub is_client : Bool
  pub streams : Dict ℕ Stream
  pub next_stream_id : ℕ
  pub pending_frames : List StreamFrame

unfoldable pub new_manager : Bool → StreamManager
new_manager is_client = record {
  is_client = is_client;
  streams = [];
  next_stream_id = if is_client then 1 else 2;
  pending_frames = [];
}

unfoldable pub open_stream : Option Bytes → StreamManager → StreamManager × ℕ
open_stream token m =
    let stream : Stream = record {
      stream_id = m.next_stream_id;
      capability_token_id = token;
      state = opened;
    } in
    (
      record m {
        streams = insert m.next_stream_id stream m.streams;
        next_stream_id = m.next_stream_id + 2;
      },
      m.next_stream_id,
    )

unfoldable pub get_stream : ℕ → StreamManager → Option Stream
get_stream id m = lookup id m.streams

-- The state of a stream whose last frame has been sent, or received.
abbrev pub after_end_sent : StreamState → StreamState
after_end_sent opened = half_closed_local
after_end_sent half_closed_local = half_closed_local
after_end_sent half_closed_remote = closed
after_end_sent closed = closed

abbrev pub after_end_received : StreamState → StreamState
after_end_received opened = half_closed_remote
after_end_received half_closed_local = closed
after_end_received half_closed_remote = half_closed_remote
after_end_received closed = closed

unfoldable pub sent : ℕ → Bytes → Bool → Stream → StreamManager → StreamManager
sent id bs end_stream stream m =
    let frame : StreamFrame = record {
      stream_id = id;
      flags = if end_stream then 1 else 0;
      payload = bs;
    } in
    record m {
      pending_frames = m.pending_frames ++ frame ∷ [];
      streams =
          if end_stream
          then insert id (record stream { state = after_end_sent stream.state }) m.streams
          else m.streams;
    }

unfoldable pub send : ℕ → Bytes → Bool → StreamManager → Result StreamManager
unfolding sent is_open
send id bs end_stream m = elim (lookup id m.streams) [
  | none ↦ err value_error
  | some stream ↦ raise_if (not (is_open stream)) value_error >> ok (sent id bs end_stream stream m)
]

unfoldable pub close_stream : ℕ → StreamManager → Result StreamManager
unfolding send is_open
close_stream id m = elim (lookup id m.streams) [
  | none ↦ err value_error
  | some stream ↦ if is_open stream then send id [] true m else ok m
]

unfoldable pub join_frames : List StreamFrame → Result Bytes
join_frames [] = ok []
join_frames (f ∷ fs) = do first ← serialize f; rest ← join_frames fs; ok (first ++ rest)

unfoldable pub get_pending_data : StreamManager → Result (StreamManager × Bytes)
unfolding join_frames
get_pending_data m = do bs ← join_frames m.pending_frames; ok (record m { pending_frames = [] }, bs)

-- What the peer sent: the stream, the payload, and whether it was the last of the stream.
pub record Received : Type 0 where
  pub stream_id : ℕ
  pub payload : Bytes
  pub is_end : Bool

-- The manager with the peer's stream, made when its first frame arrives.
unfoldable pub peer_stream : ℕ → StreamManager → Stream
peer_stream id m = elim (lookup id m.streams) [
  | none ↦ record { stream_id = id; capability_token_id = none; state = opened }
  | some stream ↦ stream
]

-- The body of the loop, for a frame that was read.
unfoldable pub receive : StreamFrame → StreamManager → StreamManager × List Received
unfolding peer_stream is_readable is_end_stream
receive f m =
    let is_end = is_end_stream f.flags in
    let stream = peer_stream f.stream_id m in
    let streams = insert f.stream_id stream m.streams in
    if is_readable stream
    then (
      record m {
        streams =
            if is_end
            then insert f.stream_id (record stream { state = after_end_received stream.state })
                streams
            else streams;
      },
      record { stream_id = f.stream_id; payload = f.payload; is_end = is_end } ∷ [],
    )
    else (record m { streams = streams }, [])

-- The loop over the bytes from the offset on; `none` means that the fuel ran out. A ValueError
-- ends it.
unfoldable pub receive_loop :
    ℕ → Bytes → StreamManager → List Received → Option (StreamManager × List Received)
receive_loop zero bs m results = none
receive_loop (suc fuel) bs m results = elim (ltb 0 (length bs)) [
  | false ↦ some (m, results)
  | true ↦ elim (deserialize bs) [
    | err e ↦ some (m, results)
    | ok (f, consumed) ↦
        receive_loop fuel (drop consumed bs) (receive f m).0 (results ++ (receive f m).1)
  ]
]

unfoldable pub process_received_data :
    Bytes → StreamManager → Option (StreamManager × List Received)
unfolding receive_loop
process_received_data bs m = receive_loop (suc (length bs)) bs m []

active_in : Dict ℕ Stream → List ℕ
active_in [] = []
active_in ((id, s) ∷ d) = let rest = active_in d in elim s.state [ closed ↦ rest | _ ↦ id ∷ rest ]

unfoldable pub active_streams : StreamManager → List ℕ
unfolding active_in
active_streams m = active_in m.streams

unfoldable pub stream_count : StreamManager → ℕ
stream_count m = length m.streams
