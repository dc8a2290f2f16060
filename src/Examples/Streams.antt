-- ===== src/Examples/Streams.antt =====
-- Two ends of a connection, a stream from one to the other, and a frame that arrives in parts.
use qasp.Prelude.{
  ℕ, Bytes, ◌<◌, ◌*◌, ◌≤◌, ◌≡◌, refl, Bool, true, false, Option, none, some, List, [], ◌∷◌, ◌++◌,
  take, length, arith,
}
use qasp.Prelude.Result.{ok}
use qasp.Stream.{StreamFrame, opened, half_closed_local, serialize}
use qasp.Stream.Frames.{Fits}
use qasp.Stream.Manager.{
  Stream, StreamManager, Received, new_manager, process_received_data, receive_loop,
  get_pending_data,
}
use qasp.Stream.Receiving.{process_received_data_total}
use qasp.Stream.Delivery.{Mirrors, send_all, delivers_in_order}

abbrev client_stream : Stream
client_stream = record { stream_id = 1; capability_token_id = none; state = opened }

-- A client that has opened stream 1, and a server that has not heard of it.
abbrev client : StreamManager
client = record {
  is_client = true;
  streams = (1, client_stream) ∷ [];
  next_stream_id = 3;
  pending_frames = [];
}

abbrev server : StreamManager
server = record { is_client = false; streams = []; next_stream_id = 2; pending_frames = [] }

abbrev two_parts : List Received
two_parts =
    record { stream_id = 1; payload = 72 ∷ 105 ∷ []; is_end = false }
    ∷ record { stream_id = 1; payload = []; is_end = true }
    ∷ []

abbrev first_frame : StreamFrame
first_frame = record { stream_id = 1; flags = 0; payload = 72 ∷ 105 ∷ [] }

abbrev last_frame : StreamFrame
last_frame = record { stream_id = 1; flags = 1; payload = [] }

abbrev first_bytes : Bytes
first_bytes = 0 ∷ 0 ∷ 0 ∷ 1 ∷ 0 ∷ 0 ∷ 0 ∷ 0 ∷ 2 ∷ 72 ∷ 105 ∷ []

abbrev last_bytes : Bytes
last_bytes = 0 ∷ 0 ∷ 0 ∷ 1 ∷ 1 ∷ 0 ∷ 0 ∷ 0 ∷ 0 ∷ []

abbrev client_done : StreamManager
client_done = record client {
  streams = (1, record client_stream { state = half_closed_local }) ∷ [];
}

abbrev client_sent : StreamManager
client_sent = record client_done { pending_frames = first_frame ∷ last_frame ∷ [] }

mirrored : Mirrors client server
unfolding qasp.Prelude.Dict.lookup
mirrored = record { drained = refl; readable = λ id h. refl }

sends_all : send_all two_parts client ≡ ok client_sent
unfolding send_all qasp.Stream.Manager.send qasp.Prelude.Dict.lookup qasp.Prelude.Dict.insert
sends_all = refl

writes_all : get_pending_data client_sent ≡ ok (client_done, first_bytes ++ last_bytes)
unfolding get_pending_data serialize qasp.Prelude.Binary.to_bytes4 qasp.Prelude.Binary.to_byte
    qasp.Prelude.Binary.be4
writes_all = refl

delivers_in_order_example :
    (peer' : StreamManager) × (process_received_data (first_bytes ++ last_bytes) server
      ≡ some (peer', two_parts))
    × Mirrors client_done peer'
delivers_in_order_example =
    delivers_in_order two_parts client client_sent client_done server (first_bytes ++ last_bytes)
      mirrored sends_all writes_all

process_received_data_total_example :
    (r : StreamManager × List Received) × (process_received_data first_bytes server ≡ some r)
    × (receive_loop 100 first_bytes server [] ≡ some r)
    × (9 * length r.1 ≤ length first_bytes)
process_received_data_total_example =
    process_received_data_total 100 first_bytes server (omega arith)

first_Fits : Fits first_frame
first_Fits = omega arith

first_written : serialize first_frame ≡ ok first_bytes
unfolding serialize qasp.Prelude.Binary.to_bytes4 qasp.Prelude.Binary.to_byte
    qasp.Prelude.Binary.be4
first_written = refl
