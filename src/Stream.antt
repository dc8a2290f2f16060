-- ===== src/Stream.antt =====
-- protocol/stream.py: the frames of multiplexed streams. Its children have the manager of the
-- streams of one connection and what the two ends of a connection do together.
pub mod Frames
pub mod Manager
pub mod Receiving
pub mod Delivery
use qasp.Prelude.{
  ℕ, Bytes, ◌+◌, ◌%◌, ◌==◌, ltb, Bool, true, false, List, [], ◌∷◌, ◌++◌, length, get_or, take, drop,
}
use qasp.Prelude.Result.{Result, ok, ◌>>=◌, ◌>>◌, raise_if, value_error}
use qasp.Prelude.Binary.{to_bytes4, to_byte, from_bytes}

-- STREAM_FRAME_HEADER_SIZE
abbrev pub header_size : ℕ
header_size = 9

-- `flags` is an IntFlag, of which only END_STREAM = 1 is ever asked for.
pub record StreamFrame : Type 0 where
  pub stream_id : ℕ
  pub flags : ℕ
  pub payload : Bytes

unfoldable pub serialize : StreamFrame → Result Bytes
serialize f = do
  id ← to_bytes4 f.stream_id
  flag ← to_byte f.flags
  size ← to_bytes4 (length f.payload)
  ok (id ++ (flag ++ (size ++ f.payload)))

-- The frame at the head of the bytes, and how many of them it takes.
unfoldable pub deserialize : Bytes → Result (StreamFrame × ℕ)
unfolding from_bytes
deserialize bs =
    let payload_length = from_bytes (take 4 (drop 5 bs)) in
    let total_length = header_size + payload_length in
    raise_if (ltb (length bs) header_size) value_error
    >> (raise_if (ltb (length bs) total_length) value_error
        >> ok (
          record {
            stream_id = from_bytes (take 4 bs);
            flags = get_or bs 4 0;
            payload = take payload_length (drop 9 bs);
          },
          total_length,
        ))

-- StreamState
pub data StreamState : Type 0 where
  opened half_closed_local half_closed_remote closed : StreamState

unfoldable pub is_end_stream : ℕ → Bool
is_end_stream flags = flags % 2 == 1
