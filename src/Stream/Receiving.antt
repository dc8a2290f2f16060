-- ===== src/Stream/Receiving.antt =====
-- The loop that reads the peer's bytes: it ends, it reads back the frames that were joined, and a
-- frame that is not whole is lost.
use qasp.Prelude.{
  ℕ, zero, suc, Bytes, ◌+◌, ◌*◌, ◌<◌, ◌≤◌, ◌≡◌, refl, true, some, List, [], ◌∷◌, ◌++◌, inl, inr,
  length, take, drop, arith, ltb, lt→ltb, Bool-cases, length-append, length-drop,
  drop-append_length, ap,
}
use qasp.Prelude.Result.{ok, Result-cases}
use qasp.Stream.{StreamFrame, serialize, deserialize}
use qasp.Stream.Frames.{
  Fits, frame_bytes, serialize_eq, length-frame_bytes, deserialize-frame_bytes, deserialize-take,
}
use qasp.Stream.Manager.{
  StreamManager, Received, join_frames, receive, receive_loop, process_received_data,
}

-- A frame that is read takes at least its header, and no more than there is.
deserialize_consumed :
    (bs : Bytes) (f : StreamFrame) (n : ℕ) → deserialize bs ≡ ok (f, n) → (9 ≤ n) × (n ≤ length bs)
unfolding deserialize
deserialize_consumed bs f n h = ground arith

receive_one : (f : StreamFrame) (m : StreamManager) → length (receive f m).1 ≤ 1
unfolding receive
receive_one f m = ground arith

-- The loop's answer is the same for all fuel that exceeds the bytes.
receive_loop_total :
    (fuel more : ℕ) (bs : Bytes) (m : StreamManager) (rs : List Received)
    → length bs < fuel
    → length bs < more
    → (r : StreamManager × List Received) × (receive_loop fuel bs m rs ≡ some r)
      × (receive_loop more bs m rs ≡ some r)
      × (9 * length r.1 ≤ 9 * length rs + length bs)
unfolding receive_loop
receive_loop_total zero more bs m rs h k = elim h [ ]
receive_loop_total (suc fuel) zero bs m rs h k = elim k [ ]
receive_loop_total (suc fuel) (suc more) bs m rs h k = elim (Bool-cases (ltb 0 (length bs))) [
  | inr empty ↦ ((m, rs), rw (receive_loop, empty) refl, rw (receive_loop, empty) refl, omega arith)
  | inl nonempty ↦ elim (Result-cases (deserialize bs)) [
    | inr (e, refused) ↦ (
      (m, rs),
      rw (receive_loop, nonempty, refused) refl,
      rw (receive_loop, nonempty, refused) refl,
      omega arith,
    )
    | inl ((f, consumed), read) ↦
        let (some_read, within) = deserialize_consumed bs f consumed read in
        let dropped = length-drop consumed bs in
        let (r, e1, e2, fewer) =
          receive_loop_total fuel more (drop consumed bs) (receive f m).0 (rs ++ (receive f m).1)
            (omega (arith)) (omega (arith)) in
        (
          r,
          rw (receive_loop, nonempty, read) e1,
          rw (receive_loop, nonempty, read) e2,
          omega (arith, length-append rs (receive f m).1, receive_one f m),
        )
  ]
]

-- Whatever bytes the peer sends, reading them ends, more fuel changes nothing, and at most one
-- message is passed on for each nine bytes.
pub process_received_data_total :
    (more : ℕ) (bs : Bytes) (m : StreamManager)
    → length bs < more
    → (r : StreamManager × List Received) × (process_received_data bs m ≡ some r)
      × (receive_loop more bs m [] ≡ some r)
      × (9 * length r.1 ≤ length bs)
unfolding process_received_data
process_received_data_total more bs m h =
    let (r, e1, e2, fewer) = receive_loop_total (suc (length bs)) more bs m [] (omega arith) h in
    (r, e1, e2, omega arith)

abbrev pub AllFit : List StreamFrame → Type 0
AllFit [] = Unit
AllFit (f ∷ fs) = Fits f × AllFit fs

joined : List StreamFrame → Bytes
joined [] = []
joined (f ∷ fs) = frame_bytes f ++ joined fs

join_frames_eq : (fs : List StreamFrame) → AllFit fs → join_frames fs ≡ ok (joined fs)
unfolding joined join_frames
join_frames_eq [] h = refl
join_frames_eq (f ∷ fs) h = rw (join_frames, serialize_eq f h.0, join_frames_eq fs h.1) refl

-- The frames handled one after the other.
unfoldable pub receive_all :
    List StreamFrame → StreamManager → List Received → StreamManager × List Received
receive_all [] m rs = (m, rs)
receive_all (f ∷ fs) m rs = receive_all fs (receive f m).0 (rs ++ (receive f m).1)

receive_loop-joined :
    (fs : List StreamFrame) (fuel : ℕ) (m : StreamManager) (rs : List Received)
    → AllFit fs
    → length (joined fs) < fuel
    → receive_loop fuel (joined fs) m rs ≡ some (receive_all fs m rs)
unfolding receive_loop receive_all joined
receive_loop-joined fs zero m rs h lt = elim lt [ ]
receive_loop-joined [] (suc fuel) m rs h lt = refl
receive_loop-joined (f ∷ fs) (suc fuel) m rs h lt =
    let size = length-frame_bytes f in
    let sum = length-append (frame_bytes f) (joined fs) in
    let nonempty : ltb 0 (length (frame_bytes f ++ joined fs)) ≡ true = lt→ltb _ _ (omega arith) in
    let rest : drop (9 + length f.payload) (frame_bytes f ++ joined fs) ≡ joined fs =
      drop-append_length (9 + length f.payload) (frame_bytes f) (joined fs) size in
    rw (receive_loop, nonempty, deserialize-frame_bytes f (joined fs) h.0, rest)
      (receive_loop-joined fs fuel (receive f m).0 (rs ++ (receive f m).1) h.1 (omega arith))

-- What `get_pending_data` joins is handled by the peer frame by frame, in the order of the queue.
pub process-join_frames :
    (fs : List StreamFrame) (bs : Bytes) (m : StreamManager)
    → AllFit fs
    → join_frames fs ≡ ok bs
    → process_received_data bs m ≡ some (receive_all fs m [])
unfolding process_received_data
process-join_frames fs bs m h e =
    let same : bs ≡ joined fs = cc (join_frames_eq fs h) in
    rw same (receive_loop-joined fs (suc (length (joined fs))) m [] h (omega arith))

-- A part of a frame is dropped without a trace, so that its other part is read as a frame's head.
pub process_part_lost :
    (f : StreamFrame) (n : ℕ) (m : StreamManager) (bs : Bytes)
    → Fits f
    → serialize f ≡ ok bs
    → n < length bs
    → process_received_data (take n bs) m ≡ some (m, [])
unfolding process_received_data receive_loop
process_part_lost f n m bs h e lt =
    let same : bs ≡ frame_bytes f = cc (serialize_eq f h) in
    let refused = deserialize-take f n h (omega (arith, length-frame_bytes f, ap length same)) in
    rw same (elim (Bool-cases (ltb 0 (length (take n (frame_bytes f))))) [
      | inl nonempty ↦ rw (receive_loop, nonempty, refused) refl
      | inr empty ↦ rw (receive_loop, empty) refl
    ])
