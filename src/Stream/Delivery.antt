-- ===== src/Stream/Delivery.antt =====
-- The two ends of a connection together: what one manager sends, the other passes on.
use mathlib.Core.List.{append-nil, append_assoc}
use qasp.Prelude.{
  ap, sym, ◌∙◌, ℕ, Bytes, ◌≡◌, Bool, true, false, ◌&&◌, ◌==◌, none, some, List, [], ◌∷◌, ◌++◌, map,
  inl, inr, arith, if◌then◌else◌, Bool-cases, Option-cases,
}
use qasp.Prelude.Result.{Result, ok, ◌>>=◌, Result-cases}
use qasp.Prelude.Binary.{to_bytes4, to_byte}
use qasp.Prelude.Dict.{nat_Eq, lookup, insert, lookup-insert}
use qasp.Stream.{StreamFrame, serialize, opened, half_closed_remote}
use qasp.Stream.Frames.{Fits}
use qasp.Stream.Manager.{
  Stream, StreamManager, Received, join_frames, receive, send, get_pending_data,
  process_received_data, open_to_send, open_to_read, after_end_sent, after_end_received,
}
use qasp.Stream.Receiving.{AllFit, receive_all, process-join_frames}

-- Several calls of `send`.
unfoldable pub send_all : List Received → StreamManager → Result StreamManager
send_all [] m = ok m
send_all (x ∷ xs) m = do m' ← send x.stream_id x.payload x.is_end m; send_all xs m'

-- A stream that this end may send on, and one that it would read from.
abbrev pub open_at : StreamManager → ℕ → Bool
open_at m id = elim (lookup id m.streams) [ none ↦ false | some s ↦ open_to_send s.state ]

abbrev pub readable_at : StreamManager → ℕ → Bool
readable_at m id = elim (lookup id m.streams) [ none ↦ true | some s ↦ open_to_read s.state ]

-- Between two exchanges: nothing waits to be sent, and the peer reads whatever may be sent.
pub record Mirrors (m peer : StreamManager) : Type 0 where
  pub drained : m.pending_frames ≡ []
  pub readable : (id : ℕ) → open_at m id ≡ true → readable_at peer id ≡ true

frame_of : Received → StreamFrame
frame_of x = record {
  stream_id = x.stream_id;
  flags = if x.is_end then 1 else 0;
  payload = x.payload;
}

send_lem :
    (x : Received) (m m' : StreamManager) (j : ℕ)
    → send x.stream_id x.payload x.is_end m ≡ ok m'
    → (open_at m x.stream_id ≡ true)
      × (m'.pending_frames ≡ m.pending_frames ++ frame_of x ∷ [])
      × (open_at m' j ≡ (if x.is_end && (x.stream_id == j) then false else open_at m j))
unfolding send frame_of
send_lem x m m' j h = elim (Option-cases (lookup x.stream_id m.streams)) [
  | inl missing ↦ ground arith
  | inr (s, found) ↦
      ground
        (arith, lookup-insert x.stream_id j (record s { state = after_end_sent s.state }) m.streams)
]

receive_lem :
    (x : Received) (r : StreamManager) (j : ℕ)
    → readable_at r x.stream_id ≡ true
    → ((receive (frame_of x) r).1 ≡ x ∷ [])
      × (readable_at (receive (frame_of x) r).0 j
          ≡ (if x.is_end && (x.stream_id == j) then false else readable_at r j))
unfolding receive frame_of
receive_lem x r j h = elim (Option-cases (lookup x.stream_id r.streams)) [
  | inl missing ↦
      let s : Stream = record {
        stream_id = x.stream_id;
        capability_token_id = none;
        state = opened;
      } in
      ground (
        arith,
        lookup-insert x.stream_id j s r.streams,
        lookup-insert x.stream_id j (record s { state = half_closed_remote })
            (insert x.stream_id s r.streams),
      )
  | inr (s, found) ↦ ground (
    arith,
    lookup-insert x.stream_id j s r.streams,
    lookup-insert x.stream_id j (record s { state = after_end_received s.state })
        (insert x.stream_id s r.streams),
  )
]

serialize-Fits : (f : StreamFrame) (bs : Bytes) → serialize f ≡ ok bs → Fits f
unfolding serialize to_bytes4 to_byte
serialize-Fits f bs h = ground arith

abbrev Readable : StreamManager → StreamManager → Type 0
Readable m peer = (id : ℕ) → open_at m id ≡ true → readable_at peer id ≡ true

Readable-step :
    (x : Received) (m m' r : StreamManager)
    → Readable m r
    → send x.stream_id x.payload x.is_end m ≡ ok m'
    → Readable m' (receive (frame_of x) r).0
Readable-step x m m' r h e id is_open =
    let (allowed, queued, still) = send_lem x m m' id e in
    let (told, after) = receive_lem x r id (h x.stream_id allowed) in
    elim (Bool-cases (x.is_end && (x.stream_id == id))) [
      | inl gone ↦ let no_more = rw gone at still in cc
      | inr kept ↦ (rw kept at after) ∙ h id (sym (rw kept at still) ∙ is_open)
    ]

eq-Readable : (m n r : StreamManager) → m ≡ n → Readable m r → Readable n r
eq-Readable m n r same h id is_open = h id (rw same is_open)

-- What is queued, and what the peer makes of it.
exchange :
    (xs : List Received) (m m' r : StreamManager) (rs : List Received)
    → Readable m r
    → send_all xs m ≡ ok m'
    → (m'.pending_frames ≡ m.pending_frames ++ map frame_of xs)
      × ((receive_all (map frame_of xs) r rs).1 ≡ rs ++ xs)
      × Readable m' (receive_all (map frame_of xs) r rs).0
unfolding send_all receive_all
exchange [] m m' r rs h e =
    let same : m ≡ m' = cc in
    (
      ap (λ n. n.pending_frames) (sym same) ∙ sym (append-nil m.pending_frames),
      sym (append-nil rs),
      eq-Readable m m' r same h,
    )
exchange (x ∷ xs) m m' r rs h e = elim (Result-cases (send x.stream_id x.payload x.is_end m)) [
  | inr (c, refused) ↦ cc
  | inl (n, sent) ↦
      let (queued, passed, mirrored) =
        exchange xs n m' (receive (frame_of x) r).0 (rs ++ (receive (frame_of x) r).1)
          (Readable-step x m n r h sent) (rw sent at e) in
      let (allowed, first, _) = send_lem x m n 0 sent in
      let told = (receive_lem x r 0 (h x.stream_id allowed)).0 in
      (
        queued ∙ rw first (append_assoc m.pending_frames (frame_of x ∷ []) (map frame_of xs)),
        passed ∙ rw told (append_assoc rs (x ∷ []) xs),
        mirrored,
      )
]

join_frames-AllFit : (fs : List StreamFrame) (bs : Bytes) → join_frames fs ≡ ok bs → AllFit fs
unfolding join_frames
join_frames-AllFit [] bs h = tt
join_frames-AllFit (f ∷ fs) bs h = elim (Result-cases (serialize f)) [
  | inr (e, refused) ↦ cc
  | inl (b, first) ↦ elim (Result-cases (join_frames fs)) [
    | inr (e, refused) ↦ absurd (ground arith)
    | inl (rest, others) ↦ (serialize-Fits f b first, join_frames-AllFit fs rest others)
  ]
]

-- Whatever one end manages to send, in any order over its streams, the peer that reads the pending
-- bytes passes on: the same payloads, with the same stream and end marks, once and in that order.
-- Afterwards nothing is pending, and the peer reads again whatever may be sent.
pub delivers_in_order :
    (xs : List Received) (m sent drained peer : StreamManager) (bs : Bytes)
    → Mirrors m peer
    → send_all xs m ≡ ok sent
    → get_pending_data sent ≡ ok (drained, bs)
    → (peer' : StreamManager) × (process_received_data bs peer ≡ some (peer', xs))
      × Mirrors drained peer'
unfolding get_pending_data
delivers_in_order xs m sent drained peer bs h e p =
    let (queued, passed, readable) = exchange xs m sent peer [] h.readable e in
    elim (Result-cases (join_frames sent.pending_frames)) [
      | inr (x, refused) ↦ absurd (ground arith)
      | inl (b, written) ↦
          let fs : sent.pending_frames ≡ map frame_of xs = rw (h.drained) at queued in
          let answer = rw (get_pending_data, written) at p in
          let same : b ≡ bs = cc in
          let streams : sent.streams ≡ drained.streams = cc in
          let emptied : [] ≡ drained.pending_frames = cc in
          let fit = join_frames-AllFit sent.pending_frames b written in
          let handled = process-join_frames sent.pending_frames b peer fit written in
          let peer' = (receive_all (map frame_of xs) peer []).0 in
          let all_read : process_received_data b peer ≡ some (peer', xs) =
            (rw fs at handled) ∙ (λ i. some (peer', passed i)) in
          (
            peer',
            rw (← same) all_read,
            record {
              drained = sym emptied;
              readable = λ id is_open. readable id (rw streams is_open);
            },
          )
    ]
