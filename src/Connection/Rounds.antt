-- ===== src/Connection/Rounds.antt =====
-- One round of the loop over the received bytes.
use qasp.Prelude.{
  Bytes, ◌<◌, ◌≡◌, refl, ap, true, List, ◌++◌, inl, inr, ◌⊎◌, length, take, drop, arith,
  length-drop,
}
use qasp.Prelude.Result.{Result, ok, err}
use qasp.Connection.Session.{Session, Parts, Event}
use qasp.Connection.Receive.{
  incomplete, frame_head, Received, framing_failed, handle_frame, Round, stop, again, handled,
  receive_round,
}
use qasp.Connection.Heads.{
  Head-cases, frame_head_size, frame_head-append, take-append_le, fatal_free, fatal_free-failed,
}

module _ {H : Type 0} (p : Parts H) where
  pub Round-cases :
      (r : Round p)
      → ((a : Received p) × (r ≡ stop a))
        ⊎ ((es : List Event) × (b : Bytes) × (s : Session H) × (r ≡ again es b s))
  Round-cases (stop a) = inl (a, refl)
  Round-cases (again es b s) = inr (es, b, s, refl)

  handled_shorter :
      (events es : List Event) (rest b : Bytes) (x : Session H × Result (List Event))
      (s : Session H)
      → handled p events rest x ≡ again es b s
      → b ≡ rest
  unfolding handled
  handled_shorter events es rest b (t, ok more) s h = cc
  handled_shorter events es rest b (t, err e) s h = ground arith

  -- Every round that goes on has taken a frame.
  pub round_shorter :
      (events es : List Event) (buffer b : Bytes) (s t : Session H)
      → receive_round p events buffer s ≡ again es b t
      → length b < length buffer
  unfolding receive_round
  round_shorter events es buffer b s t h = elim (Head-cases (frame_head buffer)) [
    | inl e ↦ absurd (ground arith)
    | inr (inl e) ↦ absurd (ground arith)
    | inr (inr (n, e)) ↦
        let step = rw (receive_round, e) at h in
        let same =
          handled_shorter events es (drop n buffer) b (handle_frame p (take n buffer) s) t step in
        omega (arith, frame_head_size buffer n e, length-drop n buffer, ap length same)
  ]

  -- A round that stopped without a fatal event stopped for want of bytes.
  pub stop_incomplete :
      (events es : List Event) (buffer : Bytes) (s : Session H) (r : Received p)
      → receive_round p events buffer s ≡ stop r
      → r.answer ≡ ok es
      → fatal_free es ≡ true
      → (frame_head buffer ≡ incomplete)
        × (buffer ≡ r.connection.recv_buffer)
        × (s ≡ r.connection.session)
        × (events ≡ es)
  unfolding receive_round handled framing_failed
  stop_incomplete events es buffer s r h answered calm = elim (Head-cases (frame_head buffer)) [
    | inl e ↦ (e, ground arith, ground arith, ground arith)
    | inr (inl e) ↦ absurd (ground (arith, fatal_free-failed events))
    | inr (inr (n, e)) ↦ absurd (ground (arith, fatal_free-failed events))
  ]

  handled-append :
      (events es : List Event) (rest more b : Bytes) (x : Session H × Result (List Event))
      (s : Session H)
      → handled p events rest x ≡ again es b s
      → handled p events (rest ++ more) x ≡ again es (b ++ more) s
  unfolding handled
  handled-append events es rest more b (t, ok new) s h = cc
  handled-append events es rest more b (t, err e) s h = absurd (ground arith)

  -- A round that goes on does so when more bytes follow.
  pub again-append :
      (events es : List Event) (buffer more b : Bytes) (s t : Session H)
      → receive_round p events buffer s ≡ again es b t
      → receive_round p events (buffer ++ more) s ≡ again es (b ++ more) t
  unfolding receive_round handled
  again-append events es buffer more b s t h = elim (Head-cases (frame_head buffer)) [
    | inl e ↦ absurd (ground arith)
    | inr (inl e) ↦ absurd (ground arith)
    | inr (inr (n, e)) ↦
        let (same_frame, rest) = take-append_le n buffer more (frame_head_size buffer n e).1 in
        rw (receive_round, frame_head-append buffer more n e, same_frame, rest)
          (handled-append events es (drop n buffer) more b (handle_frame p (take n buffer) s) t
            (rw (receive_round, e) at h))
  ]
