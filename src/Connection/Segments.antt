-- ===== src/Connection/Segments.antt =====
-- How the peer's bytes are cut into calls of `receive_bytes` makes no difference.
use mathlib.Core.List.{append_assoc, append-nil}
use qasp.Prelude.{
  ℕ, zero, suc, Bytes, ◌<◌, ◌≡◌, refl, sym, ◌∙◌, ap, true, Option, none, some, List, [], ◌∷◌, ◌++◌,
  inl, inr, ◌⊎◌, length, take, drop, arith, Bool-cases, length-append,
}
use qasp.Prelude.Result.{Result, ok, err}
use qasp.Connection.{is_valid_transition, error_state}
use qasp.Connection.Session.{Session, Parts, Event, connection_error, transition_to}
use qasp.Connection.Handlers.{is_framing_error}
use qasp.Connection.Receive.{
  incomplete, frame_head, QaspConnection, Received, framing_failed, handle_frame, Round, stop,
  again, handled, receive_round, receive_loop, receive_bytes,
}
use qasp.Connection.Heads.{Head-cases, fatal_free}
use qasp.Connection.Rounds.{Round-cases, round_shorter, stop_incomplete, again-append}

lt_suc : (n : ℕ) → n < suc n
lt_suc n = omega arith

put_before : List Event → Result (List Event) → Result (List Event)
put_before es (ok more) = ok (es ++ more)
put_before es (err e) = err e

put_before_nil : (r : Result (List Event)) → put_before [] r ≡ r
unfolding put_before
put_before_nil (ok es) = refl
put_before_nil (err e) = refl

module _ {H : Type 0} (p : Parts H) where
  -- The answer does not depend on the fuel, where it exceeds the bytes.
  receive_loop_total :
      (f g : ℕ) (events : List Event) (buffer : Bytes) (s : Session H)
      → length buffer < f
      → length buffer < g
      → (r : Received p) × (receive_loop p f events buffer s ≡ some r)
        × (receive_loop p g events buffer s ≡ some r)
  unfolding receive_loop
  receive_loop_total zero g events buffer s h k = elim h [ ]
  receive_loop_total (suc f) zero events buffer s h k = elim k [ ]
  receive_loop_total (suc f) (suc g) events buffer s h k =
      elim (Round-cases p (receive_round p events buffer s)) [
        | inl (r, e) ↦ (r, rw (receive_loop, e) refl, rw (receive_loop, e) refl)
        | inr (es, b, t, e) ↦
            let less = round_shorter p events es buffer b s t e in
            let (r, e1, e2) = receive_loop_total f g es b t (omega arith) (omega arith) in
            (r, rw (receive_loop, e) e1, rw (receive_loop, e) e2)
      ]

  same_loop :
      (g k : ℕ) (events es : List Event) (buffer rest : Bytes) (s t : Session H)
      → buffer ≡ rest
      → s ≡ t
      → events ≡ es
      → length buffer < g
      → length rest < k
      → receive_loop p g events buffer s ≡ receive_loop p k es rest t
  same_loop g k events es buffer rest s t e1 e2 e3 hg hk =
      let (r, a, b) = receive_loop_total g k es rest t (rw e1 at hg) hk in
      rw (e1, e2, e3) (a ∙ sym b)

  receive_loop-append :
      (f g k : ℕ) (events es : List Event) (buffer more : Bytes) (s : Session H) (r : Received p)
      → length buffer < f
      → length (buffer ++ more) < g
      → length (r.connection.recv_buffer ++ more) < k
      → receive_loop p f events buffer s ≡ some r
      → r.answer ≡ ok es
      → fatal_free es ≡ true
      → (frame_head r.connection.recv_buffer ≡ incomplete)
        × (receive_loop p g events (buffer ++ more) s
            ≡ receive_loop p k es (r.connection.recv_buffer ++ more) r.connection.session)
  unfolding receive_loop
  receive_loop-append zero g k events es buffer more s r hf hg hk h answered calm = elim hf [ ]
  receive_loop-append (suc f) zero k events es buffer more s r hf hg hk h answered calm =
      elim hg [ ]
  receive_loop-append (suc f) (suc g) k events es buffer more s r hf hg hk h answered calm =
      elim (Round-cases p (receive_round p events buffer s)) [
        | inl (r', e) ↦
            let same : r' ≡ r = cc (rw (receive_loop, e) at h) in
            let stopped = e ∙ ap stop same in
            let (waiting, e1, e2, e3) =
              stop_incomplete p events es buffer s r stopped answered calm in
            (
              rw (← e1) waiting,
              same_loop (suc g) k events es (buffer ++ more) (r.connection.recv_buffer ++ more) s
                  r.connection.session (ap (λ b. b ++ more) e1) e2 e3 hg hk,
            )
        | inr (es', b, t, e) ↦
            let less = round_shorter p events es' buffer b s t e in
            let onward = again-append p events es' buffer more b s t e in
            let (waiting, same) =
              receive_loop-append f g k es' es b more t r (omega arith)
                (omega (arith, length-append buffer more, length-append b more)) hk
                (rw (receive_loop, e) at h) answered calm in
            (waiting, rw (receive_loop, onward) same)
      ]

  -- Earlier events in front of an answer's.
  unfoldable pub after_events : List Event → Option (Received p) → Option (Received p)
  unfolding put_before
  after_events es none = none
  after_events es (some r) = some (record r { answer = put_before es r.answer })

  round_events : List Event → Round p → Round p
  unfolding put_before
  round_events pre (stop r) = stop (record r { answer = put_before pre r.answer })
  round_events pre (again es b s) = again (pre ++ es) b s

  framing_failed-events :
      (pre events : List Event) (c : QaspConnection p)
      → stop (framing_failed p (pre ++ events) c)
        ≡ round_events pre (stop (framing_failed p events c))
  unfolding framing_failed round_events
  framing_failed-events pre events c =
      elim (Bool-cases (is_valid_transition c.session.state error_state)) [
        | inl valid ↦
            rw
              (
                transition_to,
                valid,
                put_before,
                append_assoc pre events (connection_error true ∷ []),
              )
              refl
        | inr invalid ↦ rw (transition_to, invalid, put_before) refl
      ]

  handled-events :
      (pre events : List Event) (rest : Bytes) (x : Session H × Result (List Event))
      → handled p (pre ++ events) rest x ≡ round_events pre (handled p events rest x)
  unfolding handled round_events
  handled-events pre events rest (s, ok more) = rw (append_assoc pre events more) refl
  handled-events pre events rest (s, err e) = elim (Bool-cases (is_framing_error e)) [
    | inl framing ↦
        rw (framing) (framing_failed-events pre events (record { recv_buffer = rest; session = s }))
    | inr other ↦ rw (other) refl
  ]

  receive_round-events :
      (pre events : List Event) (buffer : Bytes) (s : Session H)
      → receive_round p (pre ++ events) buffer s
        ≡ round_events pre (receive_round p events buffer s)
  unfolding receive_round round_events
  receive_round-events pre events buffer s = elim (Head-cases (frame_head buffer)) [
    | inl e ↦ rw (receive_round, e, round_events) refl
    | inr (inl e) ↦
        rw (receive_round, e)
          (framing_failed-events pre events (record { recv_buffer = []; session = s }))
    | inr (inr (n, e)) ↦
        rw (receive_round, e)
          (handled-events pre events (drop n buffer) (handle_frame p (take n buffer) s))
  ]

  receive_loop-events :
      (f : ℕ) (pre events : List Event) (buffer : Bytes) (s : Session H)
      → receive_loop p f (pre ++ events) buffer s
        ≡ after_events pre (receive_loop p f events buffer s)
  unfolding receive_loop after_events round_events
  receive_loop-events zero pre events buffer s = refl
  receive_loop-events (suc f) pre events buffer s =
      elim (Round-cases p (receive_round p events buffer s)) [
        | inl (r, e) ↦ rw (receive_loop, receive_round-events pre events buffer s, e) refl
        | inr (es, b, t, e) ↦
            rw (receive_loop, receive_round-events pre events buffer s, e)
              (receive_loop-events f pre es b t)
      ]

  loop_from_nothing :
      (f : ℕ) (es : List Event) (buffer : Bytes) (s : Session H)
      → receive_loop p f es buffer s ≡ after_events es (receive_loop p f [] buffer s)
  loop_from_nothing f es buffer s = rw (append-nil es) at (receive_loop-events f es [] buffer s)

  -- Reading ends for all bytes, with one answer for all fuel that exceeds them.
  pub receive_bytes_total :
      (f : ℕ) (bs : Bytes) (c : QaspConnection p)
      → length (c.recv_buffer ++ bs) < f
      → (r : Received p) × (receive_bytes p bs c ≡ some r)
        × ((bs ≡ []) ⊎ (receive_loop p f [] (c.recv_buffer ++ bs) c.session ≡ some r))
  unfolding receive_bytes
  receive_bytes_total f [] c h = (record { connection = c; answer = ok [] }, refl, inl refl)
  receive_bytes_total f (b ∷ bs) c h =
      let (r, e1, e2) =
        receive_loop_total f (suc (length (c.recv_buffer ++ b ∷ bs))) [] (c.recv_buffer ++ b ∷ bs)
          c.session h (omega arith) in
      (r, e2, inr e1)

  receive_bytes_cons :
      (x : ℕ) (bs : Bytes) (c : QaspConnection p)
      → receive_bytes p (x ∷ bs) c
        ≡ receive_loop p
            (suc (length (c.recv_buffer ++ x ∷ bs)))
            []
            (c.recv_buffer ++ x ∷ bs)
            c.session
  unfolding receive_bytes
  receive_bytes_cons x bs c = refl

  receive_bytes_nil :
      (c : QaspConnection p)
      → receive_bytes p [] c ≡ some (record { connection = c; answer = ok [] })
  unfolding receive_bytes
  receive_bytes_nil c = refl

  after_events_nil : (r : Option (Received p)) → r ≡ after_events [] r
  unfolding after_events
  after_events_nil none = refl
  after_events_nil (some r) = λ i. some (record r { answer = (sym (put_before_nil r.answer)) i })

  after_events_end :
      (r : Received p) (es : List Event)
      → r.answer ≡ ok es
      → some r ≡ after_events es (some (record { connection = r.connection; answer = ok [] }))
  unfolding after_events put_before
  after_events_end r es h = λ i. some (record r { answer = (h ∙ ap ok (sym (append-nil es))) i })

  -- Where the buffer holds no whole frame, and reading the first bytes tells of no fatal error, the
  -- buffer again holds no whole frame, and reading more bytes gives the state and the events that
  -- reading all in one call would have given.
  pub receive_bytes-append :
      (a b : Bytes) (c : QaspConnection p) (r : Received p) (es : List Event)
      → frame_head c.recv_buffer ≡ incomplete
      → receive_bytes p a c ≡ some r
      → r.answer ≡ ok es
      → fatal_free es ≡ true
      → (frame_head r.connection.recv_buffer ≡ incomplete)
        × (receive_bytes p (a ++ b) c ≡ after_events es (receive_bytes p b r.connection))
  receive_bytes-append [] b c r es waiting h answered calm =
      let same : record { connection = c; answer = ok [] } ≡ r = cc (receive_bytes_nil c) in
      let nothing : es ≡ [] = cc in
      let start : c ≡ r.connection = cc in
      (rw (← start) waiting, rw (nothing, ← start) (after_events_nil (receive_bytes p b c)))
  receive_bytes-append (x ∷ a) [] c r es waiting h answered calm =
      let e = rw (receive_bytes_cons x a c) at h in
      let (left, _) =
        receive_loop-append _ _ _ [] es (c.recv_buffer ++ x ∷ a) [] c.session r (omega arith)
          (lt_suc _) (lt_suc _) e answered calm in
      (left, rw (append-nil a, receive_bytes_nil r.connection) (h ∙ after_events_end r es answered))
  receive_bytes-append (x ∷ a) (y ∷ b) c r es waiting h answered calm =
      let e = rw (receive_bytes_cons x a c) at h in
      let (left, same) =
        receive_loop-append _ _ _ [] es (c.recv_buffer ++ x ∷ a) (y ∷ b) c.session r (omega arith)
          (lt_suc _) (lt_suc _) e answered calm in
      (
        left,
        rw
            (
              receive_bytes_cons y b r.connection,
              receive_bytes_cons x (a ++ y ∷ b) c,
              ← append_assoc c.recv_buffer (x ∷ a) (y ∷ b),
            )
            (same
              ∙ loop_from_nothing _ es (r.connection.recv_buffer ++ y ∷ b) r.connection.session),
      )
