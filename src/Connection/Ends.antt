-- ===== src/Connection/Ends.antt =====
-- What a reachable connection can count on.
use qasp.Prelude.{
  String, Bytes, ◌<◌, ◌≡◌, refl, ap, true, false, ◌||◌, some, List, [], ◌∷◌, ◌++◌, inl, inr, ◌⊎◌,
  arith, Bool-cases, Option-cases, length, bytes_eq_iff, lt→ltb,
}
use qasp.Prelude.Result.{Result, ok, Result-cases}
use qasp.Prelude.Binary.{to_byte}
use qasp.Framing.Codec.{Message, encode, encode_frame, header_bytes}
use qasp.Stream.Manager.{StreamManager}
use qasp.Connection.{established, closing, closed, ◌is◌}
use qasp.Connection.Session.{
  Session, M, Parts, Event, connection_closed, queue, force_to, ◌>>=◌, ◌>>◌, return,
}
use qasp.Connection.Handlers.{send_message, send_alert, alert_message}
use qasp.Connection.Receive.{QaspConnection}
use qasp.Connection.Calls.{is_closed, close}
use qasp.Connection.Sound.{sound, IsSound, ready, key_is, is_some}
use qasp.Connection.Life.{Reachable, Reachable-IsSound}

module _ {H : Type 0} (p : Parts H) where
  -- What an established session holds: one key, as the session's and for the tags of frames, the
  -- start of the nonces, and the streams.
  pub record IsKeyed (s : Session H) : Type 0 where
    pub key : Bytes
    pub iv : Bytes
    pub manager : StreamManager
    pub session_key_set : s.session_key ≡ some key
    pub hmac_key_set : s.hmac_key ≡ key
    pub nonce_iv_set : s.nonce_iv ≡ some iv
    pub manager_set : s.stream_manager ≡ some manager

  sound-IsKeyed : (s : Session H) → IsSound s → (s.state is established) ≡ true → IsKeyed s
  unfolding sound ready key_is is_some
  sound-IsKeyed s g e = elim (Option-cases s.session_key) [
    | inl k ↦ absurd (ground arith)
    | inr (key, k) ↦ elim (Option-cases s.nonce_iv) [
      | inl n ↦ absurd (ground arith)
      | inr (iv, n) ↦ elim (Option-cases s.stream_manager) [
        | inl m ↦ absurd (ground arith)
        | inr (manager, m) ↦ record {
          key = key;
          iv = iv;
          manager = manager;
          session_key_set = k;
          hmac_key_set = ground (arith, bytes_eq_iff s.hmac_key key);
          nonce_iv_set = n;
          manager_set = m;
        }
      ]
    ]
  ]

  -- Whatever bytes arrive and whatever method of the connection is called, from a new connection on:
  -- an established connection has a session key, tags its frames with that key, and has its nonces' start and its streams.
  pub established-IsKeyed :
      (c : QaspConnection p)
      → Reachable p c
      → (c.session.state is established) ≡ true
      → IsKeyed c.session
  established-IsKeyed c r e = sound-IsKeyed c.session (Reachable-IsSound p r) e

  encodes :
      (m : Message) (key : Bytes)
      → length (encode p.wire m) < 4294967296
      → (frame : Bytes) × (encode_frame p.wire m key ≡ ok frame)
  unfolding encode_frame header_bytes to_byte
  encodes m key fits = elim (Result-cases (encode_frame p.wire m key)) [
    | inl good ↦ good
    | inr (x, e) ↦ let never = rw (encode_frame, header_bytes, lt→ltb _ _ fits) at e in cc
  ]

  send_message_eq :
      (m : Message) (s : Session H) (frame : Bytes)
      → encode_frame p.wire m s.hmac_key ≡ ok frame
      → send_message p m s ≡ (queue frame s, ok tt)
  unfolding send_message
  send_message_eq m s frame e = ground (arith, e)

  send_alert_eq :
      (m : Message) (s : Session H) (frame : Bytes)
      → encode_frame p.wire m s.hmac_key ≡ ok frame
      → send_alert p m s ≡ (queue frame s, ok tt)
  unfolding send_alert
  send_alert_eq m s frame e =
      rw (send_alert, send_message_eq m s frame e) (send_message_eq m s frame e)

  forced :
      (m : M H (Unit {0})) (s t : Session H) (es : List Event)
      → m s ≡ (t, ok tt)
      → (m >> (force_to closed >> return es)) s ≡ (record t { state = closed }, ok es)
  unfolding force_to
  forced m s t es h =
      rw (◌>>=◌, h)
        (ap (λ (x : Session H × Result (Unit {0})). (record x.0 { state = closed }, ok es)) h)

  not_closing : (s : Session H) → IsSound s → (s.state is closing) ≡ false
  unfolding sound ready
  not_closing s g = ground arith

  over_closed :
      (s : Session H)
      → IsSound s
      → (is_closed s || (s.state is closing)) ≡ true
      → is_closed s ≡ true
  over_closed s g over = let never = not_closing s g in ground arith

  -- On every reachable connection, provided that the alert is shorter than 4 GiB: `close` does
  -- nothing where the connection is CLOSED or in ERROR; in every other state it queues the alert as a
  -- frame, leaves the connection CLOSED, changes nothing else, and tells of a graceful close.
  pub close-closes :
      (c : QaspConnection p) (reason : String)
      → Reachable p c
      → length (encode p.wire (alert_message 1 0 reason)) < 4294967296
      → ((is_closed c.session ≡ true) × (close p reason c.session ≡ (c.session, ok [])))
        ⊎ ((is_closed c.session ≡ false)
            × (frame : Bytes) × (encode_frame p.wire (alert_message 1 0 reason) c.session.hmac_key
                ≡ ok frame)
            × (close p reason c.session ≡ (
              record c.session { send_buffer = c.session.send_buffer ++ frame; state = closed },
              ok (connection_closed true ∷ []),
            )))
  unfolding close queue
  close-closes c reason r fits =
      elim (Bool-cases (is_closed c.session || (c.session.state is closing))) [
        | inl over ↦ inl (over_closed c.session (Reachable-IsSound p r) over, rw (close, over) refl)
        | inr live ↦
            let m = alert_message 1 0 reason in
            let (frame, e) = encodes m c.session.hmac_key fits in
            let told = connection_closed true ∷ [] in
            inr (
              ground arith,
              frame,
              e,
              rw (close, live)
                  (forced (send_alert p m) c.session (queue frame c.session) told
                    (send_alert_eq m c.session frame e)),
            )
      ]
