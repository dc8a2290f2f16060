-- ===== src/Connection/Keeps.antt =====
-- What a predicate on sessions needs, so that every handler of the handshake and of alerts keeps it.
use qasp.Prelude.{
  Bytes, ◌≡◌, refl, Bool, true, false, not, ◌&&◌, Option, none, some, List, [], ◌∷◌, inl, inr,
  Bool-cases, if◌then◌else◌,
}
use qasp.Prelude.Result.{Result, err, ok, Result-cases}
use qasp.Framing.Types.{
  MessageType, client_hello, server_hello, client_auth, application_data, alert,
}
use qasp.Framing.Codec.{Message, encode_frame}
use qasp.Connection.{
  ConnectionState, idle, hello_sent, hello_received, authenticated, established, closing,
  error_state, ◌is◌, is_valid_transition,
}
use qasp.Connection.Session.{
  Session, M, Parts, HandshakeKeys, HandshakeFailure, Outcome, returns, fails, raises, Event,
  handshake_failed, handshake_initiated, connection_closed, alert_received, ◌>>=◌, lift, get,
  modify, transition_to, force_to, queue,
}
use qasp.Connection.Handlers.{
  send_message, send_alert, is_framing_error, keep_handshake, handle_handshake_failure,
  complete_handshake, answer_client_hello, handle_client_hello, finish, answer_server_hello,
  handle_server_hello, authenticate, handle_client_auth, handle_application_data, handle_alert,
  dispatch, alerted, attribute, is_fatal_level,
}

-- The states that a session is moved to in one step.
abbrev pub is_plain : ConnectionState → Bool
is_plain s = not (s is established) && not (s is closing)

module _ {H : Type 0} where
  pub record Keeps {A : Type 0} (P : Session H → Type 0) (m : M H A) : Type 0 where
    pub keeps : (s : Session H) → P s → P (m s).0

  bind_keeps :
      {A B : Type 0} (P : Session H → Type 0) (m : M H A) (f : A → M H B) (s : Session H)
      → P (m s).0
      → ((a : A) → P (f a (m s).0).0)
      → P ((m >>= f) s).0
  bind_keeps P m f s h k = elim (Result-cases (m s).1) [
    | inl (a, e) ↦ rw (◌>>=◌, e) (k a)
    | inr (x, e) ↦ rw (◌>>=◌, e) h
  ]

  pub bind :
      {A B : Type 0} {P : Session H → Type 0} {m : M H A} {f : A → M H B}
      → Keeps P m
      → ((a : A) → Keeps P (f a))
      → Keeps P (m >>= f)
  bind {P = P} {m = m} {f = f} h k = record {
    keeps = λ s g. bind_keeps P m f s (h.keeps s g) (λ a. (k a).keeps _ (h.keeps s g));
  }

  pub done : {A : Type 0} {P : Session H → Type 0} (r : Result A) → Keeps P (lift r)
  done r = record { keeps = λ s g. g }

  pub got : {P : Session H → Type 0} → Keeps P get
  got = record { keeps = λ s g. g }

module _ {H : Type 0} (p : Parts H) where
  pub record Stable (P : Session H → Type 0) : Type 0 where
    pub queued : (frame : Bytes) (s : Session H) → P s → P (queue frame s)
    pub moved :
        (t : ConnectionState) (s : Session H) → is_plain t ≡ true → P s → P (record s { state = t })
    pub handshaken : (h : H) (s : Session H) → P s → P (keep_handshake p h s)
    pub completed : (k : HandshakeKeys) (s : Session H) → P s → P (complete_handshake p k s).0

  module _ {P : Session H → Type 0} (st : Stable P) where
    pub transition_to-Keeps :
        (t : ConnectionState) → is_plain t ≡ true → Keeps P (transition_to {H = H} t)
    unfolding transition_to
    transition_to-Keeps t h = record {
      keeps = λ s g. elim (Bool-cases (is_valid_transition s.state t)) [
        | inl valid ↦ rw (transition_to, valid) (st.moved t s h g)
        | inr invalid ↦ rw (transition_to, invalid) g
      ];
    }

    pub send_message-Keeps : (m : Message) → Keeps P (send_message p m)
    unfolding send_message
    send_message-Keeps m = record {
      keeps = λ s g. elim (Result-cases (encode_frame p.wire m s.hmac_key)) [
        | inl (frame, e) ↦ rw (send_message, e) (st.queued frame s g)
        | inr (x, e) ↦ rw (send_message, e) g
      ];
    }

    pub send_alert-Keeps : (m : Message) → Keeps P (send_alert p m)
    unfolding send_alert
    send_alert-Keeps m = record {
      keeps = λ s g. elim (Result-cases (send_message p m s).1) [
        | inl (d, e) ↦ rw (send_alert, e) ((send_message-Keeps m).keeps s g)
        | inr (x, e) ↦ elim (Bool-cases (is_framing_error x)) [
          | inl framing ↦ rw (send_alert, e, framing) g
          | inr other ↦ rw (send_alert, e, other) g
        ]
      ];
    }

    pub force_to-Keeps : (t : ConnectionState) → is_plain t ≡ true → Keeps P (force_to {H = H} t)
    unfolding force_to
    force_to-Keeps t h = record { keeps = λ s g. st.moved t s h g }

    pub modify-Keeps : (h : H) → Keeps P (modify (keep_handshake p h))
    modify-Keeps h = record { keeps = λ s g. st.handshaken h s g }

    complete_handshake-Keeps : (k : HandshakeKeys) → Keeps P (complete_handshake p k)
    complete_handshake-Keeps k = record { keeps = λ s g. st.completed k s g }

    handle_handshake_failure-Keeps : (f : HandshakeFailure) → Keeps P (handle_handshake_failure p f)
    unfolding handle_handshake_failure
    handle_handshake_failure-Keeps f =
        bind (send_alert-Keeps _)
          (λ d. bind (force_to-Keeps error_state refl) (λ d. done (ok (handshake_failed ∷ []))))

    answer_client_hello-Keeps : (r : Outcome Message) → Keeps P (answer_client_hello p r)
    unfolding answer_client_hello
    answer_client_hello-Keeps (fails f) = handle_handshake_failure-Keeps f
    answer_client_hello-Keeps (raises x) = done (err x)
    answer_client_hello-Keeps (returns m) = bind (send_message-Keeps m) (λ d.
        bind (transition_to-Keeps hello_received refl)
          (λ d. done (ok (handshake_initiated false ∷ []))))

    finish-Keeps : (r : Outcome HandshakeKeys) → Keeps P (finish p r)
    unfolding finish
    finish-Keeps (fails f) = handle_handshake_failure-Keeps f
    finish-Keeps (raises x) = done (err x)
    finish-Keeps (returns k) = complete_handshake-Keeps k

    authenticate-Keeps : (r : Outcome HandshakeKeys) → Keeps P (authenticate p r)
    unfolding authenticate
    authenticate-Keeps (fails f) = handle_handshake_failure-Keeps f
    authenticate-Keeps (raises x) = done (err x)
    authenticate-Keeps (returns k) =
        bind (transition_to-Keeps authenticated refl) (λ d. complete_handshake-Keeps k)

    answer_server_hello-Keeps : (h : H) (r : Outcome Message) → Keeps P (answer_server_hello p h r)
    unfolding answer_server_hello
    answer_server_hello-Keeps h (fails f) = handle_handshake_failure-Keeps f
    answer_server_hello-Keeps h (raises x) = done (err x)
    answer_server_hello-Keeps h (returns m) = bind (send_message-Keeps m) (λ d.
        bind (transition_to-Keeps authenticated refl) (λ d.
          bind (modify-Keeps (p.complete_client_handshake h).0)
            (λ d. finish-Keeps (p.complete_client_handshake h).1)))

    -- A test that ends the handler leaves the session alone.
    guarded :
        (t : Bool) (es : List Event) (s : Session H) (rest : Session H × Result (List Event))
        → P s
        → P rest.0
        → P (if t then (s, ok es) else rest).0
    guarded true es s rest g h = g
    guarded false es s rest g h = h

    handle_client_hello-Keeps : (m : Message) → Keeps P (handle_client_hello p m)
    unfolding handle_client_hello
    handle_client_hello-Keeps m = record {
      keeps = λ s g. guarded s.is_client (handshake_failed ∷ []) s _ g (
          guarded (not (s.state is idle)) (handshake_failed ∷ []) s _ g (
            (answer_client_hello-Keeps (p.process_client_hello (p.new_handshake false) m).1).keeps _
              (st.handshaken _ s g)));
    }

    -- The handlers that look for the handshake first.
    with_handshake :
        (o : Option H) (es : List Event) (s : Session H) (f : H → Session H × Result (List Event))
        → P s
        → ((h : H) → P (f h).0)
        → P (
            let r : Session H × Result (List Event) = elim o [ none ↦ (s, ok es) | some h ↦ f h ] in
            r.0)
    with_handshake none es s f g k = g
    with_handshake (some h) es s f g k = k h

    handle_server_hello-Keeps : (m : Message) → Keeps P (handle_server_hello p m)
    unfolding handle_server_hello
    handle_server_hello-Keeps m = record {
      keeps = λ s g. guarded (not s.is_client) (handshake_failed ∷ []) s _ g (
          guarded (not (s.state is hello_sent)) (handshake_failed ∷ []) s _ g (
            with_handshake s.handshake (handshake_failed ∷ []) s _ g (λ h.
              (answer_server_hello-Keeps (p.process_server_hello h m).0
                  (p.process_server_hello h m).1).keeps
                _ (st.handshaken _ s g))));
    }

    handle_client_auth-Keeps : (m : Message) → Keeps P (handle_client_auth p m)
    unfolding handle_client_auth
    handle_client_auth-Keeps m = record {
      keeps = λ s g. guarded s.is_client (handshake_failed ∷ []) s _ g (
          guarded (not (s.state is hello_received)) (handshake_failed ∷ []) s _ g (
            with_handshake s.handshake (handshake_failed ∷ []) s _ g (λ h.
              (authenticate-Keeps (p.process_client_auth h m).1).keeps _ (st.handshaken _ s g))));
    }

    alerted-Keeps : (b : Bool) (e : Event) → Keeps P (alerted p b e)
    unfolding alerted
    alerted-Keeps true e =
        bind (transition_to-Keeps error_state refl)
          (λ d. done (ok (e ∷ connection_closed false ∷ [])))
    alerted-Keeps false e = done (ok (e ∷ []))

    handle_alert-Keeps : (m : Message) → Keeps P (handle_alert p m)
    unfolding handle_alert
    handle_alert-Keeps m = bind (done (attribute "level" m)) (λ level.
        bind (done (attribute "description" m)) (λ description.
          bind (done (attribute "message" m)) (λ message.
            alerted-Keeps (is_fatal_level level) (alert_received level description message))))

    -- Every handler, where the one for data does.
    pub dispatch-Keeps :
        (t : MessageType) (m : Message)
        → (t ≡ application_data → Keeps P (handle_application_data p m))
        → Keeps P (dispatch p t m)
    unfolding dispatch
    dispatch-Keeps client_hello m h = handle_client_hello-Keeps m
    dispatch-Keeps server_hello m h = handle_server_hello-Keeps m
    dispatch-Keeps client_auth m h = handle_client_auth-Keeps m
    dispatch-Keeps application_data m h = h refl
    dispatch-Keeps alert m h = handle_alert-Keeps m
    dispatch-Keeps _ m h = done (ok [])
