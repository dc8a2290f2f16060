-- ===== src/Connection/Numbers.antt =====
-- Which sequence numbers a connection passes on.
use qasp.Prelude.{
  ℕ, ◌+◌, ◌≤◌, ◌≡◌, refl, Bool, true, false, not, Option, none, some, List, [], ◌∷◌, ◌++◌, inl, inr,
  ◌≢◌, arith, if◌then◌else◌,
}
use qasp.Prelude.Result.{Error, Result, ok, err, Result-cases}
use qasp.Platform.{Value}
use qasp.Framing.Types.{
  MessageType, client_hello, server_hello, client_auth, application_data, alert,
}
use qasp.Framing.Codec.{Message}
use qasp.Connection.{
  idle, hello_sent, hello_received, authenticated, established, error_state, ◌is◌,
}
use qasp.Connection.Session.{
  Session, M, Parts, HandshakeKeys, HandshakeFailure, Outcome, returns, fails, raises, Event,
  handshake_failed, handshake_initiated, handshake_complete, connection_closed, alert_received,
  data_received, ◌>>=◌, lift, modify, transition_to, force_to,
}
use qasp.Connection.Handlers.{
  send_message, send_alert, alert_message, keep_handshake, with_keys, without_handshake,
  handle_handshake_failure, complete_handshake, answer_client_hello, handle_client_hello, finish,
  answer_server_hello, handle_server_hello, authenticate, handle_client_auth, alerted, handle_alert,
  dispatch, attribute, is_fatal_level,
}

-- The sequence numbers of the data among the events.
unfoldable pub delivered : List Event → List ℕ
delivered [] = []
delivered (data_received bs n ∷ es) = n ∷ delivered es
delivered (e ∷ es) = delivered es

-- Strictly ascending numbers, at least `lo` and below `hi`.
abbrev pub Ascending : ℕ → List ℕ → ℕ → Type 0
Ascending lo [] hi = lo ≤ hi
Ascending lo (n ∷ ns) hi = (lo ≤ n) × Ascending (n + 1) ns hi

pub Ascending-append :
    (xs ys : List ℕ) (lo mid hi : ℕ)
    → Ascending lo xs mid
    → Ascending mid ys hi
    → Ascending lo (xs ++ ys) hi
Ascending-append [] [] lo mid hi h k = omega arith
Ascending-append [] (y ∷ ys) lo mid hi h k = (omega (arith, h, k.0), k.1)
Ascending-append (x ∷ xs) ys lo mid hi h k = (h.0, Ascending-append xs ys (x + 1) mid hi h.1 k)

pub delivered-append : (es fs : List Event) → delivered (es ++ fs) ≡ delivered es ++ delivered fs
unfolding delivered
delivered-append [] fs = refl
delivered-append (data_received bs n ∷ es) fs = rw (delivered-append es fs) refl
delivered-append (e ∷ es) fs = delivered-append es fs

module _ {H : Type 0} where
  -- All that a method answers satisfies `Q`.
  pub record Says (Q : List Event → Type 0) (m : M H (List Event)) : Type 0 where
    pub says : (s : Session H) (es : List Event) → (m s).1 ≡ ok es → Q es

  bind_answer :
      {A : Type 0} (Q : List Event → Type 0) (m : M H A) (f : A → M H (List Event))
      → ((a : A) → Says Q (f a))
      → (s : Session H) (es : List Event) → ((m >>= f) s).1 ≡ ok es
      → Q es
  bind_answer Q m f k s es h = elim (Result-cases (m s).1) [
    | inl (a, e) ↦ (k a).says (m s).0 es (rw (◌>>=◌, e) at h)
    | inr (x, e) ↦ let never = rw (◌>>=◌, e) at h in cc
  ]

  pub bind-Says :
      {A : Type 0} {Q : List Event → Type 0} (m : M H A) {f : A → M H (List Event)}
      → ((a : A) → Says Q (f a))
      → Says Q (m >>= f)
  bind-Says {Q = Q} m {f = f} k = record { says = bind_answer Q m f k }

module _ {H : Type 0} (p : Parts H) where
  abbrev pub Quiet : M H (List Event) → Type 0
  Quiet m = Says (λ es. delivered es ≡ []) m

  quiet : (es : List Event) → delivered es ≡ [] → Quiet (lift (ok es))
  quiet es h = record { says = λ s fs e. let same : es ≡ fs = cc in rw (← same) h }

  raised : (x : Error) → Quiet (lift (err x))
  raised x = record { says = λ s fs e. let never : err x ≡ ok fs = e in cc }

  handle_handshake_failure-Quiet : (f : HandshakeFailure) → Quiet (handle_handshake_failure p f)
  unfolding handle_handshake_failure delivered
  handle_handshake_failure-Quiet f =
      bind-Says (send_alert p (alert_message 2 f.alert_code f.message))
        (λ d. bind-Says (force_to error_state) (λ d. quiet (handshake_failed ∷ []) refl))

  complete_handshake-Quiet : (k : HandshakeKeys) → Quiet (complete_handshake p k)
  unfolding complete_handshake delivered
  complete_handshake-Quiet k = bind-Says (modify (with_keys p k)) (λ d.
      bind-Says (transition_to established) (λ d.
        bind-Says (modify (without_handshake p))
          (λ d. quiet (handshake_complete k.peer_kem_public k.session_id ∷ []) refl)))

  finish-Quiet : (r : Outcome HandshakeKeys) → Quiet (finish p r)
  unfolding finish
  finish-Quiet (fails f) = handle_handshake_failure-Quiet f
  finish-Quiet (raises x) = raised x
  finish-Quiet (returns k) = complete_handshake-Quiet k

  answer_client_hello-Quiet : (r : Outcome Message) → Quiet (answer_client_hello p r)
  unfolding answer_client_hello delivered
  answer_client_hello-Quiet (fails f) = handle_handshake_failure-Quiet f
  answer_client_hello-Quiet (raises x) = raised x
  answer_client_hello-Quiet (returns m) = bind-Says (send_message p m) (λ d.
      bind-Says (transition_to hello_received) (λ d. quiet (handshake_initiated false ∷ []) refl))

  answer_server_hello-Quiet : (h : H) (r : Outcome Message) → Quiet (answer_server_hello p h r)
  unfolding answer_server_hello
  answer_server_hello-Quiet h (fails f) = handle_handshake_failure-Quiet f
  answer_server_hello-Quiet h (raises x) = raised x
  answer_server_hello-Quiet h (returns m) = bind-Says (send_message p m) (λ d.
      bind-Says (transition_to authenticated) (λ d.
        bind-Says (modify (keep_handshake p (p.complete_client_handshake h).0))
          (λ d. finish-Quiet (p.complete_client_handshake h).1)))

  authenticate-Quiet : (r : Outcome HandshakeKeys) → Quiet (authenticate p r)
  unfolding authenticate
  authenticate-Quiet (fails f) = handle_handshake_failure-Quiet f
  authenticate-Quiet (raises x) = raised x
  authenticate-Quiet (returns k) =
      bind-Says (transition_to authenticated) (λ d. complete_handshake-Quiet k)

  alerted-Quiet :
      (b : Bool) (level description words : Value)
      → Quiet (alerted p b (alert_received level description words))
  unfolding alerted delivered
  alerted-Quiet true level description words =
      bind-Says (transition_to error_state)
        (λ d. quiet (alert_received level description words ∷ connection_closed false ∷ []) refl)
  alerted-Quiet false level description words =
      quiet (alert_received level description words ∷ []) refl

  handle_alert-Quiet : (m : Message) → Quiet (handle_alert p m)
  unfolding handle_alert
  handle_alert-Quiet m = bind-Says (lift (attribute "level" m)) (λ level.
      bind-Says (lift (attribute "description" m)) (λ description.
        bind-Says (lift (attribute "message" m))
          (λ words. alerted-Quiet (is_fatal_level level) level description words)))

  guarded_quiet :
      (t : Bool) (s : Session H) (rest : Session H × Result (List Event))
      → ((es : List Event) → rest.1 ≡ ok es → delivered es ≡ [])
      → (es : List Event) → (if t then (s, ok (handshake_failed ∷ [])) else rest).1 ≡ ok es
      → delivered es ≡ []
  unfolding delivered
  guarded_quiet true s rest h es e = (quiet (handshake_failed ∷ []) refl).says s es e
  guarded_quiet false s rest h es e = h es e

  with_handshake_quiet :
      (o : Option H) (s : Session H) (f : H → Session H × Result (List Event))
      → ((h : H) (es : List Event) → (f h).1 ≡ ok es → delivered es ≡ [])
      → (es : List Event)
      → (let r : Session H × Result (List Event) = elim o [
        | none ↦ (s, ok (handshake_failed ∷ []))
        | some h ↦ f h
      ] in
          r.1)
        ≡ ok es
      → delivered es ≡ []
  unfolding delivered
  with_handshake_quiet none s f k es e = (quiet (handshake_failed ∷ []) refl).says s es e
  with_handshake_quiet (some h) s f k es e = k h es e

  -- Every handler but the one for data.
  pub dispatch-Quiet :
      (t : MessageType) (m : Message) → t ≢ application_data → Quiet (dispatch p t m)
  unfolding dispatch handle_client_hello handle_server_hello handle_client_auth delivered
  dispatch-Quiet client_hello m h = record {
    says = λ s. guarded_quiet s.is_client s _ (
        guarded_quiet (not (s.state is idle)) s _ (
          (answer_client_hello-Quiet (p.process_client_hello (p.new_handshake false) m).1).says _));
  }
  dispatch-Quiet server_hello m h = record {
    says = λ s. guarded_quiet (not s.is_client) s _ (
        guarded_quiet (not (s.state is hello_sent)) s _ (
          with_handshake_quiet s.handshake s _ (λ h.
            (answer_server_hello-Quiet (p.process_server_hello h m).0
                (p.process_server_hello h m).1).says
              _)));
  }
  dispatch-Quiet client_auth m h = record {
    says = λ s. guarded_quiet s.is_client s _ (
        guarded_quiet (not (s.state is hello_received)) s _ (
          with_handshake_quiet s.handshake s _
            (λ h. (authenticate-Quiet (p.process_client_auth h m).1).says _)));
  }
  dispatch-Quiet application_data m h = absurd (h refl)
  dispatch-Quiet alert m h = handle_alert-Quiet m
  dispatch-Quiet _ m h = quiet [] refl
