-- ===== src/Connection/Retries.antt =====
-- Time-outs of a handshake, one after another.
use qasp.Prelude.{
  ℕ, zero, suc, ◌+◌, ◌<◌, ◌≤◌, ◌≡◌, refl, ltb, true, false, List, [], ◌∷◌, ◌++◌, arith, lt→ltb,
}
use qasp.Connection.{error_state}
use qasp.Connection.Session.{Session, Event, handshake_timeout, handshake_failed}
use qasp.Connection.Calls.{should_retry, prepare_retry, handle_timeout}

module _ {H : Type 0} where
  -- That many time-outs in a row, with all their events.
  unfoldable pub time_outs : ℕ → Session H → Session H × List Event
  unfolding handle_timeout
  time_outs zero s = (s, [])
  time_outs (suc n) s =
      let (t, told) = handle_timeout s in let (u, more) = time_outs n t in (u, told ++ more)

-- That many time-outs that are tried again, with their numbers from the given one on, and then one
-- that is not; none was longer than the limit.
unfoldable pub GivesUp : ℕ → ℕ → ℕ → List Event → Type 0
GivesUp limit number zero es =
    (t : ℕ) × (t ≤ limit) × (es ≡ handshake_timeout t number false ∷ handshake_failed ∷ [])
GivesUp limit number (suc n) es =
    (t : ℕ) × (rest : List Event) × (t ≤ limit)
    × (es ≡ handshake_timeout t number true ∷ rest)
    × GivesUp limit (number + 1) n rest

module _ {H : Type 0} where
  retried :
      (s : Session H)
      → s.retry_count < s.config.max_retries
      → handle_timeout s
        ≡ (prepare_retry s, handshake_timeout s.current_timeout_ms s.retry_count true ∷ [])
  unfolding handle_timeout should_retry
  retried s h = rw (lt→ltb _ _ h) refl

  given_up :
      (s : Session H)
      → s.retry_count ≡ s.config.max_retries
      → handle_timeout s ≡ (
        record s { state = error_state },
        handshake_timeout s.current_timeout_ms s.retry_count false ∷ handshake_failed ∷ [],
      )
  unfolding handle_timeout should_retry
  given_up s h =
      let spent : ltb s.retry_count s.config.max_retries ≡ false = ground arith in rw spent refl

  prepare_retry-counts :
      (s : Session H)
      → ((prepare_retry s).config ≡ s.config)
        × ((prepare_retry s).retry_count ≡ s.retry_count + 1)
        × ((prepare_retry s).current_timeout_ms ≤ (prepare_retry s).config.max_timeout_ms)
  unfolding prepare_retry
  prepare_retry-counts s = (refl, refl, omega arith)

  -- A handshake that has n retries left ends in ERROR at the time-out after them: the n time-outs
  -- before are tried again, with the numbers in a row, and no time-out is longer than the maximum
  -- that is configured, provided that the current one is not.
  pub time_outs-GivesUp :
      (n : ℕ) (s : Session H)
      → s.retry_count + n ≡ s.config.max_retries
      → s.current_timeout_ms ≤ s.config.max_timeout_ms
      → ((time_outs (suc n) s).0.state ≡ error_state)
        × GivesUp s.config.max_timeout_ms s.retry_count n (time_outs (suc n) s).1
  unfolding time_outs GivesUp
  time_outs-GivesUp zero s left short =
      rw (given_up s (omega arith)) (refl, (s.current_timeout_ms, short, refl))
  time_outs-GivesUp (suc n) s left short =
      let (same_config, one_more, still_short) = prepare_retry-counts s in
      let (ends, told) =
        time_outs-GivesUp n (prepare_retry s) (rw (one_more, same_config) (omega arith))
          still_short in
      rw (retried s (omega arith)) (
        ends,
        (
          s.current_timeout_ms,
          (time_outs (suc n) (prepare_retry s)).1,
          short,
          refl,
          rw (one_more, same_config) at told,
        ),
      )
