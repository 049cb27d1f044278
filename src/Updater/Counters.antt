-- ===== src/Updater/Counters.antt =====
-- The counters that performUpdate and GetStatus show, and IsHealthy.
use rkn_checker.Prelude.{
  ℕ, ◌+◌, ◌*◌, ◌<◌, ◌≤◌, ◌≡◌, ◌↔◌, ◌⊎◌, true, none, arith, Result-cases, inl, inr,
}
use rkn_checker.Updater.{
  Attempt, UpdateStore, attempts_from, Config, Scheduler, perform_update, record_success,
  record_failure, is_healthy,
}

-- What holds of the counters between updates.
pub record IsCounted {E : Type 0} (s : Scheduler E) : Type 0 where
  pub counted : s.successful_updates + s.consecutive_failures ≤ s.total_updates
  pub error_kept : (s.last_error ≡ none) ↔ (s.consecutive_failures ≡ 0)
  pub dated : (s.successful_updates ≡ 0) ↔ (s.last_update ≡ 0)

module _ {E S : Type 0} (store : UpdateStore E S) (config : Config) where
  -- An update, whatever its attempts meet, keeps the counters in step, if the clock is past the
  -- zero time.
  pub perform_update-IsCounted :
      (env : ℕ → Attempt E) (now : ℕ) (sched : Scheduler E) (s : S)
      → 0 < now
      → IsCounted sched
      → IsCounted (perform_update store config env now (sched, s)).0
  unfolding perform_update record_success record_failure
  perform_update-IsCounted env now sched s late c =
      elim (Result-cases (attempts_from store env 0 config.max_retries none s)) [
        | inl (s', good) ↦
            rw (good, perform_update)
              (record {
                counted = omega (arith, c.counted);
                error_kept = ground arith;
                dated = ground arith;
              })
        | inr (e, bad) ↦
            rw (bad, perform_update)
              (record {
                counted = omega (arith, c.counted);
                error_kept = ground arith;
                dated = c.dated;
              })
      ]

-- IsHealthy is the statement of its comments: fewer than five failures in a row, and no success
-- yet or the last one not more than two intervals ago.
pub is_healthy_iff :
    {E : Type 0} (config : Config) (now : ℕ) (s : Scheduler E)
    → (is_healthy config now s ≡ true) ↔ (
        (s.consecutive_failures < 5)
        × ((s.last_update ≡ 0) ⊎ (now ≤ s.last_update + config.interval * 2)))
unfolding is_healthy
is_healthy_iff config now s = ground arith
