-- ===== src/Updater/Deadline.antt =====
-- The waits between the attempts of performUpdate, and the timeout of its context.
use rkn_checker.Prelude.{
  ℕ, zero, suc, ◌+◌, ◌*◌, ◌-◌, ◌^◌, ◌<◌, ◌≤◌, ◌≡◌, ◌≢◌, none, ok, arith, inl, inr, Result-cases,
}
use native.Mathlib.Nat.{
  mod-eq_of_lt, pow-succ', pow-le-pow_right, mul-le-mul_left, one-le-pow, lt_of_le_of_lt,
}
use rkn_checker.Updater.{
  Attempt, UpdateStore, attempts_from, Config, backoff_delay, execute_update, Scheduler,
  perform_update, default_config,
}
use rkn_checker.Updater.Attempts.{attempts_from-ok}

-- The delays double from the retry delay on, until they overflow.
pub backoff_delay-doubles :
    (delay i : ℕ) → delay * 2 ^ i < 2 ^ 63 → backoff_delay delay (suc i) ≡ delay * 2 ^ i
unfolding backoff_delay
backoff_delay-doubles delay i small = rw (suc-sub_one i) (mod-eq_of_lt (omega arith))
  where
    suc-sub_one : (i : ℕ) → suc i - 1 ≡ i
    suc-sub_one i = omega arith

-- The time since the context of an update was made at which each attempt is reached. A wait that
-- the context does not end takes its whole delay, and is over by the timeout.
pub record Timed {E : Type 0} (config : Config) (env : ℕ → Attempt E) : Type 0 where
  pub clock : ℕ → ℕ
  pub waits :
      (i : ℕ)
      → (env (suc i)).ended_in_wait ≡ none
      → clock i + backoff_delay config.retry_delay (suc i) ≤ clock (suc i)
  pub in_time :
      (i : ℕ)
      → (env (suc i)).ended_in_wait ≡ none
      → clock i + backoff_delay config.retry_delay (suc i) ≤ config.update_timeout

-- The delays so far, and one more.
doubled :
    (delay i c : ℕ)
    → delay * 2 ^ i < 2 ^ 63
    → delay * 2 ^ i ≤ c + delay
    → delay * 2 ^ suc i ≤ c + backoff_delay delay (suc i) + delay
doubled delay i c small h = omega (arith, pow-twice i delay, backoff_delay-doubles delay i small)
  where
    pow-twice : (i delay : ℕ) → delay * 2 ^ suc i ≡ delay * 2 ^ i + delay * 2 ^ i
    pow-twice i delay = rw pow-succ' (omega arith)

smaller : (delay i n : ℕ) → i ≤ n → delay * 2 ^ n < 2 ^ 63 → delay * 2 ^ i < 2 ^ 63
smaller delay i n le small =
    lt_of_le_of_lt (mul-le-mul_left delay (pow-le-pow_right (omega arith) le)) small

module _ {E S : Type 0} (store : UpdateStore E S) (config : Config) (env : ℕ → Attempt E)
    (timed : Timed config env) where
  abbrev Small : ℕ → Type 0
  Small i = config.retry_delay * 2 ^ i < 2 ^ 63

  abbrev Lives : ℕ → Type 0
  Lives i = (j : ℕ) → j < i → (env (suc j)).ended_in_wait ≡ none

  -- The clock at an attempt is at least the sum of the delays before it.
  clock-late :
      (i : ℕ) → Small i → Lives i → config.retry_delay * 2 ^ i ≤ timed.clock i + config.retry_delay
  clock-late zero small alive = omega arith
  clock-late (suc i) small alive =
      let before = smaller config.retry_delay i (suc i) (omega arith) small in
      let late = clock-late i before (λ j lt. alive j (omega arith)) in
      omega (
        arith,
        doubled config.retry_delay i (timed.clock i) before late,
        timed.waits i (alive i (omega arith)),
      )

  reached-in_time :
      (i : ℕ)
      → Small i
      → Lives i
      → config.retry_delay * 2 ^ i ≤ config.update_timeout + config.retry_delay
  reached-in_time zero small alive = omega arith
  reached-in_time (suc i) small alive =
      let before = smaller config.retry_delay i (suc i) (omega arith) small in
      let late = clock-late i before (λ j lt. alive j (omega arith)) in
      omega (
        arith,
        doubled config.retry_delay i (timed.clock i) before late,
        timed.in_time i (alive i (omega arith)),
      )

  attempts_from-in_time :
      (s s' : S)
      → Small config.max_retries
      → attempts_from store env 0 config.max_retries none s ≡ ok s'
      → (i : ℕ) × (i < config.max_retries)
        × (execute_update store s (env i).fetched ≡ ok s')
        × (config.retry_delay * 2 ^ i ≤ config.update_timeout + config.retry_delay)
  attempts_from-in_time s s' small done =
      let first = attempts_from-ok store env s 0 config.max_retries none s' done in
      let below : first.index < config.max_retries = omega (arith, first.below) in
      let before = smaller config.retry_delay first.index config.max_retries (omega arith) small in
      (
        first.index,
        below,
        first.succeeds,
        reached-in_time first.index before
            (λ j lt. ground (arith, first.alive (suc j) (omega arith) (omega arith))),
      )

-- Where performUpdate counts a success, the store it leaves is what an attempt made of the store
-- that it found, and the delays before that attempt, which double from the retry delay on, add up
-- to at most the timeout: for the i-th attempt, from 0, delay * (2 ^ i - 1) <= timeout. The delays
-- of all attempts are assumed not to overflow; and of the clock, that a wait that the context does
-- not end takes its whole delay and is over by the timeout.
pub perform_update-in_time :
    {E S : Type 0} (store : UpdateStore E S) (config : Config) (env : ℕ → Attempt E) (now : ℕ)
    (sched : Scheduler E) (s : S)
    → Timed config env
    → config.retry_delay * 2 ^ config.max_retries < 2 ^ 63
    → (perform_update store config env now (sched, s)).0.successful_updates
      ≢ sched.successful_updates
    → (i : ℕ) × (i < config.max_retries)
      × (execute_update store s (env i).fetched
          ≡ ok ((perform_update store config env now (sched, s)).1))
      × (config.retry_delay * 2 ^ i ≤ config.update_timeout + config.retry_delay)
unfolding perform_update
perform_update-in_time store config env now sched s timed small counted =
    elim (Result-cases (attempts_from store env 0 config.max_retries none s)) [
      | inl (s', done) ↦
          rw (done, perform_update) (attempts_from-in_time store config env timed s s' small done)
      | inr (e, failed) ↦ absurd (counted (rw (failed, perform_update)))
    ]

early_of_default : (i : ℕ) → 5 * 60 * 10 ^ 9 * 2 ^ i ≤ 10 * 60 * 10 ^ 9 + 5 * 60 * 10 ^ 9 → i < 2
early_of_default zero h = omega arith
early_of_default (suc zero) h = omega arith
early_of_default (suc (suc i)) h =
    absurd (omega (arith, pow-succ' 2 (suc i), pow-succ' 2 i, one-le-pow i 2 (omega arith)))

-- With the default settings, three attempts, five minutes and a timeout of ten, the third attempt
-- never helps: where performUpdate counts a success, it is one of the first two attempts that made
-- the store. Of the clock, a wait that the context does not end takes its whole delay and is over by
-- the timeout.
perform_update-default :
    {E S : Type 0} (store : UpdateStore E S) (env : ℕ → Attempt E) (now : ℕ) (sched : Scheduler E)
    (s : S)
    → Timed default_config env
    → (perform_update store default_config env now (sched, s)).0.successful_updates
      ≢ sched.successful_updates
    → (i : ℕ) × (i < 2)
      × (execute_update store s (env i).fetched
          ≡ ok ((perform_update store default_config env now (sched, s)).1))
unfolding default_config
perform_update-default store env now sched s timed counted =
    let (i, below, made, early) =
      perform_update-in_time store default_config env now sched s timed (omega arith) counted in
    (i, early_of_default i early, made)
