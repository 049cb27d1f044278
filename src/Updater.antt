-- ===== src/Updater.antt =====
-- internal/infrastructure/updater/scheduler.go. What the client returns, whether the context ends
-- during a wait, and the clock are an environment; each method under the lock is one step. A
-- negative MaxRetries makes no attempt, as 0 does.
pub mod Attempts
pub mod Counters
pub mod Goroutines
pub mod Lifecycle
pub mod Sound
pub mod Panics
pub mod Restarts
pub mod Fruitless
pub mod Refines
pub mod Deadline
use rkn_checker.Prelude.{
  ℕ, zero, suc, ◌+◌, ◌*◌, ◌-◌, ◌^◌, ◌%◌, Bool, true, false, not, ◌&&◌, List, [], ◌∷◌, Option, none,
  some, Result, ok, err, ◌==◌, ltb, leb, if◌then◌else◌,
}
use rkn_checker.Domain.Registry.{Registry, registry_size}

-- Config; durations in nanoseconds
pub record Config : Type 0 where
  pub interval : ℕ
  pub max_retries : ℕ
  pub retry_delay : ℕ
  pub update_timeout : ℕ

-- DefaultConfig
unfoldable pub default_config : Config
default_config = record {
  interval = 48 * 3600 * 10 ^ 9;
  max_retries = 3;
  retry_delay = 5 * 60 * 10 ^ 9;
  update_timeout = 10 * 60 * 10 ^ 9;
}

-- The errors of executeUpdate, over those of the client and the store.
pub data AttemptError (E : Type 0) : Type 0 where
  fetching updating : E → AttemptError E
  empty_registry : AttemptError E

-- The errors that performUpdate records; the last error is nil where no attempt was made.
pub data UpdateError (E : Type 0) : Type 0 where
  context_done : E → UpdateError E
  all_failed : Option (AttemptError E) → UpdateError E

-- RegistryStore, as far as the scheduler calls it
pub record UpdateStore (E S : Type 0) : Type 0 where
  pub update : S → Registry → Result E S
  pub size : S → ℕ

-- What an attempt meets: the error of the context if it ends during the wait before the attempt,
-- and what FetchRegistry returns.
pub record Attempt (E : Type 0) : Type 0 where
  pub ended_in_wait : Option E
  pub fetched : Result E Registry

-- The mutable fields; a time of 0 is the zero time. The channels are closed or open, and
-- `triggerCh` holds a token or none.
pub record Scheduler (E : Type 0) : Type 0 where
  pub running : Bool
  pub last_update : ℕ
  pub last_error : Option (UpdateError E)
  pub consecutive_failures : ℕ
  pub total_updates : ℕ
  pub successful_updates : ℕ
  pub stop_closed : Bool
  pub trigger_pending : Bool
  pub done_closed : Bool

-- NewScheduler
abbrev pub new_scheduler : {E : Type 0} → Scheduler E
new_scheduler = record {
  running = false;
  last_update = 0;
  last_error = none;
  consecutive_failures = 0;
  total_updates = 0;
  successful_updates = 0;
  stop_closed = false;
  trigger_pending = false;
  done_closed = false;
}

-- retryDelay * time.Duration(1<<uint(attempt-1)), the bits of an int64
unfoldable pub backoff_delay : ℕ → ℕ → ℕ
backoff_delay retry_delay attempt = retry_delay * 2 ^ (attempt - 1) % 2 ^ 64

module _ {E : Type 0} where
  -- recordSuccess
  unfoldable pub record_success : ℕ → Scheduler E → Scheduler E
  record_success now s = record s {
    last_update = now;
    last_error = none;
    consecutive_failures = 0;
    successful_updates = s.successful_updates + 1;
  }

  -- recordFailure
  unfoldable pub record_failure : UpdateError E → Scheduler E → Scheduler E
  record_failure e s = record s {
    last_error = some e;
    consecutive_failures = s.consecutive_failures + 1;
  }

  -- IsHealthy; times are at or after the last update
  unfoldable pub is_healthy : Config → ℕ → Scheduler E → Bool
  is_healthy config now s =
      if leb 5 s.consecutive_failures
      then false
      else if not (s.last_update == 0) && ltb (config.interval * 2) (now - s.last_update)
      then false
      else true

  -- getNextUpdateTime
  unfoldable pub get_next_update_time : Config → ℕ → Scheduler E → ℕ
  get_next_update_time config now s =
      if s.last_update == 0 then now else s.last_update + config.interval

  -- TriggerUpdate
  unfoldable pub trigger_update : Scheduler E → Scheduler E
  trigger_update s = record s { trigger_pending = true }

pub record Status (E : Type 0) : Type 0 where
  pub running : Bool
  pub last_update : ℕ
  pub last_error : Option (UpdateError E)
  pub consecutive_failures : ℕ
  pub total_updates : ℕ
  pub successful_updates : ℕ
  pub next_update : ℕ
  pub registry_size : ℕ

-- SuccessRate, as the bits of a float64; `percent` is float64(a) / float64(b) * 100
unfoldable pub success_rate : {E : Type 0} → (ℕ → ℕ → ℕ) → Status E → ℕ
success_rate percent s =
    if s.total_updates == 0 then 0 else percent s.successful_updates s.total_updates

module _ {E S : Type 0} (store : UpdateStore E S) where
  -- executeUpdate, with the store that it leaves
  unfoldable pub execute_update : S → Result E Registry → Result (AttemptError E) S
  execute_update s (err e) = err (fetching e)
  execute_update s (ok registry) =
      let stored : Result (AttemptError E) S = elim (store.update s registry) [
        | err e ↦ err (updating e)
        | ok s' ↦ ok s'
      ] in
      if registry_size registry == 0 then err empty_registry else stored

  -- The loop of performUpdate at an attempt, with the attempts that are left.
  unfoldable pub attempts_from :
      (ℕ → Attempt E) → ℕ → ℕ → Option (AttemptError E) → S → Result (UpdateError E) S
  unfolding execute_update
  attempts_from env attempt zero last_error s = err (all_failed last_error)
  attempts_from env attempt (suc left) last_error s =
      let ran : Result (UpdateError E) S = elim (execute_update s (env attempt).fetched) [
        | ok s' ↦ ok s'
        | err e ↦ attempts_from env (suc attempt) left (some e) s
      ] in
      if attempt == 0
      then ran
      else elim (env attempt).ended_in_wait [ some e ↦ err (context_done e) | none ↦ ran ]

  -- performUpdate, which ends at the time `now`
  unfoldable pub perform_update : Config → (ℕ → Attempt E) → ℕ → Scheduler E × S → Scheduler E × S
  unfolding attempts_from record_success record_failure
  perform_update config env now (sched, s) =
      let counted = record sched { total_updates = sched.total_updates + 1 } in
      elim (attempts_from env 0 config.max_retries none s) [
        | ok s' ↦ (record_success now counted, s')
        | err e ↦ (record_failure e counted, s)
      ]

  -- GetStatus
  unfoldable pub get_status : Config → ℕ → Scheduler E × S → Status E
  unfolding get_next_update_time
  get_status config now (sched, s) = record {
    running = sched.running;
    last_update = sched.last_update;
    last_error = sched.last_error;
    consecutive_failures = sched.consecutive_failures;
    total_updates = sched.total_updates;
    successful_updates = sched.successful_updates;
    next_update = get_next_update_time config now sched;
    registry_size = store.size s;
  }
