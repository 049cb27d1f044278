-- ===== src/Tests/Schedulers.antt =====
-- The scheduler with a store that is the number of updates that it took.
use rkn_checker.Prelude.{
  ℕ, zero, suc, ◌+◌, ◌*◌, ◌^◌, ◌≤◌, ◌<◌, ◌≡◌, refl, ◌≢◌, true, false, List, [], ◌∷◌, none, some, ok,
  err, get_or, arith,
}
use rkn_checker.Text.{bytes}
use rkn_checker.Domain.Blocking.{domain}
use rkn_checker.Domain.Registry.{Registry, RegistryEntry, new_registry}
use rkn_checker.Updater.{
  Attempt, AttemptError, UpdateError, UpdateStore, Config, Scheduler, new_scheduler, perform_update,
  execute_update, attempts_from, all_failed, backoff_delay, default_config,
}
use rkn_checker.Updater.Attempts.{FirstSuccess, perform_update-succeeds, perform_update-fails}
use rkn_checker.Updater.Deadline.{Timed, perform_update-in_time}
use rkn_checker.Updater.Lifecycle.{
  World, Event, starts, begins, attempts, records, step, ticks, sees_stop, closes, stops, run,
}
use rkn_checker.Updater.Sound.{IsSound, run-IsSound}
use rkn_checker.Updater.Goroutines.{closing, gone}
use rkn_checker.Updater.Panics.{run-ne-panic, new_world}
use rkn_checker.Updater.Restarts.{leave-start-leave}

abbrev counting : UpdateStore ℕ ℕ
counting = record { update = λ s registry. ok (s + 1); size = λ s. s }

abbrev pub config : Config
config = record { interval = 100; max_retries = 3; retry_delay = 1; update_timeout = 50 }

abbrev one_entry : RegistryEntry
one_entry = record {
  id = [];
  entry_type = domain;
  domain_name = bytes "a.org";
  address = [];
  url = [];
  paths = [];
  added_date = 1;
  blocked_date = 0;
  decision = [];
  decision_org = [];
}

abbrev fetched_one : Registry
fetched_one = record (new_registry 1) { entries = one_entry ∷ [] }

-- The first fetch fails, the second succeeds.
abbrev second_time : ℕ → Attempt ℕ
second_time zero = record { ended_in_wait = none; fetched = err 7 }
second_time (suc i) = record { ended_in_wait = none; fetched = ok fetched_one }

abbrev empty_always : ℕ → Attempt ℕ
empty_always i = record { ended_in_wait = none; fetched = ok (new_registry 1) }

abbrev fresh : Scheduler ℕ
fresh = new_scheduler

first_success : FirstSuccess counting second_time 4 0 3 5
unfolding execute_update
first_success = record {
  index = 1;
  from = omega arith;
  below = omega arith;
  succeeds = refl;
  before = λ j le lt. let zeroth : j ≡ 0 = omega arith in rw zeroth refl;
  alive = λ j le ge. ground arith;
}

perform_update-succeeds_example : perform_update counting config second_time 9 (fresh, 4) ≡ (
  record fresh {
    last_update = 9;
    last_error = none;
    consecutive_failures = 0;
    total_updates = fresh.total_updates + 1;
    successful_updates = fresh.successful_updates + 1;
  },
  5,
)
perform_update-succeeds_example =
    perform_update-succeeds counting config second_time 9 fresh 4 5 first_success

never_succeeds : (s' : ℕ) → ¬ FirstSuccess counting empty_always 4 0 3 s'
unfolding execute_update
never_succeeds s' f = cc (f.succeeds)

perform_update-fails_example :
    (e : UpdateError ℕ) × (perform_update counting config empty_always 9 (fresh, 4) ≡ (
      record fresh {
        last_error = some e;
        consecutive_failures = fresh.consecutive_failures + 1;
        total_updates = fresh.total_updates + 1;
      },
      4,
    ))
perform_update-fails_example =
    perform_update-fails counting config empty_always 9 fresh 4 never_succeeds

-- Two updates, then Stop.
abbrev life : List (Event ℕ)
life =
    starts
    ∷ begins 0
    ∷ attempts 0 second_time
    ∷ records 0 9
    ∷ ticks 0
    ∷ stops
    ∷ attempts 0 empty_always
    ∷ records 0 20
    ∷ sees_stop 0
    ∷ closes 0
    ∷ []

abbrev ended : World ℕ ℕ
ended = record {
  sched = record {
    running = false;
    last_update = 9;
    last_error = some (all_failed (some AttemptError.empty_registry));
    consecutive_failures = 1;
    total_updates = 2;
    successful_updates = 1;
    stop_closed = true;
    trigger_pending = false;
    done_closed = true;
  };
  stored = 1;
  phases = gone ∷ [];
}

life_runs : run counting config life (new_world 0) ≡ some ended
unfolding run step attempts_from execute_update
life_runs = refl

new_world-IsSound : IsSound {E = ℕ} (new_world {S = ℕ} 0)
new_world-IsSound = record {
  counted = record { counted = omega arith; error_kept = ground arith; dated = ground arith };
  pending = omega arith;
  alive = refl;
}

run-IsSound_example : IsSound ended
run-IsSound_example =
    run-IsSound counting config life (new_world 0) ended (omega arith) new_world-IsSound life_runs

run-ne-panic_example : run counting config life (new_world 0) ≢ none
run-ne-panic_example = run-ne-panic counting config 0 life (omega arith) (omega arith) (omega arith)

-- Started again after its end, it makes an update and comes to its last deferred call.
abbrev again : List (Event ℕ)
again =
    begins 0
    ∷ attempts 0 second_time
    ∷ records 0 30
    ∷ ticks 0
    ∷ attempts 0 empty_always
    ∷ records 0 40
    ∷ sees_stop 0
    ∷ []

abbrev back_at_end : World ℕ ℕ
back_at_end = record {
  sched = record (ended.sched) { last_update = 30; total_updates = 4; successful_updates = 2 };
  stored = 2;
  phases = closing ∷ gone ∷ [];
}

again_runs : run counting config (starts ∷ again) ended ≡ some back_at_end
unfolding run step attempts_from execute_update
again_runs = refl

leave-start-leave_example :
    (0 < 1)
    × ((i : ℕ)
        → get_or back_at_end.phases i gone ≡ closing
        → run counting config (closes i ∷ []) back_at_end ≡ none)
leave-start-leave_example =
    leave-start-leave counting config again ended back_at_end refl refl again_runs

-- With the default settings: the second attempt succeeds after a wait of five minutes, and in the
-- wait for a third one the context would end.
abbrev one_wait : ℕ → Attempt ℕ
one_wait zero = record { ended_in_wait = none; fetched = err 7 }
one_wait (suc zero) = record { ended_in_wait = none; fetched = ok fetched_one }
one_wait (suc (suc i)) = record { ended_in_wait = some 8; fetched = err 7 }

abbrev half_time : ℕ → ℕ
half_time zero = 0
half_time (suc i) = 5 * 60 * 10 ^ 9

one_wait-Timed : Timed default_config one_wait
unfolding backoff_delay default_config
one_wait-Timed = record { clock = half_time; waits = waits; in_time = in_time }
  where
    waits :
        (i : ℕ)
        → (one_wait (suc i)).ended_in_wait ≡ none
        → half_time i + backoff_delay default_config.retry_delay (suc i) ≤ half_time (suc i)
    waits zero h = omega arith
    waits (suc i) h = cc

    in_time :
        (i : ℕ)
        → (one_wait (suc i)).ended_in_wait ≡ none
        → half_time i + backoff_delay default_config.retry_delay (suc i)
          ≤ default_config.update_timeout
    in_time zero h = omega arith
    in_time (suc i) h = cc

counts_one :
    (perform_update counting default_config one_wait 9 (fresh, 4)).0.successful_updates
    ≢ fresh.successful_updates
unfolding perform_update default_config
counts_one e = absurd (omega arith)

small : default_config.retry_delay * 2 ^ default_config.max_retries < 2 ^ 63
unfolding default_config
small = omega arith

perform_update-in_time_example :
    (i : ℕ) × (i < default_config.max_retries)
    × (execute_update counting 4 (one_wait i).fetched
        ≡ ok ((perform_update counting default_config one_wait 9 (fresh, 4)).1))
    × (default_config.retry_delay * 2 ^ i
        ≤ default_config.update_timeout + default_config.retry_delay)
perform_update-in_time_example =
    perform_update-in_time counting default_config one_wait 9 fresh 4 one_wait-Timed small
      counts_one
