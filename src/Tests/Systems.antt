-- ===== src/Tests/Systems.antt =====
-- The parts together: a server that asks the store which the scheduler updates.
use rkn_checker.Prelude.{ℕ, ◌≡◌, refl, true, false, List, [], arith, ◌∷◌, none, some, ok}
use rkn_checker.Text.{bytes}
use rkn_checker.Domain.Url.{DomainError}
use rkn_checker.Domain.Registry.{Registry, RegistryEntry, registry_size}
use rkn_checker.Storage.MemoryStore
use rkn_checker.Storage.MemoryStore.{MemoryStore, new_memory_store}
use rkn_checker.Storage.MemoryStore.Refinement.{update-ok}
use rkn_checker.Delivery.Rest.{routes}
use rkn_checker.Updater.{
  Attempt, UpdateStore, Scheduler, execute_update, attempts_from, record_success,
}
use rkn_checker.Updater.Attempts.{FirstSuccess, attempts_from-FirstSuccess}
use rkn_checker.Updater.Goroutines.{selecting}
use rkn_checker.Updater.Lifecycle.{
  World, Event, starts, begins, attempts, records, run, step, start,
}
use rkn_checker.Updater.Panics.{new_world}
use rkn_checker.System.{scheduled_store, listed_store, Shows, serve-run}
use rkn_checker.Tests.Platforms.{small_platform, small_float, small_float-HasBits}
use rkn_checker.Tests.Stores.{registry}
use rkn_checker.Tests.Schedulers.{config}
use rkn_checker.Tests.Deliveries.{library, reading, reading-Dispatches, post, asks}

abbrev takes_registry : ℕ → Attempt DomainError
takes_registry i = record { ended_in_wait = none; fetched = ok registry }

abbrev life : List (Event DomainError)
life = starts ∷ begins 0 ∷ attempts 0 takes_registry ∷ records 0 9 ∷ []

abbrev clock : MemoryStore → Registry → ℕ
clock s r = 5

abbrev scheduled : UpdateStore DomainError MemoryStore
scheduled = scheduled_store small_platform small_float clock (λ e. e)

start_store : MemoryStore
start_store = new_memory_store small_float 0

taken :
    (s' : MemoryStore) × (MemoryStore.update small_platform small_float 5 start_store
        (some registry)
      ≡ ok s')
taken = update-ok small_platform small_float 5 start_store registry

abbrev after_update : Scheduler DomainError
after_update = record {
  running = true;
  last_update = 9;
  last_error = none;
  consecutive_failures = 0;
  total_updates = 1;
  successful_updates = 1;
  stop_closed = false;
  trigger_pending = false;
  done_closed = false;
}

abbrev reached : World DomainError MemoryStore
reached = record { sched = after_update; stored = taken.0; phases = selecting ∷ [] }

first_attempt : FirstSuccess scheduled takes_registry start_store 0 3 (taken.0)
unfolding execute_update scheduled_store registry_size
first_attempt = record {
  index = 0;
  from = omega arith;
  below = omega arith;
  succeeds = rw (taken.1, scheduled_store) refl;
  before = λ j le lt. absurd (omega arith);
  alive = λ j le ge. ground arith;
}

attempted_first : attempts_from scheduled takes_registry 0 3 none start_store ≡ ok (taken.0)
attempted_first =
    attempts_from-FirstSuccess scheduled takes_registry start_store 0 3 none (taken.0) first_attempt

life_runs : run scheduled config life (new_world start_store) ≡ some reached
unfolding run step start record_success
life_runs = rw (run, step, attempted_first) refl

serve-run_example :
    (v : World DomainError (List RegistryEntry)) × (run listed_store config life (new_world [])
      ≡ some v)
    × Shows small_platform small_float clock
        (λ e. e)
        small_float-HasBits
        library
        reading
        config
        (λ time. [])
        12
        (post (bytes "http://www.Example.com:80/x"))
        (bytes "http://www.Example.com:80/x")
        reached
        v
unfolding start_store
serve-run_example =
    serve-run small_platform small_float clock (λ e. e) small_float-HasBits library reading config
      (λ time. []) 12 (post (bytes "http://www.Example.com:80/x"))
      (bytes "http://www.Example.com:80/x") 0 life reached
      (λ checker. reading-Dispatches (routes library checker))
      (asks b'h' (bytes "ttp://www.Example.com:80/x")) life_runs
