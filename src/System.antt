-- ===== src/System.antt =====
-- The parts as cmd/app/main.go puts them together: the scheduler updates the store that the servers
-- ask. The scheduler's steps come in any order, and a request at any moment between them.
use rkn_checker.Prelude.{
  ℕ, ◌≡◌, refl, ◌∙◌, ap, inl, inr, List, [], some, ok, err, length, some_inj, sym,
}
use mathlib.Core.Path.{subst}
use rkn_checker.Text.{Bytes}
use rkn_checker.Platform.{Platform}
use rkn_checker.Domain.Url.{DomainError}
use rkn_checker.Domain.Registry.{Registry, RegistryEntry}
use rkn_checker.Storage.Bloom.{FloatMath}
use rkn_checker.Storage.Bloom.Bounds.{HasBits}
use rkn_checker.Storage.MemoryStore
use rkn_checker.Storage.MemoryStore.{MemoryStore, new_memory_store, blocked_by}
use rkn_checker.Storage.MemoryStore.Verdict.{verdict, verdict-no_entries}
use rkn_checker.Storage.MemoryStore.Cleared.{is_blocked-new_memory_store}
use rkn_checker.Storage.MemoryStore.Refinement.{is_blocked_of_update, update-ok, entry_count-update}
use rkn_checker.Service.Answers.{url_normalizer, memory_registry_store, answer, check_url-answer}
use rkn_checker.Delivery.{BlockingChecker}
use rkn_checker.Delivery.Http.{Request, Library}
use rkn_checker.Delivery.Rest.{Body, ServeMux, Dispatches, routes, serve}
use rkn_checker.Delivery.Rest.Logged.{answer_of}
use rkn_checker.Delivery.Agreement.{Asks}
use rkn_checker.Delivery.Answered.{service_checker, promised, found, answer_of-promised}
use rkn_checker.Updater.{UpdateStore, Config, Scheduler, get_status, new_scheduler}
use rkn_checker.Updater.Goroutines.{Phase}
use rkn_checker.Updater.Lifecycle.{World, Event, run}
use rkn_checker.Updater.Panics.{new_world}
use rkn_checker.Updater.Refines.{Refines, run-GoesAlike}

-- NewMemoryStore as the scheduler's RegistryStore; `clock` is time.Now in Update, and `wrap` makes
-- an error of the interface out of one of the domain
unfoldable pub scheduled_store :
    {E : Type 0}
    → Platform
    → FloatMath
    → (clock : MemoryStore → Registry → ℕ) → (wrap : DomainError → E) → UpdateStore E MemoryStore
scheduled_store platform float clock wrap = record {
  update = λ s registry.
      elim (MemoryStore.update platform float (clock s registry) s (some registry)) [
        | err e ↦ err (wrap e)
        | ok s' ↦ ok s'
      ];
  size = MemoryStore.size;
}

-- The store of the specification: the entries of the last registry.
abbrev pub listed_store : {E : Type 0} → UpdateStore E (List RegistryEntry)
listed_store = record { update = λ es registry. ok registry.entries; size = length }

-- A store that says of every name what a list of entries asks, and counts the entries.
abbrev pub Represents : Platform → MemoryStore → List RegistryEntry → Type 0
Represents platform s es =
    ((now : ℕ) (host : Bytes)
      → MemoryStore.is_blocked now s host ≡ blocked_by now host (verdict platform es host))
    × (s.entry_count ≡ length es)

module _ {E : Type 0} (platform : Platform) (float : FloatMath) (clock : MemoryStore → Registry → ℕ)
    (wrap : DomainError → E) (positive : HasBits float) where
  scheduled_store-Refines :
      Refines (scheduled_store platform float clock wrap) listed_store (Represents platform)
  unfolding scheduled_store MemoryStore.size
  scheduled_store-Refines = record {
    update = λ s es registry same.
        let (s', done) = update-ok platform float (clock s registry) s registry in
        inr (
          s',
          registry.entries,
          rw (scheduled_store, done),
          refl,
          (
            λ now host.
                is_blocked_of_update platform float (clock s registry) now s s' registry host
                  positive done,
            entry_count-update platform float (clock s registry) s s' registry done,
          ),
        );
    size = λ s es same. same.1;
  }

  new_memory_store-Represents : (now : ℕ) → Represents platform (new_memory_store float now) []
  new_memory_store-Represents then_time = (
    λ now host.
        is_blocked-new_memory_store float then_time now host
        ∙ rw (verdict-no_entries platform host),
    unfold new_memory_store in refl,
  )

  module _ (library : Library Body) (mux : ServeMux) (config : Config) (format : ℕ → Bytes)
      (now : ℕ) (r : Request) (raw : Bytes) where
    -- GetStatus is the same, and the answer to a POST of the URL is what the entries ask.
    abbrev pub Shows : World E MemoryStore → World E (List RegistryEntry) → Type 0
    Shows w v =
        (get_status (scheduled_store platform float clock wrap) config now (w.sched, w.stored)
          ≡ get_status listed_store config now (v.sched, v.stored))
        × (answer_of library (
              serve mux library
                (service_checker (url_normalizer platform) (memory_registry_store platform float)
                  format now w.stored)
                r)
            ≡ promised library (answer platform now v.stored raw))

    Represents-Shows :
        (sched : Scheduler E) (phases : List (Phase E)) (s : MemoryStore) (es : List RegistryEntry)
        → ((checker : BlockingChecker) → Dispatches mux (routes library checker))
        → Asks library r raw
        → Represents platform s es
        → Shows
            (record { sched = sched; stored = s; phases = phases })
            (record { sched = sched; stored = es; phases = phases })
    unfolding get_status scheduled_store MemoryStore.size
    Represents-Shows sched phases s es dispatches asks same =
        let checker =
          service_checker (url_normalizer platform) (memory_registry_store platform float) format
            now s in
        (
          rw same.1,
          answer_of-promised library mux platform checker now es r raw (dispatches checker) asks
              (ap found (check_url-answer platform float now s es raw (same.0 now))),
        )

    -- At any moment of any run of the scheduler from its start in which nothing panics, the program
    -- is in the state of a program whose store is the list of the entries of the registry that it
    -- took last, none at first: GetStatus says the same, and a POST to /api/v1/check of a URL that
    -- is not blank is answered as these entries ask. The mux is assumed to call the handler of the
    -- path, and the formula for the filter's size to give at least one bit, and so few that 63 more
    -- do not wrap in 64 bits.
    pub serve-run :
        (then_time : ℕ) (events : List (Event E)) (w : World E MemoryStore)
        → ((checker : BlockingChecker) → Dispatches mux (routes library checker))
        → Asks library r raw
        → run
            (scheduled_store platform float clock wrap)
            config
            events
            (new_world (new_memory_store float then_time))
          ≡ some w
        → (v : World E (List RegistryEntry)) × (run listed_store config events (new_world [])
            ≡ some v)
          × Shows w v
    serve-run then_time events w dispatches asks ran =
        elim (run-GoesAlike (scheduled_store platform float clock wrap) listed_store
          (Represents platform) scheduled_store-Refines config events new_scheduler []
          (new_memory_store float then_time) [] (new_memory_store-Represents then_time)) [
            | inl (panic, panic') ↦ cc (panic, ran)
            | inr (sched, phases, s, es, here, there, same) ↦ (
              record { sched = sched; stored = es; phases = phases },
              there,
              subst (λ w'. Shows w' (record { sched = sched; stored = es; phases = phases }))
                  (some_inj (sym here ∙ ran))
                  (Represents-Shows sched phases s es dispatches asks same),
            )
          ]
