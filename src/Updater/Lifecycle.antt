-- ===== src/Updater/Lifecycle.antt =====
-- Start, Stop and the goroutines of run, as steps in any order. A step that the state does not allow
-- leaves it; a panic of Go is `none`, as that of time.NewTicker at an interval that is not positive.
-- A performUpdate is three steps, as it holds the lock: it counts the update, it makes its attempts,
-- of which at most the last changes the store, and it records how they ended.
use rkn_checker.Prelude.{
  ℕ, ◌+◌, ◌≡◌, refl, Bool, true, false, Option, none, some, Result, ok, err, if◌then◌else◌,
  Result-cases, inl, inr, List, [], ◌∷◌, some_inj, ◌==◌, get_or, set,
}
use mathlib.Core.Path.{subst}
use rkn_checker.Updater.{
  Attempt, UpdateError, UpdateStore, Config, Scheduler, perform_update, trigger_update,
  attempts_from, record_success, record_failure,
}
use rkn_checker.Updater.Goroutines.{
  Phase, starting, selecting, attempting, succeeded, failed, closing, gone,
}

pub data LifecycleError : Type 0 where
  already_running not_running : LifecycleError

-- Start; the caller spawns run on success
unfoldable pub start : {E : Type 0} → Scheduler E → Result LifecycleError (Scheduler E)
start s = if s.running then err already_running else ok (record s { running = true })

-- Stop, up to its wait for doneCh; to close a closed channel is a panic
unfoldable pub stop : {E : Type 0} → Scheduler E → Option (Result LifecycleError (Scheduler E))
stop s =
    if s.running
    then (if s.stop_closed then none else some (ok (record s { stop_closed = true })))
    else some (err not_running)

-- The deferred calls of run, in the order they are made: running = false, and then close(doneCh)
unfoldable pub leave : {E : Type 0} → Scheduler E → Scheduler E
leave s = record s { running = false }

unfoldable pub close_done : {E : Type 0} → Scheduler E → Option (Scheduler E)
close_done s = if s.done_closed then none else some (record s { done_closed = true })

-- The goroutines that were started, the last one first, with the scheduler and the store they share.
pub record World (E S : Type 0) : Type 0 where
  pub sched : Scheduler E
  pub stored : S
  pub phases : List (Phase E)

-- A call of Start, Stop or TriggerUpdate, or a step of the goroutine with an index: three begin an
-- update, two go on with it, and three end the goroutine.
pub data Event (E : Type 0) : Type 0 where
  starts stops triggers : Event E
  begins ticks takes_trigger : (i : ℕ) → Event E
  attempts : (i : ℕ) (env : ℕ → Attempt E) → Event E
  records : (i now : ℕ) → Event E
  sees_done sees_stop closes : (i : ℕ) → Event E

abbrev pub phase_of : {E : Type 0} → Event E → List (Phase E) → Phase E
phase_of (begins i) ps = get_or ps i gone
phase_of (ticks i) ps = get_or ps i gone
phase_of (takes_trigger i) ps = get_or ps i gone
phase_of (attempts i env) ps = get_or ps i gone
phase_of (records i now) ps = get_or ps i gone
phase_of (sees_done i) ps = get_or ps i gone
phase_of (sees_stop i) ps = get_or ps i gone
phase_of (closes i) ps = get_or ps i gone
phase_of _ ps = gone

module _ {E S : Type 0} (store : UpdateStore E S) (config : Config) where
  -- The beginning of performUpdate.
  abbrev pub counted_in : ℕ → World E S → World E S
  counted_in i w = record w {
    sched = record (w.sched) { total_updates = w.sched.total_updates + 1 };
    phases = set w.phases i attempting;
  }

  -- The end of the loop of performUpdate.
  abbrev pub attempted : ℕ → World E S → Result (UpdateError E) S → World E S
  attempted i w (ok s') = record w { stored = s'; phases = set w.phases i succeeded }
  attempted i w (err e) = record w { phases = set w.phases i (failed e) }

  -- The end of performUpdate.
  abbrev pub recorded : ℕ → World E S → Scheduler E → World E S
  recorded i w sched' = record w { sched = sched'; phases = set w.phases i selecting }

  -- The goroutine takes the token from triggerCh.
  abbrev pub cleared : World E S → World E S
  cleared w = record w { sched = record (w.sched) { trigger_pending = false } }

  abbrev pub left : ℕ → World E S → World E S
  left i w = record w { sched = leave w.sched; phases = set w.phases i closing }

  abbrev pub closed : ℕ → World E S → Option (Scheduler E) → Option (World E S)
  closed i w none = none
  closed i w (some sched') = some (record w { sched = sched'; phases = set w.phases i gone })

  abbrev pub stopped : World E S → Option (Result LifecycleError (Scheduler E)) → Option (World E S)
  stopped w none = none
  stopped w (some (err e)) = some w
  stopped w (some (ok sched')) = some (record w { sched = sched' })

  abbrev pub started : World E S → Result LifecycleError (Scheduler E) → World E S
  started w (err e) = w
  started w (ok sched') = record w { sched = sched'; phases = starting ∷ w.phases }

  -- One step, of a caller or of a goroutine at a phase.
  unfoldable pub step : Event E → Phase E → World E S → Option (World E S)
  unfolding start stop leave close_done trigger_update attempts_from record_success record_failure
  step starts phase w = some (started w (start w.sched))
  step stops phase w = stopped w (stop w.sched)
  step triggers phase w = some (record w { sched = trigger_update w.sched })
  step (begins i) starting w = if config.interval == 0 then none else some (counted_in i w)
  step (ticks i) selecting w = some (counted_in i w)
  step (takes_trigger i) selecting w =
      some (if w.sched.trigger_pending then counted_in i (cleared w) else w)
  step (attempts i env) attempting w =
      some (attempted i w (attempts_from store env 0 config.max_retries none w.stored))
  step (records i now) succeeded w = some (recorded i w (record_success now w.sched))
  step (records i now) (failed e) w = some (recorded i w (record_failure e w.sched))
  step (sees_done i) selecting w = some (left i w)
  step (sees_stop i) selecting w = some (if w.sched.stop_closed then left i w else w)
  step (closes i) closing w = closed i w (close_done w.sched)
  step _ phase w = some w

  unfoldable pub run : List (Event E) → World E S → Option (World E S)
  unfolding step
  run [] w = some w
  run (e ∷ es) w = elim (step e (phase_of e w.phases) w) [ none ↦ none | some w' ↦ run es w' ]

pub of_either :
    {A : Type 0} (P : A → Type 0) (b : Bool) {x y z : A}
    → some (if b then x else y) ≡ some z
    → P x
    → P y
    → P z
of_either P true e px py = subst P (some_inj e) px
of_either P false e px py = subst P (some_inj e) py

pub of_guard :
    {A : Type 0} (b : Bool) {x z : A} → (if b then none else some x) ≡ some z → some x ≡ some z
of_guard true e = cc e
of_guard false e = e

module _ {E S : Type 0} (store : UpdateStore E S) (config : Config) where
  -- The three steps of an update, one after the other, are performUpdate.
  pub run-perform_update :
      (env : ℕ → Attempt E) (now : ℕ) (sched : Scheduler E) (s : S) (ps : List (Phase E))
      → run store config
          (ticks 0 ∷ attempts 0 env ∷ records 0 now ∷ [])
          (record { sched = sched; stored = s; phases = selecting ∷ ps })
        ≡ some (record {
          sched = (perform_update store config env now (sched, s)).0;
          stored = (perform_update store config env now (sched, s)).1;
          phases = selecting ∷ ps;
        })
  unfolding run perform_update
  run-perform_update env now sched s ps =
      elim (Result-cases (attempts_from store env 0 config.max_retries none s)) [
        | inl (s', good) ↦ rw (run, step, perform_update, good) refl
        | inr (e, bad) ↦ rw (run, step, perform_update, bad) refl
      ]
