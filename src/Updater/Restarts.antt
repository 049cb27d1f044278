-- ===== src/Updater/Restarts.antt =====
-- A scheduler of internal/infrastructure/updater/scheduler.go that is started again after its end:
-- stopCh and doneCh are made once, by NewScheduler.
use rkn_checker.Prelude.{
  ℕ, ◌<◌, ◌==◌, ◌≤◌, ◌≡◌, refl, true, false, none, some, arith, Option-cases, inl, inr, List, [],
  ◌∷◌, some_inj, get_or, set, Result, ok, err,
}
use mathlib.Core.Path.{subst}
use rkn_checker.Updater.{UpdateError, UpdateStore, Config, record_success, record_failure}
use rkn_checker.Updater.Goroutines.{
  Phase, starting, selecting, attempting, succeeded, failed, closing, gone, is_left, is_gone,
  how_many, how_many-set,
}
use rkn_checker.Updater.Lifecycle.{
  start, leave, close_done, World, Event, starts, stops, triggers, sees_done, sees_stop, closes,
  begins, ticks, takes_trigger, attempts, records, phase_of, attempted, step, run, of_either,
  of_guard,
}
use rkn_checker.Updater.Panics.{is_left_of}

module _ {E S : Type 0} (store : UpdateStore E S) (config : Config) where
  -- doneCh stays closed, and no goroutine gets to its end, since it would close doneCh again.
  record Outlives (w w' : World E S) : Type 0 where
    still_closed : w'.sched.done_closed ≡ true
    none_ends : how_many is_left w.phases ≤ how_many is_left w'.phases

  moved-Outlives :
      (i : ℕ) (p q : Phase E) (w w' : World E S)
      → get_or w.phases i gone ≡ p
      → is_gone p ≡ false
      → is_gone q ≡ false
      → w'.phases ≡ set w.phases i q
      → w'.sched.done_closed ≡ true
      → Outlives w w'
  moved-Outlives i p q w w' at there there' moved done = record {
    still_closed = done;
    none_ends = rw moved (
        ground (
          arith,
          how_many-set is_left w.phases i p q at there,
          is_left_of p there,
          is_left_of q there',
        ));
  }

  attempted-Outlives :
      (i : ℕ) (w : World E S) (result : Result (UpdateError E) S)
      → get_or w.phases i gone ≡ attempting
      → w.sched.done_closed ≡ true
      → Outlives w (attempted store config i w result)
  attempted-Outlives i w (ok s') at done =
      moved-Outlives i attempting succeeded w (attempted store config i w (ok s')) at refl refl refl
        done
  attempted-Outlives i w (err e) at done =
      moved-Outlives i attempting (failed e) w (attempted store config i w (err e)) at refl refl
        refl done

  step-Outlives :
      (e : Event E) (phase : Phase E) (w w' : World E S)
      → phase_of e w.phases ≡ phase
      → w.sched.done_closed ≡ true
      → step store config e phase w ≡ some w'
      → Outlives w w'
  unfolding step leave close_done record_success record_failure
  step-Outlives starts phase w w' at done stepped = ground arith
  step-Outlives stops phase w w' at done stepped = ground arith
  step-Outlives triggers phase w w' at done stepped = ground arith
  step-Outlives (begins i) starting w w' at done stepped =
      subst (Outlives w) (some_inj (of_guard (config.interval == 0) stepped))
        (moved-Outlives i starting attempting w _ at refl refl refl done)
  step-Outlives (ticks i) selecting w w' at done stepped =
      subst (Outlives w) (some_inj stepped)
        (moved-Outlives i selecting attempting w _ at refl refl refl done)
  step-Outlives (takes_trigger i) selecting w w' at done stepped =
      of_either (Outlives w) w.sched.trigger_pending stepped
        (moved-Outlives i selecting attempting w _ at refl refl refl done)
        (record { still_closed = done; none_ends = omega arith })
  step-Outlives (attempts i env) attempting w w' at done stepped =
      subst (Outlives w) (some_inj stepped) (attempted-Outlives i w _ at done)
  step-Outlives (records i now) succeeded w w' at done stepped =
      subst (Outlives w) (some_inj stepped)
        (moved-Outlives i succeeded selecting w _ at refl refl refl done)
  step-Outlives (records i now) (failed e) w w' at done stepped =
      subst (Outlives w) (some_inj stepped)
        (moved-Outlives i (failed e) selecting w _ at refl refl refl done)
  step-Outlives (sees_done i) selecting w w' at done stepped =
      subst (Outlives w) (some_inj stepped)
        (moved-Outlives i selecting closing w _ at refl refl refl done)
  step-Outlives (sees_stop i) selecting w w' at done stepped =
      of_either (Outlives w) w.sched.stop_closed stepped
        (moved-Outlives i selecting closing w _ at refl refl refl done)
        (record { still_closed = done; none_ends = omega arith })
  step-Outlives (closes i) closing w w' at done stepped = ground arith
  step-Outlives e phase w w' at done stepped =
      subst (Outlives w) (some_inj stepped)
        (record { still_closed = done; none_ends = omega arith })

  run-Outlives :
      (es : List (Event E)) (w w' : World E S)
      → w.sched.done_closed ≡ true
      → run store config es w ≡ some w'
      → Outlives w w'
  unfolding run
  run-Outlives [] w w' done ran =
      subst (Outlives w) (some_inj ran) (record { still_closed = done; none_ends = omega arith })
  run-Outlives (e ∷ es) w w' done ran =
      elim (Option-cases (step store config e (phase_of e w.phases) w)) [
        | inl panic ↦ cc (rw (panic, run) at ran)
        | inr (w1, stepped) ↦
            let first = step-Outlives e (phase_of e w.phases) w w1 refl done stepped in
            let rest = run-Outlives es w1 w' first.still_closed (rw (stepped, run) at ran) in
            record {
              still_closed = rest.still_closed;
              none_ends = omega (arith, first.none_ends, rest.none_ends);
            }
      ]

  -- Where a goroutine has closed doneCh and none is running, Start is accepted, and whatever happens
  -- after it in which nothing panics, at least one goroutine more than before is still there; a
  -- goroutine that comes to its last deferred call panics.
  pub leave-start-leave :
      (es : List (Event E)) (w w' : World E S)
      → w.sched.done_closed ≡ true
      → w.sched.running ≡ false
      → run store config (starts ∷ es) w ≡ some w'
      → (how_many is_left w.phases < how_many is_left w'.phases)
        × ((i : ℕ) → get_or w'.phases i gone ≡ closing → run store config (closes i ∷ []) w' ≡ none)
  unfolding run step start close_done
  leave-start-leave es w w' done idle ran =
      let after : World E S = record w {
        sched = record (w.sched) { running = true };
        phases = starting ∷ w.phases;
      } in
      let ran' : run store config es after ≡ some w' = rw (run, step, start, idle) at ran in
      let rest = run-Outlives es after w' done ran' in
      (
        omega (arith, rest.none_ends),
        λ i at. rw (run, step, at, close_done, rest.still_closed) refl,
      )
