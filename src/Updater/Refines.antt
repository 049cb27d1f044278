-- ===== src/Updater/Refines.antt =====
-- Two stores behind the same scheduler, one of which stands for the other.
use rkn_checker.Prelude.{
  ℕ, zero, suc, ◌+◌, ◌≡◌, refl, ◌⊎◌, inl, inr, ◌==◌, Bool, true, false, List, [], ◌∷◌, Option, none,
  some, Result, ok, err, set, if◌then◌else◌, Bool-cases, Result-cases,
}
use rkn_checker.Domain.Registry.{Registry, registry_size}
use rkn_checker.Updater.{
  Attempt, AttemptError, UpdateError, UpdateStore, Config, Scheduler, execute_update, attempts_from,
  record_success, record_failure, trigger_update,
}
use rkn_checker.Updater.Goroutines.{
  Phase, starting, selecting, attempting, succeeded, failed, closing, gone,
}
use rkn_checker.Updater.Lifecycle.{
  World, Event, starts, stops, triggers, sees_done, sees_stop, closes, begins, ticks, takes_trigger,
  attempts, records, phase_of, step, run, counted_in, attempted, closed, started, stopped,
  LifecycleError, start, stop, leave, close_done,
}

-- Both give the same error, or both give a state and the states are related.
abbrev pub Matches : {E S A : Type 0} → (S → A → Type 0) → Result E S → Result E A → Type 0
Matches {E} {S} {A} R x y =
    ((e : E) × (x ≡ err e) × (y ≡ err e)) ⊎ ((s : S) × (a : A) × (x ≡ ok s) × (y ≡ ok a) × R s a)

-- What a store owes the one that it implements: its Update matches, and so does its Size.
pub record Refines {E S A : Type 0} (store : UpdateStore E S) (spec : UpdateStore E A)
    (R : S → A → Type 0) : Type 0 where
  pub update :
      (s : S) (a : A) (registry : Registry)
      → R s a
      → Matches R (store.update s registry) (spec.update a registry)
  pub size : (s : S) (a : A) → R s a → store.size s ≡ spec.size a

module _ {E S A : Type 0} (store : UpdateStore E S) (spec : UpdateStore E A) (R : S → A → Type 0)
    (refines : Refines store spec R) where
  execute_update-Matches :
      (s : S) (a : A) (fetched : Result E Registry)
      → R s a
      → Matches R (execute_update store s fetched) (execute_update spec a fetched)
  unfolding execute_update
  execute_update-Matches s a (err e) same = inl (_, refl, refl)
  execute_update-Matches s a (ok registry) same = elim (Bool-cases (registry_size registry == 0)) [
    | inl empty ↦ rw empty (inl (_, refl, refl))
    | inr full ↦ elim (refines.update s a registry same) [
      | inl (e, bad, bad') ↦ rw (full, bad, bad') (inl (_, refl, refl))
      | inr (s', a', good, good', same') ↦ rw (full, good, good') (inr (s', a', refl, refl, same'))
    ]
  ]

  waits-Matches :
      (first : Bool) (ended : Option E) (x : Result (UpdateError E) S)
      (y : Result (UpdateError E) A)
      → Matches R x y
      → Matches R
          (if first then x else elim ended [ some e ↦ err (UpdateError.context_done e) | none ↦ x ])
          (if first then y else elim ended [ some e ↦ err (UpdateError.context_done e) | none ↦ y ])
  waits-Matches true ended x y same = same
  waits-Matches false none x y same = same
  waits-Matches false (some e) x y same = inl (_, refl, refl)

  attempts_from-Matches :
      (env : ℕ → Attempt E) (attempt left : ℕ) (last : Option (AttemptError E)) (s : S) (a : A)
      → R s a
      → Matches R
          (attempts_from store env attempt left last s)
          (attempts_from spec env attempt left last a)
  unfolding attempts_from
  attempts_from-Matches env attempt zero last s a same = inl (_, refl, refl)
  attempts_from-Matches env attempt (suc left) last s a same =
      waits-Matches (attempt == 0) (env attempt).ended_in_wait _ _
        (elim (execute_update-Matches s a (env attempt).fetched same) [
          | inl (e, bad, bad') ↦
              rw (bad, bad') (attempts_from-Matches env (suc attempt) left (some e) s a same)
          | inr (s', a', good, good', same') ↦ rw (good, good') (inr (s', a', refl, refl, same'))
        ])

  module _ (config : Config) where
    abbrev at : {X : Type 0} → Scheduler E → List (Phase E) → X → World E X
    at sched phases x = record { sched = sched; stored = x; phases = phases }

    -- Both panic, or both go on alike.
    abbrev GoesAlike : Option (World E S) → Option (World E A) → Type 0
    GoesAlike x y =
        ((x ≡ none) × (y ≡ none))
        ⊎ ((sched : Scheduler E) × (phases : List (Phase E)) × (s : S) × (a : A) × (x
              ≡ some (at sched phases s))
            × (y ≡ some (at sched phases a))
            × R s a)

    counted_in-GoesAlike :
        (i : ℕ) (sched : Scheduler E) (phases : List (Phase E)) (s : S) (a : A)
        → R s a
        → GoesAlike
            (some (counted_in store config i (at sched phases s)))
            (some (counted_in spec config i (at sched phases a)))
    counted_in-GoesAlike i sched phases s a same = inr (
      record sched { total_updates = sched.total_updates + 1 },
      set phases i attempting,
      s,
      a,
      refl,
      refl,
      same,
    )

    attempted-GoesAlike :
        (i : ℕ) (sched : Scheduler E) (phases : List (Phase E)) (s : S) (a : A)
        (x : Result (UpdateError E) S) (y : Result (UpdateError E) A)
        → R s a
        → Matches R x y
        → GoesAlike
            (some (attempted store config i (at sched phases s) x))
            (some (attempted spec config i (at sched phases a) y))
    attempted-GoesAlike i sched phases s a x y same (inl (e, bad, bad')) =
        inr (sched, set phases i (failed e), s, a, rw bad, rw bad', same)
    attempted-GoesAlike i sched phases s a x y same (inr (s', a', good, good', same')) =
        inr (sched, set phases i succeeded, s', a', rw good, rw good', same')

    closed-GoesAlike :
        (i : ℕ) (sched : Scheduler E) (phases : List (Phase E)) (s : S) (a : A)
        (result : Option (Scheduler E))
        → R s a
        → GoesAlike
            (closed store config i (at sched phases s) result)
            (closed spec config i (at sched phases a) result)
    closed-GoesAlike i sched phases s a none same = inl (refl, refl)
    closed-GoesAlike i sched phases s a (some sched') same =
        inr (sched', set phases i gone, s, a, refl, refl, same)

    started-GoesAlike :
        (sched : Scheduler E) (phases : List (Phase E)) (s : S) (a : A)
        → R s a
        → GoesAlike
            (some (started store config (at sched phases s) (start sched)))
            (some (started spec config (at sched phases a) (start sched)))
    started-GoesAlike sched phases s a same = elim (Result-cases (start sched)) [
      | inl (sched', done) ↦ inr (sched', starting ∷ phases, s, a, rw done, rw done, same)
      | inr (e, refused) ↦ inr (sched, phases, s, a, rw refused, rw refused, same)
    ]

    stopped-GoesAlike :
        (sched : Scheduler E) (phases : List (Phase E)) (s : S) (a : A)
        (result : Option (Result LifecycleError (Scheduler E)))
        → R s a
        → GoesAlike
            (stopped store config (at sched phases s) result)
            (stopped spec config (at sched phases a) result)
    stopped-GoesAlike sched phases s a none same = inl (refl, refl)
    stopped-GoesAlike sched phases s a (some (err e)) same =
        inr (sched, phases, s, a, refl, refl, same)
    stopped-GoesAlike sched phases s a (some (ok sched')) same =
        inr (sched', phases, s, a, refl, refl, same)

    either-GoesAlike :
        (b : Bool) {x x' : Option (World E S)} {y y' : Option (World E A)}
        → GoesAlike x y
        → GoesAlike x' y'
        → GoesAlike (if b then x else x') (if b then y else y')
    either-GoesAlike true first other = first
    either-GoesAlike false first other = other

    either_some-GoesAlike :
        (b : Bool) {w w' : World E S} {v v' : World E A}
        → GoesAlike (some w) (some v)
        → GoesAlike (some w') (some v')
        → GoesAlike (some (if b then w else w')) (some (if b then v else v'))
    either_some-GoesAlike true first other = first
    either_some-GoesAlike false first other = other

    step-GoesAlike :
        (e : Event E) (phase : Phase E) (sched : Scheduler E) (phases : List (Phase E)) (s : S)
        (a : A)
        → R s a
        → GoesAlike
            (step store config e phase (at sched phases s))
            (step spec config e phase (at sched phases a))
    unfolding step
    step-GoesAlike starts phase sched phases s a same = started-GoesAlike sched phases s a same
    step-GoesAlike stops phase sched phases s a same =
        stopped-GoesAlike sched phases s a (stop sched) same
    step-GoesAlike triggers phase sched phases s a same =
        inr (trigger_update sched, phases, s, a, refl, refl, same)
    step-GoesAlike (begins i) starting sched phases s a same =
        either-GoesAlike (config.interval == 0) (inl (refl, refl))
          (counted_in-GoesAlike i sched phases s a same)
    step-GoesAlike (ticks i) selecting sched phases s a same =
        counted_in-GoesAlike i sched phases s a same
    step-GoesAlike (takes_trigger i) selecting sched phases s a same =
        either_some-GoesAlike sched.trigger_pending
          (counted_in-GoesAlike i (record sched { trigger_pending = false }) phases s a same)
          (inr (sched, phases, s, a, refl, refl, same))
    step-GoesAlike (attempts i env) attempting sched phases s a same =
        attempted-GoesAlike i sched phases s a _ _ same
          (attempts_from-Matches env 0 config.max_retries none s a same)
    step-GoesAlike (records i now) succeeded sched phases s a same =
        inr (record_success now sched, set phases i selecting, s, a, refl, refl, same)
    step-GoesAlike (records i now) (failed e) sched phases s a same =
        inr (record_failure e sched, set phases i selecting, s, a, refl, refl, same)
    step-GoesAlike (sees_done i) selecting sched phases s a same =
        inr (leave sched, set phases i closing, s, a, refl, refl, same)
    step-GoesAlike (sees_stop i) selecting sched phases s a same =
        either_some-GoesAlike sched.stop_closed
          (inr (leave sched, set phases i closing, s, a, refl, refl, same))
          (inr (sched, phases, s, a, refl, refl, same))
    step-GoesAlike (closes i) closing sched phases s a same =
        closed-GoesAlike i sched phases s a (close_done sched) same
    step-GoesAlike _ phase sched phases s a same = inr (sched, phases, s, a, refl, refl, same)

    -- In every order of steps both schedulers do the same, and their stores stay related.
    pub run-GoesAlike :
        (es : List (Event E)) (sched : Scheduler E) (phases : List (Phase E)) (s : S) (a : A)
        → R s a
        → GoesAlike
            (run store config es (at sched phases s))
            (run spec config es (at sched phases a))
    unfolding run
    run-GoesAlike [] sched phases s a same = inr (sched, phases, s, a, refl, refl, same)
    run-GoesAlike (e ∷ es) sched phases s a same =
        elim (step-GoesAlike e (phase_of e phases) sched phases s a same) [
          | inl (panic, panic') ↦ inl (rw (run, panic), rw (run, panic'))
          | inr (sched', phases', s', a', here, there, same') ↦
              rw (run, here, there) (run-GoesAlike es sched' phases' s' a' same')
        ]
