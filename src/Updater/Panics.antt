-- ===== src/Updater/Panics.antt =====
-- Which orders of Start and Stop make the program panic.
use rkn_checker.Prelude.{
  ℕ, suc, ◌+◌, ◌<◌, ◌==◌, ◌≤◌, ◌≡◌, refl, ◌≢◌, true, false, none, some, ok, arith, Option-cases,
  inl, inr, List, [], ◌∷◌, some_inj, get_or, set, Result, err,
}
use mathlib.Core.Path.{subst}
use rkn_checker.Updater.{
  UpdateError, UpdateStore, Config, Scheduler, new_scheduler, record_success, record_failure,
}
use rkn_checker.Updater.Lifecycle.{
  stop, leave, close_done, World, Event, starts, stops, triggers, sees_done, sees_stop, closes,
  begins, ticks, takes_trigger, attempts, records, phase_of, attempted, closed, step, run,
  of_either, of_guard,
}
use rkn_checker.Updater.Goroutines.{
  Phase, starting, selecting, attempting, succeeded, failed, closing, gone, is_left, is_gone,
  bit_of, how_many, how_many-set, le-how_many,
}

-- How many calls of Start and of Stop are still to come.
abbrev pub starts_in : {E : Type 0} → List (Event E) → ℕ
starts_in [] = 0
starts_in (starts ∷ es) = suc (starts_in es)
starts_in (_ ∷ es) = starts_in es

abbrev pub stops_in : {E : Type 0} → List (Event E) → ℕ
stops_in [] = 0
stops_in (stops ∷ es) = suc (stops_in es)
stops_in (_ ∷ es) = stops_in es

-- At most one Stop over the whole life, and at most one Start, whose goroutine is at its end, not
-- yet there, or still to come.
record IsSpare {E S : Type 0} (w : World E S) (es : List (Event E)) : Type 0 where
  one_stop : bit_of w.sched.stop_closed + stops_in es ≤ 1
  one_start : how_many is_left w.phases + bit_of w.sched.done_closed + starts_in es ≤ 1

pub is_left_of : {E : Type 0} (p : Phase E) → is_gone p ≡ false → is_left p ≡ true
is_left_of starting there = refl
is_left_of selecting there = refl
is_left_of closing there = refl
is_left_of attempting there = refl
is_left_of succeeded there = refl
is_left_of (failed e) there = refl
is_left_of gone there = cc there

module _ {E S : Type 0} (store : UpdateStore E S) (config : Config)
    (ticking : 0 < config.interval) where
  step-ne-none :
      (e : Event E) (phase : Phase E) (es : List (Event E)) (w : World E S)
      → phase_of e w.phases ≡ phase
      → IsSpare w (e ∷ es)
      → step store config e phase w ≢ none
  unfolding step stop close_done
  step-ne-none stops phase es w at spare = ground (arith, spare.one_stop)
  step-ne-none (closes i) closing es w at spare =
      ground (arith, spare.one_start, le-how_many is_left w.phases i closing at refl)
  step-ne-none _ phase es w at spare = ground arith

  -- A step within the life of a goroutine that leaves both channels as they are.
  moved-IsSpare :
      (i : ℕ) (p q : Phase E) (es : List (Event E)) (w w' : World E S)
      → get_or w.phases i gone ≡ p
      → is_gone p ≡ false
      → is_gone q ≡ false
      → w'.phases ≡ set w.phases i q
      → w'.sched.stop_closed ≡ w.sched.stop_closed
      → w'.sched.done_closed ≡ w.sched.done_closed
      → IsSpare w es
      → IsSpare w' es
  moved-IsSpare i p q es w w' at there there' moved same_stop same_done spare = record {
    one_stop = rw same_stop spare.one_stop;
    one_start =
        rw (moved, same_done)
          (ground (
            arith,
            how_many-set is_left w.phases i p q at there,
            is_left_of p there,
            is_left_of q there',
            spare.one_start,
          ));
  }

  attempted-IsSpare :
      (i : ℕ) (es : List (Event E)) (w : World E S) (result : Result (UpdateError E) S)
      → get_or w.phases i gone ≡ attempting
      → IsSpare w es
      → IsSpare (attempted store config i w result) es
  attempted-IsSpare i es w (ok s') at spare =
      moved-IsSpare i attempting succeeded es w _ at refl refl refl refl refl spare
  attempted-IsSpare i es w (err e) at spare =
      moved-IsSpare i attempting (failed e) es w _ at refl refl refl refl refl spare

  closed-IsSpare :
      (i : ℕ) (es : List (Event E)) (w w' : World E S)
      → get_or w.phases i gone ≡ closing
      → IsSpare w es
      → closed store config i w (close_done w.sched) ≡ some w'
      → IsSpare w' es
  unfolding close_done
  closed-IsSpare i es w w' at spare stepped =
      ground (
        arith,
        how_many-set is_left w.phases i closing gone at refl,
        spare.one_start,
        spare.one_stop,
      )

  step-IsSpare :
      (e : Event E) (phase : Phase E) (es : List (Event E)) (w w' : World E S)
      → phase_of e w.phases ≡ phase
      → IsSpare w (e ∷ es)
      → step store config e phase w ≡ some w'
      → IsSpare w' es
  unfolding step leave record_success record_failure
  step-IsSpare starts phase es w w' at spare stepped = ground arith
  step-IsSpare stops phase es w w' at spare stepped = ground arith
  step-IsSpare triggers phase es w w' at spare stepped = ground arith
  step-IsSpare (begins i) starting es w w' at spare stepped =
      subst (λ v. IsSpare v es) (some_inj (of_guard (config.interval == 0) stepped))
        (moved-IsSpare i starting attempting es w _ at refl refl refl refl refl
          (record { one_stop = spare.one_stop; one_start = spare.one_start }))
  step-IsSpare (ticks i) selecting es w w' at spare stepped =
      subst (λ v. IsSpare v es) (some_inj stepped)
        (moved-IsSpare i selecting attempting es w _ at refl refl refl refl refl
          (record { one_stop = spare.one_stop; one_start = spare.one_start }))
  step-IsSpare (takes_trigger i) selecting es w w' at spare stepped =
      of_either (λ v. IsSpare v es) w.sched.trigger_pending stepped
        (moved-IsSpare i selecting attempting es w _ at refl refl refl refl refl
          (record { one_stop = spare.one_stop; one_start = spare.one_start }))
        (record { one_stop = spare.one_stop; one_start = spare.one_start })
  step-IsSpare (attempts i env) attempting es w w' at spare stepped =
      subst (λ v. IsSpare v es) (some_inj stepped)
        (attempted-IsSpare i es w _ at
          (record { one_stop = spare.one_stop; one_start = spare.one_start }))
  step-IsSpare (records i now) succeeded es w w' at spare stepped =
      subst (λ v. IsSpare v es) (some_inj stepped)
        (moved-IsSpare i succeeded selecting es w _ at refl refl refl refl refl
          (record { one_stop = spare.one_stop; one_start = spare.one_start }))
  step-IsSpare (records i now) (failed e) es w w' at spare stepped =
      subst (λ v. IsSpare v es) (some_inj stepped)
        (moved-IsSpare i (failed e) selecting es w _ at refl refl refl refl refl
          (record { one_stop = spare.one_stop; one_start = spare.one_start }))
  step-IsSpare (sees_done i) selecting es w w' at spare stepped =
      subst (λ v. IsSpare v es) (some_inj stepped)
        (moved-IsSpare i selecting closing es w _ at refl refl refl refl refl
          (record { one_stop = spare.one_stop; one_start = spare.one_start }))
  step-IsSpare (sees_stop i) selecting es w w' at spare stepped =
      of_either (λ v. IsSpare v es) w.sched.stop_closed stepped
        (moved-IsSpare i selecting closing es w _ at refl refl refl refl refl
          (record { one_stop = spare.one_stop; one_start = spare.one_start }))
        (record { one_stop = spare.one_stop; one_start = spare.one_start })
  step-IsSpare (closes i) closing es w w' at spare stepped =
      closed-IsSpare i es w w' at
        (record { one_stop = spare.one_stop; one_start = spare.one_start }) stepped
  step-IsSpare e phase es w w' at spare stepped =
      subst (λ v. IsSpare v es) (some_inj stepped)
        (record { one_stop = spare.one_stop; one_start = spare.one_start })

  run-IsSpare : (es : List (Event E)) (w : World E S) → IsSpare w es → run store config es w ≢ none
  unfolding run
  run-IsSpare [] w spare e = cc
  run-IsSpare (e ∷ es) w spare panicked =
      elim (Option-cases (step store config e (phase_of e w.phases) w)) [
        | inl panic ↦ step-ne-none e (phase_of e w.phases) es w refl spare panic
        | inr (w1, stepped) ↦
            run-IsSpare es w1 (step-IsSpare e (phase_of e w.phases) es w w1 refl spare stepped)
              (rw (stepped, run) at panicked)
      ]

abbrev pub new_world : {E S : Type 0} → S → World E S
new_world s = record { sched = new_scheduler; stored = s; phases = [] }

-- From a new scheduler, in every order of the other steps, nothing panics where Start and Stop are
-- called once at most each and the interval is positive.
pub run-ne-panic :
    {E S : Type 0} (store : UpdateStore E S) (config : Config) (s : S) (es : List (Event E))
    → 0 < config.interval
    → starts_in es ≤ 1
    → stops_in es ≤ 1
    → run store config es (new_world s) ≢ none
run-ne-panic store config s es ticking one_start one_stop =
    run-IsSpare store config ticking es (new_world s)
      (record { one_stop = omega arith; one_start = omega arith })

-- A Stop right after a Stop that returned no error closes stopCh again, which is a panic.
pub stop-stop : {E : Type 0} (s s' : Scheduler E) → stop s ≡ some (ok s') → stop s' ≡ none
unfolding stop
stop-stop s s' h = ground arith
