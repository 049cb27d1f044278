-- ===== src/Main/Ticker.antt =====
-- The interval of the updates, which Validate does not look at.
use mathlib.Core.Path.{subst}
use rkn_checker.Prelude.{
  false, ℕ, ◌≡◌, refl, List, [], ◌∷◌, some, inl, inr, some_inj, Option-cases, get_or, arith,
}
use rkn_checker.Prelude.Integers.{pos, ◌≤ℤ◌}
use rkn_checker.Updater.{UpdateStore, trigger_update}
use rkn_checker.Updater
use rkn_checker.Updater.Goroutines.{
  Phase, starting, selecting, attempting, succeeded, failed, closing, gone, is_gone, has_begun,
  bit_of, how_many, le-how_many,
}
use rkn_checker.Updater.Lifecycle.{
  World, Event, starts, stops, triggers, begins, ticks, takes_trigger, attempts, records, sees_done,
  sees_stop, closes, phase_of, run, step, start, stop,
}
use rkn_checker.Updater.Panics.{new_world}
use rkn_checker.Configuration.{UpdateConfig, scheduler_config}

zero_ticks : (u : UpdateConfig) → u.interval ≤ℤ pos 0 → (scheduler_config u).interval ≡ 0
unfolding scheduler_config
zero_ticks u small = ground arith

module _ {E S : Type 0} (store : UpdateStore E S) (config : Updater.Config)
    (still : config.interval ≡ 0) where
  -- No goroutine got past its ticker.
  record IsUntouched (s : S) (w : World E S) : Type 0 where
    kept : w.stored ≡ s
    none_made : w.sched.total_updates ≡ 0
    before_ticker : how_many has_begun w.phases ≡ 0

  there_of : (p : Phase E) → bit_of (has_begun p) ≡ 1 → is_gone p ≡ false
  there_of gone begun = absurd (omega arith)
  there_of _ begun = refl

  not_begun :
      (i : ℕ) (p : Phase E) (w : World E S) (s : S)
      → get_or w.phases i gone ≡ p
      → bit_of (has_begun p) ≡ 1
      → ¬ IsUntouched s w
  not_begun i p w s at begun u =
      absurd
        (omega (arith, le-how_many has_begun w.phases i p at (there_of p begun), u.before_ticker))

  step-IsUntouched :
      (e : Event E) (phase : Phase E) (s : S) (w w' : World E S)
      → phase_of e w.phases ≡ phase
      → IsUntouched s w
      → step store config e phase w ≡ some w'
      → IsUntouched s w'
  unfolding step start stop trigger_update
  step-IsUntouched starts phase s w w' at u stepped = ground arith
  step-IsUntouched stops phase s w w' at u stepped = ground arith
  step-IsUntouched triggers phase s w w' at u stepped = ground arith
  step-IsUntouched (begins i) starting s w w' at u stepped = cc (rw still at stepped)
  step-IsUntouched (ticks i) selecting s w w' at u stepped =
      absurd (not_begun i selecting w s at refl u)
  step-IsUntouched (takes_trigger i) selecting s w w' at u stepped =
      absurd (not_begun i selecting w s at refl u)
  step-IsUntouched (attempts i env) attempting s w w' at u stepped =
      absurd (not_begun i attempting w s at refl u)
  step-IsUntouched (records i now) succeeded s w w' at u stepped =
      absurd (not_begun i succeeded w s at refl u)
  step-IsUntouched (records i now) (failed e) s w w' at u stepped =
      absurd (not_begun i (failed e) w s at refl u)
  step-IsUntouched (sees_done i) selecting s w w' at u stepped =
      absurd (not_begun i selecting w s at refl u)
  step-IsUntouched (sees_stop i) selecting s w w' at u stepped =
      absurd (not_begun i selecting w s at refl u)
  step-IsUntouched (closes i) closing s w w' at u stepped =
      absurd (not_begun i closing w s at refl u)
  step-IsUntouched _ phase s w w' at u stepped = subst (IsUntouched s) (some_inj stepped) u

  run-IsUntouched :
      (es : List (Event E)) (s : S) (w w' : World E S)
      → IsUntouched s w
      → run store config es w ≡ some w'
      → IsUntouched s w'
  unfolding run
  run-IsUntouched [] s w w' u ran = subst (IsUntouched s) (some_inj ran) u
  run-IsUntouched (e ∷ es) s w w' u ran =
      elim (Option-cases (step store config e (phase_of e w.phases) w)) [
        | inl panic ↦ cc (rw (panic, run) at ran)
        | inr (w1, stepped) ↦
            run-IsUntouched es s w1 w'
              (step-IsUntouched e (phase_of e w.phases) s w w1 refl u stepped)
              (rw (stepped, run) at ran)
      ]

-- Where the interval of a configuration is not positive, no update is ever made without a panic:
-- after every order of steps of a new scheduler in which nothing panics, however often it is
-- started, stopped and triggered, the store is as it was and the count of updates is 0.
pub run-not_positive :
    {E S : Type 0} (store : UpdateStore E S) (u : UpdateConfig) (s : S) (es : List (Event E))
    (w : World E S)
    → u.interval ≤ℤ pos 0
    → run store (scheduler_config u) es (new_world s) ≡ some w
    → (w.stored ≡ s) × (w.sched.total_updates ≡ 0)
run-not_positive store u s es w small ran =
    let end =
      run-IsUntouched store (scheduler_config u) (zero_ticks u small) es s (new_world s) w
        (record { kept = refl; none_made = refl; before_ticker = refl }) ran in
    (end.kept, end.none_made)
