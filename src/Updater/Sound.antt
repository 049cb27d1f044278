-- ===== src/Updater/Sound.antt =====
-- What holds in every order of steps of the scheduler and its callers, of the counters and of
-- `running`.
use mathlib.Core.Path.{subst}
use rkn_checker.Prelude.{
  ℕ, ◌+◌, ◌<◌, ◌≤◌, ◌≡◌, refl, true, false, some, Result, ok, err, arith, Option-cases, inl, inr,
  List, [], ◌∷◌, All, some_inj, ◌==◌, get_or,
}
use rkn_checker.Updater.{UpdateError, UpdateStore, Config, record_success, record_failure}
use rkn_checker.Updater.Counters.{IsCounted}
use rkn_checker.Updater.Goroutines.{
  Phase, starting, selecting, attempting, succeeded, failed, closing, gone, is_active, is_updating,
  is_gone, bit_of, how_many, how_many-set,
}
use rkn_checker.Updater.Lifecycle.{
  leave, close_done, World, Event, starts, stops, triggers, sees_done, sees_stop, closes, begins,
  ticks, takes_trigger, attempts, records, phase_of, counted_in, attempted, recorded, cleared, left,
  closed, step, run, of_either, of_guard,
}

-- The counters are in step, an update that is not yet recorded included, and `running` says how many
-- goroutines are at work: one or none.
pub record IsSound {E S : Type 0} (w : World E S) : Type 0 where
  pub counted : IsCounted w.sched
  pub pending :
      w.sched.successful_updates + w.sched.consecutive_failures + how_many is_updating w.phases
      ≤ w.sched.total_updates
  pub alive : how_many is_active w.phases ≡ bit_of w.sched.running

-- The clock is past the zero time where an update is recorded.
abbrev pub IsLate : {E : Type 0} → Event E → Type 0
IsLate (records i now) = 0 < now
IsLate _ = Unit

module _ {E S : Type 0} (store : UpdateStore E S) (config : Config) where
  counted_in-IsSound :
      (i : ℕ) (p : Phase E) (w : World E S)
      → get_or w.phases i gone ≡ p
      → is_active p ≡ true
      → is_updating p ≡ false
      → is_gone p ≡ false
      → IsSound w
      → IsSound (counted_in store config i w)
  counted_in-IsSound i p w at active calm there sound = record {
    counted = record {
      counted = omega (arith, sound.counted.counted);
      error_kept = sound.counted.error_kept;
      dated = sound.counted.dated;
    };
    pending =
        ground (arith, how_many-set is_updating w.phases i p attempting at there, sound.pending);
    alive = ground (arith, how_many-set is_active w.phases i p attempting at there, sound.alive);
  }

  attempted-IsSound :
      (i : ℕ) (w : World E S) (result : Result (UpdateError E) S)
      → get_or w.phases i gone ≡ attempting
      → IsSound w
      → IsSound (attempted store config i w result)
  attempted-IsSound i w (ok s') at sound = record {
    counted = sound.counted;
    pending =
        ground
          (arith, how_many-set is_updating w.phases i attempting succeeded at refl, sound.pending);
    alive =
        ground (arith, how_many-set is_active w.phases i attempting succeeded at refl, sound.alive);
  }
  attempted-IsSound i w (err e) at sound = record {
    counted = sound.counted;
    pending =
        ground
          (arith, how_many-set is_updating w.phases i attempting (failed e) at refl, sound.pending);
    alive =
        ground
          (arith, how_many-set is_active w.phases i attempting (failed e) at refl, sound.alive);
  }

  succeeded-IsSound :
      (i now : ℕ) (w : World E S)
      → get_or w.phases i gone ≡ succeeded
      → 0 < now
      → IsSound w
      → IsSound (recorded store config i w (record_success now w.sched))
  unfolding record_success
  succeeded-IsSound i now w at late sound =
      let still = how_many-set is_updating w.phases i succeeded selecting at refl in
      record {
        counted = record {
          counted = ground (arith, still, sound.pending);
          error_kept = ground arith;
          dated = ground arith;
        };
        pending = ground (arith, still, sound.pending);
        alive =
            ground
              (arith, how_many-set is_active w.phases i succeeded selecting at refl, sound.alive);
      }

  failed-IsSound :
      (i : ℕ) (e : UpdateError E) (w : World E S)
      → get_or w.phases i gone ≡ failed e
      → IsSound w
      → IsSound (recorded store config i w (record_failure e w.sched))
  unfolding record_failure
  failed-IsSound i e w at sound =
      let still = how_many-set is_updating w.phases i (failed e) selecting at refl in
      record {
        counted = record {
          counted = ground (arith, still, sound.pending);
          error_kept = ground arith;
          dated = sound.counted.dated;
        };
        pending = ground (arith, still, sound.pending);
        alive =
            ground
              (arith, how_many-set is_active w.phases i (failed e) selecting at refl, sound.alive);
      }

  left-IsSound :
      (i : ℕ) (w : World E S)
      → get_or w.phases i gone ≡ selecting
      → IsSound w
      → IsSound (left store config i w)
  unfolding leave
  left-IsSound i w at sound = record {
    counted = record {
      counted = sound.counted.counted;
      error_kept = sound.counted.error_kept;
      dated = sound.counted.dated;
    };
    pending =
        ground
          (arith, how_many-set is_updating w.phases i selecting closing at refl, sound.pending);
    alive =
        ground (arith, how_many-set is_active w.phases i selecting closing at refl, sound.alive);
  }

  closed-IsSound :
      (i : ℕ) (w w' : World E S)
      → get_or w.phases i gone ≡ closing
      → IsSound w
      → closed store config i w (close_done w.sched) ≡ some w'
      → IsSound w'
  unfolding close_done
  closed-IsSound i w w' at sound stepped = ground (
    arith,
    how_many-set is_active w.phases i closing gone at refl,
    how_many-set is_updating w.phases i closing gone at refl,
    sound.alive,
    sound.pending,
    sound.counted,
  )

  step-IsSound :
      (e : Event E) (phase : Phase E) (w w' : World E S)
      → phase_of e w.phases ≡ phase
      → IsLate e
      → IsSound w
      → step store config e phase w ≡ some w'
      → IsSound w'
  unfolding step
  step-IsSound starts phase w w' at late sound stepped = ground arith
  step-IsSound stops phase w w' at late sound stepped = ground arith
  step-IsSound triggers phase w w' at late sound stepped = ground arith
  step-IsSound (begins i) starting w w' at late sound stepped =
      subst IsSound (some_inj (of_guard (config.interval == 0) stepped))
        (counted_in-IsSound i starting w at refl refl refl sound)
  step-IsSound (ticks i) selecting w w' at late sound stepped =
      subst IsSound (some_inj stepped) (counted_in-IsSound i selecting w at refl refl refl sound)
  step-IsSound (takes_trigger i) selecting w w' at late sound stepped =
      of_either IsSound w.sched.trigger_pending stepped
        (counted_in-IsSound i selecting (cleared store config w) at refl refl refl (record {
          counted = record {
            counted = sound.counted.counted;
            error_kept = sound.counted.error_kept;
            dated = sound.counted.dated;
          };
          pending = sound.pending;
          alive = sound.alive;
        }))
        sound
  step-IsSound (attempts i env) attempting w w' at late sound stepped =
      subst IsSound (some_inj stepped) (attempted-IsSound i w _ at sound)
  step-IsSound (records i now) succeeded w w' at late sound stepped =
      subst IsSound (some_inj stepped) (succeeded-IsSound i now w at late sound)
  step-IsSound (records i now) (failed e) w w' at late sound stepped =
      subst IsSound (some_inj stepped) (failed-IsSound i e w at sound)
  step-IsSound (sees_done i) selecting w w' at late sound stepped =
      subst IsSound (some_inj stepped) (left-IsSound i w at sound)
  step-IsSound (sees_stop i) selecting w w' at late sound stepped =
      of_either IsSound w.sched.stop_closed stepped (left-IsSound i w at sound) sound
  step-IsSound (closes i) closing w w' at late sound stepped =
      closed-IsSound i w w' at sound stepped
  step-IsSound _ phase w w' at late sound stepped = subst IsSound (some_inj stepped) sound

  -- Whatever the callers, the timer, the triggers and the client do, in whatever order and through
  -- however many Starts, the counters stay in step, an update that is not yet recorded included, and
  -- there is exactly one goroutine at work where `running` is set and none where it is not, if this
  -- was so at the start, nothing panics, and the clock is past the zero time where an update is
  -- recorded.
  pub run-IsSound :
      (es : List (Event E)) (w w' : World E S)
      → All IsLate es
      → IsSound w
      → run store config es w ≡ some w'
      → IsSound w'
  unfolding run
  run-IsSound [] w w' late sound ran = subst IsSound (some_inj ran) sound
  run-IsSound (e ∷ es) w w' late sound ran =
      elim (Option-cases (step store config e (phase_of e w.phases) w)) [
        | inl panic ↦ cc (rw (panic, run) at ran)
        | inr (w1, stepped) ↦
            run-IsSound es w1 w' late.1
              (step-IsSound e (phase_of e w.phases) w w1 refl late.0 sound stepped)
              (rw (stepped, run) at ran)
      ]
