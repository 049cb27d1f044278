-- ===== src/Updater/Fruitless.antt =====
-- Steps of the scheduler whose updates fetch nothing.
use mathlib.Core.Path.{subst}
use rkn_checker.Prelude.{
  ℕ, ◌≡◌, refl, sym, ◌∙◌, ap, inl, inr, false, List, [], ◌∷◌, some, some_inj, All, Result, ok, err,
  is_ok, Option-cases, Result-cases, none, arith,
}
use rkn_checker.Domain.Registry.{Registry}
use rkn_checker.Updater.{Attempt, UpdateStore, Config, execute_update, attempts_from}
use rkn_checker.Updater.Attempts.{attempts_from-ok}
use rkn_checker.Updater.Goroutines.{
  Phase, starting, selecting, attempting, succeeded, failed, closing,
}
use rkn_checker.Updater.Lifecycle.{
  World, Event, starts, stops, triggers, sees_done, sees_stop, closes, begins, ticks, takes_trigger,
  attempts, records, phase_of, step, run, attempted, start, stop, leave, close_done,
}

abbrev pub EventIs : {E : Type 0} → ((ℕ → Attempt E) → Type 0) → Event E → Type 0
EventIs P (attempts i env) = P env
EventIs P _ = Unit

-- An update whose attempts all fail to fetch leaves the store.
module _ {E S : Type 0} (store : UpdateStore E S) (config : Config) where
  abbrev pub Fruitless : (ℕ → Attempt E) → Type 0
  Fruitless env = (i : ℕ) → is_ok (env i).fetched ≡ false

  execute_update-Fruitless :
      (s s' : S) (fetched : Result E Registry)
      → is_ok fetched ≡ false
      → ¬ (execute_update store s fetched ≡ ok s')
  unfolding execute_update
  execute_update-Fruitless s s' (ok r) bad = cc bad
  execute_update-Fruitless s s' (err e) bad = λ done. cc done

  attempted-Fruitless :
      (i : ℕ) (env : ℕ → Attempt E) (w : World E S)
      → Fruitless env
      → (attempted store config i w
          (attempts_from store env 0 config.max_retries none w.stored)).stored
        ≡ w.stored
  attempted-Fruitless i env w fruitless =
      elim (Result-cases (attempts_from store env 0 config.max_retries none w.stored)) [
        | inr (e, bad) ↦ rw bad refl
        | inl (s', good) ↦
            let f = attempts_from-ok store env w.stored 0 config.max_retries none s' good in
            absurd (execute_update-Fruitless w.stored s' _ (fruitless f.index) f.succeeds)
      ]

  step-Fruitless :
      (e : Event E) (phase : Phase E) (w w' : World E S)
      → EventIs Fruitless e
      → step store config e phase w ≡ some w'
      → w'.stored ≡ w.stored
  unfolding step start stop leave close_done
  step-Fruitless starts phase w w' quiet stepped = ground arith
  step-Fruitless stops phase w w' quiet stepped = ground arith
  step-Fruitless triggers phase w w' quiet stepped = ground arith
  step-Fruitless (begins i) starting w w' quiet stepped = ground arith
  step-Fruitless (ticks i) selecting w w' quiet stepped = ground arith
  step-Fruitless (takes_trigger i) selecting w w' quiet stepped = ground arith
  step-Fruitless (attempts i env) attempting w w' quiet stepped =
      subst (λ v. v.stored ≡ w.stored) (some_inj stepped) (attempted-Fruitless i env w quiet)
  step-Fruitless (records i now) succeeded w w' quiet stepped = ground arith
  step-Fruitless (records i now) (failed e) w w' quiet stepped = ground arith
  step-Fruitless (sees_done i) selecting w w' quiet stepped = ground arith
  step-Fruitless (sees_stop i) selecting w w' quiet stepped = ground arith
  step-Fruitless (closes i) closing w w' quiet stepped = ground arith
  step-Fruitless _ phase w w' quiet stepped = ground arith

  pub run-Fruitless :
      (es : List (Event E)) (w w' : World E S)
      → All (EventIs Fruitless) es
      → run store config es w ≡ some w'
      → w'.stored ≡ w.stored
  unfolding run
  run-Fruitless [] w w' quiet ran = ap (λ v. v.stored) (sym (some_inj ran))
  run-Fruitless (e ∷ es) w w' quiet ran =
      elim (Option-cases (step store config e (phase_of e w.phases) w)) [
        | inl panic ↦ cc (rw (panic, run) at ran)
        | inr (w1, stepped) ↦
            run-Fruitless es w1 w' quiet.1 (rw (stepped, run) at ran)
            ∙ step-Fruitless e (phase_of e w.phases) w w1 quiet.0 stepped
      ]

EventIs-map :
    {E : Type 0} {P R : (ℕ → Attempt E) → Type 0} (e : Event E)
    → ((env : ℕ → Attempt E) → P env → R env)
    → EventIs P e
    → EventIs R e
EventIs-map (attempts i env) f p = f env p
EventIs-map (records i now) f p = tt
EventIs-map (begins i) f p = tt
EventIs-map (ticks i) f p = tt
EventIs-map (takes_trigger i) f p = tt
EventIs-map starts f p = tt
EventIs-map stops f p = tt
EventIs-map triggers f p = tt
EventIs-map (sees_done i) f p = tt
EventIs-map (sees_stop i) f p = tt
EventIs-map (closes i) f p = tt

pub All-EventIs :
    {E : Type 0} {P R : (ℕ → Attempt E) → Type 0} (es : List (Event E))
    → ((env : ℕ → Attempt E) → P env → R env)
    → All (EventIs P) es
    → All (EventIs R) es
All-EventIs [] f all = tt
All-EventIs (e ∷ es) f all = (EventIs-map e f all.0, All-EventIs es f all.1)
