-- ===== src/Updater/Attempts.antt =====
-- The retry loop of performUpdate.
use rkn_checker.Prelude.{
  ℕ, zero, suc, ◌+◌, ◌<◌, ◌≤◌, ◌≡◌, ap, ◌==◌, false, Option, none, some, ok, err, if◌then◌else◌,
  arith, Bool-cases, Option-cases, Result-cases, inl, inr, is_ok,
}
use native.Mathlib.Decide.{ℕ_discrete}
use rkn_checker.Updater.{
  Attempt, AttemptError, UpdateError, context_done, UpdateStore, execute_update, attempts_from,
  Config, Scheduler, perform_update,
}

module _ {E S : Type 0} (store : UpdateStore E S) (env : ℕ → Attempt E) (s : S) where
  -- An attempt succeeds: the client returned a registry with entries, and the store took it.
  abbrev pub Succeeds : ℕ → S → Type 0
  Succeeds i s' = execute_update store s (env i).fetched ≡ ok s'

  abbrev pub Fails : ℕ → Type 0
  Fails i = is_ok (execute_update store s (env i).fetched) ≡ false

  -- The error of the context, if it ends in the wait before an attempt; the first has no wait.
  abbrev pub ended_before : ℕ → Option E
  ended_before i = if i == 0 then none else (env i).ended_in_wait

  -- The first attempt that succeeds is one of those left, and the context lives until it.
  pub record FirstSuccess (first left : ℕ) (s' : S) : Type 0 where
    pub index : ℕ
    pub from : first ≤ index
    pub below : index < first + left
    pub succeeds : Succeeds index s'
    pub before : (j : ℕ) → first ≤ j → j < index → Fails j
    pub alive : (j : ℕ) → first ≤ j → j ≤ index → ended_before j ≡ none

  attempts-ended :
      (first left : ℕ) (last : Option (AttemptError E)) (c : E)
      → ended_before first ≡ some c
      → attempts_from store env first (suc left) last s ≡ err (context_done c)
  unfolding attempts_from
  attempts-ended first left last c h = elim (Bool-cases (first == 0)) [
    | inl zeroth ↦ ground arith
    | inr later ↦ rw later (rw (rw later at h))
  ]

  attempts-alive :
      (first left : ℕ) (last : Option (AttemptError E))
      → ended_before first ≡ none
      → attempts_from store env first (suc left) last s
        ≡ (elim (execute_update store s (env first).fetched) [
          | ok s' ↦ ok s'
          | err e ↦ attempts_from store env (suc first) left (some e) s
        ])
  unfolding attempts_from
  attempts-alive first left last h = elim (Bool-cases (first == 0)) [
    | inl zeroth ↦ rw zeroth
    | inr later ↦ rw later (rw (rw later at h))
  ]

  first_here :
      (first left : ℕ) (s' : S)
      → ended_before first ≡ none
      → Succeeds first s'
      → FirstSuccess first (suc left) s'
  first_here first left s' alive good = record {
    index = first;
    from = omega arith;
    below = omega arith;
    succeeds = good;
    before = λ j le lt. absurd (omega arith);
    alive = λ j le ge. let same : j ≡ first = omega arith in rw same alive;
  }

  first_later :
      (first left : ℕ) (s' : S)
      → ended_before first ≡ none
      → Fails first
      → FirstSuccess (suc first) left s'
      → FirstSuccess first (suc left) s'
  first_later first left s' alive bad later = record {
    index = later.index;
    from = omega (arith, later.from);
    below = omega (arith, later.below);
    succeeds = later.succeeds;
    before = λ j le lt. elim (ℕ_discrete j first) [
      | yes same ↦ rw same bad
      | no other ↦ later.before j (omega arith) lt
    ];
    alive = λ j le ge. elim (ℕ_discrete j first) [
      | yes same ↦ rw same alive
      | no other ↦ later.alive j (omega arith) ge
    ];
  }

  pub attempts_from-ok :
      (first left : ℕ) (last : Option (AttemptError E)) (s' : S)
      → attempts_from store env first left last s ≡ ok s'
      → FirstSuccess first left s'
  attempts_from-ok first zero last s' e = unfold attempts_from in cc
  attempts_from-ok first (suc left) last s' e = elim (Option-cases (ended_before first)) [
    | inr (c, ended) ↦ cc (attempts-ended first left last c ended)
    | inl alive ↦ elim (Result-cases (execute_update store s (env first).fetched)) [
      | inl (s1, good) ↦
          let same : s1 ≡ s' = ground (arith, attempts-alive first left last alive) in
          first_here first left s' alive (rw (← same) good)
      | inr (bad, failed) ↦ first_later first left s' alive (rw failed) (
          attempts_from-ok (suc first) left (some bad) s'
            (ground (arith, attempts-alive first left last alive)))
    ]
  ]

  pub attempts_from-FirstSuccess :
      (first left : ℕ) (last : Option (AttemptError E)) (s' : S)
      → FirstSuccess first left s'
      → attempts_from store env first left last s ≡ ok s'
  attempts_from-FirstSuccess first zero last s' f = absurd (omega (arith, f.from, f.below))
  attempts_from-FirstSuccess first (suc left) last s' f = elim (ℕ_discrete f.index first) [
    | yes same ↦
        let good : Succeeds first s' = rw (← same) f.succeeds in
        ground (arith, attempts-alive first left last (f.alive first (omega arith) f.from))
    | no other ↦ elim (Result-cases (execute_update store s (env first).fetched)) [
      | inl (s1, good) ↦ cc (f.before first (omega arith) (omega (arith, f.from)), ap is_ok good)
      | inr (bad, failed) ↦
          let rest = attempts_from-FirstSuccess (suc first) left (some bad) s' (record {
            index = f.index;
            from = omega (arith, f.from);
            below = omega (arith, f.below);
            succeeds = f.succeeds;
            before = λ j le lt. f.before j (omega arith) lt;
            alive = λ j le ge. f.alive j (omega arith) ge;
          }) in
          ground (arith, attempts-alive first left last (f.alive first (omega arith) f.from))
    ]
  ]

-- Where some attempt succeeds and the context lives until then, performUpdate stores what the first
-- such attempt fetched: the store is the one that this attempt's Update returned, one more update
-- and one more success are counted, the failures in a row are forgotten and no error is kept.
pub perform_update-succeeds :
    {E S : Type 0} (store : UpdateStore E S) (config : Config) (env : ℕ → Attempt E) (now : ℕ)
    (sched : Scheduler E) (s s' : S)
    → FirstSuccess store env s 0 config.max_retries s'
    → perform_update store config env now (sched, s) ≡ (
      record sched {
        last_update = now;
        last_error = none;
        consecutive_failures = 0;
        total_updates = sched.total_updates + 1;
        successful_updates = sched.successful_updates + 1;
      },
      s',
    )
unfolding perform_update
perform_update-succeeds store config env now sched s s' f =
    rw (attempts_from-FirstSuccess store env s 0 config.max_retries none s' f, perform_update)

-- Where no attempt succeeds before the context ends or the attempts run out, performUpdate leaves
-- the store, the time of the last update and the successes as they were, counts one more update
-- and one more failure in a row, and keeps an error.
pub perform_update-fails :
    {E S : Type 0} (store : UpdateStore E S) (config : Config) (env : ℕ → Attempt E) (now : ℕ)
    (sched : Scheduler E) (s : S)
    → ((s' : S) → ¬ FirstSuccess store env s 0 config.max_retries s')
    → (e : UpdateError E) × (perform_update store config env now (sched, s) ≡ (
      record sched {
        last_error = some e;
        consecutive_failures = sched.consecutive_failures + 1;
        total_updates = sched.total_updates + 1;
      },
      s,
    ))
unfolding perform_update
perform_update-fails store config env now sched s never =
    elim (Result-cases (attempts_from store env 0 config.max_retries none s)) [
      | inl (s', good) ↦
          absurd (never s' (attempts_from-ok store env s 0 config.max_retries none s' good))
      | inr (e, bad) ↦ (e, rw (bad, perform_update))
    ]
