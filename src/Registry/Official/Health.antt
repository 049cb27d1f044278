-- ===== src/Registry/Official/Health.antt =====
-- The health that the official source remembers.
use rkn_checker.Prelude.{
  ℕ, ◌+◌, ◌-◌, ◌*◌, ◌^◌, ◌<◌, ◌≡◌, refl, ap, ◌∙◌, Bool, true, false, Option, [], Result, ok, err,
  arith, ltb, ◌==◌, not, ◌&&◌,
}
use rkn_checker.Text.{Bytes}
use rkn_checker.Registry.Exchange.{Http}
use rkn_checker.Registry.Official.{
  FetchError, context_done, all_failed, OfficialSource, after_fetch, fetch, is_healthy,
}

-- A check of the health at a time counts for five minutes from it on.
abbrev pub IsFresh : OfficialSource → ℕ → Type 0
IsFresh o now = (0 < o.last_health) × (now < o.last_health + 5 * 60 * 10 ^ 9)

-- Whether a call of Fetch found the source healthy; where the context ended it is as before.
abbrev pub found_healthy : {E : Type 0} → Result (FetchError E) Bytes → Bool → Bool
found_healthy (ok content) before = true
found_healthy (err (context_done e)) before = before
found_healthy (err (all_failed e)) before = false

module _ {E : Type 0} (http : Http E) where
  is_healthy-IsFresh :
      (now later : ℕ) (o : OfficialSource)
      → IsFresh o now
      → is_healthy http now later o ≡ (o.healthy, o, [])
  unfolding is_healthy
  is_healthy-IsFresh now later o fresh =
      let recent : (not (o.last_health == 0) && ltb (now - o.last_health) (5 * 60 * 10 ^ 9))
          ≡ true =
        ground arith in
      rw recent

  healthy-after_fetch :
      (now : ℕ) (r : Result (FetchError E) Bytes) (o : OfficialSource)
      → (after_fetch http now r o).healthy ≡ found_healthy r o.healthy
  healthy-after_fetch now (ok content) o = refl
  healthy-after_fetch now (err (context_done e)) o = refl
  healthy-after_fetch now (err (all_failed e)) o = refl

  healthy-fetch :
      (ended : ℕ → Option E) (then_time : ℕ) (o : OfficialSource)
      → (fetch http ended then_time o).1.healthy
        ≡ found_healthy (fetch http ended then_time o).0 o.healthy
  unfolding fetch
  healthy-fetch ended then_time o = healthy-after_fetch then_time _ o

  -- Within five minutes of the last check of the health, a fetch that succeeded included, IsHealthy
  -- after a call of Fetch sends no request, leaves the source as it is and says whether that call succeeded, or what was known
  -- before where the context ended.
  pub is_healthy-fetch :
      (ended : ℕ → Option E) (then_time now later : ℕ) (o : OfficialSource)
      → IsFresh (fetch http ended then_time o).1 now
      → is_healthy http now later (fetch http ended then_time o).1 ≡ (
        found_healthy (fetch http ended then_time o).0 o.healthy,
        (fetch http ended then_time o).1,
        [],
      )
  is_healthy-fetch ended then_time now later o fresh =
      is_healthy-IsFresh now later (fetch http ended then_time o).1 fresh
      ∙ ap (λ b. (b, (fetch http ended then_time o).1, [])) (healthy-fetch ended then_time o)
