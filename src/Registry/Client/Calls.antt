-- ===== src/Registry/Client/Calls.antt =====
-- A client of NewClient over any number of calls of FetchRegistry.
use rkn_checker.Prelude.{
  ℕ, ◌≡◌, inl, inr, refl, sym, ◌∙◌, ap, Bool, true, false, ◌||◌, List, [], ◌∷◌, Option, none, some,
  Result-cases, All, Any, Result, ok, err, is_ok,
}
use rkn_checker.Text.{Bytes, bytes, is_empty}
use rkn_checker.Text.Laws.{bytes_eq_refl}
use rkn_checker.Domain.Registry.{Registry}
use rkn_checker.Registry.Source.{Source, SourceConfig}
use rkn_checker.Registry.Official.{FetchError}
use rkn_checker.Registry.Client.{
  SourceError, Client, Network, official_source, last_named, not_named, order_sources, fetch_from,
  fetch_registry, new_client,
}
use rkn_checker.Registry.Client.Order.{order_sources_lem}
use rkn_checker.Registry.Client.Created.{new_client-All, new_client-Any}
use rkn_checker.Registry.Client.Rounds.{
  last_named-Any, fetch_registry-found, fetch_registry-failed, remembered,
}

one_name :
    {E : Type 0} (a b : Bytes) (ss : List (Source E))
    → All (λ s. s.name ≡ a) ss
    → Any (λ s. s.name ≡ b) ss
    → a ≡ b
one_name a b [] same some_one = absurd some_one
one_name a b (s ∷ ss) same (inl here) = sym same.0 ∙ here
one_name a b (s ∷ ss) same (inr there) = one_name a b ss same.1 there

not_named-same :
    {E : Type 0} (name : Bytes) (ss : List (Source E))
    → All (λ s. s.name ≡ name) ss
    → not_named name ss ≡ []
unfolding not_named
not_named-same name [] same = refl
not_named-same name (s ∷ ss) same = rw (not_named-same name ss same.1, same.0, bytes_eq_refl name)

-- A client asked over a network: its sources are those of the configurations, as the network has
-- them by then.
abbrev pub asked_over : {E : Type 0} → Client E → Client E → Client E
asked_over made c = record c { sources = made.sources }

module _ {E Q : Type 0} (parse : Bytes → Result Q Registry) (configs : List SourceConfig) where
  -- What NewClient and any number of calls of FetchRegistry leave, each call at its own time and
  -- over its own network, and whether one of them has returned a registry.
  pub data Calls : Client (FetchError E) → Bool → Type 0 where
    created :
        (network : Network E) {c : Client (FetchError E)}
        → new_client network configs ≡ ok c
        → Calls c false
    called :
        (network : Network E) (now : ℕ) (ended : ℕ → Bool) (c made : Client (FetchError E))
        {c' : Client (FetchError E)} {succeeded : Bool}
        (result : Result (Option (SourceError (FetchError E) Q)) Registry)
        → Calls c succeeded
        → new_client network configs ≡ ok made
        → fetch_registry parse now ended (asked_over made c) ≡ (result, c')
        → Calls c' (succeeded || is_ok result)

  official_names :
      (network : Network E) (made : Client (FetchError E))
      → new_client network configs ≡ ok made
      → All (λ s. s.name ≡ bytes "Official RKN API") made.sources
  official_names network made makes =
      new_client-All network (λ s. s.name ≡ bytes "Official RKN API")
        (λ config. unfold official_source in refl) configs made makes

  -- A call that returned an error keeps the remembered name.
  kept_name :
      (now : ℕ) (ended : ℕ → Bool) (c c' : Client (FetchError E))
      (e : Option (SourceError (FetchError E) Q))
      → fetch_registry parse now ended c ≡ (err e, c')
      → c'.last_successful_source ≡ c.last_successful_source
  kept_name now ended c c' e ran =
      elim (Result-cases (fetch_from parse now ended 0 none (order_sources c))) [
        | inl ((r, name), found) ↦
            cc (sym (fetch_registry-found parse now ended c r name found) ∙ ran)
        | inr (bad, failed) ↦
            ap (λ p. p.1.last_successful_source)
              (sym ran ∙ fetch_registry-failed parse now ended c bad failed)
      ]

  called-name :
      (now : ℕ) (ended : ℕ → Bool) (c made c' : Client (FetchError E)) (succeeded : Bool)
      (result : Result (Option (SourceError (FetchError E) Q)) Registry)
      → (succeeded ≡ true → c.last_successful_source ≡ bytes "Official RKN API")
      → All (λ s. s.name ≡ bytes "Official RKN API") made.sources
      → fetch_registry parse now ended (asked_over made c) ≡ (result, c')
      → succeeded || is_ok result ≡ true
      → c'.last_successful_source ≡ bytes "Official RKN API"
  called-name now ended c made c' succeeded (ok r) before names ran either =
      let (named, kept, from) = remembered parse now ended (asked_over made c) c' r ran in
      named ∙ sym (one_name (bytes "Official RKN API") r.source made.sources names from)
  called-name now ended c made c' true (err e) before names ran either =
      kept_name now ended (asked_over made c) c' e ran ∙ before refl
  called-name now ended c made c' false (err e) before names ran either = cc either

  Calls-name :
      (c : Client (FetchError E)) (succeeded : Bool)
      → Calls c succeeded
      → succeeded ≡ true
      → c.last_successful_source ≡ bytes "Official RKN API"
  Calls-name c succeeded (created network makes) either = cc either
  Calls-name c succeeded (called network now ended c0 made result before makes ran) either =
      called-name now ended c0 made c _ result (Calls-name c0 _ before)
        (official_names network made makes) ran either

  -- A client of NewClient, once any of its calls of FetchRegistry has returned a registry, asks one
  -- source only in every later call, whatever the calls in between returned and however many sources
  -- were configured: all of them have the same name.
  pub order_sources-new_client :
      (c made : Client (FetchError E)) (network : Network E)
      → Calls c true
      → new_client network configs ≡ ok made
      → (s : Source (FetchError E)) × (order_sources (asked_over made c) ≡ s ∷ [])
  unfolding is_empty
  order_sources-new_client c made network calls makes =
      let official = Calls-name c true calls refl in
      let names = official_names network made makes in
      let (s, found) = last_named-Any (bytes "Official RKN API") made.sources (
        new_client-Any network (λ s. s.name ≡ bytes "Official RKN API")
          (λ config. unfold official_source in refl) configs made makes) in
      let found' : last_named c.last_successful_source made.sources ≡ some s = rw official found in
      let alone : not_named c.last_successful_source made.sources ≡ [] =
        rw official (not_named-same (bytes "Official RKN API") made.sources names) in
      (s, order_sources_lem (asked_over made c) (rw official refl) ∙ rw (found', alone))
