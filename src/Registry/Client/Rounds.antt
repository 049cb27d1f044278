-- ===== src/Registry/Client/Rounds.antt =====
-- What FetchRegistry returns and what it leaves in the client for its next call.
use mathlib.Core.Path.{subst}
use rkn_checker.Prelude.{
  ℕ, ◌+◌, ◌≡◌, inl, inr, refl, sym, ◌∙◌, ap, Bool, false, List, [], ◌∷◌, Option, none, some,
  Option-cases, Result-cases, All, Any, Result, ok, err, ok_inj,
}
use rkn_checker.Text.{Bytes, is_empty}
use rkn_checker.Text.Laws.{bytes_eq_refl}
use rkn_checker.Domain.Registry.{Registry}
use rkn_checker.Registry.Source.{Source}
use rkn_checker.Registry.Client.{
  SourceError, Client, last_named, not_named, order_sources, fetch_from, fetch_registry,
  on_fetch_success,
}
use rkn_checker.Registry.Client.Order.{AreDistinct, order_sources_lem, name-last_named}
use rkn_checker.Registry.Client.Fallback.{
  Answers, FailsAlways, order_sources-Any, Any-order_sources, order_sources-All, fetch_from-Answers,
  fetch_from-FailsAlways, fetch_from-named,
}

pub last_named-Any :
    {E : Type 0} (name : Bytes) (ss : List (Source E))
    → Any (λ s. s.name ≡ name) ss
    → (s : Source E) × (last_named name ss ≡ some s)
unfolding last_named
last_named-Any name [] holds = absurd holds
last_named-Any name (s ∷ ss) holds =
    let later = last_named-Any name ss in
    elim (Option-cases (last_named name ss)) [
      | inr (l, found) ↦ (l, rw found)
      | inl absent ↦ elim holds [
        | inl here ↦ (s, rw (absent, here, bytes_eq_refl name))
        | inr there ↦ cc (absent, (later there).1)
      ]
    ]

module _ {E Q : Type 0} (parse : Bytes → Result Q Registry) (now : ℕ) (ended : ℕ → Bool) where
  pub fetch_registry-found :
      (c : Client E) (r : Registry) (name : Bytes)
      → fetch_from parse now ended 0 none (order_sources c) ≡ ok (r, name)
      → fetch_registry parse now ended c ≡ (ok r, on_fetch_success now name c)
  unfolding fetch_registry on_fetch_success
  fetch_registry-found c r name found = rw (fetch_registry, found)

  pub fetch_registry-failed :
      (c : Client E) (e : Option (SourceError E Q))
      → fetch_from parse now ended 0 none (order_sources c) ≡ err e
      → fetch_registry parse now ended c
        ≡ (err e, record c { consecutive_failures = c.consecutive_failures + 1 })
  unfolding fetch_registry
  fetch_registry-failed c e failed = rw (fetch_registry, failed)

  -- Where no two sources share a name, the context does not end, and some source answers at
  -- whatever attempt it is asked, FetchRegistry returns a registry. It carries the name of one of
  -- the sources; the client remembers that name and the time, sets the count of failures to 0, and
  -- keeps its sources.
  pub fetch_registry-Answers :
      (c : Client E)
      → AreDistinct c.sources
      → ((i : ℕ) → ended i ≡ false)
      → Any (Answers parse now ended) c.sources
      → (r : Registry) × Any (λ s. s.name ≡ r.source) c.sources
        × (fetch_registry parse now ended c ≡ (
          ok r,
          record c {
            last_successful_source = r.source;
            last_update_time = now;
            consecutive_failures = 0;
          },
        ))
  unfolding on_fetch_success
  fetch_registry-Answers c distinct lasts holds =
      let (r, name, found) =
        fetch_from-Answers parse now ended 0 none (order_sources c) lasts
          (order_sources-Any (Answers parse now ended) c distinct holds) in
      let (named, from) = fetch_from-named parse now ended 0 none (order_sources c) r name found in
      (
        r,
        rw named (Any-order_sources (λ s. s.name ≡ name) c from),
        fetch_registry-found c r name found
            ∙ ap (λ n. (ok r, on_fetch_success now n c)) (sym named),
      )

  -- Where every source fails at whatever attempt it is asked, FetchRegistry returns an error, and
  -- all that it changes in the client is one more failure.
  pub fetch_registry-FailsAlways :
      (c : Client E)
      → All (FailsAlways parse now ended) c.sources
      → (e : Option (SourceError E Q)) × (fetch_registry parse now ended c
          ≡ (err e, record c { consecutive_failures = c.consecutive_failures + 1 }))
  fetch_registry-FailsAlways c holds =
      let (e, found) =
        fetch_from-FailsAlways parse now ended 0 none (order_sources c)
          (order_sources-All (FailsAlways parse now ended) c holds) in
      (e, fetch_registry-failed c e found)

  -- The name that a successful call leaves is that of one of the sources.
  pub remembered :
      (c c' : Client E) (r : Registry)
      → fetch_registry parse now ended c ≡ (ok r, c')
      → (c'.last_successful_source ≡ r.source)
        × (c'.sources ≡ c.sources)
        × Any (λ s. s.name ≡ r.source) c.sources
  remembered c c' r e = elim (Result-cases (fetch_from parse now ended 0 none (order_sources c))) [
    | inr (bad, failed) ↦ cc (sym (fetch_registry-failed c bad failed) ∙ e)
    | inl ((r', name), found) ↦
        let both = sym (fetch_registry-found c r' name found) ∙ e in
        let same : r' ≡ r = ok_inj (ap (λ p. p.0) both) in
        let left : on_fetch_success now name c ≡ c' = ap (λ p. p.1) both in
        let (named, from) =
          fetch_from-named parse now ended 0 none (order_sources c) r' name found in
        subst
          (λ r''.
            (c'.last_successful_source ≡ r''.source)
            × (c'.sources ≡ c.sources)
            × Any (λ s. s.name ≡ r''.source) c.sources)
          same
          (
            subst (λ c''. c''.last_successful_source ≡ r'.source) left
                (unfold on_fetch_success in sym named),
            subst (λ c''. c''.sources ≡ c.sources) left (unfold on_fetch_success in refl),
            rw named (Any-order_sources (λ s. s.name ≡ name) c from),
          )
  ]

  -- After a call of FetchRegistry that returned a registry with a name of its source, the source
  -- that the next call asks first has that name.
  pub order_sources-fetch_registry :
      (c c' : Client E) (r : Registry)
      → is_empty r.source ≡ false
      → fetch_registry parse now ended c ≡ (ok r, c')
      → (s : Source E) × (rest : List (Source E)) × (order_sources c' ≡ s ∷ rest)
        × (s.name ≡ r.source)
  order_sources-fetch_registry c c' r set e =
      let (named, kept, from) = remembered c c' r e in
      let (s, found) = last_named-Any r.source c.sources from in
      let found' : last_named c'.last_successful_source c'.sources ≡ some s =
        rw (named, kept) found in
      (
        s,
        not_named c'.last_successful_source c'.sources,
        order_sources_lem c' (rw named set) ∙ rw found',
        name-last_named r.source c.sources s found,
      )
