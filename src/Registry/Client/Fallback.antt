-- ===== src/Registry/Client/Fallback.antt =====
-- The loop of FetchRegistry over the sources in their order.
use mathlib.Core.Path.{subst}
use rkn_checker.Prelude.{
  ℕ, ◌≡◌, inl, inr, refl, ◌∙◌, Bool, false, List, [], ◌∷◌, Option, some, Option-cases, Bool-cases,
  Result-cases, All, Any, arith, suc, Result, ok, err,
}
use rkn_checker.Text.{Bytes, bytes_eq, is_empty}
use rkn_checker.Text.Laws.{bytes_eq_iff}
use rkn_checker.Domain.Registry.{Registry}
use rkn_checker.Registry.Source.{Source}
use rkn_checker.Registry.Client.{
  SourceError, Client, last_named, not_named, order_sources, fetch_from_source, fetch_from,
}
use rkn_checker.Registry.Client.Order.{
  AreDistinct, in_front, order_sources_lem, order_sources-first, not_named-none, last_named-other,
  not_named-other,
}

module _ {E : Type 0} (name : Bytes) (P : Source E → Type 0) where
  in_front-Any :
      (ss : List (Source E))
      → AreDistinct ss
      → Any P ss
      → Any P (in_front (last_named name ss) (not_named name ss))
  unfolding last_named not_named
  in_front-Any [] distinct holds = elim holds [ ]
  in_front-Any (s ∷ ss) distinct holds =
      let kept = in_front-Any ss distinct.1 in
      elim (Bool-cases (bytes_eq s.name name)) [
        | inl same ↦
            let others : All (λ t. bytes_eq t.name name ≡ false) ss =
              subst (λ n. All (λ t. bytes_eq t.name n ≡ false) ss)
                ((bytes_eq_iff s.name name).0 same) distinct.0 in
            rw (last_named-other name ss others, not_named-other name ss others, same) holds
        | inr other ↦ elim (Option-cases (last_named name ss)) [
          | inl absent ↦ rw (absent, other, not_named-none name ss absent) holds
          | inr (l, found) ↦
              let kept' = rw found at kept in
              rw (found, other)
                (elim holds [
                  | inl here ↦ inr (inl here)
                  | inr there ↦ elim (kept' there) [
                    | inl first ↦ inl first
                    | inr later ↦ inr (inr later)
                  ]
                ])
        ]
      ]

  Any-in_front :
      (ss : List (Source E)) → Any P (in_front (last_named name ss) (not_named name ss)) → Any P ss
  unfolding last_named not_named
  Any-in_front [] holds = holds
  Any-in_front (s ∷ ss) holds =
      let kept = Any-in_front ss in
      elim (Option-cases (last_named name ss)) [
        | inl absent ↦ elim (Bool-cases (bytes_eq s.name name)) [
          | inl same ↦ rw (absent, same, not_named-none name ss absent) at holds
          | inr other ↦ rw (absent, other, not_named-none name ss absent) at holds
        ]
        | inr (l, found) ↦
            let kept' = rw found at kept in
            elim (Bool-cases (bytes_eq s.name name)) [
              | inl same ↦ inr (kept' (rw (found, same) at holds))
              | inr other ↦
                  let front : Any P (l ∷ s ∷ not_named name ss) = rw (found, other) at holds in
                  elim front [
                    | inl first ↦ inr (kept' (inl first))
                    | inr (inl here) ↦ inl here
                    | inr (inr later) ↦ inr (kept' (inr later))
                  ]
            ]
      ]

  in_front-All :
      (ss : List (Source E)) → All P ss → All P (in_front (last_named name ss) (not_named name ss))
  unfolding last_named not_named
  in_front-All [] holds = tt
  in_front-All (s ∷ ss) holds =
      let kept = in_front-All ss holds.1 in
      elim (Option-cases (last_named name ss)) [
        | inl absent ↦ elim (Bool-cases (bytes_eq s.name name)) [
          | inl same ↦ rw (absent, same, not_named-none name ss absent) holds
          | inr other ↦ rw (absent, other, not_named-none name ss absent) holds
        ]
        | inr (l, found) ↦
            let kept' = rw found at kept in
            elim (Bool-cases (bytes_eq s.name name)) [
              | inl same ↦ rw (found, same) kept'
              | inr other ↦ rw (found, other) (kept'.0, (holds.0, kept'.1))
            ]
      ]

module _ {E : Type 0} (P : Source E → Type 0) (c : Client E) where
  pub order_sources-Any : AreDistinct c.sources → Any P c.sources → Any P (order_sources c)
  order_sources-Any distinct holds = elim (Bool-cases (is_empty c.last_successful_source)) [
    | inl unset ↦ rw (order_sources-first c unset) holds
    | inr set ↦
        rw (order_sources_lem c set)
          (in_front-Any c.last_successful_source P c.sources distinct holds)
  ]

  pub Any-order_sources : Any P (order_sources c) → Any P c.sources
  Any-order_sources holds = elim (Bool-cases (is_empty c.last_successful_source)) [
    | inl unset ↦ rw (order_sources-first c unset) at holds
    | inr set ↦
        Any-in_front c.last_successful_source P c.sources (rw (order_sources_lem c set) at holds)
  ]

  pub order_sources-All : All P c.sources → All P (order_sources c)
  order_sources-All holds = elim (Bool-cases (is_empty c.last_successful_source)) [
    | inl unset ↦ rw (order_sources-first c unset) holds
    | inr set ↦
        rw (order_sources_lem c set) (in_front-All c.last_successful_source P c.sources holds)
  ]

module _ {E Q : Type 0} (parse : Bytes → Result Q Registry) (now : ℕ) (ended : ℕ → Bool) where
  -- A source that answers at every attempt, and one that fails at every attempt.
  abbrev pub Answers : Source E → Type 0
  Answers s = (i : ℕ) → (r : Registry) × (fetch_from_source parse now i s ≡ ok r)

  abbrev pub FailsAlways : Source E → Type 0
  FailsAlways s = (i : ℕ) → (e : SourceError E Q) × (fetch_from_source parse now i s ≡ err e)

  pub fetch_from-Answers :
      (i : ℕ) (last : Option (SourceError E Q)) (ss : List (Source E))
      → ((j : ℕ) → ended j ≡ false)
      → Any Answers ss
      → (r : Registry) × (name : Bytes) × (fetch_from parse now ended i last ss ≡ ok (r, name))
  unfolding fetch_from
  fetch_from-Answers i last [] lasts holds = absurd holds
  fetch_from-Answers i last (s ∷ ss) lasts holds =
      elim (Result-cases (fetch_from_source parse now i s)) [
        | inl (r, good) ↦ (r, s.name, rw (fetch_from, good))
        | inr (e, bad) ↦ elim holds [
          | inl here ↦ cc (here i).1
          | inr later ↦
              let (r, name, found) = fetch_from-Answers (suc i) (some e) ss lasts later in
              (r, name, rw (fetch_from, bad, lasts i) found)
        ]
      ]

  pub fetch_from-FailsAlways :
      (i : ℕ) (last : Option (SourceError E Q)) (ss : List (Source E))
      → All FailsAlways ss
      → (e : Option (SourceError E Q)) × (fetch_from parse now ended i last ss ≡ err e)
  unfolding fetch_from
  fetch_from-FailsAlways i last [] holds = (last, refl)
  fetch_from-FailsAlways i last (s ∷ ss) holds =
      let (e, bad) = holds.0 i in
      let (e', rest) = fetch_from-FailsAlways (suc i) (some e) ss holds.1 in
      elim (Bool-cases (ended i)) [
        | inl stops ↦ (some e, rw (fetch_from, bad, stops))
        | inr goes ↦ (e', rw (fetch_from, bad, goes) rest)
      ]

  source-fetch_from_source :
      (i : ℕ) (s : Source E) (r : Registry)
      → fetch_from_source parse now i s ≡ ok r
      → r.source ≡ s.name
  unfolding fetch_from_source
  source-fetch_from_source i s r e = ground arith

  -- What is returned came from a source of that name.
  pub fetch_from-named :
      (i : ℕ) (last : Option (SourceError E Q)) (ss : List (Source E)) (r : Registry) (name : Bytes)
      → fetch_from parse now ended i last ss ≡ ok (r, name)
      → (r.source ≡ name) × Any (λ s. s.name ≡ name) ss
  unfolding fetch_from
  fetch_from-named i last [] r name e = cc e
  fetch_from-named i last (s ∷ ss) r name e =
      elim (Result-cases (fetch_from_source parse now i s)) [
        | inl (r', good) ↦
            let same : Path (Result (Option (SourceError E Q)) (Registry × Bytes)) (ok (r', s.name))
                (ok (r, name)) =
              rw (fetch_from, good) at e in
            let named : r.source ≡ r'.source = cc same in
            let where_from : s.name ≡ name = cc same in
            (named ∙ source-fetch_from_source i s r' good ∙ where_from, inl where_from)
        | inr (e', bad) ↦ elim (Bool-cases (ended i)) [
          | inl stops ↦ cc (rw (fetch_from, bad, stops) at e)
          | inr goes ↦
              let found =
                fetch_from-named (suc i) (some e') ss r name (rw (fetch_from, bad, goes) at e) in
              (found.0, inr found.1)
        ]
      ]
