-- ===== src/Registry/Client/Order.antt =====
-- The order in which Client asks its sources.
use mathlib.Core.List.{Perm}
use mathlib.Core.List.Perm
use mathlib.Core.Path.{subst}
use rkn_checker.Prelude.{
  ◌≡◌, inl, inr, refl, true, false, List, [], ◌∷◌, Option, none, some, Option-cases, Bool-cases,
  All, arith,
}
use rkn_checker.Text.{Bytes, bytes_eq, is_empty}
use rkn_checker.Text.Laws.{bytes_eq_iff}
use rkn_checker.Registry.Source.{Source}
use rkn_checker.Registry.Client.{Client, last_named, not_named, order_sources}

-- No two sources share a name.
abbrev pub AreDistinct : {E : Type 0} → List (Source E) → Type 0
AreDistinct [] = Unit
AreDistinct (s ∷ ss) = All (λ t. bytes_eq t.name s.name ≡ false) ss × AreDistinct ss

-- The sources with the last one of a name in front, if there is one.
abbrev pub in_front : {E : Type 0} → Option (Source E) → List (Source E) → List (Source E)
in_front none others = others
in_front (some last) others = last ∷ others

module _ {E : Type 0} (name : Bytes) where
  pub last_named-other :
      (ss : List (Source E))
      → All (λ t. bytes_eq t.name name ≡ false) ss
      → last_named name ss ≡ none
  unfolding last_named
  last_named-other [] others = refl
  last_named-other (s ∷ ss) others = rw (last_named-other ss others.1, others.0) refl

  pub not_named-other :
      (ss : List (Source E)) → All (λ t. bytes_eq t.name name ≡ false) ss → not_named name ss ≡ ss
  unfolding not_named
  not_named-other [] others = refl
  not_named-other (s ∷ ss) others = rw (not_named-other ss others.1, others.0) refl

  pub not_named-none : (ss : List (Source E)) → last_named name ss ≡ none → not_named name ss ≡ ss
  unfolding last_named not_named
  not_named-none [] e = refl
  not_named-none (s ∷ ss) e = ground (arith, not_named-none ss)

  pub name-last_named :
      (ss : List (Source E)) (s : Source E) → last_named name ss ≡ some s → s.name ≡ name
  unfolding last_named
  name-last_named [] s e = cc
  name-last_named (t ∷ ss) s e = ground (arith, name-last_named ss s, bytes_eq_iff t.name name)

  in_front-perm :
      (ss : List (Source E))
      → AreDistinct ss
      → Perm (in_front (last_named name ss) (not_named name ss)) ss
  unfolding last_named not_named
  in_front-perm [] distinct = Perm.rfl
  in_front-perm (s ∷ ss) distinct =
      let kept = in_front-perm ss distinct.1 in
      elim (Bool-cases (bytes_eq s.name name)) [
        | inl same ↦
            let others : All (λ t. bytes_eq t.name name ≡ false) ss =
              subst (λ n. All (λ t. bytes_eq t.name n ≡ false) ss)
                ((bytes_eq_iff s.name name).0 same) distinct.0 in
            rw (last_named-other ss others, not_named-other ss others, same) Perm.rfl
        | inr other ↦ elim (Option-cases (last_named name ss)) [
          | inl absent ↦ rw (absent, other, not_named-none ss absent) Perm.rfl
          | inr (l, found) ↦
              rw (found, other)
                (Perm.trans (Perm.swap s l (not_named name ss)) (Perm.cons s (rw found at kept)))
        ]
      ]

pub order_sources_lem :
    {E : Type 0} (c : Client E)
    → is_empty c.last_successful_source ≡ false
    → order_sources c
      ≡ in_front
          (last_named c.last_successful_source c.sources)
          (not_named c.last_successful_source c.sources)
unfolding order_sources
order_sources_lem c set = elim (Option-cases (last_named c.last_successful_source c.sources)) [
  | inl absent ↦ rw (set, absent)
  | inr (l, found) ↦ rw (set, found)
]

pub order_sources-first :
    {E : Type 0} (c : Client E)
    → is_empty c.last_successful_source ≡ true
    → order_sources c ≡ c.sources
unfolding order_sources
order_sources-first c unset = rw unset

-- With distinct names, orderSources gives the client's sources in another order: none is lost
-- and none is doubled.
pub order_sources-Perm :
    {E : Type 0} (c : Client E) → AreDistinct c.sources → Perm (order_sources c) c.sources
order_sources-Perm c distinct = elim (Bool-cases (is_empty c.last_successful_source)) [
  | inl unset ↦ rw (order_sources-first c unset) Perm.rfl
  | inr set ↦
      rw (order_sources_lem c set) (in_front-perm c.last_successful_source c.sources distinct)
]
