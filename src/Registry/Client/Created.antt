-- ===== src/Registry/Client/Created.antt =====
-- The sources that NewClient makes.
use mathlib.Core.Path.{subst}
use rkn_checker.Prelude.{
  ◌≡◌, ◌≢◌, refl, Any, inl, inr, List, [], ◌∷◌, Bool-cases, Result-cases, All, ok, ok_inj,
}
use rkn_checker.Text.{bytes_eq}
use rkn_checker.Registry.Source.{Source, SourceConfig, official_type}
use rkn_checker.Registry.Official.{FetchError}
use rkn_checker.Registry.Client.{
  Client, Network, official_source, create_source, create_sources, new_client,
}

module _ {E : Type 0} (network : Network E) where
  create_sources-nonempty :
      (config : SourceConfig) (configs : List SourceConfig) (ss : List (Source (FetchError E)))
      → create_sources network (config ∷ configs) ≡ ok ss
      → ss ≢ []
  unfolding create_sources
  create_sources-nonempty config configs ss e empty =
      elim (Result-cases (create_source network config)) [
        | inr (bad, failed) ↦ cc (rw (create_sources, failed) at e)
        | inl (s, made) ↦ elim (Result-cases (create_sources network configs)) [
          | inr (bad, failed) ↦ cc (rw (create_sources, made, failed) at e)
          | inl (others, rest) ↦
              let same : s ∷ others ≡ ss = ok_inj (rw (create_sources, made, rest) at e) in
              cc (same, empty)
        ]
      ]

  new_client-nonempty :
      (configs : List SourceConfig) (c : Client (FetchError E))
      → new_client network configs ≡ ok c
      → c.sources ≢ []
  unfolding new_client
  new_client-nonempty [] c e = cc e
  new_client-nonempty (config ∷ configs) c e =
      elim (Result-cases (create_sources network (config ∷ configs))) [
        | inr (bad, failed) ↦ cc (rw (new_client, failed) at e)
        | inl (ss, made) ↦
            subst (λ c'. c'.sources ≢ []) (ok_inj (rw (new_client, made) at e))
              (create_sources-nonempty config configs ss made)
      ]

module _ {E : Type 0} (network : Network E) (P : Source (FetchError E) → Type 0)
    (holds : (config : SourceConfig) → P (official_source network config)) where
  create_source-holds :
      (config : SourceConfig) (s : Source (FetchError E))
      → create_source network config ≡ ok s
      → P s
  unfolding create_source
  create_source-holds config s e = elim (Bool-cases (bytes_eq config.source_type official_type)) [
    | inr other ↦ cc (rw (create_source, other) at e)
    | inl good ↦ subst P (ok_inj (rw (create_source, good) at e)) (holds config)
  ]

  create_sources-All :
      (configs : List SourceConfig) (ss : List (Source (FetchError E)))
      → create_sources network configs ≡ ok ss
      → All P ss
  unfolding create_sources
  create_sources-All [] ss e = subst (All P) (ok_inj e) tt
  create_sources-All (config ∷ configs) ss e = elim (Result-cases (create_source network config)) [
    | inr (bad, failed) ↦ cc (rw (create_sources, failed) at e)
    | inl (s, made) ↦ elim (Result-cases (create_sources network configs)) [
      | inr (bad, failed) ↦ cc (rw (create_sources, made, failed) at e)
      | inl (others, rest) ↦
          let same : s ∷ others ≡ ss = ok_inj (rw (create_sources, made, rest) at e) in
          subst (All P) same
            (create_source-holds config s made, create_sources-All configs others rest)
    ]
  ]

  -- What holds of every official source holds of every source of the client.
  pub new_client-All :
      (configs : List SourceConfig) (c : Client (FetchError E))
      → new_client network configs ≡ ok c
      → All P c.sources
  unfolding new_client
  new_client-All [] c e = cc e
  new_client-All (config ∷ configs) c e =
      elim (Result-cases (create_sources network (config ∷ configs))) [
        | inr (bad, failed) ↦ cc (rw (new_client, failed) at e)
        | inl (ss, made) ↦
            subst (λ c'. All P c'.sources) (ok_inj (rw (new_client, made) at e))
              (create_sources-All (config ∷ configs) ss made)
      ]

  nonempty-Any : (ss : List (Source (FetchError E))) → All P ss → ss ≢ [] → Any P ss
  nonempty-Any [] all full = absurd (full refl)
  nonempty-Any (s ∷ ss) all full = inl all.0

  -- It holds of one of them, since there is one.
  pub new_client-Any :
      (configs : List SourceConfig) (c : Client (FetchError E))
      → new_client network configs ≡ ok c
      → Any P c.sources
  new_client-Any configs c e =
      nonempty-Any c.sources (new_client-All configs c e) (new_client-nonempty network configs c e)
