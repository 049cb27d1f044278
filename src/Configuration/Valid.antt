-- ===== src/Configuration/Valid.antt =====
-- What Validate accepts.
use rkn_checker.Prelude.{
  ℕ, suc, ◌≡◌, refl, ◌↔◌, ◌⊎◌, inl, inr, Bool, true, false, not, ◌||◌, List, [], ◌∷◌, All, Result,
  ok, err, ◌>>◌, fail_if, arith,
}
use rkn_checker.Prelude.Integers.{ℤ, pos, ltb_ℤ, leb_ℤ, ◌<ℤ◌, ◌≤ℤ◌}
use rkn_checker.Text.{Bytes, bytes, is_empty, bytes_eq}
use rkn_checker.Text.Laws.{bytes_eq_iff}
use rkn_checker.Registry.Source.{SourceConfig}
use rkn_checker.Configuration.{Config, validate, validate_sources, is_level, is_format, is_nil}

abbrev pub IsPort : ℤ → Type 0
IsPort port = (pos 1 ≤ℤ port) × (port ≤ℤ pos 65535)

abbrev pub IsUsable : SourceConfig → Type 0
IsUsable s = (is_empty s.url ≡ false) × (pos 0 <ℤ s.timeout)

abbrev pub IsLevel : Bytes → Type 0
IsLevel level =
    ((level ≡ bytes "debug") ⊎ (level ≡ bytes "info"))
    ⊎ ((level ≡ bytes "warn") ⊎ (level ≡ bytes "error"))

-- What a configuration must be.
pub record IsValid (c : Config) : Type 0 where
  pub grpc_port : IsPort c.server.grpc_port
  pub rest_port : IsPort c.server.rest_port
  pub some_source : is_nil c.registry.sources ≡ false
  pub sources : All IsUsable c.registry.sources
  pub bloom_filter_size : pos 0 <ℤ c.storage.bloom_filter_size
  pub bloom_filter_hashes : pos 0 <ℤ c.storage.bloom_filter_hashes
  pub level : IsLevel c.logging.level
  pub format : (c.logging.format ≡ bytes "text") ⊎ (c.logging.format ≡ bytes "json")

-- A guard that let go on, and one that comes last.
passes :
    {E : Type 0} {r : Result E Unit} (b : Bool) (e : E)
    → (r >> fail_if b e) ≡ ok tt
    → (r ≡ ok tt) × (b ≡ false)
passes {r = err bad} b e good = cc good
passes {r = ok tt} true e good = cc good
passes {r = ok tt} false e good = (refl, refl)

last_passes : {E : Type 0} (b : Bool) (e : E) → fail_if b e ≡ ok tt → b ≡ false
last_passes true e good = cc good
last_passes false e good = refl

passes_rest :
    {E : Type 0} {r : Result E Unit} (rest : Result E Unit)
    → (r >> rest) ≡ ok tt
    → (r ≡ ok tt) × (rest ≡ ok tt)
passes_rest {r = err bad} rest good = cc good
passes_rest {r = ok tt} rest good = (refl, good)

IsPort-iff : (port : ℤ) → ((ltb_ℤ port (pos 1) || ltb_ℤ (pos 65535) port) ≡ false) ↔ IsPort port
IsPort-iff port = ground arith

positive_iff : (a : ℤ) → (leb_ℤ a (pos 0) ≡ false) ↔ (pos 0 <ℤ a)
positive_iff a = ground arith

or_iff :
    {A B : Type 0} (a b : Bool) → ((a ≡ true) ↔ A) → ((b ≡ true) ↔ B) → ((a || b) ≡ true) ↔ (A ⊎ B)
or_iff true b f g = (λ e. inl (f.0 refl), λ h. refl)
or_iff false b f g = (λ e. inr (g.0 e), λ h. elim h [ inl x ↦ cc (f.1 x) | inr y ↦ g.1 y ])

not_iff : (b : Bool) → (not b ≡ false) ↔ (b ≡ true)
not_iff b = ground arith

IsLevel-iff : (level : Bytes) → (not (is_level level) ≡ false) ↔ IsLevel level
unfolding is_level
IsLevel-iff level =
    let eq : (t : Bytes) → (bytes_eq level t ≡ true) ↔ (level ≡ t) = bytes_eq_iff level in
    let read =
      or_iff _ _ (or_iff _ _ (eq (bytes "debug")) (eq (bytes "info")))
        (or_iff _ _ (eq (bytes "warn")) (eq (bytes "error"))) in
    (λ e. read.0 ((not_iff (is_level level)).0 e), λ h. (not_iff (is_level level)).1 (read.1 h))

format_iff :
    (format : Bytes)
    → (not (is_format format) ≡ false) ↔ ((format ≡ bytes "text") ⊎ (format ≡ bytes "json"))
unfolding is_format
format_iff format =
    let read =
      or_iff (bytes_eq format (bytes "text")) (bytes_eq format (bytes "json"))
        (bytes_eq_iff format (bytes "text")) (bytes_eq_iff format (bytes "json")) in
    (λ e. read.0 ((not_iff (is_format format)).0 e), λ h. (not_iff (is_format format)).1 (read.1 h))

validate_sources_iff :
    (i : ℕ) (ss : List SourceConfig) → (validate_sources i ss ≡ ok tt) ↔ All IsUsable ss
unfolding validate_sources
validate_sources_iff i [] = (λ e. tt, λ h. refl)
validate_sources_iff i (s ∷ ss) = (
  λ e.
      let (guards, rest) = passes_rest (validate_sources (suc i) ss) e in
      let (named, timed) = passes _ _ guards in
      (
        (last_passes _ _ named, (positive_iff s.timeout).0 timed),
        (validate_sources_iff (suc i) ss).0 rest,
      ),
  λ h. rw (h.0.0, (positive_iff s.timeout).1 h.0.1) ((validate_sources_iff (suc i) ss).1 h.1),
)

-- Validate accepts a configuration exactly where both ports are from 1 to 65535, there is a source,
-- every source has a URL and a positive timeout, the two sizes of the filter are positive, and the
-- level and the format are among those that it lists.
pub validate_iff : (c : Config) → (validate c ≡ ok tt) ↔ IsValid c
unfolding validate
validate_iff c = (
  λ e.
      let (e7, format) = passes _ _ e in
      let (e6, level) = passes _ _ e7 in
      let (e5, hashes) = passes _ _ e6 in
      let (e4, size) = passes _ _ e5 in
      let (e3, sources) = passes_rest _ e4 in
      let (e2, some_source) = passes _ _ e3 in
      let (e1, rest_port) = passes _ _ e2 in
      record {
        grpc_port = (IsPort-iff c.server.grpc_port).0 (last_passes _ _ e1);
        rest_port = (IsPort-iff c.server.rest_port).0 rest_port;
        some_source = some_source;
        sources = (validate_sources_iff 0 c.registry.sources).0 sources;
        bloom_filter_size = (positive_iff c.storage.bloom_filter_size).0 size;
        bloom_filter_hashes = (positive_iff c.storage.bloom_filter_hashes).0 hashes;
        level = (IsLevel-iff c.logging.level).0 level;
        format = (format_iff c.logging.format).0 format;
      },
  λ v. rw (
    (IsPort-iff c.server.grpc_port).1 v.grpc_port,
    (IsPort-iff c.server.rest_port).1 v.rest_port,
    v.some_source,
    (validate_sources_iff 0 c.registry.sources).1 v.sources,
    (positive_iff c.storage.bloom_filter_size).1 v.bloom_filter_size,
    (positive_iff c.storage.bloom_filter_hashes).1 v.bloom_filter_hashes,
    (IsLevel-iff c.logging.level).1 v.level,
    (format_iff c.logging.format).1 v.format,
  ),
)
