-- ===== src/Storage/MemoryStore/Unordered.antt =====
-- Whether a name is blocked depends on the set of the entries only.
use mathlib.Core.Quot
use mathlib.Core.Quot.{Quot, Quot-set}
use mathlib.Core.Logic.{∥∥₁_elim}
use mathlib.Core.List.{Perm, Permᴰ}
use rkn_checker.Prelude.{
  ℕ, ◌≡◌, refl, ◌∙◌, sym, ap, Bool, true, false, ◌||◌, List, [], ◌∷◌, Option, none, some, ok, drop,
  arith,
}
use rkn_checker.Text.{Bytes, join, split}
use rkn_checker.Platform.{Platform}
use rkn_checker.Domain.Blocking.{BlockingType, BlockingRule, new_blocking_result}
use rkn_checker.Domain.Registry.{Registry, RegistryEntry}
use rkn_checker.Storage.Bloom.{FloatMath}
use rkn_checker.Storage.Bloom.Bounds.{HasBits}
use rkn_checker.Storage.MemoryStore.{MemoryStore, blocked_by, is_blocked, update, or_else}
use rkn_checker.Storage.MemoryStore.Verdict.{
  verdict, last_rule, suffix_rule, names_domain, names_address, names_suffix, entry_rule, given,
}
use rkn_checker.Storage.MemoryStore.Refinement.{is_blocked_of_update}

abbrev any_entry : (RegistryEntry → Bool) → List RegistryEntry → Bool
any_entry test [] = false
any_entry test (e ∷ es) = test e || any_entry test es

-- No test tells which of two lists has an entry that passes.
abbrev pub SameEntries : List RegistryEntry → List RegistryEntry → Type 0
SameEntries es es' = (test : RegistryEntry → Bool) → any_entry test es ≡ any_entry test es'

-- Sets of entries.
abbrev pub EntrySet : Type 0
EntrySet = Quot SameEntries

abbrev pub set_of : List RegistryEntry → EntrySet
set_of = Quot.mk

abbrev is_some : {A : Type 0} → Option A → Bool
is_some none = false
is_some (some a) = true

is_some-or_else : {A : Type 0} (o p : Option A) → is_some (or_else o p) ≡ (is_some o || is_some p)
is_some-or_else none p = refl
is_some-or_else (some a) p = refl

or_comm : (a b : Bool) → (a || b) ≡ (b || a)
or_comm a b = ground arith

module _ (platform : Platform) where
  -- An entry that passes a test and has a rule.
  abbrev asks : (BlockingType → RegistryEntry → Bool) → RegistryEntry → Bool
  asks test e = is_some (given (test e.entry_type e) (entry_rule platform e))

  is_some-last_rule :
      (test : BlockingType → RegistryEntry → Bool) (es : List RegistryEntry)
      → is_some (last_rule platform test es) ≡ any_entry (asks test) es
  unfolding last_rule
  is_some-last_rule test [] = refl
  is_some-last_rule test (e ∷ es) =
      is_some-or_else (last_rule platform test es)
        (given (test e.entry_type e) (entry_rule platform e))
      ∙ ap (λ b. b || asks test e) (is_some-last_rule test es)
      ∙ or_comm (any_entry (asks test) es) (asks test e)

  module _ (es es' : List RegistryEntry) (same : SameEntries es es') where
    last_rule-SameEntries :
        (test : BlockingType → RegistryEntry → Bool)
        → is_some (last_rule platform test es) ≡ is_some (last_rule platform test es')
    last_rule-SameEntries test =
        is_some-last_rule test es ∙ same (asks test) ∙ sym (is_some-last_rule test es')

    or_else-same :
        (o p o' p' : Option BlockingRule)
        → is_some o ≡ is_some o'
        → is_some p ≡ is_some p'
        → is_some (or_else o p) ≡ is_some (or_else o' p')
    or_else-same o p o' p' first other =
        is_some-or_else o p ∙ rw (first, other) (sym (is_some-or_else o' p'))

    suffix_rule-SameEntries :
        (parts : List Bytes)
        → is_some (suffix_rule platform es parts) ≡ is_some (suffix_rule platform es' parts)
    unfolding suffix_rule
    suffix_rule-SameEntries [] = refl
    suffix_rule-SameEntries (part ∷ parts) =
        or_else-same (last_rule platform (names_suffix (join b'.' (part ∷ parts))) es)
          (suffix_rule platform es parts)
          (last_rule platform (names_suffix (join b'.' (part ∷ parts))) es')
          (suffix_rule platform es' parts)
          (last_rule-SameEntries (names_suffix (join b'.' (part ∷ parts))))
          (suffix_rule-SameEntries parts)

    pub verdict-SameEntries :
        (host : Bytes) → is_some (verdict platform es host) ≡ is_some (verdict platform es' host)
    unfolding verdict
    verdict-SameEntries host = or_else-same _ _ _ _ (last_rule-SameEntries (names_domain host)) (
        or_else-same _ _ _ _ (last_rule-SameEntries (names_address host))
          (suffix_rule-SameEntries (drop 1 (split b'.' host))))

  -- What a set of entries blocks.
  unfoldable pub blocks : Bytes → EntrySet → Bool
  blocks host =
      Quot.lift (hlevel) (λ es. is_some (verdict platform es host))
        λ es es' same. verdict-SameEntries es es' same host

is_blocked-blocked_by :
    (now : ℕ) (host : Bytes) (o : Option BlockingRule)
    → (blocked_by now host o).is_blocked ≡ is_some o
unfolding new_blocking_result
is_blocked-blocked_by now host none = refl
is_blocked-blocked_by now host (some rule) = refl

-- After Update, whether IsBlocked blocks a name is a function of the set of the registry's entries:
-- neither their order nor repetitions matter. The formula for the filter's size is assumed to give
-- at least one bit, and so few that 63 more do not wrap in 64 bits.
pub is_blocked-blocks :
    (platform : Platform) (float : FloatMath) (then_time now : ℕ) (store store' : MemoryStore)
    (registry : Registry) (host : Bytes)
    → HasBits float
    → update platform float then_time store (some registry) ≡ ok store'
    → (is_blocked now store' host).is_blocked ≡ blocks platform host (set_of registry.entries)
unfolding blocks
is_blocked-blocks platform float then_time now store store' registry host positive done =
    ap (λ r. r.is_blocked)
      (is_blocked_of_update platform float then_time now store store' registry host positive done)
    ∙ is_blocked-blocked_by now host (verdict platform registry.entries host)

Permᴰ-SameEntries : {es es' : List RegistryEntry} → Permᴰ es es' → SameEntries es es'
Permᴰ-SameEntries Permᴰ.nil test = refl
Permᴰ-SameEntries (Permᴰ.cons same rest) test = rw (same, Permᴰ-SameEntries rest test)
Permᴰ-SameEntries (Permᴰ.swap first second) test = rw (first, second) (ground arith)
Permᴰ-SameEntries (Permᴰ.trans first second) test =
    Permᴰ-SameEntries first test ∙ Permᴰ-SameEntries second test

pub set_of-Perm : {es es' : List RegistryEntry} → Perm es es' → set_of es ≡ set_of es'
set_of-Perm p = ∥∥₁_elim p (hlevel Quot-set) (λ d. Quot.sound (Permᴰ-SameEntries d))

-- Two stores that took registries with the same entries in different orders block the same names,
-- whatever they held before. The formula for the filter's size is assumed to give at least one bit,
-- and so few that 63 more do not wrap in 64 bits.
pub is_blocked-Perm :
    (platform : Platform) (float : FloatMath) (then_time then_time' now : ℕ)
    (store store' updated updated' : MemoryStore) (registry registry' : Registry) (host : Bytes)
    → HasBits float
    → Perm registry.entries registry'.entries
    → update platform float then_time store (some registry) ≡ ok updated
    → update platform float then_time' store' (some registry') ≡ ok updated'
    → (is_blocked now updated host).is_blocked ≡ (is_blocked now updated' host).is_blocked
is_blocked-Perm platform float then_time then_time' now store store' updated updated' registry
      registry' host positive reordered done done' =
    is_blocked-blocks platform float then_time now store updated registry host positive done
    ∙ ap (blocks platform host) (set_of-Perm reordered)
    ∙ sym (
        is_blocked-blocks platform float then_time' now store' updated' registry' host positive
          done')
