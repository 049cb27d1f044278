-- ===== src/Updater/Goroutines.antt =====
-- The goroutines of run in internal/infrastructure/updater/scheduler.go, one for every Start that
-- returned no error, and how many of them are in a phase.
use rkn_checker.Prelude.{
  ℕ, zero, suc, ◌+◌, ◌≤◌, ◌≡◌, Bool, true, false, List, [], ◌∷◌, get_or, set, arith,
}
use rkn_checker.Updater.{UpdateError}

-- Where a goroutine of run is: before its first update, at its select, in the attempts of
-- performUpdate, before it records how they ended, between its two deferred calls, at its end.
pub data Phase (E : Type 0) : Type 0 where
  starting selecting attempting succeeded closing gone : Phase E
  failed : UpdateError E → Phase E

abbrev pub is_active : {E : Type 0} → Phase E → Bool
is_active closing = false
is_active gone = false
is_active _ = true

abbrev pub is_updating : {E : Type 0} → Phase E → Bool
is_updating attempting = true
is_updating succeeded = true
is_updating (failed e) = true
is_updating _ = false

abbrev pub has_begun : {E : Type 0} → Phase E → Bool
has_begun starting = false
has_begun gone = false
has_begun _ = true

abbrev pub is_gone : {E : Type 0} → Phase E → Bool
is_gone gone = true
is_gone _ = false

abbrev pub is_left : {E : Type 0} → Phase E → Bool
is_left gone = false
is_left _ = true

abbrev pub bit_of : Bool → ℕ
bit_of true = 1
bit_of false = 0

abbrev pub how_many : {E : Type 0} → (Phase E → Bool) → List (Phase E) → ℕ
how_many f [] = 0
how_many f (p ∷ ps) = bit_of (f p) + how_many f ps

pub how_many-set :
    {E : Type 0} (f : Phase E → Bool) (ps : List (Phase E)) (i : ℕ) (p q : Phase E)
    → get_or ps i gone ≡ p
    → is_gone p ≡ false
    → how_many f (set ps i q) + bit_of (f p) ≡ how_many f ps + bit_of (f q)
how_many-set f [] i p q at there = cc (at, there)
how_many-set f (p' ∷ ps) zero p q at there = rw at (omega arith)
how_many-set f (p' ∷ ps) (suc i) p q at there = omega (arith, how_many-set f ps i p q at there)

-- A goroutine in a phase that counts is one of those that are counted.
pub le-how_many :
    {E : Type 0} (f : Phase E → Bool) (ps : List (Phase E)) (i : ℕ) (p : Phase E)
    → get_or ps i gone ≡ p
    → is_gone p ≡ false
    → bit_of (f p) ≤ how_many f ps
le-how_many f [] i p at there = cc (at, there)
le-how_many f (p' ∷ ps) zero p at there = rw at (omega arith)
le-how_many f (p' ∷ ps) (suc i) p at there = omega (arith, le-how_many f ps i p at there)
