-- ===== src/Storage/Bloom/Bits.antt =====
-- A bit of a word that `bit_or` writes and `bit_and` reads.
use Prim.Native.Nat.{min, max, bit_and, bit_or, digits, bit_and-bitwise, bit_or-bitwise}
use native.Mathlib.Nat.{pow-suc}
use rkn_checker.Prelude.{ℕ, zero, suc, ◌+◌, ◌*◌, ◌/◌, ◌%◌, ◌^◌, ◌≤◌, ◌≡◌, refl, ◌↔◌, arith}

-- Fuel beyond the first number changes no digit, whatever is done with the digits.
digits_fuel :
    (rest : ℕ → ℕ) (both : ℕ → ℕ → ℕ) (f g x y : ℕ)
    → x ≤ f
    → x ≤ g
    → digits rest both f x y ≡ digits rest both g x y
digits_fuel rest both zero zero x y hf hg = refl
digits_fuel rest both zero (suc g) zero y hf hg = refl
digits_fuel rest both zero (suc g) (suc x) y hf hg = absurd (omega arith)
digits_fuel rest both (suc f) zero zero y hf hg = refl
digits_fuel rest both (suc f) zero (suc x) y hf hg = absurd (omega arith)
digits_fuel rest both (suc f) (suc g) zero y hf hg = refl
digits_fuel rest both (suc f) (suc g) (suc x) y hf hg =
    rw (digits_fuel rest both f g (suc x / 2) (y / 2) (omega arith) (omega arith))

-- The lowest digit and the others, of a conjunction and of a disjunction.
bit_and_digit : (x y : ℕ) → bit_and x y ≡ bit_and (x / 2) (y / 2) * 2 + min (x % 2) (y % 2)
bit_and_digit zero y = omega (arith, bit_and-bitwise 0 y, bit_and-bitwise 0 (y / 2))
bit_and_digit (suc x) y = omega (
  arith,
  digits_fuel (λ y. zero) min x (suc x / 2) (suc x / 2) (y / 2) (omega arith) (omega arith),
  bit_and-bitwise (suc x / 2) (y / 2),
  bit_and-bitwise (suc x) y,
)

bit_or_digit : (x y : ℕ) → bit_or x y ≡ bit_or (x / 2) (y / 2) * 2 + max (x % 2) (y % 2)
bit_or_digit zero y = omega (arith, bit_or-bitwise 0 y, bit_or-bitwise 0 (y / 2))
bit_or_digit (suc x) y = omega (
  arith,
  digits_fuel (λ y. y) max x (suc x / 2) (suc x / 2) (y / 2) (omega arith) (omega arith),
  bit_or-bitwise (suc x / 2) (y / 2),
  bit_or-bitwise (suc x) y,
)

bit_and-none_below : (n x : ℕ) → x ≤ n → bit_and x 0 ≡ 0
bit_and-none_below n zero h = refl
bit_and-none_below zero (suc x) h = absurd (omega arith)
bit_and-none_below (suc n) (suc x) h =
    omega (arith, bit_and-none_below n (suc x / 2) (omega arith), bit_and_digit (suc x) 0)

-- The bit of a word at a position.
unfoldable pub bit : ℕ → ℕ → ℕ
bit w zero = w % 2
bit w (suc i) = bit (w / 2) i

pub bit-le-one : (w i : ℕ) → bit w i ≤ 1
unfolding bit
bit-le-one w zero = omega arith
bit-le-one w (suc i) = bit-le-one (w / 2) i

pub bit-bit_or : (a b i : ℕ) → bit (bit_or a b) i ≡ max (bit a i) (bit b i)
unfolding bit
bit-bit_or a b zero = omega (arith, bit_or_digit a b)
bit-bit_or a b (suc i) = rw (halve a b) (bit-bit_or (a / 2) (b / 2) i)
  where
    halve : (a b : ℕ) → bit_or a b / 2 ≡ bit_or (a / 2) (b / 2)
    halve a b = omega (arith, bit_or_digit a b)

pub bit-power_self : (i : ℕ) → bit (2 ^ i) i ≡ 1
unfolding bit
bit-power_self zero = refl
bit-power_self (suc i) = rw (halve i) (bit-power_self i)
  where
    halve : (i : ℕ) → 2 ^ suc i / 2 ≡ 2 ^ i
    halve i = omega (arith, pow-suc 2 i)

bit_and-power_digit : (w i : ℕ) → bit_and w (2 ^ suc i) ≡ bit_and (w / 2) (2 ^ i) * 2
bit_and-power_digit w i = rw (← halve i) (omega (arith, bit_and_digit w (2 ^ suc i), pow-suc 2 i))
  where
    halve : (i : ℕ) → 2 ^ suc i / 2 ≡ 2 ^ i
    halve i = omega (arith, pow-suc 2 i)

-- The test with a mask of one bit reads that bit.
pub bit_and-power : (w i : ℕ) → (bit_and w (2 ^ i) ≡ 0) ↔ (bit w i ≡ 0)
unfolding bit
bit_and-power w zero =
    omega (arith, bit_and_digit w 1, bit_and-none_below (w / 2) (w / 2) (omega arith))
bit_and-power w (suc i) =
    let (clear, masked) = bit_and-power (w / 2) i in
    (
      λ e. clear (omega (arith, bit_and-power_digit w i)),
      λ e. omega (arith, masked e, bit_and-power_digit w i),
    )
