-- ===== src/Storage/Bloom.antt =====
-- internal/infrastructure/storage/bloom_filter.go. The formulas over float64 in NewBloomFilter are
-- parameters, a float64 standing as its bit pattern; the hashes are those of hash/fnv.
pub mod Bits
pub mod Contains
pub mod Bounds
use Prim.Native.Nat.{bit_and, bit_or, bit_xor}
use rkn_checker.Prelude.{
  ℕ, zero, suc, ◌+◌, ◌*◌, ◌/◌, ◌%◌, ◌^◌, Bool, true, false, not, List, [], ◌∷◌, get_or, set,
  replicate, ◌==◌, ltb, if◌then◌else◌, map,
}
use rkn_checker.Text.{Bytes}

pub record FloatMath : Type 0 where
  -- falsePositiveRate <= 0 || falsePositiveRate >= 1
  pub out_of_range : ℕ → Bool
  -- 0.01
  pub one_percent : ℕ
  -- uint64(-float64(n) * Log(rate) / (Log(2) * Log(2)))
  pub bits_for : ℕ → ℕ → ℕ
  -- uint64(float64(m) / float64(n) * Log(2))
  pub hashes_for : ℕ → ℕ → ℕ

pub record BloomFilter : Type 0 where
  pub bits : List ℕ
  pub size : ℕ
  pub k : ℕ

abbrev u64 : ℕ → ℕ
u64 n = n % 2 ^ 64

unfoldable pub fnv64_from : ℕ → Bytes → ℕ
fnv64_from h [] = h
fnv64_from h (b ∷ item) = fnv64_from (bit_xor (u64 (h * 1099511628211)) b) item

unfoldable pub fnv64a_from : ℕ → Bytes → ℕ
fnv64a_from h [] = h
fnv64a_from h (b ∷ item) = fnv64a_from (u64 (bit_xor h b * 1099511628211)) item

-- getHashes
unfoldable pub get_hashes : Bytes → ℕ × ℕ
unfolding fnv64_from fnv64a_from
get_hashes item = (fnv64_from 14695981039346656037 item, fnv64a_from 14695981039346656037 item)

-- NewBloomFilter
unfoldable pub new_bloom_filter : FloatMath → ℕ → ℕ → BloomFilter
new_bloom_filter float n rate =
    let n' = if n == 0 then 1000000 else n in
    let rate' = if float.out_of_range rate then float.one_percent else rate in
    let m = float.bits_for n' rate' in
    let k = float.hashes_for m n' in
    let at_least_one = if k == 0 then 1 else k in
    let at_most_ten = if ltb 10 at_least_one then 10 else at_least_one in
    record { bits = replicate (u64 (m + 63) / 64) 0; size = m; k = at_most_ten }

-- (hashes[0] + i*hashes[1]) % size, in uint64
unfoldable pub bit_position : ℕ × ℕ → ℕ → ℕ → ℕ
bit_position (h1, h2) i size = u64 (h1 + u64 (i * h2)) % size

-- bits[index/64] |= 1 << (index%64)
unfoldable pub set_bit : List ℕ → ℕ → List ℕ
set_bit words index =
    set words (index / 64) (bit_or (get_or words (index / 64) 0) (2 ^ (index % 64)))

-- (bits[index/64] & (1 << (index%64))) == 0
unfoldable pub bit_is_clear : List ℕ → ℕ → Bool
bit_is_clear words index = bit_and (get_or words (index / 64) 0) (2 ^ (index % 64)) == 0

-- The loop of Add, from i on, with the rounds that are left.
unfoldable pub add_from : ℕ × ℕ → ℕ → ℕ → ℕ → List ℕ → List ℕ
add_from hashes size i zero words = words
add_from hashes size i (suc rounds) words =
    add_from hashes size (suc i) rounds (set_bit words (bit_position hashes i size))

-- Add
unfoldable pub add : BloomFilter → Bytes → BloomFilter
unfolding add_from
add f item = record f { bits = add_from (get_hashes item) f.size 0 f.k f.bits }

-- The loop of Contains.
unfoldable pub contains_from : ℕ × ℕ → ℕ → ℕ → ℕ → List ℕ → Bool
contains_from hashes size i zero words = true
contains_from hashes size i (suc rounds) words =
    let more = contains_from hashes size (suc i) rounds words in
    if bit_is_clear words (bit_position hashes i size) then false else more

-- Contains
unfoldable pub contains : BloomFilter → Bytes → Bool
unfolding contains_from
contains f item = contains_from (get_hashes item) f.size 0 f.k f.bits

-- Clear
unfoldable pub clear : BloomFilter → BloomFilter
clear f = record f { bits = map (λ word. 0) f.bits }

-- EstimatedFalsePositiveRate, as the bits of a float64; `rate` is the formula over
-- float64(bf.k * itemCount), float64(bf.size) and float64(bf.k)
unfoldable pub estimated_false_positive_rate : (ℕ → ℕ → ℕ → ℕ) → BloomFilter → ℕ → ℕ
estimated_false_positive_rate rate f item_count =
    if item_count == 0 then 0 else rate (u64 (f.k * item_count)) f.size f.k
