-- ===== src/Storage/Bloom/Bounds.antt =====
-- The filter's accesses stay within its words.
use rkn_checker.Prelude.{
  ℕ, zero, suc, ◌+◌, ◌/◌, ◌^◌, ◌≤◌, ◌<◌, ◌≡◌, refl, arith, List, length, length-set,
  length-replicate, length-map, ◌∙◌,
}
use rkn_checker.Text.{Bytes}
use rkn_checker.Storage.Bloom.{
  FloatMath, BloomFilter, new_bloom_filter, bit_position, set_bit, add_from, get_hashes, add, clear,
}

-- There are bits, words for all of them, and one to ten rounds.
pub record IsSized (f : BloomFilter) : Type 0 where
  pub nonempty : 0 < f.size
  pub words : length f.bits ≡ (f.size + 63) / 64
  pub rounds : (1 ≤ f.k) × (f.k ≤ 10)

-- In a filter whose array holds its bits, the word that Add and Contains read at any round and for
-- any two hashes is within the array.
pub position-lt-words :
    (f : BloomFilter) (hashes : ℕ × ℕ) (i : ℕ)
    → IsSized f
    → bit_position hashes i f.size / 64 < length f.bits
unfolding bit_position
position-lt-words f hashes i h = rw h.words (grind arith)

pub length-set_bit : (words : List ℕ) (i : ℕ) → length (set_bit words i) ≡ length words
unfolding set_bit
length-set_bit words i = length-set words _ _

pub length-add_from :
    (hashes : ℕ × ℕ) (size i rounds : ℕ) (words : List ℕ)
    → length (add_from hashes size i rounds words) ≡ length words
unfolding add_from
length-add_from hashes size i zero words = refl
length-add_from hashes size i (suc rounds) words =
    length-add_from hashes size (suc i) rounds (set_bit words (bit_position hashes i size))
    ∙ length-set_bit words _

pub add-IsSized : (f : BloomFilter) (item : Bytes) → IsSized f → IsSized (add f item)
unfolding add
add-IsSized f item h = record {
  nonempty = h.nonempty;
  words = length-add_from (get_hashes item) f.size 0 f.k f.bits ∙ h.words;
  rounds = h.rounds;
}

pub clear-IsSized : (f : BloomFilter) → IsSized f → IsSized (clear f)
unfolding clear
clear-IsSized f h = record {
  nonempty = h.nonempty;
  words = length-map f.bits _ ∙ h.words;
  rounds = h.rounds;
}

-- The formula for the number of bits gives, at the rate of 0.01 and every positive count, a positive
-- number to which 63 is added in 64 bits without wrapping. The latter is so on amd64, where a
-- float64 converts to a multiple of 2048 from 2^63 on.
abbrev pub HasBits : FloatMath → Type 0
HasBits float =
    (n : ℕ)
    → 0 < n
    → (0 < float.bits_for n float.one_percent) × (float.bits_for n float.one_percent + 63 < 2 ^ 64)

-- NewBloomFilter at the rate of 0.01, for every count, the one of 0 included, gives a filter with
-- at least one bit, an array that holds its bits, and one to ten hash functions, where the formula
-- for the number of bits gives at least one, and so few that 63 more do not wrap in 64 bits.
pub new_bloom_filter-IsSized :
    (float : FloatMath) (n : ℕ)
    → HasBits float
    → IsSized (new_bloom_filter float n float.one_percent)
unfolding new_bloom_filter
new_bloom_filter-IsSized float n h = record {
  nonempty = ground (arith, h n, h 1000000);
  words = length-replicate _ _ ∙ ground (arith, h n, h 1000000);
  rounds = (ground arith, ground arith);
}
