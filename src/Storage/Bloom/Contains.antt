-- ===== src/Storage/Bloom/Contains.antt =====
-- The filter never denies an item that was added.
use Prim.Native.Nat.{bit_or}
use rkn_checker.Prelude.{
  ℕ, zero, suc, ◌/◌, ◌%◌, ◌^◌, ◌<◌, ◌≡◌, refl, ◌↔◌, ◌==◌, ◌&&◌, ltb, true, false, arith, List, [],
  ◌∷◌, get_or, set, length, if◌then◌else◌, Bool-cases, ◌⊎◌, inl, inr,
}
use mathlib.Core.List.{Memᴰ}
use rkn_checker.Text.{Bytes}
use rkn_checker.Storage.Bloom.{
  BloomFilter, bit_position, set_bit, bit_is_clear, add_from, contains_from, get_hashes, add,
  contains, FloatMath, new_bloom_filter,
}
use rkn_checker.Storage.Bloom.Bits.{bit, bit-le-one, bit-bit_or, bit-power_self, bit_and-power}
use rkn_checker.Storage.Bloom.Bounds.{
  IsSized, position-lt-words, length-set_bit, add-IsSized, HasBits, new_bloom_filter-IsSized,
}

get_or-set :
    (xs : List ℕ) (i j v d : ℕ)
    → get_or (set xs i v) j d ≡ (if (i == j) && ltb i (length xs) then v else get_or xs j d)
get_or-set [] i j v d = ground arith
get_or-set (x ∷ xs) zero zero v d = ground arith
get_or-set (x ∷ xs) zero (suc j) v d = ground arith
get_or-set (x ∷ xs) (suc i) zero v d = ground arith
get_or-set (x ∷ xs) (suc i) (suc j) v d = ground (arith, get_or-set xs i j v d)

-- The bit that an index stands for.
bit_at : List ℕ → ℕ → ℕ
bit_at words index = bit (get_or words (index / 64) 0) (index % 64)

bit_is_clear_iff : (words : List ℕ) (i : ℕ) → (bit_is_clear words i ≡ false) ↔ (bit_at words i ≡ 1)
unfolding bit_is_clear bit_at
bit_is_clear_iff words i = ground (
  arith,
  bit_and-power (get_or words (i / 64) 0) (i % 64),
  bit-le-one (get_or words (i / 64) 0) (i % 64),
)

or_keeps :
    (words : List ℕ) (i j : ℕ)
    → bit_at words j ≡ 1
    → i / 64 ≡ j / 64
    → bit (bit_or (get_or words (i / 64) 0) (2 ^ (i % 64))) (j % 64) ≡ 1
unfolding bit_at
or_keeps words i j h e = rw e (
    omega (
      arith,
      bit-bit_or (get_or words (j / 64) 0) (2 ^ (i % 64)) (j % 64),
      bit-le-one (get_or words (j / 64) 0) (j % 64),
      bit-le-one (2 ^ (i % 64)) (j % 64),
    ))

both_true : (i n : ℕ) → i < n → ((i == i) && ltb i n) ≡ true
both_true i n h = ground arith

set_bit_keeps : (words : List ℕ) (i j : ℕ) → bit_at words j ≡ 1 → bit_at (set_bit words i) j ≡ 1
unfolding set_bit bit_at
set_bit_keeps words i j h =
    rw get_or-set (elim (Bool-cases ((i / 64 == j / 64) && ltb (i / 64) (length words))) [
      | inl same ↦ rw same (or_keeps words i j h (ground arith))
      | inr other ↦ rw other h
    ])

set_bit_sets : (words : List ℕ) (i : ℕ) → i / 64 < length words → bit_at (set_bit words i) i ≡ 1
unfolding set_bit bit_at
set_bit_sets words i h = rw get_or-set (
    rw (both_true (i / 64) (length words) h) (
      omega (
        arith,
        bit-bit_or (get_or words (i / 64) 0) (2 ^ (i % 64)) (i % 64),
        bit-power_self (i % 64),
        bit-le-one (get_or words (i / 64) 0) (i % 64),
      )))

-- The filter answers yes from round i on.
module _ (hashes : ℕ × ℕ) (size : ℕ) where
  AllSet : ℕ → ℕ → List ℕ → Type 0
  AllSet i zero words = Unit
  AllSet i (suc rounds) words =
      (bit_at words (bit_position hashes i size) ≡ 1) × AllSet (suc i) rounds words

  contains_from_iff :
      (i rounds : ℕ) (words : List ℕ)
      → (contains_from hashes size i rounds words ≡ true) ↔ AllSet i rounds words
  unfolding contains_from AllSet
  contains_from_iff i zero words = (λ e. tt, λ e. refl)
  contains_from_iff i (suc rounds) words = ground (
    arith,
    bit_is_clear_iff words (bit_position hashes i size),
    contains_from_iff (suc i) rounds words,
  )

  AllSet-set_bit :
      (i rounds : ℕ) (words : List ℕ) (j : ℕ)
      → AllSet i rounds words
      → AllSet i rounds (set_bit words j)
  unfolding AllSet
  AllSet-set_bit i zero words j h = tt
  AllSet-set_bit i (suc rounds) words j h =
      (set_bit_keeps words j _ h.0, AllSet-set_bit (suc i) rounds words j h.1)

bit_at-add_from :
    (hashes : ℕ × ℕ) (size i rounds : ℕ) (words : List ℕ) (j : ℕ)
    → bit_at words j ≡ 1
    → bit_at (add_from hashes size i rounds words) j ≡ 1
unfolding add_from
bit_at-add_from hashes size i zero words j h = h
bit_at-add_from hashes size i (suc rounds) words j h =
    bit_at-add_from hashes size (suc i) rounds _ j (set_bit_keeps words _ j h)

AllSet-add_from :
    (old new : ℕ × ℕ) (size i rounds i' rounds' : ℕ) (words : List ℕ)
    → AllSet old size i' rounds' words
    → AllSet old size i' rounds' (add_from new size i rounds words)
unfolding add_from
AllSet-add_from old new size i zero i' rounds' words h = h
AllSet-add_from old new size i (suc rounds) i' rounds' words h =
    AllSet-add_from old new size (suc i) rounds i' rounds' _
      (AllSet-set_bit old size i' rounds' words _ h)

add_from-AllSet :
    (hashes : ℕ × ℕ) (size i rounds : ℕ) (words : List ℕ)
    → ((l : ℕ) → bit_position hashes l size / 64 < length words)
    → AllSet hashes size i rounds (add_from hashes size i rounds words)
unfolding add_from AllSet
add_from-AllSet hashes size i zero words fits = tt
add_from-AllSet hashes size i (suc rounds) words fits = (
  bit_at-add_from hashes size (suc i) rounds _ _ (set_bit_sets words _ (fits i)),
  add_from-AllSet hashes size (suc i) rounds _ (λ l. rw length-set_bit (fits l)),
)

-- What the filter contains it contains after any other item is added.
pub contains-add_keeps :
    (f : BloomFilter) (new item : Bytes) → contains f item ≡ true → contains (add f new) item ≡ true
unfolding contains add
contains-add_keeps f new item h = (contains_from_iff (get_hashes item) f.size 0 f.k _).1 (
    AllSet-add_from (get_hashes item) (get_hashes new) f.size 0 f.k 0 f.k f.bits
      ((contains_from_iff (get_hashes item) f.size 0 f.k f.bits).0 h))

-- In a filter whose array holds its bits, an item that was added is contained.
pub contains-add_self :
    (f : BloomFilter) (item : Bytes) → IsSized f → contains (add f item) item ≡ true
unfolding contains add
contains-add_self f item h = (contains_from_iff (get_hashes item) f.size 0 f.k _).1 (
    add_from-AllSet (get_hashes item) f.size 0 f.k f.bits
      (λ l. position-lt-words f (get_hashes item) l h))

-- The filter after a sequence of calls of Add.
unfoldable pub add_all : BloomFilter → List Bytes → BloomFilter
unfolding add
add_all f [] = f
add_all f (item ∷ items) = add_all (add f item) items

contains-add_all_keeps :
    (f : BloomFilter) (items : List Bytes) (item : Bytes)
    → contains f item ≡ true
    → contains (add_all f items) item ≡ true
unfolding add_all
contains-add_all_keeps f [] item h = h
contains-add_all_keeps f (new ∷ items) item h =
    contains-add_all_keeps (add f new) items item (contains-add_keeps f new item h)

-- There is no false negative: in a filter whose array holds its bits, every item that a sequence of
-- calls of Add added is contained after it, as is every item that was contained before.
pub contains-add_all :
    (f : BloomFilter) (items : List Bytes) (item : Bytes)
    → IsSized f
    → (contains f item ≡ true) ⊎ Memᴰ item items
    → contains (add_all f items) item ≡ true
unfolding add_all
contains-add_all f items item sized (inl before) = contains-add_all_keeps f items item before
contains-add_all f [] item sized (inr none_there) = elim none_there [ ]
contains-add_all f (new ∷ items) item sized (inr (Memᴰ.head e)) =
    contains-add_all_keeps (add f new) items item (rw e (contains-add_self f new sized))
contains-add_all f (new ∷ items) item sized (inr (Memᴰ.tail m)) =
    contains-add_all (add f new) items item (add-IsSized f new sized) (inr m)

add_all-IsSized : (f : BloomFilter) (items : List Bytes) → IsSized f → IsSized (add_all f items)
unfolding add_all
add_all-IsSized f [] sized = sized
add_all-IsSized f (item ∷ items) sized =
    add_all-IsSized (add f item) items (add-IsSized f item sized)

-- In a filter that NewBloomFilter made for any count at the rate of 0.01, after any sequence of
-- calls of Add, the word that Add and Contains read and write at any round is within the array. The
-- formula for the number of bits is assumed to give at least one, and so few that 63 more do not
-- wrap in 64 bits.
pub position-lt-words_built :
    (float : FloatMath) (n : ℕ) (items : List Bytes) (item : Bytes) (i : ℕ)
    → HasBits float
    → bit_position
          (get_hashes item)
          i
          (add_all (new_bloom_filter float n float.one_percent) items).size
        / 64
      < length (add_all (new_bloom_filter float n float.one_percent) items).bits
position-lt-words_built float n items item i positive =
    position-lt-words (add_all (new_bloom_filter float n float.one_percent) items) (get_hashes item)
      i
      (add_all-IsSized (new_bloom_filter float n float.one_percent) items
        (new_bloom_filter-IsSized float n positive))
