-- ===== src/Storage/Radix/Cut.antt =====
-- How the key of a child and an inserted key divide, and what `insert` does in each case.
use rkn_checker.Prelude.{
  ℕ, ◌≡◌, refl, Bool, true, false, [], ◌∷◌, ◌++◌, Option, none, ◌==◌, arith, Bool-cases, inl, inr,
  drop-append,
}
use rkn_checker.Text.{Bytes, bytes_eq}
use rkn_checker.Text.Laws.{bytes_eq_refl}
use rkn_checker.Storage.Radix.{
  Node, node, Children, nil, cons, common_length, longest_common_prefix, place,
}

pub data Cut (s t : Bytes) : Type 0 where
  covers : (r : Bytes) → longest_common_prefix s t ≡ s → t ≡ s ++ r → Cut s t
  inside : (c : ℕ) (x : Bytes) → longest_common_prefix s t ≡ t → s ≡ t ++ (c ∷ x) → Cut s t
  forks :
      (p : Bytes) (c : ℕ) (x : Bytes) (d : ℕ) (y : Bytes)
      → longest_common_prefix s t ≡ p
      → s ≡ p ++ (c ∷ x)
      → t ≡ p ++ (d ∷ y)
      → (c == d) ≡ false
      → Cut s t

lcp-cons :
    (a b : ℕ) (s t : Bytes)
    → (a == b) ≡ true
    → longest_common_prefix (a ∷ s) (b ∷ t) ≡ a ∷ longest_common_prefix s t
unfolding longest_common_prefix
lcp-cons a b s t h = rw (h, common_length)

Cut-cons : (a b : ℕ) {s t : Bytes} → (a == b) ≡ true → Cut s t → Cut (a ∷ s) (b ∷ t)
Cut-cons a b {s} {t} h (covers r e f) = covers r (ground (arith, lcp-cons a b s t)) (ground arith)
Cut-cons a b {s} {t} h (inside c x e f) =
    inside c x (ground (arith, lcp-cons a b s t)) (ground arith)
Cut-cons a b {s} {t} h (forks p c x d y e f g k) =
    forks (a ∷ p) c x d y (ground (arith, lcp-cons a b s t)) (ground arith) (ground arith) k

pub cut : (s t : Bytes) → Cut s t
unfolding longest_common_prefix
cut [] t = covers t refl refl
cut (a ∷ s) [] = inside a s refl refl
cut (a ∷ s) (b ∷ t) = elim (Bool-cases (a == b)) [
  | inl same ↦ Cut-cons a b same (cut s t)
  | inr other ↦ forks [] a s b t (rw (other, common_length)) refl refl other
]

pub longer-ne : (s : Bytes) (c : ℕ) (x : Bytes) → bytes_eq s (s ++ (c ∷ x)) ≡ false
unfolding bytes_eq
longer-ne [] c x = refl
longer-ne (a ∷ s) c x = ground (arith, longer-ne s c x)

module _ {V : Type 0} (cs : Children V) (e : Bool) (v : Option V) (value : Option V)
    (deeper : Node V × ℕ) where
  pub place_covers :
      (s r : Bytes)
      → longest_common_prefix s (s ++ r) ≡ s
      → place (node s cs e v) (s ++ r) value deeper ≡ deeper
  unfolding place
  place_covers s r h = rw (h, bytes_eq_refl s)

  pub place_inside :
      (key : Bytes) (c : ℕ) (x : Bytes)
      → longest_common_prefix (key ++ (c ∷ x)) key ≡ key
      → place (node (key ++ (c ∷ x)) cs e v) key value deeper
        ≡ (node key (cons c (node (c ∷ x) cs e v) nil) true value, 1)
  unfolding place
  place_inside key c x h = rw (h, longer-ne key c x, bytes_eq_refl key, drop-append key (c ∷ x))

  pub place_forks :
      (p : Bytes) (c : ℕ) (x : Bytes) (d : ℕ) (y : Bytes)
      → longest_common_prefix (p ++ (c ∷ x)) (p ++ (d ∷ y)) ≡ p
      → place (node (p ++ (c ∷ x)) cs e v) (p ++ (d ∷ y)) value deeper ≡ (
        node p (cons c (node (c ∷ x) cs e v) (cons d (node (d ∷ y) nil true value) nil)) false none,
        1,
      )
  unfolding place
  place_forks p c x d y h =
      rw (h, longer-ne p c x, longer-ne p d y, drop-append p (c ∷ x), drop-append p (d ∷ y))
