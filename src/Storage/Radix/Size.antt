-- ===== src/Storage/Radix/Size.antt =====
-- `size` counts the keys: it grows by one exactly at a key that the tree did not hold.
use rkn_checker.Prelude.{
  ℕ, ◌+◌, ◌≡◌, refl, ◌∙◌, Bool, true, false, [], ◌∷◌, ◌++◌, Option, none, some, length, drop, ◌==◌,
  arith,
}
use rkn_checker.Text.{Bytes}
use rkn_checker.Text.Laws.{strip, strip-append_self}
use rkn_checker.Storage.Radix.{
  Node, node, Children, nil, cons, node_key, longest_common_prefix, place, insert_node, RadixTree,
  insert, search, insert_children,
}
use rkn_checker.Storage.Radix.Cut.{Cut, cut, place_covers, place_inside, place_forks}
use rkn_checker.Storage.Radix.Look.{
  look, look_children, look_child, look_children-cons, look-node, look_children-nil, look-node_end,
  look-node_inner, drop-covers,
}
use rkn_checker.Storage.Radix.Lookup.{search-eq-look}

-- What a new key adds to the size.
abbrev pub missing {ℓ} : {A : Type ℓ} → Option A → ℕ
missing none = 1
missing (some a) = 0

strip_self-longer : (s : Bytes) (c : ℕ) (x : Bytes) → strip (s ++ (c ∷ x)) s ≡ none
unfolding strip
strip_self-longer [] c x = refl
strip_self-longer (a ∷ s) c x = ground (arith, strip_self-longer s c x)

strip_fork :
    (p : Bytes) (c : ℕ) (x : Bytes) (d : ℕ) (y : Bytes)
    → (c == d) ≡ false
    → strip (p ++ (c ∷ x)) (p ++ (d ∷ y)) ≡ none
unfolding strip
strip_fork [] c x d y ne = ground arith
strip_fork (a ∷ p) c x d y ne = ground (arith, strip_fork p c x d y ne)

module _ {V : Type 0} where
  place-Cut_size :
      (s key : Bytes) (cs : Children V) (e : Bool) (v value : Option V) (deeper : Node V × ℕ)
      → Cut s key
      → deeper.1 ≡ missing (look (node s cs e v) (drop (length (longest_common_prefix s key)) key))
      → (place (node s cs e v) key value deeper).1 ≡ missing (look_child (node s cs e v) key)
  place-Cut_size s key cs e v value deeper (Cut.covers r h split) grown = rw split (
      rw (place_covers cs e v value deeper s r (rw split at h), strip-append_self)
        (rw (drop-covers s key r h split) at grown))
  place-Cut_size s key cs e v value deeper (Cut.inside c x h split) grown =
      rw split (rw (place_inside cs e v value deeper key c x (rw split at h), strip_self-longer))
  place-Cut_size s key cs e v value deeper (Cut.forks p c x d y h left right ne) grown =
      rw (left, right)
        (rw (
          place_forks cs e v value deeper p c x d y (rw (left, right) at h),
          strip_fork p c x d y ne,
        ))

  place_size :
      (child : Node V) (key : Bytes) (value : Option V) (deeper : Node V × ℕ)
      → deeper.1
        ≡ missing (look child (drop (length (longest_common_prefix (node_key child) key)) key))
      → (place child key value deeper).1 ≡ missing (look_child child key)
  place_size (node s cs e v) key value deeper grown =
      place-Cut_size s key cs e v value deeper (cut s key) grown

mutual
  unfolding insert_node

  insert_node_size :
      {V : Type 0} (n : Node V) (key : Bytes) (value : Option V)
      → (insert_node n key value).1 ≡ missing (look n key)
  insert_node_size (node k cs true v) [] value = rw look-node_end
  insert_node_size (node k cs false v) [] value = rw look-node_inner
  insert_node_size (node k cs e v) (c ∷ key) value =
      insert_children_size cs c key value ∙ rw look-node

  insert_children_size :
      {V : Type 0} (cs : Children V) (c : ℕ) (key : Bytes) (value : Option V)
      → (insert_children cs (c ∷ key) value).1 ≡ missing (look_children cs (c ∷ key))
  insert_children_size nil c key value = rw look_children-nil
  insert_children_size (cons b child others) c key value = ground (
    arith,
    look_children-cons b child others (c ∷ key),
    place_size child (c ∷ key) value
        (insert_node child
          (drop (length (longest_common_prefix (node_key child) (c ∷ key))) (c ∷ key)) value)
        (insert_node_size child
          (drop (length (longest_common_prefix (node_key child) (c ∷ key))) (c ∷ key)) value),
    insert_children_size others c key value,
  )

-- Size after an insertion under a key that is not empty: one more if a search did not find the
-- key before, and the same if it did.
pub size-insert :
    {V : Type 0} (t : RadixTree V) (c : ℕ) (key : Bytes) (value : Option V)
    → (insert t (c ∷ key) value).size ≡ t.size + missing (search t (c ∷ key))
unfolding insert
size-insert t c key value = rw search-eq-look (rw insert_node_size)
