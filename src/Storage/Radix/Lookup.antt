-- ===== src/Storage/Radix/Lookup.antt =====
-- What a search finds after an insertion: the tree is a map from keys to values.
use rkn_checker.Prelude.{
  ℕ, ◌≡◌, refl, sym, ◌∙◌, Bool, true, false, [], ◌∷◌, ◌++◌, Option, none, some, length, drop, ◌==◌,
  if◌then◌else◌, arith,
}
use rkn_checker.Text.{Bytes, bytes_eq, is_empty}
use rkn_checker.Text.Laws.{
  eq_after, strip_after, bytes_eq-strip, strip, strip-append, bytes_eq-append,
}
use rkn_checker.Storage.Radix.{
  Node, node, Children, nil, cons, node_key, longest_common_prefix, place, insert_node, RadixTree,
  new_tree, insert, search, insert_children,
}
use rkn_checker.Storage.Radix.Cut.{Cut, cut, place_covers, place_inside, place_forks}
use rkn_checker.Storage.Radix.Look.{
  drop-covers, head_ne, look, look_children, look_after, look_child, look_children-cons, look-node,
  look_children-nil, look-node_end, look_after-key, node_key-insert_node, inside_after, forks_after,
  look-node_root, look_children-leaf,
}

module _ {V : Type 0} where
  -- `n` is `m` with `value` written under `key`.
  abbrev Writes : Node V → Node V → Bytes → Option V → Type 0
  Writes n m key value = (j : Bytes) → look n j ≡ (if bytes_eq j key then some value else look m j)

  deeper_after :
      (n m : Node V) (r : Bytes) (value : Option V) (o : Option Bytes)
      → Writes n m r value
      → look_after o n ≡ (if eq_after o r then some value else look_after o m)
  deeper_after n m r value none h = refl
  deeper_after n m r value (some t) h = h t

  place-covers :
      (s r : Bytes) (cs : Children V) (e : Bool) (v value : Option V) (deeper : Node V × ℕ)
      → longest_common_prefix s (s ++ r) ≡ s
      → node_key deeper.0 ≡ s
      → Writes deeper.0 (node s cs e v) r value
      → (j : Bytes)
      → look_child (place (node s cs e v) (s ++ r) value deeper).0 j
        ≡ (if bytes_eq j (s ++ r) then some value else look_child (node s cs e v) j)
  place-covers s r cs e v value deeper h same writes j =
      rw (place_covers cs e v value deeper s r h, same, bytes_eq-append)
        (deeper_after deeper.0 (node s cs e v) r value (strip s j) writes)

  place-inside :
      (key : Bytes) (c : ℕ) (x : Bytes) (cs : Children V) (e : Bool) (v value : Option V)
      (deeper : Node V × ℕ)
      → longest_common_prefix (key ++ (c ∷ x)) key ≡ key
      → (j : Bytes)
      → look_child (place (node (key ++ (c ∷ x)) cs e v) key value deeper).0 j
        ≡ (if bytes_eq j key then some value else look_child (node (key ++ (c ∷ x)) cs e v) j)
  place-inside key c x cs e v value deeper h j =
      rw (place_inside cs e v value deeper key c x h, bytes_eq-strip, strip-append)
        (inside_after cs e v value key c x (strip key j)
          ∙ rw (look_after-key (c ∷ x) (key ++ (c ∷ x)) cs e v (strip_after (strip key j) (c ∷ x))))

  place-forks :
      (p : Bytes) (c : ℕ) (x : Bytes) (d : ℕ) (y : Bytes) (cs : Children V) (e : Bool)
      (v value : Option V) (deeper : Node V × ℕ)
      → longest_common_prefix (p ++ (c ∷ x)) (p ++ (d ∷ y)) ≡ p
      → (c == d) ≡ false
      → (j : Bytes)
      → look_child (place (node (p ++ (c ∷ x)) cs e v) (p ++ (d ∷ y)) value deeper).0 j ≡ (
          if bytes_eq j (p ++ (d ∷ y))
          then some value
          else look_child (node (p ++ (c ∷ x)) cs e v) j)
  place-forks p c x d y cs e v value deeper h ne j =
      rw (place_forks cs e v value deeper p c x d y h, bytes_eq-append, strip-append)
        (forks_after cs e v value p c x d y (strip p j) ne
          ∙ rw (look_after-key (c ∷ x) (p ++ (c ∷ x)) cs e v (strip_after (strip p j) (c ∷ x))))

  -- Placing a key at a child writes the key, and nothing else, below that child.
  place-Cut :
      (s key : Bytes) (cs : Children V) (e : Bool) (v value : Option V) (deeper : Node V × ℕ)
      → Cut s key
      → node_key deeper.0 ≡ s
      → Writes deeper.0 (node s cs e v) (drop (length (longest_common_prefix s key)) key) value
      → (j : Bytes)
      → look_child (place (node s cs e v) key value deeper).0 j
        ≡ (if bytes_eq j key then some value else look_child (node s cs e v) j)
  place-Cut s key cs e v value deeper (Cut.covers r h split) same writes j = rw split (
      place-covers s r cs e v value deeper (rw split at h) same
        (rw (drop-covers s key r h split) at writes) j)
  place-Cut s key cs e v value deeper (Cut.inside c x h split) same writes j =
      rw split (place-inside key c x cs e v value deeper (rw split at h) j)
  place-Cut s key cs e v value deeper (Cut.forks p c x d y h left right ne) same writes j =
      rw (left, right) (place-forks p c x d y cs e v value deeper (rw (left, right) at h) ne j)

  place-Writes :
      (child : Node V) (key : Bytes) (value : Option V) (deeper : Node V × ℕ)
      → node_key deeper.0 ≡ node_key child
      → Writes deeper.0 child (drop (length (longest_common_prefix (node_key child) key)) key) value
      → (j : Bytes)
      → look_child (place child key value deeper).0 j
        ≡ (if bytes_eq j key then some value else look_child child j)
  place-Writes (node s cs e v) key value deeper same writes =
      place-Cut s key cs e v value deeper (cut s key) same writes

mutual
  unfolding insert_node bytes_eq

  insert_node-Writes :
      {V : Type 0} (n : Node V) (key : Bytes) (value : Option V)
      → Writes (insert_node n key value).0 n key value
  insert_node-Writes (node k cs e v) [] value [] = look-node_end k cs value
  insert_node-Writes (node k cs e v) [] value (d ∷ j) =
      look-node k cs true value d j ∙ sym (look-node k cs e v d j)
  insert_node-Writes (node k cs e v) (c ∷ key) value [] =
      look-node_root k (insert_children cs (c ∷ key) value).0 cs e v
  insert_node-Writes (node k cs e v) (c ∷ key) value (d ∷ j) =
      rw look-node (rw look-node (insert_children-Writes cs c key value d j))

  insert_children-Writes :
      {V : Type 0} (cs : Children V) (c : ℕ) (key : Bytes) (value : Option V) (d : ℕ) (j : Bytes)
      → look_children (insert_children cs (c ∷ key) value).0 (d ∷ j)
        ≡ (if bytes_eq (d ∷ j) (c ∷ key) then some value else look_children cs (d ∷ j))
  insert_children-Writes nil c key value d j =
      look_children-leaf c key value d j ∙ rw look_children-nil
  insert_children-Writes (cons b child others) c key value d j = ground (
    arith,
    head_ne d j c key,
    look_children-cons b child others (d ∷ j),
    look_children-cons b
        (place child (c ∷ key) value (
          insert_node child
            (drop (length (longest_common_prefix (node_key child) (c ∷ key))) (c ∷ key)) value)).0
        others (d ∷ j),
    look_children-cons b child (insert_children others (c ∷ key) value).0 (d ∷ j),
    place-Writes child (c ∷ key) value
        (insert_node child
          (drop (length (longest_common_prefix (node_key child) (c ∷ key))) (c ∷ key)) value)
        (node_key-insert_node child _ value)
        (insert_node-Writes child
          (drop (length (longest_common_prefix (node_key child) (c ∷ key))) (c ∷ key)) value)
        (d ∷ j),
    insert_children-Writes others c key value d j,
  )

pub search-eq-look :
    {V : Type 0} (t : RadixTree V) (c : ℕ) (j : Bytes) → search t (c ∷ j) ≡ look t.root (c ∷ j)
unfolding search look
search-eq-look t c j = refl

-- After an insertion under a key that is not empty, whatever the tree was, a search for that key
-- finds the value, and a search for any other key finds what it found before.
pub search-insert :
    {V : Type 0} (t : RadixTree V) (c : ℕ) (key : Bytes) (value : Option V) (j : Bytes)
    → search (insert t (c ∷ key) value) j
      ≡ (if bytes_eq j (c ∷ key) then some value else search t j)
unfolding insert
search-insert t c key value [] = unfold search bytes_eq in refl
search-insert t c key value (d ∷ j) =
    rw search-eq-look (rw search-eq-look (insert_node-Writes t.root (c ∷ key) value (d ∷ j)))

-- A new tree holds no key.
pub search-new_tree : {V : Type 0} (j : Bytes) → search (new_tree {V = V}) j ≡ none
unfolding search
search-new_tree [] = refl
search-new_tree (d ∷ j) = refl

-- The same at a key that a test found not to be empty.
pub search-insert_named :
    {V : Type 0} (t : RadixTree V) (key : Bytes) (value : Option V) (j : Bytes)
    → is_empty key ≡ false
    → search (insert t key value) j ≡ (if bytes_eq j key then some value else search t j)
unfolding is_empty
search-insert_named t [] value j h = cc
search-insert_named t (c ∷ key) value j h = search-insert t c key value j
