-- ===== src/Storage/Radix/Look.antt =====
-- What a search finds below a node, as a function of the keys on the way.
use rkn_checker.Prelude.{
  ℕ, ◌≡◌, refl, Bool, true, false, [], ◌∷◌, ◌++◌, Option, none, some, length, drop, ◌==◌,
  if◌then◌else◌, arith, drop-append,
}
use rkn_checker.Text.{Bytes, bytes_eq}
use rkn_checker.Text.Laws.{eq_after, strip_after, bytes_eq-strip, strip, strip-eq-drop}
use rkn_checker.Storage.Radix.{
  Node, node, Children, nil, cons, node_key, longest_common_prefix, insert_node, search_node,
  head_of, ended, search_children,
}

pub drop-covers :
    (s key r : Bytes)
    → longest_common_prefix s key ≡ s
    → key ≡ s ++ r
    → drop (length (longest_common_prefix s key)) key ≡ r
drop-covers s key r h split = rw h (rw split (drop-append s r))

pub head_ne :
    (d : ℕ) (j : Bytes) (c : ℕ) (key : Bytes)
    → (d == c) ≡ false
    → bytes_eq (d ∷ j) (c ∷ key) ≡ false
unfolding bytes_eq
head_ne d j c key h = rw h

module _ {V : Type 0} where
  -- What a search for a key finds, from a node and from its children.
  unfoldable pub look : Node V → Bytes → Option (Option V)
  look n j = ended (search_node n j)

  pub look_children : Children V → Bytes → Option (Option V)
  look_children cs j = ended (search_children cs j)

  -- Through a child's key to the child.
  abbrev pub look_after : Option Bytes → Node V → Option (Option V)
  look_after none n = none
  look_after (some t) n = look n t

  abbrev pub look_child : Node V → Bytes → Option (Option V)
  look_child child j = look_after (strip (node_key child) j) child

  pub look_children-cons :
      (b : ℕ) (child : Node V) (others : Children V) (j : Bytes)
      → look_children (cons b child others) j
        ≡ (if b == head_of j then look_child child j else look_children others j)
  unfolding look_children look search_node
  look_children-cons b child others j = ground (arith, strip-eq-drop (node_key child) j)

  pub look-node :
      (k : Bytes) (cs : Children V) (e : Bool) (v : Option V) (c : ℕ) (j : Bytes)
      → look (node k cs e v) (c ∷ j) ≡ look_children cs (c ∷ j)
  unfolding look look_children search_node
  look-node k cs e v c j = refl

  pub look_children-nil : (j : Bytes) → look_children nil j ≡ none
  unfolding look_children search_node
  look_children-nil j = refl

  pub look-node_end :
      (k : Bytes) (cs : Children V) (v : Option V) → look (node k cs true v) [] ≡ some v
  unfolding look search_node
  look-node_end k cs v = refl

  pub look-node_inner :
      (k : Bytes) (cs : Children V) (v : Option V) → look (node k cs false v) [] ≡ none
  unfolding look search_node
  look-node_inner k cs v = refl

  -- The key is not looked at below the child itself.
  pub look-node_key :
      (k l : Bytes) (cs : Children V) (e : Bool) (v : Option V) (j : Bytes)
      → look (node k cs e v) j ≡ look (node l cs e v) j
  unfolding look search_node
  look-node_key k l cs true v [] = refl
  look-node_key k l cs false v [] = refl
  look-node_key k l cs e v (c ∷ j) = refl

  pub look_after-key :
      (k l : Bytes) (cs : Children V) (e : Bool) (v : Option V) (o : Option Bytes)
      → look_after o (node k cs e v) ≡ look_after o (node l cs e v)
  look_after-key k l cs e v none = refl
  look_after-key k l cs e v (some j) = look-node_key k l cs e v j

  pub node_key-insert_node :
      (n : Node V) (key : Bytes) (value : Option V)
      → node_key (insert_node n key value).0 ≡ node_key n
  unfolding insert_node
  node_key-insert_node (node k cs e v) [] value = refl
  node_key-insert_node (node k cs e v) (c ∷ key) value = refl

  -- A new leaf holds the rest of the key and nothing else.
  pub leaf_after :
      (k : Bytes) (value : Option V) (o : Option Bytes)
      → look_after o (node k nil true value) ≡ (if eq_after o [] then some value else none)
  unfolding look search_node bytes_eq
  leaf_after k value none = refl
  leaf_after k value (some []) = refl
  leaf_after k value (some (c ∷ t)) = refl

  pub look_child-leaf :
      (key : Bytes) (value : Option V) (j : Bytes)
      → look_child (node key nil true value) j ≡ (if bytes_eq j key then some value else none)
  look_child-leaf key value j = rw bytes_eq-strip (leaf_after key value (strip key j))

  module _ (cs : Children V) (e : Bool) (v value : Option V) where
    -- The three outcomes of `place`, below the common part of the keys.
    pub inside_after :
        (k : Bytes) (c : ℕ) (x : Bytes) (o : Option Bytes)
        → look_after o (node k (cons c (node (c ∷ x) cs e v) nil) true value) ≡ (
            if eq_after o []
            then some value
            else look_after (strip_after o (c ∷ x)) (node (c ∷ x) cs e v))
    inside_after k c x none = refl
    inside_after k c x (some []) = unfold bytes_eq strip in look-node_end k _ value
    inside_after k c x (some (d ∷ t)) =
        unfold bytes_eq strip in
        ground (
          arith,
          look-node k (cons c (node (c ∷ x) cs e v) nil) true value d t,
          look_children-cons c (node (c ∷ x) cs e v) nil (d ∷ t),
          look_children-nil (d ∷ t),
        )

    pub forks_after :
        (k : Bytes) (c : ℕ) (x : Bytes) (d : ℕ) (y : Bytes) (o : Option Bytes)
        → (c == d) ≡ false
        → look_after o (
            node k
              (cons c (node (c ∷ x) cs e v) (cons d (node (d ∷ y) nil true value) nil))
              false
              none)
          ≡ (if eq_after o (d ∷ y)
              then some value
              else look_after (strip_after o (c ∷ x)) (node (c ∷ x) cs e v))
    forks_after k c x d y none ne = refl
    forks_after k c x d y (some []) ne = unfold bytes_eq strip in look-node_inner k _ none
    forks_after k c x d y (some (i ∷ t)) ne =
        unfold bytes_eq strip in
        ground (
          arith,
          look-node k (cons c (node (c ∷ x) cs e v) (cons d (node (d ∷ y) nil true value) nil))
              false none i t,
          look_children-cons c (node (c ∷ x) cs e v) (cons d (node (d ∷ y) nil true value) nil)
              (i ∷ t),
          look_children-cons d (node (d ∷ y) nil true value) nil (i ∷ t),
          look_child-leaf (d ∷ y) value (i ∷ t),
          look_children-nil (i ∷ t),
        )

  pub look-node_root :
      (k : Bytes) (cs ds : Children V) (e : Bool) (v : Option V)
      → look (node k cs e v) [] ≡ look (node k ds e v) []
  unfolding look search_node
  look-node_root k cs ds true v = refl
  look-node_root k cs ds false v = refl

  pub look_children-leaf :
      (c : ℕ) (key : Bytes) (value : Option V) (d : ℕ) (j : Bytes)
      → look_children (cons c (node (c ∷ key) nil true value) nil) (d ∷ j)
        ≡ (if bytes_eq (d ∷ j) (c ∷ key) then some value else none)
  look_children-leaf c key value d j = ground (
    arith,
    look_children-cons c (node (c ∷ key) nil true value) nil (d ∷ j),
    look_child-leaf (c ∷ key) value (d ∷ j),
    look_children-nil (d ∷ j),
    head_ne d j c key,
  )
