-- ===== src/Storage/Radix.antt =====
-- internal/infrastructure/storage/radix_tree.go. A node's `children` map is a list of pairs; a
-- node is reached by one pointer only, so an update in place is a new tree. `interface{}` values
-- are options, with `none` for nil.
pub mod Cut
pub mod Look
pub mod Lookup
pub mod Suffix
pub mod Size
use rkn_checker.Prelude.{
  ℕ, zero, suc, ◌+◌, Bool, true, false, List, [], ◌∷◌, Option, none, some, length, drop, take, ◌==◌,
  leb, if◌then◌else◌,
}
use rkn_checker.Text.{Bytes, bytes_eq, has_prefix, split, join}

mutual
  pub data Node (V : Type 0) : Type 0 where
    node : (key : Bytes) (children : Children V) (is_end : Bool) (value : Option V) → Node V

  pub data Children (V : Type 0) : Type 0 where
    nil : Children V
    cons : (first : ℕ) (child : Node V) (others : Children V) → Children V

abbrev pub node_key : {V : Type 0} → Node V → Bytes
node_key (node key children is_end value) = key

abbrev pub node_children : {V : Type 0} → Node V → Children V
node_children (node key children is_end value) = children

abbrev pub node_is_end : {V : Type 0} → Node V → Bool
node_is_end (node key children is_end value) = is_end

abbrev pub node_value : {V : Type 0} → Node V → Option V
node_value (node key children is_end value) = value

-- newRadixNode
abbrev pub new_node : {V : Type 0} → Bytes → Node V
new_node key = node key nil false none

-- s[0], at a string that is not empty
abbrev pub head_of : Bytes → ℕ
head_of [] = 0
head_of (c ∷ s) = c

-- The count of the loop in longestCommonPrefix.
unfoldable pub common_length : Bytes → Bytes → ℕ
common_length [] t = 0
common_length (a ∷ s) [] = 0
common_length (a ∷ s) (b ∷ t) = if a == b then suc (common_length s t) else 0

unfoldable pub longest_common_prefix : Bytes → Bytes → Bytes
unfolding common_length
longest_common_prefix s t = take (common_length s t) s

module _ {V : Type 0} where
  -- What insert does at an existing child, and by how much `size` grows; `deeper` is the call of
  -- insert on the child with the rest of the key.
  unfoldable pub place : Node V → Bytes → Option V → Node V × ℕ → Node V × ℕ
  unfolding longest_common_prefix bytes_eq
  place child key value deeper =
      let common = longest_common_prefix (node_key child) key in
      let rest = drop (length common) (node_key child) in
      let old = node rest (node_children child) (node_is_end child) (node_value child) in
      let fresh = node (drop (length common) key) nil true value in
      if bytes_eq common (node_key child)
      then deeper
      else if bytes_eq common key
      then (node common (cons (head_of rest) old nil) true value, 1)
      else (
        node common (cons (head_of rest) old (cons (head_of (node_key fresh)) fresh nil)) false
            none,
        1,
      )

  unfoldable mutual
    -- insert(node, key, value), with the growth of `size`
    pub insert_node : Node V → Bytes → Option V → Node V × ℕ
    insert_node (node k cs is_end v) [] value = (node k cs true value, if is_end then 0 else 1)
    insert_node (node k cs is_end v) (c ∷ key) value =
        let (cs', grown) = insert_children cs (c ∷ key) value in (node k cs' is_end v, grown)

    -- the entry of `children` under the key's first byte, or a new one
    pub insert_children : Children V → Bytes → Option V → Children V × ℕ
    insert_children nil key value = (cons (head_of key) (node key nil true value) nil, 1)
    insert_children (cons b child others) key value =
        let deeper =
          insert_node child (drop (length (longest_common_prefix (node_key child) key)) key)
            value in
        let (child', grown) = place child key value deeper in
        let (others', grown_others) = insert_children others key value in
        if b == head_of key
        then (cons b child' others, grown)
        else (cons b child others', grown_others)

  unfoldable mutual
    -- search(node, key)
    pub search_node : Node V → Bytes → Option (Node V)
    search_node (node k cs is_end v) [] = some (node k cs is_end v)
    search_node (node k cs is_end v) (c ∷ key) = search_children cs (c ∷ key)

    pub search_children : Children V → Bytes → Option (Node V)
    search_children nil key = none
    search_children (cons b child others) key =
        let deeper = search_node child (drop (length (node_key child)) key) in
        let other = search_children others key in
        if b == head_of key
        then (if has_prefix key (node_key child) then deeper else none)
        else other

  unfoldable mutual
    -- hasPrefix(node, prefix)
    pub has_prefix_node : Node V → Bytes → Bool
    has_prefix_node (node k cs is_end v) [] = true
    has_prefix_node (node k cs is_end v) (c ∷ s) = has_prefix_children cs (c ∷ s)

    pub has_prefix_children : Children V → Bytes → Bool
    has_prefix_children nil s = false
    has_prefix_children (cons b child others) s =
        let deeper = has_prefix_node child (drop (length (node_key child)) s) in
        let other = has_prefix_children others s in
        if b == head_of s
        then (if leb (length s) (length (node_key child))
            then has_prefix (node_key child) s
            else if has_prefix s (node_key child)
            then deeper
            else false)
        else other

pub record RadixTree (V : Type 0) : Type 0 where
  pub root : Node V
  pub size : ℕ

-- The value at the node that search returns, if a key ends there.
abbrev pub ended : {V : Type 0} → Option (Node V) → Option (Option V)
ended none = none
ended (some (node k cs true v)) = some v
ended (some (node k cs false v)) = none

module _ {V : Type 0} where
  -- NewRadixTree, and the tree that Clear leaves
  abbrev pub new_tree : RadixTree V
  new_tree = record { root = new_node []; size = 0 }

  -- Insert
  unfoldable pub insert : RadixTree V → Bytes → Option V → RadixTree V
  insert t [] value = t
  insert t (c ∷ key) value =
      let (root', grown) = insert_node t.root (c ∷ key) value in
      record { root = root'; size = t.size + grown }

  -- Search; the Boolean is whether the result is there
  unfoldable pub search : RadixTree V → Bytes → Option (Option V)
  unfolding search_node
  search t [] = none
  search t (c ∷ key) = ended (search_node t.root (c ∷ key))

  -- HasPrefix
  unfoldable pub tree_has_prefix : RadixTree V → Bytes → Bool
  unfolding has_prefix_node
  tree_has_prefix t [] = true
  tree_has_prefix t (c ∷ s) = has_prefix_node t.root (c ∷ s)

  -- The loop of MatchesWildcard, over the tails parts[i:] from i on.
  unfoldable pub matches_from : RadixTree V → List Bytes → Option (Option V)
  matches_from t [] = none
  matches_from t (part ∷ parts) =
      let later = matches_from t parts in
      elim (search t (join b'.' (part ∷ parts))) [ some v ↦ some v | none ↦ later ]

  -- MatchesWildcard
  unfoldable pub matches_wildcard : RadixTree V → Bytes → Option (Option V)
  unfolding matches_from
  matches_wildcard t domain = matches_from t (drop 1 (split b'.' domain))

  -- Clear
  unfoldable pub clear : RadixTree V → RadixTree V
  clear t = new_tree
