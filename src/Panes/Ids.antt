-- ===== src/Panes/Ids.antt =====
-- src/app/panes.rs: which Tabs each operation on the tree leaves in it.
use ax_ssh.Prelude.{
  ℕ, suc, ◌+◌, ◌<◌, true, ◌≡◌, refl, inl, inr, Option, none, some, [], ◌∷◌, ◌==◌, length,
  length-append, arith, Bool-cases, if◌then◌else◌,
}
use ax_ssh.Prelude.Counts.{one_if, count, count-append}
use ax_ssh.Panes.{
  PaneDirection, left, right, up, down, SplitAxis, PaneNode, leaf, split, node_ids, first_tab_id,
  replace_leaf_with_split, split_leaf, remove_leaf, rejoin,
}

module _ {F : Type 0} where
  split_leaf-ids :
      (a : ℕ) (ratio : F) (direction : PaneDirection) (id new_id : ℕ)
      → count a (node_ids (split_leaf ratio direction id new_id))
        ≡ count a (id ∷ []) + one_if (new_id == a)
  unfolding node_ids count
  split_leaf-ids a ratio left id new_id = omega arith
  split_leaf-ids a ratio right id new_id = omega arith
  split_leaf-ids a ratio up id new_id = omega arith
  split_leaf-ids a ratio down id new_id = omega arith

  -- A split that finds its leaf adds the new Tab and keeps the others.
  pub replace-count :
      (a : ℕ) (ratio : F) (source : ℕ) (direction : PaneDirection) (new_id : ℕ) (n : PaneNode F)
      → (replace_leaf_with_split ratio source direction new_id n).1 ≡ true
      → count a (node_ids (replace_leaf_with_split ratio source direction new_id n).0)
        ≡ count a (node_ids n) + one_if (new_id == a)
  unfolding replace_leaf_with_split node_ids
  replace-count a ratio source direction new_id (leaf id) h =
      ground (arith, split_leaf-ids a ratio direction id new_id)
  replace-count a ratio source direction new_id (split axis r x y) h =
      elim (Bool-cases (replace_leaf_with_split ratio source direction new_id x).1) [
        | inl in_first ↦ rw (in_first) (
            omega (
              arith,
              count-append a (node_ids (replace_leaf_with_split ratio source direction new_id x).0)
                  (node_ids y),
              count-append a (node_ids x) (node_ids y),
              replace-count a ratio source direction new_id x in_first,
            ))
        | inr not_first ↦ rw (not_first) (
            omega (
              arith,
              count-append a (node_ids x)
                  (node_ids (replace_leaf_with_split ratio source direction new_id y).0),
              count-append a (node_ids x) (node_ids y),
              replace-count a ratio source direction new_id y (ground arith),
            ))
      ]

  -- A tree that holds the Tab has the leaf.
  pub replace_found :
      (ratio : F) (source : ℕ) (direction : PaneDirection) (new_id : ℕ) (n : PaneNode F)
      → 0 < count source (node_ids n)
      → (replace_leaf_with_split ratio source direction new_id n).1 ≡ true
  unfolding replace_leaf_with_split node_ids count
  replace_found ratio source direction new_id (leaf id) h = ground arith
  replace_found ratio source direction new_id (split axis r x y) h = ground (
    arith,
    count-append source (node_ids x) (node_ids y),
    replace_found ratio source direction new_id x,
    replace_found ratio source direction new_id y,
  )

  -- The count of a list that may be there.
  abbrev pub count_left : ℕ → Option (PaneNode F) → ℕ
  count_left a none = 0
  count_left a (some n) = count a (node_ids n)

  rejoin-count :
      (a : ℕ) (axis : SplitAxis) (r : F) (x y : Option (PaneNode F))
      → count_left a (rejoin axis r x y) ≡ count_left a x + count_left a y
  unfolding node_ids
  rejoin-count a axis r none y = omega arith
  rejoin-count a axis r (some x) none = omega arith
  rejoin-count a axis r (some x) (some y) = count-append a (node_ids x) (node_ids y)

  -- A removal takes every leaf of the Tab away, and no other.
  pub remove_leaf-count :
      (a tab_id : ℕ) (n : PaneNode F)
      → count_left a (remove_leaf tab_id n) ≡ (if tab_id == a then 0 else count a (node_ids n))
  unfolding remove_leaf node_ids count
  remove_leaf-count a tab_id (leaf id) = ground arith
  remove_leaf-count a tab_id (split axis r x y) = ground (
    arith,
    rejoin-count a axis r (remove_leaf tab_id x) (remove_leaf tab_id y),
    remove_leaf-count a tab_id x,
    remove_leaf-count a tab_id y,
    count-append a (node_ids x) (node_ids y),
  )

  -- The number of leaves.
  abbrev pub size_left : Option (PaneNode F) → ℕ
  size_left none = 0
  size_left (some n) = length (node_ids n)

  rejoin-size :
      (axis : SplitAxis) (r : F) (x y : Option (PaneNode F))
      → size_left (rejoin axis r x y) ≡ size_left x + size_left y
  unfolding node_ids
  rejoin-size axis r none y = omega arith
  rejoin-size axis r (some x) none = omega arith
  rejoin-size axis r (some x) (some y) = length-append (node_ids x) (node_ids y)

  pub remove_leaf-size :
      (tab_id : ℕ) (n : PaneNode F)
      → size_left (remove_leaf tab_id n) + count tab_id (node_ids n) ≡ length (node_ids n)
  unfolding remove_leaf node_ids count
  remove_leaf-size tab_id (leaf id) = ground arith
  remove_leaf-size tab_id (split axis r x y) = omega (
    arith,
    rejoin-size axis r (remove_leaf tab_id x) (remove_leaf tab_id y),
    remove_leaf-size tab_id x,
    remove_leaf-size tab_id y,
    count-append tab_id (node_ids x) (node_ids y),
    length-append (node_ids x) (node_ids y),
  )

  pub first_tab_id-count : (n : PaneNode F) → 0 < count (first_tab_id n) (node_ids n)
  unfolding first_tab_id node_ids count
  first_tab_id-count (leaf id) = ground arith
  first_tab_id-count (split axis r x y) =
      omega (arith, first_tab_id-count x, count-append (first_tab_id x) (node_ids x) (node_ids y))

  split_leaf-size :
      (ratio : F) (direction : PaneDirection) (id new_id : ℕ)
      → length (node_ids (split_leaf ratio direction id new_id)) ≡ 2
  unfolding node_ids
  split_leaf-size ratio left id new_id = refl
  split_leaf-size ratio right id new_id = refl
  split_leaf-size ratio up id new_id = refl
  split_leaf-size ratio down id new_id = refl

  pub replace-size :
      (ratio : F) (source : ℕ) (direction : PaneDirection) (new_id : ℕ) (n : PaneNode F)
      → (replace_leaf_with_split ratio source direction new_id n).1 ≡ true
      → length (node_ids (replace_leaf_with_split ratio source direction new_id n).0)
        ≡ suc (length (node_ids n))
  unfolding replace_leaf_with_split node_ids
  replace-size ratio source direction new_id (leaf id) h =
      ground (arith, split_leaf-size ratio direction id new_id)
  replace-size ratio source direction new_id (split axis r x y) h =
      elim (Bool-cases (replace_leaf_with_split ratio source direction new_id x).1) [
        | inl in_first ↦ rw (in_first) (
            omega (
              arith,
              length-append (node_ids (replace_leaf_with_split ratio source direction new_id x).0)
                  (node_ids y),
              length-append (node_ids x) (node_ids y),
              replace-size ratio source direction new_id x in_first,
            ))
        | inr not_first ↦ rw (not_first) (
            omega (
              arith,
              length-append (node_ids x)
                  (node_ids (replace_leaf_with_split ratio source direction new_id y).0),
              length-append (node_ids x) (node_ids y),
              replace-size ratio source direction new_id y (ground arith),
            ))
      ]

  pub node_ids-size : (n : PaneNode F) → 0 < length (node_ids n)
  unfolding node_ids
  node_ids-size (leaf id) = omega arith
  node_ids-size (split axis r x y) =
      omega (arith, node_ids-size x, length-append (node_ids x) (node_ids y))
