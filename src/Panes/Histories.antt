-- ===== src/Panes/Histories.antt =====
-- src/app/panes.rs: every sequence of operations keeps a tree of panes well formed.
use ax_ssh.Prelude.{
  ℕ, suc, ◌≤◌, ◌<◌, true, ◌≡◌, inl, inr, Option, none, some, List, [], ◌∷◌, length, Bool-cases,
  Option-cases, ◌==◌,
}
use ax_ssh.Prelude.Int.{ℤ}
use ax_ssh.Prelude.Counts.{count, IsDistinct}
use ax_ssh.Panes.{
  PaneDirection, left, right, up, down, SplitAxis, PaneNode, leaf, split, PaneTree, node_ids,
  set_focused, replace_leaf_with_split, remove_leaf, remove_tab, rejoin, split_focused,
  max_terminal_panes, split_leaf,
}
use ax_ssh.Panes.Ratios.{Floats, in_range}
use ax_ssh.Panes.Layout.{resize_split, resize_node, focus_direction}

module _ (fl : Floats) where
  -- Every ratio is between a tenth and nine tenths.
  abbrev pub RatiosIn : PaneNode fl.F → Type 0
  RatiosIn (leaf id) = Unit
  RatiosIn (split axis ratio x y) = (in_range fl ratio ≡ true) × RatiosIn x × RatiosIn y

  pub record IsTree (t : PaneTree fl.F) : Type 0 where
    pub distinct : IsDistinct (node_ids t.root)
    pub few : length (node_ids t.root) ≤ max_terminal_panes
    pub focused : 0 < count t.focused_tab_id (node_ids t.root)
    pub ratios : RatiosIn t.root

  pub data PaneEvent : Type 0 where
    splits_pane : PaneDirection → ℕ → PaneEvent
    closes_tab focuses_tab : ℕ → PaneEvent
    moves_focus : PaneDirection → PaneEvent
    drags_divider : ℤ → fl.F → PaneEvent

  unfoldable pub pane_step : PaneEvent → PaneTree fl.F → PaneTree fl.F
  unfolding split_focused remove_tab set_focused focus_direction resize_split
  pane_step (splits_pane direction id) t = (split_focused fl direction id t).0
  pane_step (closes_tab id) t = (remove_tab id t).0
  pane_step (focuses_tab id) t = (set_focused id t).0
  pane_step (moves_focus direction) t = (focus_direction fl direction t).0
  pane_step (drags_divider id ratio) t = (resize_split fl id ratio t).0

  unfoldable pub pane_run : List PaneEvent → PaneTree fl.F → PaneTree fl.F
  unfolding pane_step
  pane_run [] t = t
  pane_run (e ∷ es) t = pane_run es (pane_step e t)

  split_leaf-RatiosIn :
      (ratio : fl.F) (direction : PaneDirection) (id new_id : ℕ)
      → in_range fl ratio ≡ true
      → RatiosIn (split_leaf ratio direction id new_id)
  split_leaf-RatiosIn ratio left id new_id h = (h, tt, tt)
  split_leaf-RatiosIn ratio right id new_id h = (h, tt, tt)
  split_leaf-RatiosIn ratio up id new_id h = (h, tt, tt)
  split_leaf-RatiosIn ratio down id new_id h = (h, tt, tt)

  pub replace-RatiosIn :
      (ratio : fl.F) (source : ℕ) (direction : PaneDirection) (new_id : ℕ) (n : PaneNode fl.F)
      → in_range fl ratio ≡ true
      → RatiosIn n
      → RatiosIn (replace_leaf_with_split ratio source direction new_id n).0
  unfolding replace_leaf_with_split
  replace-RatiosIn ratio source direction new_id (leaf id) h v = elim (Bool-cases (id == source)) [
    | inl same ↦ rw (same) (split_leaf-RatiosIn ratio direction id new_id h)
    | inr other ↦ rw (other) tt
  ]
  replace-RatiosIn ratio source direction new_id (split axis r x y) h v =
      elim (Bool-cases (replace_leaf_with_split ratio source direction new_id x).1) [
        | inl in_first ↦
            rw (in_first) (v.0, replace-RatiosIn ratio source direction new_id x h v.1, v.2)
        | inr not_first ↦
            rw (not_first) (v.0, v.1, replace-RatiosIn ratio source direction new_id y h v.2)
      ]

  abbrev pub LeftIn : Option (PaneNode fl.F) → Type 0
  LeftIn none = Unit
  LeftIn (some n) = RatiosIn n

  rejoin-LeftIn :
      (axis : SplitAxis) (r : fl.F) (x y : Option (PaneNode fl.F))
      → in_range fl r ≡ true
      → LeftIn x
      → LeftIn y
      → LeftIn (rejoin axis r x y)
  rejoin-LeftIn axis r none y h v w = w
  rejoin-LeftIn axis r (some x) none h v w = v
  rejoin-LeftIn axis r (some x) (some y) h v w = (h, v, w)

  pub remove_leaf-LeftIn : (id : ℕ) (n : PaneNode fl.F) → RatiosIn n → LeftIn (remove_leaf id n)
  unfolding remove_leaf
  remove_leaf-LeftIn id (leaf i) v = elim (Bool-cases (i == id)) [
    | inl same ↦ rw (same) tt
    | inr other ↦ rw (other) tt
  ]
  remove_leaf-LeftIn id (split axis r x y) v =
      rejoin-LeftIn axis r (remove_leaf id x) (remove_leaf id y) v.0 (remove_leaf-LeftIn id x v.1)
        (remove_leaf-LeftIn id y v.2)

  pub resize_node-RatiosIn :
      (target : ℕ) (candidate : fl.F) (n : PaneNode fl.F) (k : ℕ)
      → in_range fl candidate ≡ true
      → RatiosIn n
      → RatiosIn (resize_node fl target candidate n k).0
  unfolding resize_node
  resize_node-RatiosIn target candidate (leaf id) k h v = tt
  resize_node-RatiosIn target candidate (split axis r x y) k h v =
      let in_x = resize_node-RatiosIn target candidate x (suc k) h v.1 in
      let in_y =
        resize_node-RatiosIn target candidate y (resize_node fl target candidate x (suc k)).1 h
          v.2 in
      elim (Bool-cases (k == target)) [
        | inl here ↦ rw (here) (h, v.1, v.2)
        | inr other ↦ elim (Option-cases (resize_node fl target candidate x (suc k)).2) [
          | inl deeper ↦ rw (other, deeper) (v.0, in_x, in_y)
          | inr (b, found) ↦ rw (other, found) (v.0, in_x, v.2)
        ]
      ]
