-- ===== src/Panes.antt =====
-- src/app/panes.rs: the panes of a window, a tree of splits whose leaves are terminal Tabs. A number
-- of floating point is a parameter.
pub mod Ratios
pub mod Layout
pub mod Places
pub mod Ids
pub mod Histories
pub mod Kept
pub mod Restore
pub mod Saved
use ax_ssh.Prelude.{
  ℕ, Bool, true, false, not, ◌&&◌, ◌||◌, Option, none, some, List, [], ◌∷◌, ◌++◌, ◌==◌, leb, length,
  if◌then◌else◌,
}
use ax_ssh.Prelude.Keyed.{nat_eq, contains}
use ax_ssh.Panes.Ratios.{Floats, default_ratio}

abbrev pub max_terminal_panes : ℕ
max_terminal_panes = 8

pub data PaneDirection : Type 0 where
  left right up down : PaneDirection

pub data SplitAxis : Type 0 where
  columns rows : SplitAxis

abbrev pub is_before : PaneDirection → Bool
is_before left = true
is_before right = false
is_before up = true
is_before down = false

abbrev pub split_axis : PaneDirection → SplitAxis
split_axis left = columns
split_axis right = columns
split_axis up = rows
split_axis down = rows

pub data PaneNode (F : Type 0) : Type 0 where
  leaf : ℕ → PaneNode F
  split : SplitAxis → F → PaneNode F → PaneNode F → PaneNode F

pub record PaneTree (F : Type 0) : Type 0 where
  pub workspace_tab_id : ℕ
  pub root : PaneNode F
  pub focused_tab_id : ℕ

module _ {F : Type 0} where
  unfoldable pub new_tree : ℕ → PaneTree F
  new_tree tab_id = record {
    workspace_tab_id = tab_id;
    root = leaf tab_id;
    focused_tab_id = tab_id;
  }

  -- `collect_tab_ids`.
  unfoldable pub node_ids : PaneNode F → List ℕ
  node_ids (leaf id) = id ∷ []
  node_ids (split axis ratio first second) = node_ids first ++ node_ids second

  unfoldable pub tab_ids : PaneTree F → List ℕ
  unfolding node_ids
  tab_ids t = node_ids t.root

  unfoldable pub contains_tab : ℕ → PaneTree F → Bool
  unfolding tab_ids contains
  contains_tab id t = contains id (tab_ids t)

  unfoldable pub pane_count : PaneTree F → ℕ
  unfolding tab_ids
  pane_count t = length (tab_ids t)

  unfoldable pub first_tab_id : PaneNode F → ℕ
  first_tab_id (leaf id) = id
  first_tab_id (split axis ratio first second) = first_tab_id first

  unfoldable pub set_focused : ℕ → PaneTree F → PaneTree F × Bool
  unfolding contains_tab
  set_focused id t =
      if not (contains_tab id t) then (t, false) else (record t { focused_tab_id = id }, true)

  -- The two leaves that take the place of a leaf.
  abbrev pub split_leaf : F → PaneDirection → ℕ → ℕ → PaneNode F
  split_leaf ratio direction id new_id =
      if is_before direction
      then split (split_axis direction) ratio (leaf new_id) (leaf id)
      else split (split_axis direction) ratio (leaf id) (leaf new_id)

  -- The node after the call, and whether the leaf was found.
  unfoldable pub replace_leaf_with_split :
      F → ℕ → PaneDirection → ℕ → PaneNode F → PaneNode F × Bool
  replace_leaf_with_split ratio source direction new_id (leaf id) =
      if id == source then (split_leaf ratio direction id new_id, true) else (leaf id, false)
  replace_leaf_with_split ratio source direction new_id (split axis r first second) =
      let in_first = replace_leaf_with_split ratio source direction new_id first in
      let in_second = replace_leaf_with_split ratio source direction new_id second in
      if in_first.1
      then (split axis r in_first.0 second, true)
      else (split axis r first in_second.0, in_second.1)

  -- What is left of the two sides of a split.
  abbrev pub rejoin :
      SplitAxis → F → Option (PaneNode F) → Option (PaneNode F) → Option (PaneNode F)
  rejoin axis r (some first) (some second) = some (split axis r first second)
  rejoin axis r (some first) none = some first
  rejoin axis r none second = second

  unfoldable pub remove_leaf : ℕ → PaneNode F → Option (PaneNode F)
  remove_leaf tab_id (leaf id) = if id == tab_id then none else some (leaf id)
  remove_leaf tab_id (split axis r first second) =
      rejoin axis r (remove_leaf tab_id first) (remove_leaf tab_id second)

  abbrev pub refocus : ℕ → PaneTree F → PaneNode F → PaneTree F
  refocus tab_id t root = record t {
    root = root;
    focused_tab_id = if t.focused_tab_id == tab_id then first_tab_id root else t.focused_tab_id;
  }

  -- The tree after the call, and the focus that it returns, or `none` for the last pane.
  unfoldable pub remove_tab : ℕ → PaneTree F → PaneTree F × Option ℕ
  unfolding contains_tab remove_leaf first_tab_id
  remove_tab tab_id t =
      if not (contains_tab tab_id t)
      then (t, some t.focused_tab_id)
      else (elim (remove_leaf tab_id t.root) [
        | none ↦ (t, none)
        | some root ↦ (refocus tab_id t root, some (refocus tab_id t root).focused_tab_id)
      ])

module _ (fl : Floats) where
  unfoldable pub split_focused : PaneDirection → ℕ → PaneTree fl.F → PaneTree fl.F × Bool
  unfolding pane_count contains_tab replace_leaf_with_split
  split_focused direction new_id t =
      let replaced =
        replace_leaf_with_split (default_ratio fl) t.focused_tab_id direction new_id t.root in
      if leb max_terminal_panes (pane_count t) || contains_tab new_id t
      then (t, false)
      else if not replaced.1
      then (t, false)
      else (record t { root = replaced.0; focused_tab_id = new_id }, true)
