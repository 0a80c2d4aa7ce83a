-- ===== src/Panes/Restore.antt =====
-- src/app/panes.rs: the saved form of a tree of panes, and its return.
use ax_ssh.Prelude.{ℕ, ◌&&◌, leb, Option, none, some, if◌then◌else◌}
use ax_ssh.Prelude.Keyed.{string_eq}
use ax_ssh.Panes.{
  SplitAxis, columns, rows, PaneNode, leaf, split, PaneTree, contains_tab, pane_count,
  max_terminal_panes,
}
use ax_ssh.Panes.Ratios.{Floats, in_range}
use ax_ssh.Workspace
use ax_ssh.Workspace.{PaneNodeSnapshot}
use Prim.Native.String.{String}

abbrev pub axis_name : SplitAxis → String
axis_name columns = "columns"
axis_name rows = "rows"

-- The axis of a name.
abbrev pub named_axis : String → Option SplitAxis
named_axis name =
    if string_eq.beq name "columns"
    then some columns
    else if string_eq.beq name "rows"
    then some rows
    else none

module _ (fl : Floats) where
  unfoldable pub snapshot_node : PaneNode fl.F → PaneNodeSnapshot
  snapshot_node (leaf id) = Workspace.leaf id
  snapshot_node (split axis ratio first second) =
      Workspace.split (axis_name axis) (fl.to_milli ratio) (snapshot_node first)
        (snapshot_node second)

  -- `PaneTree::snapshot`.
  unfoldable pub snapshot : PaneTree fl.F → PaneNodeSnapshot
  unfolding snapshot_node
  snapshot t = snapshot_node t.root

  -- The two sides, when both are restored.
  abbrev pub restored_split :
      SplitAxis → fl.F → Option (PaneNode fl.F) → Option (PaneNode fl.F) → Option (PaneNode fl.F)
  restored_split axis ratio (some first) (some second) = some (split axis ratio first second)
  restored_split axis ratio (some first) none = none
  restored_split axis ratio none second = none

  unfoldable pub restore_node : PaneNodeSnapshot → Option (PaneNode fl.F)
  restore_node (Workspace.leaf id) = some (leaf id)
  restore_node (Workspace.split name ratio_milli first second) = elim (named_axis name) [
    | none ↦ none
    | some axis ↦
        (if in_range fl (fl.of_milli ratio_milli)
          then restored_split axis (fl.of_milli ratio_milli) (restore_node first)
              (restore_node second)
          else none)
  ]

  -- The tree, if it holds both Tabs and has room.
  abbrev pub if_complete : PaneTree fl.F → Option (PaneTree fl.F)
  if_complete t =
      if contains_tab t.workspace_tab_id t
        && contains_tab t.focused_tab_id t
        && leb (pane_count t) max_terminal_panes
      then some t
      else none

  unfoldable pub from_snapshot : ℕ → PaneNodeSnapshot → ℕ → Option (PaneTree fl.F)
  unfolding restore_node contains_tab pane_count
  from_snapshot workspace_tab_id saved focused_tab_id = elim (restore_node saved) [
    | none ↦ none
    | some root ↦ if_complete (record {
      workspace_tab_id = workspace_tab_id;
      root = root;
      focused_tab_id = focused_tab_id;
    })
  ]
