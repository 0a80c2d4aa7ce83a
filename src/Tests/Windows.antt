-- ===== src/Tests/Windows.antt =====
-- src/app/panes.rs and src/config/workspace.rs: a window with three panes, its saved form and its
-- return.
use ax_ssh.Prelude.{
  ℕ, ◌+◌, ◌-◌, ◌*◌, ◌/◌, ◌≤◌, min, max, true, false, ◌≡◌, refl, none, some, List, [], ◌∷◌, ltb, leb,
  length, arith, suc,
}
use ax_ssh.Prelude.Keyed.{nat_eq, contains, insert}
use ax_ssh.Prelude.Results.{ok, err}
use ax_ssh.Panes.{
  PaneTree, left, right, down, new_tree, tab_ids, node_ids, contains_tab, pane_count,
}
use ax_ssh.Panes.Ratios.{Floats, FloatLaws}
use ax_ssh.Panes.Layout.{layout}
use ax_ssh.Panes.Places.{layout_lem, shown_ids, divider_ids, numbers}
use ax_ssh.Panes.Histories.{IsTree, PaneEvent, splits_pane, moves_focus, drags_divider, pane_run}
use ax_ssh.Prelude.Int.{pos}
use ax_ssh.Panes.Kept.{pane_run-IsTree}
use ax_ssh.Panes.Restore.{snapshot, from_snapshot, snapshot_node}
use ax_ssh.Panes.Saved.{from_snapshot-snapshot, window_validate-from_snapshot, rounded}
use ax_ssh.Workspace
use ax_ssh.Workspace.{
  WorkspaceWindowSnapshot, WorkspaceTabSnapshot, WorkspaceSnapshot, PaneNodeSnapshot, pane_validate,
  window_validate, snapshot_validate,
}
use ax_ssh.Workspace.Panes.{IsPane, snapshot_ids, pane_validate_iff}
use ax_ssh.Workspace.Valid.{IsSnapshot, snapshot_validate_iff}

-- Thousandths, as numbers.
abbrev thousandths : Floats
thousandths = record {
  F = ℕ;
  num = λ a b. 1000 * a / b;
  add = λ a b. a + b;
  sub = λ a b. a - b;
  mul = λ a b. a * b / 1000;
  div = λ a b. a * 1000 / b;
  maximum = λ a b. max a b;
  minimum = λ a b. min a b;
  absolute = λ a. a;
  lt = λ a b. ltb a b;
  le = λ a b. leb a b;
  total_le = λ a b. leb a b;
  is_finite = λ a. true;
  to_milli = λ a. a;
  of_milli = λ a. a;
}

laws : FloatLaws thousandths
laws = record {
  default_in = refl;
  min_in = refl;
  max_in = refl;
  between = λ r h from to. ground arith;
  to_milli_in = λ r h. ground arith;
  of_milli_in = λ m h k. ground arith;
  to_of = λ m h k. refl;
}

abbrev events : List (PaneEvent thousandths)
events =
    splits_pane right 2 ∷ splits_pane down 3 ∷ drags_divider (pos 0) 650 ∷ moves_focus left ∷ []

abbrev three_panes : PaneTree ℕ
three_panes = pane_run thousandths events (new_tree 1)

abbrev saved_panes : PaneNodeSnapshot
saved_panes =
    Workspace.split "columns" 650 (Workspace.leaf 1)
      (Workspace.split "rows" 500 (Workspace.leaf 2) (Workspace.leaf 3))

saves-three_panes : snapshot thousandths three_panes ≡ saved_panes
unfolding pane_run snapshot new_tree
saves-three_panes = refl

pane_run-IsTree_example : IsTree thousandths (pane_run thousandths events (new_tree 1))
pane_run-IsTree_example = pane_run-IsTree thousandths laws events 1

layout_lem_example :
    (shown_ids thousandths (layout thousandths three_panes).0 ≡ tab_ids three_panes)
    × ((n : ℕ) × (suc n ≡ length (tab_ids three_panes))
        × (divider_ids thousandths (layout thousandths three_panes).1 ≡ numbers thousandths 0 n))
layout_lem_example = layout_lem thousandths three_panes

home-three_panes : contains_tab three_panes.workspace_tab_id three_panes ≡ true
unfolding contains_tab pane_run new_tree
home-three_panes = refl

from_snapshot-snapshot_example :
    (pane_validate (tab_ids three_panes) 0 (snapshot thousandths three_panes) []
      ≡ ok (pane_count three_panes, tab_ids three_panes))
    × (from_snapshot thousandths three_panes.workspace_tab_id
          (snapshot thousandths three_panes)
          three_panes.focused_tab_id
        ≡ some (record three_panes { root = rounded thousandths laws three_panes.root }))
    × (node_ids (rounded thousandths laws three_panes.root) ≡ node_ids three_panes.root)
    × (snapshot_node thousandths (rounded thousandths laws three_panes.root)
        ≡ snapshot thousandths three_panes)
from_snapshot-snapshot_example =
    from_snapshot-snapshot thousandths laws (tab_ids three_panes) three_panes
      (pane_run-IsTree thousandths laws events 1) home-three_panes (λ a h. h)

abbrev shown_window : WorkspaceWindowSnapshot
shown_window = record {
  id = 0;
  tab_ids = 1 ∷ 2 ∷ 3 ∷ [];
  active_tab_id = some 1;
  focused_tab_id = some 2;
  panes = saved_panes ∷ [];
  placement =
      some
        (record { width = 800; height = 600; position = some (pos 10, pos 20); maximized = false });
}

passes-shown_window : window_validate (1 ∷ 2 ∷ 3 ∷ []) shown_window ≡ ok tt
unfolding window_validate contains insert
passes-shown_window = refl

holds-one : contains 1 (snapshot_ids saved_panes) ≡ true
unfolding contains snapshot_ids
holds-one = refl

holds-two : contains 2 (snapshot_ids saved_panes) ≡ true
unfolding contains snapshot_ids
holds-two = refl

window_validate-from_snapshot_example :
    (t : PaneTree ℕ) × (from_snapshot thousandths 1 saved_panes 2 ≡ some t)
    × IsTree thousandths t
    × (tab_ids t ≡ snapshot_ids saved_panes)
    × (snapshot thousandths t ≡ saved_panes)
window_validate-from_snapshot_example =
    window_validate-from_snapshot thousandths laws (1 ∷ 2 ∷ 3 ∷ []) shown_window 0 saved_panes 1 2
      passes-shown_window refl holds-one holds-two

abbrev plain_tab : ℕ → WorkspaceTabSnapshot
plain_tab id = record {
  id = id;
  title = 115 ∷ 104 ∷ [];
  kind = [];
  profile_id = none;
  companion_tab_id = none;
  terminal_text = 10 ∷ [];
  sftp_remote_path = [];
  sftp_local_path = [];
  status = [];
}

abbrev saved_workspace : WorkspaceSnapshot
saved_workspace = record {
  version = 1;
  tabs = plain_tab 1 ∷ plain_tab 2 ∷ plain_tab 3 ∷ [];
  active_tab_id = some 2;
  windows = shown_window ∷ [];
}

passes-saved_workspace : snapshot_validate saved_workspace ≡ ok tt
unfolding snapshot_validate contains insert
passes-saved_workspace = refl

-- A Tab that stands twice.
refuses-duplicate :
    snapshot_validate (record saved_workspace { tabs = plain_tab 1 ∷ plain_tab 1 ∷ [] })
    ≡ err Workspace.duplicate_tab_ids
unfolding snapshot_validate contains insert
refuses-duplicate = refl

snapshot_validate_iff_example :
    (snapshot_validate saved_workspace ≡ ok tt → IsSnapshot saved_workspace)
    × (IsSnapshot saved_workspace → snapshot_validate saved_workspace ≡ ok tt)
snapshot_validate_iff_example = snapshot_validate_iff saved_workspace

pane_validate_iff_example :
    (pane_validate (1 ∷ 2 ∷ 3 ∷ []) 0 saved_panes []
        ≡ ok (length (snapshot_ids saved_panes), snapshot_ids saved_panes)
      → IsPane (1 ∷ 2 ∷ 3 ∷ []) saved_panes × (length (snapshot_ids saved_panes) ≤ 8))
    × (IsPane (1 ∷ 2 ∷ 3 ∷ []) saved_panes × (length (snapshot_ids saved_panes) ≤ 8)
        → pane_validate (1 ∷ 2 ∷ 3 ∷ []) 0 saved_panes []
          ≡ ok (length (snapshot_ids saved_panes), snapshot_ids saved_panes))
pane_validate_iff_example = pane_validate_iff (1 ∷ 2 ∷ 3 ∷ []) saved_panes
