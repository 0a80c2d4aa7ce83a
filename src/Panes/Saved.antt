-- ===== src/Panes/Saved.antt =====
-- src/app/panes.rs and src/config/workspace.rs: a tree of panes that is saved passes its checks and
-- comes back, and a saved tree that passes them comes back well formed.
use ax_ssh.Prelude.{
  ℕ, zero, suc, ◌<◌, true, ◌≡◌, refl, ap, sym, subst, inl, inr, some, List, [], ◌∷◌, length,
  get_elem?, arith, leb, Bool-cases,
}
use ax_ssh.Prelude.Keyed.{nat_eq, string_eq, contains}
use ax_ssh.Prelude.Counts.{count, count-append, contains_iff}
use ax_ssh.Prelude.Results.{ok}
use ax_ssh.Panes.{
  SplitAxis, columns, rows, PaneNode, leaf, split, PaneTree, node_ids, tab_ids, contains_tab,
  pane_count, max_terminal_panes,
}
use ax_ssh.Panes.Ratios.{Floats, FloatLaws}
use ax_ssh.Panes.Histories.{RatiosIn, IsTree}
use ax_ssh.Panes.Restore.{
  axis_name, named_axis, snapshot_node, snapshot, restore_node, from_snapshot,
}
use ax_ssh.Workspace
use ax_ssh.Workspace.{
  PaneNodeSnapshot, WorkspaceWindowSnapshot, pane_validate, window_validate, is_axis,
}
use ax_ssh.Workspace.Panes.{snapshot_ids, IsPane, IsPaneOf, All, pane_validate_iff}
use ax_ssh.Workspace.Windows.{window_validate_iff}
use Prim.Native.String.{String}

named_axis_iff :
    (name : String)
    → is_axis name ≡ true
    → (a : SplitAxis) × (named_axis name ≡ some a) × (axis_name a ≡ name)
named_axis_iff name h = elim (Bool-cases (string_eq.beq name "columns")) [
  | inl yes_columns ↦
      (columns, rw (yes_columns) refl, sym ((string_eq.beq_iff name "columns").0 yes_columns))
  | inr not_columns ↦ elim (Bool-cases (string_eq.beq name "rows")) [
    | inl yes_rows ↦
        (rows, rw (not_columns, yes_rows) refl, sym ((string_eq.beq_iff name "rows").0 yes_rows))
    | inr not_rows ↦ ground arith
  ]
]

axis_name-named :
    (a : SplitAxis) → (is_axis (axis_name a) ≡ true) × (named_axis (axis_name a) ≡ some a)
axis_name-named columns = (refl, refl)
axis_name-named rows = (refl, refl)

module _ (fl : Floats) (laws : FloatLaws fl) where
  -- The tree with its ratios rounded to thousandths.
  unfoldable pub rounded : PaneNode fl.F → PaneNode fl.F
  rounded (leaf id) = leaf id
  rounded (split axis r x y) = split axis (fl.of_milli (fl.to_milli r)) (rounded x) (rounded y)

  restore-snapshot :
      (n : PaneNode fl.F) → RatiosIn fl n → restore_node fl (snapshot_node fl n) ≡ some (rounded n)
  unfolding restore_node snapshot_node rounded
  restore-snapshot (leaf id) v = refl
  restore-snapshot (split axis r x y) v =
      let milli = laws.to_milli_in r v.0 in
      rw
        (
          restore_node,
          (axis_name-named axis).1,
          laws.of_milli_in (fl.to_milli r) milli.0 milli.1,
          restore-snapshot x v.1,
          restore-snapshot y v.2,
        )
        refl

  rounded-kept :
      (n : PaneNode fl.F)
      → RatiosIn fl n
      → (node_ids (rounded n) ≡ node_ids n) × (snapshot_node fl (rounded n) ≡ snapshot_node fl n)
  unfolding snapshot_node rounded node_ids
  rounded-kept (leaf id) v = (refl, refl)
  rounded-kept (split axis r x y) v =
      let milli = laws.to_milli_in r v.0 in
      let in_x = rounded-kept x v.1 in
      let in_y = rounded-kept y v.2 in
      (
        rw (in_x.0, in_y.0) refl,
        rw (laws.to_of (fl.to_milli r) milli.0 milli.1, in_x.1, in_y.1) refl,
      )

  snapshot_node-IsPane :
      (ids : List ℕ) (n : PaneNode fl.F)
      → RatiosIn fl n
      → ((a : ℕ) → 0 < count a (node_ids n) → contains a ids ≡ true)
      → IsPane ids (snapshot_node fl n) × (snapshot_ids (snapshot_node fl n) ≡ node_ids n)
  unfolding snapshot_node snapshot_ids node_ids count
  snapshot_node-IsPane ids (leaf id) v known = (known id (ground arith), refl)
  snapshot_node-IsPane ids (split axis r x y) v known =
      let milli = laws.to_milli_in r v.0 in
      let in_x =
        snapshot_node-IsPane ids x v.1
          (λ a k. known a (omega (arith, k, count-append a (node_ids x) (node_ids y)))) in
      let in_y =
        snapshot_node-IsPane ids y v.2
          (λ a k. known a (omega (arith, k, count-append a (node_ids x) (node_ids y)))) in
      (((axis_name-named axis).0, milli.0, milli.1, in_x.0, in_y.0), rw (in_x.1, in_y.1) refl)

  -- A well-formed tree that holds its first Tab, saved, passes the checks of the saved form, which find
  -- its Tabs; restored with its focus, it has the same Tabs in the same places and the same saved form,
  -- and its ratios are those of before, rounded to thousandths.
  pub from_snapshot-snapshot :
      (ids : List ℕ) (t : PaneTree fl.F)
      → IsTree fl t
      → contains_tab t.workspace_tab_id t ≡ true
      → ((a : ℕ) → contains a (tab_ids t) ≡ true → contains a ids ≡ true)
      → (pane_validate ids 0 (snapshot fl t) [] ≡ ok (pane_count t, tab_ids t))
        × (from_snapshot fl t.workspace_tab_id (snapshot fl t) t.focused_tab_id
            ≡ some (record t { root = rounded t.root }))
        × (node_ids (rounded t.root) ≡ node_ids t.root)
        × (snapshot_node fl (rounded t.root) ≡ snapshot fl t)
  unfolding snapshot from_snapshot contains_tab pane_count tab_ids
  from_snapshot-snapshot ids t v home known =
      let saved =
        snapshot_node-IsPane ids t.root v.ratios
          (λ a k. known a ((contains_iff a (node_ids t.root)).1 k)) in
      let kept = rounded-kept t.root v.ratios in
      let focused : contains t.focused_tab_id (node_ids t.root) ≡ true =
        (contains_iff t.focused_tab_id (node_ids t.root)).1 v.focused in
      let few : leb (length (node_ids t.root)) max_terminal_panes ≡ true = ground (arith, v.few) in
      (
        rw (sym saved.1) (
            (pane_validate_iff ids (snapshot_node fl t.root)).1
              (saved.0, omega (arith, ap length saved.1, v.few))),
        rw (from_snapshot, restore-snapshot t.root v.ratios, kept.0, home, focused, few) refl,
        kept.0,
        kept.1,
      )

  restore_node-IsPane :
      (ids : List ℕ) (saved : PaneNodeSnapshot)
      → IsPane ids saved
      → (n : PaneNode fl.F) × (restore_node fl saved ≡ some n)
        × RatiosIn fl n
        × (node_ids n ≡ snapshot_ids saved)
        × (snapshot_node fl n ≡ saved)
  unfolding restore_node snapshot_node snapshot_ids node_ids
  restore_node-IsPane ids (Workspace.leaf id) v = (leaf id, refl, tt, refl, refl)
  restore_node-IsPane ids (Workspace.split name m x y) v =
      let named = named_axis_iff name v.0 in
      let in_x = restore_node-IsPane ids x v.3 in
      let in_y = restore_node-IsPane ids y v.4 in
      let ratio = laws.of_milli_in m v.1 v.2 in
      (
        split named.0 (fl.of_milli m) in_x.0 in_y.0,
        rw (restore_node, named.1, ratio, in_x.1, in_y.1) refl,
        (ratio, in_x.2, in_y.2),
        rw (in_x.3, in_y.3) refl,
        rw (named.2, laws.to_of m v.1 v.2, in_x.4, in_y.4) refl,
      )

  from_snapshot-IsTree :
      (ids shown : List ℕ) (saved : PaneNodeSnapshot) (workspace_tab_id focused_tab_id : ℕ)
      → IsPaneOf ids shown saved
      → contains workspace_tab_id (snapshot_ids saved) ≡ true
      → contains focused_tab_id (snapshot_ids saved) ≡ true
      → (t : PaneTree fl.F) × (from_snapshot fl workspace_tab_id saved focused_tab_id ≡ some t)
        × IsTree fl t
        × (tab_ids t ≡ snapshot_ids saved)
        × (snapshot fl t ≡ saved)
  unfolding from_snapshot contains_tab pane_count tab_ids snapshot
  from_snapshot-IsTree ids shown saved workspace_tab_id focused_tab_id v home focused =
      let n = restore_node-IsPane ids saved v.pane in
      let few : leb (length (snapshot_ids saved)) max_terminal_panes ≡ true =
        ground (arith, v.few) in
      (
        record { workspace_tab_id = workspace_tab_id; root = n.0; focused_tab_id = focused_tab_id },
        rw (from_snapshot, n.1, n.3, home, focused, few) refl,
        record {
          distinct = λ a. omega (arith, v.distinct a, ap (count a) n.3);
          few = omega (arith, v.few, ap length n.3);
          focused = rw (n.3) ((contains_iff focused_tab_id (snapshot_ids saved)).0 focused);
          ratios = n.2;
        },
        n.3,
        n.4,
      )

  all_at :
      {A : Type 0} (P : A → Type 0) (xs : List A) (i : ℕ) (a : A)
      → All P xs
      → get_elem? xs i ≡ some a
      → P a
  all_at P [] i a v h = ground arith
  all_at P (x ∷ xs) zero a v h = subst P (ground arith) v.0
  all_at P (x ∷ xs) (suc i) a v h = all_at P xs i a v.1 h

  -- Every pane tree of a window that passes its checks is restored, when it holds the workspace's Tab
  -- and the focused one, to a well-formed tree with the Tabs and the saved form of what was saved.
  pub window_validate-from_snapshot :
      (ids : List ℕ) (w : WorkspaceWindowSnapshot) (i : ℕ) (saved : PaneNodeSnapshot)
      (workspace_tab_id focused_tab_id : ℕ)
      → window_validate ids w ≡ ok tt
      → get_elem? w.panes i ≡ some saved
      → contains workspace_tab_id (snapshot_ids saved) ≡ true
      → contains focused_tab_id (snapshot_ids saved) ≡ true
      → (t : PaneTree fl.F) × (from_snapshot fl workspace_tab_id saved focused_tab_id ≡ some t)
        × IsTree fl t
        × (tab_ids t ≡ snapshot_ids saved)
        × (snapshot fl t ≡ saved)
  window_validate-from_snapshot ids w i saved workspace_tab_id focused_tab_id h at home focused =
      from_snapshot-IsTree ids w.tab_ids saved workspace_tab_id focused_tab_id
        (all_at (IsPaneOf ids w.tab_ids) w.panes i saved ((window_validate_iff ids w).0 h).panes at)
        home focused
