-- ===== src/Panes/Kept.antt =====
-- src/app/panes.rs: each operation, and so every sequence of them, keeps a tree of panes well
-- formed.
use ax_ssh.Prelude.{
  ℕ, ◌+◌, ◌<◌, true, false, ◌≡◌, sym, subst, ap, ◌∙◌, if◌then◌else◌, inl, inr, some, List, [], ◌∷◌,
  length, arith, Bool-cases, Option-cases, leb, ◌||◌, ◌==◌,
}
use ax_ssh.Prelude.Int.{ℤ, pos, negsuc}
use ax_ssh.Prelude.Counts.{one_if, count, contains_iff, contains_not}
use ax_ssh.Panes.{
  PaneDirection, PaneNode, PaneTree, new_tree, node_ids, tab_ids, contains_tab, pane_count,
  set_focused, replace_leaf_with_split, remove_leaf, remove_tab, refocus, split_focused,
  max_terminal_panes,
}
use ax_ssh.Panes.Ratios.{
  Floats, FloatLaws, in_range, min_ratio, max_ratio, clamp_ratio, default_ratio,
}
use ax_ssh.Panes.Layout.{resize_split, focus_direction, layout, candidates, nearest, find_placement}
use ax_ssh.Panes.Ids.{
  replace-count, replace_found, replace-size, remove_leaf-count, remove_leaf-size, count_left,
  size_left, first_tab_id-count,
}
use ax_ssh.Panes.Places.{resize_node-ids, nearest-count, candidates-count, layout_lem}
use ax_ssh.Panes.Histories.{
  IsTree, PaneEvent, splits_pane, closes_tab, focuses_tab, moves_focus, drags_divider, pane_step,
  pane_run, replace-RatiosIn, remove_leaf-LeftIn, LeftIn, resize_node-RatiosIn,
}

module _ (fl : Floats) (laws : FloatLaws fl) where
  added-IsTree :
      (direction : PaneDirection) (new_id : ℕ) (t : PaneTree fl.F)
      → IsTree fl t
      → length (node_ids t.root) < max_terminal_panes
      → contains_tab new_id t ≡ false
      → IsTree fl (record t {
        root =
            (replace_leaf_with_split (default_ratio fl) t.focused_tab_id direction new_id t.root).0;
        focused_tab_id = new_id;
      })
  unfolding contains_tab
  added-IsTree direction new_id t v few fresh =
      let found =
        replace_found (default_ratio fl) t.focused_tab_id direction new_id t.root v.focused in
      let absent = contains_not new_id (node_ids t.root) fresh in
      let counts : (a : ℕ)
          → count a (
              node_ids
                (replace_leaf_with_split (default_ratio fl) t.focused_tab_id direction new_id
                  t.root).0)
            ≡ count a (node_ids t.root) + one_if (new_id == a) =
        λ a. replace-count a (default_ratio fl) t.focused_tab_id direction new_id t.root found in
      record {
        distinct = λ a. ground (arith, counts a, v.distinct a, absent);
        few =
            omega (
              arith,
              replace-size (default_ratio fl) t.focused_tab_id direction new_id t.root found,
            );
        focused = ground (arith, counts new_id);
        ratios =
            replace-RatiosIn fl (default_ratio fl) t.focused_tab_id direction new_id t.root
              laws.default_in v.ratios;
      }

  split_focused-IsTree :
      (direction : PaneDirection) (new_id : ℕ) (t : PaneTree fl.F)
      → IsTree fl t
      → IsTree fl (split_focused fl direction new_id t).0
  unfolding split_focused pane_count
  split_focused-IsTree direction new_id t v =
      elim (Bool-cases
        (leb max_terminal_panes (length (node_ids t.root)) || contains_tab new_id t)) [
          | inl refused ↦ rw (refused) v
          | inr room ↦
              elim (Bool-cases
                (replace_leaf_with_split (default_ratio fl) t.focused_tab_id direction new_id
                  t.root).1) [
                    | inl found ↦
                        rw (room, found)
                          (added-IsTree direction new_id t v (ground arith) (ground arith))
                    | inr lost ↦ rw (room, lost) v
                  ]
        ]

  refocus-IsTree :
      (id : ℕ) (t : PaneTree fl.F) (root : PaneNode fl.F)
      → remove_leaf id t.root ≡ some root
      → IsTree fl t
      → IsTree fl (refocus id t root)
  refocus-IsTree id t root h v =
      let counts : (a : ℕ)
          → count a (node_ids root) ≡ (if id == a then 0 else count a (node_ids t.root)) =
        λ a. ap (count_left a) (sym h) ∙ remove_leaf-count a id t.root in
      let size = remove_leaf-size id t.root in
      let left_in : LeftIn fl (some root) =
        subst (LeftIn fl) h (remove_leaf-LeftIn fl id t.root v.ratios) in
      record {
        distinct = λ a. ground (arith, counts a, v.distinct a);
        few = ground (arith, ap size_left h);
        focused = ground (arith, counts t.focused_tab_id, first_tab_id-count root);
        ratios = left_in;
      }

  remove_tab-IsTree : (id : ℕ) (t : PaneTree fl.F) → IsTree fl t → IsTree fl (remove_tab id t).0
  unfolding remove_tab
  remove_tab-IsTree id t v = elim (Bool-cases (contains_tab id t)) [
    | inr unknown ↦ rw (unknown) v
    | inl known ↦ elim (Option-cases (remove_leaf id t.root)) [
      | inl last ↦ rw (known, last) v
      | inr (root, rest) ↦ rw (known, rest) (refocus-IsTree id t root rest v)
    ]
  ]

  set_focused-IsTree : (id : ℕ) (t : PaneTree fl.F) → IsTree fl t → IsTree fl (set_focused id t).0
  unfolding set_focused
  set_focused-IsTree id t v = elim (Bool-cases (contains_tab id t)) [
    | inr unknown ↦ rw (unknown) v
    | inl known ↦ rw (known) (record {
      distinct = v.distinct;
      few = v.few;
      focused = unfold contains_tab in (contains_iff id (node_ids t.root)).0 known;
      ratios = v.ratios;
    })
  ]

  focus_direction-IsTree :
      (direction : PaneDirection) (t : PaneTree fl.F)
      → IsTree fl t
      → IsTree fl (focus_direction fl direction t).0
  unfolding focus_direction
  focus_direction-IsTree direction t v =
      let shown = (layout_lem fl t).0 in
      elim (Option-cases (find_placement fl t.focused_tab_id (layout fl t).0)) [
        | inl lost ↦ rw (lost, focus_direction) v
        | inr (current, here) ↦
            elim (Option-cases (
              nearest fl (candidates fl t.focused_tab_id current.rect direction (layout fl t).0))) [
                | inl none_there ↦ rw (here, none_there, focus_direction) v
                | inr ((id, d), there) ↦
                    rw (here, there, focus_direction)
                      (record {
                        distinct = v.distinct;
                        few = v.few;
                        focused =
                            unfold tab_ids in
                            omega (
                              arith,
                              nearest-count fl
                                  (candidates fl t.focused_tab_id current.rect direction
                                    (layout fl t).0)
                                  id d there,
                              candidates-count fl id t.focused_tab_id current.rect direction
                                  (layout fl t).0,
                              ap (count id) shown,
                            );
                        ratios = v.ratios;
                      })
              ]
      ]

  clamp_ratio-in : (r : fl.F) → fl.is_finite r ≡ true → in_range fl (clamp_ratio fl r) ≡ true
  clamp_ratio-in r h = elim (Bool-cases (fl.lt r (min_ratio fl))) [
    | inl low ↦ rw (low) laws.min_in
    | inr from ↦ elim (Bool-cases (fl.lt (max_ratio fl) r)) [
      | inl high ↦ rw (from, high) laws.max_in
      | inr to ↦ rw (from, to) (laws.between r h from to)
    ]
  ]

  resize_split-IsTree :
      (id : ℤ) (r : fl.F) (t : PaneTree fl.F) → IsTree fl t → IsTree fl (resize_split fl id r t).0
  unfolding resize_split
  resize_split-IsTree (negsuc n) r t v = v
  resize_split-IsTree (pos n) r t v = elim (Bool-cases (fl.is_finite r)) [
    | inr odd ↦ rw (odd) v
    | inl finite ↦
        (let same = resize_node-ids fl n (clamp_ratio fl r) t.root 0 in
          let counts = λ (a : ℕ). ap (count a) same in
          rw (finite) (record {
            distinct = λ a. omega (arith, counts a, v.distinct a);
            few = omega (arith, ap length same, v.few);
            focused = omega (arith, counts t.focused_tab_id, v.focused);
            ratios =
                resize_node-RatiosIn fl n (clamp_ratio fl r) t.root 0 (clamp_ratio-in r finite)
                  v.ratios;
          }))
  ]

  pub pane_step-IsTree :
      (e : PaneEvent fl) (t : PaneTree fl.F) → IsTree fl t → IsTree fl (pane_step fl e t)
  unfolding pane_step
  pane_step-IsTree (splits_pane direction id) t v = split_focused-IsTree direction id t v
  pane_step-IsTree (closes_tab id) t v = remove_tab-IsTree id t v
  pane_step-IsTree (focuses_tab id) t v = set_focused-IsTree id t v
  pane_step-IsTree (moves_focus direction) t v = focus_direction-IsTree direction t v
  pane_step-IsTree (drags_divider id r) t v = resize_split-IsTree id r t v

  pane_run_kept :
      (es : List (PaneEvent fl)) (t : PaneTree fl.F) → IsTree fl t → IsTree fl (pane_run fl es t)
  unfolding pane_run
  pane_run_kept [] t v = v
  pane_run_kept (e ∷ es) t v = pane_run_kept es (pane_step fl e t) (pane_step-IsTree e t v)

  new_tree-IsTree : (id : ℕ) → IsTree fl (new_tree id)
  unfolding new_tree node_ids count
  new_tree-IsTree id = record {
    distinct = λ a. ground arith;
    few = omega arith;
    focused = ground arith;
    ratios = tt;
  }

  -- After any sequence of splits, closings, changes of focus and moves of dividers of a new window's
  -- panes, no Tab has two panes, there are at most eight panes, the focus is on one of them, and every
  -- ratio is between a tenth and nine tenths.
  pub pane_run-IsTree :
      (es : List (PaneEvent fl)) (id : ℕ) → IsTree fl (pane_run fl es (new_tree id))
  pane_run-IsTree es id = pane_run_kept es (new_tree id) (new_tree-IsTree id)
