-- ===== src/Panes/Layout.antt =====
-- src/app/panes.rs: where the panes and dividers lie, the ratio of a split, and the focus that moves
-- to a neighbour.
use ax_ssh.Prelude.{
  ℕ, suc, Bool, true, false, not, Option, none, some, List, [], ◌∷◌, ◌++◌, ◌==◌, if◌then◌else◌,
}
use ax_ssh.Prelude.Int.{ℤ, pos, negsuc}
use ax_ssh.Panes.{
  PaneDirection, left, right, up, down, SplitAxis, columns, rows, PaneNode, leaf, split, PaneTree,
}
use ax_ssh.Panes.Ratios.{Floats, clamp_ratio}

module _ (fl : Floats) where
  open fl use {F, num, add, sub, mul, div, maximum, minimum, absolute, lt, le, total_le, is_finite}

  pub record Rect : Type 0 where
    pub x : F
    pub y : F
    pub width : F
    pub height : F

  abbrev pub half : F → F
  half a = div a (num 2 1)

  abbrev pub right_of : Rect → F
  right_of r = add r.x r.width

  abbrev pub bottom_of : Rect → F
  bottom_of r = add r.y r.height

  abbrev pub center_x : Rect → F
  center_x r = add r.x (half r.width)

  abbrev pub center_y : Rect → F
  center_y r = add r.y (half r.height)

  pub record Placement : Type 0 where
    pub tab_id : ℕ
    pub rect : Rect
    pub focused : Bool

  pub record Divider : Type 0 where
    pub id : ℕ
    pub rect : Rect
    pub ratio : F
    pub vertical : Bool

  -- The two parts of a split rectangle.
  abbrev pub part_rects : SplitAxis → F → Rect → Rect × Rect
  part_rects columns ratio r = (
    record r { width = mul r.width ratio },
    record r { x = add r.x (mul r.width ratio); width = mul r.width (sub (num 1 1) ratio) },
  )
  part_rects rows ratio r = (
    record r { height = mul r.height ratio },
    record r { y = add r.y (mul r.height ratio); height = mul r.height (sub (num 1 1) ratio) },
  )

  abbrev pub is_columns : SplitAxis → Bool
  is_columns columns = true
  is_columns rows = false

  -- `collect_layout`: what it appends to the panes and the dividers, and the next number of a divider.
  unfoldable pub collect_layout : ℕ → PaneNode F → Rect → ℕ → List Placement × List Divider × ℕ
  collect_layout focus (leaf id) rect next =
      (record { tab_id = id; rect = rect; focused = id == focus } ∷ [], [], next)
  collect_layout focus (split axis ratio first second) rect next =
      let divider : Divider = record {
        id = next;
        rect = rect;
        ratio = ratio;
        vertical = is_columns axis;
      } in
      let parts = part_rects axis ratio rect in
      let in_first = collect_layout focus first parts.0 (suc next) in
      let in_second = collect_layout focus second parts.1 in_first.2 in
      (in_first.0 ++ in_second.0, divider ∷ (in_first.1 ++ in_second.1), in_second.2)

  abbrev pub whole_rect : Rect
  whole_rect = record { x = num 0 1; y = num 0 1; width = num 1 1; height = num 1 1 }

  unfoldable pub layout : PaneTree F → List Placement × List Divider × ℕ
  unfolding collect_layout
  layout t = collect_layout t.focused_tab_id t.root whole_rect 0

  -- The node, the next number of a divider, and whether the target was found and changed.
  unfoldable pub resize_node : ℕ → F → PaneNode F → ℕ → PaneNode F × ℕ × Option Bool
  resize_node target candidate (leaf id) next = (leaf id, next, none)
  resize_node target candidate (split axis ratio first second) next =
      let in_first = resize_node target candidate first (suc next) in
      let in_second = resize_node target candidate second in_first.1 in
      if next == target
      then (
        split axis candidate first second,
        suc next,
        some (lt (num 1 8388608) (absolute (sub ratio candidate))),
      )
      else elim in_first.2 [
        | some changed ↦ (split axis ratio in_first.0 second, in_first.1, some changed)
        | none ↦ (split axis ratio in_first.0 in_second.0, in_second.1, in_second.2)
      ]

  abbrev pub or_false : Option Bool → Bool
  or_false none = false
  or_false (some b) = b

  abbrev pub resized : PaneTree F → PaneNode F × ℕ × Option Bool → PaneTree F × Bool
  resized t result = (record t { root = result.0 }, or_false result.2)

  unfoldable pub resize_split : ℤ → F → PaneTree F → PaneTree F × Bool
  unfolding resize_node
  resize_split (negsuc n) ratio t = (t, false)
  resize_split (pos target) ratio t =
      if not (is_finite ratio)
      then (t, false)
      else resized t (resize_node target (clamp_ratio fl ratio) t.root 0)

  abbrev pub vertical_overlap : Rect → Rect → F
  vertical_overlap l r =
      maximum (sub (minimum (bottom_of l) (bottom_of r)) (maximum l.y r.y)) (num 0 1)

  abbrev pub horizontal_overlap : Rect → Rect → F
  horizontal_overlap l r =
      maximum (sub (minimum (right_of l) (right_of r)) (maximum l.x r.x)) (num 0 1)

  abbrev pub tolerance : F
  tolerance = num 1 10000

  -- `gap * 10_000.0 - overlap * 10.0 + center_offset`.
  abbrev pub distance_of : F → F → F → F
  distance_of gap overlap center_offset =
      add (sub (mul gap (num 10000 1)) (mul overlap (num 10 1))) center_offset

  unfoldable pub directional_distance : Rect → Rect → PaneDirection → Option F
  directional_distance current candidate left =
      if lt (center_x candidate) (sub (center_x current) tolerance)
      then some (
          distance_of (maximum (sub current.x (right_of candidate)) (num 0 1))
            (vertical_overlap current candidate)
            (absolute (sub (center_y current) (center_y candidate))))
      else none
  directional_distance current candidate right =
      if lt (add (center_x current) tolerance) (center_x candidate)
      then some (
          distance_of (maximum (sub candidate.x (right_of current)) (num 0 1))
            (vertical_overlap current candidate)
            (absolute (sub (center_y current) (center_y candidate))))
      else none
  directional_distance current candidate up =
      if lt (center_y candidate) (sub (center_y current) tolerance)
      then some (
          distance_of (maximum (sub current.y (bottom_of candidate)) (num 0 1))
            (horizontal_overlap current candidate)
            (absolute (sub (center_x current) (center_x candidate))))
      else none
  directional_distance current candidate down =
      if lt (add (center_y current) tolerance) (center_y candidate)
      then some (
          distance_of (maximum (sub candidate.y (bottom_of current)) (num 0 1))
            (horizontal_overlap current candidate)
            (absolute (sub (center_x current) (center_x candidate))))
      else none

  -- The placement of the focus.
  unfoldable pub find_placement : ℕ → List Placement → Option Placement
  find_placement id [] = none
  find_placement id (p ∷ ps) =
      let rest = find_placement id ps in if p.tab_id == id then some p else rest

  -- The candidates of a move of the focus, each with its distance.
  unfoldable pub candidates : ℕ → Rect → PaneDirection → List Placement → List (ℕ × F)
  unfolding directional_distance
  candidates focus current direction [] = []
  candidates focus current direction (p ∷ ps) =
      let rest = candidates focus current direction ps in
      if p.tab_id == focus then rest else elim (directional_distance current p.rect direction) [
        | none ↦ rest
        | some distance ↦ (p.tab_id, distance) ∷ rest
      ]

  -- `min_by`, which keeps the first of equals.
  unfoldable pub nearest : List (ℕ × F) → Option (ℕ × F)
  nearest [] = none
  nearest ((id, d) ∷ cs) = elim (nearest cs) [
    | none ↦ some (id, d)
    | some (other, e) ↦ (if total_le d e then some (id, d) else some (other, e))
  ]

  abbrev pub focus_on : PaneTree F → Option (ℕ × F) → PaneTree F × Option ℕ
  focus_on t none = (t, none)
  focus_on t (some (id, d)) = (record t { focused_tab_id = id }, some id)

  unfoldable pub focus_direction : PaneDirection → PaneTree F → PaneTree F × Option ℕ
  unfolding layout find_placement candidates nearest
  focus_direction direction t =
      let placements = (layout t).0 in
      elim (find_placement t.focused_tab_id placements) [
        | none ↦ (t, none)
        | some current ↦
            focus_on t (nearest (candidates t.focused_tab_id current.rect direction placements))
      ]
