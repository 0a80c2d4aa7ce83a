-- ===== src/Panes/Places.antt =====
-- src/app/panes.rs: the layout shows each pane once, in the order of the tree, a divider for each
-- split, and a moved divider or focus stays within the tree.
use ax_ssh.Prelude.{
  ℕ, zero, suc, ◌+◌, ◌≤◌, ◌<◌, ◌≡◌, refl, ap, sym, ◌∙◌, inl, inr, some, List, [], ◌∷◌, ◌++◌, length,
  length-append, arith, Option-cases, if◌then◌else◌,
}
use ax_ssh.Prelude.Counts.{count}
use ax_ssh.Panes.{PaneDirection, PaneNode, leaf, split, PaneTree, node_ids, tab_ids}
use ax_ssh.Panes.Ratios.{Floats}
use ax_ssh.Panes.Layout.{
  Rect, Placement, Divider, collect_layout, layout, whole_rect, part_rects, resize_node, nearest,
  candidates,
}

module _ (fl : Floats) where
  abbrev pub shown_ids : List (Placement fl) → List ℕ
  shown_ids [] = []
  shown_ids (p ∷ ps) = p.tab_id ∷ shown_ids ps

  abbrev pub divider_ids : List (Divider fl) → List ℕ
  divider_ids [] = []
  divider_ids (d ∷ ds) = d.id ∷ divider_ids ds

  abbrev pub focused_ids : List (Placement fl) → List ℕ
  focused_ids [] = []
  focused_ids (p ∷ ps) = if p.focused then p.tab_id ∷ focused_ids ps else focused_ids ps

  -- `n` numbers from `k` on.
  abbrev pub numbers : ℕ → ℕ → List ℕ
  numbers k zero = []
  numbers k (suc n) = k ∷ numbers (suc k) n

  shown_ids-append :
      (ps qs : List (Placement fl)) → shown_ids (ps ++ qs) ≡ shown_ids ps ++ shown_ids qs
  shown_ids-append [] qs = refl
  shown_ids-append (p ∷ ps) qs = ap (λ x. p.tab_id ∷ x) (shown_ids-append ps qs)

  divider_ids-append :
      (ps qs : List (Divider fl)) → divider_ids (ps ++ qs) ≡ divider_ids ps ++ divider_ids qs
  divider_ids-append [] qs = refl
  divider_ids-append (p ∷ ps) qs = ap (λ x. p.id ∷ x) (divider_ids-append ps qs)

  numbers-append : (k j m n : ℕ) → j ≡ k + m → numbers k m ++ numbers j n ≡ numbers k (m + n)
  numbers-append k j zero n h = ground arith
  numbers-append k j (suc m) n h =
      let longer : suc m + n ≡ suc (m + n) = omega arith in
      rw longer (ap (λ u. k ∷ u) (numbers-append (suc k) j m n (omega arith)))

  abbrev pub splits : PaneNode fl.F → ℕ
  splits (leaf id) = 0
  splits (split axis ratio x y) = suc (splits x + splits y)

  splits-size : (n : PaneNode fl.F) → length (node_ids n) ≡ suc (splits n)
  unfolding node_ids
  splits-size (leaf id) = refl
  splits-size (split axis ratio x y) =
      omega (arith, splits-size x, splits-size y, length-append (node_ids x) (node_ids y))

  collect_layout_lem :
      (focus : ℕ) (n : PaneNode fl.F) (rect : Rect fl) (k : ℕ)
      → (shown_ids (collect_layout fl focus n rect k).0 ≡ node_ids n)
        × (divider_ids (collect_layout fl focus n rect k).1 ≡ numbers k (splits n))
        × ((collect_layout fl focus n rect k).2 ≡ k + splits n)
  unfolding collect_layout node_ids
  collect_layout_lem focus (leaf id) rect k = (refl, refl, omega arith)
  collect_layout_lem focus (split axis ratio x y) rect k =
      let parts = part_rects fl axis ratio rect in
      let in_first = collect_layout fl focus x parts.0 (suc k) in
      let in_second = collect_layout fl focus y parts.1 in_first.2 in
      let of_first = collect_layout_lem focus x parts.0 (suc k) in
      let of_second = collect_layout_lem focus y parts.1 in_first.2 in
      (
        shown_ids-append in_first.0 in_second.0
            ∙ ap (λ u. u ++ shown_ids in_second.0) of_first.0
            ∙ ap (λ u. node_ids x ++ u) of_second.0,
        ap (λ u. k ∷ u)
            (divider_ids-append in_first.1 in_second.1
              ∙ ap (λ u. u ++ divider_ids in_second.1) of_first.1
              ∙ ap (λ u. numbers (suc k) (splits x) ++ u) of_second.1
              ∙ numbers-append (suc k) in_first.2 (splits x) (splits y) of_first.2),
        omega (arith, of_first.2, of_second.2),
      )

  -- The layout shows the panes of the tree, each once and in the order of the tree, and has a divider
  -- for each split, numbered from 0 on: one divider less than there are panes.
  pub layout_lem :
      (t : PaneTree fl.F)
      → (shown_ids (layout fl t).0 ≡ tab_ids t)
        × ((n : ℕ) × (suc n ≡ length (tab_ids t)) × (divider_ids (layout fl t).1 ≡ numbers 0 n))
  unfolding layout tab_ids
  layout_lem t =
      let all = collect_layout_lem t.focused_tab_id t.root (whole_rect fl) 0 in
      (all.0, (splits t.root, sym (splits-size t.root), all.1))

  pub resize_node-ids :
      (target : ℕ) (candidate : fl.F) (n : PaneNode fl.F) (k : ℕ)
      → node_ids (resize_node fl target candidate n k).0 ≡ node_ids n
  unfolding resize_node node_ids
  resize_node-ids target candidate (leaf id) k = refl
  resize_node-ids target candidate (split axis ratio x y) k = ground (
    arith,
    resize_node-ids target candidate x (suc k),
    resize_node-ids target candidate y (resize_node fl target candidate x (suc k)).1,
  )

  -- The nearest candidate is a shown pane.
  unfoldable pub candidate_ids : List (ℕ × fl.F) → List ℕ
  candidate_ids [] = []
  candidate_ids ((id, d) ∷ cs) = id ∷ candidate_ids cs

  pub nearest-count :
      (cs : List (ℕ × fl.F)) (id : ℕ) (d : fl.F)
      → nearest fl cs ≡ some (id, d)
      → 0 < count id (candidate_ids cs)
  unfolding nearest candidate_ids count
  nearest-count [] id d h = absurd (ground arith)
  nearest-count ((i, e) ∷ cs) id d h = elim (Option-cases (nearest fl cs)) [
    | inl alone ↦ ground arith
    | inr ((j, f), other) ↦ (let rest = nearest-count cs j f other in ground arith)
  ]

  pub candidates-count :
      (a focus : ℕ) (current : Rect fl) (direction : PaneDirection) (ps : List (Placement fl))
      → count a (candidate_ids (candidates fl focus current direction ps)) ≤ count a (shown_ids ps)
  unfolding candidates candidate_ids count
  candidates-count a focus current direction [] = omega arith
  candidates-count a focus current direction (p ∷ ps) =
      ground (arith, candidates-count a focus current direction ps)
