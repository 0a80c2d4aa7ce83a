-- ===== src/Workspace/Panes.antt =====
-- src/config/workspace.rs: the pane trees that pass their checks.
use ax_ssh.Prelude.{
  ℕ, suc, ◌+◌, ◌≤◌, ◌<◌, Bool, true, false, not, ◌&&◌, ◌≡◌, refl, ap, sym, ◌∙◌, List, [], ◌∷◌, ◌++◌,
  leb, length, length-append, append_assoc, arith, ◌↔◌,
}
use ax_ssh.Prelude.Keyed.{nat_eq, contains, insert, contains-insert}
use ax_ssh.Prelude.Counts.{count, IsDistinct}
use ax_ssh.Prelude.Results.{ok, err, ◌>>=◌}
use ax_ssh.Workspace.{
  PaneNodeSnapshot, leaf, split, SnapshotError, Checked, ensure, is_axis, pane_validate,
  duplicate_or_hidden, panes_validate, pane_too_deep, pane_unknown_tab, pane_axis_invalid,
  pane_ratio_invalid, pane_count_exceeded, pane_duplicate_or_hidden, max_panes,
}

-- What has passed a check.
pub ensure_then :
    {A : Type 0} (b : Bool) (e : SnapshotError) (f : Unit → Checked A) (r : A)
    → (ensure b e >>= f) ≡ ok r
    → (b ≡ true) × (f tt ≡ ok r)
ensure_then true e f r h = (refl, h)
ensure_then false e f r h = ground arith

pub bind_then :
    {A : Type 0} {B : Type 0} (m : Checked A) (f : A → Checked B) (r : B)
    → (m >>= f) ≡ ok r
    → (a : A) × (m ≡ ok a) × (f a ≡ ok r)
bind_then (ok a) f r h = (a, refl, h)
bind_then (err e) f r h = ground arith

-- The Tabs of a saved pane tree, from the left.
unfoldable pub snapshot_ids : PaneNodeSnapshot → List ℕ
snapshot_ids (leaf id) = id ∷ []
snapshot_ids (split axis ratio_milli first second) = snapshot_ids first ++ snapshot_ids second

-- The Tabs are known, the axes have their names, and the ratios are between a tenth and nine tenths.
abbrev pub IsPane : List ℕ → PaneNodeSnapshot → Type 0
IsPane ids (leaf id) = contains id ids ≡ true
IsPane ids (split axis ratio_milli first second) =
    (is_axis axis ≡ true)
    × (100 ≤ ratio_milli)
    × (ratio_milli ≤ 900)
    × IsPane ids first
    × IsPane ids second

snapshot_ids-size : (n : PaneNodeSnapshot) → 0 < length (snapshot_ids n)
unfolding snapshot_ids
snapshot_ids-size (leaf id) = omega arith
snapshot_ids-size (split axis m x y) =
    omega (arith, snapshot_ids-size x, length-append (snapshot_ids x) (snapshot_ids y))

pub pane_validate-ok :
    (ids : List ℕ) (depth : ℕ) (n : PaneNodeSnapshot) (acc : List ℕ)
    → IsPane ids n
    → depth + length (snapshot_ids n) ≤ suc max_panes
    → length (snapshot_ids n) ≤ max_panes
    → pane_validate ids depth n acc ≡ ok (length (snapshot_ids n), acc ++ snapshot_ids n)
unfolding pane_validate snapshot_ids
pane_validate-ok ids depth (leaf id) acc v h k =
    let shallow : leb depth max_panes ≡ true = ground arith in rw (shallow, v) refl
pane_validate-ok ids depth (split axis m x y) acc v h k =
    let sizes = length-append (snapshot_ids x) (snapshot_ids y) in
    let shallow : leb depth max_panes ≡ true = ground (arith, sizes, snapshot_ids-size x) in
    let ratio : (leb 100 m && leb m 900) ≡ true = ground (arith, v.1, v.2) in
    let first =
      pane_validate-ok ids (suc depth) x acc v.3 (omega (arith, h, sizes, snapshot_ids-size y))
        (omega (arith, k, sizes)) in
    let second =
      pane_validate-ok ids (suc depth) y (acc ++ snapshot_ids x) v.4
        (omega (arith, h, sizes, snapshot_ids-size x)) (omega (arith, k, sizes)) in
    let few : leb (length (snapshot_ids x) + length (snapshot_ids y)) max_panes ≡ true =
      ground (arith, sizes, snapshot_ids-size x) in
    rw (shallow, v.0, ratio, first, second, few, length-append, append_assoc) refl

-- What passes the checks of a pane tree.
pub pane_validate-IsPane :
    (ids : List ℕ) (depth : ℕ) (n : PaneNodeSnapshot) (acc : List ℕ) (r : ℕ × List ℕ)
    → pane_validate ids depth n acc ≡ ok r
    → IsPane ids n
      × (r ≡ (length (snapshot_ids n), acc ++ snapshot_ids n))
      × (length (snapshot_ids n) ≤ max_panes)
unfolding pane_validate snapshot_ids
pane_validate-IsPane ids depth (leaf id) acc r h =
    let deep = ensure_then (leb depth max_panes) pane_too_deep _ r h in
    let known = ensure_then (contains id ids) pane_unknown_tab _ r deep.1 in
    (known.0, ground (arith, known.1), ground arith)
pane_validate-IsPane ids depth (split axis m x y) acc r h =
    let deep = ensure_then (leb depth max_panes) pane_too_deep _ r h in
    let named = ensure_then (is_axis axis) pane_axis_invalid _ r deep.1 in
    let ratio = ensure_then (leb 100 m && leb m 900) pane_ratio_invalid _ r named.1 in
    let first = bind_then (pane_validate ids (suc depth) x acc) _ r ratio.1 in
    let second = bind_then (pane_validate ids (suc depth) y first.0.1) _ r first.2 in
    let few =
      ensure_then (leb (first.0.0 + second.0.0) max_panes) pane_count_exceeded _ r second.2 in
    let in_first = pane_validate-IsPane ids (suc depth) x acc first.0 first.1 in
    let in_second = pane_validate-IsPane ids (suc depth) y first.0.1 second.0 second.1 in
    let sizes = length-append (snapshot_ids x) (snapshot_ids y) in
    let size_of : (p : ℕ × List ℕ) → ℕ = λ p. p.0 in
    let ids_of : (p : ℕ × List ℕ) → List ℕ = λ p. p.1 in
    let result : (first.0.0 + second.0.0, second.0.1) ≡ r = ground (arith, few.1) in
    let size : first.0.0 + second.0.0 ≡ length (snapshot_ids x ++ snapshot_ids y) =
      omega (arith, ap size_of in_first.1, ap size_of in_second.1, sizes) in
    let all : second.0.1 ≡ acc ++ (snapshot_ids x ++ snapshot_ids y) =
      ap ids_of in_second.1
      ∙ ap (λ l. l ++ snapshot_ids y) (ap ids_of in_first.1)
      ∙ append_assoc acc (snapshot_ids x) (snapshot_ids y) in
    (
      (named.0, ground (arith, ratio.0), ground (arith, ratio.0), in_first.0, in_second.0),
      sym result ∙ (λ i. (size i, all i)),
      ground (arith, few.0, ap size_of in_first.1, ap size_of in_second.1, sizes),
    )

-- A pane tree passes its checks exactly when its Tabs are known, its axes have their names, its ratios
-- are between a tenth and nine tenths, and it has at most eight panes; the bound on its depth
-- refuses no more. The call then returns the number of the panes and their Tabs, from the left.
pub pane_validate_iff :
    (ids : List ℕ) (n : PaneNodeSnapshot)
    → (pane_validate ids 0 n [] ≡ ok (length (snapshot_ids n), snapshot_ids n))
      ↔ (IsPane ids n × (length (snapshot_ids n) ≤ max_panes))
pane_validate_iff ids n = (
  λ h.
      let v = pane_validate-IsPane ids 0 n [] (length (snapshot_ids n), snapshot_ids n) h in
      (v.0, v.2),
  λ v. pane_validate-ok ids 0 n [] v.0 (omega (arith, v.1)) v.1,
)

-- `a` stands at most once, and if it does, it is in the window and not yet seen.
abbrev pub IsNew : List ℕ → List ℕ → List ℕ → ℕ → Type 0
IsNew tab_ids seen ids a =
    (count a ids ≤ 1) × (0 < count a ids → (contains a seen ≡ false) × (contains a tab_ids ≡ true))

same_contains :
    (a b : ℕ) (xs ys : List ℕ)
    → a ≡ b
    → (contains a xs ≡ contains b xs) × (contains a ys ≡ contains b ys)
same_contains a b xs ys h = (cc, cc)

-- The check of the Tabs of a tree against those already seen.
pub duplicate_or_hidden_iff :
    (tab_ids seen ids : List ℕ)
    → (duplicate_or_hidden tab_ids seen ids ≡ false) ↔ ((a : ℕ) → IsNew tab_ids seen ids a)
unfolding duplicate_or_hidden count
duplicate_or_hidden_iff tab_ids seen [] = (λ h a. ground arith, λ v. refl)
duplicate_or_hidden_iff tab_ids seen (id ∷ ids) =
    let rest = duplicate_or_hidden_iff tab_ids (insert id seen) ids in
    (
      λ h a.
          let v = rest.0 (ground arith) a in
          ground (arith, v, contains-insert id a seen, same_contains id a seen tab_ids),
      λ v.
          let later = rest.1 (λ a. ground (arith, v a, contains-insert id a seen)) in
          ground (arith, v id, later),
    )

-- A pane tree of a window that passes its checks.
pub record IsPaneOf (ids tab_ids : List ℕ) (n : PaneNodeSnapshot) : Type 0 where
  pub pane : IsPane ids n
  pub few : length (snapshot_ids n) ≤ max_panes
  pub distinct : IsDistinct (snapshot_ids n)
  pub shown : (a : ℕ) → 0 < count a (snapshot_ids n) → contains a tab_ids ≡ true

abbrev pub All : {A : Type 0} → (A → Type 0) → List A → Type 0
All P [] = Unit
All P (x ∷ xs) = P x × All P xs

pub panes_validate_iff :
    (ids tab_ids : List ℕ) (panes : List PaneNodeSnapshot)
    → (panes_validate ids tab_ids panes ≡ ok tt) ↔ All (IsPaneOf ids tab_ids) panes
unfolding panes_validate contains
panes_validate_iff ids tab_ids [] = (λ h. tt, λ v. refl)
panes_validate_iff ids tab_ids (n ∷ panes) = (
  λ h.
      let checked = bind_then (pane_validate ids 0 n []) _ tt h in
      let passed =
        ensure_then (not (duplicate_or_hidden tab_ids [] checked.0.1)) pane_duplicate_or_hidden _ tt
          checked.2 in
      let v = pane_validate-IsPane ids 0 n [] checked.0 checked.1 in
      let same : checked.0.1 ≡ snapshot_ids n = ap (λ (p : ℕ × List ℕ). p.1) v.1 in
      let fresh =
        (duplicate_or_hidden_iff tab_ids [] (snapshot_ids n)).0
          (rw (sym same) (ground (arith, passed.0))) in
      (
        record {
          pane = v.0;
          few = v.2;
          distinct = λ a. (fresh a).0;
          shown = λ a k. ((fresh a).1 k).1;
        },
        (panes_validate_iff ids tab_ids panes).0 passed.1,
      ),
  λ v.
      let fresh =
        (duplicate_or_hidden_iff tab_ids [] (snapshot_ids n)).1
          (λ a. (v.0.distinct a, λ k. (refl, v.0.shown a k))) in
      rw ((pane_validate_iff ids n).1 (v.0.pane, v.0.few), fresh)
        ((panes_validate_iff ids tab_ids panes).1 v.1),
)
