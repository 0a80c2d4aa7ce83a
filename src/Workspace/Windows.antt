-- ===== src/Workspace/Windows.antt =====
-- src/config/workspace.rs: the windows and Tabs that pass their checks.
use ax_ssh.Prelude.{
  ℕ, ◌≤◌, Bool, true, false, not, ◌&&◌, ◌||◌, ◌≡◌, refl, subst, Option, none, some, List, [], ◌∷◌,
  length, leb, arith, ◌↔◌,
}
use ax_ssh.Prelude.Int.{ℤ}
use ax_ssh.Prelude.Bytes.{any_control, Text}
use ax_ssh.Prelude.Keyed.{nat_eq, contains}
use ax_ssh.Prelude.Results.{ok}
use ax_ssh.Workspace
use ax_ssh.Workspace.{
  WindowPlacement, WorkspaceWindowSnapshot, WorkspaceTabSnapshot, ensure, byte_len, validate_text,
  unsigned_abs, placement_validate, placement_checked, in_size, position_in, some_in, all_in,
  window_validate, windows_validate, panes_validate, tab_validate, tabs_validate, max_tabs,
  max_title_bytes, max_text_bytes, max_path_bytes, max_status_bytes, TextLabel,
}
use ax_ssh.Workspace.Panes.{ensure_then, bind_then, IsPaneOf, All, panes_validate_iff}

-- A check that passes with nothing to return.
pub ensure_iff : (b : Bool) (e : Workspace.SnapshotError) → (ensure b e ≡ ok tt) ↔ (b ≡ true)
ensure_iff true e = (λ h. refl, λ h. refl)
ensure_iff false e = (λ h. ground arith, λ h. ground arith)

-- A text of at most `max_bytes` bytes, with no control character where these are refused.
abbrev pub FitsText : Text → ℕ → Bool → Type 0
FitsText value max_bytes reject_controls =
    (byte_len value ≤ max_bytes) × (reject_controls ≡ true → any_control value ≡ false)

pub validate_text_iff :
    (value : Text) (max_bytes : ℕ) (label : TextLabel) (reject_controls : Bool)
    → (validate_text value max_bytes label reject_controls ≡ ok tt)
      ↔ FitsText value max_bytes reject_controls
unfolding validate_text
validate_text_iff value max_bytes label reject_controls = (
  λ h.
      let fits =
        ensure_then (leb (byte_len value) max_bytes) (Workspace.text_too_long label) _ tt h in
      (
        ground (arith, fits.0),
        ground (arith, (ensure_iff _ (Workspace.control_characters label)).0 fits.1),
      ),
  λ v.
      let fits : leb (byte_len value) max_bytes ≡ true = ground (arith, v.0) in
      let plain : not (reject_controls && any_control value) ≡ true = ground (arith, v.1) in
      rw (fits, plain) refl,
)

abbrev pub IsPosition : Option (ℤ × ℤ) → Type 0
IsPosition none = Unit
IsPosition (some (x, y)) = (unsigned_abs x ≤ 1000000) × (unsigned_abs y ≤ 1000000)

pub record IsPlacement (p : WindowPlacement) : Type 0 where
  pub width_in : (1 ≤ p.width) × (p.width ≤ 32768)
  pub height_in : (1 ≤ p.height) × (p.height ≤ 32768)
  pub position_in : IsPosition p.position

position_in_iff : (o : Option (ℤ × ℤ)) → (position_in o ≡ true) ↔ IsPosition o
position_in_iff none = (λ h. tt, λ v. refl)
position_in_iff (some (x, y)) = (λ h. ground arith, λ v. ground arith)

pub placement_validate_iff : (p : WindowPlacement) → (placement_validate p ≡ ok tt) ↔ IsPlacement p
unfolding placement_validate
placement_validate_iff p = (
  λ h.
      let sized =
        ensure_then (not (not (in_size p.width) || not (in_size p.height)))
          Workspace.bad_window_size _ tt h in
      record {
        width_in = ground (arith, sized.0);
        height_in = ground (arith, sized.0);
        position_in =
            (position_in_iff p.position).0 ((ensure_iff _ Workspace.bad_window_position).0 sized.1);
      },
  λ v.
      let sized : not (not (in_size p.width) || not (in_size p.height)) ≡ true =
        ground (arith, v.width_in, v.height_in) in
      rw (sized, (position_in_iff p.position).1 v.position_in) refl,
)

pub placement_checked_iff :
    (o : Option WindowPlacement)
    → (placement_checked o ≡ ok tt) ↔ ((p : WindowPlacement) → o ≡ some p → IsPlacement p)
placement_checked_iff none = (λ h p e. ground arith, λ v. refl)
placement_checked_iff (some p) = (
  λ h q e. subst IsPlacement (ground arith) ((placement_validate_iff p).0 h),
  λ v. (placement_validate_iff p).1 (v p refl),
)

all_in_iff :
    (ids tab_ids : List ℕ)
    → (all_in ids tab_ids ≡ true) ↔ ((a : ℕ) → contains a tab_ids ≡ true → contains a ids ≡ true)
unfolding all_in contains
all_in_iff ids [] = (λ h a k. ground arith, λ v. refl)
all_in_iff ids (id ∷ tab_ids) =
    let rest = all_in_iff ids tab_ids in
    (
      λ h a k. ground (arith, rest.0 (ground arith) a, same_known id a),
      λ v. ground (arith, v id, nat_eq.beq_iff id id, rest.1 (λ a k. v a (ground arith))),
    )
  where
    same_known : (b a : ℕ) → b ≡ a → contains b ids ≡ contains a ids
    same_known b a h = cc

-- A window that passes its checks, among the Tabs `ids` of the snapshot.
pub record IsWindow (ids : List ℕ) (w : WorkspaceWindowSnapshot) : Type 0 where
  pub placed : (p : WindowPlacement) → w.placement ≡ some p → IsPlacement p
  pub few : length w.tab_ids ≤ max_tabs
  pub known : (a : ℕ) → contains a w.tab_ids ≡ true → contains a ids ≡ true
  pub active_shown : some_in w.active_tab_id w.tab_ids ≡ true
  pub focused_shown : some_in w.focused_tab_id w.tab_ids ≡ true
  pub panes : All (IsPaneOf ids w.tab_ids) w.panes

pub window_validate_iff :
    (ids : List ℕ) (w : WorkspaceWindowSnapshot) → (window_validate ids w ≡ ok tt) ↔ IsWindow ids w
unfolding window_validate
window_validate_iff ids w = (
  λ h.
      let placed = bind_then (placement_checked w.placement) _ tt h in
      let few =
        ensure_then (leb (length w.tab_ids) max_tabs) Workspace.window_too_many_tabs _ tt
          placed.2 in
      let known = ensure_then (all_in ids w.tab_ids) Workspace.window_unknown_tab _ tt few.1 in
      let active =
        ensure_then (some_in w.active_tab_id w.tab_ids) Workspace.window_active_hidden _ tt
          known.1 in
      let focused =
        ensure_then (some_in w.focused_tab_id w.tab_ids) Workspace.window_focused_hidden _ tt
          active.1 in
      record {
        placed = (placement_checked_iff w.placement).0 placed.1;
        few = ground (arith, few.0);
        known = (all_in_iff ids w.tab_ids).0 known.0;
        active_shown = active.0;
        focused_shown = focused.0;
        panes = (panes_validate_iff ids w.tab_ids w.panes).0 focused.1;
      },
  λ v.
      let few : leb (length w.tab_ids) max_tabs ≡ true = ground (arith, v.few) in
      rw
        (
          (placement_checked_iff w.placement).1 v.placed,
          few,
          (all_in_iff ids w.tab_ids).1 v.known,
          v.active_shown,
          v.focused_shown,
        )
        ((panes_validate_iff ids w.tab_ids w.panes).1 v.panes),
)

pub windows_validate_iff :
    (ids : List ℕ) (ws : List WorkspaceWindowSnapshot)
    → (windows_validate ids ws ≡ ok tt) ↔ All (IsWindow ids) ws
unfolding windows_validate
windows_validate_iff ids [] = (λ h. tt, λ v. refl)
windows_validate_iff ids (w ∷ ws) = (
  λ h.
      let first = bind_then (window_validate ids w) _ tt h in
      ((window_validate_iff ids w).0 first.1, (windows_validate_iff ids ws).0 first.2),
  λ v. rw ((window_validate_iff ids w).1 v.0) ((windows_validate_iff ids ws).1 v.1),
)
