-- ===== src/Workspace/Valid.antt =====
-- src/config/workspace.rs: the snapshots that pass their checks.
use ax_ssh.Prelude.{
  ℕ, ◌≤◌, true, false, ◌≡◌, refl, ap, sym, ◌∙◌, subst, List, [], ◌∷◌, map, length, length-map, leb,
  arith, ◌↔◌, ◌==◌, inl, inr, Bool-cases,
}
use ax_ssh.Prelude.Keyed.{nat_eq, contains, insert}
use ax_ssh.Prelude.Counts.{count, contains_iff, contains_not, IsDistinct}
use ax_ssh.Prelude.Results.{ok}
use ax_ssh.Workspace
use ax_ssh.Workspace.{
  WorkspaceSnapshot, WorkspaceTabSnapshot, ensure, some_in, tab_validate, tabs_validate, id_set,
  snapshot_validate, windows_validate, max_tabs, max_windows, max_title_bytes, max_text_bytes,
  max_path_bytes, max_status_bytes, workspace_snapshot_version,
}
use ax_ssh.Workspace.Panes.{ensure_then, bind_then, All}
use ax_ssh.Workspace.Windows.{
  ensure_iff, FitsText, validate_text_iff, IsWindow, windows_validate_iff,
}

abbrev pub tab_id_of : WorkspaceTabSnapshot → ℕ
tab_id_of tab = tab.id

-- The set of the Tabs is as long as their list exactly when no Tab stands twice.
id_set-length : (tabs : List WorkspaceTabSnapshot) → length (id_set tabs) ≤ length tabs
unfolding id_set insert
id_set-length [] = omega arith
id_set-length (tab ∷ tabs) = ground (arith, id_set-length tabs)

id_set_all :
    (tabs : List WorkspaceTabSnapshot)
    → length (id_set tabs) ≡ length tabs
    → (id_set tabs ≡ map tab_id_of tabs) × IsDistinct (map tab_id_of tabs)
unfolding id_set insert count
id_set_all [] h = (refl, λ a. omega arith)
id_set_all (tab ∷ tabs) h = elim (Bool-cases (contains tab.id (id_set tabs))) [
  | inl old ↦ ground (arith, id_set-length tabs)
  | inr new ↦
      (let rest = id_set_all tabs (ground arith) in
        let absent : count tab.id (map tab_id_of tabs) ≡ 0 =
          contains_not tab.id (map tab_id_of tabs) (ap (contains tab.id) (sym rest.0) ∙ new) in
        (rw (new, rest.0) refl, λ a. ground (arith, rest.1 a, absent)))
]

id_set_distinct :
    (tabs : List WorkspaceTabSnapshot)
    → IsDistinct (map tab_id_of tabs)
    → id_set tabs ≡ map tab_id_of tabs
unfolding id_set insert count
id_set_distinct [] v = refl
id_set_distinct (tab ∷ tabs) v =
    let rest = id_set_distinct tabs (λ a. omega (arith, v a)) in
    let new : contains tab.id (map tab_id_of tabs) ≡ false =
      ground (arith, contains_iff tab.id (map tab_id_of tabs), v tab.id) in
    rw (rest, new) refl

-- A Tab that passes its checks, among the Tabs `ids`.
pub record IsTab (ids : List ℕ) (tab : WorkspaceTabSnapshot) : Type 0 where
  pub title_fits : FitsText tab.title max_title_bytes true
  pub terminal_text_fits : FitsText tab.terminal_text max_text_bytes false
  pub remote_path_fits : FitsText tab.sftp_remote_path max_path_bytes true
  pub local_path_fits : FitsText tab.sftp_local_path max_path_bytes true
  pub status_fits : FitsText tab.status max_status_bytes true
  pub companion_known : some_in tab.companion_tab_id ids ≡ true

tab_validate_iff :
    (ids : List ℕ) (tab : WorkspaceTabSnapshot) → (tab_validate ids tab ≡ ok tt) ↔ IsTab ids tab
unfolding tab_validate
tab_validate_iff ids tab =
    let title = validate_text_iff tab.title max_title_bytes Workspace.tab_title true in
    let shown =
      validate_text_iff tab.terminal_text max_text_bytes Workspace.terminal_text_label false in
    let remote = validate_text_iff tab.sftp_remote_path max_path_bytes Workspace.remote_path true in
    let local = validate_text_iff tab.sftp_local_path max_path_bytes Workspace.local_path true in
    let status = validate_text_iff tab.status max_status_bytes Workspace.tab_status true in
    (
      λ h.
          let a = bind_then _ _ tt h in
          let b = bind_then _ _ tt a.2 in
          let c = bind_then _ _ tt b.2 in
          let d = bind_then _ _ tt c.2 in
          let e = bind_then _ _ tt d.2 in
          record {
            title_fits = title.0 a.1;
            terminal_text_fits = shown.0 b.1;
            remote_path_fits = remote.0 c.1;
            local_path_fits = local.0 d.1;
            status_fits = status.0 e.1;
            companion_known = (ensure_iff _ Workspace.companion_missing).0 e.2;
          },
      λ v.
          rw
            (
              title.1 v.title_fits,
              shown.1 v.terminal_text_fits,
              remote.1 v.remote_path_fits,
              local.1 v.local_path_fits,
              status.1 v.status_fits,
              v.companion_known,
            )
            refl,
    )

tabs_validate_iff :
    (ids : List ℕ) (tabs : List WorkspaceTabSnapshot)
    → (tabs_validate ids tabs ≡ ok tt) ↔ All (IsTab ids) tabs
unfolding tabs_validate
tabs_validate_iff ids [] = (λ h. tt, λ v. refl)
tabs_validate_iff ids (tab ∷ tabs) = (
  λ h.
      let first = bind_then (tab_validate ids tab) _ tt h in
      ((tab_validate_iff ids tab).0 first.1, (tabs_validate_iff ids tabs).0 first.2),
  λ v. rw ((tab_validate_iff ids tab).1 v.0) ((tabs_validate_iff ids tabs).1 v.1),
)

abbrev pub known_ids : WorkspaceSnapshot → List ℕ
known_ids s = map tab_id_of s.tabs

-- A snapshot of this version, within its bounds, whose Tabs are distinct and whose references lead
-- somewhere.
pub record IsSnapshot (s : WorkspaceSnapshot) : Type 0 where
  pub versioned : s.version ≡ workspace_snapshot_version
  pub few_tabs : length s.tabs ≤ max_tabs
  pub few_windows : length s.windows ≤ max_windows
  pub distinct : IsDistinct (known_ids s)
  pub tabs : All (IsTab (known_ids s)) s.tabs
  pub active_known : some_in s.active_tab_id (known_ids s) ≡ true
  pub windows : All (IsWindow (known_ids s)) s.windows

-- A snapshot passes its checks exactly when it has this version, at most 256 Tabs and 32 windows, no
-- two Tabs of one id, texts within their bounds and (but for the terminal's) without control
-- characters, companions and an active Tab that exist, and windows within the screen's bounds whose
-- Tabs exist, whose active and focused Tabs are theirs, and whose pane trees hold each Tab of the
-- window at most once, with at most eight panes, named axes and ratios between a tenth and nine
-- tenths.
pub snapshot_validate_iff : (s : WorkspaceSnapshot) → (snapshot_validate s ≡ ok tt) ↔ IsSnapshot s
unfolding snapshot_validate
snapshot_validate_iff s = (
  λ h.
      let version =
        ensure_then (s.version == workspace_snapshot_version)
          (Workspace.unsupported_version s.version) _ tt h in
      let tabs =
        ensure_then (leb (length s.tabs) max_tabs) Workspace.too_many_tabs _ tt version.1 in
      let windows =
        ensure_then (leb (length s.windows) max_windows) Workspace.too_many_windows _ tt tabs.1 in
      let distinct =
        ensure_then (length (id_set s.tabs) == length s.tabs) Workspace.duplicate_tab_ids _ tt
          windows.1 in
      let each = bind_then (tabs_validate (id_set s.tabs) s.tabs) _ tt distinct.1 in
      let active =
        ensure_then (some_in s.active_tab_id (id_set s.tabs)) Workspace.active_missing _ tt
          each.2 in
      let ids = id_set_all s.tabs (ground (arith, distinct.0)) in
      record {
        versioned = ground (arith, version.0);
        few_tabs = ground (arith, tabs.0);
        few_windows = ground (arith, windows.0);
        distinct = ids.1;
        tabs =
            (tabs_validate_iff (known_ids s) s.tabs).0
              (subst (λ ids. tabs_validate ids s.tabs ≡ ok tt) ids.0 each.1);
        active_known = subst (λ ids. some_in s.active_tab_id ids ≡ true) ids.0 active.0;
        windows =
            (windows_validate_iff (known_ids s) s.windows).0
              (subst (λ ids. windows_validate ids s.windows ≡ ok tt) ids.0 active.1);
      },
  λ v.
      let same = id_set_distinct s.tabs v.distinct in
      let version : (s.version == workspace_snapshot_version) ≡ true =
        ground (arith, v.versioned) in
      let tabs : leb (length s.tabs) max_tabs ≡ true = ground (arith, v.few_tabs) in
      let windows : leb (length s.windows) max_windows ≡ true = ground (arith, v.few_windows) in
      let distinct : (length (map tab_id_of s.tabs) == length s.tabs) ≡ true =
        ground (arith, length-map s.tabs tab_id_of) in
      rw
        (
          version,
          tabs,
          windows,
          same,
          distinct,
          (tabs_validate_iff (known_ids s) s.tabs).1 v.tabs,
          v.active_known,
        )
        ((windows_validate_iff (known_ids s) s.windows).1 v.windows),
)
