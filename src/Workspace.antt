-- ===== src/Workspace.antt =====
-- src/config/workspace.rs: the saved workspace, with its Tabs, windows and pane trees, and the checks
-- it has to pass before it is restored.
pub mod Panes
pub mod Windows
pub mod Valid
use ax_ssh.Prelude.{
  ℕ, Bool, true, false, not, ◌&&◌, ◌||◌, Option, none, some, List, [], ◌∷◌, ◌++◌, ◌+◌, suc, ◌==◌,
  ltb, leb, length, if◌then◌else◌,
}
use ax_ssh.Prelude.Int.{ℤ, pos, negsuc}
use ax_ssh.Prelude.Bytes.{Text, is_control, any_control}
use ax_ssh.Prelude.Keyed.{Eq, nat_eq, string_eq, contains, insert}
use ax_ssh.Prelude.Results.{Result, ok, err, ◌>>=◌}
use Prim.Native.String.{String}

abbrev pub workspace_snapshot_version : ℕ
workspace_snapshot_version = 1

abbrev pub max_tabs : ℕ
max_tabs = 256

abbrev pub max_windows : ℕ
max_windows = 32

abbrev pub max_panes : ℕ
max_panes = 8

abbrev pub max_text_bytes : ℕ
max_text_bytes = 262144

abbrev pub max_path_bytes : ℕ
max_path_bytes = 4096

abbrev pub max_title_bytes : ℕ
max_title_bytes = 512

abbrev pub max_status_bytes : ℕ
max_status_bytes = 2048

pub record WorkspaceTabSnapshot : Type 0 where
  pub id : ℕ
  pub title : Text
  pub kind : Text
  pub profile_id : Option ℕ
  pub companion_tab_id : Option ℕ
  pub terminal_text : Text
  pub sftp_remote_path : Text
  pub sftp_local_path : Text
  pub status : Text

pub record WindowPlacement : Type 0 where
  pub width : ℕ
  pub height : ℕ
  pub position : Option (ℤ × ℤ)
  pub maximized : Bool

pub data PaneNodeSnapshot : Type 0 where
  leaf : ℕ → PaneNodeSnapshot
  -- The axis, the ratio in thousandths, and the two sides.
  split : String → ℕ → PaneNodeSnapshot → PaneNodeSnapshot → PaneNodeSnapshot

pub record WorkspaceWindowSnapshot : Type 0 where
  pub id : ℕ
  pub tab_ids : List ℕ
  pub active_tab_id : Option ℕ
  pub focused_tab_id : Option ℕ
  pub panes : List PaneNodeSnapshot
  pub placement : Option WindowPlacement

pub record WorkspaceSnapshot : Type 0 where
  pub version : ℕ
  pub tabs : List WorkspaceTabSnapshot
  pub active_tab_id : Option ℕ
  pub windows : List WorkspaceWindowSnapshot

pub data TextLabel : Type 0 where
  tab_title terminal_text_label remote_path local_path tab_status : TextLabel

-- The messages of `bail!`.
pub data SnapshotError : Type 0 where
  unsupported_version : ℕ → SnapshotError
  too_many_tabs too_many_windows duplicate_tab_ids : SnapshotError
  text_too_long control_characters : TextLabel → SnapshotError
  companion_missing active_missing : SnapshotError
  bad_window_size bad_window_position : SnapshotError
  window_too_many_tabs window_unknown_tab window_active_hidden window_focused_hidden : SnapshotError
  pane_too_deep pane_unknown_tab pane_axis_invalid pane_ratio_invalid pane_count_exceeded
        pane_duplicate_or_hidden :
      SnapshotError

-- `anyhow::Result`, with these messages.
abbrev pub Checked : Type 0 → Type 0
Checked A = Result SnapshotError A

-- `bail!` unless the condition holds.
abbrev pub ensure : Bool → SnapshotError → Checked Unit
ensure true e = ok tt
ensure false e = err e

-- `char::len_utf8`.
abbrev pub len_utf8 : ℕ → ℕ
len_utf8 c = if ltb c 128 then 1 else if ltb c 2048 then 2 else if ltb c 65536 then 3 else 4

-- `str::len`.
unfoldable pub byte_len : Text → ℕ
byte_len [] = 0
byte_len (c ∷ t) = len_utf8 c + byte_len t

unfoldable pub validate_text : Text → ℕ → TextLabel → Bool → Checked Unit
unfolding byte_len any_control
validate_text value max_bytes label reject_controls =
    ensure (leb (byte_len value) max_bytes) (text_too_long label) >>= λ _.
    ensure (not (reject_controls && any_control value)) (control_characters label)

abbrev pub unsigned_abs : ℤ → ℕ
unsigned_abs (pos n) = n
unsigned_abs (negsuc n) = suc n

abbrev pub in_size : ℕ → Bool
in_size n = leb 1 n && leb n 32768

abbrev pub position_in : Option (ℤ × ℤ) → Bool
position_in none = true
position_in (some (x, y)) = not (ltb 1000000 (unsigned_abs x) || ltb 1000000 (unsigned_abs y))

-- `WindowPlacement::validate`.
unfoldable pub placement_validate : WindowPlacement → Checked Unit
placement_validate p =
    ensure (not (not (in_size p.width) || not (in_size p.height))) bad_window_size >>= λ _.
    ensure (position_in p.position) bad_window_position

abbrev pub is_axis : String → Bool
is_axis axis = not (not (string_eq.beq axis "columns") && not (string_eq.beq axis "rows"))

-- `PaneNodeSnapshot::validate`: the number of panes, and `pane_ids` with those of the node pushed.
unfoldable pub pane_validate : List ℕ → ℕ → PaneNodeSnapshot → List ℕ → Checked (ℕ × List ℕ)
pane_validate ids depth (leaf id) pane_ids = ensure (leb depth max_panes) pane_too_deep >>= λ _.
    ensure (contains id ids) pane_unknown_tab >>= λ _. ok (1, pane_ids ++ (id ∷ []))
pane_validate ids depth (split axis ratio_milli first second) pane_ids =
    ensure (leb depth max_panes) pane_too_deep >>= λ _.
    ensure (is_axis axis) pane_axis_invalid >>= λ _.
    ensure (leb 100 ratio_milli && leb ratio_milli 900) pane_ratio_invalid >>= λ _.
    pane_validate ids (suc depth) first pane_ids >>= λ r.
    pane_validate ids (suc depth) second r.1 >>= λ s.
    ensure (leb (r.0 + s.0) max_panes) pane_count_exceeded >>= λ _. ok (r.0 + s.0, s.1)

-- A Tab that stands twice or is not in the window.
unfoldable pub duplicate_or_hidden : List ℕ → List ℕ → List ℕ → Bool
duplicate_or_hidden tab_ids seen [] = false
duplicate_or_hidden tab_ids seen (id ∷ pane_ids) =
    contains id seen
    || not (contains id tab_ids)
    || duplicate_or_hidden tab_ids (insert id seen) pane_ids

unfoldable pub panes_validate : List ℕ → List ℕ → List PaneNodeSnapshot → Checked Unit
unfolding pane_validate duplicate_or_hidden
panes_validate ids tab_ids [] = ok tt
panes_validate ids tab_ids (pane ∷ panes) = pane_validate ids 0 pane [] >>= λ r.
    ensure (not (duplicate_or_hidden tab_ids [] r.1)) pane_duplicate_or_hidden >>= λ _.
    panes_validate ids tab_ids panes

-- The number, if there is one, is in the list.
abbrev pub some_in : Option ℕ → List ℕ → Bool
some_in none ids = true
some_in (some id) ids = contains id ids

abbrev pub placement_checked : Option WindowPlacement → Checked Unit
placement_checked none = ok tt
placement_checked (some p) = placement_validate p

-- `all`, of the Tabs that the window names.
unfoldable pub all_in : List ℕ → List ℕ → Bool
all_in ids [] = true
all_in ids (id ∷ tab_ids) = contains id ids && all_in ids tab_ids

unfoldable pub window_validate : List ℕ → WorkspaceWindowSnapshot → Checked Unit
unfolding placement_validate panes_validate all_in
window_validate ids w = placement_checked w.placement >>= λ _.
    ensure (leb (length w.tab_ids) max_tabs) window_too_many_tabs >>= λ _.
    ensure (all_in ids w.tab_ids) window_unknown_tab >>= λ _.
    ensure (some_in w.active_tab_id w.tab_ids) window_active_hidden >>= λ _.
    ensure (some_in w.focused_tab_id w.tab_ids) window_focused_hidden >>= λ _.
    panes_validate ids w.tab_ids w.panes

unfoldable pub windows_validate : List ℕ → List WorkspaceWindowSnapshot → Checked Unit
unfolding window_validate
windows_validate ids [] = ok tt
windows_validate ids (w ∷ ws) = window_validate ids w >>= λ _. windows_validate ids ws

unfoldable pub tab_validate : List ℕ → WorkspaceTabSnapshot → Checked Unit
unfolding validate_text
tab_validate ids tab = validate_text tab.title max_title_bytes tab_title true >>= λ _.
    validate_text tab.terminal_text max_text_bytes terminal_text_label false >>= λ _.
    validate_text tab.sftp_remote_path max_path_bytes remote_path true >>= λ _.
    validate_text tab.sftp_local_path max_path_bytes local_path true >>= λ _.
    validate_text tab.status max_status_bytes tab_status true >>= λ _.
    ensure (some_in tab.companion_tab_id ids) companion_missing

unfoldable pub tabs_validate : List ℕ → List WorkspaceTabSnapshot → Checked Unit
unfolding tab_validate
tabs_validate ids [] = ok tt
tabs_validate ids (tab ∷ tabs) = tab_validate ids tab >>= λ _. tabs_validate ids tabs

-- The Tabs of the snapshot, collected into a `HashSet`.
unfoldable pub id_set : List WorkspaceTabSnapshot → List ℕ
unfolding insert
id_set [] = []
id_set (tab ∷ tabs) = insert tab.id (id_set tabs)

-- `WorkspaceSnapshot::validate`.
unfoldable pub snapshot_validate : WorkspaceSnapshot → Checked Unit
unfolding tabs_validate windows_validate id_set
snapshot_validate s =
    let ids = id_set s.tabs in
    ensure (s.version == workspace_snapshot_version) (unsupported_version s.version) >>= λ _.
    ensure (leb (length s.tabs) max_tabs) too_many_tabs >>= λ _.
    ensure (leb (length s.windows) max_windows) too_many_windows >>= λ _.
    ensure (length ids == length s.tabs) duplicate_tab_ids >>= λ _.
    tabs_validate ids s.tabs >>= λ _.
    ensure (some_in s.active_tab_id ids) active_missing >>= λ _. windows_validate ids s.windows
