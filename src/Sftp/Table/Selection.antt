-- ===== src/Sftp/Table/Selection.antt =====
-- src/app/state/sftp.rs: what `SftpBrowserState` answers of its transfers, the removal of a finished
-- one, the selection, and what is kept across a reconnection.
use ax_ssh.Prelude.{
  ℕ, Bool, true, false, not, ◌&&◌, ◌||◌, Option, none, some, List, [], ◌∷◌, ◌==◌, if◌then◌else◌,
  length,
}
use ax_ssh.Prelude.Keyed.{nat_eq, contains, insert, remove, retain, contains_key}
use ax_ssh.Prelude.Words.{wrapping_succ}
use ax_ssh.Sftp.Phase.{Phase, active, can_request_cancel, is_downloading, is_paused}
use ax_ssh.Sftp.Transfer.{Transfer, wait_for_reconnection}
use ax_ssh.Sftp.Table.{
  Intent, download_root, download_file, upload_file, Table, find, any_active, any_if,
}

-- `find(…).is_some_and(|transfer| transfer.phase.can_request_cancel())`.
unfoldable pub transfer_is_cancellable : ℕ → Table → Bool
unfolding find can_request_cancel
transfer_is_cancellable id s = elim (find id s.transfers) [
  | none ↦ false
  | some t ↦ can_request_cancel t.phase
]

unfoldable pub transfer_is_pausable : ℕ → Table → Bool
unfolding find is_downloading
transfer_is_pausable id s = elim (find id s.transfers) [
  | none ↦ false
  | some t ↦ t.pausable && is_downloading t.phase
]

unfoldable pub transfer_is_resumable : ℕ → Table → Bool
unfolding find is_paused
transfer_is_resumable id s = elim (find id s.transfers) [
  | none ↦ false
  | some t ↦ t.pausable && is_paused t.phase
]

-- The transfers without the first finished one of the id; `none` where there is none.
unfoldable pub remove_finished : ℕ → List Transfer → Option (List Transfer)
unfolding active
remove_finished id [] = none
remove_finished id (t ∷ ts) =
    let rest = remove_finished id ts in
    if t.id == id && not (active t.phase)
    then some ts
    else (elim rest [ none ↦ none | some ts' ↦ some (t ∷ ts') ])

unfoldable pub remove_finished_transfer : ℕ → Table → Table × Bool
unfolding remove_finished remove
remove_finished_transfer id s = elim (remove_finished id s.transfers) [
  | none ↦ (s, false)
  | some ts ↦
      (record s { transfers = ts; selected_transfers = remove id s.selected_transfers }, true)
]

unfoldable pub toggle_transfer_selection : ℕ → Bool → Table → Table × Bool
unfolding any_if active insert remove
toggle_transfer_selection id selected s = if not (any_active id s.transfers) then (s, false) else (
  record s {
    selected_transfers =
        if selected then insert id s.selected_transfers else remove id s.selected_transfers;
  },
  true,
)

-- `selected_transfer_ids`, over the transfers and the selection.
unfoldable pub selected_ids : (Phase → Bool) → List ℕ → List Transfer → List ℕ
unfolding contains
selected_ids predicate selected [] = []
selected_ids predicate selected (t ∷ ts) =
    if contains t.id selected && predicate t.phase
    then t.id ∷ selected_ids predicate selected ts
    else selected_ids predicate selected ts

unfoldable pub selected_transfer_ids : (Phase → Bool) → Table → List ℕ
unfolding selected_ids
selected_transfer_ids predicate s = selected_ids predicate s.selected_transfers s.transfers

-- The intents that `prepare_for_reconnect` keeps.
unfoldable pub replays : ℕ → Intent → Bool
replays id (download_root root) = true
replays id (download_file file) = file.replay_on_reconnect
replays id (upload_file up) = true

unfoldable pub keep_known : List (ℕ × Intent) → List ℕ → List ℕ
unfolding contains_key
keep_known intents [] = []
keep_known intents (id ∷ order) =
    if contains_key id intents then id ∷ keep_known intents order else keep_known intents order

unfoldable pub requeue_active : List (ℕ × Intent) → List Transfer → List Transfer
unfolding contains_key active wait_for_reconnection
requeue_active intents [] = []
requeue_active intents (t ∷ ts) =
    if not (active t.phase) || contains_key t.id intents
    then wait_for_reconnection t ∷ requeue_active intents ts
    else requeue_active intents ts

-- The roots to scan again, and those of them that are directories.
unfoldable pub root_ids : List (ℕ × Intent) → List ℕ
unfolding insert
root_ids [] = []
root_ids ((k, download_root root) ∷ m) = insert root.transfer_id (root_ids m)
root_ids ((k, download_file file) ∷ m) = root_ids m
root_ids ((k, upload_file up) ∷ m) = root_ids m

unfoldable pub directory_root_ids : List (ℕ × Intent) → List ℕ
unfolding insert
directory_root_ids [] = []
directory_root_ids ((k, download_root root) ∷ m) =
    if root.expected_directory
    then insert root.transfer_id (directory_root_ids m)
    else directory_root_ids m
directory_root_ids ((k, download_file file) ∷ m) = directory_root_ids m
directory_root_ids ((k, upload_file up) ∷ m) = directory_root_ids m

-- `prepare_for_reconnect`, as far as the transfers go.
unfoldable pub prepare_transfers_for_reconnect : Table → Table
unfolding retain replays keep_known requeue_active root_ids directory_root_ids wrapping_succ
prepare_transfers_for_reconnect s =
    let kept = retain replays s.transfer_intents in
    record s {
      upload_conflicts = [];
      selected_transfers = [];
      reconnect_replay_pending = true;
      transfer_intents = kept;
      transfer_intent_order = keep_known kept s.transfer_intent_order;
      transfer_intent_revision =
          if length kept == length s.transfer_intents
          then s.transfer_intent_revision
          else wrapping_succ s.transfer_intent_revision;
      transfers = requeue_active kept s.transfers;
      pending_download_roots = root_ids kept;
      scanning_download_roots = directory_root_ids kept;
    }
