-- ===== src/Sftp/Table/Transitions.antt =====
-- src/app/state/sftp.rs: the methods of `SftpBrowserState` that start, pause, resume, resolve and
-- finish transfers. A method that returns `bool` is a pair of the new state and the result.
use Prim.Native.String.{String}
use ax_ssh.Prelude.{ℕ, Bool, true, false, Option, none, some, List, [], ◌∷◌, ◌++◌, if◌then◌else◌}
use ax_ssh.Prelude.Keyed.{nat_eq, remove}
use ax_ssh.Sftp.Phase.{active, Direction, Phase, is_completed}
use ax_ssh.Sftp.Transfer.{
  Transfer, Status, new_transfer, requeue, start, progress, finish_download, finish, request_pause,
  pause, request_resume, resume, request_cancel, defer,
}
use ax_ssh.Sftp.Table.{
  Table, find, any_active, any_if, modify, drop_conflicts, remove_transfer_intent,
  mark_directory_child_completed,
}

-- The state with the transfers that `modify` gives, or as it was.
abbrev pub with_transfers : Table → Option (List Transfer) → Table
with_transfers s none = s
with_transfers s (some ts) = record s { transfers = ts }

abbrev pub is_some {ℓ} : {A : Type ℓ} → Option A → Bool
is_some none = false
is_some (some a) = true

abbrev pub updated : Table → Option (List Transfer) → Table × Bool
updated s o = (with_transfers s o, is_some o)

-- `queue_transfer_with_pause`, and `queue_transfer`, `queue_upload_transfer` and
-- `queue_transfer_event`, which pass their arguments on to it.
unfoldable pub queue_transfer :
    ℕ → String → ℕ → Direction → Option String → Option String → Table → Table
unfolding drop_conflicts find modify requeue new_transfer
queue_transfer id name total_bytes direction local_path remote_path s =
    let s' = record s { upload_conflicts = drop_conflicts id s.upload_conflicts } in
    elim (find id s.transfers) [
      | none ↦ record s' {
        transfers =
            s.transfers ++ (new_transfer id name total_bytes direction local_path remote_path ∷ []);
      }
      | some _ ↦
          with_transfers s'
            (modify id (requeue name total_bytes local_path remote_path) s.transfers)
    ]

unfoldable pub start_transfer : ℕ → String → String → ℕ → ℕ → Table → Table
unfolding modify start
start_transfer id remote_path name total_bytes now s =
    with_transfers s (modify id (start remote_path name total_bytes now) s.transfers)

unfoldable pub update_transfer_progress : (ℕ → ℕ → ℕ) → ℕ → ℕ → ℕ → ℕ → Table → Table
unfolding modify progress
update_transfer_progress rate id downloaded_bytes total_bytes now s =
    with_transfers s (modify id (progress rate downloaded_bytes total_bytes now) s.transfers)

unfoldable pub finish_downloaded_transfer : ℕ → ℕ → String → Table → Table × Bool
unfolding modify finish_download mark_directory_child_completed remove remove_transfer_intent
finish_downloaded_transfer id total_bytes local_path s =
    elim (modify id (finish_download total_bytes local_path) s.transfers) [
      | none ↦ (s, false)
      | some ts ↦
          (let marked = mark_directory_child_completed id (record s { transfers = ts }) in
            let s' = record marked { selected_transfers = remove id marked.selected_transfers } in
            (remove_transfer_intent id s', true))
    ]

-- What `finish_transfer` does first, whether or not it goes on.
unfoldable pub forget_waiting : ℕ → Table → Table
unfolding remove drop_conflicts
forget_waiting id s = record s {
  pending_download_roots = remove id s.pending_download_roots;
  scanning_download_roots = remove id s.scanning_download_roots;
  upload_conflicts = drop_conflicts id s.upload_conflicts;
}

-- And what it does last.
unfoldable pub release_finished : ℕ → Table → Table
unfolding any_if active remove remove_transfer_intent
release_finished id s =
    if any_active id s.transfers
    then s
    else remove_transfer_intent id
        (record s { selected_transfers = remove id s.selected_transfers })

unfoldable pub finish_transfer : ℕ → Phase → Status → Table → Table
unfolding forget_waiting modify finish is_completed mark_directory_child_completed release_finished
finish_transfer id phase text s =
    let s' = forget_waiting id s in
    elim (modify id (finish phase text) s'.transfers) [
      | none ↦ s'
      | some ts ↦
          (let moved = record s' { transfers = ts } in
            release_finished id
              (if is_completed phase then mark_directory_child_completed id moved else moved))
    ]

unfoldable pub request_transfer_pause : ℕ → Table → Table × Bool
unfolding modify request_pause
request_transfer_pause id s = updated s (modify id request_pause s.transfers)

unfoldable pub pause_transfer : ℕ → Table → Table × Bool
unfolding modify pause
pause_transfer id s = updated s (modify id pause s.transfers)

unfoldable pub request_transfer_resume : ℕ → Table → Table × Bool
unfolding modify request_resume
request_transfer_resume id s = updated s (modify id request_resume s.transfers)

unfoldable pub resume_transfer : ℕ → ℕ → ℕ → ℕ → Table → Table × Bool
unfolding modify resume
resume_transfer id downloaded_bytes total_bytes now s =
    updated s (modify id (resume downloaded_bytes total_bytes now) s.transfers)

unfoldable pub request_transfer_cancel : ℕ → Table → Table × Bool
unfolding modify request_cancel remove_transfer_intent
request_transfer_cancel id s = elim (modify id request_cancel s.transfers) [
  | none ↦ (s, false)
  | some ts ↦ (remove_transfer_intent id (record s { transfers = ts }), true)
]

-- `pending_download_roots.remove(&id); scanning_download_roots.remove(&id)`.
abbrev pub forget_roots : ℕ → Table → Table
forget_roots id s = record s {
  pending_download_roots = remove id s.pending_download_roots;
  scanning_download_roots = remove id s.scanning_download_roots;
}

unfoldable pub defer_recoverable_failure : ℕ → String → Table → Table
unfolding remove modify defer
defer_recoverable_failure id text s =
    with_transfers (forget_roots id s) (modify id (defer text) s.transfers)
