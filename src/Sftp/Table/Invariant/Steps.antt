-- ===== src/Sftp/Table/Invariant/Steps.antt =====
-- src/app/state/sftp.rs: every history keeps the invariant.
use ax_ssh.Prelude.{ℕ, List, [], ◌∷◌, inl, inr, Option-cases, Bool-cases}
use ax_ssh.Prelude.Keyed.{nat_eq, contains, contains_key}
use ax_ssh.Sftp.Table.{Table, empty, modify, register_discovered_download_intent}
use ax_ssh.Sftp.Transfer.Rules.{
  start-IsLiveStep, progress-IsLiveStep, request_pause-IsLiveStep, pause-IsLiveStep,
  request_resume-IsLiveStep, resume-IsLiveStep, request_cancel-IsLiveStep, defer-IsLiveStep,
}
use ax_ssh.Sftp.Table.Events.{
  Event, step, run, queued_event, started, conflicted, decided, progressed, downloaded, finished,
  pause_requested, paused_event, resume_requested, cancel_requested, removed, resumed, deferred,
  root_reserved, discovery_begun, discovery_finished, discovery_failed, transfer_failed, shown_as,
  selection_toggled, intent_registered, intent_removed, child_discovered, reconnecting, all_cleared,
}
use ax_ssh.Sftp.Table.Invariant.{IsConsistent, Inv, live-IsConsistent, modify-Inv}
use ax_ssh.Sftp.Table.Invariant.Finish.{finish_transfer-Inv, finish_downloaded_transfer-Inv}
use ax_ssh.Sftp.Table.Invariant.Queue.{
  queue_transfer-Inv, record_transfer_failure-Inv, fail_download_root-Inv, finish_download_root-Inv,
  set_transfer_status-Inv, begin_download_discovery-Inv,
}
use ax_ssh.Sftp.Table.Invariant.Select.{
  resolve_upload_conflict-Inv, record_upload_conflict-Inv, toggle_transfer_selection-Inv,
}
use ax_ssh.Sftp.Table.Invariant.Removal.{
  remove_finished_transfer-Inv, prepare_transfers_for_reconnect-Inv,
}
use ax_ssh.Sftp.Table.Modify.{modify-Modified}
use ax_ssh.Sftp.Table.Transitions.{request_transfer_cancel, forget_roots}
use ax_ssh.Sftp.Table.Roots.{reserve_download_root}
use ax_ssh.Sftp.Transfer.{request_cancel}

empty-IsConsistent : IsConsistent [] [] []
unfolding contains
empty-IsConsistent = record { distinct = tt; fits = tt; selection = λ j h. cc; waiting = tt }

request_transfer_cancel-Inv : (id : ℕ) (s : Table) → Inv s → Inv (request_transfer_cancel id s).0
request_transfer_cancel-Inv id s v = elim (Option-cases (modify id request_cancel s.transfers)) [
  | inl refused ↦ unfold request_transfer_cancel in rw (refused, request_transfer_cancel) v
  | inr (ts, changed) ↦
      unfold request_transfer_cancel in
      rw (changed, request_transfer_cancel)
        (live-IsConsistent request_cancel-IsLiveStep
          (modify-Modified id request_cancel s.transfers ts changed) v)
]

child_discovered_same :
    (root_id id : ℕ) (s : Table) → Inv s → Inv (register_discovered_download_intent root_id id s)
unfolding register_discovered_download_intent
child_discovered_same root_id id s v = elim (Bool-cases (contains_key root_id s.transfer_intents)) [
  | inl known ↦ rw (known, register_discovered_download_intent) v
  | inr other ↦ rw (other, register_discovered_download_intent) v
]

root_reserved_same : (id : ℕ) (s : Table) → Inv s → Inv (reserve_download_root id s).0
unfolding reserve_download_root
root_reserved_same id s v = elim (Bool-cases (contains id s.pending_download_roots)) [
  | inl known ↦ rw (known, reserve_download_root) v
  | inr other ↦ rw (other, reserve_download_root) v
]

module _ (rate : ℕ → ℕ → ℕ) where
  -- Every event keeps the transfers, the selection and the conflicts consistent.
  pub step-Inv : (e : Event) (s : Table) → Inv s → Inv (step rate e s)
  unfolding step
  step-Inv (queued_event id name total d l r) s v = queue_transfer-Inv id name total d l r s v
  step-Inv (started id path name total now) s v =
      modify-Inv s id _ (start-IsLiveStep path name total now) v
  step-Inv (conflicted c) s v = record_upload_conflict-Inv c s v
  step-Inv (decided id batch) s v = resolve_upload_conflict-Inv id batch s v
  step-Inv (progressed id bytes total now) s v =
      modify-Inv s id _ (progress-IsLiveStep rate bytes total now) v
  step-Inv (downloaded id total path) s v = finish_downloaded_transfer-Inv id total path s v
  step-Inv (finished id phase text) s v = finish_transfer-Inv id phase text s v
  step-Inv (pause_requested id) s v = modify-Inv s id _ request_pause-IsLiveStep v
  step-Inv (paused_event id) s v = modify-Inv s id _ pause-IsLiveStep v
  step-Inv (resume_requested id) s v = modify-Inv s id _ request_resume-IsLiveStep v
  step-Inv (cancel_requested id) s v = request_transfer_cancel-Inv id s v
  step-Inv (removed id) s v = remove_finished_transfer-Inv id s v
  step-Inv (resumed id bytes total now) s v =
      modify-Inv s id _ (resume-IsLiveStep bytes total now) v
  step-Inv (deferred id reason) s v =
      modify-Inv (forget_roots id s) id _ (defer-IsLiveStep reason) v
  step-Inv (root_reserved id) s v = root_reserved_same id s v
  step-Inv (discovery_begun id name l r) s v = begin_download_discovery-Inv id name l r s v
  step-Inv (discovery_finished id found skips failures stopped text) s v =
      finish_download_root-Inv id found skips failures stopped text s v
  step-Inv (discovery_failed id name text) s v = fail_download_root-Inv id name text s v
  step-Inv (transfer_failed id name text) s v = record_transfer_failure-Inv id name text s v
  step-Inv (shown_as id text) s v = set_transfer_status-Inv id text s v
  step-Inv (selection_toggled id selected) s v = toggle_transfer_selection-Inv id selected s v
  step-Inv (intent_registered id intent) s v = v
  step-Inv (intent_removed id) s v = v
  step-Inv (child_discovered root_id id) s v = child_discovered_same root_id id s v
  step-Inv reconnecting s v = prepare_transfers_for_reconnect-Inv s v
  step-Inv all_cleared s v = empty-IsConsistent

  pub run-Inv : (es : List Event) (s : Table) → Inv s → Inv (run rate es s)
  unfolding run
  run-Inv [] s v = v
  run-Inv (e ∷ es) s v = run-Inv es (step rate e s) (step-Inv e s v)

  -- After any history of a new Tab each id names one transfer, each transfer is in a phase of its
  -- direction, only transfers in progress are selected, and only uploads in progress wait for a
  -- decision on a conflict.
  pub run-empty-Inv : (es : List Event) → Inv (run rate es empty)
  run-empty-Inv es = run-Inv es empty empty-IsConsistent
