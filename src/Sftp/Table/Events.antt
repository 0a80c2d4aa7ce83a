-- ===== src/Sftp/Table/Events.antt =====
-- src/app/state/sftp.rs, as src/app/connection_monitor.rs and the user's commands call it: every
-- method that changes the transfers of a Tab is an event, and a history is a list of events.
use Prim.Native.String.{String}
use ax_ssh.Prelude.{ℕ, Bool, Option, List, [], ◌∷◌}
use ax_ssh.Sftp.Phase.{Direction, Phase}
use ax_ssh.Sftp.Transfer.{Status}
use ax_ssh.Sftp.Table.{
  Conflict, Intent, Table, register_intent, remove_transfer_intent,
  register_discovered_download_intent, clear_transfer_intents,
}
use ax_ssh.Sftp.Table.Transitions.{
  queue_transfer, start_transfer, update_transfer_progress, finish_downloaded_transfer,
  finish_transfer, request_transfer_pause, pause_transfer, request_transfer_resume, resume_transfer,
  request_transfer_cancel, defer_recoverable_failure,
}
use ax_ssh.Sftp.Table.Conflicts.{record_upload_conflict, resolve_upload_conflict}
use ax_ssh.Sftp.Table.Roots.{
  set_transfer_status, reserve_download_root, begin_download_discovery, record_transfer_failure,
  fail_download_root, finish_download_root,
}
use ax_ssh.Sftp.Table.Selection.{
  remove_finished_transfer, toggle_transfer_selection, prepare_transfers_for_reconnect,
}

pub data Event : Type 0 where
  queued_event : ℕ → String → ℕ → Direction → Option String → Option String → Event
  started : ℕ → String → String → ℕ → ℕ → Event
  conflicted : Conflict → Event
  decided : ℕ → Bool → Event
  progressed : ℕ → ℕ → ℕ → ℕ → Event
  downloaded : ℕ → ℕ → String → Event
  finished : ℕ → Phase → Status → Event
  pause_requested paused_event resume_requested cancel_requested removed : ℕ → Event
  resumed : ℕ → ℕ → ℕ → ℕ → Event
  deferred : ℕ → String → Event
  root_reserved : ℕ → Event
  discovery_begun : ℕ → String → String → String → Event
  discovery_finished : ℕ → ℕ → ℕ → ℕ → Bool → Option String → Event
  discovery_failed transfer_failed : ℕ → String → String → Event
  shown_as : ℕ → Status → Event
  selection_toggled : ℕ → Bool → Event
  intent_registered : ℕ → Intent → Event
  intent_removed : ℕ → Event
  child_discovered : ℕ → ℕ → Event
  reconnecting all_cleared : Event

-- The rate of floating-point arithmetic is a parameter.
module _ (rate : ℕ → ℕ → ℕ) where
  unfoldable pub step : Event → Table → Table
  unfolding register_intent remove_transfer_intent register_discovered_download_intent
      clear_transfer_intents queue_transfer start_transfer update_transfer_progress
      finish_downloaded_transfer finish_transfer request_transfer_pause pause_transfer
      request_transfer_resume resume_transfer request_transfer_cancel defer_recoverable_failure
      record_upload_conflict resolve_upload_conflict set_transfer_status reserve_download_root
      begin_download_discovery record_transfer_failure fail_download_root finish_download_root
      remove_finished_transfer toggle_transfer_selection prepare_transfers_for_reconnect
  step (queued_event id name total d l r) s = queue_transfer id name total d l r s
  step (started id path name total now) s = start_transfer id path name total now s
  step (conflicted c) s = record_upload_conflict c s
  step (decided id batch) s = resolve_upload_conflict id batch s
  step (progressed id bytes total now) s = update_transfer_progress rate id bytes total now s
  step (downloaded id total path) s = (finish_downloaded_transfer id total path s).0
  step (finished id phase text) s = finish_transfer id phase text s
  step (pause_requested id) s = (request_transfer_pause id s).0
  step (paused_event id) s = (pause_transfer id s).0
  step (resume_requested id) s = (request_transfer_resume id s).0
  step (cancel_requested id) s = (request_transfer_cancel id s).0
  step (removed id) s = (remove_finished_transfer id s).0
  step (resumed id bytes total now) s = (resume_transfer id bytes total now s).0
  step (deferred id reason) s = defer_recoverable_failure id reason s
  step (root_reserved id) s = (reserve_download_root id s).0
  step (discovery_begun id name l r) s = begin_download_discovery id name l r s
  step (discovery_finished id found skips failures stopped text) s =
      finish_download_root id found skips failures stopped text s
  step (discovery_failed id name text) s = fail_download_root id name text s
  step (transfer_failed id name text) s = record_transfer_failure id name text s
  step (shown_as id text) s = set_transfer_status id text s
  step (selection_toggled id selected) s = (toggle_transfer_selection id selected s).0
  step (intent_registered id intent) s = register_intent id intent s
  step (intent_removed id) s = remove_transfer_intent id s
  step (child_discovered root_id id) s = register_discovered_download_intent root_id id s
  step reconnecting s = prepare_transfers_for_reconnect s
  step all_cleared s = clear_transfer_intents s

  unfoldable pub run : List Event → Table → Table
  unfolding step
  run [] s = s
  run (e ∷ es) s = run es (step e s)
