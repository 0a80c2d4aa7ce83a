-- ===== src/Sftp/Table/Finality.antt =====
-- src/app/state/sftp.rs: the events that leave an ended transfer as it is, whatever its id.
use Prim.Native.String.{String}
use ax_ssh.Prelude.{ℕ, ◌≢◌, Bool, inl, inr, Option, List, [], ◌∷◌, Bool-cases, arith}
use ax_ssh.Prelude.Keyed.{nat_eq, contains, contains_key}
use ax_ssh.Sftp.Transfer.{Transfer}
use ax_ssh.Sftp.Table.{Table, register_discovered_download_intent}
use ax_ssh.Sftp.Transfer.Rules.{
  start-IsLiveStep, progress-IsLiveStep, request_pause-IsLiveStep, pause-IsLiveStep,
  request_resume-IsLiveStep, resume-IsLiveStep, start-IsForActive, progress-IsForActive,
  request_pause-IsForActive, pause-IsForActive, request_resume-IsForActive, resume-IsForActive,
}
use ax_ssh.Sftp.Table.Events.{
  Event, step, run, queued_event, started, conflicted, decided, progressed, downloaded, finished,
  pause_requested, paused_event, resume_requested, cancel_requested, removed, resumed, deferred,
  root_reserved, discovery_begun, discovery_finished, discovery_failed, transfer_failed, shown_as,
  selection_toggled, intent_registered, intent_removed, child_discovered, reconnecting, all_cleared,
}
use ax_ssh.Sftp.Table.Frozen.{
  Ended, modify-Ended, finish_transfer-Ended, finish_downloaded_transfer-Ended,
  queue_transfer-Ended, record_transfer_failure-Ended, resolve_upload_conflict-Ended,
  record_upload_conflict-Ended, request_transfer_cancel-Ended,
  prepare_transfers_for_reconnect-Ended, remove_finished_transfer-Ended,
}
use ax_ssh.Sftp.Table.Roots.{finish_download_root, reserve_download_root}
use ax_ssh.Sftp.Table.Selection.{toggle_transfer_selection}

-- The events that may change an ended transfer, or take it away: its removal, the clearing of the
-- Tab, and those that write a status or a failure over whatever transfer has the id.
abbrev pub Spares : ℕ → Event → Type 0
Spares id (removed j) = j ≢ id
Spares id (deferred j reason) = ⊥
Spares id (discovery_begun j name l r) = ⊥
Spares id (shown_as j text) = ⊥
Spares id all_cleared = ⊥
Spares id _ = Unit

abbrev pub SparesAll : ℕ → List Event → Type 0
SparesAll id [] = Unit
SparesAll id (e ∷ es) = Spares id e × SparesAll id es

root_reserved-Ended :
    (id : ℕ) (t : Transfer) (j : ℕ) (s : Table)
    → Ended id t s.transfers
    → Ended id t (reserve_download_root j s).0.transfers
unfolding reserve_download_root
root_reserved-Ended id t j s e = elim (Bool-cases (contains j s.pending_download_roots)) [
  | inl known ↦ rw (known, reserve_download_root) e
  | inr other ↦ rw (other, reserve_download_root) e
]

finish_download_root-Ended :
    (id : ℕ) (t : Transfer) (j found skips failures : ℕ) (stopped : Bool) (text : Option String)
    (s : Table)
    → Ended id t s.transfers
    → Ended id t (finish_download_root j found skips failures stopped text s).transfers
unfolding finish_download_root
finish_download_root-Ended id t j found skips failures stopped text s e =
    elim (Bool-cases (contains j s.scanning_download_roots)) [
      | inl scanning ↦ rw (scanning, finish_download_root) (finish_transfer-Ended id t j _ _ _ e)
      | inr other ↦ rw (other, finish_download_root) e
    ]

child_discovered-Ended :
    (id : ℕ) (t : Transfer) (root_id j : ℕ) (s : Table)
    → Ended id t s.transfers
    → Ended id t (register_discovered_download_intent root_id j s).transfers
unfolding register_discovered_download_intent
child_discovered-Ended id t root_id j s e =
    elim (Bool-cases (contains_key root_id s.transfer_intents)) [
      | inl known ↦ rw (known, register_discovered_download_intent) e
      | inr other ↦ rw (other, register_discovered_download_intent) e
    ]

module _ (rate : ℕ → ℕ → ℕ) (id : ℕ) (t : Transfer) where
  pub step-Ended :
      (e : Event) (s : Table)
      → Spares id e
      → Ended id t s.transfers
      → Ended id t (step rate e s).transfers
  unfolding step
  step-Ended (queued_event j name total d l r) s h e =
      queue_transfer-Ended id t j name total d l r s e
  step-Ended (started j path name total now) s h e =
      modify-Ended id t j _ s (start-IsLiveStep path name total now).same_id
        (start-IsForActive path name total now) e
  step-Ended (conflicted c) s h e = record_upload_conflict-Ended id t c s e
  step-Ended (decided j batch) s h e = resolve_upload_conflict-Ended id t j batch s e
  step-Ended (progressed j bytes total now) s h e =
      modify-Ended id t j _ s (progress-IsLiveStep rate bytes total now).same_id
        (progress-IsForActive rate bytes total now) e
  step-Ended (downloaded j total path) s h e =
      finish_downloaded_transfer-Ended id t j total path s e
  step-Ended (finished j phase text) s h e = finish_transfer-Ended id t j phase text s e
  step-Ended (pause_requested j) s h e =
      modify-Ended id t j _ s request_pause-IsLiveStep.same_id request_pause-IsForActive e
  step-Ended (paused_event j) s h e =
      modify-Ended id t j _ s pause-IsLiveStep.same_id pause-IsForActive e
  step-Ended (resume_requested j) s h e =
      modify-Ended id t j _ s request_resume-IsLiveStep.same_id request_resume-IsForActive e
  step-Ended (cancel_requested j) s h e = request_transfer_cancel-Ended id t j s e
  step-Ended (removed j) s h e = remove_finished_transfer-Ended id t j s h e
  step-Ended (resumed j bytes total now) s h e =
      modify-Ended id t j _ s (resume-IsLiveStep bytes total now).same_id
        (resume-IsForActive bytes total now) e
  step-Ended (deferred j reason) s h e = absurd h
  step-Ended (root_reserved j) s h e = root_reserved-Ended id t j s e
  step-Ended (discovery_begun j name l r) s h e = absurd h
  step-Ended (discovery_finished j found skips failures stopped text) s h e =
      finish_download_root-Ended id t j found skips failures stopped text s e
  step-Ended (discovery_failed j name text) s h e =
      record_transfer_failure-Ended id t j name text _ e
  step-Ended (transfer_failed j name text) s h e =
      record_transfer_failure-Ended id t j name text s e
  step-Ended (shown_as j text) s h e = absurd h
  step-Ended (selection_toggled j selected) s h e = unfold toggle_transfer_selection in ground arith
  step-Ended (intent_registered j intent) s h e = e
  step-Ended (intent_removed j) s h e = e
  step-Ended (child_discovered root_id j) s h e = child_discovered-Ended id t root_id j s e
  step-Ended reconnecting s h e = prepare_transfers_for_reconnect-Ended id t s e
  step-Ended all_cleared s h e = absurd h

  -- A transfer that has ended (completed, cancelled, failed or skipped) stays as it is, field by
  -- field, through every history of events but its removal, the clearing of the Tab, a recoverable
  -- failure, and the start of a directory scan or a status of such a scan.
  pub run-Ended :
      (es : List Event) (s : Table)
      → SparesAll id es
      → Ended id t s.transfers
      → Ended id t (run rate es s).transfers
  unfolding run
  run-Ended [] s h e = e
  run-Ended (x ∷ es) s h e = run-Ended es (step rate x s) h.1 (step-Ended x s h.0 e)
