-- ===== src/Sftp/Transfer.antt =====
-- src/app/state/sftp.rs: one transfer, and what each operation does to the transfer that it finds.
-- `none` is the operation's refusal, which leaves the transfer as it is.
pub mod Rules
use Prim.Native.String.{String}
use text.Mathlib.Text.{◌==◌ as str_eq}
use ax_ssh.Prelude.{
  ℕ, ◌-◌, Bool, not, ◌&&◌, ◌||◌, Option, none, some, List, min, ltb, ◌==◌, if◌then◌else◌,
}
use ax_ssh.Sftp.Phase.{
  Direction, download, upload, Phase, queued, awaiting_conflict, pausing, paused, resuming,
  cancelling, completed, active, can_request_cancel, active_phase, is_active_phase, is_queued,
  is_downloading, is_pausing, is_paused, is_resuming, is_awaiting_conflict, is_uploading,
  is_completed, is_upload, allowed,
}

-- One part of the text that ends a directory scan.
pub data Detail : Type 0 where
  cancelled_scan no_regular_files : Detail
  scanned_files failed_files skipped_entries : ℕ → Detail
  message : String → Detail

-- The text shown for a transfer, before it is formatted.
pub data Status : Type 0 where
  status : String → Status
  -- A percentage of the bytes transferred in the total.
  percentage : ℕ → ℕ → Status
  waiting_for_reconnection : String → Status
  scan_details : List Detail → Status

pub record Transfer : Type 0 where
  pub id : ℕ
  pub name : String
  pub direction : Direction
  pub phase : Phase
  pub pausable : Bool
  pub downloaded_bytes : ℕ
  pub total_bytes : ℕ
  pub bytes_per_second : ℕ
  pub started_at : Option ℕ
  pub shown : Status
  pub local_path : Option String
  pub remote_path : Option String

-- `SftpTransferDirection::active_status`.
unfoldable pub active_status : Direction → Status
active_status download = status "Downloading"
active_status upload = status "Uploading"

-- The transfer that `queue_transfer_with_pause` appends.
unfoldable pub new_transfer : ℕ → String → ℕ → Direction → Option String → Option String → Transfer
unfolding is_upload
new_transfer id name total_bytes direction local_path remote_path = record {
  id = id;
  name = name;
  direction = direction;
  phase = queued;
  pausable = not (is_upload direction);
  downloaded_bytes = 0;
  total_bytes = total_bytes;
  bytes_per_second = 0;
  started_at = none;
  shown = status "Queued";
  local_path = local_path;
  remote_path = remote_path;
}

-- `if new.is_some() { field = new }`.
abbrev pub or_else : Option String → Option String → Option String
or_else none old = old
or_else (some new) old = some new

-- `queue_transfer_with_pause`, on the transfer that has the id already.
unfoldable pub requeue : String → ℕ → Option String → Option String → Transfer → Option Transfer
unfolding is_queued is_upload is_awaiting_conflict is_uploading
requeue name total_bytes local_path remote_path t =
    if is_queued t.phase
      || (is_upload t.direction && (is_awaiting_conflict t.phase || is_uploading t.phase))
    then some (record t {
      phase = queued;
      shown = status "Queued";
      name = name;
      total_bytes = total_bytes;
      local_path = or_else local_path t.local_path;
      remote_path = or_else remote_path t.remote_path;
    })
    else none

-- `start_transfer`.
unfoldable pub start : String → String → ℕ → ℕ → Transfer → Option Transfer
unfolding is_queued is_awaiting_conflict is_resuming active_phase active_status
start remote_path name total_bytes now t =
    if not (is_queued t.phase || is_awaiting_conflict t.phase || is_resuming t.phase)
    then none
    else some (record t {
      name = name;
      remote_path = if str_eq remote_path "" then t.remote_path else some remote_path;
      phase = active_phase t.direction;
      total_bytes = total_bytes;
      started_at = some now;
      shown = active_status t.direction;
    })

-- `record_upload_conflict`, on the conflict's transfer.
unfoldable pub await_conflict : Transfer → Option Transfer
unfolding is_upload is_queued is_uploading
await_conflict t =
    if not (is_upload t.direction) || not (is_queued t.phase || is_uploading t.phase)
    then none
    else some (record t {
      phase = awaiting_conflict;
      shown = status "Waiting for file conflict decision";
    })

-- `resolve_upload_conflict`, on a transfer whose conflict is resolved.
unfoldable pub resolve : Transfer → Transfer
unfolding is_awaiting_conflict
resolve t =
    if is_awaiting_conflict t.phase then record t { phase = queued; shown = status "Queued" } else t

-- The rate by floating-point arithmetic, of bytes over a positive elapsed time, is a parameter.
abbrev pub new_rate : (ℕ → ℕ → ℕ) → Option ℕ → ℕ → ℕ → ℕ → ℕ
new_rate rate none now bytes old = old
new_rate rate (some at) now bytes old = if ltb at now then rate bytes (now - at) else old

-- `update_transfer_progress`.
unfoldable pub progress : (ℕ → ℕ → ℕ) → ℕ → ℕ → ℕ → Transfer → Option Transfer
unfolding is_active_phase is_pausing active_phase active_status
progress rate downloaded_bytes total_bytes now t =
    if not (is_active_phase t.direction t.phase) && not (is_pausing t.phase)
    then none
    else (let moved = min downloaded_bytes total_bytes in
        some (record t {
          phase = active_phase t.direction;
          downloaded_bytes = moved;
          total_bytes = total_bytes;
          bytes_per_second = new_rate rate t.started_at now moved t.bytes_per_second;
          shown =
              if total_bytes == 0 then active_status t.direction else percentage moved total_bytes;
        }))

-- `finish_downloaded_transfer`.
unfoldable pub finish_download : ℕ → String → Transfer → Option Transfer
unfolding is_upload is_downloading is_pausing is_resuming
finish_download total_bytes local_path t =
    if is_upload t.direction
      || not (is_downloading t.phase || is_pausing t.phase || is_resuming t.phase)
    then none
    else some (record t {
      phase = completed;
      downloaded_bytes = total_bytes;
      total_bytes = total_bytes;
      bytes_per_second = 0;
      shown = status "Downloaded";
      local_path = some local_path;
    })

-- `finish_transfer`, on the transfer.
unfoldable pub finish : Phase → Status → Transfer → Option Transfer
unfolding allowed is_completed
finish phase text t =
    if not (allowed t.phase phase)
    then none
    else some (record t {
      phase = phase;
      downloaded_bytes = if is_completed phase then t.total_bytes else t.downloaded_bytes;
      shown = text;
    })

unfoldable pub request_pause : Transfer → Option Transfer
unfolding is_downloading
request_pause t =
    if not t.pausable || not (is_downloading t.phase)
    then none
    else some (record t { phase = pausing; shown = status "Pausing" })

unfoldable pub pause : Transfer → Option Transfer
unfolding is_downloading is_pausing
pause t =
    if not t.pausable || not (is_downloading t.phase || is_pausing t.phase)
    then none
    else some (record t { phase = paused; bytes_per_second = 0; shown = status "Paused" })

unfoldable pub request_resume : Transfer → Option Transfer
unfolding is_paused
request_resume t =
    if not t.pausable || not (is_paused t.phase)
    then none
    else some (record t { phase = resuming; shown = status "Resuming" })

-- `resume_transfer`.
unfoldable pub resume : ℕ → ℕ → ℕ → Transfer → Option Transfer
unfolding is_resuming active_phase active_status
resume downloaded_bytes total_bytes now t =
    if not (is_resuming t.phase)
    then none
    else some (record t {
      phase = active_phase t.direction;
      downloaded_bytes = min downloaded_bytes total_bytes;
      total_bytes = total_bytes;
      started_at = some now;
      shown = active_status t.direction;
    })

unfoldable pub request_cancel : Transfer → Option Transfer
unfolding can_request_cancel
request_cancel t =
    if not (can_request_cancel t.phase)
    then none
    else some (record t { phase = cancelling; shown = status "Cancelling" })

-- `defer_recoverable_failure`.
unfoldable pub defer : String → Transfer → Option Transfer
defer reason t = some (record t {
  phase = queued;
  downloaded_bytes = 0;
  bytes_per_second = 0;
  started_at = none;
  shown = waiting_for_reconnection reason;
})

-- `prepare_for_reconnect`, on each transfer that it keeps.
unfoldable pub wait_for_reconnection : Transfer → Transfer
unfolding active
wait_for_reconnection t =
    if active t.phase
    then record t {
      phase = queued;
      downloaded_bytes = 0;
      bytes_per_second = 0;
      started_at = none;
      shown = status "Waiting for reconnection";
    }
    else t
