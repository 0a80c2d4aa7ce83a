-- ===== src/Sftp/Phase.antt =====
-- src/app/state.rs and src/app/state/sftp.rs: the phases of a transfer, and the tests on them.
use ax_ssh.Prelude.{Bool, true, false}

pub data Direction : Type 0 where
  download upload : Direction

pub data Phase : Type 0 where
  queued awaiting_conflict skipped downloading uploading pausing paused resuming : Phase
  cancelling completed cancelled failed : Phase

-- `SftpTransferPhase::active`.
unfoldable pub active : Phase → Bool
active completed = false
active cancelled = false
active failed = false
active skipped = false
active _ = true

-- `SftpTransferPhase::can_request_cancel`, and `cancellable`, which lists the same phases.
unfoldable pub can_request_cancel : Phase → Bool
can_request_cancel queued = true
can_request_cancel awaiting_conflict = true
can_request_cancel downloading = true
can_request_cancel uploading = true
can_request_cancel pausing = true
can_request_cancel paused = true
can_request_cancel resuming = true
can_request_cancel _ = false

-- `SftpTransferDirection::active_phase`.
unfoldable pub active_phase : Direction → Phase
active_phase download = downloading
active_phase upload = uploading

-- The comparison `phase == direction.active_phase()`.
unfoldable pub is_active_phase : Direction → Phase → Bool
is_active_phase download downloading = true
is_active_phase upload uploading = true
is_active_phase _ _ = false

-- Comparisons of a phase with one phase, or with those of a `matches!`.
unfoldable pub is_queued : Phase → Bool
is_queued queued = true
is_queued _ = false

unfoldable pub is_downloading : Phase → Bool
is_downloading downloading = true
is_downloading _ = false

unfoldable pub is_pausing : Phase → Bool
is_pausing pausing = true
is_pausing _ = false

unfoldable pub is_paused : Phase → Bool
is_paused paused = true
is_paused _ = false

unfoldable pub is_resuming : Phase → Bool
is_resuming resuming = true
is_resuming _ = false

unfoldable pub is_awaiting_conflict : Phase → Bool
is_awaiting_conflict awaiting_conflict = true
is_awaiting_conflict _ = false

unfoldable pub is_uploading : Phase → Bool
is_uploading uploading = true
is_uploading _ = false

unfoldable pub is_completed : Phase → Bool
is_completed completed = true
is_completed _ = false

unfoldable pub is_upload : Direction → Bool
is_upload upload = true
is_upload download = false

-- The table of `finish_transfer`: from a phase, to the phase asked for.
unfoldable pub allowed : Phase → Phase → Bool
allowed queued completed = true
allowed queued cancelled = true
allowed queued failed = true
allowed queued skipped = true
allowed awaiting_conflict cancelled = true
allowed awaiting_conflict failed = true
allowed downloading cancelled = true
allowed downloading failed = true
allowed downloading completed = true
allowed uploading cancelled = true
allowed uploading failed = true
allowed uploading skipped = true
allowed uploading completed = true
allowed pausing cancelled = true
allowed pausing failed = true
allowed pausing completed = true
allowed paused cancelled = true
allowed paused failed = true
allowed resuming cancelled = true
allowed resuming failed = true
allowed resuming completed = true
allowed cancelling cancelled = true
allowed cancelling failed = true
allowed _ _ = false
