-- ===== src/Sftp/Transfer/Rules.antt =====
-- src/app/state/sftp.rs: what each change of a transfer respects.
use Prim.Native.String.{String}
use ax_ssh.Prelude.{ℕ, true, false, not, ◌≡◌, Option, some, arith}
use ax_ssh.Sftp.Phase.{
  Direction, download, upload, Phase, awaiting_conflict, downloading, uploading, pausing, paused,
  resuming, active, is_upload,
}
use ax_ssh.Sftp.Transfer.{
  Transfer, Status, requeue, start, await_conflict, resolve, progress, finish_download, finish,
  request_pause, pause, request_resume, resume, request_cancel, defer, wait_for_reconnection,
  new_transfer,
}

-- The phases that only a download, or only an upload, may be in.
abbrev pub PhaseFits : Phase → Direction → Type 0
PhaseFits downloading d = d ≡ download
PhaseFits pausing d = d ≡ download
PhaseFits paused d = d ≡ download
PhaseFits resuming d = d ≡ download
PhaseFits uploading d = d ≡ upload
PhaseFits awaiting_conflict d = d ≡ upload
PhaseFits _ d = Unit

-- A transfer in a phase of its direction, which can be paused exactly if it is a download.
pub record IsFit (t : Transfer) : Type 0 where
  pub by_phase : PhaseFits t.phase t.direction
  pub by_direction : t.pausable ≡ not (is_upload t.direction)

-- A change that turns a transfer in progress into one in progress.
pub record IsLiveStep (f : Transfer → Option Transfer) : Type 0 where
  pub same_id : (t t' : Transfer) → f t ≡ some t' → t'.id ≡ t.id
  pub same_direction : (t t' : Transfer) → f t ≡ some t' → t'.direction ≡ t.direction
  pub fits : (t t' : Transfer) → f t ≡ some t' → IsFit t → IsFit t'
  pub stays_active :
      (t t' : Transfer) → f t ≡ some t' → active t.phase ≡ true → active t'.phase ≡ true

-- A change that refuses a finished transfer.
abbrev pub IsForActive : (Transfer → Option Transfer) → Type 0
IsForActive f = (t t' : Transfer) → f t ≡ some t' → active t.phase ≡ true

pub requeue-IsLiveStep :
    (name : String) (total : ℕ) (l r : Option String) → IsLiveStep (requeue name total l r)
unfolding requeue active
requeue-IsLiveStep name total l r = ground arith

pub start-IsLiveStep : (path name : String) (total now : ℕ) → IsLiveStep (start path name total now)
unfolding start active
start-IsLiveStep path name total now = ground arith

pub await_conflict-IsLiveStep : IsLiveStep await_conflict
unfolding await_conflict active
await_conflict-IsLiveStep = ground arith

pub progress-IsLiveStep :
    (rate : ℕ → ℕ → ℕ) (moved total now : ℕ) → IsLiveStep (progress rate moved total now)
unfolding progress active
progress-IsLiveStep rate moved total now = ground arith

pub request_pause-IsLiveStep : IsLiveStep request_pause
unfolding request_pause active
request_pause-IsLiveStep = ground arith

pub pause-IsLiveStep : IsLiveStep pause
unfolding pause active
pause-IsLiveStep = ground arith

pub request_resume-IsLiveStep : IsLiveStep request_resume
unfolding request_resume active
request_resume-IsLiveStep = ground arith

pub resume-IsLiveStep : (moved total now : ℕ) → IsLiveStep (resume moved total now)
unfolding resume active
resume-IsLiveStep moved total now = ground arith

pub request_cancel-IsLiveStep : IsLiveStep request_cancel
unfolding request_cancel active
request_cancel-IsLiveStep = ground arith

pub defer-IsLiveStep : (reason : String) → IsLiveStep (defer reason)
unfolding defer active
defer-IsLiveStep reason = ground arith

-- A change that ends a transfer in progress.
pub record IsLastStep (f : Transfer → Option Transfer) : Type 0 where
  pub same_id : (t t' : Transfer) → f t ≡ some t' → t'.id ≡ t.id
  pub fits : (t t' : Transfer) → f t ≡ some t' → IsFit t → IsFit t'
  pub was_active : (t t' : Transfer) → f t ≡ some t' → active t.phase ≡ true
  pub is_finished : (t t' : Transfer) → f t ≡ some t' → active t'.phase ≡ false

pub finish-IsLastStep : (phase : Phase) (text : Status) → IsLastStep (finish phase text)
unfolding finish active
finish-IsLastStep phase text = ground arith

pub finish_download-IsLastStep :
    (total : ℕ) (path : String) → IsLastStep (finish_download total path)
unfolding finish_download active
finish_download-IsLastStep total path = ground arith

pub requeue-IsForActive :
    (name : String) (total : ℕ) (l r : Option String) → IsForActive (requeue name total l r)
unfolding requeue active
requeue-IsForActive name total l r = ground arith

pub start-IsForActive :
    (path name : String) (total now : ℕ) → IsForActive (start path name total now)
unfolding start active
start-IsForActive path name total now = ground arith

pub await_conflict-IsForActive : IsForActive await_conflict
unfolding await_conflict active
await_conflict-IsForActive = ground arith

pub progress-IsForActive :
    (rate : ℕ → ℕ → ℕ) (moved total now : ℕ) → IsForActive (progress rate moved total now)
unfolding progress active
progress-IsForActive rate moved total now = ground arith

pub request_pause-IsForActive : IsForActive request_pause
unfolding request_pause active
request_pause-IsForActive = ground arith

pub pause-IsForActive : IsForActive pause
unfolding pause active
pause-IsForActive = ground arith

pub request_resume-IsForActive : IsForActive request_resume
unfolding request_resume active
request_resume-IsForActive = ground arith

pub resume-IsForActive : (moved total now : ℕ) → IsForActive (resume moved total now)
unfolding resume active
resume-IsForActive moved total now = ground arith

pub request_cancel-IsForActive : IsForActive request_cancel
unfolding request_cancel active
request_cancel-IsForActive = ground arith

-- A transfer whose conflict is resolved, and one that waits for a new connection.
pub resolve_lem :
    (t : Transfer)
    → IsFit t
    → IsFit (resolve t)
      × ((resolve t).id ≡ t.id)
      × (active (resolve t).phase ≡ active t.phase)
      × ((resolve t).direction ≡ t.direction)
unfolding resolve active
resolve_lem t v = (ground arith, ground arith, ground arith, ground arith)

pub wait_for_reconnection_lem :
    (t : Transfer)
    → IsFit t
    → IsFit (wait_for_reconnection t)
      × ((wait_for_reconnection t).id ≡ t.id)
      × (active (wait_for_reconnection t).phase ≡ active t.phase)
unfolding wait_for_reconnection active
wait_for_reconnection_lem t v = (ground arith, ground arith, ground arith)

pub new_transfer-IsFit :
    (id : ℕ) (name : String) (total : ℕ) (d : Direction) (l r : Option String)
    → IsFit (new_transfer id name total d l r)
unfolding new_transfer
new_transfer-IsFit id name total d l r = ground arith
