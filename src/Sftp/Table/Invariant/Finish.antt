-- ===== src/Sftp/Table/Invariant/Finish.antt =====
-- src/app/state/sftp.rs: the methods that end transfers keep the invariant.
use Prim.Native.String.{String}
use ax_ssh.Prelude.{ℕ, true, false, ◌≡◌, ◌≢◌, some, List, arith, Option-cases, inl, inr, ◌∙◌}
use ax_ssh.Prelude.Keyed.{nat_eq, remove}
use ax_ssh.Sftp.Phase.{Phase}
use ax_ssh.Sftp.Transfer.{Transfer, Status, finish, finish_download}
use ax_ssh.Sftp.Transfer.Rules.{finish-IsLastStep, finish_download-IsLastStep}
use ax_ssh.Sftp.Table.{
  Conflict, Table, any_if, is_active, modify, drop_conflicts, mark_directory_child_completed,
}
use ax_ssh.Sftp.Table.Modify.{All, modify-Modified, Modified-find_self}
use ax_ssh.Sftp.Table.Transitions.{finish_transfer, finish_downloaded_transfer, forget_waiting}
use ax_ssh.Sftp.Table.Invariant.{
  is_active_upload, Inv, any_if-find, All-map, drop_conflicts-All, last-IsConsistent,
  last-any_active, drop_conflicts-IsConsistent,
}

-- The fields of the invariant, one state's and another's.
abbrev SameTransfers : Table → Table → Type 0
SameTransfers s s' =
    (s'.transfers ≡ s.transfers)
    × (s'.selected_transfers ≡ s.selected_transfers)
    × (s'.upload_conflicts ≡ s.upload_conflicts)

-- Completed children are an affair of the intents alone.
mark_directory_child_completed_same :
    (id : ℕ) (s : Table) → SameTransfers s (mark_directory_child_completed id s)
unfolding mark_directory_child_completed
mark_directory_child_completed_same id s = ground arith

-- Where `finish_transfer` ends the transfer, it releases it.
finish_transfer_done :
    (id : ℕ) (phase : Phase) (text : Status) (s : Table) (ts : List Transfer)
    → modify id (finish phase text) s.transfers ≡ some ts
    → any_if is_active id ts ≡ false
    → ((finish_transfer id phase text s).transfers ≡ ts)
      × ((finish_transfer id phase text s).selected_transfers ≡ remove id s.selected_transfers)
      × ((finish_transfer id phase text s).upload_conflicts ≡ drop_conflicts id s.upload_conflicts)
unfolding finish_transfer
finish_transfer_done id phase text s ts h a = ground (
  arith,
  mark_directory_child_completed_same id (record (forget_waiting id s) { transfers = ts }),
)

pub finish_transfer-Inv :
    (id : ℕ) (phase : Phase) (text : Status) (s : Table)
    → Inv s
    → Inv (finish_transfer id phase text s)
finish_transfer-Inv id phase text s v =
    elim (Option-cases (modify id (finish phase text) s.transfers)) [
      | inl refused ↦
          unfold finish_transfer in rw (refused, finish_transfer) (drop_conflicts-IsConsistent id v)
      | inr (ts, changed) ↦
          let m = modify-Modified id (finish phase text) s.transfers ts changed in
          let l = finish-IsLastStep phase text in
          let done =
            finish_transfer_done id phase text s ts changed (last-any_active l m v.distinct) in
          rw (done.0, done.1, done.2)
            (last-IsConsistent l m (drop_conflicts-All _ id _ v.waiting) v)
    ]

-- A download waits for no decision.
not_waiting :
    (id : ℕ) (ts : List Transfer) (cs : List Conflict)
    → any_if is_active_upload id ts ≡ false
    → All (λ c. any_if is_active_upload c.transfer_id ts ≡ true) cs
    → All (λ c. (any_if is_active_upload c.transfer_id ts ≡ true) × (c.transfer_id ≢ id)) cs
not_waiting id ts cs h a = All-map cs (λ c p. (p, λ e. cc)) a

finish_downloaded_transfer_done :
    (id total : ℕ) (path : String) (s : Table) (ts : List Transfer)
    → modify id (finish_download total path) s.transfers ≡ some ts
    → ((finish_downloaded_transfer id total path s).0.transfers ≡ ts)
      × ((finish_downloaded_transfer id total path s).0.selected_transfers
          ≡ remove id s.selected_transfers)
      × ((finish_downloaded_transfer id total path s).0.upload_conflicts ≡ s.upload_conflicts)
unfolding finish_downloaded_transfer
finish_downloaded_transfer_done id total path s ts h =
    ground (arith, mark_directory_child_completed_same id (record s { transfers = ts }))

downloads_only :
    (total : ℕ) (path : String) (t t' : Transfer)
    → finish_download total path t ≡ some t'
    → is_active_upload t ≡ false
unfolding finish_download
downloads_only total path t t' h = ground arith

pub finish_downloaded_transfer-Inv :
    (id total : ℕ) (path : String) (s : Table)
    → Inv s
    → Inv (finish_downloaded_transfer id total path s).0
finish_downloaded_transfer-Inv id total path s v =
    elim (Option-cases (modify id (finish_download total path) s.transfers)) [
      | inl refused ↦
          unfold finish_downloaded_transfer in rw (refused, finish_downloaded_transfer) v
      | inr (ts, changed) ↦
          let f = finish_download total path in
          let m = modify-Modified id f s.transfers ts changed in
          let l = finish_download-IsLastStep total path in
          let (t, t', found, did, _) = Modified-find_self l.same_id m in
          let away =
            not_waiting id s.transfers s.upload_conflicts
              (any_if-find is_active_upload id s.transfers v.distinct
                ∙ rw found (downloads_only total path t t' did))
              v.waiting in
          let done = finish_downloaded_transfer_done id total path s ts changed in
          rw (done.0, done.1, done.2) (last-IsConsistent l m away v)
    ]
