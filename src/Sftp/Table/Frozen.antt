-- ===== src/Sftp/Table/Frozen.antt =====
-- src/app/state/sftp.rs: a transfer that has ended does not change any more.
use Prim.Native.String.{String}
use ax_ssh.Prelude.{
  ℕ, Bool, false, ◌≡◌, ◌≢◌, Option, none, some, List, [], ◌∷◌, ◌++◌, arith, ◌==◌, ==_iff,
  Option-cases, Bool-cases, inl, inr, ◌∙◌,
}
use ax_ssh.Prelude.Keyed.{nat_eq}
use ax_ssh.Sftp.Phase.{Phase, Direction, download, active, failed}
use ax_ssh.Sftp.Transfer.{
  Transfer, Status, status, resolve, finish, finish_download, requeue, wait_for_reconnection,
  request_cancel, await_conflict,
}
use ax_ssh.Sftp.Transfer.Rules.{
  IsForActive, finish-IsLastStep, finish_download-IsLastStep, requeue-IsForActive,
  requeue-IsLiveStep, await_conflict-IsForActive, await_conflict-IsLiveStep,
  request_cancel-IsForActive, request_cancel-IsLiveStep,
}
use ax_ssh.Sftp.Table.{
  Conflict, Intent, Table, find, modify, drop_conflicts, mark_directory_child_completed,
}
use ax_ssh.Sftp.Table.Modify.{
  KeepsId, Modified, modify-Modified, Modified-find_ne, Modified-find_self,
}
use ax_ssh.Sftp.Table.Transitions.{
  with_transfers, finish_transfer, finish_downloaded_transfer, queue_transfer, forget_waiting,
  request_transfer_cancel,
}
use ax_ssh.Sftp.Table.Conflicts.{record_upload_conflict, resolve_upload_conflict, resolve_all}
use ax_ssh.Sftp.Table.Roots.{record_transfer_failure}
use ax_ssh.Sftp.Table.Selection.{
  remove_finished, remove_finished_transfer, requeue_active, prepare_transfers_for_reconnect,
}

-- The transfer of the id has ended, and is `t`.
abbrev pub Ended : ℕ → Transfer → List Transfer → Type 0
Ended id t ts = (find id ts ≡ some t) × (active t.phase ≡ false)

resolve_ended : (t : Transfer) → ((resolve t).id ≡ t.id) × (active t.phase ≡ false → resolve t ≡ t)
unfolding resolve active
resolve_ended t = (ground arith, λ h. ground arith)

wait_for_reconnection_ended :
    (t : Transfer)
    → ((wait_for_reconnection t).id ≡ t.id) × (active t.phase ≡ false → wait_for_reconnection t ≡ t)
unfolding wait_for_reconnection
wait_for_reconnection_ended t = (ground arith, λ h. ground arith)

module _ (id : ℕ) (t : Transfer) where
  -- A change for transfers in progress leaves it.
  Modified-Ended :
      (j : ℕ) (f : Transfer → Option Transfer) (ts ts' : List Transfer)
      → KeepsId f
      → IsForActive f
      → Modified j f ts ts'
      → Ended id t ts
      → Ended id t ts'
  Modified-Ended j f ts ts' k a m e = elim (Bool-cases (id == j)) [
    | inl same ↦
        let (x, x', found, did, _) = Modified-find_self k m in
        absurd (ground (arith, ==_iff id j, a x x' did))
    | inr other ↦ (Modified-find_ne id (ground (arith, ==_iff id j)) k m ∙ e.0, e.1)
  ]

  pub modify-Ended :
      (j : ℕ) (f : Transfer → Option Transfer) (s : Table)
      → KeepsId f
      → IsForActive f
      → Ended id t s.transfers
      → Ended id t (with_transfers s (modify j f s.transfers)).transfers
  modify-Ended j f s k a e = elim (Option-cases (modify j f s.transfers)) [
    | inl refused ↦ rw refused e
    | inr (ts, changed) ↦
        rw changed
          (Modified-Ended j f s.transfers ts k a (modify-Modified j f s.transfers ts changed) e)
  ]

  mark_directory_child_completed-transfers :
      (j : ℕ) (s : Table) → (mark_directory_child_completed j s).transfers ≡ s.transfers
  unfolding mark_directory_child_completed
  mark_directory_child_completed-transfers j s = ground arith

  finish_transfer-transfers :
      (j : ℕ) (phase : Phase) (text : Status) (s : Table)
      → (finish_transfer j phase text s).transfers
        ≡ (with_transfers s (modify j (finish phase text) s.transfers)).transfers
  unfolding finish_transfer
  finish_transfer-transfers j phase text s =
      elim (Option-cases (modify j (finish phase text) s.transfers)) [
        | inl refused ↦ rw (refused, finish_transfer)
        | inr (ts, changed) ↦ ground (
          arith,
          mark_directory_child_completed-transfers j
              (record (forget_waiting j s) { transfers = ts }),
        )
      ]

  pub finish_transfer-Ended :
      (j : ℕ) (phase : Phase) (text : Status) (s : Table)
      → Ended id t s.transfers
      → Ended id t (finish_transfer j phase text s).transfers
  finish_transfer-Ended j phase text s e =
      let l = finish-IsLastStep phase text in
      rw (finish_transfer-transfers j phase text s) (modify-Ended j _ s l.same_id l.was_active e)

  finish_downloaded_transfer-transfers :
      (j total : ℕ) (path : String) (s : Table)
      → (finish_downloaded_transfer j total path s).0.transfers
        ≡ (with_transfers s (modify j (finish_download total path) s.transfers)).transfers
  unfolding finish_downloaded_transfer
  finish_downloaded_transfer-transfers j total path s =
      elim (Option-cases (modify j (finish_download total path) s.transfers)) [
        | inl refused ↦ rw (refused, finish_downloaded_transfer)
        | inr (ts, changed) ↦
            ground (arith, mark_directory_child_completed-transfers j (record s { transfers = ts }))
      ]

  pub finish_downloaded_transfer-Ended :
      (j total : ℕ) (path : String) (s : Table)
      → Ended id t s.transfers
      → Ended id t (finish_downloaded_transfer j total path s).0.transfers
  finish_downloaded_transfer-Ended j total path s e =
      let l = finish_download-IsLastStep total path in
      rw (finish_downloaded_transfer-transfers j total path s)
        (modify-Ended j _ s l.same_id l.was_active e)

  find-append :
      (x : Transfer) (ts : List Transfer) → find id ts ≡ some t → find id (ts ++ x ∷ []) ≡ some t
  unfolding find
  find-append x [] h = cc
  find-append x (y ∷ ts) h = ground (arith, find-append x ts)

  pub queue_transfer-Ended :
      (j : ℕ) (name : String) (total : ℕ) (d : Direction) (l r : Option String) (s : Table)
      → Ended id t s.transfers
      → Ended id t (queue_transfer j name total d l r s).transfers
  queue_transfer-Ended j name total d l r s e = elim (Option-cases (find j s.transfers)) [
    | inl fresh ↦
        unfold queue_transfer in rw (fresh, queue_transfer) (find-append _ s.transfers e.0, e.1)
    | inr (x, found) ↦
        unfold queue_transfer in
        rw (found, queue_transfer)
          (modify-Ended j (requeue name total l r)
            (record s { upload_conflicts = drop_conflicts j s.upload_conflicts })
            (requeue-IsLiveStep name total l r).same_id (requeue-IsForActive name total l r) e)
  ]

  pub record_transfer_failure-Ended :
      (j : ℕ) (name text : String) (s : Table)
      → Ended id t s.transfers
      → Ended id t (record_transfer_failure j name text s).transfers
  record_transfer_failure-Ended j name text s e = elim (Option-cases (find j s.transfers)) [
    | inl fresh ↦
        unfold record_transfer_failure in
        rw (fresh, record_transfer_failure)
          (finish_transfer-Ended j failed (status text) _
            (queue_transfer-Ended j name 0 download none none s e))
    | inr (x, found) ↦
        unfold record_transfer_failure in
        rw (found, record_transfer_failure) (finish_transfer-Ended j failed (status text) s e)
  ]

  resolve_all-find :
      (keys : List ℕ) (ts : List Transfer) → Ended id t ts → find id (resolve_all keys ts) ≡ some t
  unfolding find resolve_all
  resolve_all-find keys [] e = cc
  resolve_all-find keys (x ∷ ts) e = ground (arith, resolve_ended x, resolve_all-find keys ts)

  pub resolve_upload_conflict-Ended :
      (j : ℕ) (batch : Bool) (s : Table)
      → Ended id t s.transfers
      → Ended id t (resolve_upload_conflict j batch s).transfers
  unfolding resolve_upload_conflict
  resolve_upload_conflict-Ended j batch s e = (resolve_all-find _ s.transfers e, e.1)

  pub record_upload_conflict-Ended :
      (c : Conflict) (s : Table)
      → Ended id t s.transfers
      → Ended id t (record_upload_conflict c s).transfers
  record_upload_conflict-Ended c s e =
      elim (Option-cases (modify c.transfer_id await_conflict s.transfers)) [
        | inl refused ↦ unfold record_upload_conflict in rw (refused, record_upload_conflict) e
        | inr (ts, changed) ↦
            unfold record_upload_conflict in
            rw (changed, record_upload_conflict)
              (Modified-Ended c.transfer_id await_conflict s.transfers ts
                await_conflict-IsLiveStep.same_id await_conflict-IsForActive
                (modify-Modified c.transfer_id await_conflict s.transfers ts changed) e)
      ]

  pub request_transfer_cancel-Ended :
      (j : ℕ) (s : Table)
      → Ended id t s.transfers
      → Ended id t (request_transfer_cancel j s).0.transfers
  request_transfer_cancel-Ended j s e = elim (Option-cases (modify j request_cancel s.transfers)) [
    | inl refused ↦ unfold request_transfer_cancel in rw (refused, request_transfer_cancel) e
    | inr (ts, changed) ↦
        unfold request_transfer_cancel in
        rw (changed, request_transfer_cancel)
          (Modified-Ended j request_cancel s.transfers ts request_cancel-IsLiveStep.same_id
            request_cancel-IsForActive (modify-Modified j request_cancel s.transfers ts changed) e)
  ]

  requeue_active-find :
      (m : List (ℕ × Intent)) (ts : List Transfer)
      → Ended id t ts
      → find id (requeue_active m ts) ≡ some t
  unfolding find requeue_active
  requeue_active-find m [] e = cc
  requeue_active-find m (x ∷ ts) e =
      ground (arith, wait_for_reconnection_ended x, requeue_active-find m ts, ==_iff x.id id)

  pub prepare_transfers_for_reconnect-Ended :
      (s : Table)
      → Ended id t s.transfers
      → Ended id t (prepare_transfers_for_reconnect s).transfers
  unfolding prepare_transfers_for_reconnect
  prepare_transfers_for_reconnect-Ended s e = (requeue_active-find _ s.transfers e, e.1)

  remove_finished-find :
      (j : ℕ) (ts ts' : List Transfer)
      → j ≢ id
      → remove_finished j ts ≡ some ts'
      → find id ts ≡ some t
      → find id ts' ≡ some t
  unfolding find remove_finished
  remove_finished-find j [] ts' ne h e = cc
  remove_finished-find j (x ∷ ts) ts' ne h e = elim (Option-cases (remove_finished j ts)) [
    | inl nothing ↦ ground (arith, ==_iff x.id j, ==_iff x.id id)
    | inr (rest, found) ↦
        ground (arith, ==_iff x.id j, ==_iff x.id id, remove_finished-find j ts rest)
  ]

  pub remove_finished_transfer-Ended :
      (j : ℕ) (s : Table)
      → j ≢ id
      → Ended id t s.transfers
      → Ended id t (remove_finished_transfer j s).0.transfers
  remove_finished_transfer-Ended j s ne e = elim (Option-cases (remove_finished j s.transfers)) [
    | inl nothing ↦ unfold remove_finished_transfer in rw (nothing, remove_finished_transfer) e
    | inr (ts, found) ↦
        unfold remove_finished_transfer in
        rw (found, remove_finished_transfer)
          (remove_finished-find j s.transfers ts ne found e.0, e.1)
  ]
