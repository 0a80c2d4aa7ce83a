-- ===== src/Sftp/Table/Invariant/Queue.antt =====
-- src/app/state/sftp.rs: the methods that add transfers, and those that fail them by name, keep the
-- invariant.
use Prim.Native.String.{String}
use ax_ssh.Prelude.{
  ℕ, Bool, true, false, ◌||◌, ◌≡◌, refl, Option, none, some, List, [], ◌∷◌, ◌++◌, arith, ◌==◌,
  ==_iff, Option-cases, Bool-cases, inl, inr,
}
use ax_ssh.Prelude.Keyed.{nat_eq, contains}
use ax_ssh.Sftp.Phase.{Direction, download, failed}
use ax_ssh.Sftp.Transfer.{Transfer, Status, requeue, new_transfer, status}
use ax_ssh.Sftp.Transfer.Rules.{IsFit, IsLiveStep, requeue-IsLiveStep, new_transfer-IsFit}
use ax_ssh.Sftp.Table.{Conflict, Table, find, any_if, is_active, drop_conflicts}
use ax_ssh.Sftp.Table.Modify.{All, ids}
use ax_ssh.Sftp.Table.Transitions.{queue_transfer}
use ax_ssh.Sftp.Table.Roots.{
  record_transfer_failure, fail_download_root, finish_download_root, set_transfer_status,
  begin_download_discovery, show,
}
use ax_ssh.Sftp.Table.Invariant.{
  Distinct, is_active_upload, IsConsistent, Inv, All-map, drop_conflicts-IsConsistent, modify-Inv,
}
use ax_ssh.Sftp.Table.Invariant.Finish.{finish_transfer-Inv}

contains-ids-append :
    (j : ℕ) (ts : List Transfer) (t : Transfer)
    → contains j (ids (ts ++ t ∷ [])) ≡ (contains j (ids ts) || t.id == j)
unfolding contains
contains-ids-append j [] t = ground arith
contains-ids-append j (x ∷ ts) t = ground (arith, contains-ids-append j ts t)

Distinct-append :
    (ts : List Transfer) (t : Transfer)
    → contains t.id (ids ts) ≡ false
    → Distinct (ids ts)
    → Distinct (ids (ts ++ t ∷ []))
unfolding contains
Distinct-append [] t h d = (refl, tt)
Distinct-append (x ∷ ts) t h d = (
  ground (arith, contains-ids-append x.id ts t, ==_iff x.id t.id, ==_iff t.id x.id),
  Distinct-append ts t (ground arith) d.1,
)

find-none : (id : ℕ) (ts : List Transfer) → find id ts ≡ none → contains id (ids ts) ≡ false
unfolding find contains
find-none id [] h = refl
find-none id (t ∷ ts) h = ground (arith, find-none id ts)

pub All-append {ℓ κ} :
    {A : Type ℓ} (P : A → Type κ) (xs : List A) (a : A) → All P xs → P a → All P (xs ++ a ∷ [])
All-append P [] a h p = (p, tt)
All-append P (x ∷ xs) a h p = (h.0, All-append P xs a h.1 p)

any_if-append :
    (q : Transfer → Bool) (id : ℕ) (ts : List Transfer) (t : Transfer)
    → any_if q id ts ≡ true
    → any_if q id (ts ++ t ∷ []) ≡ true
unfolding any_if
any_if-append q id [] t h = cc
any_if-append q id (x ∷ ts) t h = ground (arith, any_if-append q id ts t)

append-IsConsistent :
    {ts : List Transfer} {selected : List ℕ} {cs : List Conflict} (t : Transfer)
    → find t.id ts ≡ none
    → IsFit t
    → IsConsistent ts selected cs
    → IsConsistent (ts ++ t ∷ []) selected cs
append-IsConsistent {ts} {cs} t h f v = record {
  distinct = Distinct-append ts t (find-none t.id ts h) v.distinct;
  fits = All-append IsFit ts t v.fits f;
  selection = λ j k. any_if-append is_active j ts t (v.selection j k);
  waiting = All-map cs (λ c p. any_if-append is_active_upload c.transfer_id ts t p) v.waiting;
}

pub queue_transfer-Inv :
    (id : ℕ) (name : String) (total : ℕ) (d : Direction) (l r : Option String) (s : Table)
    → Inv s
    → Inv (queue_transfer id name total d l r s)
queue_transfer-Inv id name total d l r s v = elim (Option-cases (find id s.transfers)) [
  | inl fresh ↦
      unfold queue_transfer in
      rw (fresh, queue_transfer)
        (append-IsConsistent (new_transfer id name total d l r) fresh
          (new_transfer-IsFit id name total d l r) (drop_conflicts-IsConsistent id v))
  | inr (t, found) ↦
      unfold queue_transfer in
      rw (found, queue_transfer)
        (modify-Inv (record s { upload_conflicts = drop_conflicts id s.upload_conflicts }) id
          (requeue name total l r) (requeue-IsLiveStep name total l r)
          (drop_conflicts-IsConsistent id v))
]

pub record_transfer_failure-Inv :
    (id : ℕ) (name text : String) (s : Table) → Inv s → Inv (record_transfer_failure id name text s)
record_transfer_failure-Inv id name text s v = elim (Option-cases (find id s.transfers)) [
  | inl fresh ↦
      unfold record_transfer_failure in
      rw (fresh, record_transfer_failure)
        (finish_transfer-Inv id failed (status text) _
          (queue_transfer-Inv id name 0 download none none s v))
  | inr (t, found) ↦
      unfold record_transfer_failure in
      rw (found, record_transfer_failure) (finish_transfer-Inv id failed (status text) s v)
]

pub fail_download_root-Inv :
    (id : ℕ) (name text : String) (s : Table) → Inv s → Inv (fail_download_root id name text s)
unfolding fail_download_root
fail_download_root-Inv id name text s v = record_transfer_failure-Inv id name text _ v

pub finish_download_root-Inv :
    (id found skips failures : ℕ) (stopped : Bool) (text : Option String) (s : Table)
    → Inv s
    → Inv (finish_download_root id found skips failures stopped text s)
finish_download_root-Inv id found skips failures stopped text s v =
    elim (Bool-cases (contains id s.scanning_download_roots)) [
      | inl scanning ↦
          unfold finish_download_root in
          rw (scanning, finish_download_root) (finish_transfer-Inv id _ _ _ v)
      | inr other ↦ unfold finish_download_root in rw (other, finish_download_root) v
    ]

show-IsLiveStep : (text : Status) → IsLiveStep (show text)
show-IsLiveStep text = ground arith

pub set_transfer_status-Inv :
    (id : ℕ) (text : Status) (s : Table) → Inv s → Inv (set_transfer_status id text s)
unfolding set_transfer_status
set_transfer_status-Inv id text s v = modify-Inv s id (show text) (show-IsLiveStep text) v

pub begin_download_discovery-Inv :
    (id : ℕ) (name l r : String) (s : Table) → Inv s → Inv (begin_download_discovery id name l r s)
unfolding begin_download_discovery
begin_download_discovery-Inv id name l r s v =
    set_transfer_status-Inv id _ _ (queue_transfer-Inv id name 0 download (some l) (some r) s v)
