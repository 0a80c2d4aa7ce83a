-- ===== src/Sftp/Table/Invariant/Removal.antt =====
-- src/app/state/sftp.rs: the removal of finished transfers and a reconnection keep the invariant.
use ax_ssh.Prelude.{
  ℕ, Bool, true, false, not, ◌&&◌, ◌||◌, ◌≡◌, refl, some, List, [], ◌∷◌, arith, ◌==◌, Option-cases,
  Bool-cases, inl, inr,
}
use ax_ssh.Prelude.Keyed.{nat_eq, contains, remove, contains-remove, contains_key}
use ax_ssh.Sftp.Phase.{active}
use ax_ssh.Sftp.Transfer.{Transfer}
use ax_ssh.Sftp.Transfer.Rules.{IsFit, wait_for_reconnection_lem}
use ax_ssh.Sftp.Table.{Conflict, Intent, Table, any_if, is_active}
use ax_ssh.Sftp.Table.Modify.{All, ids}
use ax_ssh.Sftp.Table.Selection.{
  remove_finished, remove_finished_transfer, requeue_active, prepare_transfers_for_reconnect,
}
use ax_ssh.Sftp.Table.Invariant.{Distinct, is_active_upload, IsConsistent, Inv, All-map}

-- The transfers without a finished one.
data Removed (id : ℕ) : List Transfer → List Transfer → Type 0 where
  here : {t : Transfer} {ts : List Transfer} → active t.phase ≡ false → Removed id (t ∷ ts) ts
  there :
      {t : Transfer} {ts ts' : List Transfer} → Removed id ts ts' → Removed id (t ∷ ts) (t ∷ ts')

remove_finished-Removed :
    (id : ℕ) (ts ts' : List Transfer) → remove_finished id ts ≡ some ts' → Removed id ts ts'
remove_finished-Removed id [] ts' h = absurd (unfold remove_finished in cc)
remove_finished-Removed id (t ∷ ts) ts' h = elim (Bool-cases (t.id == id && not (active t.phase))) [
  | inl hit ↦
      let same : ts' ≡ ts = unfold remove_finished in ground arith in rw same (here (ground arith))
  | inr miss ↦ elim (Option-cases (remove_finished id ts)) [
    | inl nothing ↦ absurd (unfold remove_finished in ground arith)
    | inr (rest, found) ↦
        let same : ts' ≡ t ∷ rest = unfold remove_finished in ground arith in
        rw same (there (remove_finished-Removed id ts rest found))
  ]
]

Removed-All :
    (P : Transfer → Type 0) {id : ℕ} {ts ts' : List Transfer}
    → Removed id ts ts'
    → All P ts
    → All P ts'
Removed-All P (here f) a = a.1
Removed-All P (there r) a = (a.0, Removed-All P r a.1)

Removed-contains :
    {id : ℕ} {ts ts' : List Transfer} (j : ℕ)
    → Removed id ts ts'
    → contains j (ids ts) ≡ false
    → contains j (ids ts') ≡ false
unfolding contains
Removed-contains j (here f) h = ground arith
Removed-contains j (there r) h = ground (arith, Removed-contains j r)

Removed-Distinct :
    {id : ℕ} {ts ts' : List Transfer} → Removed id ts ts' → Distinct (ids ts) → Distinct (ids ts')
Removed-Distinct (here f) d = d.1
Removed-Distinct (there {t} r) d = (Removed-contains t.id r d.0, Removed-Distinct r d.1)

Removed-any_if :
    {id : ℕ} {ts ts' : List Transfer} (q : Transfer → Bool) (j : ℕ)
    → ((t : Transfer) → q t ≡ true → active t.phase ≡ true)
    → Removed id ts ts'
    → any_if q j ts ≡ true
    → any_if q j ts' ≡ true
unfolding any_if
Removed-any_if q j a (here {t} f) h = ground (arith, a t)
Removed-any_if q j a (there r) h = ground (arith, Removed-any_if q j a r)

Removed-IsConsistent :
    {ts ts' : List Transfer} {selected : List ℕ} {cs : List Conflict} {id : ℕ}
    → Removed id ts ts'
    → IsConsistent ts selected cs
    → IsConsistent ts' (remove id selected) cs
Removed-IsConsistent {selected} {cs} {id} r v = record {
  distinct = Removed-Distinct r v.distinct;
  fits = Removed-All IsFit r v.fits;
  selection = λ j h.
      Removed-any_if is_active j (λ t p. p) r
        (v.selection j (ground (arith, contains-remove id j selected)));
  waiting =
      All-map cs (λ c p. Removed-any_if is_active_upload c.transfer_id (λ t a. ground arith) r p)
        v.waiting;
}

pub remove_finished_transfer-Inv :
    (id : ℕ) (s : Table) → Inv s → Inv (remove_finished_transfer id s).0
remove_finished_transfer-Inv id s v = elim (Option-cases (remove_finished id s.transfers)) [
  | inl nothing ↦ unfold remove_finished_transfer in rw (nothing, remove_finished_transfer) v
  | inr (ts, found) ↦
      unfold remove_finished_transfer in
      rw (found, remove_finished_transfer)
        (Removed-IsConsistent (remove_finished-Removed id s.transfers ts found) v)
]

requeue_active-contains :
    (m : List (ℕ × Intent)) (j : ℕ) (ts : List Transfer)
    → All IsFit ts
    → contains j (ids ts) ≡ false
    → contains j (ids (requeue_active m ts)) ≡ false
unfolding contains requeue_active
requeue_active-contains m j [] f h = refl
requeue_active-contains m j (t ∷ ts) f h =
    ground (arith, wait_for_reconnection_lem t, requeue_active-contains m j ts f.1)

requeue_active-fits :
    (m : List (ℕ × Intent)) (ts : List Transfer) → All IsFit ts → All IsFit (requeue_active m ts)
unfolding requeue_active
requeue_active-fits m [] f = tt
requeue_active-fits m (t ∷ ts) f = elim (Bool-cases (not (active t.phase) || contains_key t.id m)) [
  | inl keep ↦ rw keep ((wait_for_reconnection_lem t f.0).0, requeue_active-fits m ts f.1)
  | inr lose ↦ rw lose (requeue_active-fits m ts f.1)
]

requeue_active-Distinct :
    (m : List (ℕ × Intent)) (ts : List Transfer)
    → All IsFit ts
    → Distinct (ids ts)
    → Distinct (ids (requeue_active m ts))
unfolding requeue_active
requeue_active-Distinct m [] f d = tt
requeue_active-Distinct m (t ∷ ts) f d =
    elim (Bool-cases (not (active t.phase) || contains_key t.id m)) [
      | inl keep ↦
          rw (keep, (wait_for_reconnection_lem t f.0).1)
            (requeue_active-contains m t.id ts f.1 d.0, requeue_active-Distinct m ts f.1 d.1)
      | inr lose ↦ rw lose (requeue_active-Distinct m ts f.1 d.1)
    ]

pub prepare_transfers_for_reconnect-Inv :
    (s : Table) → Inv s → Inv (prepare_transfers_for_reconnect s)
unfolding prepare_transfers_for_reconnect contains
prepare_transfers_for_reconnect-Inv s v = record {
  distinct = requeue_active-Distinct _ s.transfers v.fits v.distinct;
  fits = requeue_active-fits _ s.transfers v.fits;
  selection = λ j h. cc;
  waiting = tt;
}
