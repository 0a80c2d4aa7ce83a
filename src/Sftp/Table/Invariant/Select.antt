-- ===== src/Sftp/Table/Invariant/Select.antt =====
-- src/app/state/sftp.rs: conflicts, decisions on them, and the selection keep the invariant.
use ax_ssh.Prelude.{
  ℕ, Bool, true, ◌≡◌, refl, some, List, [], ◌∷◌, arith, ==_iff, Option-cases, Bool-cases, inl, inr,
  ◌∙◌,
}
use ax_ssh.Prelude.Keyed.{nat_eq, contains, contains-insert, contains-remove}
use ax_ssh.Sftp.Phase.{active}
use ax_ssh.Sftp.Transfer.{Transfer, await_conflict}
use ax_ssh.Sftp.Transfer.Rules.{IsFit, resolve_lem, await_conflict-IsLiveStep}
use ax_ssh.Sftp.Table.{Conflict, Table, any_if, is_active, modify}
use ax_ssh.Sftp.Table.Modify.{All, ids, modify-Modified, Modified-find_self}
use ax_ssh.Sftp.Table.Conflicts.{
  record_upload_conflict, resolve_upload_conflict, resolve_all, keep_unresolved,
}
use ax_ssh.Sftp.Table.Selection.{toggle_transfer_selection}
use ax_ssh.Sftp.Table.Invariant.{
  is_active_upload, IsConsistent, Inv, any_if-find, All-map, live-IsConsistent,
}
use ax_ssh.Sftp.Table.Invariant.Queue.{All-append}

resolve_all-ids :
    (keys : List ℕ) (ts : List Transfer) → All IsFit ts → ids (resolve_all keys ts) ≡ ids ts
unfolding resolve_all
resolve_all-ids keys [] f = refl
resolve_all-ids keys (t ∷ ts) f = ground (arith, resolve_lem t, resolve_all-ids keys ts f.1)

resolve_all-fits :
    (keys : List ℕ) (ts : List Transfer) → All IsFit ts → All IsFit (resolve_all keys ts)
unfolding resolve_all
resolve_all-fits keys [] f = tt
resolve_all-fits keys (t ∷ ts) f = elim (Bool-cases (contains t.id keys)) [
  | inl hit ↦ rw hit ((resolve_lem t f.0).0, resolve_all-fits keys ts f.1)
  | inr miss ↦ rw miss (f.0, resolve_all-fits keys ts f.1)
]

resolve_all-any_if :
    (keys : List ℕ) (ts : List Transfer) (id : ℕ)
    → All IsFit ts
    → (any_if is_active id (resolve_all keys ts) ≡ any_if is_active id ts)
      × (any_if is_active_upload id (resolve_all keys ts) ≡ any_if is_active_upload id ts)
unfolding resolve_all any_if
resolve_all-any_if keys [] id f = (refl, refl)
resolve_all-any_if keys (t ∷ ts) id f =
    ground (arith, resolve_lem t, resolve_all-any_if keys ts id f.1)

keep_unresolved-All :
    (P : Conflict → Type 0) (keys : List ℕ) (cs : List Conflict)
    → All P cs
    → All P (keep_unresolved keys cs)
unfolding keep_unresolved
keep_unresolved-All P keys [] a = tt
keep_unresolved-All P keys (c ∷ cs) a = elim (Bool-cases (contains c.transfer_id keys)) [
  | inl hit ↦ rw hit (keep_unresolved-All P keys cs a.1)
  | inr miss ↦ rw miss (a.0, keep_unresolved-All P keys cs a.1)
]

resolve-IsConsistent :
    {ts : List Transfer} {selected : List ℕ} {cs : List Conflict} (keys : List ℕ)
    → IsConsistent ts selected cs
    → IsConsistent (resolve_all keys ts) selected (keep_unresolved keys cs)
resolve-IsConsistent {ts} {cs} keys v = record {
  distinct = rw (resolve_all-ids keys ts v.fits) v.distinct;
  fits = resolve_all-fits keys ts v.fits;
  selection = λ j h. (resolve_all-any_if keys ts j v.fits).0 ∙ v.selection j h;
  waiting =
      keep_unresolved-All _ keys cs
        (All-map cs (λ c p. (resolve_all-any_if keys ts c.transfer_id v.fits).1 ∙ p) v.waiting);
}

pub resolve_upload_conflict-Inv :
    (id : ℕ) (batch : Bool) (s : Table) → Inv s → Inv (resolve_upload_conflict id batch s)
unfolding resolve_upload_conflict
resolve_upload_conflict-Inv id batch s v = resolve-IsConsistent _ v

awaiting-is_active_upload :
    (t t' : Transfer) → await_conflict t ≡ some t' → is_active_upload t' ≡ true
unfolding await_conflict active
awaiting-is_active_upload t t' h = ground arith

pub record_upload_conflict-Inv :
    (c : Conflict) (s : Table) → Inv s → Inv (record_upload_conflict c s)
record_upload_conflict-Inv c s v =
    elim (Option-cases (modify c.transfer_id await_conflict s.transfers)) [
      | inl refused ↦ unfold record_upload_conflict in rw (refused, record_upload_conflict) v
      | inr (ts, changed) ↦
          let m = modify-Modified c.transfer_id await_conflict s.transfers ts changed in
          let w = live-IsConsistent await_conflict-IsLiveStep m v in
          let (t, t', _, did, found) = Modified-find_self await_conflict-IsLiveStep.same_id m in
          let waits : any_if is_active_upload c.transfer_id ts ≡ true =
            any_if-find is_active_upload c.transfer_id ts w.distinct
            ∙ rw found (awaiting-is_active_upload t t' did) in
          unfold record_upload_conflict in
          rw (changed, record_upload_conflict)
            (record {
              distinct = w.distinct;
              fits = w.fits;
              selection = w.selection;
              waiting = All-append _ s.upload_conflicts c w.waiting waits;
            })
    ]

selection_toggled :
    (id j : ℕ) (selected : Bool) (s : Table)
    → (contains j s.selected_transfers ≡ true → any_if is_active j s.transfers ≡ true)
    → contains j (toggle_transfer_selection id selected s).0.selected_transfers ≡ true
    → any_if is_active j s.transfers ≡ true
unfolding toggle_transfer_selection
selection_toggled id j selected s v h = ground (
  arith,
  contains-insert id j s.selected_transfers,
  contains-remove id j s.selected_transfers,
  ==_iff id j,
)

toggle_transfer_selection_same :
    (id : ℕ) (selected : Bool) (s : Table)
    → ((toggle_transfer_selection id selected s).0.transfers ≡ s.transfers)
      × ((toggle_transfer_selection id selected s).0.upload_conflicts ≡ s.upload_conflicts)
unfolding toggle_transfer_selection
toggle_transfer_selection_same id selected s = ground arith

pub toggle_transfer_selection-Inv :
    (id : ℕ) (selected : Bool) (s : Table) → Inv s → Inv (toggle_transfer_selection id selected s).0
toggle_transfer_selection-Inv id selected s v =
    let same = toggle_transfer_selection_same id selected s in
    rw (same.0, same.1)
      (record {
        distinct = v.distinct;
        fits = v.fits;
        selection = λ j h. selection_toggled id j selected s (v.selection j) h;
        waiting = v.waiting;
      })
