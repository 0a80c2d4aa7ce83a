-- ===== src/Sftp/Table/Conflicts.antt =====
-- src/app/state/sftp.rs: uploads that wait for a decision about a remote file of the same name.
use ax_ssh.Prelude.{
  ℕ, Bool, false, ◌&&◌, ◌||◌, Option, none, some, List, [], ◌∷◌, ◌++◌, ◌==◌, if◌then◌else◌,
}
use ax_ssh.Prelude.Keyed.{nat_eq, contains}
use ax_ssh.Sftp.Transfer.{Transfer, await_conflict, resolve}
use ax_ssh.Sftp.Table.{Conflict, Table, modify}

unfoldable pub record_upload_conflict : Conflict → Table → Table
unfolding modify await_conflict
record_upload_conflict c s = elim (modify c.transfer_id await_conflict s.transfers) [
  | none ↦ s
  | some ts ↦ record s { transfers = ts; upload_conflicts = s.upload_conflicts ++ (c ∷ []) }
]

-- The batch of the first conflict of the transfer.
unfoldable pub batch_of : ℕ → List Conflict → Option ℕ
batch_of id [] = none
batch_of id (c ∷ cs) =
    let rest = batch_of id cs in if c.transfer_id == id then some c.batch_id else rest

abbrev pub in_batch : ℕ → Option ℕ → Bool
in_batch batch none = false
in_batch batch (some b) = batch == b

-- The transfers whose conflicts a decision resolves.
unfoldable pub resolved_by : ℕ → Bool → Option ℕ → List Conflict → List ℕ
resolved_by id apply_to_batch batch [] = []
resolved_by id apply_to_batch batch (c ∷ cs) =
    if c.transfer_id == id || (apply_to_batch && in_batch c.batch_id batch)
    then c.transfer_id ∷ resolved_by id apply_to_batch batch cs
    else resolved_by id apply_to_batch batch cs

unfoldable pub keep_unresolved : List ℕ → List Conflict → List Conflict
unfolding contains
keep_unresolved ids [] = []
keep_unresolved ids (c ∷ cs) =
    if contains c.transfer_id ids then keep_unresolved ids cs else c ∷ keep_unresolved ids cs

unfoldable pub resolve_all : List ℕ → List Transfer → List Transfer
unfolding contains resolve
resolve_all ids [] = []
resolve_all ids (t ∷ ts) = (if contains t.id ids then resolve t else t) ∷ resolve_all ids ts

unfoldable pub resolve_upload_conflict : ℕ → Bool → Table → Table
unfolding batch_of resolved_by keep_unresolved resolve_all
resolve_upload_conflict id apply_to_batch s =
    let ids = resolved_by id apply_to_batch (batch_of id s.upload_conflicts) s.upload_conflicts in
    record s {
      upload_conflicts = keep_unresolved ids s.upload_conflicts;
      transfers = resolve_all ids s.transfers;
    }
