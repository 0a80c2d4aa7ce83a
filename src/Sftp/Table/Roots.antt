-- ===== src/Sftp/Table/Roots.antt =====
-- src/app/state/sftp.rs: downloads of whole directories, from the scan to its end, and failures that
-- may come before a transfer is known.
use ax_ssh.Sftp.Table.Transitions.{with_transfers, queue_transfer, finish_transfer}
use Prim.Native.String.{String}
use ax_ssh.Prelude.{
  ℕ, Bool, true, false, not, ◌&&◌, Option, none, some, List, [], ◌∷◌, ◌++◌, ltb, ◌==◌,
  if◌then◌else◌,
}
use ax_ssh.Prelude.Keyed.{nat_eq, contains, insert, remove}
use ax_ssh.Sftp.Phase.{download, Phase, completed, cancelled, failed}
use ax_ssh.Sftp.Transfer.{
  Transfer, Status, status, scan_details, Detail, cancelled_scan, no_regular_files, scanned_files,
  failed_files, skipped_entries, message,
}
use ax_ssh.Sftp.Table.{Table, find, modify, remove_transfer_intent}

-- `set_transfer_status`, on the transfer.
abbrev pub show : Status → Transfer → Option Transfer
show text t = some (record t { shown = text })

unfoldable pub set_transfer_status : ℕ → Status → Table → Table
unfolding modify
set_transfer_status id text s = with_transfers s (modify id (show text) s.transfers)

unfoldable pub reserve_download_root : ℕ → Table → Table × Bool
unfolding contains insert
reserve_download_root id s =
    if contains id s.pending_download_roots
    then (s, false)
    else (record s { pending_download_roots = insert id s.pending_download_roots }, true)

unfoldable pub begin_download_discovery : ℕ → String → String → String → Table → Table
unfolding queue_transfer set_transfer_status insert
begin_download_discovery id name local_path remote_path s =
    let queued = queue_transfer id name 0 download (some local_path) (some remote_path) s in
    set_transfer_status id (status "Scanning directory…")
      (record queued { scanning_download_roots = insert id queued.scanning_download_roots })

-- `record_transfer_failure`.
unfoldable pub record_transfer_failure : ℕ → String → String → Table → Table
unfolding find finish_transfer queue_transfer
record_transfer_failure id name text s = elim (find id s.transfers) [
  | some _ ↦ finish_transfer id failed (status text) s
  | none ↦ finish_transfer id failed (status text) (queue_transfer id name 0 download none none s)
]

unfoldable pub fail_download_root : ℕ → String → String → Table → Table
unfolding remove remove_transfer_intent record_transfer_failure
fail_download_root id name text s = record_transfer_failure id name text (
    remove_transfer_intent id (record s {
      pending_download_roots = remove id s.pending_download_roots;
      scanning_download_roots = remove id s.scanning_download_roots;
    }))

-- The lines of text at the end of a scan, and the phase that they end in.
abbrev pub optional {ℓ} : {A : Type ℓ} → Bool → A → List A
optional true a = a ∷ []
optional false a = []

abbrev pub closing_detail : ℕ → ℕ → Bool → Option String → List Detail
closing_detail found failures stopped (some text) = message text ∷ []
closing_detail found failures stopped none =
    optional (found == 0 && not stopped && failures == 0) no_regular_files

unfoldable pub scan_phase : ℕ → ℕ → Bool → Phase
scan_phase skips failures stopped =
    if stopped then cancelled else if skips == 0 && failures == 0 then completed else failed

unfoldable pub finish_download_root : ℕ → ℕ → ℕ → ℕ → Bool → Option String → Table → Table
unfolding remove contains scan_phase finish_transfer
finish_download_root id found skips failures stopped text s =
    let s' = record s {
      pending_download_roots = remove id s.pending_download_roots;
      scanning_download_roots = remove id s.scanning_download_roots;
    } in
    if contains id s.scanning_download_roots
    then finish_transfer id (scan_phase skips failures stopped)
        (scan_details (
          optional stopped cancelled_scan
          ++ ((scanned_files found ∷ [])
              ++ (optional (ltb 0 failures) (failed_files failures)
                  ++ (optional (ltb 0 skips) (skipped_entries skips)
                      ++ closing_detail found failures stopped text)))))
        s'
    else s'
