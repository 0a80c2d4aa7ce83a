-- ===== src/Tests/Transfers.antt =====
-- src/app/state/sftp.rs: a history of a Tab.
use Prim.Native.Nat.{ℕ, ◌/◌}
use ax_ssh.Prelude.{◌≡◌, refl, List, [], ◌∷◌, none, some, true, false}
use ax_ssh.Sftp.Phase.{active, download, upload, completed, cancelled}
use ax_ssh.Sftp.Transfer.{Transfer, status}
use ax_ssh.Sftp.Table.{empty, find}
use ax_ssh.Sftp.Table.Events.{
  Event, run, queued_event, started, finished, selection_toggled, reconnecting, progressed,
}
use ax_ssh.Sftp.Table.Invariant.{Inv}
use ax_ssh.Sftp.Table.Invariant.Steps.{run-empty-Inv}
use ax_ssh.Sftp.Table.Frozen.{Ended}
use ax_ssh.Sftp.Table.Finality.{run-Ended}

-- The bytes of a second, without the floating point.
abbrev plain_rate : ℕ → ℕ → ℕ
plain_rate bytes seconds = bytes / seconds

abbrev history : List Event
history =
    queued_event 1 "a" 10 download (some "/tmp/a") (some "/a")
    ∷ started 1 "/a" "a" 10 0
    ∷ selection_toggled 1 true
    ∷ queued_event 2 "b" 5 upload none none
    ∷ finished 1 completed (status "Complete")
    ∷ []

abbrev later : List Event
later = progressed 1 7 10 3 ∷ finished 1 cancelled (status "Cancelled") ∷ reconnecting ∷ []

abbrev done_transfer : Transfer
done_transfer = record {
  id = 1;
  name = "a";
  direction = download;
  phase = completed;
  pausable = true;
  downloaded_bytes = 10;
  total_bytes = 10;
  bytes_per_second = 0;
  started_at = some 0;
  shown = status "Complete";
  local_path = some "/tmp/a";
  remote_path = some "/a";
}

run-history : find 1 (run plain_rate history empty).transfers ≡ some done_transfer
unfolding run find
run-history = refl

run-empty-Inv_example : Inv (run plain_rate history empty)
run-empty-Inv_example = run-empty-Inv plain_rate history

done_ended : active done_transfer.phase ≡ false
unfolding active
done_ended = refl

run-Ended_example :
    Ended 1 done_transfer (run plain_rate later (run plain_rate history empty)).transfers
run-Ended_example =
    run-Ended plain_rate 1 done_transfer later (run plain_rate history empty) (tt, (tt, (tt, tt)))
      (run-history, done_ended)
