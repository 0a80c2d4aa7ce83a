-- ===== src/Tests/Sessions.antt =====
-- src/app/state/terminal.rs and src/app/state/latency.rs: a session that connects, is lost and is
-- closed.
use ax_ssh.Prelude.{
  ℕ, ◌+◌, ◌-◌, ◌/◌, ◌^◌, ◌≤◌, ◌<◌, min, max, true, false, ◌&&◌, ◌≡◌, ◌⊎◌, ◌≢◌, ◌↔◌, refl, none,
  some, List, [], ◌∷◌, ◌==◌, arith, if◌then◌else◌,
}
use ax_ssh.Latency.{
  unmeasured, measured, good, moderate, sample_micros, record_sample, latency_snapshot,
  shows_quality, is_fresh, not_after,
}
use ax_ssh.Latency.Kept.{LatencyEvent, samples, latency_run}
use ax_ssh.Latency.Bands.{InBand, IsSettled, LastSample}
use ax_ssh.Latency.Shown.{
  latency_run-latency_snapshot, record_sample-quality, record_sample-between,
}
use ax_ssh.Sftp.Browser.{closed}
use ax_ssh.Session.{ssh, idle, TerminalTab, PendingClipboardRead}
use ax_ssh.Session.Operations.{
  cancelled, clear_clipboard_read, clipboard_open, take_pending_clipboard_read, reconnect_current,
  finish_reconnect_attempt, mark_reconnect_connected,
}
use ax_ssh.Session.Histories.{
  SessionEvent, session_run, installs_worker, sets_terminal, connects_ssh, offers_clipboard,
  stops_ssh, begins_reconnect, cancels_reconnect, enables_reconnect, finishes_reconnect,
}
use ax_ssh.Session.Limits.{all_automatic, reconnects, reconnects-bounded}
use ax_ssh.Session.Generations.{generations, session_run-stale}
use ax_ssh.Session.Clipboard.{session_run-take_pending_clipboard_read}
use ax_ssh.Session.Endings.{Tabs}
use ax_ssh.Session.Retired.{Ending, retires, end_attempt, RunsFor, IsEnded, end_attempt-once}

abbrev latencies : List LatencyEvent
latencies = samples 90000000 1 1 ∷ samples 190000000 2 2 ∷ []

waits-moderate : (latency_run latencies unmeasured).quality ≡ some good
unfolding latency_run
waits-moderate = refl

shows-good : (latency_snapshot 3 (latency_run latencies unmeasured)).0 ≡ shows_quality good
unfolding latency_snapshot latency_run
shows-good = refl

latency_run-latency_snapshot_example :
    (micros : ℕ) × (time : ℕ) × ((latency_run latencies unmeasured).smoothed_micros ≡ some micros)
    × LastSample time latencies
    × (3 - time < 90000000000)
    × IsSettled (latency_run latencies unmeasured) good micros
    × ((latency_snapshot 3 (latency_run latencies unmeasured)).1
        ≡ min ((micros + 999) / 1000) (2 ^ 31 - 1))
latency_run-latency_snapshot_example = latency_run-latency_snapshot latencies 3 good shows-good

good-is_not-moderate : good ≢ moderate
good-is_not-moderate h = ground arith

measured-latencies : (latency_run latencies unmeasured).phase ≡ measured
unfolding latency_run
measured-latencies = refl

last-latencies : (latency_run latencies unmeasured).measured_at ≡ some 2
unfolding latency_run
last-latencies = refl

smoothed-latencies : (latency_run latencies unmeasured).smoothed_micros ≡ some 110000
unfolding latency_run
smoothed-latencies = refl

-- The third sample, of 110 ms, leaves a smoothed latency of 110 ms again, and turns the quality.
turns-moderate :
    (record_sample 110000000 3 3 (latency_run latencies unmeasured)).quality ≡ some moderate
unfolding record_sample latency_run
turns-moderate = refl

record_sample-quality_example :
    (m : ℕ) × ((record_sample 110000000 3 3 (latency_run latencies unmeasured)).smoothed_micros
      ≡ some m)
    × (((record_sample 110000000 3 3 (latency_run latencies unmeasured)).quality ≡ some moderate)
        ↔ ((2 < 3) × (3 - 3 < 90000000000) × InBand moderate 110000 × InBand moderate m))
record_sample-quality_example =
    record_sample-quality latencies 110000000 3 3 2 110000 good moderate measured-latencies
      last-latencies (omega arith) smoothed-latencies waits-moderate good-is_not-moderate

fresh-latencies : is_fresh 3 (latency_run latencies unmeasured) ≡ true
unfolding latency_run
fresh-latencies = refl

after-latencies : not_after 3 (latency_run latencies unmeasured).measured_at ≡ false
unfolding latency_run
after-latencies = refl

record_sample-between_example :
    (m : ℕ) × ((record_sample 70000000 3 3 (latency_run latencies unmeasured)).smoothed_micros
      ≡ some m)
    × (min 110000 (sample_micros 70000000) ≤ m)
    × (m ≤ max 110000 (sample_micros 70000000))
record_sample-between_example =
    record_sample-between latencies 70000000 3 3 110000 fresh-latencies smoothed-latencies
      after-latencies (omega arith)

abbrev new_session : TerminalTab
new_session = record {
  media = cancelled;
  backend = ssh 7 (some 8);
  worker = none;
  terminal = none;
  connected = false;
  connection_latency = unmeasured;
  worker_running = false;
  selection_revision = 0;
  sftp = closed;
  sftp_initial_path = none;
  ssh_phase = idle;
  reconnect_generation = 0;
  reconnect_attempt = 0;
  reconnecting = false;
  reconnect_enabled = true;
  pending_auth_secret = none;
  pending_clipboard_read = none;
  next_clipboard_read_token = 0;
}

abbrev connects : List SessionEvent
connects = installs_worker 1 ∷ sets_terminal (some true) ∷ connects_ssh ∷ offers_clipboard 5 ∷ []

abbrev loses : List SessionEvent
loses =
    stops_ssh ∷ begins_reconnect ∷ begins_reconnect ∷ finishes_reconnect 0 ∷ begins_reconnect ∷ []

waits-three : reconnects loses (session_run connects new_session) ≡ (2, 3)
unfolding reconnects session_run
waits-three = refl

automatic-loses : all_automatic loses ≡ true
unfolding all_automatic
automatic-loses = refl

reconnects-bounded_example :
    ((reconnects loses (session_run connects new_session)).0 ≤ 5)
    × ((reconnects loses (session_run connects new_session)).1 ≤ 31)
reconnects-bounded_example = reconnects-bounded connects loses new_session refl automatic-loses

abbrev closes : List SessionEvent
closes = stops_ssh ∷ begins_reconnect ∷ cancels_reconnect ∷ enables_reconnect ∷ []

some_end : 0 < generations closes
unfolding generations
some_end = omega arith

few_ends : generations closes < 2 ^ 64
unfolding generations
few_ends = omega arith

session_run-stale_example :
    (reconnect_current 0 (session_run closes new_session) ≡ false)
    × (finish_reconnect_attempt 0 (session_run closes new_session)
        ≡ (session_run closes new_session, false))
    × (mark_reconnect_connected 0 (session_run closes new_session)
        ≡ (session_run closes new_session, false))
session_run-stale_example = session_run-stale closes new_session (omega arith) some_end few_ends

abbrev request : PendingClipboardRead
request = record { formatter = 5; token = 1; generation = 0 }

waits-request : (session_run connects new_session).pending_clipboard_read ≡ some request
unfolding session_run
waits-request = refl

session_run-take_pending_clipboard_read_example :
    (take_pending_clipboard_read (session_run connects new_session) ≡ (
      if clipboard_open (session_run connects new_session)
      then (record (session_run connects new_session) { pending_clipboard_read = none }, some 5)
      else (session_run connects new_session, none)))
    × ((token generation : ℕ)
        → (clear_clipboard_read token generation (session_run connects new_session)).1 ≡ (
            (token == (session_run connects new_session).next_clipboard_read_token)
            && generation == (session_run connects new_session).reconnect_generation))
session_run-take_pending_clipboard_read_example =
    session_run-take_pending_clipboard_read connects new_session refl request waits-request

abbrev two_tabs : Tabs
two_tabs = (1, new_session) ∷ (2, new_session) ∷ []

end_attempt-once_example :
    ((¬ RunsFor retires 1 7 8 two_tabs) × (end_attempt retires 1 7 8 two_tabs ≡ (two_tabs, false)))
    ⊎ (RunsFor retires 1 7 8 two_tabs
        × ((end_attempt retires 1 7 8 two_tabs).1 ≡ true)
        × IsEnded 1 two_tabs (end_attempt retires 1 7 8 two_tabs).0
        × ((again : Ending) (s a : ℕ)
            → end_attempt again 1 s a (end_attempt retires 1 7 8 two_tabs).0
              ≡ ((end_attempt retires 1 7 8 two_tabs).0, false)))
end_attempt-once_example = end_attempt-once retires 1 7 8 two_tabs
