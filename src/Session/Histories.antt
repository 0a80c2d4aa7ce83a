-- ===== src/Session/Histories.antt =====
-- src/app/state/terminal.rs: the histories of a terminal Tab: its operations, and the fields that the
-- monitors of its worker set, in any order.
use ax_ssh.Prelude.{ℕ, Bool, true, false, Option, some, List, [], ◌∷◌}
use ax_ssh.Prelude.Bytes.{Text}
use ax_ssh.Session.{SshConnectionPhase, TerminalTab}
use ax_ssh.Session.Operations.{
  offer_clipboard_read, take_pending_clipboard_read, clear_clipboard_read,
  clear_pending_clipboard_read, invalidate_selection, begin_reconnect, finish_reconnect_attempt,
  mark_reconnect_connected, cancel_reconnect, prepare_manual_retry, enable_reconnect,
}
use ax_ssh.Session.Attempts.{
  set_ssh_attempt, set_telnet_attempt, set_serial_attempt, set_ssh_phase, set_pending_auth_secret,
  take_pending_auth_secret, take_pending_probe,
}
use ax_ssh.Session.Endings.{
  stop_attempt, stop_direct_attempt, DirectProtocol, ssh_connected, direct_connected,
}

pub data SessionEvent : Type 0 where
  offers_clipboard : ℕ → SessionEvent
  takes_clipboard clears_pending : SessionEvent
  -- The token and the generation.
  clears_clipboard : ℕ → ℕ → SessionEvent
  begins_reconnect cancels_reconnect retries_manually enables_reconnect : SessionEvent
  finishes_reconnect marks_connected : ℕ → SessionEvent
  connects_ssh connects_directly stops_ssh : SessionEvent
  stops_directly : DirectProtocol → SessionEvent
  sets_ssh_attempt sets_telnet_attempt sets_serial_attempt : Option ℕ → SessionEvent
  sets_phase : SshConnectionPhase → SessionEvent
  sets_secret : Text → SessionEvent
  takes_secret takes_probe moves_selection : SessionEvent
  -- A new worker, and a new terminal.
  installs_worker : ℕ → SessionEvent
  sets_terminal : Option Bool → SessionEvent

unfoldable pub session_step : SessionEvent → TerminalTab → TerminalTab
unfolding offer_clipboard_read take_pending_clipboard_read clear_clipboard_read
    clear_pending_clipboard_read begin_reconnect finish_reconnect_attempt mark_reconnect_connected
    cancel_reconnect prepare_manual_retry enable_reconnect ssh_connected direct_connected
    stop_attempt stop_direct_attempt set_ssh_attempt set_telnet_attempt set_serial_attempt
    set_ssh_phase set_pending_auth_secret take_pending_auth_secret take_pending_probe
    invalidate_selection
session_step (offers_clipboard formatter) t = (offer_clipboard_read formatter t).0
session_step takes_clipboard t = (take_pending_clipboard_read t).0
session_step clears_pending t = (clear_pending_clipboard_read t).0
session_step (clears_clipboard token generation) t = (clear_clipboard_read token generation t).0
session_step begins_reconnect t = (begin_reconnect t).0
session_step cancels_reconnect t = cancel_reconnect t
session_step retries_manually t = prepare_manual_retry t
session_step enables_reconnect t = enable_reconnect t
session_step (finishes_reconnect generation) t = (finish_reconnect_attempt generation t).0
session_step (marks_connected generation) t = (mark_reconnect_connected generation t).0
session_step connects_ssh t = ssh_connected t
session_step connects_directly t = direct_connected t
session_step stops_ssh t = stop_attempt t
session_step (stops_directly protocol) t = stop_direct_attempt protocol t
session_step (sets_ssh_attempt attempt) t = (set_ssh_attempt attempt t).0
session_step (sets_telnet_attempt attempt) t = (set_telnet_attempt attempt t).0
session_step (sets_serial_attempt attempt) t = (set_serial_attempt attempt t).0
session_step (sets_phase phase) t = (set_ssh_phase phase t).0
session_step (sets_secret secret) t = (set_pending_auth_secret secret t).0
session_step takes_secret t = (take_pending_auth_secret t).0
session_step takes_probe t = (take_pending_probe t).0
session_step moves_selection t = invalidate_selection t
session_step (installs_worker worker) t = record t {
  worker = some worker;
  worker_running = true;
  connected = false;
}
session_step (sets_terminal terminal) t = record t { terminal = terminal }

unfoldable pub session_run : List SessionEvent → TerminalTab → TerminalTab
unfolding session_step
session_run [] t = t
session_run (e ∷ es) t = session_run es (session_step e t)
