-- ===== src/Session/Endings.antt =====
-- src/app/state/transitions.rs, and the monitors of workers in src/app/connection_monitor.rs and
-- src/app/connection/direct.rs: how an attempt at a connection ends, and only the current one does.
use ax_ssh.Prelude.{ℕ, Bool, true, false, not, ◌&&◌, Option, none, some, List, ◌==◌, if◌then◌else◌}
use ax_ssh.Prelude.Keyed.{nat_eq, lookup, insert_at}
use ax_ssh.Prelude.Bytes.{is_empty}
use ax_ssh.Latency.{unmeasured}
use ax_ssh.Sftp.Table.{clear_transfer_intents}
use ax_ssh.Sftp.Browser.{Browser, closed, prepare_for_reconnect}
use ax_ssh.Session.{
  TerminalBackend, SshConnectionPhase, idle, probing, awaiting_host_key, confirming_host_key,
  awaiting_authentication, loading_stored_credential, PendingHostKey, TerminalTab,
}
use ax_ssh.Session.Operations.{
  cancelled, clear_pending_clipboard_read, finish_reconnect_attempt, mark_reconnect_connected,
}
use ax_ssh.Session.Attempts.{
  ssh_route, telnet_route, serial_route, same_attempt, set_ssh_attempt, set_telnet_attempt,
  set_serial_attempt, set_ssh_phase, is_sftp,
}

-- The terminal Tabs of the program.
abbrev pub Tabs : Type 0
Tabs = List (ℕ × TerminalTab)

-- The Tab's route is that of the session and the attempt.
abbrev pub is_route : ℕ → ℕ → Option (ℕ × Option ℕ) → Bool
is_route session attempt none = false
is_route session attempt (some (profile, current)) =
    profile == session && same_attempt current (some attempt)

unfoldable pub matches_attempt : Tabs → ℕ → ℕ → ℕ → Bool
unfolding lookup ssh_route
matches_attempt tabs tab session attempt = elim (lookup tab tabs) [
  | none ↦ false
  | some t ↦ is_route session attempt (ssh_route t.backend)
]

-- What every end of an attempt does to its Tab first.
unfoldable pub stop_attempt : TerminalTab → TerminalTab
unfolding finish_reconnect_attempt clear_pending_clipboard_read set_ssh_attempt
stop_attempt t =
    let finished = (finish_reconnect_attempt t.reconnect_generation t).0 in
    let cleared = (clear_pending_clipboard_read (record finished { worker = none })).0 in
    record (set_ssh_attempt none (record cleared { media = cancelled })).0 {
      connected = false;
      worker_running = false;
    }

-- A change of the Tab, if the attempt is the current one.
abbrev pub when_current : Bool → ℕ → (TerminalTab → TerminalTab) → Tabs → Tabs × Bool
when_current current tab change tabs =
    if not current
    then (tabs, false)
    else (elim (lookup tab tabs) [ none ↦ tabs | some t ↦ insert_at tab (change t) tabs ], true)

-- `mutate_terminal_attempt`, of src/app/connection_monitor.rs.
unfoldable pub mutate_terminal_attempt :
    ℕ → ℕ → ℕ → (TerminalTab → TerminalTab) → Tabs → Tabs × Bool
unfolding matches_attempt lookup insert_at
mutate_terminal_attempt tab session attempt action tabs =
    when_current (matches_attempt tabs tab session attempt) tab action tabs

-- What the monitor of the worker does when it has connected.
unfoldable pub ssh_connected : TerminalTab → TerminalTab
unfolding mark_reconnect_connected
ssh_connected t =
    (mark_reconnect_connected t.reconnect_generation
      (record t { connection_latency = unmeasured; connected = true; worker_running = true })).0

unfoldable pub prepare_retry_with_phase : ℕ → ℕ → ℕ → SshConnectionPhase → Tabs → Tabs × Bool
unfolding matches_attempt lookup insert_at stop_attempt set_ssh_phase
prepare_retry_with_phase tab session attempt phase tabs =
    when_current (matches_attempt tabs tab session attempt) tab
      (λ t. (set_ssh_phase phase (stop_attempt t)).0) tabs

unfoldable pub prepare_authentication_retry : ℕ → ℕ → ℕ → Tabs → Tabs × Bool
unfolding prepare_retry_with_phase
prepare_authentication_retry tab session attempt tabs =
    prepare_retry_with_phase tab session attempt (awaiting_authentication false) tabs

unfoldable pub prepare_stored_credential_retry : ℕ → ℕ → ℕ → Tabs → Tabs × Bool
unfolding prepare_retry_with_phase
prepare_stored_credential_retry tab session attempt tabs =
    prepare_retry_with_phase tab session attempt loading_stored_credential tabs

unfoldable pub prepare_host_key_retry : ℕ → ℕ → ℕ → PendingHostKey → Tabs → Tabs × Bool
unfolding prepare_retry_with_phase
prepare_host_key_retry tab session attempt prompt tabs =
    prepare_retry_with_phase tab session attempt (awaiting_host_key prompt) tabs

-- `SftpBrowserState::reset`.
unfoldable pub reset : Browser → Browser
reset s = closed

-- The browser after the end of an attempt, and the path that the next one opens.
abbrev pub retire_sftp : Bool → TerminalTab → TerminalTab
retire_sftp preserve t = record t {
  sftp_initial_path =
      if is_sftp t.backend && not (is_empty t.sftp.path)
      then some t.sftp.path
      else t.sftp_initial_path;
  sftp =
      if is_sftp t.backend && preserve
      then prepare_for_reconnect t.sftp
      else reset (record t.sftp { table = clear_transfer_intents t.sftp.table });
}

unfoldable pub retire_session_attempt : ℕ → ℕ → ℕ → Tabs → Tabs × Bool
unfolding matches_attempt lookup insert_at stop_attempt prepare_for_reconnect clear_transfer_intents
    reset
retire_session_attempt tab session attempt tabs =
    when_current (matches_attempt tabs tab session attempt) tab
      (λ t. retire_sftp t.reconnect_enabled (stop_attempt t)) tabs

abbrev pub is_loading : SshConnectionPhase → Bool
is_loading idle = false
is_loading (probing probe) = false
is_loading (awaiting_host_key key) = false
is_loading (confirming_host_key key) = false
is_loading (awaiting_authentication unlock) = false
is_loading loading_stored_credential = true

-- The Tab's session is this one, and it loads a stored credential.
abbrev pub is_loading_for : ℕ → TerminalTab → Bool
is_loading_for session t = elim (ssh_route t.backend) [
  | none ↦ false
  | some (profile, attempt) ↦ profile == session && is_loading t.ssh_phase
]

unfoldable pub finish_stored_credential_retry : ℕ → ℕ → Tabs → Tabs × Bool
unfolding lookup insert_at ssh_route set_ssh_phase
finish_stored_credential_retry tab session tabs = elim (lookup tab tabs) [
  | none ↦ (tabs, false)
  | some t ↦
      (let waiting = set_ssh_phase (awaiting_authentication false) t in
        if is_loading_for session t
        then (insert_at tab waiting.0 tabs, waiting.1)
        else (tabs, false))
]

pub data DirectProtocol : Type 0 where
  telnet_protocol serial_protocol : DirectProtocol

abbrev pub direct_route : DirectProtocol → TerminalBackend → Option (ℕ × Option ℕ)
direct_route telnet_protocol backend = telnet_route backend
direct_route serial_protocol backend = serial_route backend

-- `direct_attempt_matches`, of src/app/connection/direct.rs.
unfoldable pub direct_attempt_matches : Tabs → ℕ → ℕ → ℕ → DirectProtocol → Bool
unfolding lookup telnet_route serial_route
direct_attempt_matches tabs tab profile attempt protocol = elim (lookup tab tabs) [
  | none ↦ false
  | some t ↦ is_route profile attempt (direct_route protocol t.backend)
]

abbrev pub set_direct_attempt : DirectProtocol → Option ℕ → TerminalTab → TerminalTab × Bool
set_direct_attempt telnet_protocol attempt t = set_telnet_attempt attempt t
set_direct_attempt serial_protocol attempt t = set_serial_attempt attempt t

unfoldable pub stop_direct_attempt : DirectProtocol → TerminalTab → TerminalTab
unfolding finish_reconnect_attempt clear_pending_clipboard_read set_telnet_attempt
    set_serial_attempt
stop_direct_attempt protocol t =
    let finished = (finish_reconnect_attempt t.reconnect_generation t).0 in
    let cleared = (clear_pending_clipboard_read (record finished { worker = none })).0 in
    record (set_direct_attempt protocol none (record cleared { media = cancelled })).0 {
      connected = false;
      worker_running = false;
    }

unfoldable pub mutate_direct_attempt :
    ℕ → ℕ → ℕ → DirectProtocol → (TerminalTab → TerminalTab) → Tabs → Tabs × Bool
unfolding direct_attempt_matches lookup insert_at
mutate_direct_attempt tab profile attempt protocol action tabs =
    when_current (direct_attempt_matches tabs tab profile attempt protocol) tab action tabs

unfoldable pub direct_connected : TerminalTab → TerminalTab
unfolding mark_reconnect_connected
direct_connected t =
    (mark_reconnect_connected t.reconnect_generation
      (record t { connected = true; worker_running = true })).0

unfoldable pub finish_direct_attempt : ℕ → ℕ → ℕ → DirectProtocol → Tabs → Tabs × Bool
unfolding direct_attempt_matches lookup insert_at stop_direct_attempt
finish_direct_attempt tab profile attempt protocol tabs =
    when_current (direct_attempt_matches tabs tab profile attempt protocol) tab
      (stop_direct_attempt protocol) tabs
