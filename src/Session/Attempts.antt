-- ===== src/Session/Attempts.antt =====
-- src/app/state/terminal.rs: the attempt at a connection that runs for a Tab, its phase and its secret.
use ax_ssh.Prelude.{ℕ, Bool, true, false, not, Option, none, some, ◌==◌, if◌then◌else◌}
use ax_ssh.Prelude.Keyed.{nat_eq}
use ax_ssh.Prelude.Bytes.{Text}
use ax_ssh.Latency.{unmeasured}
use ax_ssh.Session.{
  TerminalBackend, ssh, sftp, telnet, serial, local, SshConnectionPhase, idle, probing,
  awaiting_host_key, confirming_host_key, awaiting_authentication, loading_stored_credential,
  PendingProbe, TerminalTab,
}

unfoldable pub profile_of : TerminalBackend → Option ℕ
profile_of (ssh profile attempt) = some profile
profile_of (sftp profile attempt) = some profile
profile_of (telnet profile attempt) = some profile
profile_of (serial profile attempt) = some profile
profile_of local = none

unfoldable pub ssh_route : TerminalBackend → Option (ℕ × Option ℕ)
ssh_route (ssh profile attempt) = some (profile, attempt)
ssh_route (sftp profile attempt) = some (profile, attempt)
ssh_route (telnet profile attempt) = none
ssh_route (serial profile attempt) = none
ssh_route local = none

unfoldable pub telnet_route : TerminalBackend → Option (ℕ × Option ℕ)
telnet_route (ssh profile attempt) = none
telnet_route (sftp profile attempt) = none
telnet_route (telnet profile attempt) = some (profile, attempt)
telnet_route (serial profile attempt) = none
telnet_route local = none

unfoldable pub serial_route : TerminalBackend → Option (ℕ × Option ℕ)
serial_route (ssh profile attempt) = none
serial_route (sftp profile attempt) = none
serial_route (telnet profile attempt) = none
serial_route (serial profile attempt) = some (profile, attempt)
serial_route local = none

-- `==`, on attempts.
abbrev pub same_attempt : Option ℕ → Option ℕ → Bool
same_attempt none none = true
same_attempt none (some b) = false
same_attempt (some a) none = false
same_attempt (some a) (some b) = a == b

-- A new attempt starts with no latency.
abbrev pub with_ssh_attempt : TerminalBackend → Option ℕ → Option ℕ → TerminalTab → TerminalTab
with_ssh_attempt backend current attempt t = record t {
  backend = backend;
  connection_latency = if same_attempt current attempt then t.connection_latency else unmeasured;
}

abbrev pub set_ssh_attempt_of : TerminalBackend → Option ℕ → TerminalTab → TerminalTab × Bool
set_ssh_attempt_of (ssh profile current) attempt t =
    (with_ssh_attempt (ssh profile attempt) current attempt t, true)
set_ssh_attempt_of (sftp profile current) attempt t =
    (with_ssh_attempt (sftp profile attempt) current attempt t, true)
set_ssh_attempt_of (telnet profile current) attempt t = (t, false)
set_ssh_attempt_of (serial profile current) attempt t = (t, false)
set_ssh_attempt_of local attempt t = (t, false)

unfoldable pub set_ssh_attempt : Option ℕ → TerminalTab → TerminalTab × Bool
set_ssh_attempt attempt t = set_ssh_attempt_of t.backend attempt t

abbrev pub set_telnet_attempt_of : TerminalBackend → Option ℕ → TerminalTab → TerminalTab × Bool
set_telnet_attempt_of (ssh profile current) attempt t = (t, false)
set_telnet_attempt_of (sftp profile current) attempt t = (t, false)
set_telnet_attempt_of (telnet profile current) attempt t =
    (record t { backend = telnet profile attempt }, true)
set_telnet_attempt_of (serial profile current) attempt t = (t, false)
set_telnet_attempt_of local attempt t = (t, false)

unfoldable pub set_telnet_attempt : Option ℕ → TerminalTab → TerminalTab × Bool
set_telnet_attempt attempt t = set_telnet_attempt_of t.backend attempt t

abbrev pub set_serial_attempt_of : TerminalBackend → Option ℕ → TerminalTab → TerminalTab × Bool
set_serial_attempt_of (ssh profile current) attempt t = (t, false)
set_serial_attempt_of (sftp profile current) attempt t = (t, false)
set_serial_attempt_of (telnet profile current) attempt t = (t, false)
set_serial_attempt_of (serial profile current) attempt t =
    (record t { backend = serial profile attempt }, true)
set_serial_attempt_of local attempt t = (t, false)

unfoldable pub set_serial_attempt : Option ℕ → TerminalTab → TerminalTab × Bool
set_serial_attempt attempt t = set_serial_attempt_of t.backend attempt t

-- The backend is that of a shell or of files over SSH.
abbrev pub is_ssh : TerminalBackend → Bool
is_ssh (ssh profile attempt) = true
is_ssh (sftp profile attempt) = true
is_ssh (telnet profile attempt) = false
is_ssh (serial profile attempt) = false
is_ssh local = false

abbrev pub is_sftp : TerminalBackend → Bool
is_sftp (ssh profile attempt) = false
is_sftp (sftp profile attempt) = true
is_sftp (telnet profile attempt) = false
is_sftp (serial profile attempt) = false
is_sftp local = false

abbrev pub is_idle : SshConnectionPhase → Bool
is_idle idle = true
is_idle (probing probe) = false
is_idle (awaiting_host_key key) = false
is_idle (confirming_host_key key) = false
is_idle (awaiting_authentication unlock) = false
is_idle loading_stored_credential = false

unfoldable pub set_ssh_phase : SshConnectionPhase → TerminalTab → TerminalTab × Bool
set_ssh_phase phase t = if not (is_ssh t.backend) then (t, false) else (
  record t {
    ssh_phase = phase;
    pending_auth_secret = if is_idle phase then none else t.pending_auth_secret;
  },
  true,
)

unfoldable pub set_pending_auth_secret : Text → TerminalTab → TerminalTab × Bool
set_pending_auth_secret secret t =
    if not (is_ssh t.backend)
    then (t, false)
    else (record t { pending_auth_secret = some secret }, true)

unfoldable pub take_pending_auth_secret : TerminalTab → TerminalTab × Option Text
take_pending_auth_secret t =
    if not (is_ssh t.backend)
    then (t, none)
    else (record t { pending_auth_secret = none }, t.pending_auth_secret)

-- The phase is replaced by `idle`, and put back when it is not a probe.
abbrev pub take_probe_of : SshConnectionPhase → TerminalTab → TerminalTab × Option PendingProbe
take_probe_of idle t = (t, none)
take_probe_of (probing probe) t = (record t { ssh_phase = idle }, some probe)
take_probe_of (awaiting_host_key key) t = (t, none)
take_probe_of (confirming_host_key key) t = (t, none)
take_probe_of (awaiting_authentication unlock) t = (t, none)
take_probe_of loading_stored_credential t = (t, none)

unfoldable pub take_pending_probe : TerminalTab → TerminalTab × Option PendingProbe
take_pending_probe t = if not (is_ssh t.backend) then (t, none) else take_probe_of t.ssh_phase t
