-- ===== src/Session/Stopped.antt =====
-- src/app/state/transitions.rs and src/app/connection/direct.rs: what an ended attempt
-- at a connection leaves of its Tab.
use ax_ssh.Prelude.{ℕ, Bool, true, false, ◌≡◌, refl, ◌∙◌, inl, inr, none, arith, Bool-cases}
use ax_ssh.Prelude.Keyed.{nat_eq}
use ax_ssh.Session.{
  TerminalBackend, ssh, sftp, telnet, serial, local, SshConnectionPhase, TerminalTab,
}
use ax_ssh.Session.Operations.{finish_reconnect_attempt, clear_pending_clipboard_read, cancelled}
use ax_ssh.Session.Attempts.{
  ssh_route, telnet_route, serial_route, set_ssh_attempt, set_telnet_attempt, set_serial_attempt,
  set_ssh_phase, is_ssh, set_ssh_attempt_of, set_telnet_attempt_of, set_serial_attempt_of,
}
use ax_ssh.Session.Endings.{
  is_route, stop_attempt, retire_sftp, DirectProtocol, telnet_protocol, serial_protocol,
  direct_route, stop_direct_attempt,
}
use ax_ssh.Session.Frames.{dropped}

-- No attempt runs.
pub record HasNoAttempt (b : TerminalBackend) : Type 0 where
  pub over_ssh : (s a : ℕ) → is_route s a (ssh_route b) ≡ false
  pub over_telnet : (s a : ℕ) → is_route s a (telnet_route b) ≡ false
  pub over_serial : (s a : ℕ) → is_route s a (serial_route b) ≡ false

-- A Tab that has stopped.
pub record IsStopped (t : TerminalTab) : Type 0 where
  pub worker : t.worker ≡ none
  pub connected : t.connected ≡ false
  pub running : t.worker_running ≡ false
  pub reconnecting : t.reconnecting ≡ false
  pub pending : t.pending_clipboard_read ≡ none
  pub media : t.media ≡ cancelled
  pub attempt : HasNoAttempt t.backend

dropped-backend :
    (t : TerminalTab) → ((dropped t).backend ≡ t.backend) × ((dropped t).reconnecting ≡ false)
unfolding finish_reconnect_attempt clear_pending_clipboard_read
dropped-backend t = (ground arith, ground arith)

-- What an attempt that is taken away leaves of its Tab.
pub record IsKept (t u : TerminalTab) : Type 0 where
  pub worker : u.worker ≡ t.worker
  pub reconnecting : u.reconnecting ≡ t.reconnecting
  pub pending : u.pending_clipboard_read ≡ t.pending_clipboard_read
  pub media : u.media ≡ t.media

set_ssh_attempt_of-IsKept :
    (b : TerminalBackend) (t : TerminalTab)
    → (s a : ℕ) → is_route s a (ssh_route b) ≡ true
    → IsKept t (set_ssh_attempt_of b none t).0
      × HasNoAttempt (set_ssh_attempt_of b none t).0.backend
unfolding ssh_route telnet_route serial_route
set_ssh_attempt_of-IsKept (ssh p c) t s a h = (
  record { worker = refl; reconnecting = refl; pending = refl; media = refl },
  record { over_ssh = λ s a. ground arith; over_telnet = λ s a. refl; over_serial = λ s a. refl },
)
set_ssh_attempt_of-IsKept (sftp p c) t s a h = (
  record { worker = refl; reconnecting = refl; pending = refl; media = refl },
  record { over_ssh = λ s a. ground arith; over_telnet = λ s a. refl; over_serial = λ s a. refl },
)
set_ssh_attempt_of-IsKept (telnet p c) t s a h = ground arith
set_ssh_attempt_of-IsKept (serial p c) t s a h = ground arith
set_ssh_attempt_of-IsKept local t s a h = ground arith

pub stop_attempt-IsStopped :
    (t : TerminalTab) (s a : ℕ)
    → is_route s a (ssh_route t.backend) ≡ true
    → IsStopped (stop_attempt t)
unfolding stop_attempt set_ssh_attempt clear_pending_clipboard_read
stop_attempt-IsStopped t s a h =
    let same = dropped-backend t in
    let v = set_ssh_attempt_of-IsKept (dropped t).backend (dropped t) s a (rw (same.0) h) in
    record {
      worker = v.0.worker;
      connected = refl;
      running = refl;
      reconnecting = v.0.reconnecting ∙ same.1;
      pending = v.0.pending;
      media = v.0.media;
      attempt = v.1;
    }

set_telnet_attempt_of-IsKept :
    (b : TerminalBackend) (t : TerminalTab)
    → (s a : ℕ) → is_route s a (telnet_route b) ≡ true
    → IsKept t (set_telnet_attempt_of b none t).0
      × HasNoAttempt (set_telnet_attempt_of b none t).0.backend
unfolding ssh_route telnet_route serial_route
set_telnet_attempt_of-IsKept (ssh p c) t s a h = ground arith
set_telnet_attempt_of-IsKept (sftp p c) t s a h = ground arith
set_telnet_attempt_of-IsKept (telnet p c) t s a h = (
  record { worker = refl; reconnecting = refl; pending = refl; media = refl },
  record {
    over_ssh = λ s a. refl;
    over_telnet = λ s a. ground arith;
    over_serial = λ s a. ground arith;
  },
)
set_telnet_attempt_of-IsKept (serial p c) t s a h = ground arith
set_telnet_attempt_of-IsKept local t s a h = ground arith

set_serial_attempt_of-IsKept :
    (b : TerminalBackend) (t : TerminalTab)
    → (s a : ℕ) → is_route s a (serial_route b) ≡ true
    → IsKept t (set_serial_attempt_of b none t).0
      × HasNoAttempt (set_serial_attempt_of b none t).0.backend
unfolding ssh_route telnet_route serial_route
set_serial_attempt_of-IsKept (ssh p c) t s a h = ground arith
set_serial_attempt_of-IsKept (sftp p c) t s a h = ground arith
set_serial_attempt_of-IsKept (telnet p c) t s a h = ground arith
set_serial_attempt_of-IsKept (serial p c) t s a h = (
  record { worker = refl; reconnecting = refl; pending = refl; media = refl },
  record {
    over_ssh = λ s a. refl;
    over_telnet = λ s a. ground arith;
    over_serial = λ s a. ground arith;
  },
)
set_serial_attempt_of-IsKept local t s a h = ground arith

pub stop_direct_attempt-IsStopped :
    (protocol : DirectProtocol) (t : TerminalTab) (s a : ℕ)
    → is_route s a (direct_route protocol t.backend) ≡ true
    → IsStopped (stop_direct_attempt protocol t)
unfolding stop_direct_attempt set_telnet_attempt set_serial_attempt clear_pending_clipboard_read
stop_direct_attempt-IsStopped telnet_protocol t s a h =
    let same = dropped-backend t in
    let v = set_telnet_attempt_of-IsKept (dropped t).backend (dropped t) s a (rw (same.0) h) in
    record {
      worker = v.0.worker;
      connected = refl;
      running = refl;
      reconnecting = v.0.reconnecting ∙ same.1;
      pending = v.0.pending;
      media = v.0.media;
      attempt = v.1;
    }
stop_direct_attempt-IsStopped serial_protocol t s a h =
    let same = dropped-backend t in
    let v = set_serial_attempt_of-IsKept (dropped t).backend (dropped t) s a (rw (same.0) h) in
    record {
      worker = v.0.worker;
      connected = refl;
      running = refl;
      reconnecting = v.0.reconnecting ∙ same.1;
      pending = v.0.pending;
      media = v.0.media;
      attempt = v.1;
    }

pub set_ssh_phase-IsStopped :
    (phase : SshConnectionPhase) (t : TerminalTab)
    → IsStopped t
    → IsStopped (set_ssh_phase phase t).0
unfolding set_ssh_phase
set_ssh_phase-IsStopped phase t v = elim (Bool-cases (is_ssh t.backend)) [
  | inr direct ↦ rw (direct) v
  | inl over_ssh ↦ rw (over_ssh) (record {
    worker = v.worker;
    connected = v.connected;
    running = v.running;
    reconnecting = v.reconnecting;
    pending = v.pending;
    media = v.media;
    attempt = v.attempt;
  })
]

pub retire_sftp-IsStopped :
    (preserve : Bool) (t : TerminalTab) → IsStopped t → IsStopped (retire_sftp preserve t)
retire_sftp-IsStopped preserve t v = record {
  worker = v.worker;
  connected = v.connected;
  running = v.running;
  reconnecting = v.reconnecting;
  pending = v.pending;
  media = v.media;
  attempt = v.attempt;
}
