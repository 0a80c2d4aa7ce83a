-- ===== src/Session/Frames.antt =====
-- src/app/state/terminal.rs: what the operations on a Tab leave alone.
use ax_ssh.Prelude.{
  ℕ, Bool, ◌≡◌, refl, ◌∙◌, inl, inr, Option, none, some, arith, Bool-cases, if◌then◌else◌,
}
use ax_ssh.Prelude.Bytes.{Text}
use ax_ssh.Session.{
  TerminalBackend, ssh, sftp, telnet, serial, local, SshConnectionPhase, PendingClipboardRead, idle,
  probing, awaiting_host_key, confirming_host_key, awaiting_authentication,
  loading_stored_credential, TerminalTab,
}
use ax_ssh.Session.Operations.{
  take_pending_clipboard_read, cancelled, finish_reconnect_attempt, clear_pending_clipboard_read,
}
use ax_ssh.Session.Attempts.{
  set_ssh_attempt, set_telnet_attempt, set_serial_attempt, set_ssh_phase, take_pending_probe,
  take_pending_auth_secret, set_pending_auth_secret, is_ssh, set_ssh_attempt_of,
  set_telnet_attempt_of, set_serial_attempt_of, take_probe_of,
}
use ax_ssh.Session.Endings.{
  stop_attempt, stop_direct_attempt, telnet_protocol, serial_protocol, DirectProtocol,
}

-- The count of attempts, the generation, the request for the clipboard and the last token.
pub record IsSame (t u : TerminalTab) : Type 0 where
  pub attempts : u.reconnect_attempt ≡ t.reconnect_attempt
  pub generation : u.reconnect_generation ≡ t.reconnect_generation
  pub pending : u.pending_clipboard_read ≡ t.pending_clipboard_read
  pub token : u.next_clipboard_read_token ≡ t.next_clipboard_read_token

pub unchanged : (t : TerminalTab) → IsSame t t
unchanged t = record { attempts = refl; generation = refl; pending = refl; token = refl }

pub set_ssh_attempt-IsSame : (a : Option ℕ) (t : TerminalTab) → IsSame t (set_ssh_attempt a t).0
unfolding set_ssh_attempt
set_ssh_attempt-IsSame a t = of t.backend
  where
    of : (b : TerminalBackend) → IsSame t (set_ssh_attempt_of b a t).0
    of (ssh p c) = record { attempts = refl; generation = refl; pending = refl; token = refl }
    of (sftp p c) = record { attempts = refl; generation = refl; pending = refl; token = refl }
    of (telnet p c) = unchanged t
    of (serial p c) = unchanged t
    of local = unchanged t

pub set_telnet_attempt-IsSame :
    (a : Option ℕ) (t : TerminalTab) → IsSame t (set_telnet_attempt a t).0
unfolding set_telnet_attempt
set_telnet_attempt-IsSame a t = of t.backend
  where
    of : (b : TerminalBackend) → IsSame t (set_telnet_attempt_of b a t).0
    of (ssh p c) = unchanged t
    of (sftp p c) = unchanged t
    of (telnet p c) = record { attempts = refl; generation = refl; pending = refl; token = refl }
    of (serial p c) = unchanged t
    of local = unchanged t

pub set_serial_attempt-IsSame :
    (a : Option ℕ) (t : TerminalTab) → IsSame t (set_serial_attempt a t).0
unfolding set_serial_attempt
set_serial_attempt-IsSame a t = of t.backend
  where
    of : (b : TerminalBackend) → IsSame t (set_serial_attempt_of b a t).0
    of (ssh p c) = unchanged t
    of (sftp p c) = unchanged t
    of (telnet p c) = unchanged t
    of (serial p c) = record { attempts = refl; generation = refl; pending = refl; token = refl }
    of local = unchanged t

pub take_pending_probe-IsSame : (t : TerminalTab) → IsSame t (take_pending_probe t).0
unfolding take_pending_probe
take_pending_probe-IsSame t = elim (Bool-cases (is_ssh t.backend)) [
  | inl over_ssh ↦ rw (over_ssh) (of t.ssh_phase)
  | inr direct ↦ rw (direct) (unchanged t)
]
  where
    of : (phase : SshConnectionPhase) → IsSame t (take_probe_of phase t).0
    of idle = unchanged t
    of (probing probe) = record { attempts = refl; generation = refl; pending = refl; token = refl }
    of (awaiting_host_key key) = unchanged t
    of (confirming_host_key key) = unchanged t
    of (awaiting_authentication unlock) = unchanged t
    of loading_stored_credential = unchanged t

pub set_ssh_phase-IsSame :
    (phase : SshConnectionPhase) (t : TerminalTab) → IsSame t (set_ssh_phase phase t).0
unfolding set_ssh_phase
set_ssh_phase-IsSame phase t = record {
  attempts = ground arith;
  generation = ground arith;
  pending = ground arith;
  token = ground arith;
}

-- All but the request for the clipboard, which is dropped.
pub record IsDropped (t u : TerminalTab) : Type 0 where
  pub attempts : u.reconnect_attempt ≡ t.reconnect_attempt
  pub generation : u.reconnect_generation ≡ t.reconnect_generation
  pub pending : u.pending_clipboard_read ≡ none
  pub token : u.next_clipboard_read_token ≡ t.next_clipboard_read_token

IsDropped-then : (t u v : TerminalTab) → IsDropped t u → IsSame u v → IsDropped t v
IsDropped-then t u v d s = record {
  attempts = s.attempts ∙ d.attempts;
  generation = s.generation ∙ d.generation;
  pending = s.pending ∙ d.pending;
  token = s.token ∙ d.token;
}

-- A Tab whose worker has gone, before its attempt is taken away.
abbrev pub dropped : TerminalTab → TerminalTab
dropped t =
    let finished = (finish_reconnect_attempt t.reconnect_generation t).0 in
    let cleared = (clear_pending_clipboard_read (record finished { worker = none })).0 in
    record cleared { media = cancelled }

dropped-IsDropped : (t : TerminalTab) → IsDropped t (dropped t)
unfolding finish_reconnect_attempt clear_pending_clipboard_read
dropped-IsDropped t = record {
  attempts = ground arith;
  generation = ground arith;
  pending = refl;
  token = ground arith;
}

pub stop_attempt-IsDropped : (t : TerminalTab) → IsDropped t (stop_attempt t)
unfolding stop_attempt
stop_attempt-IsDropped t =
    let d =
      IsDropped-then t (dropped t) (set_ssh_attempt none (dropped t)).0 (dropped-IsDropped t)
        (set_ssh_attempt-IsSame none (dropped t)) in
    record {
      attempts = d.attempts;
      generation = d.generation;
      pending = d.pending;
      token = d.token;
    }

pub stop_direct_attempt-IsDropped :
    (protocol : DirectProtocol) (t : TerminalTab) → IsDropped t (stop_direct_attempt protocol t)
unfolding stop_direct_attempt
stop_direct_attempt-IsDropped telnet_protocol t =
    let d =
      IsDropped-then t (dropped t) (set_telnet_attempt none (dropped t)).0 (dropped-IsDropped t)
        (set_telnet_attempt-IsSame none (dropped t)) in
    record {
      attempts = d.attempts;
      generation = d.generation;
      pending = d.pending;
      token = d.token;
    }
stop_direct_attempt-IsDropped serial_protocol t =
    let d =
      IsDropped-then t (dropped t) (set_serial_attempt none (dropped t)).0 (dropped-IsDropped t)
        (set_serial_attempt-IsSame none (dropped t)) in
    record {
      attempts = d.attempts;
      generation = d.generation;
      pending = d.pending;
      token = d.token;
    }

pub set_pending_auth_secret-IsSame :
    (secret : Text) (t : TerminalTab) → IsSame t (set_pending_auth_secret secret t).0
unfolding set_pending_auth_secret
set_pending_auth_secret-IsSame secret t = record {
  attempts = ground arith;
  generation = ground arith;
  pending = ground arith;
  token = ground arith;
}

pub take_pending_auth_secret-IsSame : (t : TerminalTab) → IsSame t (take_pending_auth_secret t).0
unfolding take_pending_auth_secret
take_pending_auth_secret-IsSame t = record {
  attempts = ground arith;
  generation = ground arith;
  pending = ground arith;
  token = ground arith;
}

-- What a Tab answers when the host's request for the clipboard is granted.
abbrev pub answered : TerminalTab → Option PendingClipboardRead → Bool → TerminalTab × Option ℕ
answered t none open_now = (t, none)
answered t (some pending) open_now =
    if open_now
    then (record t { pending_clipboard_read = none }, some pending.formatter)
    else (t, none)

pub take_pending_clipboard_read-attempts :
    (t : TerminalTab) → (take_pending_clipboard_read t).0.reconnect_attempt ≡ t.reconnect_attempt
unfolding take_pending_clipboard_read
take_pending_clipboard_read-attempts t = ground arith
