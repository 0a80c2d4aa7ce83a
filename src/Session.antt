-- ===== src/Session.antt =====
-- src/app/state.rs: the state of a terminal Tab, and its connection. Left out are its status line and
-- the snapshots of its screen.
pub mod Operations
pub mod Attempts
pub mod Endings
pub mod Current
pub mod Histories
pub mod Frames
pub mod Limits
pub mod Generations
pub mod Clipboard
pub mod Stopped
pub mod Retired
use ax_ssh.Prelude.{ℕ, Bool, Option, List}
use ax_ssh.Prelude.Bytes.{Text}
use ax_ssh.Latency.{ConnectionLatency}
use ax_ssh.Sftp.Browser.{Browser}

-- The profile, and the attempt that runs for it.
pub data TerminalBackend : Type 0 where
  ssh sftp telnet serial : ℕ → Option ℕ → TerminalBackend
  local : TerminalBackend

pub record PendingHostKey : Type 0 where
  pub tab_id : ℕ
  pub profile_id : ℕ
  pub host : Text
  pub port : ℕ
  pub fingerprint : Text
  pub public_key : Option Text
  pub changed : Bool
  pub revoked : Bool

-- The sender of its cancellation is left out.
pub record PendingProbe : Type 0 where
  pub tab_id : ℕ
  pub profile_id : ℕ

pub data SshConnectionPhase : Type 0 where
  idle : SshConnectionPhase
  probing : PendingProbe → SshConnectionPhase
  awaiting_host_key confirming_host_key : PendingHostKey → SshConnectionPhase
  -- Whether only the vault is to be unlocked.
  awaiting_authentication : Bool → SshConnectionPhase
  loading_stored_credential : SshConnectionPhase

-- A formatter is a number, as is a worker.
pub record PendingClipboardRead : Type 0 where
  pub formatter : ℕ
  pub token : ℕ
  pub generation : ℕ

pub record MediaState : Type 0 where
  pub job : Option ℕ
  pub image_token : Option ℕ
  pub files : List ℕ
  pub status : Text
  pub transcript : Text

pub record TerminalTab : Type 0 where
  pub media : MediaState
  pub backend : TerminalBackend
  pub worker : Option ℕ
  -- Of the terminal's model, whether it lets a host read the clipboard (OSC 52).
  pub terminal : Option Bool
  pub connected : Bool
  pub connection_latency : ConnectionLatency
  pub worker_running : Bool
  pub selection_revision : ℕ
  pub sftp : Browser
  pub sftp_initial_path : Option Text
  pub ssh_phase : SshConnectionPhase
  pub reconnect_generation : ℕ
  pub reconnect_attempt : ℕ
  pub reconnecting : Bool
  pub reconnect_enabled : Bool
  pub pending_auth_secret : Option Text
  pub pending_clipboard_read : Option PendingClipboardRead
  pub next_clipboard_read_token : ℕ
