-- ===== src/Session/Operations.antt =====
-- src/app/state/terminal.rs: the operations on a terminal Tab: the host's reading of the clipboard,
-- reconnecting, and the route and phase of its connection.
use ax_ssh.Prelude.{
  ℕ, ◌+◌, ◌-◌, ◌^◌, min, Bool, true, false, not, ◌&&◌, ◌||◌, Option, none, some, [], ◌==◌, ltb,
  if◌then◌else◌,
}
use ax_ssh.Prelude.Keyed.{nat_eq}
use ax_ssh.Prelude.Words.{wrapping_succ, next_request_id}
use ax_ssh.Session.{ssh, sftp, telnet, serial, local, PendingClipboardRead, MediaState, TerminalTab}

abbrev pub max_reconnect_attempts : ℕ
max_reconnect_attempts = 5

abbrev pub is_some : {A : Type 0} → Option A → Bool
is_some none = false
is_some (some a) = true

-- `osc52_clipboard_enabled`, of a terminal that may be missing.
abbrev pub clipboard_enabled : TerminalTab → Bool
clipboard_enabled t = elim t.terminal [ none ↦ false | some enabled ↦ enabled ]

-- The host may read the clipboard.
abbrev pub clipboard_open : TerminalTab → Bool
clipboard_open t = clipboard_enabled t && t.connected && t.worker_running && is_some t.worker

-- The Tab after the offer, and its token and generation.
unfoldable pub offer_clipboard_read : ℕ → TerminalTab → TerminalTab × Option (ℕ × ℕ)
unfolding next_request_id
offer_clipboard_read formatter t =
    let token = next_request_id t.next_clipboard_read_token in
    if not (clipboard_open t) then (t, none) else (
      record t {
        next_clipboard_read_token = token;
        pending_clipboard_read =
            some (record {
              formatter = formatter;
              token = token;
              generation = t.reconnect_generation;
            });
      },
      some (token, t.reconnect_generation),
    )

unfoldable pub clipboard_read_key : TerminalTab → Option (ℕ × ℕ)
clipboard_read_key t = elim t.pending_clipboard_read [
  | none ↦ none
  | some pending ↦
      (if clipboard_enabled t
          && pending.generation == t.reconnect_generation
          && t.connected
          && t.worker_running
          && is_some t.worker
        then some (pending.token, pending.generation)
        else none)
]

-- The formatter, if it belongs to the token and the generation.
abbrev pub formatter_for : ℕ → ℕ → PendingClipboardRead → Option ℕ
formatter_for token generation pending =
    if pending.token == token && pending.generation == generation
    then some pending.formatter
    else none

-- What is taken from the Tab under a key.
abbrev pub taken : TerminalTab → ℕ → ℕ → Option PendingClipboardRead → TerminalTab × Option ℕ
taken t token generation none = (t, none)
taken t token generation (some pending) =
    (record t { pending_clipboard_read = none }, formatter_for token generation pending)

unfoldable pub take_pending_clipboard_read : TerminalTab → TerminalTab × Option ℕ
unfolding clipboard_read_key
take_pending_clipboard_read t = elim (clipboard_read_key t) [
  | none ↦ (t, none)
  | some (token, generation) ↦
      (if not (generation == t.reconnect_generation)
          || not t.connected
          || not t.worker_running
          || not (is_some t.worker)
        then (t, none)
        else taken t token generation t.pending_clipboard_read)
]

abbrev pub is_pending : ℕ → ℕ → TerminalTab → Bool
is_pending token generation t = elim t.pending_clipboard_read [
  | none ↦ false
  | some pending ↦
      pending.token == token
      && pending.generation == generation
      && generation == t.reconnect_generation
]

unfoldable pub clear_clipboard_read : ℕ → ℕ → TerminalTab → TerminalTab × Bool
clear_clipboard_read token generation t =
    if is_pending token generation t
    then (record t { pending_clipboard_read = none }, true)
    else (t, false)

unfoldable pub clear_pending_clipboard_read : TerminalTab → TerminalTab × Bool
clear_pending_clipboard_read t =
    (record t { pending_clipboard_read = none }, is_some t.pending_clipboard_read)

unfoldable pub invalidate_selection : TerminalTab → TerminalTab
invalidate_selection t = record t {
  selection_revision = if t.selection_revision == 2 ^ 31 - 1 then 1 else t.selection_revision + 1;
}

-- `MediaState::cancel`, of src/app/terminal_media.rs.
abbrev pub cancelled : MediaState
cancelled = record { job = none; image_token = none; files = []; status = []; transcript = [] }

-- The Tab after the call, and the generation and the number of the attempt.
unfoldable pub begin_reconnect : TerminalTab → TerminalTab × Option (ℕ × ℕ)
begin_reconnect t =
    if not t.reconnect_enabled || t.reconnecting || is_some t.worker
    then (t, none)
    else if t.reconnect_attempt == 255
    then (t, none)
    else if ltb max_reconnect_attempts (t.reconnect_attempt + 1)
    then (t, none)
    else (
      record t { reconnect_attempt = t.reconnect_attempt + 1; reconnecting = true },
      some (t.reconnect_generation, t.reconnect_attempt + 1),
    )

unfoldable pub reconnect_current : ℕ → TerminalTab → Bool
reconnect_current generation t =
    t.reconnect_enabled && t.reconnect_generation == generation && t.reconnecting

unfoldable pub finish_reconnect_attempt : ℕ → TerminalTab → TerminalTab × Bool
finish_reconnect_attempt generation t =
    if not (t.reconnect_generation == generation)
    then (t, false)
    else (record t { reconnecting = false }, true)

unfoldable pub mark_reconnect_connected : ℕ → TerminalTab → TerminalTab × Bool
mark_reconnect_connected generation t =
    if not (t.reconnect_generation == generation)
    then (t, false)
    else (record t { reconnect_attempt = 0; reconnecting = false; reconnect_enabled = true }, true)

unfoldable pub cancel_reconnect : TerminalTab → TerminalTab
unfolding wrapping_succ
cancel_reconnect t = record t {
  reconnect_generation = wrapping_succ t.reconnect_generation;
  reconnecting = false;
  reconnect_enabled = false;
  pending_clipboard_read = none;
  media = cancelled;
}

abbrev pub is_local : TerminalTab → Bool
is_local t = elim t.backend [
  | ssh profile attempt ↦ false
  | sftp profile attempt ↦ false
  | telnet profile attempt ↦ false
  | serial profile attempt ↦ false
  | local ↦ true
]

unfoldable pub prepare_manual_retry : TerminalTab → TerminalTab
unfolding wrapping_succ
prepare_manual_retry t = record t {
  reconnect_generation = wrapping_succ t.reconnect_generation;
  reconnect_attempt = 0;
  reconnecting = false;
  reconnect_enabled = not (is_local t);
  pending_clipboard_read = none;
  media = cancelled;
}

unfoldable pub enable_reconnect : TerminalTab → TerminalTab
enable_reconnect t = record t { reconnect_enabled = true }

-- `reconnect_delay`, of src/app/connection/reconnect.rs, in seconds.
unfoldable pub reconnect_delay : ℕ → ℕ
reconnect_delay attempt = min (2 ^ min (attempt - 1) 5) 30
