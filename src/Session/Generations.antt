-- ===== src/Session/Generations.antt =====
-- src/app/state/terminal.rs: the generation of a Tab's reconnecting, which makes what an earlier one has
-- scheduled stale.
use ax_ssh.Prelude.{ℕ, ◌+◌, ◌%◌, ◌^◌, ◌<◌, false, ◌≡◌, refl, List, [], ◌∷◌, ◌==◌, arith}
use ax_ssh.Prelude.Words.{wrapping_succ}
use ax_ssh.Session.{TerminalTab}
use ax_ssh.Session.Operations.{
  reconnect_current, begin_reconnect, take_pending_clipboard_read, clear_clipboard_read,
  offer_clipboard_read, mark_reconnect_connected, clear_pending_clipboard_read, cancel_reconnect,
  enable_reconnect, finish_reconnect_attempt, invalidate_selection, prepare_manual_retry,
}
use ax_ssh.Session.Frames.{
  set_ssh_attempt-IsSame, set_telnet_attempt-IsSame, set_serial_attempt-IsSame,
  take_pending_probe-IsSame, set_ssh_phase-IsSame, set_pending_auth_secret-IsSame,
  take_pending_auth_secret-IsSame, stop_attempt-IsDropped, stop_direct_attempt-IsDropped,
}
use ax_ssh.Session.Endings.{ssh_connected, direct_connected}
use ax_ssh.Session.Histories.{
  SessionEvent, offers_clipboard, takes_clipboard, clears_pending, clears_clipboard,
  begins_reconnect, cancels_reconnect, retries_manually, enables_reconnect, finishes_reconnect,
  marks_connected, connects_ssh, connects_directly, stops_ssh, stops_directly, sets_ssh_attempt,
  sets_telnet_attempt, sets_serial_attempt, sets_phase, sets_secret, takes_secret, takes_probe,
  moves_selection, installs_worker, sets_terminal, session_step, session_run,
}

-- The number of times that an event ends a generation.
abbrev pub ends_generation : SessionEvent → ℕ
ends_generation cancels_reconnect = 1
ends_generation retries_manually = 1
ends_generation _ = 0

unfoldable pub generations : List SessionEvent → ℕ
generations [] = 0
generations (e ∷ es) = ends_generation e + generations es

take_pending_clipboard_read-generation :
    (t : TerminalTab)
    → (take_pending_clipboard_read t).0.reconnect_generation ≡ t.reconnect_generation
unfolding take_pending_clipboard_read
take_pending_clipboard_read-generation t = ground arith

same_generation : (n m : ℕ) → n < 2 ^ 64 → m ≡ n → m ≡ (n + 0) % 2 ^ 64
same_generation n m h k = omega arith

step-generation :
    (e : SessionEvent) (t : TerminalTab)
    → t.reconnect_generation < 2 ^ 64
    → (session_step e t).reconnect_generation
      ≡ (t.reconnect_generation + ends_generation e) % 2 ^ 64
unfolding session_step
step-generation cancels_reconnect t h = unfold cancel_reconnect wrapping_succ in omega arith
step-generation retries_manually t h = unfold prepare_manual_retry wrapping_succ in omega arith
step-generation (offers_clipboard f) t h =
    same_generation _ _ h (unfold offer_clipboard_read in ground arith)
step-generation takes_clipboard t h =
    same_generation _ _ h (take_pending_clipboard_read-generation t)
step-generation clears_pending t h =
    same_generation _ _ h (unfold clear_pending_clipboard_read in refl)
step-generation (clears_clipboard k g) t h =
    same_generation _ _ h (unfold clear_clipboard_read in ground arith)
step-generation begins_reconnect t h =
    same_generation _ _ h (unfold begin_reconnect in ground arith)
step-generation enables_reconnect t h = same_generation _ _ h (unfold enable_reconnect in refl)
step-generation (finishes_reconnect g) t h =
    same_generation _ _ h (unfold finish_reconnect_attempt in ground arith)
step-generation (marks_connected g) t h =
    same_generation _ _ h (unfold mark_reconnect_connected in ground arith)
step-generation connects_ssh t h =
    same_generation _ _ h (unfold ssh_connected mark_reconnect_connected in ground arith)
step-generation connects_directly t h =
    same_generation _ _ h (unfold direct_connected mark_reconnect_connected in ground arith)
step-generation stops_ssh t h = same_generation _ _ h ((stop_attempt-IsDropped t).generation)
step-generation (stops_directly p) t h =
    same_generation _ _ h ((stop_direct_attempt-IsDropped p t).generation)
step-generation (sets_ssh_attempt o) t h =
    same_generation _ _ h ((set_ssh_attempt-IsSame o t).generation)
step-generation (sets_telnet_attempt o) t h =
    same_generation _ _ h ((set_telnet_attempt-IsSame o t).generation)
step-generation (sets_serial_attempt o) t h =
    same_generation _ _ h ((set_serial_attempt-IsSame o t).generation)
step-generation (sets_phase phase) t h =
    same_generation _ _ h ((set_ssh_phase-IsSame phase t).generation)
step-generation (sets_secret secret) t h =
    same_generation _ _ h ((set_pending_auth_secret-IsSame secret t).generation)
step-generation takes_secret t h =
    same_generation _ _ h ((take_pending_auth_secret-IsSame t).generation)
step-generation takes_probe t h = same_generation _ _ h ((take_pending_probe-IsSame t).generation)
step-generation moves_selection t h = same_generation _ _ h (unfold invalidate_selection in refl)
step-generation (installs_worker w) t h = same_generation _ _ h (refl)
step-generation (sets_terminal o) t h = same_generation _ _ h (refl)

run-generation :
    (es : List SessionEvent) (t : TerminalTab)
    → t.reconnect_generation < 2 ^ 64
    → (session_run es t).reconnect_generation ≡ (t.reconnect_generation + generations es) % 2 ^ 64
unfolding session_run generations
run-generation [] t h = omega arith
run-generation (e ∷ es) t h =
    let now = step-generation e t h in
    let later = run-generation es (session_step e t) (omega (arith, now)) in
    omega (arith, now, later)

-- Once a generation has ended, whatever else happens in fewer than 2^64 generations, an attempt that
-- it scheduled is not current, and its end and its connection change nothing.
pub session_run-stale :
    (es : List SessionEvent) (t : TerminalTab)
    → t.reconnect_generation < 2 ^ 64
    → 0 < generations es
    → generations es < 2 ^ 64
    → (reconnect_current t.reconnect_generation (session_run es t) ≡ false)
      × (finish_reconnect_attempt t.reconnect_generation (session_run es t)
          ≡ (session_run es t, false))
      × (mark_reconnect_connected t.reconnect_generation (session_run es t)
          ≡ (session_run es t, false))
unfolding reconnect_current finish_reconnect_attempt mark_reconnect_connected
session_run-stale es t word some_end few =
    let moved = run-generation es t word in
    let other : ((session_run es t).reconnect_generation == t.reconnect_generation) ≡ false =
      ground (arith, moved) in
    (rw (other) (ground arith), rw (other) refl, rw (other) refl)
