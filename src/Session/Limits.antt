-- ===== src/Session/Limits.antt =====
-- src/app/state/terminal.rs and src/app/connection/reconnect.rs: how often a Tab reconnects by itself,
-- and how long it waits.
use ax_ssh.Prelude.{
  ℕ, zero, suc, ◌+◌, ◌^◌, ◌≤◌, ◌<◌, Bool, true, false, not, ◌&&◌, ◌||◌, ◌≡◌, refl, ap, inl, inr,
  Option, none, some, List, [], ◌∷◌, ◌==◌, ltb, arith, Bool-cases,
}
use native.Mathlib.Nat.{pow-le-pow_right, one-le-pow}
use ax_ssh.Session.{TerminalTab}
use ax_ssh.Session.Operations.{
  begin_reconnect, reconnect_delay, max_reconnect_attempts, is_some, clear_clipboard_read,
  offer_clipboard_read, mark_reconnect_connected, clear_pending_clipboard_read, cancel_reconnect,
  enable_reconnect, finish_reconnect_attempt, invalidate_selection, prepare_manual_retry,
}
use ax_ssh.Session.Frames.{
  set_ssh_attempt-IsSame, set_telnet_attempt-IsSame, set_serial_attempt-IsSame,
  take_pending_probe-IsSame, set_ssh_phase-IsSame, set_pending_auth_secret-IsSame,
  take_pending_auth_secret-IsSame, stop_attempt-IsDropped, stop_direct_attempt-IsDropped,
  take_pending_clipboard_read-attempts,
}
use ax_ssh.Session.Endings.{ssh_connected, direct_connected}
use ax_ssh.Session.Histories.{
  SessionEvent, offers_clipboard, takes_clipboard, clears_pending, clears_clipboard,
  begins_reconnect, cancels_reconnect, retries_manually, enables_reconnect, finishes_reconnect,
  marks_connected, connects_ssh, connects_directly, stops_ssh, stops_directly, sets_ssh_attempt,
  sets_telnet_attempt, sets_serial_attempt, sets_phase, sets_secret, takes_secret, takes_probe,
  moves_selection, installs_worker, sets_terminal, session_step, session_run,
}

-- An event that does not set the count of attempts back: no connection is made, and the user does not
-- retry.
abbrev pub is_automatic : SessionEvent → Bool
is_automatic retries_manually = false
is_automatic (marks_connected generation) = false
is_automatic connects_ssh = false
is_automatic connects_directly = false
is_automatic _ = true

-- The attempts that a history begins, and the seconds that they wait.
abbrev pub begun : Option (ℕ × ℕ) → ℕ × ℕ
begun none = (0, 0)
begun (some (generation, attempt)) = (1, reconnect_delay attempt)

abbrev pub begun_by : SessionEvent → TerminalTab → ℕ × ℕ
begun_by begins_reconnect t = begun (begin_reconnect t).1
begun_by _ t = (0, 0)

unfoldable pub all_automatic : List SessionEvent → Bool
all_automatic [] = true
all_automatic (e ∷ es) = is_automatic e && all_automatic es

unfoldable pub reconnects : List SessionEvent → TerminalTab → ℕ × ℕ
unfolding session_step begin_reconnect reconnect_delay
reconnects [] t = (0, 0)
reconnects (e ∷ es) t =
    let rest = reconnects es (session_step e t) in
    ((begun_by e t).0 + rest.0, (begun_by e t).1 + rest.1)

-- An attempt counts one, and waits for as long as all before it and a second more.
abbrev IsCounted : ℕ × ℕ → ℕ → ℕ → Type 0
IsCounted begins n m =
    (begins.0 + n ≡ m) × (begins.1 + 2 ^ n ≡ 2 ^ m) × (m ≤ max_reconnect_attempts)

not-IsCounted : (n m : ℕ) → m ≡ n → n ≤ max_reconnect_attempts → IsCounted (0, 0) n m
not-IsCounted n m same h =
    (omega (arith, same), omega (arith, ap (λ k. 2 ^ k) same), omega (arith, same))

-- The first delays.
reconnect_delay_lem : (n : ℕ) → n < 5 → reconnect_delay (n + 1) + 2 ^ n ≡ 2 ^ (n + 1)
unfolding reconnect_delay
reconnect_delay_lem zero h = refl
reconnect_delay_lem (suc zero) h = refl
reconnect_delay_lem (suc (suc zero)) h = refl
reconnect_delay_lem (suc (suc (suc zero))) h = refl
reconnect_delay_lem (suc (suc (suc (suc zero)))) h = refl
reconnect_delay_lem (suc (suc (suc (suc (suc n))))) h = omega arith

begin_reconnect-IsCounted :
    (t : TerminalTab)
    → t.reconnect_attempt ≤ max_reconnect_attempts
    → IsCounted
        (begun (begin_reconnect t).1)
        t.reconnect_attempt
        (begin_reconnect t).0.reconnect_attempt
unfolding begin_reconnect
begin_reconnect-IsCounted t h =
    elim (Bool-cases (not t.reconnect_enabled || t.reconnecting || is_some t.worker)) [
      | inl busy ↦ rw (busy) (not-IsCounted _ _ refl h)
      | inr free ↦ elim (Bool-cases (t.reconnect_attempt == 255)) [
        | inl full ↦ rw (free, full) (not-IsCounted _ _ refl h)
        | inr counts ↦ elim (Bool-cases (ltb max_reconnect_attempts (t.reconnect_attempt + 1))) [
          | inl last ↦ rw (free, counts, last) (not-IsCounted _ _ refl h)
          | inr more ↦
              rw (free, counts, more)
                (omega arith, reconnect_delay_lem t.reconnect_attempt (ground arith), ground arith)
        ]
      ]
    ]

step-IsCounted :
    (e : SessionEvent) (t : TerminalTab)
    → is_automatic e ≡ true
    → t.reconnect_attempt ≤ max_reconnect_attempts
    → IsCounted (begun_by e t) t.reconnect_attempt (session_step e t).reconnect_attempt
unfolding session_step
step-IsCounted begins_reconnect t a h = begin_reconnect-IsCounted t h
step-IsCounted retries_manually t a h = ground arith
step-IsCounted (marks_connected g) t a h = ground arith
step-IsCounted connects_ssh t a h = ground arith
step-IsCounted connects_directly t a h = ground arith
step-IsCounted (offers_clipboard f) t a h =
    not-IsCounted _ _ (unfold offer_clipboard_read in ground arith) h
step-IsCounted takes_clipboard t a h = not-IsCounted _ _ (take_pending_clipboard_read-attempts t) h
step-IsCounted clears_pending t a h =
    not-IsCounted _ _ (unfold clear_pending_clipboard_read in refl) h
step-IsCounted (clears_clipboard k g) t a h =
    not-IsCounted _ _ (unfold clear_clipboard_read in ground arith) h
step-IsCounted cancels_reconnect t a h = not-IsCounted _ _ (unfold cancel_reconnect in refl) h
step-IsCounted enables_reconnect t a h = not-IsCounted _ _ (unfold enable_reconnect in refl) h
step-IsCounted (finishes_reconnect g) t a h =
    not-IsCounted _ _ (unfold finish_reconnect_attempt in ground arith) h
step-IsCounted stops_ssh t a h = not-IsCounted _ _ (stop_attempt-IsDropped t).attempts h
step-IsCounted (stops_directly p) t a h =
    not-IsCounted _ _ (stop_direct_attempt-IsDropped p t).attempts h
step-IsCounted (sets_ssh_attempt o) t a h =
    not-IsCounted _ _ (set_ssh_attempt-IsSame o t).attempts h
step-IsCounted (sets_telnet_attempt o) t a h =
    not-IsCounted _ _ (set_telnet_attempt-IsSame o t).attempts h
step-IsCounted (sets_serial_attempt o) t a h =
    not-IsCounted _ _ (set_serial_attempt-IsSame o t).attempts h
step-IsCounted (sets_phase phase) t a h =
    not-IsCounted _ _ (set_ssh_phase-IsSame phase t).attempts h
step-IsCounted (sets_secret secret) t a h =
    not-IsCounted _ _ (set_pending_auth_secret-IsSame secret t).attempts h
step-IsCounted takes_secret t a h = not-IsCounted _ _ (take_pending_auth_secret-IsSame t).attempts h
step-IsCounted takes_probe t a h = not-IsCounted _ _ (take_pending_probe-IsSame t).attempts h
step-IsCounted moves_selection t a h = not-IsCounted _ _ (unfold invalidate_selection in refl) h
step-IsCounted (installs_worker w) t a h = not-IsCounted _ _ refl h
step-IsCounted (sets_terminal o) t a h = not-IsCounted _ _ refl h

reconnects-IsCounted :
    (es : List SessionEvent) (t : TerminalTab)
    → all_automatic es ≡ true
    → t.reconnect_attempt ≤ max_reconnect_attempts
    → IsCounted (reconnects es t) t.reconnect_attempt (session_run es t).reconnect_attempt
unfolding reconnects session_run all_automatic
reconnects-IsCounted [] t a h = not-IsCounted _ _ refl h
reconnects-IsCounted (e ∷ es) t a h =
    let now = step-IsCounted e t (ground arith) h in
    let later = reconnects-IsCounted es (session_step e t) (ground arith) now.2 in
    (omega (arith, now.0, later.0), omega (arith, now.1, later.1), later.2)

step-few :
    (e : SessionEvent) (t : TerminalTab)
    → t.reconnect_attempt ≤ max_reconnect_attempts
    → (session_step e t).reconnect_attempt ≤ max_reconnect_attempts
unfolding session_step
step-few e t h = elim (Bool-cases (is_automatic e)) [
  | inl automatic ↦ (step-IsCounted e t automatic h).2
  | inr resets ↦ resetting e resets
]
  where
    resetting :
        (e : SessionEvent)
        → is_automatic e ≡ false
        → (session_step e t).reconnect_attempt ≤ max_reconnect_attempts
    resetting retries_manually a = unfold prepare_manual_retry in omega arith
    resetting (marks_connected g) a = unfold mark_reconnect_connected in ground arith
    resetting connects_ssh a = unfold ssh_connected mark_reconnect_connected in ground arith
    resetting connects_directly a = unfold direct_connected mark_reconnect_connected in ground arith
    resetting _ a = ground arith

run-few :
    (es : List SessionEvent) (t : TerminalTab)
    → t.reconnect_attempt ≤ max_reconnect_attempts
    → (session_run es t).reconnect_attempt ≤ max_reconnect_attempts
unfolding session_run
run-few [] t h = h
run-few (e ∷ es) t h = run-few es (session_step e t) (step-few e t h)

-- Whatever has happened to a Tab whose count of attempts was zero, it then begins at most five
-- attempts to reconnect, and they wait at most 31 seconds in all, until a connection is made or the
-- user retries.
pub reconnects-bounded :
    (before es : List SessionEvent) (t : TerminalTab)
    → t.reconnect_attempt ≡ 0
    → all_automatic es ≡ true
    → ((reconnects es (session_run before t)).0 ≤ max_reconnect_attempts)
      × ((reconnects es (session_run before t)).1 ≤ 31)
reconnects-bounded before es t new automatic =
    let few = run-few before t (omega (arith, new)) in
    let counted = reconnects-IsCounted es (session_run before t) automatic few in
    (
      omega (arith, counted.0, counted.2),
      omega (
        arith,
        counted.1,
        pow-le-pow_right {n = 2} (omega arith) counted.2,
        one-le-pow (session_run before t).reconnect_attempt 2 (omega arith),
      ),
    )
