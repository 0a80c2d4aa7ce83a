-- ===== src/Session/Clipboard.antt =====
-- src/app/state/terminal.rs: the host's request for the clipboard is answered only in the connection that
-- it was made in, and by the token that it was given.
use ax_ssh.Prelude.{
  ℕ, ◌+◌, ◌<◌, true, false, not, ◌&&◌, ◌||◌, ◌≡◌, refl, ap, sym, ◌∙◌, subst, inl, inr, Option, none,
  some, List, [], ◌∷◌, ◌==◌, ltb, arith, Bool-cases, Option-cases, if◌then◌else◌,
}
use ax_ssh.Prelude.Words.{next_request_id-pos}
use ax_ssh.Session.{PendingClipboardRead, TerminalTab}
use ax_ssh.Session.Operations.{
  clipboard_open, clipboard_read_key, is_pending, formatter_for, taken, begin_reconnect,
  max_reconnect_attempts, is_some, take_pending_clipboard_read, clear_clipboard_read,
  offer_clipboard_read, mark_reconnect_connected, clear_pending_clipboard_read, cancel_reconnect,
  enable_reconnect, finish_reconnect_attempt, invalidate_selection, prepare_manual_retry,
}
use ax_ssh.Session.Frames.{
  IsSame, IsDropped, set_ssh_attempt-IsSame, set_telnet_attempt-IsSame, set_serial_attempt-IsSame,
  take_pending_probe-IsSame, set_ssh_phase-IsSame, set_pending_auth_secret-IsSame,
  take_pending_auth_secret-IsSame, stop_attempt-IsDropped, stop_direct_attempt-IsDropped,
}
use ax_ssh.Session.Endings.{ssh_connected, direct_connected}
use ax_ssh.Session.Histories.{
  SessionEvent, offers_clipboard, takes_clipboard, clears_pending, clears_clipboard,
  begins_reconnect, cancels_reconnect, retries_manually, enables_reconnect, finishes_reconnect,
  marks_connected, connects_ssh, connects_directly, stops_ssh, stops_directly, sets_ssh_attempt,
  sets_telnet_attempt, sets_serial_attempt, sets_phase, sets_secret, takes_secret, takes_probe,
  moves_selection, installs_worker, sets_terminal, session_step, session_run,
}

-- A request that waits is the last one, of the present generation.
pub record IsCurrent (t : TerminalTab) : Type 0 where
  pub current :
      (p : PendingClipboardRead)
      → t.pending_clipboard_read ≡ some p
      → (p.generation ≡ t.reconnect_generation)
        × (p.token ≡ t.next_clipboard_read_token)
        × (0 < p.token)

IsSame-IsCurrent : (t u : TerminalTab) → IsSame t u → IsCurrent t → IsCurrent u
IsSame-IsCurrent t u s v = record {
  current = λ p h. ground (arith, s.generation, s.token, v.current p (sym s.pending ∙ h));
}

none-IsCurrent : (t : TerminalTab) → t.pending_clipboard_read ≡ none → IsCurrent t
none-IsCurrent t e = record { current = λ p h. ground (arith, e, h) }

offer-IsCurrent : (f : ℕ) (t : TerminalTab) → IsCurrent t → IsCurrent (offer_clipboard_read f t).0
unfolding offer_clipboard_read
offer-IsCurrent f t v = elim (Bool-cases (clipboard_open t)) [
  | inr shut ↦ rw (shut) v
  | inl is_open ↦ rw (is_open) (record {
    current = λ p h. ground (arith, next_request_id-pos t.next_clipboard_read_token, h);
  })
]

key_none : (t : TerminalTab) → t.pending_clipboard_read ≡ none → clipboard_read_key t ≡ none
unfolding clipboard_read_key
key_none t h = ground (arith, h)

key_shut : (t : TerminalTab) → clipboard_open t ≡ false → clipboard_read_key t ≡ none
unfolding clipboard_read_key
key_shut t h = elim (Option-cases t.pending_clipboard_read) [
  | inl nothing ↦ key_none t nothing
  | inr (p, waits) ↦ ground (arith, waits)
]

key_open :
    (t : TerminalTab) (p : PendingClipboardRead)
    → IsCurrent t
    → t.pending_clipboard_read ≡ some p
    → clipboard_open t ≡ true
    → clipboard_read_key t ≡ some (p.token, t.reconnect_generation)
unfolding clipboard_read_key
key_open t p v h k = ground (arith, v.current p h, h)

formatter_for_lem :
    (t : TerminalTab) (p : PendingClipboardRead)
    → IsCurrent t
    → t.pending_clipboard_read ≡ some p
    → formatter_for p.token t.reconnect_generation p ≡ some p.formatter
formatter_for_lem t p v h = ground (arith, v.current p h)

take_none :
    (t : TerminalTab) → clipboard_read_key t ≡ none → take_pending_clipboard_read t ≡ (t, none)
unfolding take_pending_clipboard_read
take_none t h = rw (take_pending_clipboard_read, h) refl

take_open :
    (t : TerminalTab) (p : PendingClipboardRead)
    → IsCurrent t
    → t.pending_clipboard_read ≡ some p
    → clipboard_open t ≡ true
    → take_pending_clipboard_read t ≡ (record t { pending_clipboard_read = none }, some p.formatter)
unfolding take_pending_clipboard_read
take_open t p v h k =
    let here : (not (t.reconnect_generation == t.reconnect_generation)
          || not t.connected
          || not t.worker_running
          || not (is_some t.worker))
        ≡ false =
      ground (arith, k) in
    rw (take_pending_clipboard_read, key_open t p v h k, here)
      (ap (taken t p.token t.reconnect_generation) h
        ∙ ap (λ f. (record t { pending_clipboard_read = none }, f)) (formatter_for_lem t p v h))

take-IsCurrent : (t : TerminalTab) → IsCurrent t → IsCurrent (take_pending_clipboard_read t).0
take-IsCurrent t v = elim (Option-cases t.pending_clipboard_read) [
  | inl nothing ↦ subst IsCurrent (sym (ap result (take_none t (key_none t nothing)))) v
  | inr (p, waits) ↦ elim (Bool-cases (clipboard_open t)) [
    | inr shut ↦ subst IsCurrent (sym (ap result (take_none t (key_shut t shut)))) v
    | inl is_open ↦
        subst IsCurrent (sym (ap result (take_open t p v waits is_open)))
          (none-IsCurrent (record t { pending_clipboard_read = none }) refl)
  ]
]
  where
    result : TerminalTab × Option ℕ → TerminalTab
    result r = r.0

dropped-IsCurrent : (t u : TerminalTab) → IsDropped t u → IsCurrent u
dropped-IsCurrent t u d = none-IsCurrent u d.pending

clear-IsCurrent :
    (k g : ℕ) (t : TerminalTab) → IsCurrent t → IsCurrent (clear_clipboard_read k g t).0
unfolding clear_clipboard_read
clear-IsCurrent k g t v = elim (Bool-cases (is_pending k g t)) [
  | inl known ↦ rw (known) (none-IsCurrent (record t { pending_clipboard_read = none }) refl)
  | inr other ↦ rw (other) v
]

begin-IsCurrent : (t : TerminalTab) → IsCurrent t → IsCurrent (begin_reconnect t).0
unfolding begin_reconnect
begin-IsCurrent t v =
    elim (Bool-cases (not t.reconnect_enabled || t.reconnecting || is_some t.worker)) [
      | inl busy ↦ rw (busy) v
      | inr free ↦ elim (Bool-cases (t.reconnect_attempt == 255)) [
        | inl full ↦ rw (free, full) v
        | inr counts ↦ elim (Bool-cases (ltb max_reconnect_attempts (t.reconnect_attempt + 1))) [
          | inl last ↦ rw (free, counts, last) v
          | inr more ↦ rw (free, counts, more) (record { current = v.current })
        ]
      ]
    ]

finish-IsCurrent :
    (g : ℕ) (t : TerminalTab) → IsCurrent t → IsCurrent (finish_reconnect_attempt g t).0
unfolding finish_reconnect_attempt
finish-IsCurrent g t v = elim (Bool-cases (t.reconnect_generation == g)) [
  | inl same ↦ rw (same) (record { current = v.current })
  | inr other ↦ rw (other) v
]

mark-IsCurrent :
    (g : ℕ) (t : TerminalTab) → IsCurrent t → IsCurrent (mark_reconnect_connected g t).0
unfolding mark_reconnect_connected
mark-IsCurrent g t v = elim (Bool-cases (t.reconnect_generation == g)) [
  | inl same ↦ rw (same) (record { current = v.current })
  | inr other ↦ rw (other) v
]

step-IsCurrent : (e : SessionEvent) (t : TerminalTab) → IsCurrent t → IsCurrent (session_step e t)
unfolding session_step
step-IsCurrent (offers_clipboard f) t v = offer-IsCurrent f t v
step-IsCurrent takes_clipboard t v = take-IsCurrent t v
step-IsCurrent clears_pending t v = unfold clear_pending_clipboard_read in none-IsCurrent _ refl
step-IsCurrent (clears_clipboard k g) t v = clear-IsCurrent k g t v
step-IsCurrent begins_reconnect t v = begin-IsCurrent t v
step-IsCurrent cancels_reconnect t v = unfold cancel_reconnect in none-IsCurrent _ refl
step-IsCurrent retries_manually t v = unfold prepare_manual_retry in none-IsCurrent _ refl
step-IsCurrent enables_reconnect t v = unfold enable_reconnect in record { current = v.current }
step-IsCurrent (finishes_reconnect g) t v = finish-IsCurrent g t v
step-IsCurrent (marks_connected g) t v = mark-IsCurrent g t v
step-IsCurrent connects_ssh t v =
    unfold ssh_connected in mark-IsCurrent _ _ (record { current = v.current })
step-IsCurrent connects_directly t v =
    unfold direct_connected in mark-IsCurrent _ _ (record { current = v.current })
step-IsCurrent stops_ssh t v = dropped-IsCurrent t _ (stop_attempt-IsDropped t)
step-IsCurrent (stops_directly p) t v = dropped-IsCurrent t _ (stop_direct_attempt-IsDropped p t)
step-IsCurrent (sets_ssh_attempt o) t v = IsSame-IsCurrent t _ (set_ssh_attempt-IsSame o t) v
step-IsCurrent (sets_telnet_attempt o) t v = IsSame-IsCurrent t _ (set_telnet_attempt-IsSame o t) v
step-IsCurrent (sets_serial_attempt o) t v = IsSame-IsCurrent t _ (set_serial_attempt-IsSame o t) v
step-IsCurrent (sets_phase phase) t v = IsSame-IsCurrent t _ (set_ssh_phase-IsSame phase t) v
step-IsCurrent (sets_secret secret) t v =
    IsSame-IsCurrent t _ (set_pending_auth_secret-IsSame secret t) v
step-IsCurrent takes_secret t v = IsSame-IsCurrent t _ (take_pending_auth_secret-IsSame t) v
step-IsCurrent takes_probe t v = IsSame-IsCurrent t _ (take_pending_probe-IsSame t) v
step-IsCurrent moves_selection t v = unfold invalidate_selection in record { current = v.current }
step-IsCurrent (installs_worker w) t v = record { current = v.current }
step-IsCurrent (sets_terminal o) t v = record { current = v.current }

run-IsCurrent :
    (es : List SessionEvent) (t : TerminalTab) → IsCurrent t → IsCurrent (session_run es t)
unfolding session_run
run-IsCurrent [] t v = v
run-IsCurrent (e ∷ es) t v = run-IsCurrent es (session_step e t) (step-IsCurrent e t v)

-- Whatever has happened to a Tab that had no request for the clipboard, a request that waits is
-- answered, once and with its own formatter, exactly while the Tab is connected and its terminal lets
-- the host read the clipboard; and a token and a generation clear it only when they are the last that
-- were given.
pub session_run-take_pending_clipboard_read :
    (es : List SessionEvent) (t : TerminalTab)
    → t.pending_clipboard_read ≡ none
    → (p : PendingClipboardRead) → (session_run es t).pending_clipboard_read ≡ some p
    → (take_pending_clipboard_read (session_run es t) ≡ (
        if clipboard_open (session_run es t)
        then (record (session_run es t) { pending_clipboard_read = none }, some p.formatter)
        else (session_run es t, none)))
      × ((token generation : ℕ)
          → (clear_clipboard_read token generation (session_run es t)).1 ≡ (
              (token == (session_run es t).next_clipboard_read_token)
              && generation == (session_run es t).reconnect_generation))
unfolding clear_clipboard_read
session_run-take_pending_clipboard_read es t new p waits =
    let u = session_run es t in
    let v = run-IsCurrent es t (none-IsCurrent t new) in
    (
      elim (Bool-cases (clipboard_open u)) [
        | inl is_open ↦ take_open u p v waits is_open ∙ rw (is_open) refl
        | inr shut ↦ take_none u (key_shut u shut) ∙ rw (shut) refl
      ],
      λ token generation. ground (arith, v.current p waits, waits),
    )
