-- ===== src/Session/Retired.antt =====
-- src/app/state/transitions.rs and src/app/connection/direct.rs: an attempt at a connection ends once,
-- and its end stops its own Tab and no other.
use ax_ssh.Prelude.{
  ℕ, Bool, true, false, ◌≡◌, ◌≢◌, ◌↔◌, ◌⊎◌, refl, ap, ◌∙◌, inl, inr, some, arith, Bool-cases,
  Option-cases,
}
use ax_ssh.Prelude.Keyed.{nat_eq, lookup, insert_at, lookup-insert_at}
use ax_ssh.Session.{SshConnectionPhase, TerminalTab}
use ax_ssh.Session.Attempts.{ssh_route, set_ssh_phase}
use ax_ssh.Session.Endings.{
  Tabs, is_route, matches_attempt, stop_attempt, when_current, prepare_retry_with_phase,
  retire_sftp, retire_session_attempt, DirectProtocol, telnet_protocol, serial_protocol,
  direct_route, direct_attempt_matches, stop_direct_attempt, finish_direct_attempt,
}
use ax_ssh.Session.Current.{
  RunsSsh, RunsDirect, HasTab, matches_attempt_iff, direct_attempt_matches_iff,
}
use ax_ssh.Session.Stopped.{
  HasNoAttempt, IsStopped, stop_attempt-IsStopped, stop_direct_attempt-IsStopped,
  set_ssh_phase-IsStopped, retire_sftp-IsStopped,
}

-- The ways in which an attempt ends.
pub data Ending : Type 0 where
  retries_with : SshConnectionPhase → Ending
  retires : Ending
  finishes : DirectProtocol → Ending

unfoldable pub end_attempt : Ending → ℕ → ℕ → ℕ → Tabs → Tabs × Bool
unfolding prepare_retry_with_phase retire_session_attempt finish_direct_attempt
end_attempt (retries_with phase) tab session attempt tabs =
    prepare_retry_with_phase tab session attempt phase tabs
end_attempt retires tab session attempt tabs = retire_session_attempt tab session attempt tabs
end_attempt (finishes protocol) tab session attempt tabs =
    finish_direct_attempt tab session attempt protocol tabs

-- The end of the current attempt stops its Tab and leaves the others.
pub record IsEnded (tab : ℕ) (before after : Tabs) : Type 0 where
  pub stopped : TerminalTab
  pub stopped_at : lookup tab after ≡ some stopped
  pub stops : IsStopped stopped
  pub others : (other : ℕ) → other ≢ tab → lookup other after ≡ lookup other before

changed-IsEnded :
    (tab : ℕ) (u : TerminalTab) (tabs : Tabs)
    → IsStopped u
    → IsEnded tab tabs (insert_at tab u tabs)
changed-IsEnded tab u tabs v = record {
  stopped = u;
  stopped_at = ground (arith, lookup-insert_at tab tab u tabs, nat_eq.beq_iff tab tab);
  stops = v;
  others = λ other h. ground (arith, lookup-insert_at tab other u tabs, nat_eq.beq_iff tab other);
}

matches_attempt_lem :
    (tabs : Tabs) (tab session attempt : ℕ)
    → matches_attempt tabs tab session attempt ≡ true
    → (t : TerminalTab) × (lookup tab tabs ≡ some t)
      × (is_route session attempt (ssh_route t.backend) ≡ true)
unfolding matches_attempt
matches_attempt_lem tabs tab session attempt h = elim (Option-cases (lookup tab tabs)) [
  | inl missing ↦ ground (arith, missing, h)
  | inr (t, there) ↦ (t, there, ground (arith, there, h))
]

direct_attempt_matches_lem :
    (tabs : Tabs) (tab session attempt : ℕ) (protocol : DirectProtocol)
    → direct_attempt_matches tabs tab session attempt protocol ≡ true
    → (t : TerminalTab) × (lookup tab tabs ≡ some t)
      × (is_route session attempt (direct_route protocol t.backend) ≡ true)
unfolding direct_attempt_matches
direct_attempt_matches_lem tabs tab session attempt protocol h =
    elim (Option-cases (lookup tab tabs)) [
      | inl missing ↦ ground (arith, missing, h)
      | inr (t, there) ↦ (t, there, ground (arith, there, h))
    ]

-- Whether the attempt that an ending is for is the Tab's current one.
abbrev pub is_current : Ending → ℕ → ℕ → ℕ → Tabs → Bool
is_current (retries_with phase) tab session attempt tabs = matches_attempt tabs tab session attempt
is_current retires tab session attempt tabs = matches_attempt tabs tab session attempt
is_current (finishes protocol) tab session attempt tabs =
    direct_attempt_matches tabs tab session attempt protocol

stopped-not_current :
    (e : Ending) (tab session attempt : ℕ) (tabs : Tabs) (t : TerminalTab)
    → lookup tab tabs ≡ some t
    → HasNoAttempt t.backend
    → is_current e tab session attempt tabs ≡ false
unfolding matches_attempt direct_attempt_matches
stopped-not_current (retries_with phase) tab session attempt tabs t h v =
    rw (matches_attempt, h) (v.over_ssh session attempt)
stopped-not_current retires tab session attempt tabs t h v =
    rw (matches_attempt, h) (v.over_ssh session attempt)
stopped-not_current (finishes telnet_protocol) tab session attempt tabs t h v =
    rw (direct_attempt_matches, h) (v.over_telnet session attempt)
stopped-not_current (finishes serial_protocol) tab session attempt tabs t h v =
    rw (direct_attempt_matches, h) (v.over_serial session attempt)

-- What an ending does to its Tab.
abbrev pub change_of : Ending → TerminalTab → TerminalTab
change_of (retries_with phase) t = (set_ssh_phase phase (stop_attempt t)).0
change_of retires t = retire_sftp t.reconnect_enabled (stop_attempt t)
change_of (finishes protocol) t = stop_direct_attempt protocol t

end_attempt-change :
    (e : Ending) (tab session attempt : ℕ) (tabs : Tabs)
    → end_attempt e tab session attempt tabs
      ≡ when_current (is_current e tab session attempt tabs) tab (change_of e) tabs
unfolding end_attempt prepare_retry_with_phase retire_session_attempt finish_direct_attempt
end_attempt-change (retries_with phase) tab session attempt tabs = refl
end_attempt-change retires tab session attempt tabs = refl
end_attempt-change (finishes protocol) tab session attempt tabs = refl

change_of-IsStopped :
    (e : Ending) (tab session attempt : ℕ) (tabs : Tabs)
    → is_current e tab session attempt tabs ≡ true
    → (t : TerminalTab) × (lookup tab tabs ≡ some t) × IsStopped (change_of e t)
change_of-IsStopped (retries_with phase) tab session attempt tabs h =
    let t = matches_attempt_lem tabs tab session attempt h in
    (
      t.0,
      t.1,
      set_ssh_phase-IsStopped phase (stop_attempt t.0)
          (stop_attempt-IsStopped t.0 session attempt t.2),
    )
change_of-IsStopped retires tab session attempt tabs h =
    let t = matches_attempt_lem tabs tab session attempt h in
    (
      t.0,
      t.1,
      retire_sftp-IsStopped t.0.reconnect_enabled (stop_attempt t.0)
          (stop_attempt-IsStopped t.0 session attempt t.2),
    )
change_of-IsStopped (finishes protocol) tab session attempt tabs h =
    let t = direct_attempt_matches_lem tabs tab session attempt protocol h in
    (t.0, t.1, stop_direct_attempt-IsStopped protocol t.0 session attempt t.2)

-- The Tab's backend runs the attempt that an ending is for: over SSH, or over the protocol that the
-- ending names.
abbrev pub RunsFor : Ending → ℕ → ℕ → ℕ → Tabs → Type 0
RunsFor (retries_with phase) tab session attempt tabs = HasTab tab tabs (RunsSsh session attempt)
RunsFor retires tab session attempt tabs = HasTab tab tabs (RunsSsh session attempt)
RunsFor (finishes protocol) tab session attempt tabs =
    HasTab tab tabs (RunsDirect protocol session attempt)

is_current_iff :
    (e : Ending) (tab session attempt : ℕ) (tabs : Tabs)
    → (is_current e tab session attempt tabs ≡ true) ↔ RunsFor e tab session attempt tabs
is_current_iff (retries_with phase) tab session attempt tabs =
    matches_attempt_iff tabs tab session attempt
is_current_iff retires tab session attempt tabs = matches_attempt_iff tabs tab session attempt
is_current_iff (finishes protocol) tab session attempt tabs =
    direct_attempt_matches_iff tabs tab session attempt protocol

not_runs : {R : Type 0} {b : Bool} → (b ≡ true) ↔ R → b ≡ false → R → ⊥
not_runs same other r = let e = same.1 r in ground arith

-- The end of an attempt (for a retry of the authentication or the host's key, for good, or of a Telnet
-- or serial connection) does nothing unless the Tab's backend is of that kind, of that session, and
-- runs that very attempt; when it does, the Tab has no worker left, is not connected, reconnecting
-- or waiting for the clipboard, no other Tab changes, and no end of any attempt of this Tab does
-- anything after it.
pub end_attempt-once :
    (e : Ending) (tab session attempt : ℕ) (tabs : Tabs)
    → ((¬ RunsFor e tab session attempt tabs)
        × (end_attempt e tab session attempt tabs ≡ (tabs, false)))
      ⊎ (RunsFor e tab session attempt tabs
          × ((end_attempt e tab session attempt tabs).1 ≡ true)
          × IsEnded tab tabs (end_attempt e tab session attempt tabs).0
          × ((again : Ending) (s a : ℕ)
              → end_attempt again tab s a (end_attempt e tab session attempt tabs).0
                ≡ ((end_attempt e tab session attempt tabs).0, false)))
end_attempt-once e tab session attempt tabs =
    let as_change = end_attempt-change e tab session attempt tabs in
    let same = is_current_iff e tab session attempt tabs in
    elim (Bool-cases (is_current e tab session attempt tabs)) [
      | inr other ↦ inl (not_runs same other, as_change ∙ rw (other) refl)
      | inl current ↦
          (let stops = change_of-IsStopped e tab session attempt tabs current in
            let ended : IsEnded tab tabs (end_attempt e tab session attempt tabs).0 =
              rw (as_change, current, stops.1)
                (changed-IsEnded tab (change_of e stops.0) tabs stops.2) in
            inr (
              same.0 current,
              rw (as_change, current) refl,
              ended,
              λ again s a.
                  let gone =
                    stopped-not_current again tab s a (end_attempt e tab session attempt tabs).0
                      ended.stopped ended.stopped_at ended.stops.attempt in
                  end_attempt-change again tab s a (end_attempt e tab session attempt tabs).0
                  ∙ ap
                      (λ b.
                        when_current b tab (change_of again)
                          (end_attempt e tab session attempt tabs).0)
                      gone,
            ))
    ]
