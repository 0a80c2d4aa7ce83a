-- ===== src/Session/Current.antt =====
-- src/app/state/transitions.rs, `matches_attempt`, and src/app/connection/direct.rs,
-- `direct_attempt_matches`: the attempt that a Tab runs, said by its backend.
use ax_ssh.Prelude.{
  ℕ, true, ◌≡◌, ◌↔◌, ◌⊎◌, ap, ◌∙◌, inl, inr, Option, some, none, arith, Option-cases,
}
use ax_ssh.Prelude.Keyed.{nat_eq, lookup}
use ax_ssh.Session.{TerminalBackend, ssh, sftp, telnet, serial, local, TerminalTab}
use ax_ssh.Session.Attempts.{ssh_route, telnet_route, serial_route}
use ax_ssh.Session.Endings.{
  Tabs, is_route, matches_attempt, DirectProtocol, telnet_protocol, serial_protocol, direct_route,
  direct_attempt_matches,
}

-- The backend is a terminal or a file browser over SSH that runs this attempt of the session.
abbrev pub RunsSsh : ℕ → ℕ → TerminalBackend → Type 0
RunsSsh session attempt b = (b ≡ ssh session (some attempt)) ⊎ (b ≡ sftp session (some attempt))

-- The backend is of the protocol, and runs this attempt of the session.
abbrev pub RunsDirect : DirectProtocol → ℕ → ℕ → TerminalBackend → Type 0
RunsDirect telnet_protocol session attempt b = b ≡ telnet session (some attempt)
RunsDirect serial_protocol session attempt b = b ≡ serial session (some attempt)

-- A Tab of the number is there, and its backend is such a one.
abbrev pub HasTab : ℕ → Tabs → (TerminalBackend → Type 0) → Type 0
HasTab tab tabs P = (t : TerminalTab) × (lookup tab tabs ≡ some t) × P t.backend

route_lem : (s a p : ℕ) (c : Option ℕ) → is_route s a (some (p, c)) ≡ true → (p ≡ s) × (c ≡ some a)
route_lem s a p none h = ground arith
route_lem s a p (some b) h = (ground arith, ap some (ground arith))

route_self : (s a : ℕ) → is_route s a (some (s, some a)) ≡ true
route_self s a = ground arith

same_route :
    (make : ℕ → Option ℕ → TerminalBackend) (s a p : ℕ) (c : Option ℕ)
    → is_route s a (some (p, c)) ≡ true
    → make p c ≡ make s (some a)
same_route make s a p c h =
    let same = route_lem s a p c h in ap (λ q. make q c) same.0 ∙ ap (make s) same.1

runs_ssh : (s a : ℕ) (b : TerminalBackend) → is_route s a (ssh_route b) ≡ true → RunsSsh s a b
unfolding ssh_route
runs_ssh s a (ssh p c) h = inl (same_route ssh s a p c h)
runs_ssh s a (sftp p c) h = inr (same_route sftp s a p c h)
runs_ssh s a (telnet p c) h = ground arith
runs_ssh s a (serial p c) h = ground arith
runs_ssh s a local h = ground arith

pub ssh_route_iff :
    (s a : ℕ) (b : TerminalBackend) → (is_route s a (ssh_route b) ≡ true) ↔ RunsSsh s a b
unfolding ssh_route
ssh_route_iff s a b = (
  runs_ssh s a b,
  λ r. elim r [
    | inl e ↦ ap (λ b. is_route s a (ssh_route b)) e ∙ route_self s a
    | inr e ↦ ap (λ b. is_route s a (ssh_route b)) e ∙ route_self s a
  ],
)

runs_telnet :
    (s a : ℕ) (b : TerminalBackend) → is_route s a (telnet_route b) ≡ true → b ≡ telnet s (some a)
unfolding telnet_route
runs_telnet s a (ssh p c) h = ground arith
runs_telnet s a (sftp p c) h = ground arith
runs_telnet s a (telnet p c) h = same_route telnet s a p c h
runs_telnet s a (serial p c) h = ground arith
runs_telnet s a local h = ground arith

runs_serial :
    (s a : ℕ) (b : TerminalBackend) → is_route s a (serial_route b) ≡ true → b ≡ serial s (some a)
unfolding serial_route
runs_serial s a (ssh p c) h = ground arith
runs_serial s a (sftp p c) h = ground arith
runs_serial s a (telnet p c) h = ground arith
runs_serial s a (serial p c) h = same_route serial s a p c h
runs_serial s a local h = ground arith

pub direct_route_iff :
    (protocol : DirectProtocol) (s a : ℕ) (b : TerminalBackend)
    → (is_route s a (direct_route protocol b) ≡ true) ↔ RunsDirect protocol s a b
unfolding telnet_route serial_route
direct_route_iff telnet_protocol s a b =
    (runs_telnet s a b, λ e. ap (λ b. is_route s a (telnet_route b)) e ∙ route_self s a)
direct_route_iff serial_protocol s a b =
    (runs_serial s a b, λ e. ap (λ b. is_route s a (serial_route b)) e ∙ route_self s a)

pub matches_attempt_iff :
    (tabs : Tabs) (tab session attempt : ℕ)
    → (matches_attempt tabs tab session attempt ≡ true) ↔ HasTab tab tabs (RunsSsh session attempt)
unfolding matches_attempt
matches_attempt_iff tabs tab session attempt = (
  λ h. elim (Option-cases (lookup tab tabs)) [
    | inl missing ↦ ground (arith, missing, h)
    | inr (t, there) ↦
        (t, there, (ssh_route_iff session attempt t.backend).0 (ground (arith, there, h)))
  ],
  λ v.
      let found = (ssh_route_iff session attempt v.0.backend).1 v.2 in
      rw (matches_attempt, v.1) found,
)

pub direct_attempt_matches_iff :
    (tabs : Tabs) (tab session attempt : ℕ) (protocol : DirectProtocol)
    → (direct_attempt_matches tabs tab session attempt protocol ≡ true)
      ↔ HasTab tab tabs (RunsDirect protocol session attempt)
unfolding direct_attempt_matches
direct_attempt_matches_iff tabs tab session attempt protocol = (
  λ h. elim (Option-cases (lookup tab tabs)) [
    | inl missing ↦ ground (arith, missing, h)
    | inr (t, there) ↦ (
      t,
      there,
      (direct_route_iff protocol session attempt t.backend).0 (ground (arith, there, h)),
    )
  ],
  λ v.
      let found = (direct_route_iff protocol session attempt v.0.backend).1 v.2 in
      rw (direct_attempt_matches, v.1) found,
)
