-- ===== src/Sftp/Browser/Return.antt =====
-- src/app/state/sftp.rs: a step back in the history is undone by a step forward.
use ax_ssh.Prelude.{ℕ, ◌<◌, false, ◌≡◌, refl, sym, ◌∙◌, none, some, List, ◌∷◌, length, arith}
use ax_ssh.Prelude.Bytes.{Text, is_empty}
use ax_ssh.Sftp.Browser.{
  Browser, back, forward, begun, begin_navigation, complete_navigation, requested_path, complete_by,
  complete_directory_history, push_sftp_history, is_newest, requesting, sftp_history_limit,
}
use ax_ssh.Sftp.Browser.History.{IsHistory, newest_self}
use ax_ssh.Sftp.Browser.Requests.{IsBrowsing}

push_room :
    (c : Text) (h : List Text)
    → is_empty c ≡ false
    → is_newest c h ≡ false
    → length h < sftp_history_limit
    → push_sftp_history c h ≡ c ∷ h
unfolding push_sftp_history
push_room c h full fresh room = ground arith

-- The histories when a step back arrives.
arrived_back :
    (c p : Text) (ps news : List Text)
    → push_sftp_history c news ≡ c ∷ news
    → complete_directory_history
        (some (record { kind = back; from = c; requested = p }))
        p
        (p ∷ ps)
        news
      ≡ (ps, c ∷ news)
unfolding complete_directory_history complete_by
arrived_back c p ps news h = ground (arith, newest_self p ps)

-- And when a step forward arrives.
arrived_forward :
    (c p : Text) (ps news : List Text)
    → push_sftp_history p ps ≡ p ∷ ps
    → complete_directory_history
        (some (record { kind = forward; from = p; requested = c }))
        c
        ps
        (c ∷ news)
      ≡ (p ∷ ps, news)
unfolding complete_directory_history complete_by
arrived_forward c p ps news h = ground (arith, newest_self c news)

begins_back :
    (s : Browser) (p : Text) (ps : List Text)
    → s.loading ≡ false
    → s.back_history ≡ p ∷ ps
    → is_empty p ≡ false
    → begin_navigation back none s ≡ begun (requesting back p s).request_id p (requesting back p s)
unfolding begin_navigation requested_path
begins_back s p ps idle known full = ground arith

begins_forward :
    (s : Browser) (p : Text) (ps : List Text)
    → s.loading ≡ false
    → s.forward_history ≡ p ∷ ps
    → is_empty p ≡ false
    → begin_navigation forward none s
      ≡ begun (requesting forward p s).request_id p (requesting forward p s)
unfolding begin_navigation requested_path
begins_forward s p ps idle known full = ground arith

-- The state in which a step back arrives.
arrived_mid :
    (s : Browser) (p : Text) (ps : List Text)
    → s.back_history ≡ p ∷ ps
    → complete_directory_history
        (some (record { kind = back; from = s.path; requested = p }))
        p
        (p ∷ ps)
        s.forward_history
      ≡ (ps, s.path ∷ s.forward_history)
    → ((complete_navigation p (requesting back p s)).path ≡ p)
      × ((complete_navigation p (requesting back p s)).back_history ≡ ps)
      × ((complete_navigation p (requesting back p s)).forward_history ≡ s.path ∷ s.forward_history)
      × ((complete_navigation p (requesting back p s)).loading ≡ false)
unfolding complete_navigation requesting
arrived_mid s p ps known h = rw (known, h) (refl, refl, refl, refl)

-- The state in which a step forward arrives.
arrived_end :
    (m : Browser) (c p : Text) (ps news : List Text)
    → m.path ≡ p
    → m.back_history ≡ ps
    → m.forward_history ≡ c ∷ news
    → complete_directory_history
        (some (record { kind = forward; from = p; requested = c }))
        c
        ps
        (c ∷ news)
      ≡ (p ∷ ps, news)
    → ((complete_navigation c (requesting forward c m)).path ≡ c)
      × ((complete_navigation c (requesting forward c m)).back_history ≡ p ∷ ps)
      × ((complete_navigation c (requesting forward c m)).forward_history ≡ news)
unfolding complete_navigation requesting
arrived_end m c p ps news here olds fresh h = rw (here, olds, fresh, h) (refl, refl, refl)

-- A step back and then a step forward, both answered with the paths that they asked for, come back to
-- the directory and to the two histories, if there is room in the forward history and the directory
-- is not already its newest path.
pub back-forward :
    (s : Browser) (p : Text) (ps : List Text)
    → IsBrowsing s
    → s.loading ≡ false
    → s.back_history ≡ p ∷ ps
    → is_empty s.path ≡ false
    → is_newest s.path s.forward_history ≡ false
    → length s.forward_history < sftp_history_limit
    → (id : ℕ) × (s' : Browser) × (id' : ℕ) × (s'' : Browser) × (begin_navigation back none s
        ≡ begun id p s')
      × (begin_navigation forward none (complete_navigation p s') ≡ begun id' s.path s'')
      × ((complete_navigation s.path s'').path ≡ s.path)
      × ((complete_navigation s.path s'').back_history ≡ s.back_history)
      × ((complete_navigation s.path s'').forward_history ≡ s.forward_history)
back-forward s p ps v idle known there fresh room =
    let cleaned : IsHistory (p ∷ ps) = rw (← known) v.back_is in
    let first = requesting back p s in
    let mid = complete_navigation p first in
    let second = requesting forward s.path mid in
    let to_back =
      arrived_back s.path p ps s.forward_history
        (push_room s.path s.forward_history there fresh room) in
    let to_forward =
      arrived_forward s.path p ps s.forward_history
        (push_room p ps cleaned.clean.0 cleaned.clean.1 (omega (arith, cleaned.bounded))) in
    let mid_is = arrived_mid s p ps known to_back in
    let last_is =
      arrived_end mid s.path p ps s.forward_history mid_is.0 mid_is.1 mid_is.2 to_forward in
    (
      first.request_id,
      first,
      second.request_id,
      second,
      begins_back s p ps idle known cleaned.clean.0,
      begins_forward mid s.path s.forward_history mid_is.3 mid_is.2 there,
      last_is.0,
      last_is.1 ∙ sym known,
      last_is.2,
    )
