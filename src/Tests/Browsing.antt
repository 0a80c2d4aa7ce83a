-- ===== src/Tests/Browsing.antt =====
-- src/app/state/sftp.rs: a walk through remote directories.
use ax_ssh.Prelude.{ℕ, ◌≡◌, ◌≢◌, ◌↔◌, refl, List, [], ◌∷◌, none, some, true, inl, arith, Option}
use ax_ssh.Prelude.Bytes.{Text}
use ax_ssh.Sftp.Browser.{
  Browser, closed, SftpNavigation, direct, back, forward, up, begun, not_begun, begin_navigation,
  begin_load_more, complete_navigation, accepts_request, request_in_progress, requesting,
  remote_directory_parent,
}
use ax_ssh.Sftp.Browser.Requests.{
  IsBrowsing, Navigating, navigate, arrived, browse_all, browse_all-IsBrowsing,
  begin_navigation-accepts,
}
use ax_ssh.Sftp.Browser.Return.{back-forward}

abbrev dir_a : Text
dir_a = 47 ∷ 97 ∷ []

abbrev dir_b : Text
dir_b = 47 ∷ 98 ∷ []

-- To `/a`, to `/b`, to the parent of `/b`.
abbrev walk : List Navigating
walk =
    navigate direct (some dir_a)
    ∷ arrived dir_a
    ∷ navigate direct (some dir_b)
    ∷ arrived dir_b
    ∷ navigate up none
    ∷ arrived (47 ∷ [])
    ∷ []

abbrev at_root : Browser
at_root = browse_all walk closed

parent_b : remote_directory_parent (47 ∷ 98 ∷ 47 ∷ []) ≡ some (47 ∷ [])
unfolding remote_directory_parent
parent_b = refl

back-at_root : at_root.back_history ≡ dir_b ∷ dir_a ∷ []
unfolding browse_all
back-at_root = refl

browse_all-IsBrowsing_example : IsBrowsing (browse_all walk closed)
browse_all-IsBrowsing_example = browse_all-IsBrowsing walk

abbrev first_request : Browser
first_request = requesting direct dir_a closed

begins-first : begin_navigation direct (some dir_a) closed ≡ begun 1 dir_a first_request
unfolding begin_navigation
begins-first = refl

begin_navigation-accepts_example :
    ((n : ℕ) → (accepts_request (some n) first_request ≡ true) ↔ (n ≡ 1))
    × (1 ≢ closed.request_id)
    × (accepts_request none first_request ≡ true)
    × (begin_load_more first_request ≡ inl request_in_progress)
    × ((k : SftpNavigation) (p : Option Text)
        → begin_navigation k p first_request ≡ not_begun request_in_progress)
begin_navigation-accepts_example =
    begin_navigation-accepts direct (some dir_a) closed first_request 1 dir_a begins-first
      (omega arith)

back-forward_example :
    (id : ℕ) × (s' : Browser) × (id' : ℕ) × (s'' : Browser) × (begin_navigation back none at_root
      ≡ begun id dir_b s')
    × (begin_navigation forward none (complete_navigation dir_b s') ≡ begun id' at_root.path s'')
    × ((complete_navigation at_root.path s'').path ≡ at_root.path)
    × ((complete_navigation at_root.path s'').back_history ≡ at_root.back_history)
    × ((complete_navigation at_root.path s'').forward_history ≡ at_root.forward_history)
unfolding browse_all
back-forward_example =
    back-forward at_root dir_b (dir_a ∷ []) (browse_all-IsBrowsing walk) refl refl refl refl
      (omega arith)

-- At `/b`, open, while the next page is on its way.
abbrev paging : Browser
paging = record closed { is_open = true; loading = true; path = dir_b; request_id = 4 }
