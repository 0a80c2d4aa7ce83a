-- ===== src/Sftp/Browser/Refresh.antt =====
-- src/app/state/sftp.rs: which directory a change is about, and refreshes that wait for a request.
use ax_ssh.Prelude.{ℕ, not, ◌&&◌, ◌||◌, Option, none, some, [], ◌∷◌, ◌++◌, if◌then◌else◌}
use ax_ssh.Prelude.Bytes.{
  Text, same_text, is_empty, starts_with, trim, trim_end_matches, has_prefix,
}
use ax_ssh.Sftp.Browser.{
  Browser, direct, Begun, begun, not_begun, NavigationError, begin_navigation, remote_parent,
}

unfoldable pub visible_remote_directory_for_file : Text → Browser → Option Text
unfolding remote_parent same_text trim_end_matches has_prefix
visible_remote_directory_for_file path s =
    if not s.is_open then none else elim (remote_parent path) [
      | none ↦ none
      | some directory ↦
          (if same_text s.path directory
              || ((same_text s.path (47 ∷ []) && starts_with 47 directory)
                  || (not (is_empty s.path)
                      && has_prefix (trim_end_matches 47 s.path ++ (47 ∷ [])) directory))
            then some s.path
            else none)
    ]

-- What a refresh gives: nothing to do, a request that was begun, or its error.
pub data Refresh : Type 0 where
  idle : Refresh
  refreshing : ℕ → Text → Refresh
  refresh_failed : NavigationError → Refresh

abbrev pub refresh_of : Browser → Begun → Browser × Refresh
refresh_of s (begun id path s') = (s', refreshing id path)
refresh_of s (not_begun e) = (s, refresh_failed e)

unfoldable pub begin_refresh_after_remote_change : Text → Browser → Browser × Refresh
unfolding same_text begin_navigation
begin_refresh_after_remote_change directory s =
    if not s.is_open || not (same_text s.path directory)
    then (s, idle)
    else if s.loading
    then (record s { pending_auto_refresh = some directory }, idle)
    else refresh_of s (begin_navigation direct (some directory) s)

unfoldable pub begin_pending_auto_refresh : Browser → Browser × Refresh
unfolding begin_refresh_after_remote_change
begin_pending_auto_refresh s =
    if s.loading
    then (s, idle)
    else if not s.is_open
    then (record s { pending_auto_refresh = none }, idle)
    else elim s.pending_auto_refresh [
      | none ↦ (s, idle)
      | some directory ↦
          begin_refresh_after_remote_change directory (record s { pending_auto_refresh = none })
    ]

unfoldable pub upload_directory : Browser → Option Text
unfolding trim same_text
upload_directory s =
    if not s.is_open || is_empty (trim s.path) then none else (elim s.pending_navigation [
      | none ↦ some s.path
      | some pending ↦ (if not (same_text pending.requested s.path) then none else some s.path)
    ])
