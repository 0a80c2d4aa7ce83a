-- ===== src/Sftp/Browser.antt =====
-- src/app/state/sftp.rs, `SftpBrowserState`: the remote directory of a Tab, the requests for it and
-- its histories. The transfers are those of the table. A status line and the local directory are
-- left out.
pub mod History
pub mod Requests
pub mod Return
pub mod Refresh
use ax_ssh.Prelude.{
  ℕ, ◌⊎◌, inl, inr, Bool, true, false, not, ◌&&◌, ◌||◌, Option, none, some, List, [], ◌∷◌, ◌++◌,
  ◌==◌, leb, length, if◌then◌else◌,
}
use ax_ssh.Prelude.Keyed.{contains, insert, remove}
use ax_ssh.Prelude.Words.{next_request_id}
use ax_ssh.Prelude.Bytes.{
  Text, text_eq, same_text, is_empty, starts_with, trim, trim_end_matches, rsplit_once, has_prefix,
}
use ax_ssh.Sftp.Table.{Table, empty}
use ax_ssh.Sftp.Table.Selection.{prepare_transfers_for_reconnect}

abbrev pub sftp_history_limit : ℕ
sftp_history_limit = 128

pub data SftpNavigation : Type 0 where
  direct back forward up : SftpNavigation

pub record PendingNavigation : Type 0 where
  pub kind : SftpNavigation
  pub from : Text
  pub requested : Text

pub record RemoteEntry : Type 0 where
  pub path : Text
  pub name : Text

-- A history begins with its newest path, which is the back of the source's queue.
pub record Browser : Type 0 where
  pub is_open : Bool
  pub loading : Bool
  pub path : Text
  pub entries : List RemoteEntry
  pub has_more : Bool
  pub truncated : Bool
  pub request_id : ℕ
  pub selected : List Text
  pub rename_name : Text
  pub back_history : List Text
  pub forward_history : List Text
  pub pending_navigation : Option PendingNavigation
  pub pending_auto_refresh : Option Text
  pub table : Table

-- `SftpBrowserState::default`, which is what `reset` leaves.
abbrev pub closed : Browser
closed = record {
  is_open = false;
  loading = false;
  path = [];
  entries = [];
  has_more = false;
  truncated = false;
  request_id = 0;
  selected = [];
  rename_name = [];
  back_history = [];
  forward_history = [];
  pending_navigation = none;
  pending_auto_refresh = none;
  table = empty;
}

pub data NavigationError : Type 0 where
  request_in_progress path_missing no_previous no_next no_parent path_empty no_page :
      NavigationError

-- A request that was begun, with its number and its path, or the error, which changes nothing.
pub data Begun : Type 0 where
  begun : ℕ → Text → Browser → Begun
  not_begun : NavigationError → Begun

unfoldable pub remote_parent : Text → Option Text
unfolding rsplit_once
remote_parent path = elim (rsplit_once 47 path) [
  | none ↦ none
  | some (parent, name) ↦
      (if is_empty name then none else some (if is_empty parent then 47 ∷ [] else parent))
]

unfoldable pub remote_directory_parent : Text → Option Text
unfolding remote_parent trim_end_matches
remote_directory_parent path =
    if not (starts_with 47 path) then none else remote_parent (trim_end_matches 47 path)

abbrev pub newest : List Text → Option Text
newest [] = none
newest (p ∷ ps) = some p

abbrev pub is_newest : Text → List Text → Bool
is_newest path [] = false
is_newest path (p ∷ ps) = same_text p path

-- `pop_front`, of the oldest path.
abbrev pub drop_oldest : List Text → List Text
drop_oldest [] = []
drop_oldest (p ∷ []) = []
drop_oldest (p ∷ q ∷ ps) = p ∷ drop_oldest (q ∷ ps)

unfoldable pub push_sftp_history : Text → List Text → List Text
unfolding same_text
push_sftp_history path history =
    if is_empty path || is_newest path history
    then history
    else path ∷ (if leb sftp_history_limit (length history) then drop_oldest history else history)

abbrev pub without_newest : List Text → List Text
without_newest [] = []
without_newest (p ∷ ps) = ps

abbrev pub when_some : Option Text → NavigationError → NavigationError ⊎ Text
when_some none e = inl e
when_some (some p) e = inr p

-- The path of a request.
unfoldable pub requested_path : SftpNavigation → Option Text → Browser → NavigationError ⊎ Text
unfolding trim remote_directory_parent
requested_path direct none s = inl path_missing
requested_path direct (some path) s = inr (trim path)
requested_path back path s = when_some (newest s.back_history) no_previous
requested_path forward path s = when_some (newest s.forward_history) no_next
requested_path up path s = when_some (remote_directory_parent s.path) no_parent

-- The state of a request that is begun.
unfoldable pub requesting : SftpNavigation → Text → Browser → Browser
unfolding next_request_id
requesting kind requested s = record s {
  pending_navigation = some (record { kind = kind; from = s.path; requested = requested });
  loading = true;
  request_id = next_request_id s.request_id;
}

unfoldable pub begin_navigation : SftpNavigation → Option Text → Browser → Begun
unfolding requested_path requesting
begin_navigation kind path s =
    if s.loading then not_begun request_in_progress else (elim (requested_path kind path s) [
      | inl e ↦ not_begun e
      | inr requested ↦
          (if is_empty requested
            then not_begun path_empty
            else begun (requesting kind requested s).request_id requested
                (requesting kind requested s))
    ])

unfoldable pub begin_load_more : Browser → NavigationError ⊎ (ℕ × Browser)
unfolding next_request_id
begin_load_more s =
    if s.loading
    then inl request_in_progress
    else if not s.has_more
    then inl no_page
    else inr (
      next_request_id s.request_id,
      record s { loading = true; request_id = next_request_id s.request_id },
    )

unfoldable pub cancel_navigation : Browser → Browser
cancel_navigation s = record s { pending_navigation = none; loading = false }

unfoldable pub accepts_request : Option ℕ → Browser → Bool
accepts_request none s = true
accepts_request (some id) s = id == s.request_id

unfoldable pub reset_navigation : Browser → Browser
unfolding next_request_id
reset_navigation s = record s {
  request_id = next_request_id s.request_id;
  path = [];
  entries = [];
  has_more = false;
  truncated = false;
  selected = [];
  rename_name = [];
  back_history = [];
  forward_history = [];
  pending_navigation = none;
  pending_auto_refresh = none;
}

-- A directory that is visited, and not from the histories.
abbrev pub visited : PendingNavigation → Text → List Text → List Text → List Text × List Text
visited pending path olds news =
    if not (same_text pending.from path)
    then (push_sftp_history pending.from olds, [])
    else (olds, news)

unfoldable pub complete_by :
    SftpNavigation → PendingNavigation → Text → List Text → List Text → List Text × List Text
unfolding push_sftp_history same_text
complete_by direct pending path olds news = visited pending path olds news
complete_by up pending path olds news = visited pending path olds news
complete_by back pending path olds news =
    if is_newest pending.requested olds
    then (without_newest olds, push_sftp_history pending.from news)
    else (olds, news)
complete_by forward pending path olds news =
    if is_newest pending.requested news
    then (push_sftp_history pending.from olds, without_newest news)
    else (olds, news)

-- `complete_directory_history`, of the two histories.
unfoldable pub complete_directory_history :
    Option PendingNavigation → Text → List Text → List Text → List Text × List Text
unfolding complete_by
complete_directory_history none path olds news = (olds, news)
complete_directory_history (some pending) path olds news =
    complete_by pending.kind pending path olds news

unfoldable pub complete_navigation : Text → Browser → Browser
unfolding complete_directory_history
complete_navigation path s =
    let histories =
      complete_directory_history s.pending_navigation path s.back_history s.forward_history in
    record s {
      back_history = histories.0;
      forward_history = histories.1;
      pending_navigation = none;
      loading = false;
      path = path;
    }

-- `prepare_for_reconnect`, the whole of it.
unfoldable pub prepare_for_reconnect : Browser → Browser
unfolding reset_navigation prepare_transfers_for_reconnect
prepare_for_reconnect s = record (reset_navigation s) {
  is_open = false;
  loading = false;
  table = prepare_transfers_for_reconnect s.table;
}
