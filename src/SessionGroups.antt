-- ===== src/SessionGroups.antt =====
-- src/app/session_groups.rs: the groups of the saved profiles. A text is the list of its
-- characters. Of a profile only its number and the name of its group are kept.
pub mod Partition
use ax_ssh.Prelude.{
  ℕ, ◌+◌, Bool, true, false, not, ◌&&◌, ◌||◌, List, [], ◌∷◌, ◌++◌, map, ◌==◌, leb, if◌then◌else◌,
}
use ax_ssh.Prelude.Bytes.{Text, text_eq, same_text, trim, is_empty}
use ax_ssh.Prelude.Keyed.{contains, insert}

pub record SessionProfile : Type 0 where
  pub id : ℕ
  pub group_name : Text

pub record SessionStore : Type 0 where
  pub groups : List Text
  pub sessions : List SessionProfile

pub record SessionGroup : Type 0 where
  pub name : Text
  pub profiles : List SessionProfile

abbrev pub to_lower : ℕ → ℕ
to_lower c = if leb 65 c && leb c 90 then c + 32 else c

-- `Ungrouped`, in lower case.
abbrev pub ungrouped_lower : Text
ungrouped_lower = 117 ∷ 110 ∷ 103 ∷ 114 ∷ 111 ∷ 117 ∷ 112 ∷ 101 ∷ 100 ∷ []

abbrev pub ungrouped : Text
ungrouped = 85 ∷ 110 ∷ 103 ∷ 114 ∷ 111 ∷ 117 ∷ 112 ∷ 101 ∷ 100 ∷ []

-- `normalize_group_name`, of src/config/session.rs.
unfoldable pub normalize_group_name : Text → Text
unfolding trim same_text
normalize_group_name value =
    let trimmed = trim value in
    if same_text (map to_lower trimmed) ungrouped_lower then [] else trimmed

-- A profile pushed to the first group of the name, or to a new one.
unfoldable pub push_profile : Text → SessionProfile → List SessionGroup → List SessionGroup
unfolding same_text
push_profile name profile [] = record { name = name; profiles = profile ∷ [] } ∷ []
push_profile name profile (g ∷ gs) =
    let rest = push_profile name profile gs in
    if same_text g.name name
    then record g { profiles = g.profiles ++ (profile ∷ []) } ∷ gs
    else g ∷ rest

unfoldable pub push_all : List SessionProfile → List SessionGroup → List SessionGroup
unfolding push_profile normalize_group_name
push_all [] groups = groups
push_all (p ∷ ps) groups = push_all ps (push_profile (normalize_group_name p.group_name) p groups)

abbrev pub empty_group : Text → SessionGroup
empty_group name = record { name = normalize_group_name name; profiles = [] }

unfoldable pub session_groups : SessionStore → List SessionGroup
unfolding push_all normalize_group_name
session_groups store = push_all store.sessions (map empty_group store.groups)

-- The names that are not empty and not yet seen, and the names seen.
unfoldable pub collect_options : List Text → List Text → List Text × List Text
unfolding normalize_group_name contains insert
collect_options seen [] = ([], seen)
collect_options seen (name ∷ names) =
    let group_name = normalize_group_name name in
    let passed = collect_options seen names in
    let added = collect_options (insert group_name seen) names in
    if not (is_empty group_name) && not (contains group_name seen)
    then (group_name ∷ added.0, added.1)
    else passed

abbrev pub name_of : SessionProfile → Text
name_of p = p.group_name

unfoldable pub group_options : SessionStore → List Text
unfolding collect_options
group_options store =
    let of_groups = collect_options [] store.groups in
    ungrouped ∷ (of_groups.0 ++ (collect_options of_groups.1 (map name_of store.sessions)).0)
