-- ===== src/Tests/Groups.antt =====
-- src/app/session_groups.rs: three profiles in two groups.
use ax_ssh.Prelude.{ℕ, ◌≡◌, refl, [], ◌∷◌}
use ax_ssh.Prelude.Counts.{count}
use ax_ssh.SessionGroups.{SessionStore, session_groups, group_options, ungrouped}
use ax_ssh.SessionGroups.Partition.{AreGroups, grouped_ids, ids_of, session_groups_lem}

abbrev saved_sessions : SessionStore
saved_sessions = record {
  groups = (97 ∷ []) ∷ [];
  sessions =
      record { id = 1; group_name = 32 ∷ 97 ∷ [] }
      ∷ record { id = 2; group_name = ungrouped }
      ∷ record { id = 3; group_name = 97 ∷ 32 ∷ [] }
      ∷ [];
}

groups-saved_sessions : grouped_ids (session_groups saved_sessions) ≡ 1 ∷ 3 ∷ 2 ∷ []
unfolding session_groups
groups-saved_sessions = refl

options-saved_sessions : group_options saved_sessions ≡ ungrouped ∷ (97 ∷ []) ∷ []
unfolding group_options
options-saved_sessions = refl

session_groups_lem_example :
    AreGroups (session_groups saved_sessions)
    × ((a : ℕ)
        → count a (grouped_ids (session_groups saved_sessions))
          ≡ count a (ids_of saved_sessions.sessions))
session_groups_lem_example = session_groups_lem saved_sessions
