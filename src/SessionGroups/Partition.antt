-- ===== src/SessionGroups/Partition.antt =====
-- src/app/session_groups.rs: every profile is in the group of its name, once.
use ax_ssh.Prelude.{
  ℕ, ◌+◌, ◌≡◌, refl, ap, sym, ◌∙◌, inl, inr, List, [], ◌∷◌, ◌++◌, map, ◌==◌, arith, Bool-cases,
}
use ax_ssh.Prelude.Bytes.{Text, text_eq, same_text, same_text_iff}
use ax_ssh.Prelude.Counts.{one_if, count, count-append}
use ax_ssh.SessionGroups.{
  SessionProfile, SessionStore, SessionGroup, normalize_group_name, push_profile, push_all,
  empty_group, session_groups,
}

abbrev pub ids_of : List SessionProfile → List ℕ
ids_of [] = []
ids_of (p ∷ ps) = p.id ∷ ids_of ps

abbrev pub grouped_ids : List SessionGroup → List ℕ
grouped_ids [] = []
grouped_ids (g ∷ gs) = ids_of g.profiles ++ grouped_ids gs

-- Every profile is of its group.
abbrev pub AreNamed : Text → List SessionProfile → Type 0
AreNamed name [] = Unit
AreNamed name (p ∷ ps) = (normalize_group_name p.group_name ≡ name) × AreNamed name ps

abbrev pub AreGroups : List SessionGroup → Type 0
AreGroups [] = Unit
AreGroups (g ∷ gs) = AreNamed g.name g.profiles × AreGroups gs

AreNamed-push :
    (name : Text) (ps : List SessionProfile) (p : SessionProfile)
    → normalize_group_name p.group_name ≡ name
    → AreNamed name ps
    → AreNamed name (ps ++ (p ∷ []))
AreNamed-push name [] p h v = (h, tt)
AreNamed-push name (q ∷ ps) p h v = (v.0, AreNamed-push name ps p h v.1)

ids_of-push :
    (a : ℕ) (ps : List SessionProfile) (p : SessionProfile)
    → count a (ids_of (ps ++ (p ∷ []))) ≡ count a (ids_of ps) + one_if (p.id == a)
unfolding count
ids_of-push a [] p = omega arith
ids_of-push a (q ∷ ps) p = omega (arith, ids_of-push a ps p)

push_profile-AreGroups :
    (p : SessionProfile) (gs : List SessionGroup)
    → AreGroups gs
    → AreGroups (push_profile (normalize_group_name p.group_name) p gs)
unfolding push_profile
push_profile-AreGroups p [] v = ((refl, tt), tt)
push_profile-AreGroups p (g ∷ gs) v =
    elim (Bool-cases (same_text g.name (normalize_group_name p.group_name))) [
      | inl same ↦ rw (same) (
        AreNamed-push g.name g.profiles p
            (sym ((same_text_iff g.name (normalize_group_name p.group_name)).0 same)) v.0,
        v.1,
      )
      | inr other ↦ rw (other) (v.0, push_profile-AreGroups p gs v.1)
    ]

push_profile-ids :
    (a : ℕ) (name : Text) (p : SessionProfile) (gs : List SessionGroup)
    → count a (grouped_ids (push_profile name p gs)) ≡ count a (grouped_ids gs) + one_if (p.id == a)
unfolding push_profile count
push_profile-ids a name p [] = omega arith
push_profile-ids a name p (g ∷ gs) = elim (Bool-cases (same_text g.name name)) [
  | inl same ↦ rw (same) (
      omega (
        arith,
        ids_of-push a g.profiles p,
        count-append a (ids_of (g.profiles ++ (p ∷ []))) (grouped_ids gs),
        count-append a (ids_of g.profiles) (grouped_ids gs),
      ))
  | inr other ↦ rw (other) (
      omega (
        arith,
        push_profile-ids a name p gs,
        count-append a (ids_of g.profiles) (grouped_ids (push_profile name p gs)),
        count-append a (ids_of g.profiles) (grouped_ids gs),
      ))
]

push_all_lem :
    (ps : List SessionProfile) (gs : List SessionGroup)
    → AreGroups gs
    → AreGroups (push_all ps gs)
      × ((a : ℕ)
          → count a (grouped_ids (push_all ps gs)) ≡ count a (grouped_ids gs) + count a (ids_of ps))
unfolding push_all count
push_all_lem [] gs v = (v, λ a. omega arith)
push_all_lem (p ∷ ps) gs v =
    let name = normalize_group_name p.group_name in
    let rest = push_all_lem ps (push_profile name p gs) (push_profile-AreGroups p gs v) in
    (rest.0, λ a. omega (arith, rest.1 a, push_profile-ids a name p gs))

empty_groups_lem :
    (names : List Text)
    → AreGroups (map empty_group names) × (grouped_ids (map empty_group names) ≡ [])
empty_groups_lem [] = (tt, refl)
empty_groups_lem (name ∷ names) = let rest = empty_groups_lem names in ((tt, rest.0), rest.1)

-- Every profile is in the groups as often as it is saved, and only in a group of its name,
-- normalized.
pub session_groups_lem :
    (store : SessionStore)
    → AreGroups (session_groups store)
      × ((a : ℕ) → count a (grouped_ids (session_groups store)) ≡ count a (ids_of store.sessions))
unfolding session_groups count
session_groups_lem store =
    let start = empty_groups_lem store.groups in
    let all = push_all_lem store.sessions (map empty_group store.groups) start.0 in
    (
      all.0,
      λ a.
          all.1 a
          ∙ ap (λ (l : List ℕ). count a l + count a (ids_of store.sessions)) start.1
          ∙ omega arith,
    )
