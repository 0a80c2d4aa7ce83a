-- ===== src/Sftp/Browser/History.antt =====
-- src/app/state/sftp.rs: the two histories of directories stay bounded and clean, and a step back
-- is undone by a step forward.
use ax_ssh.Prelude.{
  ◌≤◌, ◌-◌, ◌||◌, not, Bool, true, false, ◌≡◌, refl, inl, inr, Option, none, some, List, [], ◌∷◌,
  length, arith, Bool-cases, if◌then◌else◌, leb,
}
use ax_ssh.Prelude.Bytes.{Text, is_empty, same_text, same_text_iff}
use ax_ssh.Sftp.Browser.{
  SftpNavigation, direct, back, forward, up, PendingNavigation, complete_by,
  complete_directory_history, push_sftp_history, drop_oldest, is_newest, without_newest,
  sftp_history_limit,
}

-- No path is empty, and none stands next to itself.
abbrev pub Clean : List Text → Type 0
Clean [] = Unit
Clean (p ∷ ps) = (is_empty p ≡ false) × (is_newest p ps ≡ false) × Clean ps

pub record IsHistory (h : List Text) : Type 0 where
  pub clean : Clean h
  pub bounded : length h ≤ sftp_history_limit

is_newest-drop_oldest :
    (p : Text) (ps : List Text) → is_newest p ps ≡ false → is_newest p (drop_oldest ps) ≡ false
is_newest-drop_oldest p [] h = h
is_newest-drop_oldest p (q ∷ []) h = refl
is_newest-drop_oldest p (q ∷ r ∷ ps) h = h

drop_oldest-Clean : (ps : List Text) → Clean ps → Clean (drop_oldest ps)
drop_oldest-Clean [] h = tt
drop_oldest-Clean (p ∷ []) h = tt
drop_oldest-Clean (p ∷ q ∷ ps) h =
    (h.0, is_newest-drop_oldest p (q ∷ ps) h.1, drop_oldest-Clean (q ∷ ps) h.2)

length-drop_oldest : (ps : List Text) → length (drop_oldest ps) ≡ length ps - 1
length-drop_oldest [] = refl
length-drop_oldest (p ∷ []) = refl
length-drop_oldest (p ∷ q ∷ ps) = omega (arith, length-drop_oldest (q ∷ ps))

pub push_sftp_history-IsHistory :
    (path : Text) (h : List Text) → IsHistory h → IsHistory (push_sftp_history path h)
unfolding push_sftp_history
push_sftp_history-IsHistory path h v = elim (Bool-cases (is_empty path || is_newest path h)) [
  | inl old ↦ rw (old) v
  | inr fresh ↦ elim (Bool-cases (leb sftp_history_limit (length h))) [
    | inl full ↦
        rw (fresh, full)
          (record {
            clean = (
              ground arith,
              is_newest-drop_oldest path h (ground arith),
              drop_oldest-Clean h v.clean,
            );
            bounded = omega (arith, length-drop_oldest h, v.bounded);
          })
    | inr room ↦
        rw (fresh, room)
          (record {
            clean = (ground arith, ground arith, v.clean);
            bounded = let b = v.bounded in ground arith;
          })
  ]
]

pub without_newest-IsHistory : (h : List Text) → IsHistory h → IsHistory (without_newest h)
without_newest-IsHistory [] v = v
without_newest-IsHistory (p ∷ ps) v = record {
  clean = v.clean.2;
  bounded = omega (arith, v.bounded);
}

abbrev pub Both : List Text × List Text → Type 0
Both hs = IsHistory hs.0 × IsHistory hs.1

Both-if : (b : Bool) (x y : List Text × List Text) → Both x → Both y → Both (if b then x else y)
Both-if true x y h k = h
Both-if false x y h k = k

pub empty-IsHistory : IsHistory []
empty-IsHistory = record { clean = tt; bounded = omega arith }

complete_by-Both :
    (kind : SftpNavigation) (pending : PendingNavigation) (path : Text) (olds news : List Text)
    → Both (olds, news)
    → Both (complete_by kind pending path olds news)
unfolding complete_by
complete_by-Both direct pending path olds news v =
    Both-if (not (same_text pending.from path)) _ _
      (push_sftp_history-IsHistory pending.from olds v.0, empty-IsHistory) v
complete_by-Both up pending path olds news v =
    Both-if (not (same_text pending.from path)) _ _
      (push_sftp_history-IsHistory pending.from olds v.0, empty-IsHistory) v
complete_by-Both back pending path olds news v =
    Both-if (is_newest pending.requested olds) _ _
      (without_newest-IsHistory olds v.0, push_sftp_history-IsHistory pending.from news v.1) v
complete_by-Both forward pending path olds news v =
    Both-if (is_newest pending.requested news) _ _
      (push_sftp_history-IsHistory pending.from olds v.0, without_newest-IsHistory news v.1) v

pub complete_directory_history-Both :
    (pending : Option PendingNavigation) (path : Text) (olds news : List Text)
    → Both (olds, news)
    → Both (complete_directory_history pending path olds news)
unfolding complete_directory_history
complete_directory_history-Both none path olds news v = v
complete_directory_history-Both (some pending) path olds news v =
    complete_by-Both pending.kind pending path olds news v

pub newest_self : (p : Text) (h : List Text) → is_newest p (p ∷ h) ≡ true
newest_self p h = (same_text_iff p p).1 refl
