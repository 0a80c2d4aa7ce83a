-- ===== src/Sftp/Table/Invariant.antt =====
-- src/app/state/sftp.rs: what holds of the transfers, the selection and the conflicts together, and
-- the changes of these that keep it.
pub mod Finish
pub mod Queue
pub mod Select
pub mod Removal
pub mod Steps
use ax_ssh.Prelude.{
  ℕ, Bool, true, false, not, ◌&&◌, ◌||◌, ◌≡◌, ◌≢◌, refl, Option, none, some, List, [], ◌∷◌, ◌++◌,
  arith, ◌==◌, ==_iff, if◌then◌else◌, Option-cases, Bool-cases, inl, inr, ap, sym, ◌∙◌, ◌⊎◌,
}
use ax_ssh.Prelude.Keyed.{nat_eq, contains, remove, contains-remove}
use ax_ssh.Sftp.Phase.{active, upload, is_upload}
use ax_ssh.Sftp.Transfer.{Transfer}
use ax_ssh.Sftp.Transfer.Rules.{IsFit, IsLiveStep, IsLastStep}
use ax_ssh.Sftp.Table.{Conflict, Table, find, any_if, is_active, any_active, modify, drop_conflicts}
use ax_ssh.Sftp.Table.Modify.{
  All, ids, KeepsId, Modified, here, there, modify-Modified, Modified-All, Modified-ids,
  Modified-any_if, Modified-any_if_ne, Modified-find_self,
}
use ax_ssh.Sftp.Table.Transitions.{with_transfers}

abbrev pub Distinct : List ℕ → Type 0
Distinct [] = Unit
Distinct (x ∷ xs) = (contains x xs ≡ false) × Distinct xs

abbrev pub is_active_upload : Transfer → Bool
is_active_upload t = active t.phase && is_upload t.direction

-- Each id names one transfer, each phase fits its transfer, what is selected is in progress, and
-- what waits for a decision is an upload in progress.
pub record IsConsistent (ts : List Transfer) (selected : List ℕ) (cs : List Conflict) : Type 0 where
  pub distinct : Distinct (ids ts)
  pub fits : All IsFit ts
  pub selection : (id : ℕ) → contains id selected ≡ true → any_if is_active id ts ≡ true
  pub waiting : All (λ c. any_if is_active_upload c.transfer_id ts ≡ true) cs

abbrev pub Inv : Table → Type 0
Inv s = IsConsistent s.transfers s.selected_transfers s.upload_conflicts

abbrev pub holds : (Transfer → Bool) → Option Transfer → Bool
holds q none = false
holds q (some t) = q t

any_if_absent :
    (q : Transfer → Bool) (id : ℕ) (ts : List Transfer)
    → contains id (ids ts) ≡ false
    → any_if q id ts ≡ false
unfolding any_if contains
any_if_absent q id [] h = refl
any_if_absent q id (t ∷ ts) h = ground (arith, any_if_absent q id ts)

-- Where ids are distinct, `any` asks the transfer that `find` gives.
pub any_if-find :
    (q : Transfer → Bool) (id : ℕ) (ts : List Transfer)
    → Distinct (ids ts)
    → any_if q id ts ≡ holds q (find id ts)
unfolding any_if find
any_if-find q id [] d = refl
any_if-find q id (t ∷ ts) d =
    ground (arith, any_if-find q id ts, any_if_absent q id ts, ==_iff t.id id)

pub All-map {ℓ κ κ'} :
    {A : Type ℓ} {P : A → Type κ} {Q : A → Type κ'} (xs : List A)
    → ((x : A) → P x → Q x)
    → All P xs
    → All Q xs
All-map [] f a = tt
All-map (x ∷ xs) f a = (f x a.0, All-map xs f a.1)

-- Dropping conflicts, and what holds of those that stay.
pub drop_conflicts-All :
    (P : Conflict → Type 0) (id : ℕ) (cs : List Conflict)
    → All P cs
    → All (λ c. P c × (c.transfer_id ≢ id)) (drop_conflicts id cs)
unfolding drop_conflicts
drop_conflicts-All P id [] a = tt
drop_conflicts-All P id (c ∷ cs) a = elim (Bool-cases (c.transfer_id == id)) [
  | inl same ↦ rw same (drop_conflicts-All P id cs a.1)
  | inr other ↦
      rw other ((a.0, ground (arith, ==_iff c.transfer_id id)), drop_conflicts-All P id cs a.1)
]

module _ {ts ts' : List Transfer} {selected : List ℕ} {cs : List Conflict} {id : ℕ}
    {f : Transfer → Option Transfer} where
  -- A change within the phases in progress.
  pub live-IsConsistent :
      IsLiveStep f
      → Modified id f ts ts'
      → IsConsistent ts selected cs
      → IsConsistent ts' selected cs
  live-IsConsistent l m v = record {
    distinct = rw (Modified-ids l.same_id m) v.distinct;
    fits = Modified-All l.fits m v.fits;
    selection = λ j h. Modified-any_if is_active j l.same_id l.stays_active m (v.selection j h);
    waiting =
        All-map cs (λ c. Modified-any_if is_active_upload c.transfer_id l.same_id live m) v.waiting;
  }
    where
      live :
          (t t' : Transfer) → f t ≡ some t' → is_active_upload t ≡ true → is_active_upload t' ≡ true
      live t t' h a = ground (arith, l.stays_active t t' h, l.same_direction t t' h)

  -- The end of a transfer, which is then neither selected nor waits for a decision.
  pub last-IsConsistent :
      {kept : List Conflict}
      → IsLastStep f
      → Modified id f ts ts'
      → All (λ c. (any_if is_active_upload c.transfer_id ts ≡ true) × (c.transfer_id ≢ id)) kept
      → IsConsistent ts selected cs
      → IsConsistent ts' (remove id selected) kept
  last-IsConsistent {kept} l m away v = record {
    distinct = rw (Modified-ids l.same_id m) v.distinct;
    fits = Modified-All l.fits m v.fits;
    selection = λ j h. ground (
      arith,
      contains-remove id j selected,
      ==_iff id j,
      v.selection j,
      λ (ne : j ≢ id). Modified-any_if_ne is_active j ne l.same_id m,
    );
    waiting =
        All-map kept
          (λ c p. Modified-any_if_ne is_active_upload c.transfer_id p.1 l.same_id m ∙ p.0) away;
  }

-- A transfer that has ended is in progress no more.
pub last-any_active :
    {ts ts' : List Transfer} {id : ℕ} {f : Transfer → Option Transfer}
    → IsLastStep f
    → Modified id f ts ts'
    → Distinct (ids ts)
    → any_if is_active id ts' ≡ false
last-any_active {ts} {ts'} {id} l m d =
    let (t, t', _, done, found) = Modified-find_self l.same_id m in
    let d' : Distinct (ids ts') = rw (Modified-ids l.same_id m) d in
    any_if-find is_active id ts' d' ∙ rw found (l.is_finished t t' done)

-- Fewer conflicts.
pub drop_conflicts-IsConsistent :
    {ts : List Transfer} {selected : List ℕ} (id : ℕ) {cs : List Conflict}
    → IsConsistent ts selected cs
    → IsConsistent ts selected (drop_conflicts id cs)
drop_conflicts-IsConsistent {ts} id {cs} v = record {
  distinct = v.distinct;
  fits = v.fits;
  selection = v.selection;
  waiting = All-map (drop_conflicts id cs) (λ c p. p.0) (drop_conflicts-All _ id cs v.waiting);
}

-- A method that changes one transfer within the phases in progress.
pub modify-Inv :
    (s : Table) (id : ℕ) (f : Transfer → Option Transfer)
    → IsLiveStep f
    → Inv s
    → Inv (with_transfers s (modify id f s.transfers))
modify-Inv s id f l v = elim (Option-cases (modify id f s.transfers)) [
  | inl refused ↦ rw refused v
  | inr (ts, changed) ↦
      rw changed (live-IsConsistent l (modify-Modified id f s.transfers ts changed) v)
]
