-- ===== src/Sftp/Table/Modify.antt =====
-- src/app/state/sftp.rs: the changes of the first transfer of an id, whatever the change is, as a
-- relation on the transfers before and after.
use ax_ssh.Prelude.{
  ℕ, Bool, true, ◌≡◌, ◌≢◌, Option, some, List, [], ◌∷◌, arith, ◌==◌, ==_iff, Option-cases,
  Bool-cases, inl, inr,
}
use ax_ssh.Sftp.Transfer.{Transfer}
use ax_ssh.Sftp.Table.{find, any_if, modify}

abbrev pub All {ℓ κ} : {A : Type ℓ} → (A → Type κ) → List A → Type κ
All P [] = Unit
All P (x ∷ xs) = P x × All P xs

abbrev pub ids : List Transfer → List ℕ
ids [] = []
ids (t ∷ ts) = t.id ∷ ids ts

-- A change that keeps the transfer's id.
abbrev pub KeepsId : (Transfer → Option Transfer) → Type 0
KeepsId f = (t t' : Transfer) → f t ≡ some t' → t'.id ≡ t.id

abbrev pub Keeps : (Transfer → Type 0) → (Transfer → Option Transfer) → Type 0
Keeps P f = (t t' : Transfer) → f t ≡ some t' → P t → P t'

pub data Modified (id : ℕ) (f : Transfer → Option Transfer)
    : List Transfer → List Transfer → Type 0 where
  here :
      {t t' : Transfer} {ts : List Transfer}
      → t.id ≡ id
      → f t ≡ some t'
      → Modified id f (t ∷ ts) (t' ∷ ts)
  there :
      {t : Transfer} {ts ts' : List Transfer}
      → t.id ≢ id
      → Modified id f ts ts'
      → Modified id f (t ∷ ts) (t ∷ ts')

module _ (id : ℕ) (f : Transfer → Option Transfer) where
  modify_head :
      (t : Transfer) (ts ts' : List Transfer)
      → t.id ≡ id
      → modify id f (t ∷ ts) ≡ some ts'
      → (t' : Transfer) × (f t ≡ some t') × (ts' ≡ t' ∷ ts)
  unfolding modify
  modify_head t ts ts' e h = elim (Option-cases (f t)) [
    | inl refused ↦ absurd (ground (arith, ==_iff t.id id))
    | inr (t', done) ↦ (t', done, ground (arith, ==_iff t.id id))
  ]

  modify_tail :
      (t : Transfer) (ts ts' : List Transfer)
      → t.id ≢ id
      → modify id f (t ∷ ts) ≡ some ts'
      → (rest : List Transfer) × (modify id f ts ≡ some rest) × (ts' ≡ t ∷ rest)
  unfolding modify
  modify_tail t ts ts' e h = elim (Option-cases (modify id f ts)) [
    | inl refused ↦ absurd (ground (arith, ==_iff t.id id))
    | inr (rest, done) ↦ (rest, done, ground (arith, ==_iff t.id id))
  ]

  pub modify-Modified : (ts ts' : List Transfer) → modify id f ts ≡ some ts' → Modified id f ts ts'
  modify-Modified [] ts' h = absurd (unfold modify in cc)
  modify-Modified (t ∷ ts) ts' h = elim (Bool-cases (t.id == id)) [
    | inl same ↦
        let head = modify_head t ts ts' ((==_iff t.id id).0 same) h in
        rw head.2 (here ((==_iff t.id id).0 same) head.1)
    | inr other ↦
        let tail = modify_tail t ts ts' (ground (arith, ==_iff t.id id)) h in
        rw tail.2 (there (ground (arith, ==_iff t.id id)) (modify-Modified ts tail.0 tail.1))
  ]

module _ {id : ℕ} {f : Transfer → Option Transfer} where
  pub Modified-All :
      {P : Transfer → Type 0} {ts ts' : List Transfer}
      → Keeps P f
      → Modified id f ts ts'
      → All P ts
      → All P ts'
  Modified-All k (here e h) a = (k _ _ h a.0, a.1)
  Modified-All k (there e m) a = (a.0, Modified-All k m a.1)

  pub Modified-ids : {ts ts' : List Transfer} → KeepsId f → Modified id f ts ts' → ids ts' ≡ ids ts
  Modified-ids k (here {t} {t'} e h) = cc (k t t' h)
  Modified-ids k (there e m) = cc (Modified-ids k m)

  -- What some transfer of the id is, one still is, if the change keeps it.
  pub Modified-any_if :
      {ts ts' : List Transfer} (q : Transfer → Bool) (j : ℕ)
      → KeepsId f
      → Keeps (λ t. q t ≡ true) f
      → Modified id f ts ts'
      → any_if q j ts ≡ true
      → any_if q j ts' ≡ true
  unfolding any_if
  Modified-any_if q j k l (here {t} {t'} e h) a = ground (arith, k t t' h, l t t' h)
  Modified-any_if q j k l (there e m) a = ground (arith, Modified-any_if q j k l m)

  pub Modified-any_if_ne :
      {ts ts' : List Transfer} (q : Transfer → Bool) (j : ℕ)
      → j ≢ id
      → KeepsId f
      → Modified id f ts ts'
      → any_if q j ts' ≡ any_if q j ts
  unfolding any_if
  Modified-any_if_ne q j ne k (here {t} {t'} e h) = ground (arith, k t t' h, ==_iff t.id j)
  Modified-any_if_ne q j ne k (there e m) = rw (Modified-any_if_ne q j ne k m)

  pub Modified-find_ne :
      {ts ts' : List Transfer} (j : ℕ)
      → j ≢ id
      → KeepsId f
      → Modified id f ts ts'
      → find j ts' ≡ find j ts
  unfolding find
  Modified-find_ne j ne k (here {t} {t'} e h) = ground (arith, k t t' h, ==_iff t.id j)
  Modified-find_ne j ne k (there e m) = rw (Modified-find_ne j ne k m)

  -- The change was made of the transfer that `find` gives, which then gives the changed one.
  pub Modified-find_self :
      {ts ts' : List Transfer}
      → KeepsId f
      → Modified id f ts ts'
      → (t t' : Transfer) × (find id ts ≡ some t) × (f t ≡ some t') × (find id ts' ≡ some t')
  unfolding find
  Modified-find_self k (here {t} {t'} e h) =
      (t, t', ground (arith, ==_iff t.id id), h, ground (arith, k t t' h, ==_iff t'.id id))
  Modified-find_self k (there {t} e m) =
      let rest = Modified-find_self k m in
      (rest.0, rest.1, ground (arith, ==_iff t.id id), rest.3, ground (arith, ==_iff t.id id))
