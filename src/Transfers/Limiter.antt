-- ===== src/Transfers/Limiter.antt =====
-- src/sftp/transfer/control.rs, `UploadLimiter`: uploads that take and give back permits at the same
-- time. Each load and each exchange of the atomics is a move of its own, in any order.
use ax_ssh.Prelude.{
  ℕ, zero, suc, ◌+◌, ◌-◌, ◌≤◌, max, ◌≡◌, refl, sym, Option, none, some, List, [], ◌∷◌, ◌==◌, leb,
  if◌then◌else◌, get_elem?, set, arith, inl, inr, Option-cases, Bool-cases, subst, replicate,
}

-- Where an upload stands in `try_acquire`: about to load `active`, about to load `limit`, about to
-- compare and exchange, refused, with a permit, or done with it.
pub data Stage : Type 0 where
  starting : Stage
  loaded_active : ℕ → Stage
  loaded_both : ℕ → ℕ → Stage
  refused holding released : Stage

pub record Limiter : Type 0 where
  pub active : ℕ
  pub limit : ℕ
  pub uploads : List Stage

-- `UploadLimiter::new`, with so many uploads that will ask for a permit.
unfoldable pub new_limiter : ℕ → ℕ → Limiter
new_limiter limit uploads = record {
  active = 0;
  limit = max limit 1;
  uploads = replicate uploads starting;
}

unfoldable pub set_limit : ℕ → Limiter → Limiter
set_limit limit s = record s { limit = max limit 1 }

-- One move of an upload: its next stage, and `active` after it.
unfoldable pub advance : ℕ → ℕ → Stage → Stage × ℕ
advance active limit starting = (loaded_active active, active)
advance active limit (loaded_active a) = (loaded_both a limit, active)
advance active limit (loaded_both a l) =
    if leb l a
    then (refused, active)
    else if active == a
    then (holding, suc active)
    else (starting, active)
advance active limit refused = (refused, active)
advance active limit holding = (released, active - 1)
advance active limit released = (released, active)

pub data Move : Type 0 where
  -- The upload at a place in the list moves.
  advances : ℕ → Move
  limits : ℕ → Move

abbrev pub moved : ℕ → Limiter → Option Stage → Limiter
moved i s none = s
moved i s (some stage) = record s {
  active = (advance s.active s.limit stage).1;
  uploads = set s.uploads i (advance s.active s.limit stage).0;
}

unfoldable pub run_limiter : List Move → Limiter → Limiter
unfolding advance set_limit
run_limiter [] s = s
run_limiter (advances i ∷ ms) s = run_limiter ms (moved i s (get_elem? s.uploads i))
run_limiter (limits n ∷ ms) s = run_limiter ms (set_limit n s)

-- The uploads with a permit.
abbrev pub permit : Stage → ℕ
permit holding = 1
permit _ = 0

abbrev pub permits : List Stage → ℕ
permits [] = 0
permits (u ∷ us) = permit u + permits us

-- No limit that is set is above the bound.
abbrev pub Within : ℕ → List Move → Type 0
Within bound [] = Unit
Within bound (advances i ∷ ms) = Within bound ms
Within bound (limits n ∷ ms) = (max n 1 ≤ bound) × Within bound ms

-- A limit that an upload has loaded is one that was set.
abbrev pub Seen : ℕ → Stage → Type 0
Seen bound (loaded_both a l) = l ≤ bound
Seen bound _ = Unit

abbrev pub AllSeen : ℕ → List Stage → Type 0
AllSeen bound [] = Unit
AllSeen bound (u ∷ us) = Seen bound u × AllSeen bound us

pub record IsLimited (bound : ℕ) (s : Limiter) : Type 0 where
  pub counted : s.active ≡ permits s.uploads
  pub below : s.active ≤ bound
  pub limit_below : s.limit ≤ bound
  pub seen : AllSeen bound s.uploads

permits-set :
    (us : List Stage) (i : ℕ) (u v : Stage)
    → get_elem? us i ≡ some u
    → permits (set us i v) + permit u ≡ permits us + permit v
permits-set [] i u v h = absurd (ground arith)
permits-set (x ∷ us) zero u v h = ground arith
permits-set (x ∷ us) (suc i) u v h = omega (arith, permits-set us i u v h)

Seen-at :
    (bound : ℕ) (us : List Stage) (i : ℕ) (u : Stage)
    → AllSeen bound us
    → get_elem? us i ≡ some u
    → Seen bound u
Seen-at bound [] i u a h = absurd (ground arith)
Seen-at bound (x ∷ us) zero u a h = let same : x ≡ u = ground arith in subst (Seen bound) same a.0
Seen-at bound (x ∷ us) (suc i) u a h = Seen-at bound us i u a.1 h

Seen-set :
    (bound : ℕ) (us : List Stage) (i : ℕ) (v : Stage)
    → AllSeen bound us
    → Seen bound v
    → AllSeen bound (set us i v)
Seen-set bound [] i v a h = tt
Seen-set bound (x ∷ us) zero v a h = (h, a.1)
Seen-set bound (x ∷ us) (suc i) v a h = (a.0, Seen-set bound us i v a.1 h)

-- What a move does to the count, and to what was seen.
advance_lem :
    (bound active limit : ℕ) (u : Stage)
    → active ≤ bound
    → permit u ≤ active
    → limit ≤ bound
    → Seen bound u
    → ((advance active limit u).1 + permit u ≡ active + permit (advance active limit u).0)
      × ((advance active limit u).1 ≤ bound)
      × Seen bound (advance active limit u).0
unfolding advance
advance_lem bound active limit starting h p k e = (refl, h, tt)
advance_lem bound active limit (loaded_active a) h p k e = (refl, h, k)
advance_lem bound active limit (loaded_both a l) h p k e = elim (Bool-cases (leb l a)) [
  | inl full ↦ rw (full) (refl, h, tt)
  | inr room ↦ elim (Bool-cases (active == a)) [
    | inl same ↦ rw (room, same) (omega arith, ground arith, tt)
    | inr other ↦ rw (room, other) (refl, h, tt)
  ]
]
advance_lem bound active limit refused h p k e = (refl, h, tt)
advance_lem bound active limit holding h p k e = (omega arith, omega arith, tt)
advance_lem bound active limit released h p k e = (refl, h, tt)

permits_at : (us : List Stage) (i : ℕ) (u : Stage) → get_elem? us i ≡ some u → permit u ≤ permits us
permits_at [] i u h = absurd (ground arith)
permits_at (x ∷ us) zero u h = ground arith
permits_at (x ∷ us) (suc i) u h = omega (arith, permits_at us i u h)

moved-IsLimited :
    (bound i : ℕ) (s : Limiter) (u : Stage)
    → get_elem? s.uploads i ≡ some u
    → IsLimited bound s
    → IsLimited bound (moved i s (some u))
moved-IsLimited bound i s u h v =
    let step =
      advance_lem bound s.active s.limit u v.below
        (omega (arith, permits_at s.uploads i u h, v.counted)) v.limit_below
        (Seen-at bound s.uploads i u v.seen h) in
    record {
      counted =
          omega
            (arith, step.0, v.counted, permits-set s.uploads i u (advance s.active s.limit u).0 h);
      below = step.1;
      limit_below = v.limit_below;
      seen = Seen-set bound s.uploads i (advance s.active s.limit u).0 v.seen step.2;
    }

run_kept :
    (bound : ℕ) (ms : List Move) (s : Limiter)
    → Within bound ms
    → IsLimited bound s
    → IsLimited bound (run_limiter ms s)
unfolding run_limiter
run_kept bound [] s w v = v
run_kept bound (limits n ∷ ms) s w v = run_kept bound ms (set_limit n s) w.1 (
    unfold set_limit in
    record { counted = v.counted; below = v.below; limit_below = w.0; seen = v.seen })
run_kept bound (advances i ∷ ms) s w v =
    run_kept bound ms _ w (elim (Option-cases (get_elem? s.uploads i)) [
      | inl outside ↦ rw (outside) v
      | inr (u, there) ↦ rw (there) (moved-IsLimited bound i s u there v)
    ])

none_held :
    (bound n : ℕ) → (permits (replicate n starting) ≡ 0) × AllSeen bound (replicate n starting)
none_held bound zero = (refl, tt)
none_held bound (suc n) = (omega (arith, (none_held bound n).0), (tt, (none_held bound n).1))

-- However the loads and exchanges of the uploads interleave with each other and with changes of the
-- limit, the counter is the number of uploads that hold a permit, and is never above the largest of
-- the limits that were set.
pub run_limiter-IsLimited :
    (bound limit uploads : ℕ) (ms : List Move)
    → max limit 1 ≤ bound
    → Within bound ms
    → IsLimited bound (run_limiter ms (new_limiter limit uploads))
unfolding new_limiter
run_limiter-IsLimited bound limit uploads ms h w = run_kept bound ms _ w (record {
  counted = sym (none_held bound uploads).0;
  below = omega arith;
  limit_below = h;
  seen = (none_held bound uploads).1;
})
