-- ===== src/Transfers/Window.antt =====
-- src/sftp/transfer/pipeline.rs, `RequestWindow`: replies that come in any order are handed out in the
-- order of their requests. A future is a number; each poll is told which futures are ready, and a
-- future that is ready gives its value.
use ax_ssh.Prelude.{
  ℕ, zero, suc, replicate, append-nil, ◌≤◌, Bool, true, ◌≡◌, refl, ap, sym, ◌∙◌, Option, none, some,
  List, [], ◌∷◌, ◌++◌, length, length-append, append_assoc, map, leb, if◌then◌else◌, arith, inl,
  inr, Bool-cases,
}

abbrev pub request_window : ℕ
request_window = 16

-- A push of a future, or a poll of `next`, with the futures that are ready then.
pub data Use : Type 0 where
  pushes : (ℕ → Bool) → ℕ → Use
  polls : (ℕ → Bool) → Use

module _ {ℓ} {A : Type ℓ} (value : ℕ → A) where
  -- A request, with its result once its future has given it.
  abbrev pub Request : Type ℓ
  Request = ℕ × Option A

  unfoldable pub poll_request : (ℕ → Bool) → Request → Request
  poll_request ready (id, some result) = (id, some result)
  poll_request ready (id, none) = if ready id then (id, some (value id)) else (id, none)

  unfoldable pub poll_requests : (ℕ → Bool) → List Request → List Request
  unfolding poll_request
  poll_requests ready [] = []
  poll_requests ready (r ∷ rs) = poll_request ready r ∷ poll_requests ready rs

  -- The window after a push, or `none` if it is full.
  unfoldable pub push : (ℕ → Bool) → ℕ → List Request → Option (List Request)
  unfolding poll_requests
  push ready id pending =
      if leb request_window (length pending)
      then none
      else some (poll_requests ready (pending ++ ((id, none) ∷ [])))

  -- What one poll of `next` gives.
  pub data Next : Type ℓ where
    drained : Next
    emitted : A → List Request → Next
    waiting : List Request → Next

  unfoldable pub take_first : List Request → Next
  take_first [] = drained
  take_first ((id, some result) ∷ rs) = emitted result rs
  take_first ((id, none) ∷ rs) = waiting ((id, none) ∷ rs)

  unfoldable pub next : (ℕ → Bool) → List Request → Next
  unfolding poll_requests take_first
  next ready pending = take_first (poll_requests ready pending)

  pub record Log : Type ℓ where
    pub accepted : List ℕ
    pub results : List A
    pub pending : List Request

  abbrev pub after_push : ℕ → Log → Option (List Request) → Log
  after_push id s none = s
  after_push id s (some rs) = record s { accepted = s.accepted ++ (id ∷ []); pending = rs }

  abbrev pub after_next : Log → Next → Log
  after_next s drained = record s { pending = [] }
  after_next s (emitted result rs) = record s { results = s.results ++ (result ∷ []); pending = rs }
  after_next s (waiting rs) = record s { pending = rs }

  unfoldable pub run_window : List Use → Log → Log
  unfolding push next
  run_window [] s = s
  run_window (pushes ready id ∷ us) s = run_window us (after_push id s (push ready id s.pending))
  run_window (polls ready ∷ us) s = run_window us (after_next s (next ready s.pending))

  -- The values that the pending requests have or will have.
  abbrev pub due : List Request → List A
  due [] = []
  due ((id, r) ∷ rs) = value id ∷ due rs

  -- A result is that of its own future.
  abbrev pub Own : List Request → Type ℓ
  Own [] = Unit
  Own ((id, none) ∷ rs) = Own rs
  Own ((id, some a) ∷ rs) = (a ≡ value id) × Own rs

  pub record IsOrdered (s : Log) : Type ℓ where
    pub in_order : s.results ++ due s.pending ≡ map value s.accepted
    pub bounded : length s.pending ≤ request_window
    pub own : Own s.pending

  due-poll : (ready : ℕ → Bool) (rs : List Request) → due (poll_requests ready rs) ≡ due rs
  unfolding poll_requests
  due-poll ready [] = refl
  due-poll ready ((id, some a) ∷ rs) = ap (λ x. value id ∷ x) (due-poll ready rs)
  due-poll ready ((id, none) ∷ rs) = ground (arith, due-poll ready rs)

  length-poll : (ready : ℕ → Bool) (rs : List Request) → length (poll_requests ready rs) ≡ length rs
  unfolding poll_requests
  length-poll ready [] = refl
  length-poll ready (r ∷ rs) = omega (arith, length-poll ready rs)

  poll-Own : (ready : ℕ → Bool) (rs : List Request) → Own rs → Own (poll_requests ready rs)
  unfolding poll_requests
  poll-Own ready [] h = tt
  poll-Own ready ((id, some a) ∷ rs) h = (h.0, poll-Own ready rs h.1)
  poll-Own ready ((id, none) ∷ rs) h = elim (Bool-cases (ready id)) [
    | inl now ↦ rw (now) (refl, poll-Own ready rs h)
    | inr later ↦ rw (later) (poll-Own ready rs h)
  ]

  due-append : (rs ss : List Request) → due (rs ++ ss) ≡ due rs ++ due ss
  due-append [] ss = refl
  due-append ((id, r) ∷ rs) ss = ap (λ x. value id ∷ x) (due-append rs ss)

  map-append : (xs ys : List ℕ) → map value (xs ++ ys) ≡ map value xs ++ map value ys
  map-append [] ys = refl
  map-append (x ∷ xs) ys = ap (λ z. value x ∷ z) (map-append xs ys)

  Own-append : (rs : List Request) (id : ℕ) → Own rs → Own (rs ++ ((id, none) ∷ []))
  Own-append [] id h = tt
  Own-append ((i, none) ∷ rs) id h = Own-append rs id h
  Own-append ((i, some a) ∷ rs) id h = (h.0, Own-append rs id h.1)

  push-IsOrdered :
      (ready : ℕ → Bool) (id : ℕ) (s : Log)
      → IsOrdered s
      → IsOrdered (after_push id s (push ready id s.pending))
  unfolding push
  push-IsOrdered ready id s v = elim (Bool-cases (leb request_window (length s.pending))) [
    | inl full ↦ rw (full) v
    | inr room ↦ rw (room) (record {
      in_order =
          ap (λ u. s.results ++ u)
            (due-poll ready (s.pending ++ ((id, none) ∷ []))
              ∙ due-append s.pending ((id, none) ∷ []))
          ∙ sym (append_assoc s.results (due s.pending) (value id ∷ []))
          ∙ ap (λ u. u ++ (value id ∷ [])) v.in_order
          ∙ sym (map-append s.accepted (id ∷ []));
      bounded = ground (
        arith,
        length-poll ready (s.pending ++ ((id, none) ∷ [])),
        length-append s.pending ((id, none) ∷ []),
      );
      own = poll-Own ready _ (Own-append s.pending id v.own);
    })
  ]

  take_first-IsOrdered :
      (s : Log) (rs : List Request)
      → s.results ++ due rs ≡ map value s.accepted
      → length rs ≤ request_window
      → Own rs
      → IsOrdered (after_next s (take_first rs))
  unfolding take_first
  take_first-IsOrdered s [] e b o = record { in_order = e; bounded = b; own = o }
  take_first-IsOrdered s ((id, none) ∷ rs) e b o = record { in_order = e; bounded = b; own = o }
  take_first-IsOrdered s ((id, some a) ∷ rs) e b o = record {
    in_order =
        ap (λ x. (s.results ++ (x ∷ [])) ++ due rs) o.0
        ∙ append_assoc s.results (value id ∷ []) (due rs)
        ∙ e;
    bounded = omega arith;
    own = o.1;
  }

  next-IsOrdered :
      (ready : ℕ → Bool) (s : Log) → IsOrdered s → IsOrdered (after_next s (next ready s.pending))
  unfolding next
  next-IsOrdered ready s v =
      take_first-IsOrdered s (poll_requests ready s.pending)
        (ap (λ u. s.results ++ u) (due-poll ready s.pending) ∙ v.in_order)
        (omega (arith, length-poll ready s.pending, v.bounded)) (poll-Own ready s.pending v.own)

  run_kept : (us : List Use) (s : Log) → IsOrdered s → IsOrdered (run_window us s)
  unfolding run_window
  run_kept [] s v = v
  run_kept (pushes ready id ∷ us) s v = run_kept us _ (push-IsOrdered ready id s v)
  run_kept (polls ready ∷ us) s v = run_kept us _ (next-IsOrdered ready s v)

  abbrev pub fresh_log : Log
  fresh_log = record { accepted = []; results = []; pending = [] }

  -- Whenever the replies come, the results handed out so far and those that the pending requests
  -- still owe are the values of the accepted requests, in the order of the requests, and at most 16
  -- requests are pending.
  pub run_window-IsOrdered : (us : List Use) → IsOrdered (run_window us fresh_log)
  run_window-IsOrdered us =
      run_kept us fresh_log (record { in_order = refl; bounded = omega arith; own = tt })

  -- A poll when every future is ready takes the first request away.
  next_ready :
      (n : ℕ) (s : Log)
      → length s.pending ≡ suc n
      → ((after_next s (next (λ i. true) s.pending)).accepted ≡ s.accepted)
        × (length (after_next s (next (λ i. true) s.pending)).pending ≡ n)
  unfolding next
  next_ready n s h = first_ready s.pending h
    where
      first_ready :
          (rs : List Request)
          → length rs ≡ suc n
          → ((after_next s (take_first (poll_requests (λ i. true) rs))).accepted ≡ s.accepted)
            × (length (after_next s (take_first (poll_requests (λ i. true) rs))).pending ≡ n)
      first_ready [] k = absurd (omega arith)
      first_ready ((id, none) ∷ rs) k = (refl, omega (arith, length-poll (λ i. true) rs))
      first_ready ((id, some b) ∷ rs) k = (refl, omega (arith, length-poll (λ i. true) rs))

  -- Once every future is ready, as many polls as requests are pending hand out every result that is
  -- owed: the results are the values of all accepted requests, in their order.
  pub run_window-drains :
      (n : ℕ) (s : Log)
      → IsOrdered s
      → length s.pending ≡ n
      → (run_window (replicate n (polls (λ i. true))) s).results ≡ map value s.accepted
  unfolding run_window
  run_window-drains zero s v h = sym (append-nil s.results) ∙ drained_all s.pending h ∙ v.in_order
    where
      drained_all : (rs : List Request) → length rs ≡ 0 → s.results ++ [] ≡ s.results ++ due rs
      drained_all [] k = refl
      drained_all (r ∷ rs) k = absurd (omega arith)
  run_window-drains (suc n) s v h =
      let step = next_ready n s h in
      run_window-drains n (after_next s (next (λ i. true) s.pending))
        (next-IsOrdered (λ i. true) s v) step.1
      ∙ ap (map value) step.0
