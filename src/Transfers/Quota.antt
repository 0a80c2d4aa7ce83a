-- ===== src/Transfers/Quota.antt =====
-- src/sftp/transfer/cache.rs: what enforcing the quota of the cache achieves.
use ax_ssh.Prelude.{
  ℕ, ◌+◌, ◌-◌, ◌^◌, ◌≤◌, ◌<◌, Bool, true, false, not, ◌&&◌, ◌≡◌, ◌⊎◌, refl, sym, subst, inl, inr,
  List, [], ◌∷◌, ltb, length, arith, Bool-cases,
}
use ax_ssh.Prelude.Results.{ok, err}
use ax_ssh.Transfers.Cache.{
  max_cache_files, CacheEntry, QuotaError, saturating_add, total_from, without_parts, sort_by_age,
  Evicted, is_within, evict, evicted, within_quota, enforce_cache_quota,
}
use ax_ssh.Transfers.Sizes.{bytes, parts, parts-sizes, sort_by_age-sizes, total_from-bytes}

module _ (removes : CacheEntry → Bool) where
  unfoldable pub all_stuck : List CacheEntry → Bool
  all_stuck [] = true
  all_stuck (e ∷ es) = not (removes e) && all_stuck es

  unfoldable pub all_removed : List CacheEntry → Bool
  all_removed [] = true
  all_removed (e ∷ es) = removes e && all_removed es

  -- The counters count what stays; what is removed could be; and what stays, when there is still no
  -- room, could not be.
  pub record IsEvicted (incoming max_bytes total files : ℕ) (es : List CacheEntry) (r : Evicted)
      : Type 0 where
    pub sum : bytes r.kept + bytes r.removed ≡ bytes es
    pub number : length r.kept + length r.removed ≡ length es
    pub total_left : r.total + bytes r.removed ≡ total
    pub files_left : r.files + length r.removed ≡ files
    pub could : all_removed r.removed ≡ true
    pub stuck :
        is_within removes incoming max_bytes r.total r.files ≡ false → all_stuck r.kept ≡ true

  evict-IsEvicted :
      (incoming max_bytes total files : ℕ) (es : List CacheEntry)
      → bytes es ≤ total
      → length es ≤ files
      → IsEvicted incoming max_bytes total files es
          (evict removes incoming max_bytes total files es)
  unfolding evict bytes all_stuck all_removed
  evict-IsEvicted incoming max_bytes total files [] h k = record {
    sum = refl;
    number = refl;
    total_left = omega arith;
    files_left = omega arith;
    could = refl;
    stuck = λ n. refl;
  }
  evict-IsEvicted incoming max_bytes total files (e ∷ es) h k =
      elim (Bool-cases (is_within removes incoming max_bytes total files)) [
        | inl room ↦ rw (room) (record {
          sum = omega arith;
          number = omega arith;
          total_left = omega arith;
          files_left = omega arith;
          could = refl;
          stuck = λ n. ground (arith, n, room);
        })
        | inr full ↦ elim (Bool-cases (removes e)) [
          | inl gone ↦
              (let v =
                  evict-IsEvicted incoming max_bytes (total - e.size) (files - 1) es
                    (omega (arith, h)) (omega (arith, k)) in
                rw (full, gone)
                  (record {
                    sum = omega (arith, v.sum);
                    number = omega (arith, v.number);
                    total_left = omega (arith, v.total_left, h);
                    files_left = omega (arith, v.files_left, k);
                    could = ground (arith, gone, v.could);
                    stuck = v.stuck;
                  }))
          | inr stays_there ↦
              (let v =
                  evict-IsEvicted incoming max_bytes total files es (omega (arith, h))
                    (omega (arith, k)) in
                rw (full, stays_there)
                  (record {
                    sum = omega (arith, v.sum);
                    number = omega (arith, v.number);
                    total_left = v.total_left;
                    files_left = v.files_left;
                    could = v.could;
                    stuck = λ n. ground (arith, stays_there, v.stuck n);
                  }))
        ]
      ]

  evicted-IsEvicted :
      (incoming max_bytes : ℕ) (entries : List CacheEntry)
      → bytes entries < 2 ^ 64
      → IsEvicted incoming max_bytes
          (bytes entries)
          (length entries)
          (sort_by_age (without_parts entries))
          (evicted removes incoming max_bytes entries)
  evicted-IsEvicted incoming max_bytes entries h =
      let sizes = parts-sizes entries in
      let sorted = sort_by_age-sizes (without_parts entries) in
      let exact : bytes entries ≡ total_from 0 entries =
        omega (arith, total_from-bytes 0 entries (omega (arith, h))) in
      subst
        (λ total.
          IsEvicted incoming max_bytes total (length entries) (sort_by_age (without_parts entries))
            (evicted removes incoming max_bytes entries))
        (sym exact)
        (evict-IsEvicted incoming max_bytes (total_from 0 entries) (length entries)
          (sort_by_age (without_parts entries)) (omega (arith, sizes.0, sorted.0, exact))
          (omega (arith, sizes.1, sorted.1)))

  within_quota-ok :
      (incoming max_bytes : ℕ) (r s : Evicted)
      → within_quota removes incoming max_bytes r ≡ ok s
      → (r ≡ s) × (saturating_add r.total incoming ≤ max_bytes) × (r.files + 1 ≤ max_cache_files)
  within_quota-ok incoming max_bytes r s h =
      elim (Bool-cases (ltb max_bytes (saturating_add r.total incoming))) [
        | inl over ↦ ground (arith, over, h)
        | inr fits ↦ elim (Bool-cases (ltb max_cache_files (r.files + 1))) [
          | inl many ↦ ground (arith, fits, many, h)
          | inr few ↦ (ground (arith, fits, few, h), ground (arith, fits), ground (arith, few))
        ]
      ]

  enforce-ok :
      (incoming max_bytes : ℕ) (entries : List CacheEntry) (r : Evicted)
      → enforce_cache_quota removes incoming max_bytes entries ≡ ok r
      → within_quota removes incoming max_bytes (evicted removes incoming max_bytes entries) ≡ ok r
  unfolding enforce_cache_quota
  enforce-ok incoming max_bytes entries r h = elim (Bool-cases (ltb max_bytes incoming)) [
    | inl large ↦ ground (arith, large, h)
    | inr small ↦ ground (arith, small, h)
  ]

  -- When room is made in a cache whose sizes do not overflow 64 bits, under a quota below 2^64 - 1, the
  -- files that stay and those still being fetched, with the file to come, are within the quota of
  -- bytes and of files; only files that could be removed were; and the bytes that stay and those
  -- removed are those of the files that are not being fetched.
  pub enforce_cache_quota-within :
      (incoming max_bytes : ℕ) (entries : List CacheEntry) (r : Evicted)
      → bytes entries < 2 ^ 64
      → max_bytes < 2 ^ 64 - 1
      → enforce_cache_quota removes incoming max_bytes entries ≡ ok r
      → (bytes (parts entries) + bytes r.kept + incoming ≤ max_bytes)
        × (length (parts entries) + length r.kept + 1 ≤ max_cache_files)
        × (all_removed r.removed ≡ true)
        × (bytes r.kept + bytes r.removed ≡ bytes (without_parts entries))
  enforce_cache_quota-within incoming max_bytes entries r small quota h =
      let v =
        within_quota-ok incoming max_bytes (evicted removes incoming max_bytes entries) r
          (enforce-ok incoming max_bytes entries r h) in
      let w =
        subst
          (λ s.
            IsEvicted incoming max_bytes (bytes entries) (length entries)
              (sort_by_age (without_parts entries)) s)
          v.0 (evicted-IsEvicted incoming max_bytes entries small) in
      let total : saturating_add r.total incoming ≤ max_bytes =
        subst (λ (s : Evicted). saturating_add s.total incoming ≤ max_bytes) v.0 v.1 in
      let files : r.files + 1 ≤ max_cache_files =
        subst (λ (s : Evicted). s.files + 1 ≤ max_cache_files) v.0 v.2 in
      let sizes = parts-sizes entries in
      let sorted = sort_by_age-sizes (without_parts entries) in
      (
        omega (arith, total, quota, w.sum, w.total_left, sizes.0, sorted.0),
        omega (arith, files, w.number, w.files_left, sizes.1, sorted.1),
        w.could,
        omega (arith, w.sum, sorted.0),
      )

  -- Every entry was kept or removed, and what was kept, when there is still no room, could not be
  -- removed.
  pub record IsTried (incoming max_bytes : ℕ) (es : List CacheEntry) (r : Evicted) : Type 0 where
    pub number : length r.kept + length r.removed ≡ length es
    pub could : all_removed r.removed ≡ true
    pub stuck :
        is_within removes incoming max_bytes r.total r.files ≡ false → all_stuck r.kept ≡ true

  evict-IsTried :
      (incoming max_bytes total files : ℕ) (es : List CacheEntry)
      → IsTried incoming max_bytes es (evict removes incoming max_bytes total files es)
  unfolding evict all_stuck all_removed
  evict-IsTried incoming max_bytes total files [] = record {
    number = refl;
    could = refl;
    stuck = λ n. refl;
  }
  evict-IsTried incoming max_bytes total files (e ∷ es) =
      elim (Bool-cases (is_within removes incoming max_bytes total files)) [
        | inl room ↦
            rw (room)
              (record { number = omega arith; could = refl; stuck = λ n. ground (arith, n, room) })
        | inr full ↦ elim (Bool-cases (removes e)) [
          | inl gone ↦
              (let v = evict-IsTried incoming max_bytes (total - e.size) (files - 1) es in
                rw (full, gone)
                  (record {
                    number = omega (arith, v.number);
                    could = ground (arith, gone, v.could);
                    stuck = v.stuck;
                  }))
          | inr stays_there ↦
              (let v = evict-IsTried incoming max_bytes total files es in
                rw (full, stays_there)
                  (record {
                    number = omega (arith, v.number);
                    could = v.could;
                    stuck = λ n. ground (arith, stays_there, v.stuck n);
                  }))
        ]
      ]

  -- When no room is made, in any cache, either the file to come is larger than the quota, or every file
  -- that is not being fetched was tried: those that were removed could be, no file that stays could be
  -- removed, and the two are as many as the files that are not being fetched.
  pub enforce_cache_quota-refused :
      (incoming max_bytes : ℕ) (entries : List CacheEntry) (e : QuotaError)
      → enforce_cache_quota removes incoming max_bytes entries ≡ err e
      → (max_bytes < incoming)
        ⊎ ((all_stuck (evicted removes incoming max_bytes entries).kept ≡ true)
            × (all_removed (evicted removes incoming max_bytes entries).removed ≡ true)
            × (length (evicted removes incoming max_bytes entries).kept
                  + length (evicted removes incoming max_bytes entries).removed
                ≡ length (without_parts entries)))
  unfolding enforce_cache_quota
  enforce_cache_quota-refused incoming max_bytes entries e h =
      let v =
        evict-IsTried incoming max_bytes (total_from 0 entries) (length entries)
          (sort_by_age (without_parts entries)) in
      let sorted = sort_by_age-sizes (without_parts entries) in
      elim (Bool-cases (ltb max_bytes incoming)) [
        | inl large ↦ inl (ground (arith, large))
        | inr fits ↦ inr (
          v.stuck (refused (evicted removes incoming max_bytes entries) (ground (arith, fits, h))),
          v.could,
          omega (arith, v.number, sorted.1),
        )
      ]
    where
      refused :
          (r : Evicted)
          → within_quota removes incoming max_bytes r ≡ err e
          → is_within removes incoming max_bytes r.total r.files ≡ false
      refused r k = ground (arith, k)
