-- ===== src/Transfers/Sizes.antt =====
-- src/sftp/transfer/cache.rs: the bytes and the number of the entries of the cache.
use ax_ssh.Prelude.{
  ℕ, suc, ◌+◌, ◌^◌, ◌<◌, ◌≡◌, refl, inl, inr, List, [], ◌∷◌, leb, length, arith, Bool-cases,
  if◌then◌else◌,
}
use ax_ssh.Transfers.Cache.{
  CacheEntry, saturating_add, total_from, without_parts, insert_by_age, sort_by_age,
}

-- The bytes of the entries.
unfoldable pub bytes : List CacheEntry → ℕ
bytes [] = 0
bytes (e ∷ es) = e.size + bytes es

-- The parts of files that are being fetched, which are never removed.
unfoldable pub parts : List CacheEntry → List CacheEntry
parts [] = []
parts (e ∷ es) = let rest = parts es in if e.is_part then e ∷ rest else rest

pub parts-sizes :
    (es : List CacheEntry)
    → (bytes (parts es) + bytes (without_parts es) ≡ bytes es)
      × (length (parts es) + length (without_parts es) ≡ length es)
unfolding bytes parts without_parts
parts-sizes [] = (refl, refl)
parts-sizes (e ∷ es) =
    let rest = parts-sizes es in
    elim (Bool-cases e.is_part) [
      | inl part ↦ rw (part) (omega (arith, rest.0), omega (arith, rest.1))
      | inr whole ↦ rw (whole) (omega (arith, rest.0), omega (arith, rest.1))
    ]

pub insert_by_age-sizes :
    (e : CacheEntry) (es : List CacheEntry)
    → (bytes (insert_by_age e es) ≡ e.size + bytes es)
      × (length (insert_by_age e es) ≡ suc (length es))
unfolding bytes insert_by_age
insert_by_age-sizes e [] = (refl, refl)
insert_by_age-sizes e (f ∷ fs) =
    let rest = insert_by_age-sizes e fs in
    elim (Bool-cases (leb e.modified f.modified)) [
      | inl older ↦ rw (older) (refl, refl)
      | inr newer ↦ rw (newer) (omega (arith, rest.0), omega (arith, rest.1))
    ]

pub sort_by_age-sizes :
    (es : List CacheEntry)
    → (bytes (sort_by_age es) ≡ bytes es) × (length (sort_by_age es) ≡ length es)
unfolding bytes sort_by_age
sort_by_age-sizes [] = (refl, refl)
sort_by_age-sizes (e ∷ es) =
    let rest = sort_by_age-sizes es in
    let put = insert_by_age-sizes e (sort_by_age es) in
    (omega (arith, rest.0, put.0), omega (arith, rest.1, put.1))

pub total_from-bytes :
    (total : ℕ) (es : List CacheEntry)
    → total + bytes es < 2 ^ 64
    → total_from total es ≡ total + bytes es
unfolding bytes total_from
total_from-bytes total [] h = omega arith
total_from-bytes total (e ∷ es) h =
    let exact : saturating_add total e.size ≡ total + e.size = omega (arith, h) in
    rw (exact) (omega (arith, total_from-bytes (total + e.size) es (omega (arith, h))))
