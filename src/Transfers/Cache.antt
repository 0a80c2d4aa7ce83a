-- ===== src/Transfers/Cache.antt =====
-- src/sftp/transfer/cache.rs, enforce_cache_quota: room in the cache for a file that is to come. The
-- entries that the directory holds are an argument, and whether a file can be removed a parameter.
use ax_ssh.Prelude.{
  ℕ, ◌+◌, ◌-◌, ◌^◌, min, Bool, ◌&&◌, List, [], ◌∷◌, ltb, leb, length, if◌then◌else◌,
}
use ax_ssh.Prelude.Results.{Result, ok, err}

abbrev pub max_cache_files : ℕ
max_cache_files = 128

pub record CacheEntry : Type 0 where
  pub path : ℕ
  pub size : ℕ
  pub modified : ℕ
  pub is_part : Bool

pub data QuotaError : Type 0 where
  reservation_too_large bytes_exceeded files_exceeded : QuotaError

-- `saturating_add`, of `u64`.
abbrev pub saturating_add : ℕ → ℕ → ℕ
saturating_add a b = min (a + b) (2 ^ 64 - 1)

-- The sum of the sizes, which saturates.
unfoldable pub total_from : ℕ → List CacheEntry → ℕ
total_from total [] = total
total_from total (e ∷ es) = total_from (saturating_add total e.size) es

unfoldable pub without_parts : List CacheEntry → List CacheEntry
without_parts [] = []
without_parts (e ∷ es) = let rest = without_parts es in if e.is_part then rest else e ∷ rest

-- An entry put before the first that is not older, as a stable sort does.
unfoldable pub insert_by_age : CacheEntry → List CacheEntry → List CacheEntry
insert_by_age e [] = e ∷ []
insert_by_age e (f ∷ fs) =
    let rest = insert_by_age e fs in if leb e.modified f.modified then e ∷ f ∷ fs else f ∷ rest

-- `sort_by_key(|entry| entry.modified)`.
unfoldable pub sort_by_age : List CacheEntry → List CacheEntry
unfolding insert_by_age
sort_by_age [] = []
sort_by_age (e ∷ es) = insert_by_age e (sort_by_age es)

-- What the loop leaves: the entries that stay, those removed, and its two counters.
pub record Evicted : Type 0 where
  pub kept : List CacheEntry
  pub removed : List CacheEntry
  pub total : ℕ
  pub files : ℕ

module _ (removes : CacheEntry → Bool) where
  abbrev pub is_within : ℕ → ℕ → ℕ → ℕ → Bool
  is_within incoming max_bytes total files =
      leb (saturating_add total incoming) max_bytes && leb (files + 1) max_cache_files

  unfoldable pub evict : ℕ → ℕ → ℕ → ℕ → List CacheEntry → Evicted
  evict incoming max_bytes total files [] = record {
    kept = [];
    removed = [];
    total = total;
    files = files;
  }
  evict incoming max_bytes total files (e ∷ es) =
      let after = evict incoming max_bytes (total - e.size) (files - 1) es in
      let passed = evict incoming max_bytes total files es in
      if is_within incoming max_bytes total files
      then record { kept = e ∷ es; removed = []; total = total; files = files }
      else if removes e
      then record after { removed = e ∷ after.removed }
      else record passed { kept = e ∷ passed.kept }

  -- The check after the loop.
  abbrev pub within_quota : ℕ → ℕ → Evicted → Result QuotaError Evicted
  within_quota incoming max_bytes r =
      if ltb max_bytes (saturating_add r.total incoming)
      then err bytes_exceeded
      else if ltb max_cache_files (r.files + 1)
      then err files_exceeded
      else ok r

  abbrev pub evicted : ℕ → ℕ → List CacheEntry → Evicted
  evicted incoming max_bytes entries =
      evict incoming max_bytes (total_from 0 entries) (length entries)
        (sort_by_age (without_parts entries))

  unfoldable pub enforce_cache_quota : ℕ → ℕ → List CacheEntry → Result QuotaError Evicted
  unfolding total_from without_parts sort_by_age evict
  enforce_cache_quota incoming max_bytes entries =
      if ltb max_bytes incoming
      then err reservation_too_large
      else within_quota incoming max_bytes (evicted incoming max_bytes entries)
