-- ===== src/Classify/Cache.antt =====
-- classify/cache.py: answers kept under a hash of what was asked.
use netflix_flaky_test_triag.Base.{
  ℕ, ◌+◌, Bool, true, false, ◌&&◌, not, Option, none, some, List, [], ◌∷◌, Text, codes, join,
  if◌then◌else◌, text_eq, decimal, keep,
}
use netflix_flaky_test_triag.Runtime.{Runtime}
use netflix_flaky_test_triag.Models.Enums.{DowngradeReason}
use netflix_flaky_test_triag.Models.Records.{Classification}
pub mod Holds
pub mod Entries

-- The file of a key: an entry that reads back, or one that does not.
pub data Entry (F : Type 0) : Type 0 where
  stored : Classification F → Entry F
  unreadable : Entry F

-- `ClassificationCache` and the files under its root, the latest write first.
pub record ClassificationCache (F : Type 0) : Type 0 where
  pub enabled : Bool
  pub files : List (Text × Entry F)
  pub hits : ℕ
  pub misses : ℕ
  pub writes : ℕ

-- `path.read_text()`, with `FileNotFoundError` as none
unfoldable pub file_at : {F : Type 0} → Text → List (Text × Entry F) → Option (Entry F)
file_at key [] = none
file_at key ((name, entry) ∷ rest) = if text_eq name key then some entry else file_at key rest

-- `path.unlink(missing_ok=True)`
unfoldable pub unlink : {F : Type 0} → Text → List (Text × Entry F) → List (Text × Entry F)
unlink key files = keep (λ f. not (text_eq f.0 key)) files

-- `ClassificationCache.get`
unfoldable pub get :
    {F : Type 0} → Text → ClassificationCache F → ClassificationCache F × Option (Classification F)
get key cache = if not cache.enabled then (cache, none) else elim (file_at key cache.files) [
  | none ↦ (record cache { misses = cache.misses + 1 }, none)
  | some Entry.unreadable ↦
      (record cache { files = unlink key cache.files; misses = cache.misses + 1 }, none)
  | some (Entry.stored c) ↦ (record cache { hits = cache.hits + 1 }, some c)
]

-- The reasons of the set `transient`.
abbrev pub is_transient : DowngradeReason → Bool
is_transient DowngradeReason.api_error = true
is_transient DowngradeReason.budget_exhausted = true
is_transient DowngradeReason.llm_disabled = true
is_transient _ = false

-- `_is_cacheable`
abbrev pub is_cacheable : {F : Type 0} → Classification F → Bool
is_cacheable c = not (is_transient c.downgrade_reason)

-- `ClassificationCache.put`; `writable` says for which keys the file can be written, and a
-- failed write leaves what was there.
unfoldable pub put :
    {F : Type 0}
    → (Text → Bool)
    → Text
    → Classification F
    → ClassificationCache F
    → ClassificationCache F
put writable key classification cache =
    if not cache.enabled
    then cache
    else if not (is_cacheable classification)
    then cache
    else if not (writable key)
    then cache
    else record cache {
      files = (key, Entry.stored classification) ∷ unlink key cache.files;
      writes = cache.writes + 1;
    }

module _ {F : Type 0} (rt : Runtime F) where
  -- `context_key`, with `CACHE_FORMAT_VERSION` at 1
  unfoldable pub context_key : Text → Text → Text → Text
  context_key context model prompt_version =
      rt.sha256 (join (31 ∷ []) (codes "1" ∷ model ∷ prompt_version ∷ context ∷ []))
