-- ===== src/Classify/Cache/Entries.antt =====
-- `get` and `put` of classify/cache.py, alone and in sequence.
use netflix_flaky_test_triag.Base.{◌≡◌, Bool, false, some, [], ◌∷◌, Text, arith}
use netflix_flaky_test_triag.Models.Records.{Classification}
use netflix_flaky_test_triag.Classify.Cache.{Entry, ClassificationCache, get, put, is_transient}
use netflix_flaky_test_triag.Classify.Cache.Holds.{
  FilesHold, get-FilesHold, get-served, put-FilesHold,
}

-- An answer that describes the evidence and not the run.
abbrev IsEvidence : {F : Type 0} → Classification F → Type 0
IsEvidence c = is_transient c.downgrade_reason ≡ false

-- The caches a run of lookups and writes makes of one with no files, where a file may be damaged
-- from outside at any time.
pub data Reach {F : Type 0} : ClassificationCache F → Type 0 where
  empty : (cache : ClassificationCache F) → cache.files ≡ [] → Reach cache
  after_get : (key : Text) (cache : ClassificationCache F) → Reach cache → Reach (get key cache).0
  after_put :
      (writable : Text → Bool) (key : Text) (c : Classification F) (cache : ClassificationCache F)
      → Reach cache
      → Reach (put writable key c cache)
  damaged :
      (key : Text) (cache : ClassificationCache F)
      → Reach cache
      → Reach (record cache { files = (key, Entry.unreadable) ∷ cache.files })

module _ {F : Type 0} where
  Reach-FilesHold : (cache : ClassificationCache F) → Reach cache → FilesHold IsEvidence cache.files
  Reach-FilesHold _ (Reach.empty cache e) = rw e tt
  Reach-FilesHold _ (Reach.after_get key cache r) =
      get-FilesHold IsEvidence key cache (Reach-FilesHold cache r)
  Reach-FilesHold _ (Reach.after_put writable key c cache r) =
      put-FilesHold IsEvidence writable key c cache (λ k. ground arith) (Reach-FilesHold cache r)
  Reach-FilesHold _ (Reach.damaged key cache r) = (tt, Reach-FilesHold cache r)

  -- In a cache that lookups, writes and damage to its files made of an empty one, an answer that
  -- `get` returns was never downgraded for an API error, an exhausted budget or a missing model.
  pub transient_never_served :
      (cache : ClassificationCache F) (key : Text) (c : Classification F)
      → Reach cache
      → (get key cache).1 ≡ some c
      → is_transient c.downgrade_reason ≡ false
  transient_never_served cache key c r e =
      get-served IsEvidence key c cache (Reach-FilesHold cache r) e
