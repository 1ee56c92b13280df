-- ===== src/Classify/Cache/Holds.antt =====
-- Predicates on the entries of the cache of classify/cache.py.
use mathlib.Core.Path.{subst}
use netflix_flaky_test_triag.Base.{
  ◌≡◌, sym, Bool, true, not, some, List, [], ◌∷◌, Text, text_eq, keep, inl, inr, arith, Bool-cases,
  Option-cases, All,
}
use netflix_flaky_test_triag.Models.Records.{Classification}
use netflix_flaky_test_triag.Classify.Cache.{
  Entry, ClassificationCache, file_at, unlink, get, put, is_cacheable,
}

module _ {F : Type 0} (P : Classification F → Type 0) where
  abbrev pub EntryHolds : Entry F → Type 0
  EntryHolds (Entry.stored c) = P c
  EntryHolds Entry.unreadable = Unit

  abbrev pub FilesHold : List (Text × Entry F) → Type 0
  FilesHold files = All (λ f. EntryHolds f.1) files

  keep-FilesHold :
      (p : Text × Entry F → Bool) (files : List (Text × Entry F))
      → FilesHold files
      → FilesHold (keep p files)
  keep-FilesHold p [] h = tt
  keep-FilesHold p (f ∷ files) (h, hs) = elim (Bool-cases (p f)) [
    | inl e ↦ rw e (h, keep-FilesHold p files hs)
    | inr e ↦ rw e (keep-FilesHold p files hs)
  ]

  file_at-EntryHolds :
      (key : Text) (entry : Entry F) (files : List (Text × Entry F))
      → FilesHold files
      → file_at key files ≡ some entry
      → EntryHolds entry
  unfolding file_at
  file_at-EntryHolds key entry [] h e = cc
  file_at-EntryHolds key entry ((name, first) ∷ files) (h, hs) e =
      elim (Bool-cases (text_eq name key)) [
        | inl k ↦ let same : first ≡ entry = ground (arith, e, k) in subst EntryHolds same h
        | inr k ↦
            let later : file_at key files ≡ some entry = ground (arith, e, k) in
            file_at-EntryHolds key entry files hs later
      ]

  pub get-FilesHold :
      (key : Text) (cache : ClassificationCache F)
      → FilesHold cache.files
      → FilesHold (get key cache).0.files
  unfolding get unlink
  get-FilesHold key cache h =
      let kept = keep-FilesHold (λ f. not (text_eq f.0 key)) cache.files h in
      elim (Bool-cases cache.enabled) [
        | inr e ↦
            let same : (get key cache).0.files ≡ cache.files = ground arith in
            subst FilesHold (sym same) h
        | inl e ↦ elim (Option-cases (file_at key cache.files)) [
          | inl n ↦
              let same : (get key cache).0.files ≡ cache.files = ground arith in
              subst FilesHold (sym same) h
          | inr (Entry.unreadable, s) ↦
              let same : (get key cache).0.files ≡ unlink key cache.files = ground arith in
              subst FilesHold (sym same) kept
          | inr (Entry.stored c, s) ↦
              let same : (get key cache).0.files ≡ cache.files = ground arith in
              subst FilesHold (sym same) h
        ]
      ]

  pub get-served :
      (key : Text) (c : Classification F) (cache : ClassificationCache F)
      → FilesHold cache.files
      → (get key cache).1 ≡ some c
      → P c
  unfolding get
  get-served key c cache h e =
      let found : file_at key cache.files ≡ some (Entry.stored c) = ground (arith, e) in
      file_at-EntryHolds key (Entry.stored c) cache.files h found

  pub put-FilesHold :
      (writable : Text → Bool) (key : Text) (c : Classification F) (cache : ClassificationCache F)
      → (is_cacheable c ≡ true → P c)
      → FilesHold cache.files
      → FilesHold (put writable key c cache).files
  unfolding put unlink
  put-FilesHold writable key c cache g h =
      let kept = keep-FilesHold (λ f. not (text_eq f.0 key)) cache.files h in
      elim (Bool-cases cache.enabled) [
        | inr e ↦
            let same : (put writable key c cache).files ≡ cache.files = ground arith in
            subst FilesHold (sym same) h
        | inl e ↦ elim (Bool-cases (is_cacheable c)) [
          | inr n ↦
              let same : (put writable key c cache).files ≡ cache.files = ground arith in
              subst FilesHold (sym same) h
          | inl i ↦ elim (Bool-cases (writable key)) [
            | inr n ↦
                let same : (put writable key c cache).files ≡ cache.files = ground arith in
                subst FilesHold (sym same) h
            | inl w ↦
                let same : (put writable key c cache).files
                    ≡ (key, Entry.stored c) ∷ unlink key cache.files =
                  ground arith in
                subst FilesHold (sym same) (g i, kept)
          ]
        ]
      ]
