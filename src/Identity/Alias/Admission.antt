-- ===== src/Identity/Alias/Admission.antt =====
-- Invariants of the loops of `detect_renames` of identity/alias.py, and which pairs they accept.
use netflix_flaky_test_triag.Base.{
  ℕ, zero, suc, ◌≡◌, refl, Bool, true, ◌&&◌, not, Elem, List, [], ◌∷◌, Text, All, All-sort_by,
  All-append, length, keep, sort_by, Bool-cases, inl, inr,
}
use netflix_flaky_test_triag.Runtime.{Runtime}
use netflix_flaky_test_triag.Config.{IdentityConfig}
use netflix_flaky_test_triag.Models.Records.{TestIdentity}
use netflix_flaky_test_triag.Identity.Alias.{
  Pair, Matching, combined_distance, pair_of, is_scored, scored_for, scored_all, pair_leb, taken,
  is_contested, contest, accept, accept_all, match_group, same_rank, after_rank, match_groups,
}

module _ {F : Type 0} (rt : Runtime F) (config : IdentityConfig F) where
  -- A pair that the inner loop scored, of an identity of each list.
  pub record IsScored (olds news : List TestIdentity) (p : Pair F) : Type 0 where
    pub old_in : Elem p.old olds
    pub new_in : Elem p.new news
    pub admitted : is_scored rt config p.old p.new ≡ true
    pub computed : p.distance ≡ combined_distance rt p.old p.new

  scored_for-IsScored :
      (olds news : List TestIdentity) (old : TestIdentity) (rest : List TestIdentity)
      → Elem old olds
      → ((x : TestIdentity) → Elem x rest → Elem x news)
      → All (IsScored olds news) (scored_for rt config old rest)
  unfolding scored_for pair_of
  scored_for-IsScored olds news old [] m k = tt
  scored_for-IsScored olds news old (new ∷ rest) m k =
      let others = scored_for-IsScored olds news old rest m (λ x n. k x (inr n)) in
      elim (Bool-cases (is_scored rt config old new)) [
        | inl e ↦ rw e (
          record { old_in = m; new_in = k new (inl refl); admitted = e; computed = refl },
          others,
        )
        | inr e ↦ rw e others
      ]

  scored_all-IsScored :
      (olds news rest : List TestIdentity)
      → ((x : TestIdentity) → Elem x rest → Elem x olds)
      → All (IsScored olds news) (scored_all rt config rest news)
  unfolding scored_all
  scored_all-IsScored olds news [] k = tt
  scored_all-IsScored olds news (old ∷ rest) k =
      All-append (IsScored olds news) (scored_for rt config old news)
        (scored_all rt config rest news)
        (scored_for-IsScored olds news old news (k old (inl refl)) (λ x n. n))
        (scored_all-IsScored olds news rest (λ x m. k x (inr m)))

  module _ (Q : Pair F → Type 0) where
    All-keep : (f : Pair F → Bool) (ps : List (Pair F)) → All Q ps → All Q (keep f ps)
    All-keep f [] h = tt
    All-keep f (p ∷ ps) (h, hs) = elim (Bool-cases (f p)) [
      | inl e ↦ rw e (h, All-keep f ps hs)
      | inr e ↦ rw e (All-keep f ps hs)
    ]

    All-same_rank : (r : F) (ps : List (Pair F)) → All Q ps → All Q (same_rank rt config r ps)
    unfolding same_rank
    All-same_rank r [] h = tt
    All-same_rank r (p ∷ ps) (h, hs) = elim (Bool-cases (rt.le r p.rank && rt.le p.rank r)) [
      | inl e ↦ rw e (h, All-same_rank r ps hs)
      | inr e ↦ rw e tt
    ]

    All-after_rank : (r : F) (ps : List (Pair F)) → All Q ps → All Q (after_rank rt config r ps)
    unfolding after_rank
    All-after_rank r [] h = tt
    All-after_rank r (p ∷ ps) (h, hs) = elim (Bool-cases (rt.le r p.rank && rt.le p.rank r)) [
      | inl e ↦ rw e (All-after_rank r ps hs)
      | inr e ↦ rw e (h, hs)
    ]

  -- A property that accepting a scored pair keeps, whatever is contested, holds at the end.
  module _ (olds news : List TestIdentity) (P : Matching F → Type 0)
      (marked : (m : Matching F) (fps : List Text) → P m → P (record m { contested = fps }))
      (accepted : (p : Pair F) (m : Matching F)
        → IsScored olds news p
        → P m
        → P (accept rt config p m)) where
    contest_inv : (live ps : List (Pair F)) (m : Matching F) → P m → P (contest rt config live ps m)
    unfolding contest
    contest_inv live [] m h = h
    contest_inv live (p ∷ ps) m h = elim (Bool-cases (is_contested rt config live p)) [
      | inl e ↦
          rw e (
            contest_inv live ps _
              (marked m (p.old.fingerprint ∷ p.new.fingerprint ∷ m.contested) h))
      | inr e ↦ rw e (contest_inv live ps m h)
    ]

    accept_all_inv :
        (ps : List (Pair F)) (m : Matching F)
        → All (IsScored olds news) ps
        → P m
        → P (accept_all rt config ps m)
    unfolding accept_all
    accept_all_inv [] m g h = h
    accept_all_inv (p ∷ ps) m (g, gs) h =
        accept_all_inv ps (accept rt config p m) gs (accepted p m g h)

    match_groups_inv :
        (fuel : ℕ) (ps : List (Pair F)) (m : Matching F)
        → All (IsScored olds news) ps
        → P m
        → P (match_groups rt config fuel ps m)
    unfolding match_groups
    match_groups_inv zero ps m g h = h
    match_groups_inv (suc fuel) [] m g h = h
    match_groups_inv (suc fuel) (p ∷ ps) m (g, gs) h =
        let group = p ∷ same_rank rt config p.rank ps in
        let live = keep (λ q. not (taken rt config q m)) group in
        match_groups_inv fuel (after_rank rt config p.rank ps) (match_group rt config group m)
          (All-after_rank (IsScored olds news) p.rank ps gs)
          (accept_all_inv live (contest rt config live live m)
            (All-keep (IsScored olds news) (λ q. not (taken rt config q m)) group
              (g, All-same_rank (IsScored olds news) p.rank ps gs))
            (contest_inv live live m h))

    pub detect_inv :
        P (record { accepted = []; used = []; contested = [] })
        → let scored = sort_by (pair_leb rt config) (scored_all rt config olds news) in
          P (
            match_groups rt config
              (length scored)
              scored
              (record { accepted = []; used = []; contested = [] }))
    detect_inv h =
        let scored = sort_by (pair_leb rt config) (scored_all rt config olds news) in
        match_groups_inv (length scored) scored
          (record { accepted = []; used = []; contested = [] })
          (All-sort_by (pair_leb rt config) (IsScored olds news) (scored_all rt config olds news)
            (scored_all-IsScored olds news olds (λ x m. m)))
          h
