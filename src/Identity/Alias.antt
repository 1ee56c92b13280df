-- ===== src/Identity/Alias.antt =====
-- identity/alias.py: the pairing of tests that vanished with tests that appeared.
pub mod Pairing
pub mod Admission
pub mod Ties
use netflix_flaky_test_triag.Base.{
  ℕ, zero, suc, Bool, true, false, ◌&&◌, ◌||◌, not, List, [], ◌∷◌, ◌++◌, Text, text_eq, text_leb,
  text_in, count_of, length, is_empty, ltb, keep, sort_by, if◌then◌else◌,
}
use netflix_flaky_test_triag.Runtime.{Runtime}
use netflix_flaky_test_triag.Config.{IdentityConfig}
use netflix_flaky_test_triag.Models.Records.{TestIdentity}
use netflix_flaky_test_triag.Identity.Similarity.{normalized_distance}

pub record AliasCandidate (F : Type 0) : Type 0 where
  pub old_fingerprint : Text
  pub new_fingerprint : Text
  pub distance : F
  pub certain : Bool

-- `_Pair`
pub record Pair (F : Type 0) : Type 0 where
  pub distance : F
  pub old : TestIdentity
  pub new : TestIdentity
  pub rank : F

-- The pairs still to decide and the sets of the loop; a set is a list that is only searched.
pub record Matching (F : Type 0) : Type 0 where
  pub accepted : List (AliasCandidate F)
  pub used : List Text
  pub contested : List Text

module _ {F : Type 0} (rt : Runtime F) where
  -- `combined_distance`
  unfoldable pub combined_distance : TestIdentity → TestIdentity → F
  combined_distance old new =
      let half = rt.div (rt.of_nat 1) (rt.of_nat 2) in
      rt.add (rt.mul half (normalized_distance rt old.test_name new.test_name))
        (rt.mul half (normalized_distance rt old.suite_path new.suite_path))

  unfoldable pub pair_of : TestIdentity → TestIdentity → Pair F
  unfolding combined_distance
  pair_of old new =
      let d = combined_distance old new in
      record { distance = d; old = old; new = new; rank = rt.round d 9 }

  -- `==` of two floats.
  abbrev float_eq : F → F → Bool
  float_eq a b = rt.le a b && rt.le b a

  module _ (config : IdentityConfig F) where
    -- The tests of the inner loop, each of which may `continue`.
    unfoldable pub is_scored : TestIdentity → TestIdentity → Bool
    unfolding combined_distance
    is_scored old new =
        text_eq old.parameters new.parameters
        && not (text_eq old.fingerprint new.fingerprint)
        && rt.le (combined_distance old new) config.alias_max_distance

    scored_for : TestIdentity → List TestIdentity → List (Pair F)
    scored_for old [] = []
    scored_for old (new ∷ news) =
        let rest = scored_for old news in if is_scored old new then pair_of old new ∷ rest else rest

    pub scored_all : List TestIdentity → List TestIdentity → List (Pair F)
    scored_all [] appeared = []
    scored_all (old ∷ olds) appeared = scored_for old appeared ++ scored_all olds appeared

    -- `(pair.rank, pair.old.fingerprint, pair.new.fingerprint)`, compared as tuples.
    pub pair_leb : Pair F → Pair F → Bool
    pair_leb p q =
        if not (float_eq p.rank q.rank)
        then rt.lt p.rank q.rank
        else if text_eq p.old.fingerprint q.old.fingerprint
        then text_leb p.new.fingerprint q.new.fingerprint
        else text_leb p.old.fingerprint q.old.fingerprint

    -- `{old, new} & (used | contested)`
    abbrev pub taken : Pair F → Matching F → Bool
    taken p m =
        text_in p.old.fingerprint m.used
        || text_in p.new.fingerprint m.used
        || text_in p.old.fingerprint m.contested
        || text_in p.new.fingerprint m.contested

    -- Another pair of the group has the same old or the same new identity.
    unfoldable pub is_contested : List (Pair F) → Pair F → Bool
    is_contested live p =
        ltb 1 (count_of (λ q. text_eq q.old.fingerprint p.old.fingerprint) live)
        || ltb 1 (count_of (λ q. text_eq q.new.fingerprint p.new.fingerprint) live)

    -- The first loop over a group.
    contest : List (Pair F) → List (Pair F) → Matching F → Matching F
    unfolding is_contested
    contest live [] m = m
    contest live (p ∷ ps) m = contest live ps (
        if is_contested live p
        then record m { contested = p.old.fingerprint ∷ p.new.fingerprint ∷ m.contested }
        else m)

    candidate_of : Pair F → AliasCandidate F
    candidate_of p = record {
      old_fingerprint = p.old.fingerprint;
      new_fingerprint = p.new.fingerprint;
      distance = p.distance;
      certain = rt.le p.distance config.alias_certain_distance;
    }

    -- One round of the second loop.
    pub accept : Pair F → Matching F → Matching F
    unfolding candidate_of
    accept p m = if taken p m then m else record m {
      accepted = m.accepted ++ candidate_of p ∷ [];
      used = p.old.fingerprint ∷ p.new.fingerprint ∷ m.used;
    }

    accept_all : List (Pair F) → Matching F → Matching F
    unfolding accept
    accept_all [] m = m
    accept_all (p ∷ ps) m = accept_all ps (accept p m)

    -- The body of the loop over the groups.
    pub match_group : List (Pair F) → Matching F → Matching F
    unfolding contest accept_all
    match_group group m =
        let live = keep (λ p. not (taken p m)) group in accept_all live (contest live live m)

    -- `groupby` by rank: the pairs that follow `p` with the same rank, and the others.
    same_rank : F → List (Pair F) → List (Pair F)
    same_rank r [] = []
    same_rank r (p ∷ ps) = let rest = p ∷ same_rank r ps in if float_eq r p.rank then rest else []

    after_rank : F → List (Pair F) → List (Pair F)
    after_rank r [] = []
    after_rank r (p ∷ ps) = let rest = after_rank r ps in if float_eq r p.rank then rest else p ∷ ps

    -- The loop over the groups, each at least one pair: fuel for the number of pairs is enough.
    pub match_groups : ℕ → List (Pair F) → Matching F → Matching F
    unfolding match_group same_rank after_rank
    match_groups zero ps m = m
    match_groups (suc fuel) [] m = m
    match_groups (suc fuel) (p ∷ ps) m =
        match_groups fuel (after_rank p.rank ps) (match_group (p ∷ same_rank p.rank ps) m)

    -- `detect_renames`
    unfoldable pub detect_renames : List TestIdentity → List TestIdentity → List (AliasCandidate F)
    unfolding scored_all scored_for pair_leb match_groups
    detect_renames disappeared appeared =
        let scored = sort_by pair_leb (scored_all disappeared appeared) in
        let start : Matching F = record { accepted = []; used = []; contested = [] } in
        if is_empty disappeared || is_empty appeared
        then []
        else (match_groups (length scored) scored start).accepted
