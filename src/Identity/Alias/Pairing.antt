-- ===== src/Identity/Alias/Pairing.antt =====
-- The renames of `detect_renames` of identity/alias.py.
use netflix_flaky_test_triag.Base.{
  ℕ, ◌+◌, ◌≤◌, ◌≡◌, refl, Bool, true, false, ◌||◌, List, [], ◌∷◌, ◌++◌, Text, text_eq, text_eq_iff,
  text_in, All, Elem, sum_of, length, is_empty, sort_by, if◌then◌else◌, arith, Bool-cases, inl, inr,
}
use netflix_flaky_test_triag.Runtime.{Runtime}
use netflix_flaky_test_triag.Config.{IdentityConfig}
use netflix_flaky_test_triag.Models.Records.{TestIdentity}
use netflix_flaky_test_triag.Identity.Alias.{
  AliasCandidate, Pair, Matching, combined_distance, is_scored, taken, candidate_of, accept,
  detect_renames, scored_all, match_groups, pair_leb,
}
use netflix_flaky_test_triag.Identity.Alias.Admission.{IsScored, detect_inv}

-- How often an identity stands in the accepted renames, on either side.
abbrev pub uses : {F : Type 0} → Text → List (AliasCandidate F) → ℕ
uses fp cs =
    sum_of
      (λ c.
        (if text_eq c.old_fingerprint fp then 1 else 0)
        + (if text_eq c.new_fingerprint fp then 1 else 0))
      cs

module _ {F : Type 0} (rt : Runtime F) (config : IdentityConfig F) where
  -- An accepted rename goes from an identity that disappeared to one that appeared, which the
  -- rules admit.
  pub record IsRename (disappeared appeared : List TestIdentity) (c : AliasCandidate F)
      : Type 0 where
    pub old : TestIdentity
    pub new : TestIdentity
    pub old_in : Elem old disappeared
    pub new_in : Elem new appeared
    pub old_is : c.old_fingerprint ≡ old.fingerprint
    pub new_is : c.new_fingerprint ≡ new.fingerprint
    pub same_parameters : text_eq old.parameters new.parameters ≡ true
    pub distance_is : c.distance ≡ combined_distance rt old new
    pub within : rt.le c.distance config.alias_max_distance ≡ true
    pub certain_is : c.certain ≡ rt.le c.distance config.alias_certain_distance

  pub uses-snoc :
      (fp : Text) (c : AliasCandidate F) (cs : List (AliasCandidate F))
      → uses fp (cs ++ c ∷ [])
        ≡ uses fp cs
          + ((if text_eq c.old_fingerprint fp then 1 else 0)
              + (if text_eq c.new_fingerprint fp then 1 else 0))
  uses-snoc fp c [] = ground arith
  uses-snoc fp c (d ∷ ds) = omega (arith, uses-snoc fp c ds)

  module _ (disappeared appeared : List TestIdentity) where
    record IsSound (m : Matching F) : Type 0 where
      renames : All (IsRename disappeared appeared) m.accepted
      once : (fp : Text) → uses fp m.accepted ≤ 1
      known : (fp : Text) → text_in fp m.used ≡ false → uses fp m.accepted ≡ 0

    candidate_of-IsRename :
        (p : Pair F)
        → IsScored rt config disappeared appeared p
        → IsRename disappeared appeared (candidate_of rt config p)
    unfolding candidate_of is_scored
    candidate_of-IsRename p s = record {
      old = p.old;
      new = p.new;
      old_in = s.old_in;
      new_in = s.new_in;
      old_is = refl;
      new_is = refl;
      same_parameters = ground (arith, s.admitted);
      distance_is = s.computed;
      within = ground (arith, s.admitted, s.computed);
      certain_is = refl;
    }

    scored_distinct :
        (p : Pair F)
        → IsScored rt config disappeared appeared p
        → text_eq p.old.fingerprint p.new.fingerprint ≡ false
    unfolding is_scored
    scored_distinct p s = ground (arith, s.admitted)

    All-snoc :
        (c : AliasCandidate F) (cs : List (AliasCandidate F))
        → All (IsRename disappeared appeared) cs
        → IsRename disappeared appeared c
        → All (IsRename disappeared appeared) (cs ++ c ∷ [])
    All-snoc c [] h k = (k, tt)
    All-snoc c (d ∷ ds) (h, hs) k = (h, All-snoc c ds hs k)

    once_after :
        (fp old new : Text) (n k : ℕ)
        → text_eq old new ≡ false
        → n ≤ 1
        → k ≡ n + ((if text_eq old fp then 1 else 0) + (if text_eq new fp then 1 else 0))
        → (old ≡ fp → n ≡ 0)
        → (new ≡ fp → n ≡ 0)
        → k ≤ 1
    once_after fp old new n k d h e ho hn =
        ground (arith, text_eq_iff old fp, text_eq_iff new fp, text_eq_iff old new, ho, hn)

    untaken :
        (p : Pair F) (m : Matching F)
        → taken rt config p m ≡ false
        → IsSound m
        → (uses p.old.fingerprint m.accepted ≡ 0) × (uses p.new.fingerprint m.accepted ≡ 0)
    untaken p m e h =
        (h.known p.old.fingerprint (ground arith), h.known p.new.fingerprint (ground arith))

    known_after :
        (fp : Text) (p : Pair F) (m : Matching F)
        → IsSound m
        → text_in fp (p.old.fingerprint ∷ p.new.fingerprint ∷ m.used) ≡ false
        → uses fp (m.accepted ++ candidate_of rt config p ∷ []) ≡ 0
    unfolding text_in candidate_of
    known_after fp p m h e = ground (
      arith,
      uses-snoc fp (candidate_of rt config p) m.accepted,
      h.known fp,
      text_eq_iff fp p.old.fingerprint,
      text_eq_iff fp p.new.fingerprint,
      text_eq_iff p.old.fingerprint fp,
      text_eq_iff p.new.fingerprint fp,
    )

    accept-IsSound :
        (p : Pair F) (m : Matching F)
        → IsScored rt config disappeared appeared p
        → IsSound m
        → IsSound (accept rt config p m)
    unfolding accept
    accept-IsSound p m s h = elim (Bool-cases (taken rt config p m)) [
      | inl e ↦ rw e h
      | inr e ↦ rw e (record {
        renames =
            All-snoc (candidate_of rt config p) m.accepted h.renames (candidate_of-IsRename p s);
        once = λ fp.
            once_after fp p.old.fingerprint p.new.fingerprint (uses fp m.accepted)
              (uses fp (m.accepted ++ candidate_of rt config p ∷ [])) (scored_distinct p s)
              (h.once fp) (uses-snoc fp (candidate_of rt config p) m.accepted)
              (λ q. rw (← q) ((untaken p m e h).0)) (λ q. rw (← q) ((untaken p m e h).1));
        known = λ fp q. known_after fp p m h q;
      })
    ]

  -- For every two lists of identities, each rename that is detected goes from an identity of the
  -- first list to one of the second with equal parameters, whose combined distance is its distance and within the limit, it is marked certain
  -- exactly within the stricter limit, and no fingerprint stands in two of the renames or on both
  -- sides of one.
  pub detect_renames-IsRename :
      (disappeared appeared : List TestIdentity)
      → let cs = detect_renames rt config disappeared appeared in
        All (IsRename disappeared appeared) cs × ((fp : Text) → uses fp cs ≤ 1)
  unfolding detect_renames
  detect_renames-IsRename disappeared appeared =
      let scored = sort_by (pair_leb rt config) (scored_all rt config disappeared appeared) in
      let found =
        (match_groups rt config (length scored) scored
          (record { accepted = []; used = []; contested = [] })).accepted in
      let sound : IsSound disappeared appeared (
          match_groups rt config (length scored) scored
            (record { accepted = []; used = []; contested = [] })) =
        detect_inv rt config disappeared appeared (IsSound disappeared appeared)
          (λ m fps h. record { renames = h.renames; once = h.once; known = h.known })
          (accept-IsSound disappeared appeared)
          (record { renames = tt; once = λ fp. omega arith; known = λ fp e. refl }) in
      either (is_empty disappeared || is_empty appeared) found sound.renames sound.once
    where
      either :
          (b : Bool) (cs : List (AliasCandidate F))
          → All (IsRename disappeared appeared) cs
          → ((fp : Text) → uses fp cs ≤ 1)
          → let ds = if b then [] else cs in
            All (IsRename disappeared appeared) ds × ((fp : Text) → uses fp ds ≤ 1)
      either true cs h k = (tt, λ fp. omega arith)
      either false cs h k = (h, k)
