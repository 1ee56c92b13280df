-- ===== src/Identity/Alias/Ties.antt =====
-- Contested pairs in the groups of `detect_renames` of identity/alias.py, and the fuel of its loop.
use netflix_flaky_test_triag.Base.{
  ℕ, zero, suc, ◌≤◌, ◌≡◌, refl, sym, ap, ◌∙◌, Bool, true, false, not, List, [], ◌∷◌, Text,
  text_eq_iff, text_eq_refl, text_in, Elem, length, keep, if◌then◌else◌, arith, Bool-cases, inl,
  inr,
}
use mathlib.Core.Path.{subst}
use netflix_flaky_test_triag.Runtime.{Runtime}
use netflix_flaky_test_triag.Config.{IdentityConfig}
use netflix_flaky_test_triag.Identity.Alias.{
  Pair, Matching, taken, is_contested, contest, candidate_of, accept, accept_all, match_group,
  same_rank, after_rank, match_groups,
}
use netflix_flaky_test_triag.Identity.Alias.Pairing.{uses, uses-snoc}

module _ {F : Type 0} (rt : Runtime F) (config : IdentityConfig F) where
  -- What the rest of the loop keeps: an identity stays contested and gets no rename.
  record Barred (fp : Text) (m n : Matching F) : Type 0 where
    still : text_in fp n.contested ≡ true
    unused : uses fp n.accepted ≡ uses fp m.accepted

  accept-Barred :
      (fp : Text) (p : Pair F) (m : Matching F)
      → text_in fp m.contested ≡ true
      → Barred fp m (accept rt config p m)
  unfolding accept candidate_of
  accept-Barred fp p m h = elim (Bool-cases (taken rt config p m)) [
    | inl e ↦ rw e (record { still = h; unused = refl })
    | inr e ↦ rw e (record {
      still = h;
      unused = ground (
        arith,
        uses-snoc rt config fp (candidate_of rt config p) m.accepted,
        text_eq_iff p.old.fingerprint fp,
        text_eq_iff p.new.fingerprint fp,
      );
    })
  ]

  accept_all-Barred :
      (fp : Text) (ps : List (Pair F)) (m : Matching F)
      → text_in fp m.contested ≡ true
      → Barred fp m (accept_all rt config ps m)
  unfolding accept_all
  accept_all-Barred fp [] m h = record { still = h; unused = refl }
  accept_all-Barred fp (p ∷ ps) m h =
      let a = accept-Barred fp p m h in
      let b = accept_all-Barred fp ps (accept rt config p m) a.still in
      record { still = b.still; unused = b.unused ∙ a.unused }

  contest-Barred :
      (fp : Text) (live ps : List (Pair F)) (m : Matching F)
      → text_in fp m.contested ≡ true
      → Barred fp m (contest rt config live ps m)
  unfolding contest
  contest-Barred fp live [] m h = record { still = h; unused = refl }
  contest-Barred fp live (p ∷ ps) m h = elim (Bool-cases (is_contested rt config live p)) [
    | inl e ↦
        let more : Matching F = record m {
          contested = p.old.fingerprint ∷ p.new.fingerprint ∷ m.contested;
        } in
        let grown : text_in fp more.contested ≡ true = unfold text_in in ground arith in
        let b = contest-Barred fp live ps more grown in
        rw e (record { still = b.still; unused = b.unused })
    | inr e ↦ rw e (contest-Barred fp live ps m h)
  ]

  match_group-Barred :
      (fp : Text) (group : List (Pair F)) (m : Matching F)
      → text_in fp m.contested ≡ true
      → Barred fp m (match_group rt config group m)
  unfolding match_group
  match_group-Barred fp group m h =
      let live = keep (λ q. not (taken rt config q m)) group in
      let a = contest-Barred fp live live m h in
      let b = accept_all-Barred fp live (contest rt config live live m) a.still in
      record { still = b.still; unused = b.unused ∙ a.unused }

  match_groups-Barred :
      (fp : Text) (fuel : ℕ) (ps : List (Pair F)) (m : Matching F)
      → text_in fp m.contested ≡ true
      → Barred fp m (match_groups rt config fuel ps m)
  unfolding match_groups
  match_groups-Barred fp zero ps m h = record { still = h; unused = refl }
  match_groups-Barred fp (suc fuel) [] m h = record { still = h; unused = refl }
  match_groups-Barred fp (suc fuel) (p ∷ ps) m h =
      let group = p ∷ same_rank rt config p.rank ps in
      let a = match_group-Barred fp group m h in
      let b =
        match_groups-Barred fp fuel (after_rank rt config p.rank ps) (match_group rt config group m)
          a.still in
      record { still = b.still; unused = b.unused ∙ a.unused }

  if_accepted :
      (b : Bool) (fps : List Text) (m : Matching F)
      → let n : Matching F = if b then record m { contested = fps } else m in
        n.accepted ≡ m.accepted
  if_accepted true fps m = refl
  if_accepted false fps m = refl

  contest_accepted :
      (live ps : List (Pair F)) (m : Matching F)
      → (contest rt config live ps m).accepted ≡ m.accepted
  unfolding contest
  contest_accepted live [] m = refl
  contest_accepted live (p ∷ ps) m =
      let fps = p.old.fingerprint ∷ p.new.fingerprint ∷ m.contested in
      contest_accepted live ps
        (if is_contested rt config live p then record m { contested = fps } else m)
      ∙ if_accepted (is_contested rt config live p) fps m

  abbrev Marked : Pair F → Matching F → Type 0
  Marked p m =
      (text_in p.old.fingerprint m.contested ≡ true)
      × (text_in p.new.fingerprint m.contested ≡ true)

  contest_first :
      (live ps : List (Pair F)) (p : Pair F) (m : Matching F)
      → is_contested rt config live p ≡ true
      → Marked p (contest rt config live (p ∷ ps) m)
  unfolding contest text_in
  contest_first live ps p m c =
      let more : Matching F = record m {
        contested = p.old.fingerprint ∷ p.new.fingerprint ∷ m.contested;
      } in
      let next : contest rt config live (p ∷ ps) m ≡ contest rt config live ps more =
        ap (λ b. contest rt config live ps (if b then more else m)) c in
      subst (Marked p) (sym next) (
        (contest-Barred p.old.fingerprint live ps more
            (ground (arith, text_eq_refl p.old.fingerprint))).still,
        (contest-Barred p.new.fingerprint live ps more
            (ground (arith, text_eq_refl p.new.fingerprint))).still,
      )

  contest_marks :
      (live ps : List (Pair F)) (p : Pair F) (m : Matching F)
      → Elem p ps
      → is_contested rt config live p ≡ true
      → Marked p (contest rt config live ps m)
  unfolding contest
  contest_marks live [] p m e c = elim e [ ]
  contest_marks live (q ∷ qs) p m (inl e) c =
      subst (λ x. Marked p (contest rt config live (x ∷ qs) m)) e (contest_first live qs p m c)
  contest_marks live (q ∷ qs) p m (inr e) c =
      contest_marks live qs p
        (if is_contested rt config live q
          then record m { contested = q.old.fingerprint ∷ q.new.fingerprint ∷ m.contested }
          else m)
        e c

  -- When a pair of a group of equal rank, still free, shares its old or its new identity with
  -- another free pair of the group, then neither of its identities gets a rename, in this group or
  -- in any later one: both stand in the accepted renames as often as before the group.
  pub contested_unused :
      (p : Pair F) (group : List (Pair F)) (m : Matching F) (fuel : ℕ) (later : List (Pair F))
      → let live = keep (λ q. not (taken rt config q m)) group in
        let n = match_groups rt config fuel later (match_group rt config group m) in
        Elem p live
        → is_contested rt config live p ≡ true
        → (uses p.old.fingerprint n.accepted ≡ uses p.old.fingerprint m.accepted)
          × (uses p.new.fingerprint n.accepted ≡ uses p.new.fingerprint m.accepted)
  unfolding match_group
  contested_unused p group m fuel later e c =
      let live = keep (λ q. not (taken rt config q m)) group in
      let marked = contest rt config live live m in
      let (mo, mn) = contest_marks live live p m e c in
      (
        unused_from p.old.fingerprint live m marked refl mo,
        unused_from p.new.fingerprint live m marked refl mn,
      )
    where
      unused_from :
          (fp : Text) (live : List (Pair F)) (m marked : Matching F)
          → marked ≡ contest rt config live live m
          → text_in fp marked.contested ≡ true
          → uses fp (match_groups rt config fuel later (accept_all rt config live marked)).accepted
            ≡ uses fp m.accepted
      unused_from fp live m marked q h =
          let a = accept_all-Barred fp live marked h in
          (match_groups-Barred fp fuel later (accept_all rt config live marked) a.still).unused
          ∙ a.unused
          ∙ ap (λ x. uses fp x.accepted) q
          ∙ ap (uses fp) (contest_accepted live live m)

  length-after_rank : (r : F) (ps : List (Pair F)) → length (after_rank rt config r ps) ≤ length ps
  unfolding after_rank
  length-after_rank r [] = omega arith
  length-after_rank r (p ∷ ps) = ground (arith, length-after_rank r ps)

  -- Fuel for the number of pairs is enough: with any two fuels of that much or more, the loop
  -- over the groups gives the same matching.
  match_groups_fuel :
      (f g : ℕ) (ps : List (Pair F)) (m : Matching F)
      → length ps ≤ f
      → length ps ≤ g
      → match_groups rt config f ps m ≡ match_groups rt config g ps m
  unfolding match_groups
  match_groups_fuel zero zero ps m hf hg = refl
  match_groups_fuel zero (suc g) [] m hf hg = refl
  match_groups_fuel (suc f) zero [] m hf hg = refl
  match_groups_fuel zero (suc g) (p ∷ ps) m hf hg = absurd (omega arith)
  match_groups_fuel (suc f) zero (p ∷ ps) m hf hg = absurd (omega arith)
  match_groups_fuel (suc f) (suc g) [] m hf hg = refl
  match_groups_fuel (suc f) (suc g) (p ∷ ps) m hf hg =
      match_groups_fuel f g (after_rank rt config p.rank ps)
        (match_group rt config (p ∷ same_rank rt config p.rank ps) m)
        (omega (arith, length-after_rank p.rank ps)) (omega (arith, length-after_rank p.rank ps))
