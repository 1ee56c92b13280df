-- ===== src/Policy/Ownership/Rules.antt =====
-- `owners_for` and `resolve_owner` of policy/ownership.py.
use netflix_flaky_test_triag.Base.{
  ◌≡◌, refl, Bool, true, false, none, some, List, [], ◌∷◌, ◌++◌, Text, any, codes, is_empty, join,
  if◌then◌else◌, arith,
}
use netflix_flaky_test_triag.Runtime.{Runtime}
use netflix_flaky_test_triag.Policy.Owners.{OwnerSource}
use netflix_flaky_test_triag.Policy.Ownership.{
  Rule, matches, owners_from, owners_for, target_of, resolve_owner,
}

abbrev pub matching : Text → Rule → Bool
matching target r = matches r.pattern target

owners_from-skip :
    (matched : List Text) (rs : List Rule) (target : Text)
    → any (matching target) rs ≡ false
    → owners_from matched rs target ≡ matched
unfolding owners_from
owners_from-skip matched [] target h = refl
owners_from-skip matched (r ∷ rs) target h = ground (arith, owners_from-skip matched rs target)

owners_from-last :
    (matched : List Text) (before : List Rule) (r : Rule) (after : List Rule) (target : Text)
    → matches r.pattern target ≡ true
    → any (matching target) after ≡ false
    → owners_from matched (before ++ r ∷ after) target ≡ r.owners
unfolding owners_from
owners_from-last matched [] r after target h k =
    ground (arith, owners_from-skip r.owners after target k)
owners_from-last matched (b ∷ bs) r after target h k =
    owners_from-last (if matches b.pattern target then b.owners else matched) bs r after target h k

-- A path is owned by the owners of the last rule that matches it: for rules split at a rule that
-- matches with no match after it, the owners are that rule's, whatever stands before; and with no
-- matching rule there are none.
owners_for-last :
    (path : Text)
    → ((before : List Rule) (r : Rule) (after : List Rule)
        → matches r.pattern (target_of path) ≡ true
        → any (matching (target_of path)) after ≡ false
        → owners_for (before ++ r ∷ after) path ≡ r.owners)
      × ((rs : List Rule) → any (matching (target_of path)) rs ≡ false → owners_for rs path ≡ [])
unfolding owners_for
owners_for-last path = (
  λ before r after h k. owners_from-last [] before r after (target_of path) h k,
  λ rs h. owners_from-skip [] rs (target_of path) h,
)

-- The owner by what the rules declare for the path.
resolve_owner_declared :
    {F : Type 0} (rt : Runtime F) (path : Text) (rules : List Rule) (allow_git : Bool)
    (owners : List Text)
    → is_empty path ≡ false
    → owners_for rules path ≡ owners
    → resolve_owner rt path (some rules) allow_git ≡ (
        if is_empty owners
        then resolve_owner rt path none allow_git
        else record { name = join (codes ", ") owners; source = OwnerSource.codeowners })
unfolding resolve_owner
resolve_owner_declared rt path rules allow_git owners full h = rw (h, full) refl

-- For a path that is not empty, the last rule of CODEOWNERS that matches it decides, whatever rules
-- stand before it: its owners, joined, are the owner, attributed to CODEOWNERS; if it has none, then
-- the owner is the one without any rules, which git gives if it may be asked.
pub resolve_owner_last_rule :
    {F : Type 0} (rt : Runtime F) (path : Text) (before : List Rule) (r : Rule) (after : List Rule)
    (allow_git : Bool)
    → is_empty path ≡ false
    → matches r.pattern (target_of path) ≡ true
    → any (matching (target_of path)) after ≡ false
    → resolve_owner rt path (some (before ++ r ∷ after)) allow_git ≡ (
        if is_empty r.owners
        then resolve_owner rt path none allow_git
        else record { name = join (codes ", ") r.owners; source = OwnerSource.codeowners })
resolve_owner_last_rule rt path before r after allow_git full h k =
    resolve_owner_declared rt path (before ++ r ∷ after) allow_git r.owners full
      ((owners_for-last path).0 before r after h k)
