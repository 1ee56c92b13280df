-- ===== src/Policy/Owners.antt =====
-- policy/ownership.py: a resolved owner and where the name came from.
use netflix_flaky_test_triag.Base.{Text, []}

pub data OwnerSource : Type 0 where
  codeowners last_committer unresolved : OwnerSource

pub record Owner : Type 0 where
  pub name : Text
  pub source : OwnerSource

abbrev pub unresolved_owner : Owner
unresolved_owner = record { name = []; source = OwnerSource.unresolved }
