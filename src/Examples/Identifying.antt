-- ===== src/Examples/Identifying.antt =====
-- The theorems on fingerprints, names and renames at short texts.
use netflix_flaky_test_triag.Base.{
  inl, text_in, text_eq, ℕ, ◌≤◌, ◌≡◌, refl, [], ◌∷◌, ◌++◌, Text, codes, take, All, strip, is_space,
}
use netflix_flaky_test_triag.Models.Records.{TestIdentity}
use netflix_flaky_test_triag.Identity.Similarity.{max_compare_length, edit_distance}
use netflix_flaky_test_triag.Identity.Similarity.Bounds.{IsLeast, edit_distance-IsLeast}
use netflix_flaky_test_triag.Identity.Fingerprint.{split_parameters}
use netflix_flaky_test_triag.Identity.Fingerprint.Parameters.{split_parameters-append}
use netflix_flaky_test_triag.Identity.Alias.{
  Pair, Matching, is_contested, match_group, match_groups, detect_renames,
}
use netflix_flaky_test_triag.Identity.Alias.Pairing.{IsRename, uses, detect_renames-IsRename}
use netflix_flaky_test_triag.Identity.Alias.Ties.{contested_unused}
use netflix_flaky_test_triag.Examples.Sample.{runtime, identity_config, test_of, login}

edit_distance-IsLeast_example :
    IsLeast
      (take max_compare_length (codes "login"))
      (take max_compare_length (codes "logon"))
      (edit_distance (codes "login") (codes "logon"))
edit_distance-IsLeast_example = edit_distance-IsLeast (codes "login") (codes "logon")

split_parameters-append_example :
    split_parameters (codes "login" ++ b'[' ∷ (codes "x=1" ++ b']' ∷ []))
    ≡ (codes "login", codes "x=1")
unfolding strip is_space
split_parameters-append_example =
    split_parameters-append b'l' (codes "ogin") (codes "x=1") refl refl refl refl refl refl

abbrev sign_in : TestIdentity
sign_in = test_of (codes "f2") (codes "sign_in")

abbrev log_on : TestIdentity
log_on = test_of (codes "f3") (codes "log_on")

detect_renames-IsRename_example :
    let cs = detect_renames runtime identity_config (login ∷ []) (sign_in ∷ []) in
    All (IsRename runtime identity_config (login ∷ []) (sign_in ∷ [])) cs
    × ((fp : Text) → uses fp cs ≤ 1)
detect_renames-IsRename_example =
    detect_renames-IsRename runtime identity_config (login ∷ []) (sign_in ∷ [])

abbrev first : Pair ℕ
first = record { distance = 0; old = login; new = sign_in; rank = 0 }

abbrev second : Pair ℕ
second = record { distance = 0; old = login; new = log_on; rank = 0 }

abbrev unmatched : Matching ℕ
unmatched = record { accepted = []; used = []; contested = [] }

-- Two new names at the same distance from an old one: neither is taken for it.
contested_unused_example :
    let n =
      match_groups runtime identity_config 2 []
        (match_group runtime identity_config (first ∷ second ∷ []) unmatched) in
    (uses first.old.fingerprint n.accepted ≡ uses first.old.fingerprint unmatched.accepted)
    × (uses first.new.fingerprint n.accepted ≡ uses first.new.fingerprint unmatched.accepted)
unfolding is_contested text_in text_eq
contested_unused_example =
    contested_unused runtime identity_config first (first ∷ second ∷ []) unmatched 2 [] (inl refl)
      refl
