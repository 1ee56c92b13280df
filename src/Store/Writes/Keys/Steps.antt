-- ===== src/Store/Writes/Keys/Steps.antt =====
-- store/repositories.py and store/schema.py: the keys and references after any writes.
use mathlib.Core.Path.{subst}
use netflix_flaky_test_triag.Base.{
  ℕ, Bool, ◌≡◌, refl, ap, ◌||◌, Option, none, some, List, [], ◌∷◌, Text, any, Bool-cases,
  bind-eq-some, some_unique, inl, inr, is_empty, length, ◌&&◌, &&-eq_true,
}
use netflix_flaky_test_triag.Runtime.{Runtime}
use netflix_flaky_test_triag.Models.Records.{ParseWarning}
use netflix_flaky_test_triag.Models.Diff.{FileChange}
use netflix_flaky_test_triag.Store.Aliases.{has_edge, upsert_alias}
use netflix_flaky_test_triag.Store.Tables.{Database}
use netflix_flaky_test_triag.Store.Rows.{is_diff_file, prepend_warnings}
use netflix_flaky_test_triag.Store.Writes.{
  fits_ranges, has_identity, record_alias, has_run, record_run, upsert_identity, insert_executions,
  record_executions, add_diff_file, insert_diff_file, insert_diff_files, record_diff,
  record_warnings, refers_to_run,
}
use netflix_flaky_test_triag.Store.Writes.Keys.{HasKeys, Write, perform, Written}
use netflix_flaky_test_triag.Store.Writes.Keys.Kept.{
  record_run-HasKeys, upsert_found-HasKeys, insert_executions-HasKeys,
}

module _ {F : Type 0} where
  insert_diff_file-HasKeys :
      (run_pk : ℕ) (c : FileChange) (db next : Database F)
      → insert_diff_file run_pk c db ≡ some next
      → HasKeys db
      → HasKeys next
  unfolding insert_diff_file add_diff_file
  insert_diff_file-HasKeys run_pk c db next e k =
      elim (Bool-cases (any (is_diff_file run_pk c.path) db.diff_files)) [
        | inl h ↦ subst HasKeys (some_unique (rw h refl) e) k
        | inr h ↦ elim (Bool-cases (has_run db run_pk && fits_ranges c)) [
          | inl both ↦
              let added : HasKeys (add_diff_file run_pk c db) = record {
                run_keys = k.run_keys;
                run_ids = k.run_ids;
                fingerprints = k.fingerprints;
                identity_ids = k.identity_ids;
                execution_keys = k.execution_keys;
                execution_refs = k.execution_refs;
                diff_keys = (h, k.diff_keys);
                diff_refs = ((&&-eq_true _ _ both).0, k.diff_refs);
              } in
              subst HasKeys (some_unique (rw (h, both) refl) e) added
          | inr missing ↦
              let none_made : insert_diff_file run_pk c db ≡ none = rw (h, missing) refl in
              cc (none_made, e)
        ]
      ]

  insert_diff_files-HasKeys :
      (run_pk : ℕ) (cs : List FileChange) (db next : Database F)
      → insert_diff_files run_pk cs db ≡ some next
      → HasKeys db
      → HasKeys next
  unfolding insert_diff_files
  insert_diff_files-HasKeys run_pk [] db next e k = subst HasKeys (some_unique refl e) k
  insert_diff_files-HasKeys run_pk (c ∷ cs) db next e k =
      let (mid, f, g) = bind-eq-some (insert_diff_file run_pk c db) _ e in
      insert_diff_files-HasKeys run_pk cs mid next g (insert_diff_file-HasKeys run_pk c db mid f k)

  record_warnings-HasKeys :
      (now : Text) (run_pk : Option ℕ) (ws : List ParseWarning) (db next : Database F) {n : ℕ}
      → record_warnings now run_pk ws db ≡ some (next, n)
      → HasKeys db
      → HasKeys next
  unfolding record_warnings
  record_warnings-HasKeys now run_pk ws db next e k =
      elim (Bool-cases (refers_to_run db run_pk || is_empty ws)) [
        | inl h ↦
            let after : Database F = record db {
              parse_warnings = prepend_warnings now run_pk ws db.parse_warnings;
            } in
            let made : record_warnings now run_pk ws db ≡ some (after, length ws) = rw h refl in
            let same : HasKeys after = record {
              run_keys = k.run_keys;
              run_ids = k.run_ids;
              fingerprints = k.fingerprints;
              identity_ids = k.identity_ids;
              execution_keys = k.execution_keys;
              execution_refs = k.execution_refs;
              diff_keys = k.diff_keys;
              diff_refs = k.diff_refs;
            } in
            subst HasKeys (ap (λ p. p.0) (some_unique made e)) same
        | inr missing ↦
            let none_made : record_warnings now run_pk ws db ≡ none = rw missing refl in
            cc (none_made, e)
      ]

  record_alias-HasKeys :
      (max_of : F → F → F) (old new : ℕ) (similarity : F) (certain : Bool) (run_pk : Option ℕ)
      (db : Database F) (r : Database F × Bool)
      → record_alias max_of old new similarity certain run_pk db ≡ some r
      → HasKeys db
      → HasKeys r.0
  unfolding record_alias
  record_alias-HasKeys max_of old new similarity certain run_pk db r e k =
      let ok =
        has_edge old new db.identity_aliases
        || (has_identity db old && has_identity db new && refers_to_run db run_pk) in
      let edges = upsert_alias max_of old new similarity certain db.identity_aliases in
      let after : Database F = record db { identity_aliases = edges.0 } in
      elim (Bool-cases ok) [
        | inl h ↦
            let made : record_alias max_of old new similarity certain run_pk db
                ≡ some (after, edges.1) =
              rw h refl in
            let same : HasKeys after = record {
              run_keys = k.run_keys;
              run_ids = k.run_ids;
              fingerprints = k.fingerprints;
              identity_ids = k.identity_ids;
              execution_keys = k.execution_keys;
              execution_refs = k.execution_refs;
              diff_keys = k.diff_keys;
              diff_refs = k.diff_refs;
            } in
            subst (λ q. HasKeys q.0) (some_unique made e) same
        | inr h ↦
            let refused : record_alias max_of old new similarity certain run_pk db ≡ none =
              rw h refl in
            cc (refused, e)
      ]

  perform-HasKeys :
      (rt : Runtime F) (max_of : F → F → F) (w : Write F) (db next : Database F)
      → perform rt max_of w db ≡ some next
      → HasKeys db
      → HasKeys next
  unfolding record_executions record_diff record_warnings upsert_identity
  perform-HasKeys rt max_of (Write.run now m) db next e k =
      let (mid, f, g) = bind-eq-some (record_run rt now m db) _ e in
      subst HasKeys (some_unique refl g) (record_run-HasKeys rt now m db mid.0 f k)
  perform-HasKeys rt max_of (Write.identity now i) db next e k =
      subst HasKeys (some_unique refl e) (upsert_found-HasKeys now i _ db refl k)
  perform-HasKeys rt max_of (Write.executions now run_pk rows) db next e k =
      let (mid, f, g) = bind-eq-some (record_executions now run_pk rows db) _ e in
      let (last, f', g') = bind-eq-some (insert_executions now run_pk rows db) _ f in
      subst HasKeys (some_unique refl g) (
        subst HasKeys (ap (λ p. p.0) (some_unique refl g'))
          (insert_executions-HasKeys now run_pk rows db last.0 f' k))
  perform-HasKeys rt max_of (Write.diff run_pk files) db next e k =
      let (mid, f, g) = bind-eq-some (record_diff run_pk files db) _ e in
      let (last, f', g') = bind-eq-some (insert_diff_files run_pk files db) _ f in
      subst HasKeys (some_unique refl g) (
        subst HasKeys (ap (λ p. p.0) (some_unique refl g'))
          (insert_diff_files-HasKeys run_pk files db last f' k))
  perform-HasKeys rt max_of (Write.warnings now run_pk ws) db next e k =
      let (mid, f, g) = bind-eq-some (record_warnings now run_pk ws db) _ e in
      subst HasKeys (some_unique refl g) (record_warnings-HasKeys now run_pk ws db mid.0 f k)
  perform-HasKeys rt max_of (Write.alias old new similarity certain run_pk) db next e k =
      let (mid, f, g) =
        bind-eq-some (record_alias max_of old new similarity certain run_pk db) _ e in
      subst HasKeys (some_unique refl g)
        (record_alias-HasKeys max_of old new similarity certain run_pk db mid f k)

  -- Every store that writes make out of an empty one has the keys that the schema declares unique,
  -- for runs, identities, executions and changed files, and every execution and every changed file
  -- refers to rows that are there.
  pub Written-HasKeys :
      (rt : Runtime F) (max_of : F → F → F) {db : Database F} → Written rt max_of db → HasKeys db
  Written-HasKeys rt max_of Written.start = record {
    run_keys = tt;
    run_ids = tt;
    fingerprints = tt;
    identity_ids = tt;
    execution_keys = tt;
    execution_refs = tt;
    diff_keys = tt;
    diff_refs = tt;
  }
  Written-HasKeys rt max_of (Written.then_write w {db} {next} written e) =
      perform-HasKeys rt max_of w db next e (Written-HasKeys rt max_of written)
