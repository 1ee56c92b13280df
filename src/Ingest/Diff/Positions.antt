-- ===== src/Ingest/Diff/Positions.antt =====
-- ingest/diff.py: the lines that the body of a hunk changes.
use netflix_flaky_test_triag.Base.{
  ℕ, ◌+◌, ◌≡◌, refl, Bool, true, false, ◌&&◌, ◌||◌, Option, some, List, [], ◌∷◌, Text, codes,
  starts_with, arith, any, any-append, All, ◌==◌, max, ◌∙◌, ap,
}
use netflix_flaky_test_triag.Models.Diff.{in_range}
use netflix_flaky_test_triag.Ingest.Ranges.{ranges_from_lines}
use netflix_flaky_test_triag.Ingest.Ranges.Covered.{covers, covers-ranges_from_lines}
use netflix_flaky_test_triag.Ingest.Headers.{hunk_header, path_behind}
use netflix_flaky_test_triag.Ingest.Hunks.{FileAccumulator, HunkState, from_match, consume, commit}
use netflix_flaky_test_triag.Ingest.Diff.{
  Parser, commit_hunk, file_line, path_line, other_line, hunk_line, step,
}

-- A line of a hunk's body, with its text.
pub data BodyLine : Type 0 where
  context added removed no_newline : Text → BodyLine

abbrev pub render : BodyLine → Text
render (BodyLine.context t) = b' ' ∷ t
render (BodyLine.added t) = b'+' ∷ t
render (BodyLine.removed t) = b'-' ∷ t
render (BodyLine.no_newline t) = b'\\' ∷ t

-- Not read as a `+++` or `---` line.
abbrev pub IsPlain : BodyLine → Type 0
IsPlain (BodyLine.added t) = starts_with (codes "++") t ≡ false
IsPlain (BodyLine.removed t) = starts_with (codes "--") t ≡ false
IsPlain _ = Unit

abbrev pub is_change : BodyLine → Bool
is_change (BodyLine.added t) = true
is_change (BodyLine.removed t) = true
is_change _ = false

-- The lines that the hunk has on its new side, and on its old side: whether each is changed.
abbrev pub new_side : List BodyLine → List Bool
new_side [] = []
new_side (BodyLine.context t ∷ body) = false ∷ new_side body
new_side (BodyLine.added t ∷ body) = true ∷ new_side body
new_side (BodyLine.removed t ∷ body) = new_side body
new_side (BodyLine.no_newline t ∷ body) = new_side body

abbrev pub old_side : List BodyLine → List Bool
old_side [] = []
old_side (BodyLine.context t ∷ body) = false ∷ old_side body
old_side (BodyLine.added t ∷ body) = old_side body
old_side (BodyLine.removed t ∷ body) = true ∷ old_side body
old_side (BodyLine.no_newline t ∷ body) = old_side body

-- Line `n` is changed on a side whose first line has the number `start`.
abbrev pub is_changed : ℕ → List Bool → ℕ → Bool
is_changed start [] n = false
is_changed start (changed ∷ side) n = (changed && start == n) || is_changed (start + 1) side n

-- `consume` on each line of a body.
abbrev consume_body : List BodyLine → HunkState → HunkState
consume_body [] h = h
consume_body (l ∷ body) h = consume_body body (consume (render l) h)

abbrev has_line : ℕ → List ℕ → Bool
has_line n lines = any (λ k. k == n) lines

consume_body-added :
    (n : ℕ) (body : List BodyLine) (h : HunkState)
    → All IsPlain body
    → has_line n (consume_body body h).added
      ≡ (has_line n h.added || is_changed h.new_cursor (new_side body) n)
unfolding consume starts_with
consume_body-added n [] h k = ground arith
consume_body-added n (BodyLine.context t ∷ body) h (k, ks) =
    consume_body-added n body (consume (b' ' ∷ t) h) ks
consume_body-added n (BodyLine.added t ∷ body) h (k, ks) = ground (
  arith,
  consume_body-added n body (consume (b'+' ∷ t) h) ks,
  any-append (λ j. j == n) h.added (h.new_cursor ∷ []),
)
consume_body-added n (BodyLine.removed t ∷ body) h (k, ks) =
    ground (arith, consume_body-added n body (consume (b'-' ∷ t) h) ks)
consume_body-added n (BodyLine.no_newline t ∷ body) h (k, ks) =
    consume_body-added n body (consume (b'\\' ∷ t) h) ks

consume_body-removed :
    (n : ℕ) (body : List BodyLine) (h : HunkState)
    → All IsPlain body
    → has_line n (consume_body body h).removed
      ≡ (has_line n h.removed || is_changed h.old_cursor (old_side body) n)
unfolding consume starts_with
consume_body-removed n [] h k = ground arith
consume_body-removed n (BodyLine.context t ∷ body) h (k, ks) =
    consume_body-removed n body (consume (b' ' ∷ t) h) ks
consume_body-removed n (BodyLine.added t ∷ body) h (k, ks) =
    ground (arith, consume_body-removed n body (consume (b'+' ∷ t) h) ks)
consume_body-removed n (BodyLine.removed t ∷ body) h (k, ks) = ground (
  arith,
  consume_body-removed n body (consume (b'-' ∷ t) h) ks,
  any-append (λ j. j == n) h.removed (h.old_cursor ∷ []),
)
consume_body-removed n (BodyLine.no_newline t ∷ body) h (k, ks) =
    consume_body-removed n body (consume (b'\\' ∷ t) h) ks

consume_body-seen :
    (body : List BodyLine) (h : HunkState)
    → All IsPlain body
    → (consume_body body h).seen_body ≡ (h.seen_body || any is_change body)
unfolding consume starts_with
consume_body-seen [] h k = ground arith
consume_body-seen (BodyLine.context t ∷ body) h (k, ks) =
    consume_body-seen body (consume (b' ' ∷ t) h) ks
consume_body-seen (BodyLine.added t ∷ body) h (k, ks) =
    ground (arith, consume_body-seen body (consume (b'+' ∷ t) h) ks)
consume_body-seen (BodyLine.removed t ∷ body) h (k, ks) =
    ground (arith, consume_body-seen body (consume (b'-' ∷ t) h) ks)
consume_body-seen (BodyLine.no_newline t ∷ body) h (k, ks) =
    consume_body-seen body (consume (b'\\' ∷ t) h) ks

commit-covers :
    (n : ℕ) (h : HunkState) (f : FileAccumulator)
    → h.seen_body ≡ true
    → (covers n (commit h f).new_ranges ≡ (covers n f.new_ranges || has_line n h.added))
      × (covers n (commit h f).old_ranges ≡ (covers n f.old_ranges || has_line n h.removed))
unfolding commit
commit-covers n h f e = rw e (
  any-append (λ r. in_range r n) f.new_ranges (ranges_from_lines h.added)
      ∙ ap (λ b. covers n f.new_ranges || b) (covers-ranges_from_lines n h.added),
  any-append (λ r. in_range r n) f.old_ranges (ranges_from_lines h.removed)
      ∙ ap (λ b. covers n f.old_ranges || b) (covers-ranges_from_lines n h.removed),
)

module _ (digit_of : ℕ → Option ℕ) (origin : Text) where
  -- The loop over the lines of a body.
  abbrev pub read_body : List BodyLine → Parser → Parser
  read_body [] p = p
  read_body (l ∷ body) p = read_body body (step digit_of origin (render l) p)

  step-body :
      (l : BodyLine) (p : Parser) (h : HunkState)
      → p.hunk ≡ some h
      → IsPlain l
      → step digit_of origin (render l) p ≡ record p { hunk = some (consume (render l) h) }
  unfolding step file_line path_line other_line hunk_line starts_with path_behind hunk_header
  step-body (BodyLine.context t) p h e k = rw e refl
  step-body (BodyLine.added t) p h e k = ground arith
  step-body (BodyLine.removed t) p h e k = ground arith
  step-body (BodyLine.no_newline t) p h e k = rw e refl

  read_body-consume :
      (body : List BodyLine) (p : Parser) (h : HunkState)
      → p.hunk ≡ some h
      → All IsPlain body
      → read_body body p ≡ record p { hunk = some (consume_body body h) }
  read_body-consume [] p h e k = rw (← e) refl
  read_body-consume (l ∷ body) p h e (k, ks) =
      rw (step-body l p h e k)
        (read_body-consume body (record p { hunk = some (consume (render l) h) }) _ refl ks)

  -- Take a hunk header and a body whose lines are not read as `+++` or `---` lines, with a change
  -- in it. When `parse_unified_diff` has read them and commits the hunk, it has added to the
  -- current file exactly the lines that the body changes, on each side: counting from the start in
  -- the header, or from 1 if that is 0, the places of the added lines among the lines that are not
  -- removed, and of the removed lines among those that are not added.
  pub read_body-covers :
      (found : (ℕ × Option ℕ) × (ℕ × Option ℕ)) (body : List BodyLine) (p : Parser) (n : ℕ)
      → All IsPlain body
      → any is_change body ≡ true
      → let q = read_body body (record p { hunk = some (from_match found) }) in
        let f = commit_hunk q.hunk q.current in
        (covers n f.new_ranges
          ≡ (covers n p.current.new_ranges || is_changed (max found.1.0 1) (new_side body) n))
        × (covers n f.old_ranges
            ≡ (covers n p.current.old_ranges || is_changed (max found.0.0 1) (old_side body) n))
  unfolding from_match
  read_body-covers ((a, b), (c, d)) body p n plain change =
      let h = from_match ((a, b), (c, d)) in
      let start : Parser = record p { hunk = some h } in
      let (new, old) =
        commit-covers n (consume_body body h) p.current
          (ground (arith, consume_body-seen body h plain)) in
      rw (read_body-consume body start h refl plain) (
        new ∙ ap (λ x. covers n p.current.new_ranges || x) (consume_body-added n body h plain),
        old ∙ ap (λ x. covers n p.current.old_ranges || x) (consume_body-removed n body h plain),
      )
