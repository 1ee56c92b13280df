-- ===== src/Identity/Fingerprint/Parameters.antt =====
-- The payload and the parameters of a name, of identity/fingerprint.py.
use netflix_flaky_test_triag.Base.{
  ℕ, ◌≡◌, refl, sym, ap, ◌∙◌, Bool, false, some, [], ◌∷◌, ◌++◌, Text, any, reverse, strip,
  drop_while, is_space, ◌==◌, ==_refl, reverse-append, reverse-reverse, append_assoc, arith,
}
use netflix_flaky_test_triag.Identity.Fingerprint.{
  payload, split_parameters, split_bracket, drop_close, is_line_feed,
}

abbrev pub has_code : ℕ → Text → Bool
has_code k s = any (λ c. c == k) s

-- A text with no separator is read back from in front of one.
separated :
    (k : ℕ) (s t s' t' : Text)
    → has_code k s ≡ false
    → has_code k s' ≡ false
    → s ++ k ∷ t ≡ s' ++ k ∷ t'
    → (s ≡ s') × (t ≡ t')
separated k [] t [] t' h h' e = ground arith
separated k [] t (c ∷ s') t' h h' e = ground (arith, ==_refl k)
separated k (c ∷ s) t [] t' h h' e = ground (arith, ==_refl k)
separated k (c ∷ s) t (d ∷ s') t' h h' e = ground (arith, separated k s t s' t')

-- Two identities whose suite paths and names hold no separator have the same payload only if their
-- suite paths, names and parameters are the same.
payload_injective :
    (suite name parameters suite' name' parameters' : Text)
    → has_code 0x1f suite ≡ false
    → has_code 0x1f suite' ≡ false
    → has_code 0x1f name ≡ false
    → has_code 0x1f name' ≡ false
    → payload suite name parameters ≡ payload suite' name' parameters'
    → (suite ≡ suite') × (name ≡ name') × (parameters ≡ parameters')
unfolding payload
payload_injective suite name parameters suite' name' parameters' hs hs' hn hn' e =
    let (p, q) = separated 0x1f suite _ suite' _ hs hs' e in
    let (r, t) = separated 0x1f name parameters name' parameters' hn hn' q in (p, r, t)

split_bracket-append :
    (b p : Text) → has_code b'[' b ≡ false → split_bracket (b ++ b'[' ∷ p) ≡ some (b, p)
unfolding split_bracket
split_bracket-append [] p h = refl
split_bracket-append (c ∷ b) p h = ground (arith, split_bracket-append b p)

drop_close-append : (p : Text) → drop_close (p ++ b']' ∷ []) ≡ some p
unfolding drop_close
drop_close-append [] = refl
drop_close-append (c ∷ []) = refl
drop_close-append (c ∷ d ∷ p) = rw (drop_close-append (d ∷ p))

any-no_feed :
    (b p : Text)
    → any is_line_feed b ≡ false
    → any is_line_feed p ≡ false
    → any is_line_feed (b ++ b'[' ∷ (p ++ b']' ∷ [])) ≡ false
unfolding is_line_feed
any-no_feed [] [] hb hp = refl
any-no_feed [] (c ∷ p) hb hp = ground (arith, any-no_feed [] p)
any-no_feed (c ∷ b) p hb hp = ground (arith, any-no_feed b p)

strip-wrapped :
    (c : ℕ) (s : Text) → is_space c ≡ false → strip (c ∷ (s ++ b']' ∷ [])) ≡ c ∷ (s ++ b']' ∷ [])
unfolding strip drop_while
strip-wrapped c s h =
    let back : reverse (c ∷ (s ++ b']' ∷ [])) ≡ b']' ∷ reverse (c ∷ s) =
      reverse-append (c ∷ s) (b']' ∷ []) in
    rw (h, back) (ap reverse (sym back) ∙ reverse-reverse (c ∷ (s ++ b']' ∷ [])))

-- A parameterized name is split where it was put together: a base that starts with no space and
-- has no bracket, and parameters, both stripped and with no line feed, are read back from the name
-- `base[parameters]`.
pub split_parameters-append :
    (c : ℕ) (base parameters : Text)
    → is_space c ≡ false
    → strip (c ∷ base) ≡ c ∷ base
    → strip parameters ≡ parameters
    → has_code b'[' (c ∷ base) ≡ false
    → has_code 10 (c ∷ base) ≡ false
    → has_code 10 parameters ≡ false
    → split_parameters ((c ∷ base) ++ b'[' ∷ (parameters ++ b']' ∷ [])) ≡ (c ∷ base, parameters)
unfolding split_parameters
split_parameters-append c base parameters hc sb sp nb fb fp =
    let whole : strip ((c ∷ base) ++ b'[' ∷ (parameters ++ b']' ∷ []))
        ≡ (c ∷ base) ++ b'[' ∷ (parameters ++ b']' ∷ []) =
      ap (λ t. strip (c ∷ t)) (sym (append_assoc base (b'[' ∷ parameters) (b']' ∷ [])))
      ∙ strip-wrapped c (base ++ b'[' ∷ parameters) hc
      ∙ ap (λ t. c ∷ t) (append_assoc base (b'[' ∷ parameters) (b']' ∷ [])) in
    ground (
      arith,
      split_bracket-append (c ∷ base) (parameters ++ b']' ∷ []) nb,
      drop_close-append parameters,
      any-no_feed (c ∷ base) parameters fb fp,
    )
