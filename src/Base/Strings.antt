-- ===== src/Base/Strings.antt =====
-- Texts as lists of code points, as Python's `str` is: equality, order, search, strip, join.
use Prim.Native.Char.{code}
use netflix_flaky_test_triag.Base.Names.{
  inl, inr, ℕ, zero, suc, ◌+◌, ◌/◌, ◌%◌, ◌≡◌, refl, ◌↔◌, Bool, true, false, ◌&&◌, ◌||◌, List, [],
  ◌∷◌, ◌++◌, map, reverse, String, arith,
}
use netflix_flaky_test_triag.Base.Tests.{if◌then◌else◌, ◌==◌, leb, ltb, Bool-cases}
use netflix_flaky_test_triag.Base.Lists.{is_empty}

abbrev pub Text : Type 0
Text = List ℕ

-- A literal.
abbrev pub codes : String → Text
codes String.[] = []
codes (String.◌∷◌ c s) = code c ∷ codes s

unfoldable pub text_eq : Text → Text → Bool
text_eq [] [] = true
text_eq (c ∷ s) (d ∷ t) = c == d && text_eq s t
text_eq _ _ = false

pub text_eq→eq : (s t : Text) → text_eq s t ≡ true → s ≡ t
unfolding text_eq
text_eq→eq [] [] h = refl
text_eq→eq (c ∷ s) (d ∷ t) h = ground (arith, text_eq→eq s t)
text_eq→eq [] (d ∷ t) h = cc
text_eq→eq (c ∷ s) [] h = cc

pub text_eq_refl : (s : Text) → text_eq s s ≡ true
unfolding text_eq
text_eq_refl [] = refl
text_eq_refl (c ∷ s) = ground (arith, text_eq_refl s)

pub text_eq_iff : (s t : Text) → (text_eq s t ≡ true) ↔ (s ≡ t)
text_eq_iff s t = (text_eq→eq s t, λ e. rw e (text_eq_refl t))

pub text_eq-false_sym : (s t : Text) → text_eq s t ≡ false → text_eq t s ≡ false
text_eq-false_sym s t e = elim (Bool-cases (text_eq t s)) [
  | inl k ↦ ground (arith, text_eq_refl t, text_eq→eq t s k, e)
  | inr k ↦ k
]

-- `s <= t`: lexicographic by code points.
unfoldable pub text_leb : Text → Text → Bool
text_leb [] t = true
text_leb (c ∷ s) [] = false
text_leb (c ∷ s) (d ∷ t) = if c == d then text_leb s t else ltb c d

-- `s in keys`
unfoldable pub text_in : Text → List Text → Bool
text_in s [] = false
text_in s (t ∷ ts) = text_eq s t || text_in s ts

unfoldable pub starts_with : Text → Text → Bool
starts_with [] s = true
starts_with (p ∷ ps) [] = false
starts_with (p ∷ ps) (c ∷ s) = p == c && starts_with ps s

unfoldable pub ends_with : Text → Text → Bool
unfolding starts_with
ends_with p s = starts_with (reverse p) (reverse s)

-- `p in s`
unfoldable pub contains : Text → Text → Bool
unfolding starts_with
contains p [] = is_empty p
contains p (c ∷ s) = starts_with p (c ∷ s) || contains p s

-- `str.isspace` of one code point.
unfoldable pub is_space : ℕ → Bool
is_space c =
    (leb 9 c && leb c 13)
    || (leb 28 c && leb c 32)
    || c == 133
    || c == 160
    || c == 5760
    || (leb 8192 c && leb c 8202)
    || c == 8232
    || c == 8233
    || c == 8239
    || c == 8287
    || c == 12288

unfoldable pub drop_while : (ℕ → Bool) → Text → Text
drop_while p [] = []
drop_while p (c ∷ s) = if p c then drop_while p s else c ∷ s

-- `s.strip(chars)`
unfoldable pub strip_of : (ℕ → Bool) → Text → Text
unfolding drop_while
strip_of p s = reverse (drop_while p (reverse (drop_while p s)))

-- `s.strip()`
unfoldable pub strip : Text → Text
unfolding strip_of is_space
strip = strip_of is_space

-- `s.replace(old, new)` of one code point.
unfoldable pub replace : ℕ → ℕ → Text → Text
replace old new = map (λ c. if c == old then new else c)

-- `sep.join(parts)`
unfoldable pub join : Text → List Text → Text
join sep [] = []
join sep (s ∷ []) = s
join sep (s ∷ t ∷ ts) = s ++ sep ++ join sep (t ∷ ts)

-- The first part of `s.split(sep)`.
unfoldable pub before : Text → Text → Text
unfolding starts_with
before sep [] = []
before sep (c ∷ s) = let rest = c ∷ before sep s in if starts_with sep (c ∷ s) then [] else rest

-- The line breaks of `str.splitlines`.
is_line_break : ℕ → Bool
is_line_break c =
    (leb 10 c && leb c 13) || (leb 28 c && leb c 30) || c == 133 || c == 8232 || c == 8233

-- The lines of a text, after the reversed beginning `acc` of the first one.
lines_from : Text → Text → List Text
lines_from acc [] = if is_empty acc then [] else reverse acc ∷ []
lines_from acc (c ∷ []) = if is_line_break c then reverse acc ∷ [] else reverse (c ∷ acc) ∷ []
lines_from acc (c ∷ d ∷ s) =
    let pair = reverse acc ∷ lines_from [] s in
    let single = reverse acc ∷ lines_from [] (d ∷ s) in
    let more = lines_from (c ∷ acc) (d ∷ s) in
    if c == 13 && d == 10 then pair else if is_line_break c then single else more

-- `s.splitlines()`
unfoldable pub split_lines : Text → List Text
unfolding lines_from is_line_break
split_lines = lines_from []

-- `str(n)`
digits : ℕ → ℕ → Text → Text
digits zero n acc = acc
digits (suc fuel) n acc =
    let rest = digits fuel (n / 10) ((b'0' + n % 10) ∷ acc) in
    if ltb n 10 then (b'0' + n) ∷ acc else rest

unfoldable pub decimal : ℕ → Text
unfolding digits
decimal n = digits (suc n) n []
