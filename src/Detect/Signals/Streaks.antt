-- ===== src/Detect/Signals/Streaks.antt =====
-- Streaks at the end of a list of windows, for `find_regression` of detect/detector.py.
use netflix_flaky_test_triag.Base.{
  suc, ◌-◌, ◌≤◌, ◌≡◌, refl, sym, ap, ◌∙◌, Bool, true, false, some, List, [], ◌∷◌, ◌++◌, reverse,
  reverse-append, reverse-reverse, length, length-append, length-reverse, take, get_elem?, All,
  arith, Bool-cases, inl, inr,
}
use netflix_flaky_test_triag.Detect.Window.{ShaWindow, WindowStatus, status}
use netflix_flaky_test_triag.Detect.Signals.{streak}

module _ {A : Type 0} where
  pub take-append : (xs ys : List A) → take (length xs) (xs ++ ys) ≡ xs
  take-append [] ys = refl
  take-append (x ∷ xs) ys = ap (λ t. x ∷ t) (take-append xs ys)

  pub get_elem?-append :
      (xs : List A) (y : A) (ys : List A) → get_elem? (xs ++ y ∷ ys) (length xs) ≡ some y
  get_elem?-append [] y ys = refl
  get_elem?-append (x ∷ xs) y ys = get_elem?-append xs y ys

  pub All-append : (P : A → Type 0) (xs ys : List A) → All P xs → All P ys → All P (xs ++ ys)
  All-append P [] ys h k = k
  All-append P (x ∷ xs) ys (h, hs) k = (h, All-append P xs ys hs k)

  pub All-reverse : (P : A → Type 0) (xs : List A) → All P xs → All P (reverse xs)
  All-reverse P [] h = tt
  All-reverse P (x ∷ xs) (h, hs) =
      rw (reverse-append (x ∷ []) xs)
        (All-append P (reverse xs) (x ∷ []) (All-reverse P xs hs) (h, tt))

abbrev pub Has : (WindowStatus → Bool) → ShaWindow → Type 0
Has wanted w = wanted (status w) ≡ true

-- The streak is a front of the list, all of the wanted status.
pub streak_split :
    (wanted : WindowStatus → Bool) (ws : List ShaWindow)
    → (front : List ShaWindow) × (rest : List ShaWindow) × (ws ≡ front ++ rest)
      × All (Has wanted) front
      × (length front ≡ streak wanted ws)
unfolding streak
streak_split wanted [] = ([], [], refl, tt, refl)
streak_split wanted (w ∷ ws) = elim (Bool-cases (wanted (status w))) [
  | inr e ↦ ([], w ∷ ws, refl, tt, rw e)
  | inl e ↦
      let (front, rest, q, a, l) = streak_split wanted ws in
      (w ∷ front, rest, ap (λ t. w ∷ t) q, (e, a), rw e (ap suc l))
]

-- A front of the wanted status, and then a window of another one.
pub streak-stop :
    (wanted : WindowStatus → Bool) (front : List ShaWindow) (w : ShaWindow) (rest : List ShaWindow)
    → All (Has wanted) front
    → wanted (status w) ≡ false
    → streak wanted (front ++ w ∷ rest) ≡ length front
unfolding streak
streak-stop wanted [] w rest a h = rw h
streak-stop wanted (v ∷ vs) w rest (hv, hs) h = rw hv (ap suc (streak-stop wanted vs w rest hs h))

-- A front of the wanted status is not longer than the streak.
pub streak-le :
    (wanted : WindowStatus → Bool) (front rest : List ShaWindow)
    → All (Has wanted) front
    → length front ≤ streak wanted (front ++ rest)
unfolding streak
streak-le wanted [] rest a = omega arith
streak-le wanted (v ∷ vs) rest (hv, hs) = rw hv (omega (arith, streak-le wanted vs rest hs))

-- The windows before the streak at the end of a list, and the streak.
pub tail_split :
    (wanted : WindowStatus → Bool) (ws : List ShaWindow)
    → (before : List ShaWindow) × (streak_windows : List ShaWindow) × (ws
        ≡ before ++ streak_windows)
      × All (Has wanted) streak_windows
      × (length streak_windows ≡ streak wanted (reverse ws))
      × (take (length ws - streak wanted (reverse ws)) ws ≡ before)
tail_split wanted ws =
    let (front, rest, q, a, l) = streak_split wanted (reverse ws) in
    let whole : ws ≡ reverse rest ++ reverse front =
      sym (reverse-reverse ws) ∙ ap reverse q ∙ reverse-append front rest in
    let size : length ws - streak wanted (reverse ws) ≡ length (reverse rest) = omega (
      arith,
      l,
      ap length whole,
      length-append (reverse rest) (reverse front),
      length-reverse front,
    ) in
    (
      reverse rest,
      reverse front,
      whole,
      All-reverse (Has wanted) front a,
      length-reverse front ∙ l,
      rw size
          (ap (take (length (reverse rest))) whole ∙ take-append (reverse rest) (reverse front)),
    )
