-- ===== src/Detect/Rates/Bounds.antt =====
-- The range of the rates of detect/rates.py.
use netflix_flaky_test_triag.Base.{
  ◌≡◌, Bool, true, false, not, List, [], ◌∷◌, map, All, is_empty, if◌then◌else◌, ltb, length, keep,
}
use netflix_flaky_test_triag.Runtime.{Runtime, IsOrdered}
use netflix_flaky_test_triag.Config.{DetectConfig}
use netflix_flaky_test_triag.Detect.Window.{ShaWindow, is_diverged}
use netflix_flaky_test_triag.Detect.History.{History, statuses, retry_data_available}
use netflix_flaky_test_triag.Detect.Rates.{
  ewma, ewma_from, indicator, divergence_rate, intermittency_rate, flake_rate, data_windows,
  pairwise_flips, is_no_data,
}

module _ {F : Type 0} (rt : Runtime F) (ordered : IsOrdered rt) where
  abbrev pub InUnit : F → Type 0
  InUnit x = (rt.le (rt.of_nat 0) x ≡ true) × (rt.le x (rt.of_nat 1) ≡ true)

  indicator-InUnit : (b : Bool) → InUnit (indicator rt b)
  indicator-InUnit true = (ordered.zero-le-one, ordered.le_refl (rt.of_nat 1))
  indicator-InUnit false = (ordered.le_refl (rt.of_nat 0), ordered.zero-le-one)

  indicators-InUnit : (bs : List Bool) → All InUnit (map (indicator rt) bs)
  indicators-InUnit [] = tt
  indicators-InUnit (b ∷ bs) = (indicator-InUnit b, indicators-InUnit bs)

  -- One smoothing step from two numbers of the interval stays in it.
  smooth-InUnit :
      (alpha v s : F)
      → InUnit alpha
      → InUnit v
      → InUnit s
      → InUnit (rt.add (rt.mul alpha v) (rt.mul (rt.sub (rt.of_nat 1) alpha) s))
  smooth-InUnit alpha v s (a0, a1) (v0, v1) (s0, s1) =
      let zero : F = rt.of_nat 0 in
      let one : F = rt.of_nat 1 in
      let rest : F = rt.sub one alpha in
      let rest0 : rt.le zero rest ≡ true = ordered.sub_nonneg alpha a1 in
      (
        ordered.le_trans _ _ _ (ordered.zero-le-complement alpha a0 a1) (
            ordered.add_mono _ _ _ _ (ordered.mul_mono alpha zero v a0 v0)
              (ordered.mul_mono rest zero s rest0 s0)),
        ordered.le_trans _ _ _
            (ordered.add_mono _ _ _ _ (ordered.mul_mono alpha v one a0 v1)
              (ordered.mul_mono rest s one rest0 s1))
            (ordered.complement_le_one alpha a0 a1),
      )

  ewma_from-InUnit :
      (alpha s : F) (vs : List F)
      → InUnit alpha
      → InUnit s
      → All InUnit vs
      → InUnit (ewma_from rt alpha s vs)
  unfolding ewma_from
  ewma_from-InUnit alpha s [] a hs h = hs
  ewma_from-InUnit alpha s (v ∷ vs) a hs (hv, h) =
      ewma_from-InUnit alpha (rt.add (rt.mul alpha v) (rt.mul (rt.sub (rt.of_nat 1) alpha) s)) vs a
        (smooth-InUnit alpha v s a hv hs) h

  ewma-InUnit : (alpha : F) (vs : List F) → InUnit alpha → All InUnit vs → InUnit (ewma rt vs alpha)
  unfolding ewma
  ewma-InUnit alpha [] a h = (ordered.le_refl (rt.of_nat 0), ordered.zero-le-one)
  ewma-InUnit alpha (v ∷ vs) a (hv, h) = ewma_from-InUnit alpha v vs a hv h

  diverged-InUnit : (ws : List ShaWindow) → All InUnit (map (λ w. indicator rt (is_diverged w)) ws)
  diverged-InUnit [] = tt
  diverged-InUnit (w ∷ ws) = (indicator-InUnit (is_diverged w), diverged-InUnit ws)

  if-InUnit : (b : Bool) (x y : F) → InUnit x → InUnit y → InUnit (if b then x else y)
  if-InUnit true x y hx hy = hx
  if-InUnit false x y hx hy = hy

  -- With a smoothing factor between 0 and 1, the divergence rate, the intermittency rate and the
  -- flake rate of every history lie between 0 and 1.
  pub rates-InUnit :
      (config : DetectConfig F) (h : History)
      → InUnit config.ewma_alpha
      → InUnit (divergence_rate rt config h)
        × InUnit (intermittency_rate rt config h)
        × InUnit (flake_rate rt config h)
  unfolding divergence_rate intermittency_rate flake_rate
  rates-InUnit config h a =
      let zero_in = indicator-InUnit false in
      let d =
        if-InUnit (is_empty (data_windows h)) _ _ zero_in
          (ewma-InUnit config.ewma_alpha _ a (diverged-InUnit (data_windows h))) in
      let known = keep (λ s. not (is_no_data s)) (statuses h) in
      let i =
        if-InUnit (ltb (length known) 2) _ _ zero_in
          (ewma-InUnit config.ewma_alpha _ a (indicators-InUnit (pairwise_flips known))) in
      (d, i, if-InUnit (retry_data_available h) _ _ d i)
